-- ===== src/Configuration/Files/Lines.antt =====
-- Reading a line of a configuration file that was written in a given form: what fgets() and parse() make
-- of the text of an entry.
use ssr_pre.Common.{
  ℕ, Bool, true, false, ◌||◌, [], ◌∷◌, ◌++◌, ◌==◌, ◌≡◌, ◌<◌, ◌-◌, refl, ap, ◌∙◌, length, arith,
  append_assoc,
}
use ssr_pre.Common.Text.{Text}
use ssr_pre.PathTools.{isspace}
use ssr_pre.Configuration.{
  ConfigError, until, skip, stops_key, stops_value, parse, is_comment_or_empty,
}
use ssr_pre.Configuration.Files.{newline, room, fgets_from, c_string}

-- No character of the text passes the test.
abbrev pub Avoids : (ℕ → Bool) → Text → Type 0
Avoids test [] = Unit {0}
Avoids test (c ∷ s) = (test c ≡ false) × Avoids test s

pub Avoids-append :
    (test : ℕ → Bool) (s t : Text) → Avoids test s → Avoids test t → Avoids test (s ++ t)
Avoids-append test [] t h k = k
Avoids-append test (c ∷ s) t (h, hs) k = (h, Avoids-append test s t hs k)

-- A weaker test is avoided, too.
pub Avoids-weaken :
    (test other : ℕ → Bool)
    → ((c : ℕ) → test c ≡ false → other c ≡ false)
    → (s : Text) → Avoids test s
    → Avoids other s
Avoids-weaken test other weaker [] h = tt
Avoids-weaken test other weaker (c ∷ s) (h, hs) = (weaker c h, Avoids-weaken test other weaker s hs)

pub until-append :
    (stop : ℕ → Bool) (t : Text) (c : ℕ) (s : Text)
    → Avoids stop t
    → stop c ≡ true
    → until stop (t ++ c ∷ s) ≡ (t, c ∷ s)
unfolding until
until-append stop [] c s h k = rw k
until-append stop (d ∷ t) c s (h, hs) k = rw (h, until-append stop t c s hs k)

pub until_all : (stop : ℕ → Bool) (t : Text) → Avoids stop t → until stop t ≡ (t, [])
unfolding until
until_all stop [] h = refl
until_all stop (d ∷ t) (h, hs) = rw (h, until_all stop t hs)

-- What a line consists of: no newline and no zero byte.
abbrev pub is_break : ℕ → Bool
is_break c = c == newline || c == 0

abbrev pub is_zero : ℕ → Bool
is_zero c = c == 0

pub c_string_lem : (t : Text) → Avoids is_zero t → c_string t ≡ t
unfolding c_string
c_string_lem t h = ap (λ p. p.0) (until_all is_zero t h)

-- fgets() of a line that fits into the buffer.
pub fgets_from-append :
    (left : ℕ) (line t s : Text)
    → Avoids is_break t
    → length t < left
    → fgets_from left line (t ++ newline ∷ s) ≡ (line ++ (t ++ newline ∷ [])) ∷ fgets_from room [] s
unfolding fgets_from
fgets_from-append left line [] s h fits = refl
fgets_from-append left line (c ∷ t) s (h, hs) fits =
    let other : ((c == newline) || (left == 1)) ≡ false = ground arith in
    rw (other, fgets_from)
      (fgets_from-append (left - 1) (line ++ c ∷ []) t s hs (omega arith)
        ∙ ap (λ l. l ∷ fgets_from room [] s) (append_assoc line (c ∷ []) (t ++ newline ∷ [])))

-- A text that the loop over the key reads to its end.
abbrev pub key_end : ℕ → Bool
key_end c = stops_key c || c == 0

abbrev pub value_end : ℕ → Bool
value_end c = stops_value c || c == 0

abbrev pub blank : ℕ
blank = 32

-- A key that begins a line which is no comment.
abbrev pub IsKey : Text → Type 0
IsKey [] = ⊥
IsKey (c ∷ s) = ((c == b'#') ≡ false) × Avoids key_end (c ∷ s)

pub skip_key : (k s : Text) → IsKey k → skip isspace (k ++ s) ≡ k ++ s
unfolding skip
skip_key [] s h = absurd h
skip_key (c ∷ k) s h = let no_space : isspace c ≡ false = ground arith in rw (no_space, skip)

pub is_comment_or_empty-key : (k s : Text) → IsKey k → is_comment_or_empty (k ++ s) ≡ false
unfolding is_comment_or_empty
is_comment_or_empty-key [] s h = absurd h
is_comment_or_empty-key (c ∷ k) s h = rw (skip_key (c ∷ k) s h) (rw h.0)

pub is_comment_or_empty-hash : (s : Text) → is_comment_or_empty (b'#' ∷ s) ≡ true
unfolding is_comment_or_empty skip
is_comment_or_empty-hash s = refl

IsKey-Avoids : (k : Text) → IsKey k → Avoids stops_key k
IsKey-Avoids [] h = absurd h
IsKey-Avoids (c ∷ k) h =
    Avoids-weaken key_end stops_key (λ d e. ground arith) (c ∷ k) (h.1.0, h.1.1)

pub IsKey-Avoids_break : (k : Text) → IsKey k → Avoids is_break k
IsKey-Avoids_break [] h = absurd h
IsKey-Avoids_break (c ∷ k) h =
    Avoids-weaken key_end is_break (λ d e. ground arith) (c ∷ k) (h.1.0, h.1.1)

-- The line of a setting, in front of the newline.
abbrev pub print_setting : Text → Text → Text
print_setting k v = k ++ (blank ∷ b'=' ∷ blank ∷ b'"' ∷ v ++ b'"' ∷ [])

pub parse-print_setting :
    (k v s old : Text)
    → IsKey k
    → Avoids stops_value v
    → parse (k ++ (blank ∷ b'=' ∷ blank ∷ b'"' ∷ v ++ b'"' ∷ s)) old
      ≡ record { key = k; value = v; result = ConfigError.success }
unfolding parse
parse-print_setting k v s old h hv =
    let rest : Text = b'=' ∷ blank ∷ b'"' ∷ v ++ b'"' ∷ s in
    rw (
      skip_key k (blank ∷ rest) h,
      until-append stops_key k blank rest (IsKey-Avoids k h) refl,
      until-append stops_value v b'"' s hv refl,
    )

-- A key without a value, and one with an empty value: the buffer keeps what it holds.
pub parse-no_value :
    (k old : Text)
    → IsKey k
    → parse (k ++ newline ∷ []) old ≡ record { key = k; value = old; result = ConfigError.no_value }
unfolding parse
parse-no_value k old h =
    rw (skip_key k (newline ∷ []) h, until-append stops_key k newline [] (IsKey-Avoids k h) refl)

pub parse-empty :
    (k old : Text)
    → IsKey k
    → parse (k ++ blank ∷ b'=' ∷ newline ∷ []) old
      ≡ record { key = k; value = old; result = ConfigError.empty }
unfolding parse
parse-empty k old h = rw (
  skip_key k (blank ∷ b'=' ∷ newline ∷ []) h,
  until-append stops_key k blank (b'=' ∷ newline ∷ []) (IsKey-Avoids k h) refl,
)
