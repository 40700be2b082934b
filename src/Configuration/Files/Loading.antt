-- ===== src/Configuration/Files/Loading.antt =====
-- load_config_file() against a description of what the entries of a file do, one after another.
use ssr_pre.Common.{
  true, false, List, [], ◌∷◌, ◌++◌, ◌≡◌, ◌<◌, ◌+◌, refl, ap, ◌∙◌, sym, length, arith, append_assoc,
  map, length-append, Option-cases, inl, inr,
}
use mathlib.Core.Path.{fun_ext}
use ssr_pre.Common.Text.{Text}
use ssr_pre.Configuration.{
  Startup, Platform, ConfigError, stops_value, parse, is_comment_or_empty, known_key,
}
use ssr_pre.Configuration.Files.{
  Outcome, done, failure, System, newline, room, fgets_from, c_string, assign, assign_then,
  and_then, load_lines, is_accepted,
}
use ssr_pre.Configuration.Files.Lines.{
  Avoids, Avoids-append, Avoids-weaken, is_break, is_zero, c_string_lem, fgets_from-append,
  value_end, blank, IsKey, IsKey-Avoids_break, is_comment_or_empty-key, is_comment_or_empty-hash,
  print_setting, parse-print_setting,
}

-- A comment, or a key with a value in quotes.
pub data Entry : Type 0 where
  remark : Text → Entry
  setting : Text → Text → Entry

-- The line of an entry, in front of the newline.
abbrev pub print_entry : Entry → Text
print_entry (remark t) = b'#' ∷ t
print_entry (setting k v) = print_setting k v

unfoldable pub print_file : List Entry → Text
print_file [] = []
print_file (e ∷ es) = print_entry e ++ newline ∷ print_file es

abbrev pub Printable : Entry → Type 0
Printable (remark t) = Avoids is_break t × (length t + 1 < room)
Printable (setting k v) = IsKey k × Avoids value_end v × (length k + length v + 5 < room)

abbrev pub AllPrintable : List Entry → Type 0
AllPrintable [] = Unit {0}
AllPrintable (e ∷ es) = Printable e × AllPrintable es

-- The value of the last setting, or the one before all of them.
abbrev pub last_value : Text → List Entry → Text
last_value old [] = old
last_value old (remark t ∷ es) = last_value old es
last_value old (setting k v ∷ es) = last_value v es

Printable-Avoids : (e : Entry) → Printable e → Avoids is_break (print_entry e)
Printable-Avoids (remark t) h = (refl, h.0)
Printable-Avoids (setting k v) h = Avoids-append is_break k _ (IsKey-Avoids_break k h.0) (
  refl,
  (
    refl,
    (
      refl,
      (
        refl,
        Avoids-append is_break v (b'"' ∷ [])
            (Avoids-weaken value_end is_break (λ c e. ground arith) v h.1) (refl, tt),
      ),
    ),
  ),
)

Printable-length : (e : Entry) → Printable e → length (print_entry e) < room
Printable-length (remark t) h = omega arith
Printable-length (setting k v) h = omega (
  arith,
  length-append k (blank ∷ b'=' ∷ blank ∷ b'"' ∷ v ++ b'"' ∷ []),
  length-append v (b'"' ∷ []),
)

-- The lines that fgets() finds, as strings.
unfoldable pub lines : Text → List Text
lines file = map c_string (fgets_from room [] file)

pub lines-append :
    (t s : Text)
    → Avoids is_break t
    → length t < room
    → lines (t ++ newline ∷ s) ≡ (t ++ newline ∷ []) ∷ lines s
unfolding lines
lines-append t s h fits =
    rw (fgets_from-append room [] t s h fits)
      (ap (λ l. l ∷ map c_string (fgets_from room [] s)) (c_string_lem (t ++ newline ∷ []) whole))
  where
    whole : Avoids is_zero (t ++ newline ∷ [])
    whole =
        Avoids-append is_zero t (newline ∷ [])
          (Avoids-weaken is_break is_zero (λ c e. ground arith) t h) (refl, tt)

setting_line :
    (k v s : Text) → print_setting k v ++ s ≡ k ++ (blank ∷ b'=' ∷ blank ∷ b'"' ∷ v ++ b'"' ∷ s)
setting_line k v s = simp append_assoc

entry_line :
    (e : Entry) (es : List Entry) (rest : Text)
    → Printable e
    → lines (print_file (e ∷ es) ++ rest)
      ≡ (print_entry e ++ newline ∷ []) ∷ lines (print_file es ++ rest)
unfolding print_file
entry_line e es rest h = rw (append_assoc (print_entry e) (newline ∷ print_file es) rest) (
    lines-append (print_entry e) (print_file es ++ rest) (Printable-Avoids e h)
      (Printable-length e h))

module _ {P F : Type 0} (pf : Platform P F) (sys : System) (filename : Text) where
  -- What the entries of a file do: each setting is assigned, and an unknown key ends it.
  unfoldable pub assign_all : List Entry → Startup P F → Outcome (Startup P F)
  assign_all [] s = done s
  assign_all (remark t ∷ es) s = assign_all es s
  assign_all (setting k v ∷ es) s = assign_then pf sys filename k v (assign_all es) s

  assign_then_lem :
      (k v : Text) (f g : Startup P F → Outcome (Startup P F)) (s : Startup P F)
      → and_then (assign_then pf sys filename k v f s) g
        ≡ assign_then pf sys filename k v (λ s'. and_then (f s') g) s
  assign_then_lem k v f g s = elim (Option-cases (known_key k)) [
    | inl unknown ↦ rw (unknown, assign_then, and_then)
    | inr (key, known) ↦
        rw (known, assign_then, and_then)
          (elim (Option-cases (assign pf sys filename key v s)) [
            | inl fails ↦ rw fails
            | inr (s', assigned) ↦ rw assigned
          ])
  ]

  pub and_then_done : (o : Outcome (Startup P F)) → and_then o done ≡ o
  and_then_done o = ground arith

  module _ (line old : Text) (ls : List Text) (s : Startup P F) where
    skip_line :
        is_comment_or_empty line ≡ true
        → load_lines pf sys filename (line ∷ ls) old s ≡ load_lines pf sys filename ls old s
    unfolding load_lines
    skip_line h = rw (h, load_lines)

    pub accept_line :
        is_comment_or_empty line ≡ false
        → {key value : Text} {result : ConfigError}
        → parse line old ≡ record { key = key; value = value; result = result }
        → is_accepted result ≡ true
        → load_lines pf sys filename (line ∷ ls) old s
          ≡ assign_then pf sys filename key value (load_lines pf sys filename ls value) s
    unfolding load_lines
    accept_line h e a =
        let accepted : is_accepted (parse line old).result ≡ true = rw e a in
        rw (h, load_lines) (rw accepted (rw e))

    pub reject_line :
        is_comment_or_empty line ≡ false
        → is_accepted (parse line old).result ≡ false
        → load_lines pf sys filename (line ∷ ls) old s ≡ failure s
    unfolding load_lines
    reject_line h a = rw (h, load_lines) (rw a)

  load_setting :
      (k v old : Text) (ls : List Text) (s : Startup P F)
      → IsKey k
      → Avoids value_end v
      → load_lines pf sys filename ((print_setting k v ++ newline ∷ []) ∷ ls) old s
        ≡ assign_then pf sys filename k v (load_lines pf sys filename ls v) s
  load_setting k v old ls s h hv =
      let plain = Avoids-weaken value_end stops_value (λ c e. ground arith) v hv in
      let end : Text = newline ∷ [] in
      rw (setting_line k v end) (
        accept_line _ old ls s
          (is_comment_or_empty-key k (blank ∷ b'=' ∷ blank ∷ b'"' ∷ v ++ b'"' ∷ end) h)
          (parse-print_setting k v end old h plain) refl)

  pub load_lines-print_file :
      (es : List Entry) (rest old : Text) (s : Startup P F)
      → AllPrintable es
      → load_lines pf sys filename (lines (print_file es ++ rest)) old s
        ≡ and_then (assign_all es s) (load_lines pf sys filename (lines rest) (last_value old es))
  unfolding assign_all print_file
  load_lines-print_file [] rest old s h = refl
  load_lines-print_file (remark t ∷ es) rest old s (h, hs) = rw (entry_line (remark t) es rest h) (
      skip_line (b'#' ∷ t ++ newline ∷ []) old (lines (print_file es ++ rest)) s
        (is_comment_or_empty-hash _)
      ∙ load_lines-print_file es rest old s hs)
  load_lines-print_file (setting k v ∷ es) rest old s (h, hs) =
      rw (entry_line (setting k v) es rest h) (
        load_setting k v old (lines (print_file es ++ rest)) s h.0 h.1
        ∙ rw (fun_ext (λ s'. load_lines-print_file es rest v s' hs)) (
            sym (
              assign_then_lem k v (assign_all es)
                (load_lines pf sys filename (lines rest) (last_value v es)) s)))

  pub assign_all-append :
      (es fs : List Entry) (s : Startup P F)
      → assign_all (es ++ fs) s ≡ and_then (assign_all es s) (assign_all fs)
  unfolding assign_all
  assign_all-append [] fs s = refl
  assign_all-append (remark t ∷ es) fs s = assign_all-append es fs s
  assign_all-append (setting k v ∷ es) fs s =
      rw (fun_ext (λ s'. assign_all-append es fs s'))
        (sym (assign_then_lem k v (assign_all es) (assign_all fs) s))
