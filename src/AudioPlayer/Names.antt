-- ===== src/AudioPlayer/Names.antt =====
-- The name of a JACK client: its length and its characters.
use ssr_pre.Common.{
  ℕ, zero, suc, ◌+◌, ◌-◌, ◌≤◌, Bool, false, List, [], ◌∷◌, Option, none, some, ◌≡◌, ◌==◌, refl,
  arith, ltb, length, Bool-cases, inl, inr,
}
use ssr_pre.Common.Text.{Text}
use ssr_pre.PathTools.{slash, substr, get_escaped_filename}
use ssr_pre.AudioPlayer.{
  Soundfile, Ecasound, Made, made, soundfile_error, aborted, ◌>>=◌, replace, shortened,
  client_name_of, soundfile, connected, get_format, get_jack_sample_rate, named,
}

-- No character is a slash.
abbrev pub WithoutSlash : Text → Type 0
WithoutSlash [] = Unit {0}
WithoutSlash (c ∷ s) = ((c == slash) ≡ false) × WithoutSlash s

replace-WithoutSlash : (s : Text) → WithoutSlash (replace slash b'_' s)
replace-WithoutSlash [] = tt
replace-WithoutSlash (c ∷ s) = (ground arith, replace-WithoutSlash s)

length-replace : (a b : ℕ) (s : Text) → length (replace a b s) ≡ length s
length-replace a b [] = refl
length-replace a b (c ∷ s) = omega (arith, length-replace a b s)

length-substr : (s : Text) (n : ℕ) → length (substr s n) ≡ length s - n
length-substr s zero = omega arith
length-substr [] (suc n) = omega arith
length-substr (c ∷ s) (suc n) = omega (arith, length-substr s n)

-- A name that JACK accepts, with room for a number that Ecasound may append.
pub record Fits (jack_size : ℕ) (name : Text) : Type 0 where
  pub short : length name + 4 ≤ jack_size
  pub plain : WithoutSlash name

-- What holds of a name, if there is one.
abbrev Gives : {A : Type 0} → (A → Type 0) → Option A → Type 0
Gives P none = Unit {0}
Gives P (some a) = P a

-- The marked end of a name.
abbrev marked : Text → Option Text
marked [] = none
marked (c ∷ s) = some (b'<' ∷ s)

marked-le : (m : ℕ) (s : Text) → length s ≤ m → Gives (λ name. length name ≤ m) (marked s)
marked-le m [] h = tt
marked-le m (c ∷ s) h = h

shortened-le : (m : ℕ) (escaped : Text) → Gives (λ name. length name ≤ m) (shortened m escaped)
unfolding shortened
shortened-le zero escaped = elim (Bool-cases (ltb 0 (length escaped))) [
  | inl long ↦ rw long tt
  | inr short ↦ let fits : length escaped ≤ 0 = ground arith in rw short fits
]
shortened-le (suc m) escaped = elim (Bool-cases (ltb (suc m) (length escaped))) [
  | inl long ↦
      let part = substr escaped (length escaped - suc m) in
      let fits : length part ≤ suc m =
        omega (arith, length-substr escaped (length escaped - suc m)) in
      rw long (marked-le (suc m) part fits)
  | inr short ↦ let fits : length escaped ≤ suc m = ground arith in rw short fits
]

client_name_of-Fits :
    (jack_size : ℕ) (escaped : Text) → Gives (Fits jack_size) (client_name_of jack_size escaped)
unfolding client_name_of
client_name_of-Fits jack_size escaped = elim (Bool-cases (ltb jack_size 5)) [
  | inl small ↦ rw small tt
  | inr large ↦ rw large (
      bracketed (shortened (jack_size - 5) escaped) (shortened-le (jack_size - 5) escaped)
        (ground arith))
]
  where
    bracketed :
        (o : Option Text)
        → Gives (λ name. length name ≤ jack_size - 5) o
        → 5 ≤ jack_size
        → Gives
            (Fits jack_size)
            (elim o [ none ↦ none | some name ↦ some (replace slash b'_' (b'[' ∷ name)) ])
    bracketed none h large = tt
    bracketed (some name) h large = record {
      short = omega (arith, length-replace slash b'_' name);
      plain = replace-WithoutSlash (b'[' ∷ name);
    }

-- Inversion of a bind that returns.
>>=-eq-made :
    {A B : Type 0} (m : Made A) (f : A → Made B) {b : B}
    → (m >>= f) ≡ made b
    → (a : A) × (m ≡ made a) × (f a ≡ made b)
>>=-eq-made (made a) f h = (a, refl, h)
>>=-eq-made soundfile_error f h = cc
>>=-eq-made aborted f h = cc

module _ (eca : Ecasound) where
  connected-name :
      (prefix name : Text) (channels : ℕ) (setup : List Text) {file : Soundfile}
      → connected eca prefix channels name setup ≡ made file
      → file.client_name ≡ name
  connected-name prefix name channels setup h = ground arith

  named-Fits :
      (escaped prefix : Text) (loop : Bool) (channels rate jack_rate : ℕ) (o : Option Text)
      {file : Soundfile}
      → Gives (Fits eca.jack_client_name_size) o
      → named eca escaped loop prefix channels rate jack_rate o ≡ made file
      → Fits eca.jack_client_name_size file.client_name
  named-Fits escaped prefix loop channels rate jack_rate none g h = cc
  named-Fits escaped prefix loop channels rate jack_rate (some name) g h =
      rw (connected-name prefix name channels _ h) g

  -- A Soundfile has a client name that JACK accepts.
  pub soundfile-Fits :
      (filename prefix : Text) (loop : Bool) {file : Soundfile}
      → soundfile eca filename loop prefix ≡ made file
      → Fits eca.jack_client_name_size file.client_name
  unfolding soundfile
  soundfile-Fits filename prefix loop h =
      let escaped = get_escaped_filename filename in
      let (f, asked, h') = >>=-eq-made (get_format eca escaped) _ h in
      let (rate, answered, h'') = >>=-eq-made (get_jack_sample_rate eca) _ h' in
      named-Fits escaped prefix loop f.1 f.2 rate (client_name_of eca.jack_client_name_size escaped)
        (client_name_of-Fits eca.jack_client_name_size escaped) h''
