-- ===== src/Vbap/Between.antt =====
-- What std::upper_bound() finds among sorted angles: the two loudspeakers on the sides of a source.
use ssr_pre.Common.{
  Bool, true, false, not, List, [], ◌∷◌, ◌++◌, some, ◌≡◌, refl, ap, arith, length, length-append,
  Bool-cases, inl, inr,
}
use ssr_pre.Vbap.{LoudspeakerEntry, Panning, upper_bound, back, ends_of, neighbours}

module _ {F : Type 0} (pan : Panning F) where
  open pan use {less}

  -- All angles pass a test.
  abbrev pub AllAngles : (F → Bool) → List (LoudspeakerEntry F) → Type 0
  AllAngles test [] = Unit {0}
  AllAngles test (e ∷ es) = (test e.angle ≡ true) × AllAngles test es

  -- No angle is less than an earlier one.
  abbrev pub IsSorted : List (LoudspeakerEntry F) → Type 0
  IsSorted [] = Unit {0}
  IsSorted (e ∷ es) = AllAngles (λ b. not (less b e.angle)) es × IsSorted es

  -- The loudspeakers as they are met from the source on, in the direction of growing angles.
  pub record Between (entries : List (LoudspeakerEntry F)) (source : F)
      (first second : LoudspeakerEntry F) : Type 0 where
    pub before : List (LoudspeakerEntry F)
    pub behind : List (LoudspeakerEntry F)
    pub rest : List (LoudspeakerEntry F)
    pub split : entries ≡ before ++ behind
    pub not_larger : AllAngles (λ a. not (less source a)) before
    pub larger : AllAngles (λ a. less source a) behind
    pub turned : (behind ++ before) ≡ second ∷ rest
    pub is_last : first ≡ back pan second rest

  -- A larger angle than that of the source stays larger when it does not fall.
  abbrev pub Ascends : Type 0
  Ascends = (a b c : F) → less a b ≡ true → less c b ≡ false → less a c ≡ true

  module _ (ascends : Ascends) (source : F) where
    all_larger :
        (e : LoudspeakerEntry F) (es : List (LoudspeakerEntry F))
        → less source e.angle ≡ true
        → AllAngles (λ b. not (less b e.angle)) es
        → AllAngles (λ a. less source a) es
    all_larger e [] l h = tt
    all_larger e (f ∷ fs) l (h, hs) =
        (ascends source e.angle f.angle l (ground arith), all_larger e fs l hs)

    abbrev Split :
        List (LoudspeakerEntry F) → List (LoudspeakerEntry F) × List (LoudspeakerEntry F) → Type 0
    Split entries parts =
        (entries ≡ parts.0 ++ parts.1)
        × AllAngles (λ a. not (less source a)) parts.0
        × AllAngles (λ a. less source a) parts.1

    upper_bound-Split :
        (entries : List (LoudspeakerEntry F))
        → IsSorted entries
        → Split entries (upper_bound pan entries source)
    unfolding upper_bound
    upper_bound-Split [] s = (refl, tt, tt)
    upper_bound-Split (e ∷ es) (s, ss) = elim (Bool-cases (less source e.angle)) [
      | inl l ↦ rw l (refl, tt, (l, all_larger e es l s))
      | inr l ↦ let ih = upper_bound-Split es ss in rw l (ap (λ t. e ∷ t) ih.0, (rw l, ih.1), ih.2)
    ]

    at-Split :
        (e : LoudspeakerEntry F) (es before behind l : List (LoudspeakerEntry F))
        → Split (e ∷ es) (before, behind)
        → behind ++ before ≡ l
        → (first : LoudspeakerEntry F) × (second : LoudspeakerEntry F) × (ends_of pan l
            ≡ some (first, second))
          × Between (e ∷ es) source first second
    at-Split e es before behind [] h q = absurd (
        omega (
          arith,
          ap length h.0,
          ap length q,
          length-append before behind,
          length-append behind before,
        ))
    at-Split e es before behind (second ∷ rest) h q = (
      back pan second rest,
      second,
      refl,
      record {
        before = before;
        behind = behind;
        rest = rest;
        split = h.0;
        not_larger = h.1;
        larger = h.2;
        turned = q;
        is_last = refl;
      },
    )

    pub neighbours-Between :
        (e : LoudspeakerEntry F) (es : List (LoudspeakerEntry F))
        → IsSorted (e ∷ es)
        → (first : LoudspeakerEntry F) × (second : LoudspeakerEntry F) × (neighbours pan
              (e ∷ es)
              source
            ≡ some (first, second))
          × Between (e ∷ es) source first second
    unfolding neighbours
    neighbours-Between e es s =
        let parts = upper_bound pan (e ∷ es) source in
        at-Split e es parts.0 parts.1 (parts.1 ++ parts.0) (upper_bound-Split (e ∷ es) s) refl
