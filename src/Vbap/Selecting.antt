-- ===== src/Vbap/Selecting.antt =====
-- The assertion of RenderFunction::select(): the two loudspeakers of a source are not the same.
use mathlib.Core.List.{
  Mem, mem-cons_self, mem-cons_of_mem, Nodup, Nodup-cons, perm_append_comm, map-append,
}
use mathlib.Core.List.Perm
use ssr_pre.Common.{
  ℕ, true, false, not, ◌||◌, List, [], ◌∷◌, ◌++◌, map, none, some, ◌≡◌, ◌≢◌, refl, ap, subst, arith,
  length, ◌<◌, length-append, Bool-cases, inl, inr,
}
use ssr_pre.Vbap.{
  LoudspeakerEntry, Panning, Weights, upper_bound, back, ends_of, neighbours, source_weights,
  selected, get_weight, process_source, select, same_ptr, is_null,
}

module _ {F : Type 0} (pan : Panning F) where
  abbrev pub pointers : List (LoudspeakerEntry F) → List ℕ
  pointers entries = map (λ e. e.ls_ptr) entries

  upper_bound-append :
      (entries : List (LoudspeakerEntry F)) (source : F)
      → entries ≡ (upper_bound pan entries source).0 ++ (upper_bound pan entries source).1
  unfolding upper_bound
  upper_bound-append [] source = refl
  upper_bound-append (e ∷ es) source = elim (Bool-cases (pan.less source e.angle)) [
    | inl l ↦ rw l refl
    | inr l ↦ rw l (ap (λ t. e ∷ t) (upper_bound-append es source))
  ]

  pointers-turned :
      (xs ys : List (LoudspeakerEntry F))
      → Nodup (pointers (xs ++ ys))
      → Nodup (pointers (ys ++ xs))
  pointers-turned xs ys n = rw (map-append (λ (e : LoudspeakerEntry F). e.ls_ptr) ys xs) (
      Perm.nodup (perm_append_comm (pointers xs) (pointers ys))
        (subst Nodup (map-append (λ (e : LoudspeakerEntry F). e.ls_ptr) xs ys) n))

  back-mem :
      (e : LoudspeakerEntry F) (es : List (LoudspeakerEntry F))
      → Mem (back pan e es).ls_ptr (pointers (e ∷ es))
  back-mem e [] = mem-cons_self
  back-mem e (f ∷ fs) = mem-cons_of_mem _ (back-mem f fs)

  -- Two or more loudspeakers, of which no two have the same pointer, in any order.
  ends-differ :
      (l : List (LoudspeakerEntry F))
      → 1 < length l
      → Nodup (pointers l)
      → (first : LoudspeakerEntry F) × (second : LoudspeakerEntry F) × (ends_of pan l
          ≡ some (first, second))
        × (first.ls_ptr ≢ second.ls_ptr)
  ends-differ [] h n = absurd (omega arith)
  ends-differ (second ∷ []) h n = absurd (omega arith)
  ends-differ (second ∷ third ∷ rest) h n = (
    back pan third rest,
    second,
    refl,
    λ e. (Nodup-cons.0 n).0 (subst (λ p. Mem p (pointers (third ∷ rest))) e (back-mem third rest)),
  )

  neighbours-differ :
      (entries : List (LoudspeakerEntry F)) (source : F)
      → 1 < length entries
      → Nodup (pointers entries)
      → (first : LoudspeakerEntry F) × (second : LoudspeakerEntry F) × (neighbours pan entries
            source
          ≡ some (first, second))
        × (first.ls_ptr ≢ second.ls_ptr)
  unfolding neighbours
  neighbours-differ entries source h n =
      let parts = upper_bound pan entries source in
      let split = upper_bound-append entries source in
      ends-differ (parts.1 ++ parts.0)
        (omega
          (arith, ap length split, length-append parts.0 parts.1, length-append parts.1 parts.0))
        (pointers-turned parts.0 parts.1 (subst (λ l. Nodup (pointers l)) split n))

  -- The assertion of select().
  abbrev Passes : Weights F → Type 0
  Passes w =
      (not (same_ptr pan w.first.ls_ptr w.second.ls_ptr) || is_null pan w.first.ls_ptr) ≡ true

  weights-Passes :
      (source factor : F) (first second : LoudspeakerEntry F)
      → first.ls_ptr ≢ second.ls_ptr
      → Passes (source_weights pan source factor first second)
  unfolding source_weights
  weights-Passes source factor first second differ = ground arith

  -- For a source between two or more loudspeakers, of which no two are the same output, the
  -- weights are found, and the assertion of select() holds for every output and all weights of
  -- the last block.
  pub process_source-select :
      (entries : List (LoudspeakerEntry F)) (source factor : F)
      → 1 < length entries
      → Nodup (pointers entries)
      → (w : Weights F) × (process_source pan entries source factor ≡ some w)
        × ((out : ℕ) (old : Weights F)
            → select pan out old w
              ≡ some (selected pan (get_weight pan out old) (get_weight pan out w)))
  unfolding process_source select
  process_source-select entries source factor h n =
      let (first, second, found, differ) = neighbours-differ entries source h n in
      (
        source_weights pan source factor first second,
        rw (found, process_source),
        λ out old. rw (weights-Passes source factor first second differ),
      )

  neighbours-alone :
      (e : LoudspeakerEntry F) (source : F) → neighbours pan (e ∷ []) source ≡ some (e, e)
  unfolding neighbours upper_bound
  neighbours-alone e source = ground arith

  alone-same :
      (e : LoudspeakerEntry F) (factor : F)
      → e.valid_section ≡ false
      → pan.less
          (pan.wrap_two_pi (pan.plane.arithmetic.subtract e.angle e.angle))
          pan.overhang_angle
        ≡ true
      → let w = source_weights pan e.angle factor e e in
        (not (same_ptr pan w.first.ls_ptr w.second.ls_ptr) || is_null pan w.first.ls_ptr) ≡ false
  unfolding source_weights
  alone-same e factor invalid inside = rw (invalid) (rw inside (ground arith))

  -- For a source in exactly the direction of the only loudspeaker the assertion of select() fails
  -- at every output, if that loudspeaker has no valid section and the angle between the two is
  -- below the overhang angle.
  pub process_source-alone :
      (e : LoudspeakerEntry F) (factor : F)
      → e.valid_section ≡ false
      → pan.less
          (pan.wrap_two_pi (pan.plane.arithmetic.subtract e.angle e.angle))
          pan.overhang_angle
        ≡ true
      → (w : Weights F) × (process_source pan (e ∷ []) e.angle factor ≡ some w)
        × ((out : ℕ) (old : Weights F) → select pan out old w ≡ none)
  unfolding process_source select
  process_source-alone e factor invalid inside = (
    source_weights pan e.angle factor e e,
    rw (neighbours-alone e e.angle, process_source),
    λ out old. rw (alone-same e factor invalid inside),
  )
