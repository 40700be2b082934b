-- ===== src/Vbap/Neighbours.antt =====
-- Which two loudspeakers a source lies between.
use ssr_pre.Common.{
  ℕ, Bool, true, false, not, List, [], ◌∷◌, some, ◌≡◌, refl, arith, length, ◌<◌, Bool-cases, inl,
  inr,
}
use ssr_pre.Geometry.{Position}
use ssr_pre.Vbap.{
  LoudspeakerEntry, Panning, neighbours, insert_entry, sort_loudspeakers, mark_sections,
  update_valid_sections, update_angles, entries_of, angle_of, prepare,
}
use ssr_pre.Vbap.Between.{AllAngles, IsSorted, Between, Ascends, neighbours-Between}

module _ {F : Type 0} (pan : Panning F) where
  open pan use {less}

  -- What std::sort() asks of the comparison of angles.
  pub record IsOrder : Type 0 where
    pub asymmetric : (a b : F) → less a b ≡ true → less b a ≡ false
    pub ascends : Ascends pan

  -- A choice of two neighbours for every source.
  abbrev pub Chooses : List (LoudspeakerEntry F) → Type 0
  Chooses entries =
      (source : F)
      → (first : LoudspeakerEntry F) × (second : LoudspeakerEntry F) × (neighbours pan entries
            source
          ≡ some (first, second))
        × Between pan entries source first second

  module _ (order : IsOrder) where
    insert_entry-AllAngles :
        (test : F → Bool) (e : LoudspeakerEntry F) (es : List (LoudspeakerEntry F))
        → test e.angle ≡ true
        → AllAngles pan test es
        → AllAngles pan test (insert_entry pan e es)
    unfolding insert_entry
    insert_entry-AllAngles test e [] t h = (t, tt)
    insert_entry-AllAngles test e (f ∷ fs) t (h, hs) = elim (Bool-cases (less f.angle e.angle)) [
      | inl l ↦ rw l (h, insert_entry-AllAngles test e fs t hs)
      | inr l ↦ rw l (t, (h, hs))
    ]

    below_all :
        (e f : LoudspeakerEntry F) (fs : List (LoudspeakerEntry F))
        → less f.angle e.angle ≡ false
        → AllAngles pan (λ b. not (less b f.angle)) fs
        → AllAngles pan (λ b. not (less b e.angle)) fs
    below_all e f [] l h = tt
    below_all e f (g ∷ gs) l (h, hs) = (
      elim (Bool-cases (less g.angle e.angle)) [
        | inl k ↦ absurd (cc (order.ascends g.angle e.angle f.angle k l))
        | inr k ↦ rw k
      ],
      below_all e f gs l hs,
    )

    insert_entry-IsSorted :
        (e : LoudspeakerEntry F) (es : List (LoudspeakerEntry F))
        → IsSorted pan es
        → IsSorted pan (insert_entry pan e es)
    unfolding insert_entry
    insert_entry-IsSorted e [] s = (tt, tt)
    insert_entry-IsSorted e (f ∷ fs) (s, ss) = elim (Bool-cases (less f.angle e.angle)) [
      | inl l ↦ rw l (
        insert_entry-AllAngles (λ b. not (less b f.angle)) e fs
            (rw (order.asymmetric f.angle e.angle l)) s,
        insert_entry-IsSorted e fs ss,
      )
      | inr l ↦ rw l ((rw l, below_all e f fs l s), (s, ss))
    ]

    sort_loudspeakers-IsSorted :
        (es : List (LoudspeakerEntry F)) → IsSorted pan (sort_loudspeakers pan es)
    unfolding sort_loudspeakers
    sort_loudspeakers-IsSorted [] = tt
    sort_loudspeakers-IsSorted (e ∷ es) =
        insert_entry-IsSorted e (sort_loudspeakers pan es) (sort_loudspeakers-IsSorted es)

    mark_sections-AllAngles :
        (test : F → Bool) (begin : F) (es : List (LoudspeakerEntry F))
        → AllAngles pan test es
        → AllAngles pan test (mark_sections pan begin es)
    mark_sections-AllAngles test begin [] h = tt
    mark_sections-AllAngles test begin (e ∷ []) h = h
    mark_sections-AllAngles test begin (e ∷ f ∷ es) (h, hs) =
        (h, mark_sections-AllAngles test begin (f ∷ es) hs)

    mark_sections-IsSorted :
        (begin : F) (es : List (LoudspeakerEntry F))
        → IsSorted pan es
        → IsSorted pan (mark_sections pan begin es)
    mark_sections-IsSorted begin [] s = tt
    mark_sections-IsSorted begin (e ∷ []) s = s
    mark_sections-IsSorted begin (e ∷ f ∷ es) (s, ss) = (
      mark_sections-AllAngles (λ b. not (less b e.angle)) begin (f ∷ es) s,
      mark_sections-IsSorted begin (f ∷ es) ss,
    )

    Chooses-sorted :
        (entries : List (LoudspeakerEntry F))
        → 0 < length entries
        → IsSorted pan entries
        → Chooses entries
    Chooses-sorted [] h s source = absurd (omega arith)
    Chooses-sorted (e ∷ es) h s source = neighbours-Between pan order.ascends source e es s

    length-insert_entry :
        (e : LoudspeakerEntry F) (es : List (LoudspeakerEntry F))
        → 0 < length (insert_entry pan e es)
    unfolding insert_entry
    length-insert_entry e [] = omega arith
    length-insert_entry e (f ∷ fs) = ground arith

    length-sort_loudspeakers :
        (e : LoudspeakerEntry F) (es : List (LoudspeakerEntry F))
        → 0 < length (sort_loudspeakers pan (e ∷ es))
    unfolding sort_loudspeakers
    length-sort_loudspeakers e es = length-insert_entry e (sort_loudspeakers pan es)

    length-mark_sections :
        (begin : F) (e : LoudspeakerEntry F) (es : List (LoudspeakerEntry F))
        → 0 < length (mark_sections pan begin (e ∷ es))
    length-mark_sections begin e [] = omega arith
    length-mark_sections begin e (f ∷ fs) = omega arith

    Chooses-update :
        (l : List (LoudspeakerEntry F))
        → 0 < length l
        → IsSorted pan l
        → Chooses (update_valid_sections pan l)
    unfolding update_valid_sections
    Chooses-update [] h s = absurd (omega arith)
    Chooses-update (e ∷ es) h s =
        Chooses-sorted (mark_sections pan e.angle (e ∷ es)) (length-mark_sections e.angle e es)
          (mark_sections-IsSorted e.angle (e ∷ es) s)

    -- Once the angles of one or more loudspeakers are known and sorted, there are two neighbours
    -- for every source: in the order of growing angles from the source on, with those not larger
    -- than its angle at the end, the second is the first and the first is the last one, if the
    -- comparison of angles is asymmetric and ascends.
    pub prepare-Chooses :
        (position : ℕ → Position F) (offset : Position F) (out : ℕ) (outs : List ℕ)
        → (entries : List (LoudspeakerEntry F)) × (prepare pan position offset (out ∷ outs)
            ≡ some entries)
          × Chooses entries
    unfolding prepare update_angles
    prepare-Chooses position offset out outs =
        let seen = update_angles pan position offset (entries_of pan (out ∷ outs)) in
        (
          update_valid_sections pan (sort_loudspeakers pan seen),
          refl,
          Chooses-update (sort_loudspeakers pan seen)
              (length-sort_loudspeakers
                (record {
                  angle = angle_of pan position offset out;
                  valid_section = false;
                  ls_ptr = out;
                })
                (update_angles pan position offset (entries_of pan outs)))
              (sort_loudspeakers-IsSorted seen),
        )
