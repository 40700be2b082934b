-- ===== src/Controller/Query/Reuse.antt =====
-- A source that lies where the last measured one was. update() compares addresses, and the allocator
-- may give the address of a removed source to a new one.
use ssr_pre.Common.{
  ℕ, suc, ◌≡◌, refl, sym, subst, ap, ◌∙◌, Bool, false, inl, inr, true, ◌||◌, List, [], ◌∷◌, ◌++◌,
  some, arith, length, Bool-cases,
}
use ssr_pre.Geometry.{Floats}
use ssr_pre.PathTools.{is_nil}
use ssr_pre.Controller.Query.{
  QueryState, Meters, SourceLevel, last_address, same_source, measure, query,
  set_source_signal_levels, source_events,
}
use ssr_pre.Controller.Query.Levels.{signal_levels, measured, length-measure, same_size}

length-last : (l : List ℕ) (x : ℕ) → length (l ++ x ∷ []) ≡ suc (length l)
length-last [] x = refl
length-last (y ∷ l) x = ap suc (length-last l x)

last_address-append :
    (address : ℕ → ℕ) (l : List ℕ) (x : ℕ) → last_address address (l ++ x ∷ []) ≡ some (address x)
last_address-append address [] x = refl
last_address-append address (y ∷ []) x = refl
last_address-append address (y ∷ z ∷ l) x = last_address-append address (z ∷ l) x

same_address :
    (before after : ℕ → ℕ) (l : List ℕ) (x y : ℕ)
    → before x ≡ after y
    → same_source (last_address before (l ++ x ∷ [])) (last_address after (l ++ y ∷ [])) ≡ true
same_address before after l x y e =
    subst (λ o. same_source o (last_address after (l ++ y ∷ [])) ≡ true)
      (sym (last_address-append before l x))
      (subst (λ o. same_source (some (before x)) o ≡ true) (sym (last_address-append after l y))
        (ground (arith, e)))

or_true : (a b : Bool) → b ≡ true → (a || b) ≡ true
or_true true b e = refl
or_true false b e = e

module _ {F : Type 0} (fl : Floats F) where
  misread_levels :
      (m : Meters F) (l : List ℕ) (x y : ℕ) (levels : List (SourceLevel F))
      → length levels ≡ suc (length l)
      → signal_levels
          (set_source_signal_levels fl (l ++ y ∷ []) (measure fl m (l ++ x ∷ []) levels))
        ≡ measured fl m l ++ (y, m.get_level x) ∷ []
  unfolding measure set_source_signal_levels signal_levels
  misread_levels m [] x y [] e = ground (arith, e)
  misread_levels m (id ∷ l) x y [] e = ground (arith, e)
  misread_levels m [] x y (level ∷ levels) e =
      elim (Bool-cases (m.get_output_levels x level.outputs).0) [
        | inl available ↦ rw available refl
        | inr missing ↦ rw missing refl
      ]
  misread_levels m (id ∷ l) x y (level ∷ levels) e =
      let rest = misread_levels m l x y levels (omega (arith, e)) in
      elim (Bool-cases (m.get_output_levels id level.outputs).0) [
        | inl available ↦ rw available (ap (◌∷◌ (id, m.get_level id)) rest)
        | inr missing ↦ rw missing (ap (◌∷◌ (id, m.get_level id)) rest)
      ]

  -- If the last measured source x has gone and a new source y lies at its address, update()
  -- publishes the level of x as that of y, when query() had room for all levels.
  pub source_events-reused :
      (m : Meters F) (q : QueryState F) (l : List ℕ) (x y : ℕ) (address : ℕ → ℕ)
      → m.source_list ≡ l ++ x ∷ []
      → length q.source_levels ≡ length m.source_list
      → m.address x ≡ address y
      → signal_levels (source_events fl (query fl m q) address (l ++ y ∷ []))
        ≡ measured fl m l ++ (y, m.get_level x) ∷ []
  unfolding source_events query
  source_events-reused m q l x y address e sizes reused =
      let as_many = sizes ∙ ap length e ∙ length-last l x in
      rw
        (
          same_size (length q.source_levels) (length m.source_list) sizes,
          e,
          same_size (length (measure fl m (l ++ x ∷ []) q.source_levels)) (length (l ++ y ∷ []))
              (length-measure fl m (l ++ x ∷ []) q.source_levels ∙ as_many ∙ sym (length-last l y)),
          or_true (is_nil (l ++ y ∷ [])) _ (same_address m.address address l x y reused),
        )
        (misread_levels m l x y q.source_levels as_many)
