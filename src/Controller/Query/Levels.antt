-- ===== src/Controller/Query/Levels.antt =====
-- The levels that are published belong to the sources that they were measured of.
use mathlib.Core.Option.{some-injective}
use ssr_pre.Common.{
  Option, replicate, ℕ, zero, suc, ◌≡◌, refl, sym, ap, subst, ◌∙◌, ◌⊎◌, inl, inr, Bool, true, false,
  ◌&&◌, ◌||◌, List, [], ◌∷◌, some, arith, ◌==◌, length, if◌then◌else◌, Bool-cases, map,
}
use ssr_pre.Geometry.{Floats}
use ssr_pre.Subscriber.{Event}
use ssr_pre.Common.Assoc.{keys}
use ssr_pre.Network.{Printer}
use ssr_pre.Controller.{Controller}
use ssr_pre.Controller.Publish.{>>=-eq-some}
use ssr_pre.PathTools.{is_nil}
use ssr_pre.Controller.Query.{
  QueryState, Meters, SourceLevel, last_of, last_address, same_source, measure, query,
  set_source_signal_levels, source_events, update, publish_state, resize,
}
use ssr_pre.Controller.Query.Changes.{
  Evolves, NotReused, Later-same, Evolves-Later, EndsUpTo-checked,
}

pub same_size : (a b : ℕ) → a ≡ b → (a == b) ≡ true
same_size a b e = ground (arith, e)

last_same :
    (address : ℕ → ℕ) (l : List ℕ)
    → (is_nil l || same_source (last_address address l) (last_address address l)) ≡ true
last_same address [] = refl
last_same address (x ∷ []) = ground arith
last_same address (x ∷ y ∷ l) = last_same address (y ∷ l)

length-replicate : {A : Type 0} (n : ℕ) (a : A) → length (replicate n a) ≡ n
length-replicate zero a = refl
length-replicate (suc n) a = ap suc (length-replicate n a)

length-resize : {A : Type 0} (n : ℕ) (a : A) (xs : List A) → length (resize n a xs) ≡ n
unfolding resize
length-resize zero a xs = refl
length-resize (suc n) a [] = length-replicate (suc n) a
length-resize (suc n) a (x ∷ xs) = ap suc (length-resize n a xs)

-- The levels of sources among events.
unfoldable pub signal_levels : {F : Type 0} → List (Event F) → List (ℕ × F)
signal_levels [] = []
signal_levels (Event.set_source_signal_level id level ∷ es) = (id, level) ∷ signal_levels es
signal_levels (_ ∷ es) = signal_levels es

module _ {F : Type 0} (fl : Floats F) where
  pub length-measure :
      (m : Meters F) (ids : List ℕ) (levels : List (SourceLevel F))
      → length (measure fl m ids levels) ≡ length levels
  unfolding measure
  length-measure m [] levels = refl
  length-measure m (id ∷ ids) [] = refl
  length-measure m (id ∷ ids) (level ∷ levels) = ap suc (length-measure m ids levels)

  abbrev pub measured : Meters F → List ℕ → List (ℕ × F)
  measured m ids = map (λ id. (id, m.get_level id)) ids

  measure-signal_levels :
      (m : Meters F) (ids : List ℕ) (levels : List (SourceLevel F))
      → length levels ≡ length ids
      → signal_levels (set_source_signal_levels fl ids (measure fl m ids levels)) ≡ measured m ids
  unfolding measure set_source_signal_levels signal_levels
  measure-signal_levels m [] levels e = ground (arith, e)
  measure-signal_levels m (id ∷ ids) [] e = ground (arith, e)
  measure-signal_levels m (id ∷ ids) (level ∷ levels) e =
      let rest = measure-signal_levels m ids levels (omega (arith, e)) in
      elim (Bool-cases (m.get_output_levels id level.outputs).0) [
        | inl available ↦ rw available (ap (◌∷◌ (id, m.get_level id)) rest)
        | inr missing ↦ rw missing (ap (◌∷◌ (id, m.get_level id)) rest)
      ]

  -- What update() publishes once the sizes were the same in query().
  current_events :
      (m : Meters F) (levels : List (SourceLevel F)) (h : ℕ) (ids : List ℕ)
      → length levels ≡ length m.source_list
      → NotReused h m.address (last_of m.source_list) (last_of ids)
      → Evolves h m.source_list ids
      → length (measure fl m m.source_list levels) ≡ length ids
      → (is_nil ids
          || same_source (last_address m.address m.source_list) (last_address m.address ids))
        ≡ true
      → signal_levels (set_source_signal_levels fl ids (measure fl m m.source_list levels))
        ≡ measured m ids
  current_events m levels h ids sizes fresh evolves as_many last =
      let old = EndsUpTo-checked h m.address m.source_list ids fresh last in
      let (shorter, equal) =
        Later-same h m.source_list ids (Evolves-Later h m.source_list ids evolves) old in
      let same = equal (sym as_many ∙ length-measure m m.source_list levels ∙ sizes) in
      rw same (measure-signal_levels m m.source_list levels sizes)

  published :
      (b : Bool) (es : List (Event F)) (x : List (ℕ × F))
      → (b ≡ true → signal_levels es ≡ x)
      → (signal_levels (if b then es else []) ≡ []) ⊎ (signal_levels (if b then es else []) ≡ x)
  unfolding signal_levels
  published true es x f = inr (f refl)
  published false es x f = inl refl

  -- update() publishes no source level, or for each source of the map, in its order, the level
  -- that query() has measured of this source, although sources came and went in between, if new
  -- sources have ids above h and the last source of the map is not a new one at the address of
  -- the last measured one.
  pub source_events-query :
      (m : Meters F) (q : QueryState F) (h : ℕ) (ids : List ℕ)
      → NotReused h m.address (last_of m.source_list) (last_of ids)
      → Evolves h m.source_list ids
      → (signal_levels (source_events fl (query fl m q) m.address ids) ≡ [])
        ⊎ (signal_levels (source_events fl (query fl m q) m.address ids) ≡ measured m ids)
  unfolding source_events query signal_levels
  source_events-query m q h ids fresh evolves =
      elim (Bool-cases (length q.source_levels == length m.source_list)) [
        | inr differ ↦ inl (rw differ refl)
        | inl sizes ↦ rw sizes (
            published
              ((length (measure fl m m.source_list q.source_levels) == length ids)
                && (is_nil ids
                    || same_source (last_address m.address m.source_list)
                        (last_address m.address ids)))
              (set_source_signal_levels fl ids (measure fl m m.source_list q.source_levels))
              (measured m ids)
              (λ current.
                current_events m q.source_levels h ids (ground (arith, sizes)) fresh evolves
                  (ground (arith, current)) (ground (arith, current))))
      ]

  source_events-query_same :
      (m : Meters F) (q : QueryState F)
      → length q.source_levels ≡ length m.source_list
      → signal_levels (source_events fl (query fl m q) m.address m.source_list)
        ≡ measured m m.source_list
  unfolding source_events query
  source_events-query_same m q sizes =
      rw
        (
          same_size (length q.source_levels) (length m.source_list) sizes,
          same_size (length (measure fl m m.source_list q.source_levels)) (length m.source_list)
              (length-measure m m.source_list q.source_levels ∙ sizes),
          last_same m.address m.source_list,
        )
        (measure-signal_levels m m.source_list q.source_levels sizes)

  update_resizes :
      (pr : Printer F) (entry : SourceLevel F) (q q' : QueryState F) (address : ℕ → ℕ)
      (c c' : Controller F)
      → update fl pr entry q address c ≡ some (q', c')
      → length q'.source_levels ≡ length (keys c'.renderer.source_map)
  unfolding update
  update_resizes pr entry q q' address c c' h =
      let finish : Controller F → Option (QueryState F × Controller F) = λ c2. some (
        record q {
          source_levels = resize (length (keys c2.renderer.source_map)) entry q.source_levels;
        },
        c2,
      ) in
      let (c2, before, last) = >>=-eq-some (publish_state fl pr q address c) finish h in
      let e = some-injective _ _ last in
      sym (ap (λ r. length r.0.source_levels) e)
      ∙ length-resize (length (keys c2.renderer.source_map)) entry q.source_levels
      ∙ ap (λ r. length (keys r.1.renderer.source_map)) e

  -- After update() has returned, the next query() and update() publish the measured level of each
  -- source, if the sources of the map have not changed.
  pub query-update :
      (pr : Printer F) (entry : SourceLevel F) (q q' : QueryState F) (address : ℕ → ℕ)
      (c c' : Controller F) (m : Meters F)
      → update fl pr entry q address c ≡ some (q', c')
      → m.source_list ≡ keys c'.renderer.source_map
      → signal_levels (source_events fl (query fl m q') m.address (keys c'.renderer.source_map))
        ≡ measured m (keys c'.renderer.source_map)
  query-update pr entry q q' address c c' m h unchanged =
      subst (λ ids. signal_levels (source_events fl (query fl m q') m.address ids) ≡ measured m ids)
        unchanged
        (source_events-query_same m q'
          (update_resizes pr entry q q' address c c' h ∙ ap length (sym unchanged)))
