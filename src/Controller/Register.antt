-- ===== src/Controller/Register.antt =====
-- Controller::new_source(): what the Scene and the renderer know of a source that was just made.
use mathlib.Core.Option.{some-injective}
use ssr_pre.Common.{
  ℕ, suc, ◌<◌, ◌≡◌, refl, ◌∙◌, List, [], ◌∷◌, Option, none, some, Bool, arith, true, false, ◌==◌,
  if◌then◌else◌, Bool-cases, inl, inr, subst, length,
}
use ssr_pre.Common.Text.{Text, eq_text}
use ssr_pre.Common.Assoc.{Map, find, insert, find-insert}
use ssr_pre.Geometry.{Floats}
use ssr_pre.Source.{Source}
use ssr_pre.Subscriber.{Event}
use ssr_pre.Publisher.{Settings}
use ssr_pre.Scene.{Scene, get_source_position_fixed}
use ssr_pre.Scene
use ssr_pre.Scene.Lookup.{effect, find-receive}
use ssr_pre.Renderer.{Renderer, State, Params, Item, add_source, fresh_item}
use ssr_pre.Renderer
use ssr_pre.Renderer.Ascending.{Between}
use ssr_pre.Renderer.Sources.{add_source-InOrder}
use ssr_pre.Network.{Printer}
use ssr_pre.Controller.{
  Controller, Services, publish, publish_all, announcements, port_name_of, new_source_on,
  new_source,
}
use ssr_pre.Controller.Sync.{Extent, Agree, Match, SameState}
use ssr_pre.Controller.Publish.{
  >>=-eq-some, publish_wired, Synced, publish_all-Synced, AllChanges, >>=-eq-some,
}

find_above :
    {V : Type 0} (low high k : ℕ) (m : Map V) → Between low high m → high < k → find k m ≡ none
unfolding find
find_above low high k [] b h = refl
find_above low high k ((j, v) ∷ m) (p, q, b) h = ground (arith, find_above j high k m b h)

module _ {F : Type 0} (fl : Floats F) (pr : Printer F) where
  pub Match-none : (o : Option (Source F)) → Match o none → o ≡ none
  Match-none none m = refl
  Match-none (some t) m = absurd m

  -- What both know of each source after a new one is known to both.
  added-Match :
      (outputs id j : ℕ) (o : Option (Source F)) (i : Option (Item F))
      → Match o i
      → ((id ≡ j) → o ≡ none)
      → Match
          (effect fl outputs (Event.new_source id) j o)
          (if id == j then some (fresh_item fl) else i)
  unfolding effect
  added-Match outputs id j none none m unknown = ground arith
  added-Match outputs id j none (some i) m unknown = absurd m
  added-Match outputs id j (some t) none m unknown = absurd m
  added-Match outputs id j (some t) (some i) m unknown = ground (arith, m, unknown)

  added-SameState :
      {ext : Extent} (id : ℕ) (s : Scene F) (r : State F)
      → SameState ext s r
      → SameState ext (Scene.receive fl (Event.new_source id) s) r
  unfolding Scene.receive Scene.new_source
  added-SameState id s r m = ground (arith, m)

  made_id :
      (accepts : Params → Bool) (p : Params) (r : Renderer F) (id : ℕ)
      → accepts p ≡ true
      → (add_source fl accepts p r).0 ≡ some id
      → suc r.highest_id ≡ id
  unfolding add_source
  made_id accepts p r id h made = ground (arith, h, made)

  not_made :
      (accepts : Params → Bool) (p : Params) (r : Renderer F) (id : ℕ)
      → accepts p ≡ false
      → ¬ ((add_source fl accepts p r).0 ≡ some id)
  unfolding add_source
  not_made accepts p r id h made = ground (arith, h, made)

  surely_made :
      (accepts : Params → Bool) (p : Params) (r : Renderer F)
      → accepts p ≡ true
      → ¬ ((add_source fl accepts p r).0 ≡ none)
  unfolding add_source
  surely_made accepts p r h refused = ground (arith, h, refused)

  -- An id that add_source() has not given yet is unknown to the Scene.
  unknown :
      {ext : Extent} (s : Scene F) (r : Renderer F)
      → Agree ext s r
      → (j : ℕ) → suc r.highest_id ≡ j
      → find j s.source_map ≡ none
  unknown s r a j e =
      let gone = find_above 0 r.highest_id j r.source_map a.order.ascending (omega arith) in
      Match-none (find j s.source_map) (subst (Match (find j s.source_map)) gone (a.sources j))

  -- The source that add_source() has made is announced to the Scene, which did not know it.
  pub added-Agree :
      {ext : Extent} (accepts : Params → Bool) (p : Params) (s : Scene F) (r : Renderer F) (id : ℕ)
      → Agree ext s r
      → (add_source fl accepts p r).0 ≡ some id
      → Agree ext (Scene.receive fl (Event.new_source id) s) (add_source fl accepts p r).1
  unfolding add_source
  added-Agree {ext} accepts p s r id a made = elim (Bool-cases (accepts p)) [
    | inr no' ↦ absurd (not_made accepts p r id no' made)
    | inl yes' ↦
        let new : ℕ = suc r.highest_id in
        let same = made_id accepts p r id yes' made in
        let m' = insert new (fresh_item fl) r.source_map in
        let agree : Agree ext (Scene.receive fl (Event.new_source new) s)
            (add_source fl accepts p r).1 =
          record {
            order = add_source-InOrder fl accepts p r a.order;
            sources = λ j.
                rw
                  (
                    find-receive fl (Event.new_source new) j s,
                    yes',
                    add_source,
                    find-insert j new (fresh_item fl) r.source_map,
                  )
                  (added-Match (length s.loudspeakers) new j (find j s.source_map)
                    (find j r.source_map) (a.sources j) (unknown s r a j));
            state = rw (yes', add_source) (added-SameState new s r.state a.state);
          } in
        subst
          (λ k. Agree ext (Scene.receive fl (Event.new_source k) s) (add_source fl accepts p r).1)
          same agree
  ]

  received : (id : ℕ) (r : Renderer F) → some r ≡ Renderer.receive (Event.new_source id) r
  unfolding Renderer.receive
  received id r = refl

  -- The events that follow the announcement of a source.
  details-AllChanges :
      (id : ℕ) (t : Settings F) (port_name file_name : Text) (file_length : ℕ)
      → (rest : List (Event F)) × (announcements fl pr id t port_name file_name file_length
          ≡ Event.new_source id ∷ rest)
        × AllChanges fl pr rest
  unfolding announcements
  details-AllChanges id t port_name file_name file_length =
      elim (Bool-cases (eq_text file_name [])) [
        | inl e ↦ rw (e) (_, refl, ground arith)
        | inr e ↦ rw (e) (_, refl, ground arith)
      ]

  -- new_source() once the renderer has the source.
  announced-Synced :
      {ext : Extent} (accepts : Params → Bool) (p : Params) (player : Bool) (id : ℕ)
      (es : List (Event F)) (c c' : Controller F)
      → AllChanges fl pr es
      → Synced ext c
      → (add_source fl accepts p c.renderer).0 ≡ some id
      → publish_all fl pr
          (Event.new_source id ∷ es)
          (record c { renderer = (add_source fl accepts p c.renderer).1; player = player })
        ≡ some c'
      → Synced ext c'
  unfolding publish_all
  announced-Synced {ext} accepts p player id es c c' all v made h =
      let r = (add_source fl accepts p c.renderer).1 in
      let added : Controller F = record c { renderer = r; player = player } in
      let (c1, first, then_rest) =
        >>=-eq-some (publish fl pr (Event.new_source id) added) (publish_all fl pr es) h in
      let k = publish_wired fl pr (Event.new_source id) added c1 v.rest v.listening v.only first in
      let agree = added-Agree accepts p c.scene c.renderer id v.agree made in
      publish_all-Synced fl pr es c1 c' all
        (record {
          rest = v.rest;
          listening = k.subscribers ∙ v.listening;
          only = v.only;
          agree = rw k.scene (
              subst (Agree ext (Scene.receive fl (Event.new_source id) c.scene))
                (some-injective _ _ (received id r ∙ k.renderer)) agree);
        })
        then_rest

  -- An id is used up although the source was not made.
  refused-Agree :
      {ext : Extent} (accepts : Params → Bool) (p : Params) (s : Scene F) (r : Renderer F)
      → Agree ext s r
      → (add_source fl accepts p r).0 ≡ none
      → Agree ext s (add_source fl accepts p r).1
  unfolding add_source
  refused-Agree {ext} accepts p s r a refused = elim (Bool-cases (accepts p)) [
    | inl yes' ↦ absurd (surely_made accepts p r yes' refused)
    | inr no' ↦ record {
      order = add_source-InOrder fl accepts p r a.order;
      sources = λ j. rw (no', add_source) (a.sources j);
      state = rw (no', add_source) a.state;
    }
  ]

  registered-Synced :
      {ext : Extent} (accepts : Params → Bool) (p : Params) (player : Bool)
      (es : ℕ → List (Event F)) (made : Option ℕ) (c c' : Controller F)
      → ((id : ℕ)
          → (rest : List (Event F)) × (es id ≡ Event.new_source id ∷ rest) × AllChanges fl pr rest)
      → Synced ext c
      → (add_source fl accepts p c.renderer).0 ≡ made
      → elim made [
        | none ↦
            some (record c { renderer = (add_source fl accepts p c.renderer).1; player = player })
        | some id ↦
            publish_all fl pr
              (es id)
              (record c { renderer = (add_source fl accepts p c.renderer).1; player = player })
      ]
        ≡ some c'
      → Synced ext c'
  registered-Synced {ext} accepts p player es none c c' all v refused h =
      subst (Synced ext) (some-injective _ _ h) (record {
        rest = v.rest;
        listening = v.listening;
        only = v.only;
        agree = refused-Agree accepts p c.scene c.renderer v.agree refused;
      })
  registered-Synced {ext} accepts p player es (some id) c c' all v made h =
      let (rest, e, changes) = all id in
      announced-Synced accepts p player id rest c c' changes v made (
        subst
          (λ es.
            publish_all fl pr es
              (record c { renderer = (add_source fl accepts p c.renderer).1; player = player })
            ≡ some c')
          e h)

  on_port-Synced :
      {ext : Extent} (sv : Services) (t : Settings F) (port_name : Text) (c c' : Controller F)
      → Synced ext c
      → new_source_on fl pr sv t c port_name ≡ some c'
      → Synced ext c'
  unfolding new_source_on
  on_port-Synced sv t port_name c c' v h =
      registered-Synced sv.accepts _ _ (λ id. announcements fl pr id t port_name _ _) _ c c'
        (λ id. details-AllChanges id t port_name _ _) v refl h

  -- A call of new_source() in which no assertion fails keeps Scene and renderer in agreement if
  -- they agreed before, for an audio file as for a port, and when the renderer refuses the
  -- source.
  pub new_source-Synced :
      {ext : Extent} (sv : Services) (t : Settings F) (c c' : Controller F)
      → Synced ext c
      → new_source fl pr sv t c ≡ some c'
      → Synced ext c'
  unfolding new_source
  new_source-Synced sv t c c' v h =
      let (port_name, answered, made) =
        >>=-eq-some (port_name_of fl pr sv t c.loop_mode) (new_source_on fl pr sv t c) h in
      on_port-Synced sv t port_name c c' v made
