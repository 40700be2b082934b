-- ===== src/Controller/Sync.antt =====
-- The Scene and the renderer never disagree: both receive every event, and what they know of a source
-- and of the reference point is the same.
use ssr_pre.Common.{Bool, true, false, ℕ, ◌≡◌, Option, none, some, arith, length}
use ssr_pre.Common.Assoc.{find}
use ssr_pre.Geometry.{Floats}
use ssr_pre.Source.{Source}
use ssr_pre.Subscriber.{Event}
use ssr_pre.Scene.{Scene}
use ssr_pre.Scene
use ssr_pre.Scene.Lookup.{effect, find-receive}
use ssr_pre.Renderer.{Renderer, Item, State}
use ssr_pre.Renderer
use ssr_pre.Renderer.Sources.{InOrder, receive-InOrder}
use ssr_pre.Renderer.Lookup.{item_effect, state_effect, receive-Follows}

-- The members that both have.
pub record SameSource {F : Type 0} (t : Source F) (i : Item F) : Type 0 where
  pub position : t.position ≡ i.position
  pub orientation : t.orientation ≡ i.orientation
  pub gain : t.gain ≡ i.gain
  pub mute : t.mute ≡ i.mute
  pub model : t.model ≡ i.model

-- Both know the source, with the same members, or neither does.
abbrev pub Match : {F : Type 0} → Option (Source F) → Option (Item F) → Type 0
Match none none = Unit
Match (some t) (some i) = SameSource t i
Match _ _ = ⊥

-- What an agreement of Scene and renderer speaks of: `told` is true while the renderer is told of each
-- amplitude reference distance that the Scene gets, `aimed` once both have got a reference orientation.
pub record Extent : Type 0 where
  pub told : Bool
  pub aimed : Bool

-- Of everything, and of everything but the amplitude reference distance.
abbrev pub full_extent : Extent
full_extent = record { told = true; aimed = true }

abbrev pub without_distance : Extent
without_distance = record { told = false; aimed = true }

pub record SameState {F : Type 0} (ext : Extent) (s : Scene F) (r : State F) : Type 0 where
  pub reference_position : s.reference.position ≡ r.reference_position
  pub reference_orientation : ext.aimed ≡ true → s.reference.orientation ≡ r.reference_orientation
  pub offset_position : s.reference_offset.position ≡ r.reference_offset_position
  pub offset_orientation : s.reference_offset.orientation ≡ r.reference_offset_orientation
  pub master_volume : s.master_volume ≡ r.master_volume
  pub processing : s.processing_state ≡ r.processing
  pub distance : ext.told ≡ true → s.amplitude_reference_distance ≡ r.amplitude_reference_distance

-- The two sides of the Controller fit together.
pub record Agree {F : Type 0} (ext : Extent) (s : Scene F) (r : Renderer F) : Type 0 where
  pub order : InOrder r
  pub sources : (j : ℕ) → Match (find j s.source_map) (find j r.source_map)
  pub state : SameState ext s r.state

-- All events but new_source, which the Controller publishes only after add_source().
abbrev pub IsChange : {F : Type 0} → Event F → Type 0
IsChange (Event.new_source id) = ⊥
IsChange _ = Unit

module _ {F : Type 0} (fl : Floats F) where
  effect-Match :
      (outputs : ℕ) (e : Event F) (j : ℕ) (o : Option (Source F)) (i : Option (Item F))
      → IsChange e
      → Match o i
      → Match (effect fl outputs e j o) (item_effect e j i)
  unfolding effect item_effect
  effect-Match outputs (Event.new_source id) j o i c m = absurd c
  effect-Match outputs e j none none c m = ground arith
  effect-Match outputs e j none (some i) c m = absurd m
  effect-Match outputs e j (some t) none c m = absurd m
  effect-Match outputs e j (some t) (some i) c m = ground (arith, m)

  effect-SameState :
      {ext : Extent} (e : Event F) (s : Scene F) (r : State F)
      → SameState ext s r
      → SameState ext (Scene.receive fl e s) (state_effect e r)
  unfolding Scene.receive state_effect
  effect-SameState (Event.new_source id) s r m = ground (arith, m)
  effect-SameState e s r m = ground (arith, m)

  -- Every event but new_source that the renderer accepts keeps the agreement of the Scene and the
  -- renderer on all sources and on the state.
  pub receive-Agree :
      {ext : Extent} (e : Event F) (s : Scene F) (r r' : Renderer F)
      → IsChange e
      → Agree ext s r
      → Renderer.receive e r ≡ some r'
      → Agree ext (Scene.receive fl e s) r'
  receive-Agree e s r r' c a h =
      let f = receive-Follows e r r' a.order h in
      record {
        order = receive-InOrder e r r' a.order h;
        sources = λ j.
            rw (find-receive fl e j s, f.sources j)
              (effect-Match (length s.loudspeakers) e j (find j s.source_map) (find j r.source_map)
                c (a.sources j));
        state = rw f.state (effect-SameState e s r.state a.state);
      }
