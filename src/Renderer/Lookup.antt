-- ===== src/Renderer/Lookup.antt =====
-- What the renderer knows of a source after each event.
use ssr_pre.Common.{
  ℕ, ◌≡◌, refl, sym, ap, ◌∙◌, Option, none, some, arith, ◌==◌, if◌then◌else◌, Option-cases, inl,
  inr, subst,
}
use ssr_pre.Common.Assoc.{find, find-nil, find-erase, find-modify}
use ssr_pre.Subscriber.{Event}
use ssr_pre.Renderer.{
  Renderer, Item, State, get_source, rem_source, rem_all_sources, set_member, receive,
}
use ssr_pre.Renderer.Sources.{InOrder, rem_all_sources-empty}

module _ {F : Type 0} where
  abbrev update : ℕ → ℕ → (Item F → Item F) → Option (Item F) → Option (Item F)
  update id j assign none = none
  update id j assign (some t) = if id == j then some (assign t) else some t

  -- The effect of an event on the entry of source `j`.
  unfoldable pub item_effect : Event F → ℕ → Option (Item F) → Option (Item F)
  item_effect (Event.delete_source id) j o = if id == j then none else o
  item_effect Event.delete_all_sources j o = none
  item_effect (Event.set_source_position id p) j o = update id j (λ t. record t { position = p }) o
  item_effect (Event.set_source_orientation id p) j o =
      update id j (λ t. record t { orientation = p }) o
  item_effect (Event.set_source_gain id p) j o = update id j (λ t. record t { gain = p }) o
  item_effect (Event.set_source_mute id p) j o = update id j (λ t. record t { mute = p }) o
  item_effect (Event.set_source_model id p) j o = update id j (λ t. record t { model = p }) o
  item_effect _ j o = o

  -- The effect of an event on the shared state.
  unfoldable pub state_effect : Event F → State F → State F
  state_effect (Event.set_reference_position p) s = record s { reference_position = p }
  state_effect (Event.set_reference_orientation p) s = record s { reference_orientation = p }
  state_effect (Event.set_reference_offset_position p) s = record s {
    reference_offset_position = p;
  }
  state_effect (Event.set_reference_offset_orientation p) s = record s {
    reference_offset_orientation = p;
  }
  state_effect (Event.set_master_volume p) s = record s { master_volume = p }
  state_effect (Event.set_processing_state p) s = record s { processing = p }
  state_effect (Event.set_amplitude_reference_distance p) s = record s {
    amplitude_reference_distance = p;
  }
  state_effect _ s = s

  -- `r'` is what an event makes of `r`.
  pub record Follows (e : Event F) (r r' : Renderer F) : Type 0 where
    pub sources : (j : ℕ) → find j r'.source_map ≡ item_effect e j (find j r.source_map)
    pub state : r'.state ≡ state_effect e r.state

  abbrev Followed : Event F → Renderer F → Option (Renderer F) → Type 0
  Followed e r none = Unit
  Followed e r (some r') = Follows e r r'

  find-set_member :
      (id j : ℕ) (assign : Item F → Item F) (r : Renderer F)
      → find j (set_member id assign r).0.source_map ≡ update id j assign (find j r.source_map)
  unfolding set_member
  find-set_member id j assign r = ground (arith, find-modify j id assign r.source_map)

  state-set_member :
      (id : ℕ) (assign : Item F → Item F) (r : Renderer F)
      → (set_member id assign r).0.state ≡ r.state
  unfolding set_member
  state-set_member id assign r = ground arith

  deleted-Followed :
      (id : ℕ) (r : Renderer F)
      → Followed (Event.delete_source id) r (rem_source (get_source id r) r)
  unfolding get_source rem_source item_effect state_effect
  deleted-Followed id r = elim (Option-cases (find id r.source_map)) [
    | inl e ↦ rw (e, get_source) tt
    | inr (t, e) ↦
        rw (e, get_source) (record { sources = λ j. find-erase j id r.source_map; state = refl })
  ]

  purged-Followed :
      (r : Renderer F) → InOrder r → Followed Event.delete_all_sources r (rem_all_sources r)
  unfolding item_effect state_effect
  purged-Followed r v =
      let (r', done, empty, empty_list, empty_inputs, none_left, same) =
        rem_all_sources-empty r v in
      rw done (record { sources = λ j. ap (find j) empty ∙ find-nil j; state = same })

  receive-Followed : (e : Event F) (r : Renderer F) → InOrder r → Followed e r (receive e r)
  unfolding receive item_effect state_effect
  receive-Followed (Event.delete_source id) r v = deleted-Followed id r
  receive-Followed Event.delete_all_sources r v = purged-Followed r v
  receive-Followed (Event.set_source_position id p) r v = record {
    sources = λ j. find-set_member id j (λ t. record t { position = p }) r;
    state = state-set_member id (λ t. record t { position = p }) r;
  }
  receive-Followed (Event.set_source_orientation id p) r v = record {
    sources = λ j. find-set_member id j (λ t. record t { orientation = p }) r;
    state = state-set_member id (λ t. record t { orientation = p }) r;
  }
  receive-Followed (Event.set_source_gain id p) r v = record {
    sources = λ j. find-set_member id j (λ t. record t { gain = p }) r;
    state = state-set_member id (λ t. record t { gain = p }) r;
  }
  receive-Followed (Event.set_source_mute id p) r v = record {
    sources = λ j. find-set_member id j (λ t. record t { mute = p }) r;
    state = state-set_member id (λ t. record t { mute = p }) r;
  }
  receive-Followed (Event.set_source_model id p) r v = record {
    sources = λ j. find-set_member id j (λ t. record t { model = p }) r;
    state = state-set_member id (λ t. record t { model = p }) r;
  }
  receive-Followed _ r v = record { sources = λ j. refl; state = refl }

  -- Each event that an ordered renderer accepts has on each of its sources and on its state
  -- exactly the effect of a specification that speaks of one source only.
  pub receive-Follows :
      (e : Event F) (r r' : Renderer F) → InOrder r → receive e r ≡ some r' → Follows e r r'
  receive-Follows e r r' v h = subst (Followed e r) h (receive-Followed e r v)

  -- In an ordered renderer the only event that fails is the deletion of a source that does not
  -- exist.
  pub receive-none :
      (e : Event F) (r : Renderer F)
      → InOrder r
      → receive e r ≡ none
      → (id : ℕ) × (e ≡ Event.delete_source id) × (find id r.source_map ≡ none)
  unfolding receive get_source
  receive-none (Event.delete_source id) r v h = (id, refl, ground arith)
  receive-none Event.delete_all_sources r v h = cc (sym h ∙ (rem_all_sources-empty r v).1)
  receive-none _ r v h = cc
