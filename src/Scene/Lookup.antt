-- ===== src/Scene/Lookup.antt =====
-- What the Scene knows of a source after each call.
use ssr_pre.Common.{ℕ, ◌≡◌, refl, Option, none, some, arith, ◌==◌, if◌then◌else◌, length}
use ssr_pre.Common.Assoc.{find, find-nil, find-insert, find-erase, find-modify}
use ssr_pre.Geometry.{Floats}
use ssr_pre.Source.{Source, fresh}
use ssr_pre.Subscriber.{Event}
use ssr_pre.Scene.{Scene, set_source_member, receive}

-- The source that an event speaks of, and what becomes of that source: this is the specification of
-- the Scene, one source at a time.
module _ {F : Type 0} (fl : Floats F) where
  abbrev pub update : ℕ → ℕ → (Source F → Source F) → Option (Source F) → Option (Source F)
  update id j assign none = none
  update id j assign (some t) = if id == j then some (assign t) else some t

  -- The effect of an event on the entry of source `j`; `outputs` is the number of loudspeakers.
  unfoldable pub effect : ℕ → Event F → ℕ → Option (Source F) → Option (Source F)
  effect outputs (Event.new_source id) j none = if id == j then some (fresh fl outputs) else none
  effect outputs (Event.new_source id) j (some t) = some t
  effect outputs (Event.delete_source id) j o = if id == j then none else o
  effect outputs Event.delete_all_sources j o = none
  effect outputs (Event.set_source_position id p) j o =
      update id j (λ t. record t { position = p }) o
  effect outputs (Event.set_source_orientation id p) j o =
      update id j (λ t. record t { orientation = p }) o
  effect outputs (Event.set_source_gain id p) j o = update id j (λ t. record t { gain = p }) o
  effect outputs (Event.set_source_signal_level id p) j o =
      update id j (λ t. record t { signal_level = p }) o
  effect outputs (Event.set_source_mute id p) j o = update id j (λ t. record t { mute = p }) o
  effect outputs (Event.set_source_name id p) j o = update id j (λ t. record t { name = p }) o
  effect outputs (Event.set_source_properties_file id p) j o =
      update id j (λ t. record t { properties_file = p }) o
  effect outputs (Event.set_source_model id p) j o = update id j (λ t. record t { model = p }) o
  effect outputs (Event.set_source_port_name id p) j o =
      update id j (λ t. record t { port_name = p }) o
  effect outputs (Event.set_source_file_name id p) j o =
      update id j (λ t. record t { audio_file_name = p }) o
  effect outputs (Event.set_source_file_channel id p) j o =
      update id j (λ t. record t { audio_file_channel = p }) o
  effect outputs (Event.set_source_position_fixed id p) j o =
      update id j (λ t. record t { fixed_position = p }) o
  effect outputs (Event.set_source_file_length id p) j o =
      update id j (λ t. record t { file_length = p }) o
  effect outputs (Event.set_source_output_levels id levels) j o =
      update id j
        (λ t.
          if length t.output_levels == length levels
          then record t { output_levels = levels }
          else t)
        o
  effect outputs _ j o = o

  find-set_source_member :
      (id j : ℕ) (assign : Source F → Source F) (s : Scene F)
      → find j (set_source_member id assign s).0.source_map
        ≡ update id j assign (find j s.source_map)
  unfolding set_source_member
  find-set_source_member id j assign s = ground (arith, find-modify j id assign s.source_map)

  -- Each event has on each source of the Scene exactly the effect of a specification that speaks
  -- of one source only.
  pub find-receive :
      (e : Event F) (j : ℕ) (s : Scene F)
      → find j (receive fl e s).source_map
        ≡ effect (length s.loudspeakers) e j (find j s.source_map)
  unfolding receive effect
  find-receive (Event.set_loudspeakers ls) j s = refl
  find-receive (Event.new_source id) j s =
      ground (arith, find-insert j id (fresh fl (length s.loudspeakers)) s.source_map)
  find-receive (Event.delete_source id) j s = find-erase j id s.source_map
  find-receive Event.delete_all_sources j s = find-nil j
  find-receive (Event.set_source_position id p) j s =
      find-set_source_member id j (λ t. record t { position = p }) s
  find-receive (Event.set_source_orientation id p) j s =
      find-set_source_member id j (λ t. record t { orientation = p }) s
  find-receive (Event.set_source_gain id p) j s =
      find-set_source_member id j (λ t. record t { gain = p }) s
  find-receive (Event.set_source_signal_level id p) j s =
      find-set_source_member id j (λ t. record t { signal_level = p }) s
  find-receive (Event.set_source_mute id p) j s =
      find-set_source_member id j (λ t. record t { mute = p }) s
  find-receive (Event.set_source_name id p) j s =
      find-set_source_member id j (λ t. record t { name = p }) s
  find-receive (Event.set_source_properties_file id p) j s =
      find-set_source_member id j (λ t. record t { properties_file = p }) s
  find-receive (Event.set_source_model id p) j s =
      find-set_source_member id j (λ t. record t { model = p }) s
  find-receive (Event.set_source_port_name id p) j s =
      find-set_source_member id j (λ t. record t { port_name = p }) s
  find-receive (Event.set_source_file_name id p) j s =
      find-set_source_member id j (λ t. record t { audio_file_name = p }) s
  find-receive (Event.set_source_file_channel id p) j s =
      find-set_source_member id j (λ t. record t { audio_file_channel = p }) s
  find-receive (Event.set_source_position_fixed id p) j s =
      find-set_source_member id j (λ t. record t { fixed_position = p }) s
  find-receive (Event.set_source_file_length id p) j s =
      find-set_source_member id j (λ t. record t { file_length = p }) s
  find-receive (Event.set_source_output_levels id levels) j s =
      ground (arith, find-modify j id (λ t. record t { output_levels = levels }) s.source_map)
  find-receive (Event.set_reference_position p) j s = refl
  find-receive _ j s = refl
