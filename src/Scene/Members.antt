-- ===== src/Scene/Members.antt =====
-- The members of a source in the Scene that have getters, and the events that keep them.
use ssr_pre.Common.{
  ℕ, ◌≡◌, refl, if◌then◌else◌, Bool, true, false, List, [], ◌∷◌, Option, some, arith, ◌==◌, length,
  Bool-cases, inl, inr,
}
use ssr_pre.Common.Text.{Text}
use ssr_pre.Geometry.{Floats, Position, Orientation}
use ssr_pre.Source.{Source, Model}
use ssr_pre.Subscriber.{Event}
use ssr_pre.Scene.Lookup.{update, effect}

-- The members of a source that the Scene has a getter for.
pub data Member : Type 0 where
  of_position : Member
  of_orientation : Member
  of_gain : Member
  of_mute : Member
  of_name : Member
  of_properties_file : Member
  of_model : Member
  of_position_fixed : Member

abbrev pub Held : Type 0 → Member → Type 0
Held F of_position = Position F
Held F of_orientation = Orientation F
Held F of_gain = F
Held F of_mute = Bool
Held F of_name = Text
Held F of_properties_file = Text
Held F of_model = Model
Held F of_position_fixed = Bool

module _ {F : Type 0} where
  abbrev pub held : (m : Member) → Source F → Held F m
  held of_position t = t.position
  held of_orientation t = t.orientation
  held of_gain t = t.gain
  held of_mute t = t.mute
  held of_name t = t.name
  held of_properties_file t = t.properties_file
  held of_model t = t.model
  held of_position_fixed t = t.fixed_position

  -- The call that sets a member.
  abbrev pub setter : (m : Member) → ℕ → Held F m → Event F
  setter of_position id v = Event.set_source_position id v
  setter of_orientation id v = Event.set_source_orientation id v
  setter of_gain id v = Event.set_source_gain id v
  setter of_mute id v = Event.set_source_mute id v
  setter of_name id v = Event.set_source_name id v
  setter of_properties_file id v = Event.set_source_properties_file id v
  setter of_model id v = Event.set_source_model id v
  setter of_position_fixed id v = Event.set_source_position_fixed id v

  -- Whether an event sets a member of a source or removes the source.
  abbrev pub touches : Member → ℕ → Event F → Bool
  touches of_position j (Event.set_source_position id v) = id == j
  touches of_orientation j (Event.set_source_orientation id v) = id == j
  touches of_gain j (Event.set_source_gain id v) = id == j
  touches of_mute j (Event.set_source_mute id v) = id == j
  touches of_name j (Event.set_source_name id v) = id == j
  touches of_properties_file j (Event.set_source_properties_file id v) = id == j
  touches of_model j (Event.set_source_model id v) = id == j
  touches of_position_fixed j (Event.set_source_position_fixed id v) = id == j
  touches m j (Event.delete_source id) = id == j
  touches m j Event.delete_all_sources = true
  touches m j _ = false

  abbrev pub NoneTouches : Member → ℕ → List (Event F) → Type 0
  NoneTouches m j [] = Unit
  NoneTouches m j (e ∷ es) = (touches m j e ≡ false) × NoneTouches m j es

  -- A source with the same member.
  abbrev pub Keeps : (m : Member) → Held F m → Option (Source F) → Type 0
  Keeps m v o = (t : Source F) × (o ≡ some t) × (held m t ≡ v)

module _ {F : Type 0} (fl : Floats F) where
  update_lem :
      (id : ℕ) (assign : Source F → Source F) (t : Source F)
      → update fl id id assign (some t) ≡ some (assign t)
  update_lem id assign t = ground arith

  pub set-Keeps :
      (m : Member) (outputs id : ℕ) (v : Held F m) (t : Source F)
      → Keeps m v (effect fl outputs (setter m id v) id (some t))
  unfolding effect
  set-Keeps of_position outputs id v t = (_, update_lem id (λ t. record t { position = v }) t, refl)
  set-Keeps of_orientation outputs id v t =
      (_, update_lem id (λ t. record t { orientation = v }) t, refl)
  set-Keeps of_gain outputs id v t = (_, update_lem id (λ t. record t { gain = v }) t, refl)
  set-Keeps of_mute outputs id v t = (_, update_lem id (λ t. record t { mute = v }) t, refl)
  set-Keeps of_name outputs id v t = (_, update_lem id (λ t. record t { name = v }) t, refl)
  set-Keeps of_properties_file outputs id v t =
      (_, update_lem id (λ t. record t { properties_file = v }) t, refl)
  set-Keeps of_model outputs id v t = (_, update_lem id (λ t. record t { model = v }) t, refl)
  set-Keeps of_position_fixed outputs id v t =
      (_, update_lem id (λ t. record t { fixed_position = v }) t, refl)

  assigned-Keeps :
      (m : Member) (id j : ℕ) (assign : Source F → Source F) (t : Source F)
      → held m (assign t) ≡ held m t
      → Keeps m (held m t) (update fl id j assign (some t))
  assigned-Keeps m id j assign t e = elim (Bool-cases (id == j)) [
    | inl same ↦ rw same (assign t, refl, e)
    | inr other ↦ rw other (t, refl, refl)
  ]

  output_levels-held :
      (m : Member) (v : List F) (t : Source F) → held m (record t { output_levels = v }) ≡ held m t
  output_levels-held of_position v t = refl
  output_levels-held of_orientation v t = refl
  output_levels-held of_gain v t = refl
  output_levels-held of_mute v t = refl
  output_levels-held of_name v t = refl
  output_levels-held of_properties_file v t = refl
  output_levels-held of_model v t = refl
  output_levels-held of_position_fixed v t = refl

  levels-held :
      (m : Member) (v : List F) (t : Source F)
      → held m (if length t.output_levels == length v then record t { output_levels = v } else t)
        ≡ held m t
  levels-held m v t = elim (Bool-cases (length t.output_levels == length v)) [
    | inl fits ↦ rw fits (output_levels-held m v t)
    | inr other ↦ rw other refl
  ]

  -- An event that does not touch a member keeps it.
  pub effect-Keeps :
      (m : Member) (outputs : ℕ) (e : Event F) (j : ℕ) (t : Source F)
      → touches m j e ≡ false
      → Keeps m (held m t) (effect fl outputs e j (some t))
  unfolding effect
  effect-Keeps of_position outputs (Event.set_source_position id v) j t other =
      rw other (t, refl, refl)
  effect-Keeps m outputs (Event.set_source_position id v) j t other =
      assigned-Keeps m id j (λ t. record t { position = v }) t refl
  effect-Keeps of_orientation outputs (Event.set_source_orientation id v) j t other =
      rw other (t, refl, refl)
  effect-Keeps m outputs (Event.set_source_orientation id v) j t other =
      assigned-Keeps m id j (λ t. record t { orientation = v }) t refl
  effect-Keeps of_gain outputs (Event.set_source_gain id v) j t other = rw other (t, refl, refl)
  effect-Keeps m outputs (Event.set_source_gain id v) j t other =
      assigned-Keeps m id j (λ t. record t { gain = v }) t refl
  effect-Keeps of_mute outputs (Event.set_source_mute id v) j t other = rw other (t, refl, refl)
  effect-Keeps m outputs (Event.set_source_mute id v) j t other =
      assigned-Keeps m id j (λ t. record t { mute = v }) t refl
  effect-Keeps of_name outputs (Event.set_source_name id v) j t other = rw other (t, refl, refl)
  effect-Keeps m outputs (Event.set_source_name id v) j t other =
      assigned-Keeps m id j (λ t. record t { name = v }) t refl
  effect-Keeps of_properties_file outputs (Event.set_source_properties_file id v) j t other =
      rw other (t, refl, refl)
  effect-Keeps m outputs (Event.set_source_properties_file id v) j t other =
      assigned-Keeps m id j (λ t. record t { properties_file = v }) t refl
  effect-Keeps of_model outputs (Event.set_source_model id v) j t other = rw other (t, refl, refl)
  effect-Keeps m outputs (Event.set_source_model id v) j t other =
      assigned-Keeps m id j (λ t. record t { model = v }) t refl
  effect-Keeps of_position_fixed outputs (Event.set_source_position_fixed id v) j t other =
      rw other (t, refl, refl)
  effect-Keeps m outputs (Event.set_source_position_fixed id v) j t other =
      assigned-Keeps m id j (λ t. record t { fixed_position = v }) t refl
  effect-Keeps of_position outputs (Event.set_source_signal_level id v) j t other =
      assigned-Keeps of_position id j (λ t. record t { signal_level = v }) t refl
  effect-Keeps m outputs (Event.set_source_signal_level id v) j t other =
      assigned-Keeps m id j (λ t. record t { signal_level = v }) t refl
  effect-Keeps of_position outputs (Event.set_source_port_name id v) j t other =
      assigned-Keeps of_position id j (λ t. record t { port_name = v }) t refl
  effect-Keeps m outputs (Event.set_source_port_name id v) j t other =
      assigned-Keeps m id j (λ t. record t { port_name = v }) t refl
  effect-Keeps of_position outputs (Event.set_source_file_name id v) j t other =
      assigned-Keeps of_position id j (λ t. record t { audio_file_name = v }) t refl
  effect-Keeps m outputs (Event.set_source_file_name id v) j t other =
      assigned-Keeps m id j (λ t. record t { audio_file_name = v }) t refl
  effect-Keeps of_position outputs (Event.set_source_file_channel id v) j t other =
      assigned-Keeps of_position id j (λ t. record t { audio_file_channel = v }) t refl
  effect-Keeps m outputs (Event.set_source_file_channel id v) j t other =
      assigned-Keeps m id j (λ t. record t { audio_file_channel = v }) t refl
  effect-Keeps of_position outputs (Event.set_source_file_length id v) j t other =
      assigned-Keeps of_position id j (λ t. record t { file_length = v }) t refl
  effect-Keeps m outputs (Event.set_source_file_length id v) j t other =
      assigned-Keeps m id j (λ t. record t { file_length = v }) t refl
  effect-Keeps m outputs (Event.set_source_output_levels id v) j t other =
      assigned-Keeps m id j
        (λ t. if length t.output_levels == length v then record t { output_levels = v } else t) t
        (levels-held m v t)
  effect-Keeps m outputs (Event.delete_source id) j t other = rw other (t, refl, refl)
  effect-Keeps m outputs Event.delete_all_sources j t other = cc
  effect-Keeps m outputs _ j t other = (t, refl, refl)
