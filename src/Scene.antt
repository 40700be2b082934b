-- ===== src/Scene.antt =====
-- src/scene.h and src/scene.cpp, with src/maptools.h: the Scene, a subscriber that records the state
-- of all sources, of the reference point and of the renderer.
pub mod Lookup
pub mod Members
pub mod Getters
use ssr_pre.Common.{
  ℕ, suc, Bool, true, false, List, [], ◌∷◌, Option, none, some, ◌==◌, if◌then◌else◌, length,
}
use ssr_pre.Common.Text.{Text}
use ssr_pre.Common.Assoc.{Map, find, insert, erase, modify}
use ssr_pre.Geometry.{Floats, Position, Orientation, DirectionalPoint, Loudspeaker, origin, facing}
use ssr_pre.Source.{Source, Model, fresh}
use ssr_pre.Subscriber.{Event}

pub record Scene (F : Type 0) : Type 0 where
  pub source_map : Map (Source F)
  pub loudspeakers : List (Loudspeaker F)
  pub reference : DirectionalPoint F
  pub reference_offset : DirectionalPoint F
  pub master_volume : F
  pub amplitude_reference_distance : F
  pub master_signal_level : F
  pub cpu_load : F
  pub sample_rate : ℕ
  pub processing_state : Bool
  pub transport_playing : Bool
  pub transport_position : ℕ

-- maptools::get_item()
abbrev pub get_item {ℓ} : {V : Type ℓ} → Map V → ℕ → Option V
get_item m id = find id m

module _ {F : Type 0} where
  -- _set_source_member(): the assignment, and whether the source exists.
  unfoldable pub set_source_member : ℕ → (Source F → Source F) → Scene F → Scene F × Bool
  set_source_member id assign s = elim (get_item s.source_map id) [
    | none ↦ (s, false)
    | some source ↦ (record s { source_map = modify id assign s.source_map }, true)
  ]

  -- _get_source_member(), with what the getter returns if the source does not exist.
  unfoldable pub get_source_member {ℓ} : {A : Type ℓ} → ℕ → (Source F → A) → A → Scene F → A
  get_source_member id member missing s = elim (get_item s.source_map id) [
    | none ↦ missing
    | some source ↦ member source
  ]

  unfoldable pub set_source_output_levels : ℕ → List F → Scene F → Scene F
  set_source_output_levels id levels s = elim (get_item s.source_map id) [
    | none ↦ s
    | some source ↦
        if length source.output_levels == length levels
        then record s {
          source_map = modify id (λ t. record t { output_levels = levels }) s.source_map;
        }
        else s
  ]

  unfoldable pub get_source_position_fixed : ℕ → Scene F → Bool
  unfolding get_source_member
  get_source_position_fixed id = get_source_member id (λ t. t.fixed_position) false

  unfoldable pub get_source_mute_state : ℕ → Scene F → Bool
  unfolding get_source_member
  get_source_mute_state id = get_source_member id (λ t. t.mute) false

  unfoldable pub get_source_name : ℕ → Scene F → Text
  unfolding get_source_member
  get_source_name id = get_source_member id (λ t. t.name) []

  unfoldable pub get_source_properties_file : ℕ → Scene F → Text
  unfolding get_source_member
  get_source_properties_file id = get_source_member id (λ t. t.properties_file) []

  unfoldable pub get_source_model : ℕ → Scene F → Model
  unfolding get_source_member
  get_source_model id = get_source_member id (λ t. t.model) Model.unknown

  unfoldable pub get_source_position : ℕ → Scene F → Option (Position F)
  unfolding get_source_member
  get_source_position id = get_source_member id (λ t. some t.position) none

  unfoldable pub get_source_orientation : ℕ → Scene F → Option (Orientation F)
  unfolding get_source_member
  get_source_orientation id = get_source_member id (λ t. some t.orientation) none

module _ {F : Type 0} (fl : Floats F) where
  -- Scene(); the members that the constructor leaves uninitialised are false and 0.
  abbrev pub empty_scene : Scene F
  empty_scene = record {
    source_map = [];
    loudspeakers = [];
    reference = record { position = origin fl; orientation = facing fl 90 };
    reference_offset = record { position = origin fl; orientation = facing fl 0 };
    master_volume = fl.lit 1;
    amplitude_reference_distance = fl.lit 3;
    master_signal_level = fl.lit 0;
    cpu_load = fl.lit 0;
    sample_rate = 0;
    processing_state = true;
    transport_playing = false;
    transport_position = 0;
  }

  unfoldable pub get_source_gain : ℕ → Scene F → F
  unfolding get_source_member
  get_source_gain id = get_source_member id (λ t. t.gain) (fl.lit 0)

  unfoldable pub get_source : ℕ → Scene F → Source F
  get_source id s = elim (get_item s.source_map id) [
    | none ↦ fresh fl (length s.loudspeakers)
    | some source ↦ source
  ]

  -- An existing source is kept.
  unfoldable pub new_source : ℕ → Scene F → Scene F
  new_source id s = elim (get_item s.source_map id) [
    | none ↦ record s { source_map = insert id (fresh fl (length s.loudspeakers)) s.source_map }
    | some source ↦ s
  ]

  -- The overridden functions of Subscriber.
  unfoldable pub receive : Event F → Scene F → Scene F
  unfolding set_source_member set_source_output_levels new_source
  receive (Event.set_loudspeakers ls) s = record s { loudspeakers = ls }
  receive (Event.new_source id) s = new_source id s
  receive (Event.delete_source id) s = record s { source_map = erase id s.source_map }
  receive Event.delete_all_sources s = record s { source_map = [] }
  receive (Event.set_source_position id p) s =
      (set_source_member id (λ t. record t { position = p }) s).0
  receive (Event.set_source_orientation id o) s =
      (set_source_member id (λ t. record t { orientation = o }) s).0
  receive (Event.set_source_gain id gain) s =
      (set_source_member id (λ t. record t { gain = gain }) s).0
  receive (Event.set_source_signal_level id level) s =
      (set_source_member id (λ t. record t { signal_level = level }) s).0
  receive (Event.set_source_mute id mute) s =
      (set_source_member id (λ t. record t { mute = mute }) s).0
  receive (Event.set_source_name id name) s =
      (set_source_member id (λ t. record t { name = name }) s).0
  receive (Event.set_source_properties_file id name) s =
      (set_source_member id (λ t. record t { properties_file = name }) s).0
  receive (Event.set_source_model id model) s =
      (set_source_member id (λ t. record t { model = model }) s).0
  receive (Event.set_source_port_name id name) s =
      (set_source_member id (λ t. record t { port_name = name }) s).0
  receive (Event.set_source_file_name id name) s =
      (set_source_member id (λ t. record t { audio_file_name = name }) s).0
  receive (Event.set_source_file_channel id channel) s =
      (set_source_member id (λ t. record t { audio_file_channel = channel }) s).0
  receive (Event.set_source_position_fixed id fixed) s =
      (set_source_member id (λ t. record t { fixed_position = fixed }) s).0
  receive (Event.set_source_file_length id length) s =
      (set_source_member id (λ t. record t { file_length = length }) s).0
  receive (Event.set_reference_position p) s = record s {
    reference = record (s.reference) { position = p };
  }
  receive (Event.set_reference_orientation o) s = record s {
    reference = record (s.reference) { orientation = o };
  }
  receive (Event.set_reference_offset_position p) s = record s {
    reference_offset = record (s.reference_offset) { position = p };
  }
  receive (Event.set_reference_offset_orientation o) s = record s {
    reference_offset = record (s.reference_offset) { orientation = o };
  }
  receive (Event.set_master_volume volume) s = record s { master_volume = volume }
  receive (Event.set_amplitude_reference_distance dist) s = record s {
    amplitude_reference_distance = dist;
  }
  receive (Event.set_master_signal_level level) s = record s { master_signal_level = level }
  receive (Event.set_cpu_load load) s = record s { cpu_load = load }
  receive (Event.set_sample_rate rate) s = record s { sample_rate = rate }
  receive (Event.set_source_output_levels id levels) s = set_source_output_levels id levels s
  receive (Event.set_processing_state state) s = record s { processing_state = state }
  receive (Event.set_transport_state playing position) s = record s {
    transport_playing = playing;
    transport_position = position;
  }
