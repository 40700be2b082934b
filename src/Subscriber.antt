-- ===== src/Subscriber.antt =====
-- src/subscriber.h: the abstract interface of all that listens to the Controller. A call of one of
-- its virtual functions is a value of `Event`.
use ssr_pre.Common.{ℕ, Bool, List}
use ssr_pre.Common.Text.{Text}
use ssr_pre.Geometry.{Position, Orientation, Loudspeaker}
use ssr_pre.Source.{Model}

pub data Event (F : Type 0) : Type 0 where
  set_loudspeakers : List (Loudspeaker F) → Event F
  new_source : ℕ → Event F
  delete_source : ℕ → Event F
  delete_all_sources : Event F
  set_source_position : ℕ → Position F → Event F
  set_source_orientation : ℕ → Orientation F → Event F
  set_source_gain : ℕ → F → Event F
  set_source_signal_level : ℕ → F → Event F
  set_source_mute : ℕ → Bool → Event F
  set_source_name : ℕ → Text → Event F
  set_source_properties_file : ℕ → Text → Event F
  set_source_model : ℕ → Model → Event F
  set_source_port_name : ℕ → Text → Event F
  set_source_file_name : ℕ → Text → Event F
  set_source_file_channel : ℕ → ℕ → Event F
  set_source_position_fixed : ℕ → Bool → Event F
  set_source_file_length : ℕ → ℕ → Event F
  set_reference_position : Position F → Event F
  set_reference_orientation : Orientation F → Event F
  set_reference_offset_position : Position F → Event F
  set_reference_offset_orientation : Orientation F → Event F
  set_master_volume : F → Event F
  set_amplitude_reference_distance : F → Event F
  set_master_signal_level : F → Event F
  set_cpu_load : F → Event F
  set_sample_rate : ℕ → Event F
  set_source_output_levels : ℕ → List F → Event F
  set_processing_state : Bool → Event F
  set_transport_state : Bool → ℕ → Event F
