-- ===== src/Publisher.antt =====
-- src/publisher.h: the interface through which the program's parts ask the Controller for changes. A
-- call of one of its virtual functions is a value of `Call`.
use ssr_pre.Common.{ℕ, Bool}
use ssr_pre.Common.Text.{Text}
use ssr_pre.Geometry.{Position, Orientation}
use ssr_pre.Source.{Model}

-- What the arguments of new_source() say of the source.
pub record Settings (F : Type 0) : Type 0 where
  pub name : Text
  pub model : Model
  pub file_or_port_name : Text
  pub channel : ℕ
  pub position : Position F
  pub position_fixed : Bool
  pub orientation : Orientation F
  pub gain : F
  pub muted : Bool
  pub properties_file : Text

pub data Call (F : Type 0) : Type 0 where
  load_scene : Text → Call F
  save_scene_as_xml : Text → Call F
  start_processing stop_processing : Call F
  new_source : Settings F → Call F
  delete_source : ℕ → Call F
  delete_all_sources : Call F
  set_source_position : ℕ → Position F → Call F
  set_source_orientation : ℕ → Orientation F → Call F
  set_source_gain : ℕ → F → Call F
  set_source_signal_level : ℕ → F → Call F
  set_source_mute : ℕ → Bool → Call F
  set_source_name : ℕ → Text → Call F
  set_source_properties_file : ℕ → Text → Call F
  set_source_model : ℕ → Model → Call F
  set_source_port_name : ℕ → Text → Call F
  set_source_file_name : ℕ → Text → Call F
  set_source_file_channel : ℕ → ℕ → Call F
  set_source_position_fixed : ℕ → Bool → Call F
  set_reference_position : Position F → Call F
  set_reference_orientation : Orientation F → Call F
  set_reference_offset_position : Position F → Call F
  set_reference_offset_orientation : Orientation F → Call F
  set_master_volume : F → Call F
  set_amplitude_reference_distance : F → Call F
  set_master_signal_level : F → Call F
  set_cpu_load : F → Call F
  publish_sample_rate : ℕ → Call F
  set_processing_state : Bool → Call F
  transport_start transport_stop : Call F
  transport_locate : F → Call F
  calibrate_client : Call F
