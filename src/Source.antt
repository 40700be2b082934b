-- ===== src/Source.antt =====
-- src/source.h: the data of a source, and the conversion of its model to and from text.
pub mod Models
use ssr_pre.Common.{ℕ, Bool, false, List, [], Option, none, some, replicate, if◌then◌else◌}
use ssr_pre.Common.Text.{Text, codes, eq_text}
use ssr_pre.Geometry.{Floats, Position, Orientation, origin, facing}

-- Source::model_t
pub data Model : Type 0 where
  unknown point plane line directional extended : Model

pub record Source (F : Type 0) : Type 0 where
  pub position : Position F
  pub orientation : Orientation F
  pub name : Text
  pub audio_file_name : Text
  pub audio_file_channel : ℕ
  pub port_name : Text
  pub file_length : ℕ
  pub model : Model
  pub mute : Bool
  pub gain : F
  pub signal_level : F
  pub output_levels : List F
  pub has_mirror_sources : Bool
  pub fixed_position : Bool
  pub properties_file : Text
  pub doppler_effect : Bool

-- Source(outputs)
abbrev pub fresh : {F : Type 0} → Floats F → ℕ → Source F
fresh fl outputs = record {
  position = origin fl;
  orientation = facing fl 0;
  name = [];
  audio_file_name = [];
  audio_file_channel = 0;
  port_name = [];
  file_length = 0;
  model = Model.point;
  mute = false;
  gain = fl.lit 1;
  signal_level = fl.lit 0;
  output_levels = replicate outputs (fl.lit 0);
  has_mirror_sources = false;
  fixed_position = false;
  properties_file = [];
  doppler_effect = false;
}

-- operator>> on the word that was read; `none` sets the badbit.
unfoldable pub read_model : Text → Option Model
read_model temp =
    if eq_text temp (codes "point")
    then some Model.point
    else if eq_text temp (codes "plane")
    then some Model.plane
    else if eq_text temp (codes "line")
    then some Model.line
    else if eq_text temp (codes "directional")
    then some Model.directional
    else none

-- operator<<
unfoldable pub print_model : Model → Text
print_model Model.point = codes "point"
print_model Model.plane = codes "plane"
print_model Model.line = codes "line"
print_model Model.directional = codes "directional"
print_model _ = codes "unknown"
