-- ===== src/Loudspeakers.antt =====
-- src/loudspeakerrenderer.h: the loudspeakers of a reproduction setup, from the elements of the file to
-- the list of outputs. An exception is `none`. The document is what libxml2 makes of the file, and the
-- base class adds an output at the end of its list.
pub mod Elements
pub mod Ports
pub mod Numbering
pub mod Setups
pub mod Examples
use ssr_pre.Common.{
  ℕ, zero, suc, ◌+◌, ◌-◌, Bool, true, false, not, ◌&&◌, List, [], ◌∷◌, ◌++◌, map, Option, none,
  some, ltb, if◌then◌else◌,
}
use Prim.Native.String.{String}
use ssr_pre.Common.Text.{Text, codes, eq_text}
use ssr_pre.Common.Int.{ℤ, pos, less_than, rounds}
use ssr_pre.CommandParser.{empty, or_else}
use ssr_pre.Geometry.{
  Floats, Position, Orientation, DirectionalPoint, Loudspeaker, LoudspeakerModel,
  default_loudspeaker, origin, facing,
}
use ssr_pre.Geometry.Points.{
  Plane, add_point, subtract_point, divide_point, subtract_position, rotate_point,
}

-- An element with its name and its attributes; a missing attribute is the empty string.
pub record Tag : Type 0 where
  pub name : Text
  pub attribute : Text → Text

pub record Part : Type 0 where
  pub tag : Tag
  pub children : List Tag

-- A child of <reproduction_setup>.
pub record SetupElement : Type 0 where
  pub tag : Tag
  pub children : List Part

pub record SetupDocument : Type 0 where
  pub validate : Text → Bool
  pub eval_xpath : Text → List SetupElement

-- Output::Params: a loudspeaker and the port that it is connected to.
pub record Output (F : Type 0) : Type 0 where
  pub loudspeaker : Loudspeaker F
  pub connect_to : Option Text

pub record Setup (F : Type 0) : Type 0 where
  pub outputs : List (Output F)
  -- How often it was counted up, with 1 at the beginning; the int wraps around (as_int).
  pub next_loudspeaker_channel : ℕ

-- The parameters of the renderer, the readers of apf::str, and what the C++ library prints for an int.
pub record SetupReader (F : Type 0) : Type 0 where
  pub reproduction_setup : Text
  pub xml_schema : Text
  pub system_output_prefix : Text
  pub read_float : Text → Option F
  pub read_int : Text → Option ℤ
  pub show_int : ℕ → Text
  pub load_file : Text → Option SetupDocument

abbrev pub is_named : String → Tag → Bool
is_named word tag = eq_text tag.name (codes word)

abbrev pub read_model : Text → LoudspeakerModel
read_model text =
    if eq_text text (codes "normal")
    then LoudspeakerModel.normal
    else if eq_text text (codes "subwoofer")
    then LoudspeakerModel.subwoofer
    else LoudspeakerModel.unknown

-- Node::child() of a name: the children of the first one, none without one.
unfoldable pub child : String → List Part → List Tag
child word [] = []
child word (p ∷ ps) = elim (is_named word p.tag) [ true ↦ p.children | false ↦ child word ps ]

module _ {F : Type 0} (rd : SetupReader F) where
  open rd use {read_float, show_int, system_output_prefix}

  -- The first <position> counts, readable or not.
  unfoldable pub get_position : List Tag → Option (Position F)
  get_position [] = none
  get_position (i ∷ is) = elim (is_named "position" i) [
    | true ↦ elim (read_float (i.attribute (codes "x"))) [
      | none ↦ none
      | some x ↦ elim (read_float (i.attribute (codes "y"))) [
        | none ↦ none
        | some y ↦ some (record { x = x; y = y })
      ]
    ]
    | false ↦ get_position is
  ]

  -- The first element of that name counts, readable or not: _get_orientation() and _get_angle().
  unfoldable pub get_azimuth : String → List Tag → Option (Orientation F)
  get_azimuth word [] = none
  get_azimuth word (i ∷ is) = elim (is_named word i) [
    | true ↦ elim (read_float (i.attribute (codes "azimuth"))) [
      | none ↦ none
      | some azimuth ↦ some (record { azimuth = azimuth })
    ]
    | false ↦ get_azimuth word is
  ]

  abbrev pub get_orientation : List Tag → Option (Orientation F)
  get_orientation = get_azimuth "orientation"

  abbrev pub get_angle : List Tag → Option (Orientation F)
  get_angle = get_azimuth "angle"

  -- _set_connection() and add()
  unfoldable pub add_loudspeaker : Loudspeaker F → Setup F → Setup F
  add_loudspeaker ls s =
      let channel = s.next_loudspeaker_channel in
      record {
        outputs =
            s.outputs
            ++ record {
              loudspeaker = ls;
              connect_to =
                  if empty system_output_prefix
                  then none
                  else some (system_output_prefix ++ show_int channel);
            }
              ∷ [];
        next_loudspeaker_channel = channel + 1;
      }
