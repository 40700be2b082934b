-- ===== src/SceneFile.antt =====
-- What src/controller.h reads from a scene file: the namespace `internal` and the <source> elements of
-- load_scene(). The document is what libxml2 makes of the file: the elements that an XPath expression
-- finds, with their children. Messages to the log are left out.
use ssr_pre.Common.{
  ℕ, Bool, true, false, List, [], ◌∷◌, ◌++◌, Option, none, some, ◌==◌, if◌then◌else◌,
}
use ssr_pre.Common.Text.{Text, codes, eq_text}
use ssr_pre.Geometry.{Floats, Position, Orientation, origin, facing}
use ssr_pre.Source.{Model}
use ssr_pre.Publisher.{Settings}
use ssr_pre.CommandParser.{Readers, Channel, channel, negative, empty, or_else}
use ssr_pre.PathTools.{make_path_relative_to_current_dir}

-- A child of an element of the scene file; a missing attribute is the empty string.
pub record Leaf : Type 0 where
  pub name : Text
  pub attribute : Text → Text
  pub content : Text

pub record Node : Type 0 where
  pub name : Text
  pub attribute : Text → Text
  pub content : Text
  pub children : List Leaf

-- XMLParser::Document: validate() with the file name of a schema, and the nodes that eval_xpath() finds,
-- an empty list where it returns a null pointer.
pub record Document : Type 0 where
  pub validate : Text → Bool
  pub eval_xpath : Text → List Node

pub record PositionPlusBool (F : Type 0) : Type 0 where
  pub position : Position F
  pub fixed : Bool

-- The model of a source without a readable one.
abbrev pub default_model : Model → Model
default_model Model.unknown = Model.point
default_model m = m

abbrev pub is_point : Model → Bool
is_point Model.point = true
is_point _ = false

module _ {F : Type 0} (fl : Floats F) (rd : Readers F) where
  open rd use {read_float, read_bool, read_model, read_channel}

  abbrev pub read_position : Leaf → Option (PositionPlusBool F)
  read_position i = elim (read_float (i.attribute (codes "x"))) [
    | none ↦ none
    | some x ↦ elim (read_float (i.attribute (codes "y"))) [
      | none ↦ none
      | some y ↦ some (record {
        position = record { x = x; y = y };
        fixed = or_else (read_bool (i.attribute (codes "fixed"))) false;
      })
    ]
  ]

  -- The first <position> child counts, readable or not.
  unfoldable pub get_position : List Leaf → Option (PositionPlusBool F)
  get_position [] = none
  get_position (i ∷ is) = elim (eq_text i.name (codes "position")) [
    | true ↦ read_position i
    | false ↦ get_position is
  ]

  abbrev pub read_orientation : Leaf → Option (Orientation F)
  read_orientation i = elim (read_float (i.attribute (codes "azimuth"))) [
    | none ↦ none
    | some azimuth ↦ some (record { azimuth = azimuth })
  ]

  unfoldable pub get_orientation : List Leaf → Option (Orientation F)
  get_orientation [] = none
  get_orientation (i ∷ is) = elim (eq_text i.name (codes "orientation")) [
    | true ↦ read_orientation i
    | false ↦ get_orientation is
  ]

  -- A channel that was read passes the assertion unless it is negative.
  abbrev pub asserted : Channel → Text → Option (ℕ × Text)
  asserted (channel n) name = some (n, name)
  asserted negative name = none

  -- The channel, which is 0 for a port, and the name.
  unfoldable pub get_file_or_port_name : List Leaf → Option (ℕ × Text)
  get_file_or_port_name [] = some (0, [])
  get_file_or_port_name (i ∷ is) = elim (eq_text i.name (codes "file")) [
    | true ↦ asserted (or_else (read_channel (i.attribute (codes "channel"))) (channel 1)) i.content
    | false ↦ elim (eq_text i.name (codes "port")) [
      | true ↦ some (0, i.content)
      | false ↦ get_file_or_port_name is
    ]
  ]

  -- The name of the port with the prefix of the configuration, or the file as seen from the current
  -- directory.
  unfoldable pub located : Option Text → Text → Text → ℕ × Text → Option Text
  located cwd prefix scene_file (number, name) =
      if number == 0
      then some (if empty name then name else prefix ++ name)
      else make_path_relative_to_current_dir cwd name scene_file

  -- The orientation, which is optional for a point source.
  abbrev pub source_orientation : Model → List Leaf → Option (Orientation F)
  source_orientation model is = elim (get_orientation is) [
    | none ↦ if is_point model then some (facing fl 0) else none
    | some dir ↦ some dir
  ]

  abbrev pub source_model : Node → Model
  source_model node =
      default_model (or_else (read_model (node.attribute (codes "model"))) Model.unknown)

  -- The arguments of new_source() for a source that has a position and an orientation.
  unfoldable pub source_settings :
      Option Text
      → Text
      → Text
      → Node
      → Text
      → PositionPlusBool F
      → Orientation F
      → Option (Settings F)
  unfolding located
  source_settings cwd prefix scene_file node properties_file pos dir =
      elim (get_file_or_port_name node.children) [
        | none ↦ none
        | some found ↦ elim (located cwd prefix scene_file found) [
          | none ↦ none
          | some file_or_port_name ↦ some (record {
            name = node.attribute (codes "name");
            model = source_model node;
            file_or_port_name = file_or_port_name;
            channel = found.0;
            position = pos.position;
            position_fixed = pos.fixed;
            orientation = dir;
            gain =
                fl.db_to_linear (or_else (read_float (node.attribute (codes "volume"))) (fl.lit 0));
            muted = or_else (read_bool (node.attribute (codes "mute"))) false;
            properties_file = properties_file;
          })
        ]
      ]

  -- One round of the loop over the sources of load_scene(), up to the call of new_source(): `none` where
  -- an assertion fails, `some none` for a source that is not loaded.
  unfoldable pub read_source : Option Text → Text → Text → Node → Option (Option (Settings F))
  unfolding source_settings
  read_source cwd prefix scene_file node =
      elim (make_path_relative_to_current_dir cwd (node.attribute (codes "properties_file"))
        scene_file) [
          | none ↦ none
          | some properties_file ↦ elim (get_position node.children) [
            | none ↦ some none
            | some pos ↦ elim (source_orientation (source_model node) node.children) [
              | none ↦ some none
              | some dir ↦
                  elim (source_settings cwd prefix scene_file node properties_file pos dir) [
                    | none ↦ none
                    | some settings ↦ some (some settings)
                  ]
            ]
          ]
        ]

  abbrev pub position_or_origin : Option (PositionPlusBool F) → Position F
  position_or_origin none = origin fl
  position_or_origin (some p) = p.position

  -- The reference point; `none` if there is more than one.
  unfoldable pub read_reference : List Node → Option (Position F × Orientation F)
  read_reference [] = some (origin fl, facing fl 90)
  read_reference (node ∷ []) = some (
    position_or_origin (get_position node.children),
    or_else (get_orientation node.children) (facing fl 90),
  )
  read_reference (node ∷ other ∷ nodes) = none

  -- The number that the first node holds, or a default.
  abbrev pub first_float : List Node → F → F
  first_float [] d = d
  first_float (node ∷ nodes) d = or_else (read_float node.content) d
