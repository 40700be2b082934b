-- ===== src/Controller/Saving.antt =====
-- get_scene_as_XML() and save_scene_as_XML() of src/controller.h: the nodes that they make of the Scene.
-- A failed assertion is `none`. What libxml2 makes of the nodes is the record Writer.
pub mod Returning
pub mod Leaves
pub mod Reloading
pub mod Examples
use ssr_pre.Common.{
  ℕ, Bool, true, false, not, List, [], ◌∷◌, ◌++◌, Option, none, some, ◌==◌, if◌then◌else◌,
}
use ssr_pre.Common.Text.{Text, codes, eq_text}
use ssr_pre.Common.Assoc.{Map}
use ssr_pre.Geometry.{
  Floats, Position, Orientation, Loudspeaker, LoudspeakerModel, normal, subwoofer, unknown,
}
use ssr_pre.Source.{Source, print_model}
use ssr_pre.Scene.{Scene}
use ssr_pre.Network.{Printer}
use ssr_pre.CommandParser.{empty}
use ssr_pre.PathTools.{make_path_relative_to_file}
use ssr_pre.SceneFile.{Leaf, Node}

-- What the Controller gets from libxml2 and from JACK.
pub record Writer : Type 0 where
  -- The text of a root node with its children.
  pub to_string : Text → List Node → Text
  -- xmlSaveDoc() and xmlSaveClose() of a root node with its children, to a file; whether they succeed.
  pub save_doc : Text → Text → List Node → Bool
  -- get_transport_state().first
  pub playing : Bool

-- Attributes in the order of new_attribute(); a missing one reads as the empty string.
unfoldable pub attribute_of : List (Text × Text) → Text → Text
attribute_of [] key = []
attribute_of ((name, value) ∷ attributes) key =
    if eq_text name key then value else attribute_of attributes key

-- operator<< of Loudspeaker::model_t
pub print_loudspeaker_model : LoudspeakerModel → Text
print_loudspeaker_model normal = codes "normal"
print_loudspeaker_model subwoofer = codes "subwoofer"
print_loudspeaker_model unknown = codes "unknown"

module _ {F : Type 0} (fl : Floats F) (pr : Printer F) where
  open pr use {show_float, show_int, show_bool}

  unfoldable pub add_position : Position F → Bool → Leaf
  add_position position fixed = record {
    name = codes "position";
    attribute = attribute_of (
        (codes "x", show_float position.x)
        ∷ (codes "y", show_float position.y)
        ∷ (if fixed then (codes "fixed", show_bool fixed) ∷ [] else []));
    content = [];
  }

  unfoldable pub add_orientation : Orientation F → Leaf
  add_orientation orientation = record {
    name = codes "orientation";
    attribute = attribute_of ((codes "azimuth", show_float orientation.azimuth) ∷ []);
    content = [];
  }

  unfoldable pub add_audio_file_name : Text → ℕ → Leaf
  add_audio_file_name name channel = record {
    name = codes "file";
    attribute =
        attribute_of (if not (channel == 1) then (codes "channel", show_int channel) ∷ [] else []);
    content = name;
  }

  unfoldable pub add_port_name : Text → Leaf
  add_port_name name = record { name = codes "port"; attribute = attribute_of []; content = name }

  -- The <file> child of a source, if it has a file.
  unfoldable pub file_leaves : Option Text → Text → Source F → Option (List Leaf)
  unfolding add_audio_file_name
  file_leaves cwd scene_file source =
      if not (empty source.audio_file_name)
      then elim (make_path_relative_to_file cwd source.audio_file_name scene_file) [
        | none ↦ none
        | some name ↦ some (add_audio_file_name name source.audio_file_channel ∷ [])
      ]
      else some []

  -- The attributes of a <source>; `to_file` is whether there is a scene file name.
  unfoldable pub source_attributes : Bool → ℕ → Source F → List (Text × Text)
  source_attributes to_file id source =
      (if to_file then [] else (codes "id", show_int id) ∷ [])
      ++ ((codes "name", source.name)
          ∷ (codes "model", print_model source.model)
          ∷ ((if to_file then [] else (codes "length", show_int source.file_length) ∷ [])
              ++ ((codes "mute", show_bool source.mute)
                  ∷ (codes "volume", show_float (fl.linear_to_db source.gain))
                  ∷ (if not (empty source.properties_file)
                      then (codes "properties_file", source.properties_file) ∷ []
                      else []))))

  -- The children behind the one for the file.
  unfoldable pub other_leaves : Bool → Source F → List Leaf
  unfolding add_port_name add_position add_orientation
  other_leaves to_file source =
      (if to_file then [] else add_port_name source.port_name ∷ [])
      ++ (add_position source.position source.fixed_position
          ∷ add_orientation source.orientation
          ∷ [])

  abbrev pub source_node : Bool → ℕ → Source F → List Leaf → Node
  source_node to_file id source files = record {
    name = codes "source";
    attribute = attribute_of (source_attributes to_file id source);
    content = [];
    children = files ++ other_leaves to_file source;
  }

  -- One round of the loop of _add_sources().
  unfoldable pub add_source : Option Text → Text → ℕ × Source F → Option Node
  unfolding file_leaves source_attributes other_leaves
  add_source cwd scene_file (id, source) = elim (file_leaves cwd scene_file source) [
    | none ↦ none
    | some files ↦ some (source_node (not (empty scene_file)) id source files)
  ]

  unfoldable pub add_sources : Option Text → Text → Map (Source F) → Option (List Node)
  add_sources cwd scene_file [] = some []
  add_sources cwd scene_file (entry ∷ entries) =
      let following = add_sources cwd scene_file entries in
      elim (add_source cwd scene_file entry) [
        | none ↦ none
        | some node ↦ elim following [ none ↦ none | some nodes ↦ some (node ∷ nodes) ]
      ]

  -- A node without attributes and children.
  abbrev pub text_node : Text → Text → Node
  text_node name content = record {
    name = name;
    attribute = attribute_of [];
    content = content;
    children = [];
  }

  unfoldable pub add_master_volume : Scene F → Node
  add_master_volume scene =
      text_node (codes "volume") (show_float (fl.linear_to_db scene.master_volume))

  pub add_transport_state : Bool → Node
  add_transport_state playing =
      text_node (codes "transport") (if playing then codes "start" else codes "stop")

  unfoldable pub add_reference : Scene F → Node
  add_reference scene = record {
    name = codes "reference";
    attribute = attribute_of [];
    content = [];
    children =
        add_position scene.reference.position false
        ∷ add_orientation scene.reference.orientation
        ∷ [];
  }

  pub add_loudspeakers : List (Loudspeaker F) → List Node
  unfolding print_loudspeaker_model
  add_loudspeakers [] = []
  add_loudspeakers (ls ∷ loudspeakers) =
      record {
        name = codes "loudspeaker";
        attribute = attribute_of ((codes "model", print_loudspeaker_model ls.model) ∷ []);
        content = [];
        children = add_position ls.point.position false ∷ add_orientation ls.point.orientation ∷ [];
      }
      ∷ add_loudspeakers loudspeakers

  -- The children of <update>.
  abbrev pub whole_scene : Bool → Scene F → List Node → List Node
  whole_scene playing scene sources =
      add_master_volume scene
      ∷ add_transport_state playing
      ∷ add_reference scene
      ∷ (add_loudspeakers scene.loudspeakers ++ sources)

  unfoldable pub get_scene_as_xml : Writer → Option Text → Scene F → Option Text
  unfolding add_transport_state add_loudspeakers
  get_scene_as_xml writer cwd scene = elim (add_sources cwd [] scene.source_map) [
    | none ↦ none
    | some sources ↦
        some (writer.to_string (codes "update") (whole_scene writer.playing scene sources))
  ]

  -- The children of <scene_setup> in a saved scene.
  unfoldable pub scene_setup : Option Text → Text → Scene F → Option (List Node)
  scene_setup cwd file scene = elim (add_sources cwd file scene.source_map) [
    | none ↦ none
    | some sources ↦ some (add_master_volume scene ∷ add_reference scene ∷ sources)
  ]

  unfoldable pub save_scene_as_xml : Writer → Option Text → Text → Scene F → Option Bool
  unfolding scene_setup
  save_scene_as_xml writer cwd file scene = elim (scene_setup cwd file scene) [
    | none ↦ none
    | some nodes ↦ some (writer.save_doc file (codes "asdf") nodes)
  ]
