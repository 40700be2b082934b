-- ===== src/Controller/Saving/Returning.antt =====
-- Saving and showing a scene returns while there is a working directory.
use ssr_pre.Common.{ℕ, ◌≡◌, refl, not, List, [], ◌∷◌, some, Bool-cases, inl, inr}
use ssr_pre.Common.Text.{Text, codes}
use ssr_pre.Common.Assoc.{Map}
use ssr_pre.Geometry.{Floats}
use ssr_pre.Source.{Source}
use ssr_pre.Scene.{Scene}
use ssr_pre.Network.{Printer}
use ssr_pre.CommandParser.{empty}
use ssr_pre.PathTools.Returning.{make_path_relative_to_file_returns}
use ssr_pre.SceneFile.{Leaf, Node}
use ssr_pre.Controller.Saving.{
  Writer, source_node, whole_scene, add_master_volume, add_reference, file_leaves,
  add_audio_file_name, add_source, add_sources, get_scene_as_xml, scene_setup, save_scene_as_xml,
}

module _ {F : Type 0} (fl : Floats F) (pr : Printer F) where
  pub file_leaves_returns :
      (cwd scene_file : Text) (t : Source F)
      → (leaves : List Leaf) × (file_leaves fl pr (some cwd) scene_file t ≡ some leaves)
  unfolding file_leaves
  file_leaves_returns cwd scene_file t =
      let path = make_path_relative_to_file_returns cwd t.audio_file_name scene_file in
      elim (Bool-cases (empty t.audio_file_name)) [
        | inl e ↦ ([], rw e refl)
        | inr e ↦ (add_audio_file_name fl pr path.0 t.audio_file_channel ∷ [], rw (e, path.1) refl)
      ]

  pub add_source_returns :
      (cwd scene_file : Text) (entry : ℕ × Source F)
      → (node : Node) × (add_source fl pr (some cwd) scene_file entry ≡ some node)
  unfolding add_source
  add_source_returns cwd scene_file (id, t) =
      let leaves = file_leaves_returns cwd scene_file t in
      (source_node fl pr (not (empty scene_file)) id t leaves.0, rw (leaves.1, add_source) refl)

  add_sources_returns :
      (cwd scene_file : Text) (m : Map (Source F))
      → (nodes : List Node) × (add_sources fl pr (some cwd) scene_file m ≡ some nodes)
  unfolding add_sources
  add_sources_returns cwd scene_file [] = ([], refl)
  add_sources_returns cwd scene_file (entry ∷ m) =
      let first = add_source_returns cwd scene_file entry in
      let others = add_sources_returns cwd scene_file m in
      (first.0 ∷ others.0, rw (first.1, add_sources, others.1) refl)

  -- While there is a working directory, get_scene_as_XML() returns a text for every Scene, and
  -- save_scene_as_XML() returns what libxml2 answers for the nodes of the Scene.
  pub save_scene_as_xml_returns :
      (writer : Writer) (cwd file : Text) (scene : Scene F)
      → ((text : Text) × (get_scene_as_xml fl pr writer (some cwd) scene ≡ some text))
        × (nodes : List Node) × (scene_setup fl pr (some cwd) file scene ≡ some nodes)
        × (save_scene_as_xml fl pr writer (some cwd) file scene
            ≡ some (writer.save_doc file (codes "asdf") nodes))
  unfolding get_scene_as_xml scene_setup save_scene_as_xml
  save_scene_as_xml_returns writer cwd file scene =
      let shown = add_sources_returns cwd [] scene.source_map in
      let saved = add_sources_returns cwd file scene.source_map in
      (
        (
          writer.to_string (codes "update") (whole_scene fl pr writer.playing scene shown.0),
          rw (shown.1, get_scene_as_xml) refl,
        ),
        add_master_volume fl pr scene ∷ add_reference fl pr scene ∷ saved.0,
        rw (saved.1, scene_setup) refl,
        rw (saved.1, scene_setup, save_scene_as_xml) refl,
      )
