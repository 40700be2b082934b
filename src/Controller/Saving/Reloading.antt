-- ===== src/Controller/Saving/Reloading.antt =====
-- A source that was saved in a scene file and is read again.
use ssr_pre.Common.{
  ℕ, ◌≡◌, refl, true, false, List, [], ◌∷◌, ◌++◌, Option, none, some, ◌==◌, arith, if◌then◌else◌,
  Bool-cases, inl, inr,
}
use ssr_pre.Common.Text.{Text, eq_text}
use ssr_pre.Geometry.{Floats}
use ssr_pre.Source.{Source}
use ssr_pre.Publisher.{Settings}
use ssr_pre.Scene.{Scene}
use ssr_pre.Network.{Printer}
use ssr_pre.CommandParser.{Readers, empty}
use ssr_pre.PathTools.{make_path_relative_to_file, make_path_relative_to_current_dir}
use ssr_pre.PathTools.Returning.{
  make_path_relative_to_file_returns, make_path_relative_to_current_dir_returns,
}
use ssr_pre.SceneFile.{
  Leaf, Node, get_orientation, read_source, read_reference, located, first_float,
}
use ssr_pre.Controller.Saving.{
  attribute_of, add_position, add_orientation, add_audio_file_name, file_leaves, source_node,
  add_source, add_reference, add_master_volume,
}
use ssr_pre.Controller.Saving.Leaves.{
  IsExact, ReadsBack, ExactSource, files_of, reloaded, source_back, position_back,
}

module _ {F : Type 0} (fl : Floats F) (pr : Printer F) (rd : Readers F) where
  -- The name of the file or port of a reloaded source: a file as seen from the scene file and back, or
  -- no port at all.
  pub record IsReloaded (cwd : Text) (prefix scene_file : Text) (t : Source F) (s : Settings F)
      : Type 0 where
    pub settings : s ≡ reloaded fl pr rd t s.properties_file s.channel s.file_or_port_name
    pub properties_file :
        make_path_relative_to_current_dir (some cwd) t.properties_file scene_file
        ≡ some s.properties_file
    pub without_file : empty t.audio_file_name ≡ true → (s.channel ≡ 0) × (s.file_or_port_name ≡ [])
    pub with_file :
        empty t.audio_file_name ≡ false
        → (s.channel ≡ t.audio_file_channel)
          × (name : Text) × (make_path_relative_to_file (some cwd) t.audio_file_name scene_file
              ≡ some name)
          × (located fl rd (some cwd) prefix scene_file (s.channel, name)
              ≡ some s.file_or_port_name)

  pub located_returns :
      (cwd prefix scene_file : Text) (found : ℕ × Text)
      → (name : Text) × (located fl rd (some cwd) prefix scene_file found ≡ some name)
  unfolding located
  located_returns cwd prefix scene_file (number, name) =
      let path = make_path_relative_to_current_dir_returns cwd name scene_file in
      elim (Bool-cases (number == 0)) [
        | inl e ↦ (if empty name then name else prefix ++ name, rw e refl)
        | inr e ↦ (path.0, rw (e, path.1) refl)
      ]

  added :
      (cwd : Option Text) (scene_file : Text) (id : ℕ) (t : Source F) (leaves : List Leaf)
      → empty scene_file ≡ false
      → file_leaves fl pr cwd scene_file t ≡ some leaves
      → add_source fl pr cwd scene_file (id, t) ≡ some (source_node fl pr true id t leaves)
  unfolding add_source
  added cwd scene_file id t leaves named e = rw (e, add_source, named) refl

  without_leaves :
      (cwd : Option Text) (scene_file : Text) (t : Source F)
      → empty t.audio_file_name ≡ true
      → file_leaves fl pr cwd scene_file t ≡ some []
  unfolding file_leaves
  without_leaves cwd scene_file t e = rw e refl

  with_leaves :
      (cwd : Option Text) (scene_file : Text) (t : Source F) (name : Text)
      → empty t.audio_file_name ≡ false
      → make_path_relative_to_file cwd t.audio_file_name scene_file ≡ some name
      → file_leaves fl pr cwd scene_file t
        ≡ some (add_audio_file_name fl pr name t.audio_file_channel ∷ [])
  unfolding file_leaves
  with_leaves cwd scene_file t name e path = rw (e, path) refl

  -- A source that is saved to a scene file with a name is written and read again with its name,
  -- position, orientation, gain and mute state; a model that is not known becomes a point source,
  -- a file name is made relative to the scene file and back, with its channel, the name of a port
  -- is lost, and the name of the properties file, which is written as it is, is read as one
  -- relative to the scene file. This holds while there is a working directory, if the readers
  -- take back what the Controller has printed of this source, its floats and its channel
  -- included.
  pub read_source-add_source :
      (cwd prefix scene_file : Text) (id : ℕ) (t : Source F)
      → empty scene_file ≡ false
      → ReadsBack fl pr rd
      → ExactSource fl pr rd t
      → (node : Node) × (s : Settings F) × (add_source fl pr (some cwd) scene_file (id, t)
          ≡ some node)
        × (read_source fl rd (some cwd) prefix scene_file node ≡ some (some s))
        × IsReloaded cwd prefix scene_file t s
  unfolding located eq_text
  read_source-add_source cwd prefix scene_file id t named b e =
      let properties = make_path_relative_to_current_dir_returns cwd t.properties_file scene_file in
      let path = make_path_relative_to_file_returns cwd t.audio_file_name scene_file in
      let found = located_returns cwd prefix scene_file (t.audio_file_channel, path.0) in
      elim (Bool-cases (empty t.audio_file_name)) [
        | inl no_file ↦ (
          source_node fl pr true id t [],
          reloaded fl pr rd t properties.0 0 [],
          added (some cwd) scene_file id t [] named
              (without_leaves (some cwd) scene_file t no_file),
          source_back fl pr rd (some cwd) prefix scene_file id t none properties.0 [] b e
              properties.1 refl,
          record {
            settings = refl;
            properties_file = properties.1;
            without_file = λ h. (refl, refl);
            with_file = λ h. absurd (ground (arith, h, no_file));
          },
        )
        | inr file ↦ (
          source_node fl pr true id t (files_of fl pr rd t.audio_file_channel (some path.0)),
          reloaded fl pr rd t properties.0 t.audio_file_channel found.0,
          added (some cwd) scene_file id t _ named
              (with_leaves (some cwd) scene_file t path.0 file path.1),
          source_back fl pr rd (some cwd) prefix scene_file id t (some path.0) properties.0 found.0
              b e properties.1 found.1,
          record {
            settings = refl;
            properties_file = properties.1;
            without_file = λ h. absurd (ground (arith, h, file));
            with_file = λ h. (refl, path.0, path.1, found.1);
          },
        )
      ]

  -- The reference and the master volume in decibels that are written to a scene file are read
  -- again, if the readers take back what the Controller has printed, its floats included.
  pub read_reference-add_reference :
      (scene : Scene F) (d : F)
      → ReadsBack fl pr rd
      → IsExact fl pr rd scene.reference.position.x
      → IsExact fl pr rd scene.reference.position.y
      → IsExact fl pr rd scene.reference.orientation.azimuth
      → IsExact fl pr rd (fl.linear_to_db scene.master_volume)
      → (read_reference fl rd (add_reference fl pr scene ∷ [])
          ≡ some (scene.reference.position, scene.reference.orientation))
        × (first_float fl rd (add_master_volume fl pr scene ∷ []) d
            ≡ fl.linear_to_db scene.master_volume)
  unfolding read_reference add_reference add_master_volume get_orientation add_orientation
      add_position attribute_of eq_text
  read_reference-add_reference scene d b x y azimuth volume =
      let position =
        position_back fl pr rd scene.reference.position false
          (add_orientation fl pr scene.reference.orientation ∷ []) b x y in
      (ground (arith, position, azimuth), ground (arith, volume))
