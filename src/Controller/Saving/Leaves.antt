-- ===== src/Controller/Saving/Leaves.antt =====
-- What was written of a source, read again child by child.
use ssr_pre.Common.{
  ℕ, ◌≡◌, refl, sym, Bool, true, false, List, [], ◌∷◌, ◌++◌, Option, none, some, arith, Bool-cases,
  inl, inr,
}
use ssr_pre.Common.Text.{Text, codes, eq_text}
use ssr_pre.Geometry.{Floats, Position}
use ssr_pre.Source.{Source, Model, print_model, read_model}
use ssr_pre.Publisher.{Settings}
use ssr_pre.Network.{Printer}
use ssr_pre.CommandParser.{Readers, channel, empty, or_else}
use ssr_pre.PathTools.{make_path_relative_to_current_dir}
use ssr_pre.SceneFile.{
  Leaf, get_position, get_orientation, get_file_or_port_name, source_settings, read_source, located,
  default_model,
}
use ssr_pre.Controller.Saving.{
  attribute_of, add_position, add_orientation, add_audio_file_name, source_attributes, other_leaves,
  source_node,
}

-- The model of a source after it was saved and loaded.
pub reloaded_model : Model → Model
reloaded_model Model.extended = Model.point
reloaded_model Model.unknown = Model.point
reloaded_model m = m

module _ {F : Type 0} (fl : Floats F) (pr : Printer F) (rd : Readers F) where
  -- A float that is read as it was printed.
  abbrev pub IsExact : F → Type 0
  IsExact x = rd.read_float (pr.show_float x) ≡ some x

  -- How the readers take words that the Controller has printed, and missing attributes.
  pub record ReadsBack : Type 0 where
    pub bool : (b : Bool) → rd.read_bool (pr.show_bool b) ≡ some b
    pub no_bool : rd.read_bool [] ≡ none
    pub no_channel : rd.read_channel [] ≡ none
    pub models : (m : Model) → rd.read_model (print_model m) ≡ read_model (print_model m)

  pub record ExactSource (t : Source F) : Type 0 where
    pub x : IsExact t.position.x
    pub y : IsExact t.position.y
    pub azimuth : IsExact t.orientation.azimuth
    pub volume : IsExact (fl.linear_to_db t.gain)
    pub channel :
        rd.read_channel (pr.show_int t.audio_file_channel) ≡ some (channel t.audio_file_channel)
    pub gain : fl.db_to_linear (fl.linear_to_db t.gain) ≡ t.gain

  -- The children for a file, if there is one.
  abbrev pub files_of : ℕ → Option Text → List Leaf
  files_of n none = []
  files_of n (some name) = add_audio_file_name fl pr name n ∷ []

  pub position_back :
      (p : Position F) (fixed : Bool) (rest : List Leaf)
      → ReadsBack
      → IsExact p.x
      → IsExact p.y
      → get_position fl rd (add_position fl pr p fixed ∷ rest)
        ≡ some (record { position = p; fixed = fixed })
  unfolding get_position add_position attribute_of eq_text
  position_back p true rest b ex ey = ground (arith, ex, ey, b.bool true)
  position_back p false rest b ex ey = ground (arith, ex, ey, b.no_bool)

  leaves-position :
      (t : Source F) (file : Option Text)
      → ReadsBack
      → ExactSource t
      → get_position fl rd (files_of t.audio_file_channel file ++ other_leaves fl pr true t)
        ≡ some (record { position = t.position; fixed = t.fixed_position })
  unfolding get_position other_leaves add_audio_file_name eq_text
  leaves-position t none b e =
      position_back t.position t.fixed_position (add_orientation fl pr t.orientation ∷ []) b e.x e.y
  leaves-position t (some name) b e =
      position_back t.position t.fixed_position (add_orientation fl pr t.orientation ∷ []) b e.x e.y

  leaves-orientation :
      (t : Source F) (file : Option Text)
      → ExactSource t
      → get_orientation fl rd (files_of t.audio_file_channel file ++ other_leaves fl pr true t)
        ≡ some t.orientation
  unfolding get_orientation other_leaves add_position add_orientation add_audio_file_name
      attribute_of eq_text
  leaves-orientation t none e = ground (arith, e.azimuth)
  leaves-orientation t (some name) e = ground (arith, e.azimuth)

  -- What is found for a file, or for none.
  abbrev pub found_of : ℕ → Option Text → ℕ × Text
  found_of n none = (0, [])
  found_of n (some name) = (n, name)

  leaves-file :
      (t : Source F) (file : Option Text)
      → ReadsBack
      → ExactSource t
      → get_file_or_port_name fl rd
          (files_of t.audio_file_channel file ++ other_leaves fl pr true t)
        ≡ some (found_of t.audio_file_channel file)
  unfolding get_file_or_port_name other_leaves add_position add_orientation add_audio_file_name
      attribute_of eq_text
  leaves-file t none b e = refl
  leaves-file t (some name) b e = ground (arith, b.no_channel, e.channel)

  model_back :
      (m : Model)
      → ReadsBack
      → default_model (or_else (rd.read_model (print_model m)) Model.unknown) ≡ reloaded_model m
  unfolding reloaded_model print_model read_model eq_text
  model_back Model.point b = ground (arith, b.models Model.point)
  model_back Model.plane b = ground (arith, b.models Model.plane)
  model_back Model.line b = ground (arith, b.models Model.line)
  model_back Model.directional b = ground (arith, b.models Model.directional)
  model_back Model.extended b = ground (arith, b.models Model.extended)
  model_back Model.unknown b = ground (arith, b.models Model.unknown)

  is_empty : (w : Text) → empty w ≡ true → w ≡ []
  unfolding eq_text
  is_empty [] e = refl
  is_empty (c ∷ w) e = ground (arith, e)

  properties_back :
      (id : ℕ) (t : Source F)
      → attribute_of (source_attributes fl pr true id t) (codes "properties_file")
        ≡ t.properties_file
  unfolding attribute_of source_attributes eq_text
  properties_back id t = elim (Bool-cases (empty t.properties_file)) [
    | inl e ↦ rw e (sym (is_empty t.properties_file e))
    | inr e ↦ rw e refl
  ]

  -- What new_source() gets for a saved source.
  abbrev pub reloaded : Source F → Text → ℕ → Text → Settings F
  reloaded t properties_file number file_or_port_name = record {
    name = t.name;
    model = reloaded_model t.model;
    file_or_port_name = file_or_port_name;
    channel = number;
    position = t.position;
    position_fixed = t.fixed_position;
    orientation = t.orientation;
    gain = t.gain;
    muted = t.mute;
    properties_file = properties_file;
  }

  settings_back :
      (cwd : Option Text) (prefix scene_file : Text) (id : ℕ) (t : Source F) (file : Option Text)
      (properties_file name : Text)
      → ReadsBack
      → ExactSource t
      → located fl rd cwd prefix scene_file (found_of t.audio_file_channel file) ≡ some name
      → source_settings fl rd cwd prefix scene_file
          (source_node fl pr true id t (files_of t.audio_file_channel file))
          properties_file
          (record { position = t.position; fixed = t.fixed_position })
          t.orientation
        ≡ some (reloaded t properties_file (found_of t.audio_file_channel file).0 name)
  unfolding source_settings source_attributes attribute_of eq_text
  settings_back cwd prefix scene_file id t file properties_file name b e found =
      ground (
        arith,
        found,
        leaves-file t file b e,
        e.volume,
        e.gain,
        b.bool t.mute,
        model_back t.model b,
      )

  pub source_back :
      (cwd : Option Text) (prefix scene_file : Text) (id : ℕ) (t : Source F) (file : Option Text)
      (properties_file name : Text)
      → ReadsBack
      → ExactSource t
      → make_path_relative_to_current_dir cwd t.properties_file scene_file ≡ some properties_file
      → located fl rd cwd prefix scene_file (found_of t.audio_file_channel file) ≡ some name
      → read_source fl rd cwd prefix scene_file
          (source_node fl pr true id t (files_of t.audio_file_channel file))
        ≡ some (some (reloaded t properties_file (found_of t.audio_file_channel file).0 name))
  unfolding read_source
  source_back cwd prefix scene_file id t file properties_file name b e path found = ground (
    arith,
    path,
    properties_back id t,
    leaves-position t file b e,
    leaves-orientation t file e,
    settings_back cwd prefix scene_file id t file properties_file name b e found,
  )
