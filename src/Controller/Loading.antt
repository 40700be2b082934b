-- ===== src/Controller/Loading.antt =====
-- load_scene() and _create_spontaneous_scene() of src/controller.h, in a build with Ecasound. `none` is
-- a failed assertion or an exception; what the functions return stands beside the Controller.
pub mod Keeping
pub mod Agreement
pub mod Aiming
pub mod Telling
pub mod Distance
pub mod Sources
pub mod Returning
pub mod Sample
pub mod Examples
use ssr_pre.Common.{
  ℕ, zero, suc, ◌+◌, ◌*◌, ◌%◌, ◌^◌, Bool, true, false, not, ◌&&◌, ◌||◌, List, [], ◌∷◌, ◌++◌, Option,
  none, some, ◌==◌, if◌then◌else◌,
}
use ssr_pre.Common.Text.{Text, codes, eq_text}
use ssr_pre.Geometry.{Arithmetic, Floats, Position, Orientation, origin, facing}
use ssr_pre.Source.{Model}
use ssr_pre.Subscriber.{Event}
use ssr_pre.Publisher.{Settings}
use ssr_pre.Scene.{Scene}
use ssr_pre.Network.{Printer}
use ssr_pre.CommandParser.{Readers, empty, or_else}
use ssr_pre.PathTools.{get_file_extension, rfind, substr, slash}
use ssr_pre.SceneFile.{Document, Node, read_source, read_reference, first_float}
use ssr_pre.Controller.Saving.{Writer}
use ssr_pre.Controller.{
  Controller, Services, ◌>>=◌, publish, publish_all, new_source, delete_all_sources,
  start_processing, stop_processing, set_amplitude_reference_distance,
}

-- The members of conf_struct that are read here.
pub record Config (F : Type 0) : Type 0 where
  pub stand_ampl_ref_dist : F
  pub xml_schema : Text
  pub input_port_prefix : Text

-- What loading and saving scenes get from the configuration, other libraries and the operating system.
pub record Loader (F : Type 0) : Type 0 where
  pub conf : Config F
  pub readers : Readers F
  pub arithmetic : Arithmetic F
  -- getcwd()
  pub cwd : Option Text
  -- XMLParser::load_file()
  pub load_file : Text → Option Document
  pub writer : Writer
  -- AudioPlayer::Soundfile::get_format(), which asks Ecasound; `none` where it throws.
  pub get_format : Text → Option ℕ
  -- The n-th result of rand()
  pub random : ℕ → ℕ

module _ {F : Type 0} (fl : Floats F) (pr : Printer F) (ld : Loader F) (sv : Services) where
  open ld use {conf, readers, arithmetic, cwd}

  unfoldable pub load_sources : Text → List Node → Controller F → Option (Controller F)
  load_sources scene_file [] c = some c
  load_sources scene_file (node ∷ nodes) c =
      elim (read_source fl readers cwd conf.input_port_prefix scene_file node) [
        | none ↦ none
        | some none ↦ load_sources scene_file nodes c
        | some (some settings) ↦ new_source fl pr sv settings c >>= load_sources scene_file nodes
      ]

  -- The end of load_scene(); transport_locate() asks JACK.
  abbrev pub started : Controller F → Option (Bool × Controller F)
  started c = start_processing fl pr c >>= λ c'. some (true, c')

  -- The calls that set the reference and its offset.
  abbrev pub reference_events : Position F → Orientation F → List (Event F)
  reference_events position orientation =
      Event.set_reference_position position
      ∷ Event.set_reference_orientation orientation
      ∷ Event.set_reference_offset_position (origin fl)
      ∷ Event.set_reference_offset_orientation (facing fl 0)
      ∷ []

  -- _scene.set_amplitude_reference_distance()
  abbrev pub set_scene_distance : F → Controller F → Controller F
  set_scene_distance distance c = record c {
    scene = record c.scene { amplitude_reference_distance = distance };
  }

  -- From the reference on.
  unfoldable pub load_reference : Text → Document → Controller F → Option (Bool × Controller F)
  unfolding load_sources
  load_reference scene_file doc c =
      elim (read_reference fl readers (doc.eval_xpath (codes "//scene_setup/reference"))) [
        | none ↦ some (false, c)
        | some (position, orientation) ↦
            publish_all fl pr (reference_events position orientation) c
            >>= (λ c1. load_sources scene_file (doc.eval_xpath (codes "//scene_setup/source")) c1)
            >>= started
      ]

  abbrev pub file_volume : Document → F
  file_volume doc =
      first_float fl readers (doc.eval_xpath (codes "//scene_setup/volume")) (fl.lit 0)

  abbrev pub file_distance : Document → F
  file_distance doc =
      first_float fl readers (doc.eval_xpath (codes "//scene_setup/amplitude_reference_distance"))
        conf.stand_ampl_ref_dist

  unfoldable pub load_document : Text → Document → Controller F → Option (Bool × Controller F)
  unfolding load_reference
  load_document scene_file doc c =
      publish fl pr (Event.set_master_volume (fl.db_to_linear (file_volume doc))) c >>= λ c1.
      load_reference scene_file doc (set_scene_distance (file_distance doc) c1)

  -- A source of a spontaneous scene.
  abbrev pub spontaneous : Text → Model → Text → ℕ → Position F → Orientation F → Settings F
  spontaneous name model file channel position orientation = record {
    name = name;
    model = model;
    file_or_port_name = file;
    channel = channel;
    position = position;
    position_fixed = false;
    orientation = orientation;
    gain = fl.db_to_linear (fl.lit 0);
    muted = false;
    properties_file = [];
  }

  abbrev pub default_source_distance : F
  default_source_distance = arithmetic.decimal 25 1

  -- PI / 3
  abbrev pub third : F
  third = arithmetic.divide (arithmetic.decimal 314159265358979323846 20) (fl.lit 3)

  -- Random positions between -N mtrs and N mtrs, where N is 7.
  abbrev pub random_offset : ℕ → F
  random_offset n =
      arithmetic.divide
        (arithmetic.subtract (fl.lit (ld.random n % (10 * (7 + 1))))
          (arithmetic.times (fl.lit 5) (fl.lit (7 + 1))))
        (fl.lit 10)

  -- The source of channel n + 1.
  abbrev pub random_source : Text → Text → ℕ → Settings F
  random_source source_name file n =
      spontaneous (source_name ++ codes " " ++ pr.show_int (n + 1)) Model.point file (n + 1)
        (record {
          x = random_offset (2 * n);
          y = arithmetic.add (fl.lit 2) (random_offset (2 * n + 1));
        })
        (facing fl 0)

  -- `left` sources from channel n + 1 on.
  pub random_sources : Text → Text → ℕ → ℕ → List (Settings F)
  random_sources source_name file zero n = []
  random_sources source_name file (suc left) n =
      random_source source_name file n ∷ random_sources source_name file left (n + 1)

  abbrev pub stereo_sources : Text → Text → List (Settings F)
  stereo_sources source_name file =
      let pos_x = arithmetic.times default_source_distance (arithmetic.cos third) in
      let pos_y = arithmetic.times default_source_distance (arithmetic.sin third) in
      spontaneous (source_name ++ codes " left") Model.plane file 1
        (record { x = arithmetic.negate pos_x; y = pos_y })
        (record { azimuth = arithmetic.negate (fl.lit 60) })
      ∷ spontaneous (source_name ++ codes " right") Model.plane file 2
          (record { x = pos_x; y = pos_y }) (record { azimuth = arithmetic.negate (fl.lit 120) })
      ∷ []

  -- The sources for a number of channels that is not 0.
  unfoldable pub spontaneous_sources : Text → Text → ℕ → List (Settings F)
  unfolding random_sources
  spontaneous_sources source_name file no_of_audio_channels =
      if no_of_audio_channels == 1
      then spontaneous source_name Model.point file 1
          (record { x = fl.lit 0; y = default_source_distance }) (facing fl 0)
        ∷ []
      else if no_of_audio_channels == 2
      then stereo_sources source_name file
      else random_sources source_name file no_of_audio_channels 0

  unfoldable pub new_sources : List (Settings F) → Controller F → Option (Controller F)
  new_sources [] c = some c
  new_sources (settings ∷ rest) c = new_source fl pr sv settings c >>= new_sources rest

  -- What follows the last slash; the sum of npos and 1 wraps to 0.
  unfoldable pub pure_file_name : Text → Text
  pure_file_name file = substr file ((rfind slash file + 1) % 2 ^ 64)

  -- _create_spontaneous_scene() for a file with that many channels.
  unfoldable pub spontaneous_scene : Text → ℕ → Controller F → Option (Bool × Controller F)
  unfolding new_sources
  spontaneous_scene file no_of_audio_channels c =
      publish fl pr (Event.set_master_volume (fl.db_to_linear (arithmetic.negate (fl.lit 6)))) c
      >>= (λ c1. set_amplitude_reference_distance fl pr conf.stand_ampl_ref_dist c1)
      >>= (λ c2. publish_all fl pr (reference_events (origin fl) (facing fl 90)) c2)
      >>= (λ c3.
          new_sources (spontaneous_sources (pure_file_name file) file no_of_audio_channels) c3)
      >>= λ c4. some (true, c4)

  unfoldable pub create_spontaneous_scene : Text → Controller F → Option (Bool × Controller F)
  unfolding spontaneous_scene
  create_spontaneous_scene file c = elim (ld.get_format file) [
    | none ↦ none
    | some no_of_audio_channels ↦
        if no_of_audio_channels == 0
        then some (false, c)
        else spontaneous_scene file no_of_audio_channels c
  ]

  abbrev pub started_if : Bool × Controller F → Option (Bool × Controller F)
  started_if (loaded, c) = if loaded then started c else some (false, c)

  -- load_scene() after the old sources are gone.
  unfoldable pub load_into : Text → Controller F → Option (Bool × Controller F)
  unfolding load_document create_spontaneous_scene
  load_into scene_file c =
      if empty scene_file
      then some (true, c)
      else if empty (get_file_extension scene_file)
      then some (false, c)
      else if eq_text (get_file_extension scene_file) (codes "asd")
      then elim (ld.load_file scene_file) [
        | none ↦ some (false, c)
        | some doc ↦
            if empty conf.xml_schema || not (doc.validate conf.xml_schema)
            then some (false, c)
            else load_document scene_file doc c
      ]
      else create_spontaneous_scene scene_file c >>= started_if

  unfoldable pub load_scene : Text → Controller F → Option (Bool × Controller F)
  unfolding load_into
  load_scene scene_file c =
      stop_processing fl pr c
      >>= (λ c1. delete_all_sources fl pr c1)
      >>= (λ c2. load_into scene_file c2)
