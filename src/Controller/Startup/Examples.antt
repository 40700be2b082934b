-- ===== src/Controller/Startup/Examples.antt =====
-- A program that starts with a small scene file, or with none.
use mathlib.Core.Option.{some-injective}
use ssr_pre.SceneFile.{Document}
use ssr_pre.Controller.Loading.Sources.{IsSpontaneous, AllRead, Playable}
use ssr_pre.Controller.Startup.Returning.{Begun, Unloaded, construct-Begun}
use ssr_pre.Common.{
  ◌⊎◌, subst, ℕ, ◌≡◌, refl, true, false, List, [], ◌∷◌, Option, none, some, length, ◌<◌,
}
use ssr_pre.Common.Int.{pos}
use ssr_pre.Common.Text.{Text, codes, eq_text}
use ssr_pre.Common.Assoc.{find, insert, modify}
use ssr_pre.Configuration.{Conf}
use ssr_pre.CommandParser.Examples.{is_some, value}
use ssr_pre.PathTools.{get_file_extension, make_path_relative_to_current_dir}
use ssr_pre.Publisher
use ssr_pre.SceneFile.{
  read_source, read_reference, get_position, get_orientation, get_file_or_port_name,
  source_settings,
}
use ssr_pre.Scene
use ssr_pre.Scene.{get_source_position_fixed}
use ssr_pre.Renderer
use ssr_pre.Renderer.{add_source}
use ssr_pre.Controller.{
  new_source, announcements, stop_processing, start_processing, subscribe, set_processing_state,
  delete_all_sources, publish_all, publish, publish_to, deliver,
}
use ssr_pre.Controller.Calls.{perform, perform_all}
use ssr_pre.Controller.Publish.{Synced}
use ssr_pre.Controller.Loading.{load_scene, load_into, load_document, load_reference, load_sources}
use ssr_pre.Controller.Saving.{get_scene_as_xml, add_sources}
use ssr_pre.Controller.Loading.Sample.{loader, schema, scene_document}
use ssr_pre.Controller.Sample.{numbers, printer, services}
use ssr_pre.Controller.Startup.{
  Host, Program, introduce, open_scene, set_up, construct, configured, without_gui,
  without_freewheeling, run,
}
use ssr_pre.Controller.Startup.Beginning.{
  construct-perform_all, introduced, Obliging, introduced-Standing,
}
use ssr_pre.Controller.Startup.Unaimed.{Unaimed, construct-Unaimed}
use ssr_pre.Controller.Startup.Console.{before_quit, Returns, run-before_quit}

abbrev pub small_host : Host ℕ
small_host = record {
  enable_gui = true;
  enable_ip_interface = true;
  has_reproduction_setup = true;
  loudspeakers = [];
  sample_rate = 44100;
  records = λ file. true;
  listens = λ port. true;
  freewheels = true;
  activates = true;
  finds_tracker = λ type ports. false;
  gui_calls = [];
  gui_result = 0;
}

obliging : Obliging small_host
obliging = record {
  setup = refl;
  server_built = refl;
  gui_built = refl;
  recording = λ name. refl;
  freewheeling = refl;
  listening = λ port. refl;
}

-- The settings with a scene file, without a GUI.
abbrev pub settings : Text → Conf ℕ ℕ
settings scene_file_name = record {
  renderer_params = 0;
  exec_name = codes "ssr-wfs";
  stand_ampl_ref_dist = 3;
  gui = false;
  ip_server = true;
  tracker = [];
  tracker_ports = [];
  freewheeling = true;
  scene_file_name = scene_file_name;
  xml_schema = schema;
  audio_recorder_file_name = [];
  input_port_prefix = codes "p";
  output_port_prefix = [];
  path_to_gui_images = [];
  path_to_scene_menu = [];
  server_port = pos 4711;
  loop = false;
}

abbrev pub with_scene : Option (Program ℕ ℕ)
with_scene = construct numbers printer loader services small_host (settings (codes "a.asd"))

pub starts : is_some with_scene ≡ true
unfolding construct set_up introduce open_scene without_gui without_freewheeling subscribe
    load_scene load_into load_document load_reference load_sources get_file_extension read_source
    read_reference get_position get_orientation get_file_or_port_name source_settings
    make_path_relative_to_current_dir delete_all_sources Renderer.rem_all_sources Renderer.rem_loop
    Renderer.rem_source new_source announcements stop_processing start_processing
    set_processing_state publish_all publish publish_to deliver add_source Scene.receive
    Scene.new_source Scene.set_source_member Renderer.receive Renderer.set_member
    Renderer.get_source find insert modify eq_text
starts = refl

pub program : (p : Program ℕ ℕ) × (with_scene ≡ some p)
program = value with_scene starts

pub program_prints :
    is_some (get_scene_as_xml numbers printer loader.writer loader.cwd program.0.controller.scene)
    ≡ true
unfolding program ssr_pre.CommandParser.Examples.value get_scene_as_xml add_sources
    ssr_pre.Controller.Saving.add_source construct set_up introduce open_scene without_gui
    without_freewheeling subscribe load_scene load_into load_document load_reference load_sources
    get_file_extension read_source read_reference get_position get_orientation get_file_or_port_name
    source_settings make_path_relative_to_current_dir delete_all_sources Renderer.rem_all_sources
    Renderer.rem_loop Renderer.rem_source new_source announcements stop_processing start_processing
    set_processing_state publish_all publish publish_to deliver add_source Scene.receive
    Scene.new_source Scene.set_source_member Renderer.receive Renderer.set_member
    Renderer.get_source find insert modify eq_text
program_prints = refl

abbrev calls : List (Publisher.Call ℕ)
calls = Publisher.transport_start ∷ []

performed :
    perform_all numbers printer
      (configured numbers printer loader services small_host program.0.conf)
      services
      calls
      program.0.controller
    ≡ some program.0.controller
unfolding perform_all perform
performed = refl

construct-perform_all_example : Synced (record { told = false; aimed = true }) program.0.controller
unfolding eq_text
construct-perform_all_example =
    construct-perform_all numbers printer loader services small_host false
      (settings (codes "a.asd")) program.0 calls program.0.controller refl (λ t. cc) (λ t. cc)
      program.1 performed

construct-Unaimed_example :
    (p : Program ℕ ℕ) × (construct numbers printer loader services small_host (settings [])
      ≡ some p)
    × Unaimed numbers p
unfolding eq_text
construct-Unaimed_example =
    construct-Unaimed numbers printer loader services small_host (settings []) refl refl obliging

-- A program that has heard of no scene yet.
abbrev early : Program ℕ ℕ
early = record {
  conf = settings [];
  controller = introduced numbers printer small_host false;
  audio_recorder = false;
  network_interface = true;
  tracker = false;
}

run-before_quit_example :
    ((before : Text)
      → before_quit (codes "pq") ≡ some before
      → (fuel : ℕ) → length (codes "pq") < fuel
      → Returns numbers printer loader services small_host fuel (codes "pq") early)
    × (before_quit (codes "pq") ≡ none
        → (fuel : ℕ)
        → run numbers printer loader services small_host fuel (codes "pq") early ≡ none)
run-before_quit_example =
    run-before_quit numbers printer loader services small_host (codes "pq") early refl refl
      (introduced-Standing numbers printer small_host false)

-- A scene file is no sound file.
not_spontaneous :
    IsSpontaneous (codes "a.asd")
    → Playable numbers printer
        (configured numbers printer loader services small_host (settings (codes "a.asd")))
        services
        (codes "a.asd")
unfolding eq_text get_file_extension
not_spontaneous (named, extended, sound) = cc

all_read :
    (doc : Document)
    → loader.load_file (codes "a.asd") ≡ some doc
    → AllRead numbers printer
        (configured numbers printer loader services small_host (settings (codes "a.asd")))
        services
        (codes "/home")
        (codes "a.asd")
        (doc.eval_xpath (codes "//scene_setup/source"))
unfolding eq_text get_file_or_port_name read_source get_position get_orientation source_settings
    make_path_relative_to_current_dir
all_read doc h =
    subst
      (λ doc.
        AllRead numbers printer
          (configured numbers printer loader services small_host (settings (codes "a.asd")))
          services (codes "/home") (codes "a.asd") (doc.eval_xpath (codes "//scene_setup/source")))
      (some-injective scene_document doc h) ((((0, codes "in"), refl), tt), (λ loop. (_, refl), tt))

construct-Begun_example :
    Begun numbers printer loader services small_host with_scene
    ⊎ ((with_scene ≡ none)
        × Unloaded numbers printer loader services small_host
            (without_gui (without_freewheeling (settings (codes "a.asd")))))
unfolding without_gui without_freewheeling
construct-Begun_example =
    construct-Begun numbers printer loader services small_host (codes "/home")
      (settings (codes "a.asd")) refl all_read not_spontaneous obliging
