-- ===== src/Controller/Startup.antt =====
-- src/controller.h: the constructor of the Controller, run(), the tracker and the destructor, in a build
-- with Ecasound. `none` is an exception, a failed assertion or, in run(), a console that is still read.
-- While run() waits, other threads call functions of the Publisher, too; here they have their turn before
-- and after it.
pub mod Beginning
pub mod Unaimed
pub mod Returning
pub mod Console
pub mod Examples
use ssr_pre.Common.{
  ℕ, zero, suc, Bool, true, false, not, ◌&&◌, ◌||◌, List, [], ◌∷◌, ◌++◌, Option, none, some, ◌==◌,
  if◌then◌else◌,
}
use ssr_pre.Common.Int.{ℤ}
use ssr_pre.Common.Text.{Text, codes, eq_text}
use ssr_pre.Geometry.{Floats, Loudspeaker}
use ssr_pre.Subscriber.{Event}
use ssr_pre.Publisher
use ssr_pre.Scene.{empty_scene}
use ssr_pre.Renderer.{empty_renderer}
use ssr_pre.Network.{Printer}
use ssr_pre.CommandParser.{empty}
use ssr_pre.Configuration.{Conf}
use ssr_pre.Controller.{
  Controller, Services, Handle, ◌>>=◌, publish, subscribe, start_processing, stop_processing,
}
use ssr_pre.Controller.Loading.{Loader, Config, load_scene}
use ssr_pre.Controller.Saving.{save_scene_as_xml}
use ssr_pre.Controller.Calls.{perform_all}

pub data TrackerType : Type 0 where
  intersense polhemus vrpn razor : TrackerType

-- What the build, the renderer and other libraries answer.
pub record Host (F : Type 0) : Type 0 where
  -- ENABLE_GUI and ENABLE_IP_INTERFACE
  pub enable_gui : Bool
  pub enable_ip_interface : Bool
  -- Whether load_reproduction_setup() returns, and what is known of the renderer then.
  pub has_reproduction_setup : Bool
  pub loudspeakers : List (Loudspeaker F)
  pub sample_rate : ℕ
  -- Whether the constructors of AudioRecorder and Server return, and whether set_freewheel() and
  -- activate() return true.
  pub records : Text → Bool
  pub listens : ℤ → Bool
  pub freewheels : Bool
  pub activates : Bool
  -- Whether the build has this tracker and create() finds it at the ports.
  pub finds_tracker : TrackerType → Text → Bool
  -- What the GUI calls until it is closed, and what QApplication::exec() returns.
  pub gui_calls : List (Publisher.Call F)
  pub gui_result : ℕ

-- A program: the Controller with the members that stand for its other parts.
pub record Program (P F : Type 0) : Type 0 where
  pub conf : Conf P F
  pub controller : Controller F
  pub audio_recorder : Bool
  pub network_interface : Bool
  pub tracker : Bool

-- The settings that fit together: freewheeling does not go with a server, and then not with a GUI.
unfoldable pub without_freewheeling : {P F : Type 0} → Conf P F → Conf P F
without_freewheeling conf =
    if conf.ip_server && conf.freewheeling then record conf { freewheeling = false } else conf

unfoldable pub without_gui : {P F : Type 0} → Conf P F → Conf P F
without_gui conf = if conf.freewheeling && conf.gui then record conf { gui = false } else conf

-- What loading scenes reads of the settings.
abbrev pub config_of : {P F : Type 0} → Conf P F → Config F
config_of conf = record {
  stand_ampl_ref_dist = conf.stand_ampl_ref_dist;
  xml_schema = conf.xml_schema;
  input_port_prefix = conf.input_port_prefix;
}

abbrev pub tracker_type : Text → Option TrackerType
tracker_type type =
    if eq_text type (codes "intersense")
    then some TrackerType.intersense
    else if eq_text type (codes "polhemus")
    then some TrackerType.polhemus
    else if eq_text type (codes "vrpn")
    then some TrackerType.vrpn
    else if eq_text type (codes "razor")
    then some TrackerType.razor
    else none

module _ {F : Type 0} (host : Host F) where
  -- _load_audio_recorder(); `none` is an audiorecorder_error.
  abbrev pub load_audio_recorder : Text → Option Bool
  load_audio_recorder name =
      if empty name then some false else if host.records name then some true else none

  -- _start_tracker(): whether there is a tracker then.
  unfoldable pub start_tracker : Text → Text → Bool
  start_tracker type ports = elim (tracker_type type) [
    | none ↦ false
    | some t ↦ host.finds_tracker t ports
  ]

module _ {F : Type 0} (fl : Floats F) where
  -- The members as they are initialised.
  abbrev pub new_controller : Controller F
  new_controller = record {
    scene = empty_scene fl;
    renderer = empty_renderer fl;
    networks = [];
    previous_state = false;
    subscribers = [];
    player = false;
    loop_mode = false;
  }

  abbrev pub console_call : ℕ → List (Publisher.Call F)
  console_call c =
      if c == b'c'
      then Publisher.calibrate_client ∷ []
      else if c == b'p'
      then Publisher.transport_start ∷ []
      else if c == b'r'
      then Publisher.transport_locate (fl.lit 0) ∷ []
      else if c == b's'
      then Publisher.transport_stop ∷ []
      else []

  -- The loop of run() without a GUI: the calls of the console up to 'q'. At the end of the input fgetc()
  -- returns EOF, again and again. `none` is fuel that ran out.
  unfoldable pub console : ℕ → Text → Option (List (Publisher.Call F))
  console zero input = none
  console (suc fuel) [] = console fuel []
  console (suc fuel) (c ∷ input) =
      let others = console fuel input in
      if c == b'q' then some [] else others >>= λ calls. some (console_call c ++ calls)

  -- The calls before the GUI is shown or the console is read.
  abbrev pub first_calls : List (Publisher.Call F)
  first_calls = Publisher.start_processing ∷ Publisher.transport_locate (fl.lit 0) ∷ []

module _ {F : Type 0} (fl : Floats F) (pr : Printer F) (host : Host F) where
  -- The subscribers and what they are told first.
  unfoldable pub introduce : Controller F → Option (Controller F)
  unfolding subscribe publish
  introduce c =
      publish fl pr (Event.set_sample_rate host.sample_rate) (subscribe Handle.scene c)
      >>= (λ c1. publish fl pr (Event.set_loudspeakers host.loudspeakers) c1)
      >>= λ c2. some (subscribe Handle.renderer c2)

module _ {P F : Type 0} (fl : Floats F) (pr : Printer F) (ld : Loader F) (sv : Services)
    (host : Host F) where
  abbrev pub configured : Conf P F → Loader F
  configured conf = record ld { conf = config_of conf }

  -- From load_scene() on.
  unfoldable pub open_scene : Conf P F → Bool → Controller F → Option (Program P F)
  open_scene conf recorder c =
      load_scene fl pr (configured conf) sv conf.scene_file_name c >>= λ result.
      if not result.0
      then none
      else if conf.freewheeling && not host.freewheels
      then none
      else if conf.ip_server && not (host.listens conf.server_port)
      then none
      else some (record {
        conf = conf;
        controller = result.1;
        audio_recorder = recorder;
        network_interface = conf.ip_server;
        tracker = false;
      })

  unfoldable pub set_up : Conf P F → Option (Program P F)
  unfolding introduce open_scene
  set_up conf = introduce fl pr host (record (new_controller fl) { loop_mode = conf.loop }) >>= λ c.
      load_audio_recorder host conf.audio_recorder_file_name >>= λ recorder.
      open_scene conf recorder c

  -- The constructor, with what configuration() returns.
  unfoldable pub construct : Conf P F → Option (Program P F)
  unfolding set_up without_freewheeling without_gui
  construct conf =
      if not host.has_reproduction_setup
      then none
      else if not host.enable_ip_interface && conf.ip_server
      then none
      else if not host.enable_gui && conf.gui
      then none
      else set_up (without_gui (without_freewheeling conf))

  -- run() with the text on the console.
  unfoldable pub run : ℕ → Text → Program P F → Option (Bool × Program P F)
  unfolding start_tracker console perform_all
  run fuel input p =
      let conf = p.conf in
      let q = record p { tracker = start_tracker host conf.tracker conf.tracker_ports } in
      let perform_then : Bool → List (Publisher.Call F) → Option (Bool × Program P F) =
        λ result calls.
          perform_all fl pr (configured conf) sv (first_calls fl ++ calls) q.controller >>= λ c.
          some (result, record q { controller = c }) in
      if not host.activates
      then some (false, q)
      else if conf.gui
      then perform_then (not (host.gui_result == 0)) host.gui_calls
      else console fl fuel input >>= λ calls. perform_then true (Publisher.transport_start ∷ calls)

  -- The destructor; messages and the realtime thread are left out.
  unfoldable pub shut_down : Program P F → Option (Program P F)
  shut_down p = stop_processing fl pr p.controller >>= λ c.
      save_scene_as_xml fl pr ld.writer ld.cwd (codes "ssr_scene_autosave.asd") c.scene >>= λ saved.
      some (record p { controller = record c { subscribers = [] } })
