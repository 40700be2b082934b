-- ===== src/Configuration/Options.antt =====
-- configuration() of src/configuration.cpp: defaults, configuration files and the command line. The loop
-- reads what getopt_long() answers; the help text and the arguments that are left for others are left out.
pub mod Choices
pub mod Examples
use ssr_pre.Common.{
  ℕ, Bool, true, false, not, List, [], ◌∷◌, ◌++◌, Option, none, some, ◌==◌, ◌+◌, if◌then◌else◌,
}
use ssr_pre.Common.Text.{Text, codes, eq_text}
use ssr_pre.Common.Int.{ℤ, pos, at_least, increment}
use ssr_pre.PathTools.{slash}
use ssr_pre.Configuration.{Conf, Startup, Platform}
use ssr_pre.Configuration.Files.{
  Outcome, done, failure, exited, aborted, System, load_config_file, and_then,
}

-- An answer of getopt_long(), with `optarg` where the option takes an argument.
pub data Answer : Type 0 where
  -- 0: a long option without a letter, by its name
  long_option : Text → Text → Answer
  -- 1: no option
  argument : Text → Answer
  config name ambisonics_order record_file setup tracker : Text → Answer
  ip_server : Option Text → Answer
  freewheel gui no_gui help no_ip_server no_tracker verbose version invalid other : Answer

-- The rest of a text behind its last slash, or all of it.
pub exec_name_of : Text → Text → Text
exec_name_of found [] = found
exec_name_of found (c ∷ s) = exec_name_of (if c == slash then s else found) s

module _ {P F : Type 0} (pf : Platform P F) (sys : System) where
  open pf use {set, set_int, set_bool}

  default_params : P
  default_params = set_bool (codes "in_phase") false (
      set_int (codes "ambisonics_order") (pos 0) (
        set (codes "hrir_file") (pf.data_dir ++ codes "/default_hrirs.wav") (
          set_int (codes "hrir_size") (pos 0) (
            set_int (codes "initial_delay") (pos 1000) (
              set_int (codes "delayline_size") (pos 100000) (
                set (codes "prefilter_file") (pf.data_dir ++ codes "/default_wfs_prefilter.wav") (
                  set_int (codes "threads") (pos 1) (
                    set (codes "reproduction_setup") (pf.data_dir ++ codes "/default_setup.asd")
                      pf.no_params))))))))

  -- The hard coded values, for a program name.
  unfoldable pub default_conf : Text → Conf P F
  unfolding default_params exec_name_of
  default_conf argv0 = record {
    renderer_params = default_params;
    exec_name = exec_name_of argv0 argv0;
    stand_ampl_ref_dist = pf.lit 3;
    gui = pf.enable_gui;
    ip_server = pf.enable_ip_interface;
    tracker = [];
    tracker_ports =
        codes
          "/dev/ttyUSB0 /dev/ttyUSB1 /dev/ttyS0 /dev/tty.usbserial-00001004 /dev/tty.usbserial-00002006";
    freewheeling = false;
    scene_file_name = [];
    xml_schema = pf.data_dir ++ codes "/asdf.xsd";
    audio_recorder_file_name = [];
    input_port_prefix = codes "system:capture_";
    output_port_prefix = codes "system:playback_";
    path_to_gui_images = pf.data_dir ++ codes "/images";
    path_to_scene_menu = codes "./scene_menu.conf";
    server_port = pos 4711;
    loop = false;
  }

  abbrev pub changed : (Conf P F → Conf P F) → Startup P F → Outcome (Startup P F)
  changed f s = done (record s { conf = f s.conf })

  abbrev pub changed_params : (P → P) → Startup P F → Outcome (Startup P F)
  changed_params f = changed (λ c. record c { renderer_params = f c.renderer_params })

  -- The statements behind each comparison of the name of a long option.
  abbrev pub long_options : Text → List (Text × (Startup P F → Outcome (Startup P F)))
  long_options optarg =
      (codes "hrirs", changed_params (set (codes "hrir_file") optarg))
      ∷ (
        codes "hrir-size",
        λ s.
            let p = set (codes "hrir_size") optarg s.conf.renderer_params in
            if at_least 1 (pf.get_int_or (codes "hrir_size") (pos 0) p)
            then changed_params (λ q. p) s
            else aborted,
      )
      ∷ (codes "prefilter", changed_params (set (codes "prefilter_file") optarg))
      ∷ (codes "in-phase-rendering", changed_params (set_bool (codes "in_phase") true))
      ∷ (codes "input-prefix", changed (λ c. record c { input_port_prefix = optarg }))
      ∷ (codes "output-prefix", changed (λ c. record c { output_port_prefix = optarg }))
      ∷ (codes "threads", changed_params (set (codes "threads") optarg))
      ∷ (codes "loop", changed (λ c. record c { loop = true }))
      ∷ (
        codes "master-volume-correction",
        changed_params (set (codes "master_volume_correction") optarg),
      )
      ∷ (codes "tracker-port", changed (λ c. record c { tracker_ports = optarg }))
      ∷ []

  -- The first comparison that holds.
  abbrev pub choose :
      Text
      → List (Text × (Startup P F → Outcome (Startup P F)))
      → Startup P F
      → Outcome (Startup P F)
  choose word [] s = done s
  choose word ((text, act) ∷ rest) s = elim (eq_text text word) [
    | true ↦ act s
    | false ↦ choose word rest s
  ]

  -- The port of the network interface, where the build has one.
  abbrev pub set_port : Option Text → Startup P F → Outcome (Startup P F)
  set_port none s = done s
  set_port (some optarg) s =
      if pf.enable_ip_interface
      then elim (pf.read_int optarg) [
        | none ↦ done s
        | some port ↦ changed (λ c. record c { server_port = port }) s
      ]
      else done s

  -- A configuration file of the command line has to be loaded.
  abbrev pub required : Outcome (Startup P F) → Outcome (Startup P F)
  required (done s) = done s
  required (failure s) = aborted
  required (exited b) = exited b
  required aborted = aborted

  -- One case of the switch, after `count` arguments that are no options.
  pub handle_option : ℕ → Answer → Startup P F → Outcome (Startup P F)
  handle_option count (long_option word optarg) s = choose word (long_options optarg) s
  handle_option count (argument optarg) s =
      if count == 0 then changed (λ c. record c { scene_file_name = optarg }) s else done s
  handle_option count (config optarg) s = required (load_config_file pf sys optarg s)
  handle_option count freewheel s = changed (λ c. record c { freewheeling = true }) s
  handle_option count gui s = changed (λ c. record c { gui = true }) s
  handle_option count no_gui s = changed (λ c. record c { gui = false }) s
  handle_option count help s = exited true
  handle_option count (ip_server optarg) s =
      set_port optarg (record s { conf = record s.conf { ip_server = true } })
  handle_option count no_ip_server s = changed (λ c. record c { ip_server = false }) s
  handle_option count (name optarg) s = changed_params (set (codes "name") optarg) s
  handle_option count (ambisonics_order optarg) s =
      changed_params (set_int (codes "ambisonics_order") (pf.atoi optarg)) s
  handle_option count (record_file optarg) s =
      changed (λ c. record c { audio_recorder_file_name = optarg }) s
  handle_option count (setup optarg) s = changed_params (set (codes "reproduction_setup") optarg) s
  handle_option count (tracker optarg) s = changed (λ c. record c { tracker = optarg }) s
  handle_option count no_tracker s = changed (λ c. record c { tracker = [] }) s
  handle_option count verbose s = done (record s { verbose = increment s.verbose })
  handle_option count version s = exited true
  handle_option count invalid s = exited false
  handle_option count other s = aborted

  abbrev pub counted : Answer → ℕ → ℕ
  counted (argument optarg) count = count + 1
  counted _ count = count

  unfoldable pub parse_options : ℕ → List Answer → Startup P F → Outcome (Startup P F)
  unfolding handle_option
  parse_options count [] s = done s
  parse_options count (answer ∷ answers) s =
      and_then (handle_option count answer s) (parse_options (counted answer count) answers)

  -- The end of the function.
  abbrev pub complete : Startup P F → Startup P F
  complete s =
      let p = set (codes "xml_schema") s.conf.xml_schema s.conf.renderer_params in
      record s {
        conf = record s.conf {
          renderer_params =
              if s.conf.freewheeling
              then p
              else set (codes "system_output_prefix") s.conf.output_port_prefix p;
        };
      }

  -- A configuration file whose failure is ignored: what was assigned before it stays.
  abbrev pub optional : Outcome (Startup P F) → Outcome (Startup P F)
  optional (done s) = done s
  optional (failure s) = done s
  optional (exited b) = exited b
  optional aborted = aborted

  unfoldable pub load_all : List Text → Startup P F → Outcome (Startup P F)
  load_all [] s = done s
  load_all (filename ∷ filenames) s =
      and_then (optional (load_config_file pf sys filename s)) (load_all filenames)

  abbrev pub system_files : List Text
  system_files = codes "/Library/SoundScapeRenderer/ssr.conf" ∷ codes "/etc/ssr.conf" ∷ []

  abbrev pub user_files : Text → List Text
  user_files home =
      (home ++ codes "/Library/SoundScapeRenderer/ssr.conf") ∷ (home ++ codes "/.ssr/ssr.conf") ∷ []

  -- Without HOME a std::string would be made of a null pointer.
  unfoldable pub configuration : Text → List Answer → ℤ → Outcome (Startup P F)
  unfolding parse_options default_conf load_all
  configuration argv0 answers verbosity =
      and_then (load_all system_files (record { conf = default_conf argv0; verbose = verbosity }))
        (λ s. elim sys.home [
          | none ↦ aborted
          | some home ↦
              and_then (load_all (user_files home) s)
                (λ s'. and_then (parse_options 0 answers s') (λ s''. done (complete s'')))
        ])
