-- ===== src/Configuration/Files.antt =====
-- load_config_file() of src/configuration.cpp: the lines of a file, and what each of them sets.
pub mod Lines
pub mod Loading
pub mod Whole
pub mod Examples
use ssr_pre.Common.{
  ℕ, Bool, true, false, ◌&&◌, ◌||◌, List, [], ◌∷◌, ◌++◌, Option, none, some, ◌==◌, ◌-◌, ◌+◌, map,
  if◌then◌else◌,
}
use ssr_pre.Common.Text.{Text, codes}
use ssr_pre.Common.Int.{ℤ, pos, at_least}
use ssr_pre.PathTools.{make_path_relative_to_current_dir}
use ssr_pre.Configuration.{
  Conf, Startup, Platform, ConfigError, Parsed, Key, known_key, eq_nocase, parse,
  is_comment_or_empty, until, at_end,
}

-- How a function ends: with EXIT_SUCCESS, with EXIT_FAILURE, by exit() with success or failure, or by
-- a failed assertion or an exception.
pub data Outcome (A : Type 0) : Type 0 where
  done : A → Outcome A
  failure : A → Outcome A
  exited : Bool → Outcome A
  aborted : Outcome A

-- Going on after a function that may end otherwise.
abbrev pub and_then : {A : Type 0} → Outcome A → (A → Outcome A) → Outcome A
and_then (done a) next = next a
and_then (failure a) next = failure a
and_then (exited b) next = exited b
and_then aborted next = aborted

-- The files that can be opened, getcwd(), getenv("HOME"), and what an array on the stack holds at first.
pub record System : Type 0 where
  pub fopen : Text → Option Text
  pub getcwd : Option Text
  pub home : Option Text
  pub uninitialised : Text

abbrev pub newline : ℕ
newline = 10

-- sizeof(line) - 1
abbrev pub room : ℕ
room = 4095

-- The calls of fgets() until the end of the file: `left` more characters fit behind `line`.
pub fgets_from : ℕ → Text → Text → List Text
fgets_from left line [] = if at_end line then [] else line ∷ []
fgets_from left line (c ∷ s) = elim ((c == newline) || (left == 1)) [
  | true ↦ (line ++ c ∷ []) ∷ fgets_from room [] s
  | false ↦ fgets_from (left - 1) (line ++ c ∷ []) s
]

-- A string ends before its first zero byte.
pub c_string : Text → Text
unfolding until
c_string s = (until (λ c. c == 0) s).0

-- Whether the loop goes on to the keys after parse().
abbrev pub is_accepted : ConfigError → Bool
is_accepted ConfigError.success = true
is_accepted ConfigError.empty = true
is_accepted _ = false

module _ {P F : Type 0} (pf : Platform P F) (sys : System) where
  open pf use {atoi, atof, set, set_int, set_bool, get_int, get_int_or}

  abbrev pub with_conf : (Conf P F → Conf P F) → Startup P F → Option (Startup P F)
  with_conf f s = some (record s { conf = f s.conf })

  abbrev pub with_params : (P → P) → Startup P F → Option (Startup P F)
  with_params f = with_conf (λ c. record c { renderer_params = f c.renderer_params })

  -- A path is taken as relative to the configuration file.
  abbrev pub with_path : Text → Text → (Text → Option (Startup P F)) → Option (Startup P F)
  with_path filename value f = elim (make_path_relative_to_current_dir sys.getcwd value filename) [
    | none ↦ none
    | some path ↦ f path
  ]

  -- assert() about a number among the parameters.
  abbrev pub asserting : (P → Bool) → Startup P F → Option (Startup P F)
  asserting test s = if test s.conf.renderer_params then some s else none

  abbrev pub is_at_least : ℕ → Option ℤ → Bool
  is_at_least n none = false
  is_at_least n (some a) = at_least n a

  abbrev pub set_size : Text → (P → Bool) → Text → Startup P F → Option (Startup P F)
  set_size param test value s = elim (with_params (set param value) s) [
    | none ↦ none
    | some s' ↦ asserting test s'
  ]

  -- The keys that set paths. `none` is a failed assertion.
  pub assign_path : Text → Key → Text → Startup P F → Option (Startup P F)
  assign_path filename key value s = with_path filename value (λ path. elim key [
    | Key.scene_file_name ↦ with_conf (λ c. record c { scene_file_name = path }) s
    | Key.scene_menu ↦ with_conf (λ c. record c { path_to_scene_menu = path }) s
    | Key.playback_setup_file_name ↦ with_params (set (codes "reproduction_setup") path) s
    | Key.xml_schema_file_name ↦ with_conf (λ c. record c { xml_schema = path }) s
    | Key.audio_recorder_file_name ↦ with_conf (λ c. record c { audio_recorder_file_name = path }) s
    | Key.wfs_prefilter ↦ with_params (set (codes "prefilter_file") path) s
    | Key.hrir_file_name ↦ with_params (set (codes "hrir_file") path) s
    | Key.path_to_gui_images ↦ with_conf (λ c. record c { path_to_gui_images = path }) s
    | _ ↦ some s
  ])

  -- The statements behind each comparison of the key.
  pub assign : Text → Key → Text → Startup P F → Option (Startup P F)
  unfolding assign_path eq_nocase
  assign filename Key.name value s = with_params (set (codes "name") value) s
  assign filename Key.number_of_threads value s = with_params (set (codes "threads") value) s
  assign filename Key.master_volume_correction value s =
      with_params (set (codes "master_volume_correction") value) s
  assign filename Key.standard_amplitude_reference_distance value s =
      with_conf (λ c. record c { stand_ampl_ref_dist = atof value }) s
  assign filename Key.renderer_type value s = some s
  assign filename Key.delayline_size value s =
      set_size (codes "delayline_size") (λ p. is_at_least 0 (get_int (codes "delayline_size") p))
        value s
  assign filename Key.initial_delay value s =
      set_size (codes "initial_delay") (λ p. is_at_least 0 (get_int (codes "initial_delay") p))
        value s
  assign filename Key.hrir_size value s =
      set_size (codes "hrir_size") (λ p. at_least 1 (get_int_or (codes "hrir_size") (pos 0) p))
        value s
  assign filename Key.ambisonics_order value s =
      with_params (set_int (codes "ambisonics_order") (atoi value)) s
  assign filename Key.in_phase_rendering value s =
      if eq_nocase value (codes "TRUE")
      then with_params (set_bool (codes "in_phase") true) s
      else if eq_nocase value (codes "FALSE")
      then with_params (set_bool (codes "in_phase") false) s
      else some s
  assign filename Key.input_prefix value s =
      with_conf (λ c. record c { input_port_prefix = value }) s
  assign filename Key.output_prefix value s =
      with_conf (λ c. record c { output_port_prefix = value }) s
  assign filename Key.freewheel value s =
      with_conf (λ c. record c { freewheeling = eq_nocase value (codes "yes") }) s
  assign filename Key.gui value s =
      with_conf (λ c. record c { gui = eq_nocase value (codes "on") }) s
  assign filename Key.network_interface value s =
      if pf.enable_ip_interface
      then with_conf (λ c. record c { ip_server = eq_nocase value (codes "on") }) s
      else some s
  assign filename Key.server_port value s =
      if pf.enable_ip_interface
      then with_conf (λ c. record c { server_port = atoi value }) s
      else some s
  assign filename Key.verbose value s = some (record s { verbose = atoi value })
  assign filename Key.tracker value s = with_conf (λ c. record c { tracker = value }) s
  assign filename Key.tracker_ports value s = with_conf (λ c. record c { tracker_ports = value }) s
  assign filename key value s = assign_path filename key value s

  -- The chain of comparisons, and then the other lines.
  abbrev pub assign_then :
      Text
      → Text
      → Text
      → (Startup P F → Outcome (Startup P F))
      → Startup P F
      → Outcome (Startup P F)
  assign_then filename key value next s = elim (known_key key) [
    | none ↦ failure s
    | some k ↦ elim (assign filename k value s) [ none ↦ aborted | some s' ↦ next s' ]
  ]

  -- The loop over the lines, with what the buffer of the value holds.
  unfoldable pub load_lines : Text → List Text → Text → Startup P F → Outcome (Startup P F)
  load_lines filename [] old s = done s
  load_lines filename (line ∷ lines) old s = elim (is_comment_or_empty line) [
    | true ↦ load_lines filename lines old s
    | false ↦
        let p = parse line old in
        elim (is_accepted p.result) [
          | false ↦ failure s
          | true ↦ assign_then filename p.key p.value (load_lines filename lines p.value) s
        ]
  ]

  unfoldable pub load_config_file : Text → Startup P F → Outcome (Startup P F)
  unfolding fgets_from c_string
  load_config_file filename s = elim (sys.fopen filename) [
    | none ↦ failure s
    | some file ↦ load_lines filename (map c_string (fgets_from room [] file)) sys.uninitialised s
  ]
