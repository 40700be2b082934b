-- ===== src/Configuration.antt =====
-- src/configuration.cpp and src/configuration.h: how a line of a configuration file is read, and what
-- each key does. Messages to the console are left out. What the files hold, and what apf::parameter_map,
-- atoi() and atof() do, are parameters.
pub mod Files
pub mod Options
use ssr_pre.Common.{
  ℕ, Bool, true, false, not, ◌&&◌, ◌||◌, List, [], ◌∷◌, Option, none, some, ◌==◌, leb, ◌+◌,
  if◌then◌else◌,
}
use ssr_pre.Common.Text.{Text, codes, eq_text}
use ssr_pre.Common.Int.{ℤ, at_least}
use ssr_pre.PathTools.{isspace, make_path_relative_to_current_dir}

-- The settings. Members of conf_struct that nothing assigns to are left out.
pub record Conf (P F : Type 0) : Type 0 where
  pub renderer_params : P
  pub exec_name : Text
  pub stand_ampl_ref_dist : F
  pub gui : Bool
  pub ip_server : Bool
  pub tracker : Text
  pub tracker_ports : Text
  pub freewheeling : Bool
  pub scene_file_name : Text
  pub xml_schema : Text
  pub audio_recorder_file_name : Text
  pub input_port_prefix : Text
  pub output_port_prefix : Text
  pub path_to_gui_images : Text
  pub path_to_scene_menu : Text
  pub server_port : ℤ
  pub loop : Bool

-- The settings and the global variable ssr::verbose.
pub record Startup (P F : Type 0) : Type 0 where
  pub conf : Conf P F
  pub verbose : ℤ

-- The build, the C library and apf::parameter_map.
pub record Platform (P F : Type 0) : Type 0 where
  -- ENABLE_GUI, ENABLE_IP_INTERFACE and SSR_DATA_DIR
  pub enable_gui : Bool
  pub enable_ip_interface : Bool
  pub data_dir : Text
  -- A float from a whole number, and the readers of numbers; S2A() may fail.
  pub lit : ℕ → F
  pub atoi : Text → ℤ
  pub atof : Text → F
  pub read_int : Text → Option ℤ
  -- apf::parameter_map: get<int>() throws where there is no number.
  pub no_params : P
  pub set : Text → Text → P → P
  pub set_int : Text → ℤ → P → P
  pub set_bool : Text → Bool → P → P
  pub get_int : Text → P → Option ℤ
  pub get_int_or : Text → ℤ → P → ℤ

pub data ConfigError : Type 0 where
  success no_value empty no_quote quote : ConfigError

-- What a loop reads until a character stops it or the string at_end, and what is left.
pub until : (ℕ → Bool) → Text → Text × Text
until stop [] = ([], [])
until stop (c ∷ s) =
    let (taken, rest) = until stop s in if stop c then ([], c ∷ s) else (c ∷ taken, rest)

-- Leading characters that a loop skips.
pub skip : (ℕ → Bool) → Text → Text
skip test [] = []
skip test (c ∷ s) = elim (test c) [ true ↦ skip test s | false ↦ c ∷ s ]

abbrev pub is_equals : ℕ → Bool
is_equals c = c == b'='

abbrev pub stops_key : ℕ → Bool
stops_key c = isspace c || c == b'='

abbrev pub stops_value : ℕ → Bool
stops_value c = c == b'"' || (c == 13 || c == 10)

-- Whether there is a first character for which the test holds.
abbrev pub begins : (ℕ → Bool) → Text → Bool
begins test [] = false
begins test (c ∷ s) = test c

abbrev pub is_quote : ℕ → Bool
is_quote c = c == b'"'

abbrev pub at_end : Text → Bool
at_end [] = true
at_end (c ∷ s) = false

pub is_comment_or_empty : Text → Bool
unfolding skip
is_comment_or_empty line =
    let rest = skip isspace line in begins (λ c. c == b'#') rest || at_end rest

-- The buffers of key and value after a call, with the result.
pub record Parsed : Type 0 where
  pub key : Text
  pub value : Text
  pub result : ConfigError

-- The value, from a first character that may be a quote.
abbrev pub parse_value : Text → Text × ConfigError
unfolding until
parse_value [] = ([], ConfigError.success)
parse_value (c ∷ s) =
    let quoted = c == b'"' in
    let (value, rest) = until stops_value (if quoted then s else c ∷ s) in
    (
      value,
      if quoted && not (begins is_quote rest)
          then ConfigError.no_quote
          else if not quoted && begins is_quote rest
          then ConfigError.quote
          else ConfigError.success,
    )

-- parse() of a line, with what the buffer of the value holds before.
unfoldable pub parse : Text → Text → Parsed
unfolding skip until parse_value
parse line old =
    let (key, rest) = until stops_key (skip isspace line) in
    let rest' = skip isspace rest in
    let text = skip stops_key rest' in
    if not (begins is_equals rest')
    then record { key = key; value = old; result = ConfigError.no_value }
    else if at_end text
    then record { key = key; value = old; result = ConfigError.empty }
    else (let (value, result) = parse_value text in
        record { key = key; value = value; result = result })

-- The keys, in the order of the comparisons.
pub data Key : Type 0 where
  name number_of_threads master_volume_correction standard_amplitude_reference_distance : Key
  scene_file_name scene_menu playback_setup_file_name xml_schema_file_name : Key
  audio_recorder_file_name renderer_type wfs_prefilter delayline_size initial_delay : Key
  hrir_file_name hrir_size ambisonics_order in_phase_rendering input_prefix output_prefix : Key
  path_to_gui_images freewheel gui network_interface server_port verbose tracker tracker_ports : Key

abbrev all_keys : List (Text × Key)
all_keys =
    (codes "NAME", name)
    ∷ (codes "NUMBER_OF_THREADS", number_of_threads)
    ∷ (codes "MASTER_VOLUME_CORRECTION", master_volume_correction)
    ∷ (codes "STANDARD_AMPLITUDE_REFERENCE_DISTANCE", standard_amplitude_reference_distance)
    ∷ (codes "SCENE_FILE_NAME", scene_file_name)
    ∷ (codes "SCENE_MENU", scene_menu)
    ∷ (codes "PLAYBACK_SETUP_FILE_NAME", playback_setup_file_name)
    ∷ (codes "XML_SCHEMA_FILE_NAME", xml_schema_file_name)
    ∷ (codes "AUDIO_RECORDER_FILE_NAME", audio_recorder_file_name)
    ∷ (codes "RENDERER_TYPE", renderer_type)
    ∷ (codes "WFS_PREFILTER", wfs_prefilter)
    ∷ (codes "DELAYLINE_SIZE", delayline_size)
    ∷ (codes "INITIAL_DELAY", initial_delay)
    ∷ (codes "HRIR_FILE_NAME", hrir_file_name)
    ∷ (codes "HRIR_SIZE", hrir_size)
    ∷ (codes "AMBISONICS_ORDER", ambisonics_order)
    ∷ (codes "IN_PHASE_RENDERING", in_phase_rendering)
    ∷ (codes "INPUT_PREFIX", input_prefix)
    ∷ (codes "OUTPUT_PREFIX", output_prefix)
    ∷ (codes "PATH_TO_GUI_IMAGES", path_to_gui_images)
    ∷ (codes "FREEWHEEL", freewheel)
    ∷ (codes "GUI", gui)
    ∷ (codes "NETWORK_INTERFACE", network_interface)
    ∷ (codes "SERVER_PORT", server_port)
    ∷ (codes "VERBOSE", verbose)
    ∷ (codes "TRACKER", tracker)
    ∷ (codes "TRACKER_PORTS", tracker_ports)
    ∷ []

-- The first key that strcmp() finds equal.
find_key : List (Text × Key) → Text → Option Key
find_key [] text = none
find_key ((word, key) ∷ rest) text = elim (eq_text word text) [
  | true ↦ some key
  | false ↦ find_key rest text
]

unfoldable pub known_key : Text → Option Key
unfolding find_key
known_key key = find_key all_keys key

-- tolower() of the C locale, and strcasecmp()
abbrev pub to_lower : ℕ → ℕ
to_lower c = if leb b'A' c && leb c b'Z' then c + 32 else c

pub eq_nocase : Text → Text → Bool
eq_nocase [] [] = true
eq_nocase [] (y ∷ ys) = false
eq_nocase (x ∷ xs) [] = false
eq_nocase (x ∷ xs) (y ∷ ys) = (to_lower x == to_lower y) && eq_nocase xs ys
