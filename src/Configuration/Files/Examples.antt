-- ===== src/Configuration/Files/Examples.antt =====
-- Small configuration files.
use ssr_pre.Common.{ℕ, true, false, List, [], ◌∷◌, ◌++◌, some, ◌≡◌, refl, arith, length}
use ssr_pre.Common.Text.{Text, codes, eq_text}
use ssr_pre.Common.Int.{pos}
use ssr_pre.Configuration.{Conf, Startup, Platform, known_key, parse, is_comment_or_empty}
use ssr_pre.Configuration.Files.{done, System, load_config_file, newline, load_lines, assign}
use ssr_pre.Configuration.Files.Lines.{blank}
use ssr_pre.Configuration.Files.Loading.{Entry, remark, setting, print_file, assign_all}
use ssr_pre.Configuration.Files.Whole.{load_config_file-print_file, load_config_file-empty}

-- A map of parameters is the list of what was set; a number is read from the length of a text.
abbrev pub small_platform : Platform (List (Text × Text)) ℕ
small_platform = record {
  enable_gui = true;
  enable_ip_interface = true;
  data_dir = codes "/d";
  lit = λ n. n;
  atoi = λ t. pos (length t);
  atof = λ t. length t;
  read_int = λ t. some (pos (length t));
  no_params = [];
  set = λ key value p. (key, value) ∷ p;
  set_int = λ key value p. (key, codes "int") ∷ p;
  set_bool = λ key value p. (key, codes "bool") ∷ p;
  get_int = λ key p. some (pos 1);
  get_int_or = λ key other p. pos 1;
}

abbrev pub small_conf : Conf (List (Text × Text)) ℕ
small_conf = record {
  renderer_params = [];
  exec_name = codes "ssr";
  stand_ampl_ref_dist = 3;
  gui = true;
  ip_server = true;
  tracker = [];
  tracker_ports = [];
  freewheeling = false;
  scene_file_name = [];
  xml_schema = [];
  audio_recorder_file_name = [];
  input_port_prefix = [];
  output_port_prefix = [];
  path_to_gui_images = [];
  path_to_scene_menu = [];
  server_port = pos 4711;
  loop = false;
}

abbrev pub small_startup : Startup (List (Text × Text)) ℕ
small_startup = record { conf = small_conf; verbose = pos 0 }

-- The system with one file under every name.
abbrev pub with_file : Text → System
with_file file = record {
  fopen = λ name. some file;
  getcwd = some (codes "/h");
  home = some (codes "/h");
  uninitialised = codes "junk";
}

abbrev two_entries : List Entry
two_entries = remark (codes " names") ∷ setting (codes "NAME") (codes "a b") ∷ []

two_entries_file : Text
unfolding print_file
two_entries_file =
    codes "# names" ++ newline ∷ codes "NAME = " ++ b'"' ∷ codes "a b" ++ b'"' ∷ newline ∷ []

print_two_entries : print_file two_entries ≡ two_entries_file
unfolding print_file two_entries_file
print_two_entries = refl

abbrev conf_file : Text
conf_file = codes "c"

load_config_file-print_file_example :
    load_config_file small_platform (with_file (print_file two_entries)) conf_file small_startup
    ≡ assign_all small_platform
        (with_file (print_file two_entries))
        conf_file
        two_entries
        small_startup
load_config_file-print_file_example =
    load_config_file-print_file small_platform (with_file (print_file two_entries)) conf_file
      two_entries small_startup (ground arith) refl

abbrev empty_file : Text
empty_file = print_file two_entries ++ (codes "TRACKER" ++ blank ∷ b'=' ∷ newline ∷ [])

abbrev cut_file : Text
cut_file = print_file two_entries ++ (codes "GUI" ++ newline ∷ codes "NAME")

load_config_file-empty_example :
    load_config_file small_platform (with_file empty_file) conf_file small_startup
    ≡ assign_all small_platform
        (with_file empty_file)
        conf_file
        (two_entries ++ setting (codes "TRACKER") (codes "a b") ∷ [])
        small_startup
load_config_file-empty_example =
    load_config_file-empty small_platform (with_file empty_file) conf_file two_entries small_startup
      (ground arith) (codes "TRACKER") (ground arith) (ground arith) refl

-- A file that is not written by print_file(): an indented line, no quotes, no newline at the end.
abbrev hand_written : Text
hand_written = codes "  TRACKER=x y" ++ newline ∷ newline ∷ codes "GUI == oN"

hand_written_loads :
    load_config_file small_platform (with_file hand_written) conf_file small_startup
    ≡ done
        (record { conf = record small_conf { tracker = codes "x y"; gui = true }; verbose = pos 0 })
unfolding load_config_file load_lines known_key parse is_comment_or_empty assign eq_text
hand_written_loads = refl
