-- ===== src/Configuration/Options/Examples.antt =====
-- A small command line.
use ssr_pre.Common.{ℕ, true, false, List, [], ◌∷◌, ◌≡◌, refl}
use ssr_pre.Common.Text.{Text, codes, eq_text}
use ssr_pre.Common.Int.{pos}
use ssr_pre.Configuration.{Startup}
use ssr_pre.Configuration.Files.{done}
use ssr_pre.Configuration.Files.Examples.{small_platform, small_startup, small_conf, with_file}
use ssr_pre.Configuration.Options.{
  Answer, argument, gui, no_gui, tracker, no_ip_server, long_option, parse_options, handle_option,
}
use ssr_pre.Configuration.Options.Choices.{ChosenBy, parse_options-ChosenBy}

-- ssr -g a.asd --loop -G b.asd -t razor -I
abbrev small_command_line : List Answer
small_command_line =
    gui
    ∷ argument (codes "a.asd")
    ∷ long_option (codes "loop") []
    ∷ no_gui
    ∷ argument (codes "b.asd")
    ∷ tracker (codes "razor")
    ∷ no_ip_server
    ∷ []

abbrev chosen : Startup (List (Text × Text)) ℕ
chosen = record {
  conf = record small_conf {
    gui = false;
    ip_server = false;
    tracker = codes "razor";
    scene_file_name = codes "a.asd";
    loop = true;
  };
  verbose = pos 0;
}

small_options :
    parse_options small_platform (with_file []) 0 small_command_line small_startup ≡ done chosen
unfolding parse_options handle_option eq_text
small_options = refl

parse_options-ChosenBy_example :
    ChosenBy small_platform (with_file []) 0 small_command_line small_startup chosen
parse_options-ChosenBy_example =
    parse_options-ChosenBy small_platform (with_file []) 0 small_command_line small_startup tt
      small_options
