-- ===== src/AudioPlayer/Examples.antt =====
-- An Ecasound that can read files whose escaped names have no backslash twice.
use ssr_pre.Common.{
  true, false, List, [], ◌∷◌, ◌++◌, none, some, ◌≡◌, ◌≢◌, refl, ◌⊎◌, inl, inr, Bool-cases,
  if◌then◌else◌,
}
use ssr_pre.Common.Text.{Text, codes, eq_text, eq_text_iff}
use ssr_pre.PathTools.{get_escaped_filename}
use ssr_pre.AudioPlayer.{
  Soundfile, Ecasound, FileMap, get_port_name, soundfile, get_format, get_jack_sample_rate,
  client_name_of, real_setup, get_item, dummy_setup,
}
use ssr_pre.AudioPlayer.Files.{
  AllFit, Registered, get_port_name-Registered, get_port_name-AllFit, get_port_name-has_space,
}

abbrev format_commands : Text → List Text
format_commands input =
    codes "cs-add dummy_chainsetup"
    ∷ codes "c-add dummy_chain"
    ∷ (codes "ai-add " ++ input)
    ∷ codes "ao-add null"
    ∷ codes "cs-connect"
    ∷ codes "ai-index-select 1"
    ∷ []

-- The input of a list of commands.
abbrev input_of : List Text → Text
input_of (a ∷ b ∷ c ∷ rest) = c
input_of _ = []

-- JACK, and one file with two channels.
abbrev one_file : Text → Ecasound
one_file escaped = record {
  ai_get_format = λ commands.
      if eq_text (input_of commands) (codes "ai-add sndfile," ++ escaped)
      then some (codes "s16")
      else if eq_text (input_of commands) (codes "ai-add jack")
      then some (codes "f32")
      else none;
  read_format = λ t. some (t, 2, 44100);
  connects = λ commands. true;
  launches = λ commands. true;
  last_long_integer = λ commands. 1000;
  show_int = λ n. n ∷ [];
  jack_client_name_size = 33;
}

abbrev opened_file : Soundfile
opened_file = record {
  client_name = codes "[_a.wav";
  output_prefix = codes "channel";
  channels = 2;
  length_samples = 1000;
}

abbrev the_port : Text
the_port = codes "[_a.wav:channel_" ++ 1 ∷ []

abbrev one_map : FileMap
one_map = (codes "/a.wav", opened_file) ∷ []

small_request :
    get_port_name (one_file (codes "/a.wav")) (codes "/a.wav") 1 false [] ≡ some (the_port, one_map)
unfolding get_port_name soundfile get_format get_jack_sample_rate client_name_of real_setup get_item
    eq_text get_escaped_filename
small_request = refl

get_port_name-Registered_example :
    ((the_port ≡ []) × (one_map ≡ []))
    ⊎ Registered (one_file (codes "/a.wav")) (codes "/a.wav") 1 [] the_port one_map
get_port_name-Registered_example =
    get_port_name-Registered (one_file (codes "/a.wav")) (codes "/a.wav") 1 false [] small_request

get_port_name-AllFit_example : AllFit (one_file (codes "/a.wav")) one_map
get_port_name-AllFit_example =
    get_port_name-AllFit (one_file (codes "/a.wav")) (codes "/a.wav") 1 false [] tt small_request

-- The file "a b" is there, and Ecasound reads it under its escaped name.
abbrev spaced : Text
spaced = codes "a b"

spaced_only :
    (escaped : Text)
    → escaped ≢ get_escaped_filename spaced
    → (one_file (get_escaped_filename spaced)).ai_get_format (
        dummy_setup (one_file (get_escaped_filename spaced)) (codes "ai-add sndfile," ++ escaped)
        ++ codes "ai-index-select 1" ∷ [])
      ≡ none
unfolding eq_text
spaced_only escaped differ = elim (Bool-cases (eq_text escaped (get_escaped_filename spaced))) [
  | inl same ↦ absurd (differ ((eq_text_iff escaped (get_escaped_filename spaced)).0 same))
  | inr other ↦ rw other
]

get_port_name-has_space_example :
    get_port_name (one_file (get_escaped_filename spaced)) spaced 1 false [] ≡ some ([], [])
unfolding get_item
get_port_name-has_space_example =
    get_port_name-has_space (one_file (get_escaped_filename spaced)) spaced 1 false [] refl refl
      spaced_only
