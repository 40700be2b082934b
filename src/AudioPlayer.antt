-- ===== src/AudioPlayer.antt =====
-- src/audioplayer.cpp and src/audioplayer.h: the sound files that are open, and the names of their ports.
-- Ecasound and JACK are parameters: what they answer to the commands that were sent. Messages are left
-- out.
pub mod Names
pub mod Files
pub mod Examples
use ssr_pre.Common.{
  ℕ, zero, suc, ◌+◌, ◌-◌, Bool, true, false, List, [], ◌∷◌, ◌++◌, Option, none, some, ◌==◌, ltb,
  leb, if◌then◌else◌, length,
}
use ssr_pre.Common.Text.{Text, codes, eq_text}
use ssr_pre.PathTools.{get_escaped_filename, substr, slash}

-- The members of a Soundfile that are asked for.
pub record Soundfile : Type 0 where
  pub client_name : Text
  pub output_prefix : Text
  pub channels : ℕ
  pub length_samples : ℕ

-- The answers of Ecasound to a list of commands, what a stream reads from a text, and JACK.
pub record Ecasound : Type 0 where
  -- last_string() after "ai-get-format", where "cs-connect" makes no error
  pub ai_get_format : List Text → Option Text
  -- format, channels and sample rate
  pub read_format : Text → Option (Text × ℕ × ℕ)
  -- whether "cs-connect" and "engine-launch" make no error
  pub connects : List Text → Bool
  pub launches : List Text → Bool
  pub last_long_integer : List Text → ℕ
  -- A2S() of a number
  pub show_int : ℕ → Text
  pub jack_client_name_size : ℕ

-- How a function ends: it returns, it throws a soundfile_error, or an assertion fails.
pub data Made (A : Type 0) : Type 0 where
  made : A → Made A
  soundfile_error : Made A
  aborted : Made A

infixl 5 ◌>>=◌
abbrev pub ◌>>=◌ : {A B : Type 0} → Made A → (A → Made B) → Made B
made a >>= f = f a
soundfile_error >>= f = soundfile_error
aborted >>= f = aborted

-- std::replace()
abbrev pub replace : ℕ → ℕ → Text → Text
replace a b [] = []
replace a b (c ∷ s) = (if c == a then b else c) ∷ replace a b s

abbrev pub comma : ℕ
comma = b','

-- The text that get_format() sends for an input file.
abbrev pub sndfile_input : Text → Text
sndfile_input filename = codes "ai-add sndfile," ++ get_escaped_filename filename

-- The client name from the escaped file name, with `max_size` characters behind the bracket. Writing to
-- the first character of an empty string is undefined.
pub shortened : ℕ → Text → Option Text
shortened zero escaped = if ltb 0 (length escaped) then none else some escaped
shortened (suc m) escaped =
    if ltb (suc m) (length escaped)
    then elim (substr escaped (length escaped - suc m)) [ [] ↦ none | c ∷ s ↦ some (b'<' ∷ s) ]
    else some escaped

unfoldable pub client_name_of : ℕ → Text → Option Text
unfolding shortened
client_name_of jack_size escaped =
    if ltb jack_size 5 then none else elim (shortened (jack_size - 5) escaped) [
      | none ↦ none
      | some name ↦ some (replace slash b'_' (b'[' ∷ name))
    ]

module _ (eca : Ecasound) where
  open eca use {read_format, show_int}

  -- What both functions make of the answer.
  abbrev pub format_of : Option Text → Made (Text × ℕ × ℕ)
  format_of none = soundfile_error
  format_of (some str) = elim (read_format (replace comma 32 str)) [
    | none ↦ soundfile_error
    | some (format, channels, sample_rate) ↦
        if leb 1 sample_rate then made (format, channels, sample_rate) else aborted
  ]

  abbrev pub dummy_setup : Text → List Text
  dummy_setup input =
      codes "cs-add dummy_chainsetup"
      ∷ codes "c-add dummy_chain"
      ∷ input
      ∷ codes "ao-add null"
      ∷ codes "cs-connect"
      ∷ []

  unfoldable pub get_format : Text → Made (Text × ℕ × ℕ)
  get_format filename =
      format_of
        (eca.ai_get_format (dummy_setup (sndfile_input filename) ++ codes "ai-index-select 1" ∷ []))

  unfoldable pub get_jack_sample_rate : Made ℕ
  get_jack_sample_rate =
      format_of (eca.ai_get_format (dummy_setup (codes "ai-add jack"))) >>= λ f. made f.2

  -- The command that adds the input file.
  abbrev pub input_command : Text → Bool → ℕ → ℕ → Text
  input_command escaped loop sample_rate jack_sample_rate =
      codes "ai-add "
      ++ ((if loop then codes "audioloop," else [])
          ++ ((if sample_rate == jack_sample_rate then [] else codes "resample-hq,auto,")
              ++ (codes "sndfile," ++ escaped)))

  -- The commands up to "cs-connect".
  unfoldable pub real_setup : Text → Bool → Text → ℕ → ℕ → ℕ → Text → List Text
  real_setup escaped loop prefix channels sample_rate jack_sample_rate client_name =
      codes "cs-add real_chainsetup"
      ∷ codes "c-add real_chain"
      ∷ (codes "cs-set-audio-format ,"
          ++ (show_int channels ++ (codes "," ++ show_int jack_sample_rate)))
      ∷ input_command escaped loop sample_rate jack_sample_rate
      ∷ (codes "ao-add jack_generic," ++ prefix)
      ∷ (codes "-G:jack," ++ (client_name ++ codes ",recv"))
      ∷ codes "cs-connect"
      ∷ []

  -- The end of the constructor, with the commands that were sent.
  abbrev pub connected : Text → ℕ → Text → List Text → Made Soundfile
  connected prefix channels client_name setup =
      if eca.connects setup
      then (if eca.launches (setup ++ codes "ai-get-length-samples" ∷ codes "engine-launch" ∷ [])
          then made (record {
            client_name = client_name;
            output_prefix = prefix;
            channels = channels;
            length_samples = eca.last_long_integer (setup ++ codes "ai-get-length-samples" ∷ []);
          })
          else soundfile_error)
      else soundfile_error

  -- The constructor behind the two questions for formats.
  abbrev pub named : Text → Bool → Text → ℕ → ℕ → ℕ → Option Text → Made Soundfile
  named escaped loop prefix channels sample_rate jack_sample_rate none = aborted
  named escaped loop prefix channels sample_rate jack_sample_rate (some client_name) =
      connected prefix channels client_name
        (real_setup escaped loop prefix channels sample_rate jack_sample_rate client_name)

  -- The constructor of Soundfile.
  unfoldable pub soundfile : Text → Bool → Text → Made Soundfile
  soundfile filename loop prefix =
      let escaped = get_escaped_filename filename in
      get_format escaped >>= λ f. get_jack_sample_rate >>= λ jack_sample_rate.
      named escaped loop prefix f.1 f.2 jack_sample_rate
        (client_name_of eca.jack_client_name_size escaped)

-- std::map with strings for keys, as a list of entries.
abbrev pub FileMap : Type 0
FileMap = List (Text × Soundfile)

unfoldable pub get_item : Text → FileMap → Option Soundfile
get_item name [] = none
get_item name ((other, file) ∷ files) =
    if eq_text other name then some file else get_item name files

-- _file_map[name] = file, for a name that has no entry
abbrev pub register_file : Text → Soundfile → FileMap → FileMap
register_file name file files = (name, file) ∷ files

unfoldable pub get_file_length : Text → FileMap → ℕ
get_file_length name files = elim (get_item name files) [
  | none ↦ 0
  | some file ↦ file.length_samples
]

module _ (eca : Ecasound) where
  abbrev pub port_of : Soundfile → ℕ → Text
  port_of file channel =
      file.client_name ++ (codes ":" ++ (file.output_prefix ++ (codes "_" ++ eca.show_int channel)))

  -- Soundfile::create() catches the exception.
  abbrev pub opened : Text → ℕ → FileMap → Made Soundfile → Option (Text × FileMap)
  opened name channel files (made file) =
      if ltb file.channels channel
      then some ([], files)
      else some (port_of file channel, register_file name file files)
  opened name channel files soundfile_error = some ([], files)
  opened name channel files aborted = none

  -- The name of the port, which is empty after an error, and the map; `none` is a failed assertion.
  unfoldable pub get_port_name : Text → ℕ → Bool → FileMap → Option (Text × FileMap)
  get_port_name name channel loop files = elim (get_item name files) [
    | some file ↦
        some (if ltb file.channels channel then ([], files) else (port_of file channel, files))
    | none ↦ opened name channel files (soundfile eca name loop (codes "channel"))
  ]
