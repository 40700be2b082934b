-- ===== src/AudioPlayer/Files.antt =====
-- The map of open sound files: what a request for a port changes, and a second one for the same file.
use ssr_pre.Common.{
  ℕ, ◌≤◌, Bool, true, false, [], ◌∷◌, ◌++◌, Option, none, some, ◌≡◌, ◌≢◌, ◌⊎◌, refl, arith, ltb,
  length, Bool-cases, Option-cases, inl, inr, subst, ap, sym,
}
use ssr_pre.Common.Text.{Text, codes, eq_text, eq_text_iff}
use ssr_pre.PathTools.{get_escaped_filename}
use ssr_pre.PathTools.FileNames.{
  has_space, get_escaped_filename_longer, has_space-get_escaped_filename,
}
use ssr_pre.AudioPlayer.{
  Soundfile, Ecasound, Made, made, soundfile_error, aborted, FileMap, soundfile, get_item,
  register_file, port_of, opened, get_port_name, get_file_length, get_format, dummy_setup,
}
use ssr_pre.AudioPlayer.Names.{Fits, soundfile-Fits}

get_item-register_file_self :
    (name : Text) (file : Soundfile) (files : FileMap)
    → get_item name (register_file name file files) ≡ some file
unfolding get_item
get_item-register_file_self name file files = rw ((eq_text_iff name name).1 refl)

get_item-register_file_other :
    (name other : Text) (file : Soundfile) (files : FileMap)
    → other ≢ name
    → get_item other (register_file name file files) ≡ get_item other files
unfolding get_item
get_item-register_file_other name other file files differ = elim (Bool-cases (eq_text name other)) [
  | inl same ↦ absurd (differ (sym ((eq_text_iff name other).0 same)))
  | inr not_same ↦ rw not_same
]

module _ (eca : Ecasound) where
  -- All client names are names that JACK accepts.
  abbrev pub AllFit : FileMap → Type 0
  AllFit [] = Unit {0}
  AllFit ((name, file) ∷ files) = Fits eca.jack_client_name_size file.client_name × AllFit files

  -- The file is open, other files are as before, and a request for one of its channels opens nothing.
  pub record Registered (name : Text) (channel : ℕ) (files : FileMap) (port : Text)
      (files' : FileMap) : Type 0 where
    pub file : Soundfile
    pub port_named : port ≡ port_of eca file channel
    pub in_range : channel ≤ file.channels
    pub others : (other : Text) → other ≢ name → get_item other files' ≡ get_item other files
    pub again :
        (channel' : ℕ) (loop : Bool)
        → channel' ≤ file.channels
        → get_port_name eca name channel' loop files' ≡ some (port_of eca file channel', files')
    pub same_length : get_file_length name files' ≡ file.length_samples

  register :
      (name : Text) (channel : ℕ) (files files' : FileMap) (file : Soundfile)
      → get_item name files' ≡ some file
      → channel ≤ file.channels
      → ((other : Text) → other ≢ name → get_item other files' ≡ get_item other files)
      → Registered name channel files (port_of eca file channel) files'
  unfolding get_port_name get_file_length
  register name channel files files' file found range others = record {
    file = file;
    port_named = refl;
    in_range = range;
    others = others;
    again = λ channel' loop h.
        let fits : ltb file.channels channel' ≡ false = ground arith in
        rw (found, get_port_name) (rw fits);
    same_length = rw (found, get_file_length);
  }

  -- What a request comes to: an error that changes nothing, or a port of a file that is open now.
  abbrev Settled : Text → ℕ → FileMap → Text × FileMap → Type 0
  Settled name channel files (port, files') =
      ((port ≡ []) × (files' ≡ files)) ⊎ Registered name channel files port files'

  -- What holds of a result, if there is one.
  abbrev Gives : {A : Type 0} → (A → Type 0) → Option A → Type 0
  Gives P none = Unit {0}
  Gives P (some a) = P a

  opened-Settled :
      (name : Text) (channel : ℕ) (files : FileMap) (o : Made Soundfile)
      → Gives (Settled name channel files) (opened eca name channel files o)
  opened-Settled name channel files (made file) = elim (Bool-cases (ltb file.channels channel)) [
    | inl beyond ↦ rw beyond (inl (refl, refl))
    | inr fits ↦
        let range : channel ≤ file.channels = ground arith in
        rw fits (
          inr (
            register name channel files (register_file name file files) file
              (get_item-register_file_self name file files) range
              (λ other differ. get_item-register_file_other name other file files differ)))
  ]
  opened-Settled name channel files soundfile_error = inl (refl, refl)
  opened-Settled name channel files aborted = tt

  get_port_name-Settled :
      (name : Text) (channel : ℕ) (loop : Bool) (files : FileMap)
      → Gives (Settled name channel files) (get_port_name eca name channel loop files)
  unfolding get_port_name
  get_port_name-Settled name channel loop files = elim (Option-cases (get_item name files)) [
    | inl new ↦ rw (new, Gives) (opened-Settled name channel files _)
    | inr (file, found) ↦
        rw (found, Gives)
          (elim (Bool-cases (ltb file.channels channel)) [
            | inl beyond ↦ rw beyond (inl (refl, refl))
            | inr fits ↦
                let range : channel ≤ file.channels = ground arith in
                rw fits
                  (inr (register name channel files files file found range (λ other differ. refl)))
          ])
  ]

  -- A request for a port that returns is an error, whose port is empty and which leaves the map
  -- of files as it was, or it names a port of a file that is open from now on: other files are as
  -- before, a further request for one of its channels gives a port of it and opens nothing, and
  -- get_file_length() is its length.
  pub get_port_name-Registered :
      (name : Text) (channel : ℕ) (loop : Bool) (files : FileMap) {port : Text} {files' : FileMap}
      → get_port_name eca name channel loop files ≡ some (port, files')
      → ((port ≡ []) × (files' ≡ files)) ⊎ Registered name channel files port files'
  get_port_name-Registered name channel loop files h =
      subst (Gives (Settled name channel files)) h (get_port_name-Settled name channel loop files)

  abbrev Keeps : Text × FileMap → Type 0
  Keeps (port, files) = AllFit files

  opened-AllFit :
      (name : Text) (channel : ℕ) (files : FileMap) (o : Made Soundfile)
      → AllFit files
      → ((file : Soundfile) → o ≡ made file → Fits eca.jack_client_name_size file.client_name)
      → Gives Keeps (opened eca name channel files o)
  opened-AllFit name channel files (made file) fit new =
      elim (Bool-cases (ltb file.channels channel)) [
        | inl beyond ↦ rw beyond fit
        | inr fits ↦ rw fits (new file refl, fit)
      ]
  opened-AllFit name channel files soundfile_error fit new = fit
  opened-AllFit name channel files aborted fit new = tt

  get_port_name-Keeps :
      (name : Text) (channel : ℕ) (loop : Bool) (files : FileMap)
      → AllFit files
      → Gives Keeps (get_port_name eca name channel loop files)
  unfolding get_port_name
  get_port_name-Keeps name channel loop files fit = elim (Option-cases (get_item name files)) [
    | inl new ↦
        rw (new, Gives)
          (opened-AllFit name channel files (soundfile eca name loop (codes "channel")) fit
            (λ file created. soundfile-Fits eca name (codes "channel") loop created))
    | inr (file, found) ↦
        rw (found, Gives)
          (elim (Bool-cases (ltb file.channels channel)) [
            | inl beyond ↦ rw beyond fit
            | inr fits ↦ rw fits fit
          ])
  ]

  -- A request for a port keeps it so that all client names fit, with four more characters, into
  -- the size that JACK allows, and have no slash.
  pub get_port_name-AllFit :
      (name : Text) (channel : ℕ) (loop : Bool) (files : FileMap) {port : Text} {files' : FileMap}
      → AllFit files
      → get_port_name eca name channel loop files ≡ some (port, files')
      → AllFit files'
  get_port_name-AllFit name channel loop files fit h =
      subst (Gives Keeps) h (get_port_name-Keeps name channel loop files fit)

  escaped_twice :
      (name : Text)
      → has_space name ≡ true
      → get_escaped_filename (get_escaped_filename name) ≢ get_escaped_filename name
  escaped_twice name h e = omega (
    arith,
    ap length e,
    get_escaped_filename_longer (get_escaped_filename name) (has_space-get_escaped_filename name h),
  )

  -- A request for a new file whose name has white space fails and leaves the map as it was, even
  -- if Ecasound can read the file under its escaped name, as long as it reads no other.
  pub get_port_name-has_space :
      (name : Text) (channel : ℕ) (loop : Bool) (files : FileMap)
      → has_space name ≡ true
      → get_item name files ≡ none
      → ((escaped : Text)
          → escaped ≢ get_escaped_filename name
          → eca.ai_get_format (
              dummy_setup eca (codes "ai-add sndfile," ++ escaped)
              ++ codes "ai-index-select 1" ∷ [])
            ≡ none)
      → get_port_name eca name channel loop files ≡ some ([], files)
  unfolding get_port_name soundfile get_format
  get_port_name-has_space name channel loop files space new only =
      let refused =
        only (get_escaped_filename (get_escaped_filename name)) (escaped_twice name space) in
      rw (new, get_port_name) (rw refused)
