-- ===== src/Configuration/Options/Choices.antt =====
-- What a command line chooses: the last option of a kind counts, and the first argument that is no option.
use ssr_pre.Common.{
  ℕ, Bool, true, false, List, [], ◌∷◌, Option, none, some, ◌==◌, ◌≡◌, refl, ◌∙◌, ap, subst, arith,
  if◌then◌else◌, Bool-cases, Option-cases, inl, inr,
}
use ssr_pre.Common.Text.{Text, eq_text}
use ssr_pre.Common.Int.{ℤ}
use ssr_pre.Configuration.{Startup, Platform}
use ssr_pre.Configuration.Files.{Outcome, done, failure, exited, aborted, System, and_then}
use ssr_pre.Configuration.Options.{
  Answer, long_option, argument, config, name, ambisonics_order, record_file, setup, tracker,
  ip_server, freewheel, gui, no_gui, help, no_ip_server, no_tracker, verbose, version, invalid,
  other, choose, long_options, handle_option, counted, parse_options, set_port,
}

abbrev pub or_before {ℓ} : {A : Type ℓ} → Option A → A → A
or_before none d = d
or_before (some a) d = a

-- What the last answer that says anything says, or what holds before.
unfoldable pub last_choice {ℓ} : {A : Type ℓ} → (Answer → Option A) → List Answer → A → A
last_choice f [] d = d
last_choice f (answer ∷ answers) d = last_choice f answers (or_before (f answer) d)

-- The first argument that is no option.
unfoldable pub first_argument : List Answer → Text → Text
first_argument [] d = d
first_argument (argument t ∷ answers) d = t
first_argument (_ ∷ answers) d = first_argument answers d

abbrev pub about_gui : Answer → Option Bool
about_gui gui = some true
about_gui no_gui = some false
about_gui _ = none

abbrev pub about_server : Answer → Option Bool
about_server (ip_server port) = some true
about_server no_ip_server = some false
about_server _ = none

abbrev pub about_tracker : Answer → Option Text
about_tracker (tracker kind) = some kind
about_tracker no_tracker = some []
about_tracker _ = none

abbrev pub about_freewheeling : Answer → Option Bool
about_freewheeling freewheel = some true
about_freewheeling _ = none

-- No configuration file among the options.
abbrev pub WithoutFiles : List Answer → Type 0
WithoutFiles [] = Unit {0}
WithoutFiles (config file ∷ answers) = ⊥
WithoutFiles (_ ∷ answers) = WithoutFiles answers

-- What holds of a value that a function returns.
abbrev Holds : {A : Type 0} → (A → Type 0) → Outcome A → Type 0
Holds P (done a) = P a
Holds P _ = Unit {0}

abbrev IsNoFile : Answer → Type 0
IsNoFile (config file) = ⊥
IsNoFile _ = Unit {0}

WithoutFiles-head :
    (a : Answer) (rest : List Answer) → WithoutFiles (a ∷ rest) → IsNoFile a × WithoutFiles rest
WithoutFiles-head (config file) rest h = absurd h
WithoutFiles-head _ rest h = (tt, h)

-- The scene after one answer, behind `count` arguments.
abbrev scene_after : ℕ → Answer → Text → Text
scene_after count (argument t) d = if count == 0 then t else d
scene_after count _ d = d

module _ {P F : Type 0} (pf : Platform P F) (sys : System) where
  abbrev Chosen : ℕ → Answer → Startup P F → Startup P F → Type 0
  Chosen count answer s s' =
      (s'.conf.gui ≡ or_before (about_gui answer) s.conf.gui)
      × (s'.conf.ip_server ≡ or_before (about_server answer) s.conf.ip_server)
      × (s'.conf.tracker ≡ or_before (about_tracker answer) s.conf.tracker)
      × (s'.conf.freewheeling ≡ or_before (about_freewheeling answer) s.conf.freewheeling)
      × (s'.conf.scene_file_name ≡ scene_after count answer s.conf.scene_file_name)

  abbrev AllHold :
      (Startup P F → Type 0)
      → List (Text × (Startup P F → Outcome (Startup P F)))
      → Startup P F
      → Type 0
  AllHold Q [] s = Q s
  AllHold Q ((text, act) ∷ acts) s = Holds Q (act s) × AllHold Q acts s

  choose-Holds :
      (Q : Startup P F → Type 0) (word : Text)
      (acts : List (Text × (Startup P F → Outcome (Startup P F)))) (s : Startup P F)
      → AllHold Q acts s
      → Holds Q (choose pf sys word acts s)
  choose-Holds Q word [] s h = h
  choose-Holds Q word ((text, act) ∷ acts) s h = elim (Bool-cases (eq_text text word)) [
    | inl this ↦ rw (this, choose) h.0
    | inr not_this ↦ rw (not_this, choose) (choose-Holds Q word acts s h.1)
  ]

  hrir_size-Holds :
      (Q : Startup P F → Type 0) (test : Bool) (s : Startup P F)
      → Q s
      → Holds Q (if test then done s else aborted)
  hrir_size-Holds Q true s h = h
  hrir_size-Holds Q false s h = tt

  set_port-Holds :
      (Q : Startup P F → Type 0) (optarg : Option Text) (s : Startup P F)
      → Q s
      → ((port : ℤ) → Q (record s { conf = record s.conf { server_port = port } }))
      → Holds Q (set_port pf sys optarg s)
  set_port-Holds Q none s h k = h
  set_port-Holds Q (some optarg) s h k = elim (Bool-cases pf.enable_ip_interface) [
    | inl on ↦ rw on (elim (Option-cases (pf.read_int optarg)) [
      | inl unread ↦ rw unread h
      | inr (port, read) ↦ rw read (k port)
    ])
    | inr off ↦ rw off h
  ]

  handle_option-Chosen :
      (count : ℕ) (answer : Answer) (s : Startup P F)
      → IsNoFile answer
      → Holds (Chosen count answer s) (handle_option pf sys count answer s)
  unfolding handle_option
  handle_option-Chosen count (long_option word optarg) s h =
      let r : Chosen count (long_option word optarg) s s = (refl, refl, refl, refl, refl) in
      choose-Holds (Chosen count (long_option word optarg) s) word (long_options pf sys optarg) s (
        r,
        (
          hrir_size-Holds (Chosen count (long_option word optarg) s) _ _ r,
          (r, (r, (r, (r, (r, (r, (r, (r, r)))))))),
        ),
      )
  handle_option-Chosen count (argument optarg) s h = elim (Bool-cases (count == 0)) [
    | inl first ↦ rw first (refl, refl, refl, refl, rw first)
    | inr later ↦ rw later (refl, refl, refl, refl, rw later)
  ]
  handle_option-Chosen count (config optarg) s h = absurd h
  handle_option-Chosen count (ip_server optarg) s h =
      set_port-Holds (Chosen count (ip_server optarg) s) optarg _ (refl, refl, refl, refl, refl)
        (λ port. (refl, refl, refl, refl, refl))
  handle_option-Chosen count freewheel s h = (refl, refl, refl, refl, refl)
  handle_option-Chosen count gui s h = (refl, refl, refl, refl, refl)
  handle_option-Chosen count no_gui s h = (refl, refl, refl, refl, refl)
  handle_option-Chosen count help s h = tt
  handle_option-Chosen count no_ip_server s h = (refl, refl, refl, refl, refl)
  handle_option-Chosen count (name optarg) s h = (refl, refl, refl, refl, refl)
  handle_option-Chosen count (ambisonics_order optarg) s h = (refl, refl, refl, refl, refl)
  handle_option-Chosen count (record_file optarg) s h = (refl, refl, refl, refl, refl)
  handle_option-Chosen count (setup optarg) s h = (refl, refl, refl, refl, refl)
  handle_option-Chosen count (tracker optarg) s h = (refl, refl, refl, refl, refl)
  handle_option-Chosen count no_tracker s h = (refl, refl, refl, refl, refl)
  handle_option-Chosen count verbose s h = (refl, refl, refl, refl, refl)
  handle_option-Chosen count version s h = tt
  handle_option-Chosen count invalid s h = tt
  handle_option-Chosen count other s h = tt

  -- Behind a first argument the scene stays; before it, the first argument counts.
  abbrev scene_of : ℕ → List Answer → Text → Text
  scene_of count answers d = if count == 0 then first_argument answers d else d

  scene_of-cons :
      (count : ℕ) (answer : Answer) (answers : List Answer) (d : Text)
      → scene_of (counted pf sys answer count) answers (scene_after count answer d)
        ≡ scene_of count (answer ∷ answers) d
  unfolding first_argument
  scene_of-cons count (argument t) answers d = ground arith
  scene_of-cons count _ answers d = refl

  -- The choices of a whole command line.
  pub record ChosenBy (count : ℕ) (answers : List Answer) (s s' : Startup P F) : Type 0 where
    pub gui_last : s'.conf.gui ≡ last_choice about_gui answers s.conf.gui
    pub server_last : s'.conf.ip_server ≡ last_choice about_server answers s.conf.ip_server
    pub tracker_last : s'.conf.tracker ≡ last_choice about_tracker answers s.conf.tracker
    pub freewheeling_last :
        s'.conf.freewheeling ≡ last_choice about_freewheeling answers s.conf.freewheeling
    pub scene_first : s'.conf.scene_file_name ≡ scene_of count answers s.conf.scene_file_name

  step :
      (count : ℕ) (answer : Answer) (answers : List Answer) (s t s' : Startup P F)
      → Chosen count answer s t
      → ChosenBy (counted pf sys answer count) answers t s'
      → ChosenBy count (answer ∷ answers) s s'
  unfolding last_choice
  step count answer answers s t s' h r = record {
    gui_last = r.gui_last ∙ ap (last_choice about_gui answers) h.0;
    server_last = r.server_last ∙ ap (last_choice about_server answers) h.1;
    tracker_last = r.tracker_last ∙ ap (last_choice about_tracker answers) h.2;
    freewheeling_last = r.freewheeling_last ∙ ap (last_choice about_freewheeling answers) h.3;
    scene_first =
        r.scene_first
        ∙ ap (scene_of (counted pf sys answer count) answers) h.4
        ∙ scene_of-cons count answer answers s.conf.scene_file_name;
  }

  continue :
      (o : Outcome (Startup P F)) (Q : Startup P F → Type 0)
      (next : Startup P F → Outcome (Startup P F)) {s' : Startup P F}
      → Holds Q o
      → and_then o next ≡ done s'
      → (t : Startup P F) × Q t × (next t ≡ done s')
  continue (done t) Q next h e = (t, h, e)
  continue (failure t) Q next h e = cc
  continue (exited b) Q next h e = cc
  continue aborted Q next h e = cc

  no_choice : (count : ℕ) (s : Startup P F) → ChosenBy count [] s s
  unfolding last_choice first_argument
  no_choice count s = record {
    gui_last = refl;
    server_last = refl;
    tracker_last = refl;
    freewheeling_last = refl;
    scene_first = ground arith;
  }

  -- When a command line without configuration files is read to its end, the last option about the
  -- GUI, the IP server, the tracker and freewheeling counts, and the first argument that is no
  -- option names the scene, unless there was one before; without such an option or argument all
  -- stay as they are.
  pub parse_options-ChosenBy :
      (count : ℕ) (answers : List Answer) (s : Startup P F) {s' : Startup P F}
      → WithoutFiles answers
      → parse_options pf sys count answers s ≡ done s'
      → ChosenBy count answers s s'
  unfolding parse_options
  parse_options-ChosenBy count [] s {s'} h e =
      let same : s ≡ s' = cc in subst (ChosenBy count [] s) same (no_choice count s)
  parse_options-ChosenBy count (answer ∷ answers) s {s'} h e =
      let (no_file, rest) = WithoutFiles-head answer answers h in
      let (t, chosen, next) =
        continue (handle_option pf sys count answer s) (Chosen count answer s)
          (parse_options pf sys (counted pf sys answer count) answers)
          (handle_option-Chosen count answer s no_file) e in
      step count answer answers s t s' chosen
        (parse_options-ChosenBy (counted pf sys answer count) answers t rest next)
