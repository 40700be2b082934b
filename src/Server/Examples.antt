-- ===== src/Server/Examples.antt =====
-- A server that starts, and whose first client connects or does not.
use ssr_pre.Common.{◌∷◌, [], ◌∙◌, ℕ, ◌≡◌, refl, true, false, none, some}
use ssr_pre.Common.Text.{Text}
use ssr_pre.Common.Assoc.{find}
use ssr_pre.Controller.Loading.Sample.{loader}
use ssr_pre.Controller.Sample.{numbers, printer, services}
use ssr_pre.Controller.Sample
use ssr_pre.Controller.Saving.{get_scene_as_xml, add_sources}
use ssr_pre.CommandParser.Examples.{is_some, value}
use ssr_pre.Connection.{create}
use ssr_pre.Connection.Examples.{silent}
use ssr_pre.Server.{
  Server, new_server, start_accept, handle_accept, start, run, starts, begins, accepts, works, hold,
  Serves, ends, turns,
}
use ssr_pre.Server.Accepting.{Welcomes, Serves-Welcomes, started}
use ssr_pre.Server.Readiness.{untouched}
use ssr_pre.Server.Refusing.{Serves-refused}
use ssr_pre.Controller.Startup.{configured}
use ssr_pre.Controller.Startup.Examples.{small_host, program, settings, program_prints}
use ssr_pre.Controller.Publish.{Synced}
use ssr_pre.Controller.Sync.{without_distance}
use ssr_pre.Server.Agreement.{construct-Serves}
use ssr_pre.Connection.{World, arrives}
use ssr_pre.Common.Text.{codes, eq_text}
use ssr_pre.Controller.Loading.{Loader}

abbrev begun : Server ℕ
begun = start numbers printer loader services silent (new_server Sample.start)

abbrev running : Server ℕ
running = run numbers printer loader services silent begun

running_turns :
    Serves numbers printer loader services silent false running (new_server Sample.start)
running_turns =
    turns (new_server Sample.start) begun (starts refl)
      (turns begun running (begins refl refl refl) ends)

running_entered : running.entered ≡ true
unfolding run start_accept
running_entered = refl

prints :
    is_some (get_scene_as_xml numbers printer loader.writer loader.cwd running.controller.scene)
    ≡ true
unfolding run start_accept create get_scene_as_xml add_sources
prints = refl

printed :
    (text : Text) × (get_scene_as_xml numbers printer loader.writer loader.cwd
        running.controller.scene
      ≡ some text)
printed =
    value (get_scene_as_xml numbers printer loader.writer loader.cwd running.controller.scene)
      prints

Serves-Welcomes_example : Welcomes numbers printer loader services silent running
Serves-Welcomes_example =
    Serves-Welcomes numbers printer loader services silent Sample.start running printed.0
      running_turns running_entered printed.1

refused :
    is_some (handle_accept numbers printer loader services silent 0 untouched true running) ≡ true
unfolding handle_accept
refused = refl

closed :
    (u : Server ℕ) × (handle_accept numbers printer loader services silent 0 untouched true running
      ≡ some u)
closed =
    value (handle_accept numbers printer loader services silent 0 untouched true running) refused

Serves-refused_example :
    (closed.0.pending ≡ none)
    × ((j : ℕ) → find j running.connections ≡ none → find j closed.0.connections ≡ none)
Serves-refused_example =
    Serves-refused numbers printer loader services silent running closed.0 closed.0 0 untouched
      running_entered closed.1 ends

-- The program with a scene, to which a client connects and sends a byte.
abbrev loading : Loader ℕ
loading = configured numbers printer loader services small_host program.0.conf

abbrev first : Server ℕ
first = new_server program.0.controller

abbrev waiting : Server ℕ
waiting =
    run numbers printer loading services silent
      (start numbers printer loading services silent first)

waiting_turns : Serves numbers printer loading services silent false waiting first
waiting_turns = turns first (start numbers printer loading services silent first) (starts refl) (
    turns (start numbers printer loading services silent first) waiting (begins refl refl refl)
      ends)

waiting_entered : waiting.entered ≡ true
unfolding run start_accept
waiting_entered = refl

waiting_goes_on : waiting.stopped ≡ false
unfolding run start_accept
waiting_goes_on = refl

waiting_scene : waiting.controller.scene ≡ program.0.controller.scene
unfolding run start_accept create
waiting_scene = refl

text_of_program :
    (text : Text) × (get_scene_as_xml numbers printer loader.writer loader.cwd
        program.0.controller.scene
      ≡ some text)
text_of_program =
    value (get_scene_as_xml numbers printer loader.writer loader.cwd program.0.controller.scene)
      program_prints

welcomed : Welcomes numbers printer loading services silent waiting
welcomed =
    Serves-Welcomes numbers printer loading services silent program.0.controller waiting
      text_of_program.0 waiting_turns waiting_entered (rw waiting_scene text_of_program.1)

-- The client and the byte that it sends.
abbrev with_byte : World ℕ
with_byte = record {
  connection = record started { streambuf = 97 ∷ [] };
  controller = welcomed.next.controller;
}

abbrev last : Server ℕ
last = hold numbers printer loading services silent welcomed.number with_byte welcomed.next

abbrev session : Serves numbers printer loading services silent true last first
session = turns first (start numbers printer loading services silent first) (starts refl) (
    turns (start numbers printer loading services silent first) waiting (begins refl refl refl) (
      turns waiting welcomed.next
        (accepts welcomed.number welcomed.connection waiting_goes_on welcomed.waiting
          welcomed.accepted)
        (turns welcomed.next last
          (works welcomed.number started (97 ∷ []) with_byte (welcomed.going_on ∙ waiting_goes_on)
            welcomed.served (arrives refl) refl)
          ends)))

construct-Serves_example : Synced without_distance last.controller
unfolding eq_text
construct-Serves_example =
    construct-Serves numbers printer loader services small_host silent (settings (codes "a.asd"))
      program.0 last refl program.1 session (tt, (tt, (tt, (tt, tt))))
