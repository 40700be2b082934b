-- ===== src/Server/Accepting.antt =====
-- Whether the server goes on accepting clients.
use ssr_pre.Common.{ℕ, suc, ◌≡◌, ◌≢◌, refl, ap, ◌∙◌, true, false, [], none, some, arith}
use ssr_pre.Common.Text.{Text}
use ssr_pre.Common.Assoc.{find, find-insert}
use ssr_pre.Geometry.{Floats}
use ssr_pre.Network.{Printer}
use ssr_pre.Controller.{Controller, Services, ◌>>=◌, subscribe, network}
use ssr_pre.Controller.Loading.{Loader}
use ssr_pre.Controller.Saving.{get_scene_as_xml}
use ssr_pre.Connection
use ssr_pre.Connection.{Connection, World, Peer, create, destroy, write}
use ssr_pre.Server.{Server, new_server, start_accept, handle_accept, hold, Serves}
use ssr_pre.Server.Readiness.{untouched, Waits, Serves-Ready}

-- A connection that has just been started.
abbrev pub started : Connection
started = record { streambuf = []; reading = true; waiting = true; commands = [] }

module _ {F : Type 0} (fl : Floats F) (pr : Printer F) (ld : Loader F) (sv : Services)
    (peer : Peer F) where
  -- A client that connects now is served, and the next one is waited for.
  pub record Welcomes (s : Server F) : Type 0 where
    pub number : ℕ
    pub connection : Connection
    pub waiting : s.pending ≡ some (number, connection)
    pub new : find number s.connections ≡ none
    pub next : Server F
    pub accepted : handle_accept fl pr ld sv peer number connection false s ≡ some next
    pub served : find number next.connections ≡ some started
    pub others : (j : ℕ) → j ≢ number → find j next.connections ≡ find j s.connections
    pub going_on : next.stopped ≡ s.stopped
    pub again : next.pending ≡ some (suc number, untouched)

  -- The world of a connection after its start.
  abbrev first_world : Text → ℕ → Controller F → World F
  first_world text i c = record {
    connection = started;
    controller = write fl pr ld sv peer i text (subscribe (network i) c);
  }

  start_lem :
      (i : ℕ) (c : Controller F) (text : Text)
      → get_scene_as_xml fl pr ld.writer ld.cwd c.scene ≡ some text
      → Connection.start fl pr ld sv peer i (record { connection = untouched; controller = c })
        ≡ some (first_world text i c)
  unfolding Connection.start subscribe
  start_lem i c text printed = rw (printed, Connection.start) refl

  Waits-Welcomes :
      (s : Server F) (text : Text)
      → get_scene_as_xml fl pr ld.writer ld.cwd s.controller.scene ≡ some text
      → Waits s
      → Welcomes s
  unfolding handle_accept start_accept create
  Waits-Welcomes s text printed waits =
      let w = first_world text waits.last s.controller in
      record {
        number = waits.last;
        connection = untouched;
        waiting = waits.waiting;
        new = waits.unused waits.last (omega arith);
        next =
            start_accept fl pr ld sv peer
              (hold fl pr ld sv peer waits.last w (record s { pending = none }));
        accepted =
            ap
              (λ o. o >>= λ w. some (
                start_accept fl pr ld sv peer
                  (hold fl pr ld sv peer waits.last w (record s { pending = none }))))
              (start_lem waits.last s.controller text printed);
        served = find-insert waits.last waits.last started s.connections ∙ ground arith;
        others = λ j other. find-insert j waits.last started s.connections ∙ ground (arith, other);
        going_on = refl;
        again = ap (λ n. some (n, untouched)) waits.count;
      }

  -- While no accept has ended with an error, a server that runs waits for a client with a new
  -- connection, and a client that connects now is served and the next one is waited for, whatever
  -- clients and other threads have done, if the scene can be printed.
  pub Serves-Welcomes :
      (c : Controller F) (s : Server F) (text : Text)
      → Serves fl pr ld sv peer false s (new_server c)
      → s.entered ≡ true
      → get_scene_as_xml fl pr ld.writer ld.cwd s.controller.scene ≡ some text
      → Welcomes s
  Serves-Welcomes c s text serves entered printed =
      let r =
        Serves-Ready fl pr ld sv peer s (new_server c) serves
          (record { before = λ _. (refl, refl, refl); after = λ h. cc }) in
      Waits-Welcomes s text printed (r.after entered)
