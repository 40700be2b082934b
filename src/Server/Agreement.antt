-- ===== src/Server/Agreement.antt =====
-- The whole program with its clients: whatever they do, the Scene and the renderer agree.
use ssr_pre.Common.{ℕ, ◌≡◌, refl, sym, subst, Bool, true, false, none, some, if◌then◌else◌}
use mathlib.Core.Option.{some-injective}
use ssr_pre.CommandParser.{empty}
use ssr_pre.Configuration.{Conf}
use ssr_pre.Geometry.{Floats}
use ssr_pre.Network.{Printer}
use ssr_pre.Controller.{Services}
use ssr_pre.Controller.Loading.{Loader}
use ssr_pre.Controller.Publish.{Synced, >>=-eq-some}
use ssr_pre.Controller.Startup.{Host, Program, construct, configured}
use ssr_pre.Controller.Startup.Beginning.{construct-Synced}
use ssr_pre.Controller.Sync.{Extent, without_distance}
use ssr_pre.Connection
use ssr_pre.Connection.{Connection, World, Peer}
use ssr_pre.Connection.Agreement.{Keeps, Step-Synced, start-Synced, create-Synced, destroy-Synced}
use ssr_pre.Server.{
  Server, new_server, new_subscriber, start_accept, handle_accept, hold, world_of, run, Turn,
  starts, begins, accepts, refuses, works, leaves, elsewhere, stops, Serves, ends, turns,
}

module _ {F : Type 0} (fl : Floats F) (pr : Printer F) (ld : Loader F) (sv : Services)
    (peer : Peer F) (ext : Extent) where
  start_accept-Synced :
      (s : Server F)
      → Synced ext s.controller
      → Synced ext (start_accept fl pr ld sv peer s).controller
  unfolding start_accept
  start_accept-Synced s v =
      create-Synced fl pr ld sv peer s.created ext (new_subscriber fl pr ld sv peer) s.controller v

  handle_accept-Synced :
      (i : ℕ) (connection : Connection) (error : Bool) (s u : Server F)
      → Synced ext s.controller
      → handle_accept fl pr ld sv peer i connection error s ≡ some u
      → Synced ext u.controller
  unfolding handle_accept
  handle_accept-Synced i connection true s u v h =
      subst (λ u. Synced ext u.controller) (some-injective _ _ h)
        (destroy-Synced fl pr ld sv peer i ext s.controller v)
  handle_accept-Synced i connection false s u v h =
      let idle : Server F = record s { pending = none } in
      let (w, begun, last) =
        >>=-eq-some (Connection.start fl pr ld sv peer i (world_of fl pr ld sv peer connection s))
          (λ w. some (start_accept fl pr ld sv peer (hold fl pr ld sv peer i w idle))) h in
      subst (λ u. Synced ext u.controller) (some-injective _ _ last)
        (start_accept-Synced (hold fl pr ld sv peer i w idle)
          (start-Synced fl pr ld sv peer i ext (world_of fl pr ld sv peer connection s) w v begun))

  -- Other threads keep the agreement in this turn.
  abbrev pub KeepsTurn :
      {errors : Bool} {s v : Server F} → Turn fl pr ld sv peer errors s v → Type 0
  KeepsTurn (works i connection bytes w live found step e) = Keeps fl pr ld sv peer i ext step
  KeepsTurn {s = s} (elsewhere c e) = Synced ext s.controller → Synced ext c
  KeepsTurn _ = Unit {0}

  abbrev pub AllKeep :
      {errors : Bool} {v s : Server F} → Serves fl pr ld sv peer errors v s → Type 0
  AllKeep ends = Unit {0}
  AllKeep (turns s v turn others) = KeepsTurn turn × AllKeep others

  stopped-Synced :
      (b : Bool) (s : Server F)
      → Synced ext s.controller
      → Synced ext (if b then record s { stopped = true } else s).controller
  stopped-Synced true s v = v
  stopped-Synced false s v = v

  Turn-Synced :
      {errors : Bool} (s u : Server F) (turn : Turn fl pr ld sv peer errors s u)
      → ext.told ≡ false
      → KeepsTurn turn
      → Synced ext s.controller
      → Synced ext u.controller
  unfolding run
  Turn-Synced s u (starts e) quiet k v = subst (λ u. Synced ext u.controller) (sym e) v
  Turn-Synced s u (begins thread early e) quiet k v =
      subst (λ u. Synced ext u.controller) (sym e)
        (start_accept-Synced (record s { entered = true }) v)
  Turn-Synced s u (accepts i connection live p h) quiet k v =
      handle_accept-Synced i connection false s u v h
  Turn-Synced s u (refuses i connection may live p h) quiet k v =
      handle_accept-Synced i connection true s u v h
  Turn-Synced s u (works i connection bytes w live found step e) quiet k v =
      subst (λ u. Synced ext u.controller) (sym e)
        (Step-Synced fl pr ld sv peer i ext (world_of fl pr ld sv peer connection s) w bytes step
          quiet k v)
  Turn-Synced s u (leaves i connection found e) quiet k v =
      subst (λ u. Synced ext u.controller) (sym e)
        (destroy-Synced fl pr ld sv peer i ext s.controller v)
  Turn-Synced s u (elsewhere c e) quiet k v = subst (λ u. Synced ext u.controller) (sym e) (k v)
  Turn-Synced s u (stops e) quiet k v =
      subst (λ u. Synced ext u.controller) (sym e) (stopped-Synced s.network_thread s v)

  Serves-Synced :
      {errors : Bool} (u s : Server F) (serves : Serves fl pr ld sv peer errors u s)
      → ext.told ≡ false
      → AllKeep serves
      → Synced ext s.controller
      → Synced ext u.controller
  Serves-Synced u s ends quiet k v = v
  Serves-Synced u _ (turns s w turn others) quiet (k, ks) v =
      Serves-Synced u w others quiet ks (Turn-Synced s w turn quiet k v)

-- After a start with a scene, the Scene and the renderer agree on all but the amplitude reference
-- distance, whatever clients connect, send, ask for and leave, in whatever order the handlers of
-- all connections take turns, as long as other threads keep the agreement.
pub construct-Serves :
    {P F : Type 0} (fl : Floats F) (pr : Printer F) (ld : Loader F) (sv : Services) (host : Host F)
    (peer : Peer F) {errors : Bool} (conf : Conf P F) (p : Program P F) (s : Server F)
    → empty conf.scene_file_name ≡ false
    → construct fl pr ld sv host conf ≡ some p
    → (serves : Serves fl pr
        (configured fl pr ld sv host p.conf)
        sv
        peer
        errors
        s
        (new_server p.controller))
    → AllKeep fl pr (configured fl pr ld sv host p.conf) sv peer without_distance serves
    → Synced without_distance s.controller
construct-Serves fl pr ld sv host peer conf p s named begun serves keep =
    Serves-Synced fl pr (configured fl pr ld sv host p.conf) sv peer without_distance s
      (new_server p.controller) serves refl keep
      (construct-Synced fl pr ld sv host false conf p named (λ t. cc) begun)
