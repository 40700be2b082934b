-- ===== src/Server.antt =====
-- src/boostnetwork/server.cpp: the server that accepts network clients. What boost::asio promises is the
-- relation Turn: a handler runs on the network thread, one at a time, while io_service::run() has not been
-- stopped; an accept that is waited for ends with or without an error. An exception, or a failed
-- assertion, is `none`.
pub mod Readiness
pub mod Accepting
pub mod Refusing
pub mod Agreement
pub mod Examples
use ssr_pre.Common.{
  ℕ, zero, suc, ◌≡◌, Bool, true, false, List, [], ◌∷◌, Option, none, some, if◌then◌else◌,
}
use ssr_pre.Common.Text.{Text}
use ssr_pre.Common.Assoc.{Map, find, insert, erase}
use ssr_pre.Geometry.{Floats}
use ssr_pre.Network.{Network, Printer}
use ssr_pre.Controller.{Controller, Services, ◌>>=◌}
use ssr_pre.Controller.Loading.{Loader}
use ssr_pre.Connection
use ssr_pre.Connection.{Connection, World, Peer, create, destroy, Step}

pub record Server (F : Type 0) : Type 0 where
  -- Whether there is a network thread, whether run() has begun, and whether the io_service was stopped.
  pub network_thread : Bool
  pub entered : Bool
  pub stopped : Bool
  -- The connection that async_accept() waits with. A connection is known by a number of its own.
  pub pending : Option (ℕ × Connection)
  pub created : ℕ
  -- The connections that handlers hold.
  pub connections : Map Connection
  pub controller : Controller F

-- The constructor.
abbrev pub new_server : {F : Type 0} → Controller F → Server F
new_server c = record {
  network_thread = false;
  entered = false;
  stopped = false;
  pending = none;
  created = 0;
  connections = [];
  controller = c;
}

module _ {F : Type 0} (fl : Floats F) (pr : Printer F) (ld : Loader F) (sv : Services)
    (peer : Peer F) where
  -- The NetworkSubscriber as its constructor leaves it.
  abbrev pub new_subscriber : Network F
  new_subscriber = record { source_levels = []; master_level = fl.lit 0; sent = [] }

  unfoldable pub start_accept : Server F → Server F
  unfolding create
  start_accept s =
      let w = create fl pr ld sv peer s.created new_subscriber s.controller in
      record s {
        pending = some (s.created, w.connection);
        created = suc s.created;
        controller = w.controller;
      }

  -- What the pointer to a connection is about, with the controller.
  abbrev pub world_of : Connection → Server F → World F
  world_of connection s = record { connection = connection; controller = s.controller }

  -- A connection and the controller after a handler of it.
  abbrev pub hold : ℕ → World F → Server F → Server F
  hold i w s = record s {
    connections = insert i w.connection s.connections;
    controller = w.controller;
  }

  -- After an error the last pointer to the new connection goes.
  unfoldable pub handle_accept : ℕ → Connection → Bool → Server F → Option (Server F)
  unfolding start_accept
  handle_accept i new_connection error s =
      let idle = record s { pending = none } in
      if error
      then some (record idle { controller = destroy fl pr ld sv peer i s.controller })
      else Connection.start fl pr ld sv peer i (world_of new_connection s) >>= λ w.
          some (start_accept (hold i w idle))

  -- start(), which creates the thread that calls run().
  abbrev pub start : Server F → Server F
  start s = record s { network_thread = true }

  -- run() up to io_service::run().
  unfoldable pub run : Server F → Server F
  unfolding start_accept
  run s = start_accept (record s { entered = true })

  abbrev pub stop : Server F → Server F
  stop s = if s.network_thread then record s { stopped = true } else s

  -- One turn; `errors` tells whether an accept may end with an error.
  pub data Turn (errors : Bool) (s v : Server F) : Type 0 where
    starts : v ≡ start s → Turn errors s v
    begins : s.network_thread ≡ true → s.entered ≡ false → v ≡ run s → Turn errors s v
    accepts :
        (i : ℕ) (connection : Connection)
        → s.stopped ≡ false
        → s.pending ≡ some (i, connection)
        → handle_accept i connection false s ≡ some v
        → Turn errors s v
    refuses :
        (i : ℕ) (connection : Connection)
        → errors ≡ true
        → s.stopped ≡ false
        → s.pending ≡ some (i, connection)
        → handle_accept i connection true s ≡ some v
        → Turn errors s v
    -- a step of a connection, or of another thread
    works :
        (i : ℕ) (connection : Connection) (bytes : Text) (w : World F)
        → s.stopped ≡ false
        → find i s.connections ≡ some connection
        → Step fl pr ld sv peer i (world_of connection s) bytes w
        → v ≡ hold i w s
        → Turn errors s v
    -- the last handler of a connection has gone
    leaves :
        (i : ℕ) (connection : Connection)
        → find i s.connections ≡ some connection
        → v ≡ record s {
          connections = erase i s.connections;
          controller = destroy fl pr ld sv peer i s.controller;
        }
        → Turn errors s v
    elsewhere : (c : Controller F) → v ≡ record s { controller = c } → Turn errors s v
    stops : v ≡ stop s → Turn errors s v

  -- Several turns.
  pub data Serves (errors : Bool) (u : Server F) : Server F → Type 0 where
    ends : Serves errors u u
    turns : (s v : Server F) → Turn errors s v → Serves errors u v → Serves errors u s
