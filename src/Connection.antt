-- ===== src/Connection.antt =====
-- src/boostnetwork/connection.cpp: the connection of a network client, from the bytes that arrive to the
-- calls of the Controller. What boost::asio promises is the relation Step: an asynchronous read ends
-- when the buffer holds a zero byte, or with an error; a timer that runs ends. Other connections and
-- threads may change the Controller between two steps. `none` is a failed assertion or an exception.
pub mod Framing
pub mod Running
pub mod Lifetime
pub mod Agreement
pub mod Examples
use ssr_pre.Common.{
  ℕ, ◌≡◌, Bool, true, false, List, [], ◌∷◌, ◌++◌, Option, none, some, ◌==◌, if◌then◌else◌,
}
use ssr_pre.Common.Text.{Text}
use ssr_pre.Common.Assoc.{insert, modify, erase}
use ssr_pre.Geometry.{Floats}
use ssr_pre.Network.{Network, Printer, send_levels}
use ssr_pre.CommandParser.{Element}
use ssr_pre.CommandParser.Elements.{parse_cmd}
use ssr_pre.Controller.{Controller, Services, Handle, network, ◌>>=◌, subscribe, unsubscribe}
use ssr_pre.Controller.Loading.{Loader}
use ssr_pre.Controller.Saving.{get_scene_as_xml}
use ssr_pre.Controller.Calls.{perform_all}

pub record Connection : Type 0 where
  pub streambuf : Text
  -- Whether an asynchronous read is under way, and whether the timer runs.
  pub reading : Bool
  pub waiting : Bool
  -- What parse_cmd() was called with so far.
  pub commands : List Text

pub record World (F : Type 0) : Type 0 where
  pub connection : Connection
  pub controller : Controller F

-- What a connection gets from libxml2.
pub record Peer (F : Type 0) : Type 0 where
  -- XMLParser::load_string() and the children of the first node that "/request" finds
  pub load_request : Text → Option (List Element)

-- getline() with '\0': the packet, and what stays in the buffer.
unfoldable pub getline : Text → Text × Text
getline [] = ([], [])
getline (c ∷ s) = let (packet, rest) = getline s in if c == 0 then ([], s) else (c ∷ packet, rest)

-- Whether there is a zero byte.
abbrev pub is_complete : Text → Bool
is_complete [] = false
is_complete (c ∷ s) = if c == 0 then true else is_complete s

-- write(): the bytes on the socket.
unfoldable pub on_socket : List Text → Text
on_socket [] = []
on_socket (t ∷ ts) = t ++ (0 ∷ on_socket ts)

module _ {F : Type 0} (fl : Floats F) (pr : Printer F) (ld : Loader F) (sv : Services)
    (peer : Peer F) (i : ℕ) where
  -- CommandParser::parse_cmd()
  unfoldable pub handle : Text → Controller F → Option (Controller F)
  handle packet_string c = elim (peer.load_request packet_string) [
    | none ↦ some c
    | some elements ↦ elim (parse_cmd fl ld.readers elements) [
      | none ↦ none
      | some calls ↦ perform_all fl pr ld sv calls c
    ]
  ]

  -- write() to the socket of this connection.
  unfoldable pub write : Text → Controller F → Controller F
  write text c = record c {
    networks = modify i (λ n. record n { sent = n.sent ++ text ∷ [] }) c.networks;
  }

  -- The constructor: the NetworkSubscriber comes into being with the connection.
  unfoldable pub create : Network F → Controller F → World F
  create n c = record {
    connection = record { streambuf = []; reading = false; waiting = false; commands = [] };
    controller = record c { networks = insert i n c.networks };
  }

  unfoldable pub start : World F → Option (World F)
  unfolding write subscribe
  start w =
      let c = subscribe (network i) w.controller in
      elim (get_scene_as_xml fl pr ld.writer ld.cwd c.scene) [
        | none ↦ none
        | some whole_scene ↦ some (record {
          connection = record w.connection { reading = true; waiting = true };
          controller = write whole_scene c;
        })
      ]

  unfoldable pub timeout_handler : Bool → World F → World F
  timeout_handler e w =
      if e then record w { connection = record w.connection { waiting = false } } else record w {
        controller = record w.controller {
          networks = modify i (send_levels fl pr) w.controller.networks;
        };
      }

  -- read_handler(). After an error nothing is read any more, and the timer is cancelled.
  unfoldable pub read_handler : Bool → World F → Option (World F)
  unfolding handle
  read_handler error w =
      if error
      then some (record w { connection = record w.connection { reading = false; waiting = false } })
      else (let (packet_string, rest) = getline w.connection.streambuf in
          handle packet_string w.controller >>= λ c. some (record {
            connection = record w.connection {
              streambuf = rest;
              commands = w.connection.commands ++ packet_string ∷ [];
            };
            controller = c;
          }))

  -- The destructor of the connection and of its NetworkSubscriber.
  unfoldable pub destroy : Controller F → Controller F
  unfolding unsubscribe
  destroy c = let c' = unsubscribe (network i) c in record c' { networks = erase i c'.networks }

  -- One step, in which some bytes arrive or none.
  pub data Step (w : World F) (bytes : Text) (v : World F) : Type 0 where
    arrives :
        v ≡ record w {
          connection = record w.connection { streambuf = w.connection.streambuf ++ bytes };
        }
        → Step w bytes v
    reads :
        bytes ≡ []
        → w.connection.reading ≡ true
        → is_complete w.connection.streambuf ≡ true
        → read_handler false w ≡ some v
        → Step w bytes v
    fails : bytes ≡ [] → w.connection.reading ≡ true → read_handler true w ≡ some v → Step w bytes v
    ticks :
        (e : Bool)
        → bytes ≡ []
        → w.connection.waiting ≡ true
        → v ≡ timeout_handler e w
        → Step w bytes v
    elsewhere : (c : Controller F) → bytes ≡ [] → v ≡ record w { controller = c } → Step w bytes v

  -- Several steps up to `u`, with all bytes that arrive in them.
  pub data Run (u : World F) : World F → Text → Type 0 where
    ends : Run u u []
    steps :
        (w v : World F) (bytes others : Text)
        → Step w bytes v
        → Run u v others
        → Run u w (bytes ++ others)
