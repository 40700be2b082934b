-- ===== src/Controller/Sample.antt =====
-- A small Controller with one network client. Numbers stand for floats.
use ssr_pre.Common.{
  if◌then◌else◌, subst, length, arith, ℕ, ◌≡◌, refl, List, [], ◌∷◌, Option, none, some, Bool, true,
  false, ltb,
}
use ssr_pre.Common.Text.{codes, eq_text}
use ssr_pre.Common.Assoc.{find, insert, modify}
use ssr_pre.Geometry.{Floats}
use ssr_pre.Source.{Model, fresh, read_model}
use ssr_pre.Subscriber.{Event}
use ssr_pre.Publisher
use ssr_pre.Publisher.{Settings}
use ssr_pre.Scene
use ssr_pre.Scene.{
  Scene, empty_scene, get_source_position_fixed, get_source_gain, get_source_position,
  get_source_orientation, get_source_mute_state, get_source_name, get_source_properties_file,
  get_source_model,
}
use ssr_pre.Renderer
use ssr_pre.Renderer.{Renderer, Params, empty_renderer, add_source}
use ssr_pre.Network
use ssr_pre.Network.{Network, Printer}
use ssr_pre.Controller.{
  Controller, Services, Handle, network, new_source, new_source_on, announcements,
  set_source_position, stop_processing, set_processing_state, publish_all, publish, publish_to,
  deliver, delete_source, subscribe, unsubscribe,
}
use ssr_pre.Controller.Sync.{full_extent, Agree}
use ssr_pre.Controller.Publish.{Synced}
use ssr_pre.Controller.Loading.{load_scene}
use ssr_pre.Controller.Loading.Sample.{loader}
use ssr_pre.Controller.Calls.{perform, perform_all}
use ssr_pre.PathTools.{get_file_extension}
use ssr_pre.Controller.Register.{added-Agree}
use ssr_pre.CommandParser.{Child}
use ssr_pre.CommandParser.Examples.{readers, is_some, value}
use ssr_pre.Controller.Subscribers.{Listens}

abbrev pub numbers : Floats ℕ
numbers = record {
  lit = λ n. n;
  greater = λ a b. ltb b a;
  db_to_linear = λ n. n;
  linear_to_db = λ n. n;
}

abbrev pub printer : Printer ℕ
printer = record {
  show_float = λ n. n ∷ [];
  show_int = λ n. n ∷ [];
  show_bool = λ b. if b then codes "true" else codes "false";
}

abbrev pub services : Services
services = record {
  player_port_name = λ file channel loop. some file;
  player_file_length = λ file. 100;
  accepts = λ p. true;
}

-- The Scene after the renderer's view has been published to it.
abbrev pub start_scene : Scene ℕ
start_scene = record (empty_scene numbers) {
  reference = record { position = record { x = 0; y = 0 }; orientation = record { azimuth = 0 } };
}

abbrev pub idle : Network ℕ
idle = record { source_levels = []; master_level = 0; sent = [] }

-- A Controller with one network client.
abbrev pub start : Controller ℕ
start = record {
  scene = start_scene;
  renderer = empty_renderer numbers;
  networks = (7, idle) ∷ [];
  previous_state = false;
  subscribers = Handle.scene ∷ Handle.renderer ∷ network 7 ∷ [];
  player = false;
  loop_mode = false;
}

pub start-Agree : Agree full_extent start_scene (empty_renderer numbers)
unfolding find
start-Agree = record {
  order = record { ascending = tt; same_order = refl; same_inputs = refl };
  sources = λ j. tt;
  state = record {
    reference_position = refl;
    reference_orientation = λ aimed. refl;
    offset_position = refl;
    offset_orientation = refl;
    master_volume = refl;
    processing = refl;
    distance = λ told. refl;
  };
}

pub start-Synced : Synced full_extent start
start-Synced = record { rest = network 7 ∷ []; listening = refl; only = tt; agree = start-Agree }

abbrev pub voice : Settings ℕ
voice = record {
  name = codes "voice";
  model = Model.plane;
  file_or_port_name = codes "a.wav";
  channel = 1;
  position = record { x = 1; y = 2 };
  position_fixed = false;
  orientation = record { azimuth = 3 };
  gain = 4;
  muted = false;
  properties_file = [];
}

-- No file at all is not a scene file.
pub is_told : eq_text (get_file_extension []) (codes "asd") ≡ false
unfolding get_file_extension eq_text
is_told = refl

abbrev pub session : List (Publisher.Call ℕ)
session =
    Publisher.new_source voice
    ∷ Publisher.set_source_position 1 (record { x = 5; y = 6 })
    ∷ Publisher.load_scene []
    ∷ Publisher.stop_processing
    ∷ []

pub session_succeeds : is_some (perform_all numbers printer loader services session start) ≡ true
unfolding perform_all perform load_scene ssr_pre.Controller.Loading.load_into
    ssr_pre.Controller.delete_all_sources Renderer.rem_all_sources Renderer.rem_loop
    Renderer.rem_source new_source announcements set_source_position stop_processing
    set_processing_state publish_all publish publish_to deliver add_source Scene.receive
    Scene.new_source Scene.set_source_member Renderer.receive Renderer.set_member
    Renderer.get_source Network.receive Network.message find insert modify eq_text
    get_source_position_fixed ssr_pre.Common.Assoc.erase
session_succeeds = refl

pub performed :
    (c : Controller ℕ) × (perform_all numbers printer loader services session start ≡ some c)
performed = value (perform_all numbers printer loader services session start) session_succeeds

-- A Scene and a renderer that know source 1.
abbrev pub one_scene : Scene ℕ
one_scene = Scene.receive numbers (Event.new_source 1) start_scene

abbrev pub plain : Params
plain = record { connect_to = []; properties_file = [] }

abbrev pub one_renderer : Renderer ℕ
one_renderer = (add_source numbers services.accepts plain (empty_renderer numbers)).1

pub one-Agree : Agree full_extent one_scene one_renderer
unfolding add_source
one-Agree =
    added-Agree numbers printer services.accepts plain start_scene (empty_renderer numbers) 1
      start-Agree refl

abbrev pub one : Controller ℕ
one = record start { scene = one_scene; renderer = one_renderer }

pub one-Synced : Synced full_extent one
one-Synced = record { rest = network 7 ∷ []; listening = refl; only = tt; agree = one-Agree }

-- What the renderer makes of an event.
pub accepted : is_some (Renderer.receive (Event.delete_source 1) one_renderer) ≡ true
unfolding add_source Renderer.receive Renderer.get_source Renderer.rem_source find insert
accepted = refl

pub smaller : (r : Renderer ℕ) × (Renderer.receive (Event.delete_source 1) one_renderer ≡ some r)
smaller = value (Renderer.receive (Event.delete_source 1) one_renderer) accepted

pub deletion_succeeds : is_some (publish numbers printer (Event.delete_source 1) one) ≡ true
unfolding publish publish_to deliver add_source Renderer.receive Renderer.get_source
    Renderer.rem_source find insert Network.receive
deletion_succeeds = refl

pub deleted : (c : Controller ℕ) × (publish numbers printer (Event.delete_source 1) one ≡ some c)
deleted = value (publish numbers printer (Event.delete_source 1) one) deletion_succeeds

pub creation_succeeds : is_some (new_source numbers printer services voice start) ≡ true
unfolding new_source new_source_on announcements publish_all publish publish_to deliver add_source
    Scene.receive Scene.new_source Scene.set_source_member Renderer.receive Renderer.set_member
    Renderer.get_source Network.receive Network.message find insert modify eq_text
creation_succeeds = refl

pub created : (c : Controller ℕ) × (new_source numbers printer services voice start ≡ some c)
created = value (new_source numbers printer services voice start) creation_succeeds

pub known : find 1 one_scene.source_map ≡ some (fresh numbers 0)
unfolding Scene.receive Scene.new_source find insert
known = refl

pub unknown : find 5 one_scene.source_map ≡ none
unfolding Scene.receive Scene.new_source find insert
unknown = refl

abbrev pub missing_deletion : Event ℕ
missing_deletion = Event.delete_source 5

pub refused : Renderer.receive missing_deletion one_renderer ≡ none
unfolding add_source Renderer.receive Renderer.get_source Renderer.rem_source find insert
refused = refl

pub new_client : ¬ Listens (network 8) one.subscribers
new_client l = ground (arith, l)

pub line_read : read_model (codes "line") ≡ some Model.line
unfolding read_model eq_text
line_read = refl

-- <source id="5"/> in a <delete> element
abbrev pub wrong_child : Child
wrong_child = record {
  name = codes "source";
  attribute = λ a. if eq_text a (codes "id") then 5 ∷ [] else [];
}

pub wrong_child_name : eq_text wrong_child.name (codes "source") ≡ true
unfolding eq_text
wrong_child_name = refl

pub wrong_child_id : readers.read_id (wrong_child.attribute (codes "id")) ≡ some 5
unfolding eq_text
wrong_child_id = refl

-- Witnesses.
