-- ===== src/Network.antt =====
-- src/boostnetwork/networksubscriber.cpp: the subscriber of a network client. A message is the text
-- that is handed to Connection::write().
pub mod Messages
use ssr_pre.Common.{ℕ, Bool, true, false, not, List, [], ◌∷◌, ◌++◌, if◌then◌else◌}
use ssr_pre.Common.Text.{Text, codes, eq_text}
use ssr_pre.Common.Assoc.{Map, insert, erase}
use ssr_pre.Geometry.{Floats, Position, Orientation}
use ssr_pre.Source.{Model, print_model}
use ssr_pre.Subscriber.{Event}

-- apf::str::A2S() of a float, of an integer and of a bool, as the library prints them.
pub record Printer (F : Type 0) : Type 0 where
  pub show_float : F → Text
  pub show_int : ℕ → Text
  pub show_bool : Bool → Text

-- operator== of two bool
abbrev pub same_bool : Bool → Bool → Bool
same_bool true b = b
same_bool false b = not b

pub record Network (F : Type 0) : Type 0 where
  pub source_levels : Map F
  pub master_level : F
  pub sent : List Text

module _ {F : Type 0} (fl : Floats F) (pr : Printer F) where
  open pr use {show_float, show_int, show_bool}

  source_element : ℕ → Text → Text
  source_element id rest = codes "<update><source id='" ++ show_int id ++ rest

  abbrev position_text : Position F → Text
  position_text p =
      codes "<position x='" ++ show_float p.x ++ codes "' y='" ++ show_float p.y ++ codes "'/>"

  abbrev orientation_text : Orientation F → Text
  orientation_text o = codes "<orientation azimuth='" ++ show_float o.azimuth ++ codes "'/>"

  levels_text : List F → Text
  levels_text [] = []
  levels_text (l ∷ ls) = show_float l ++ codes " " ++ levels_text ls

  -- The message of an event; the list is empty for the events that are not passed on.
  unfoldable pub message : Event F → List Text
  unfolding source_element levels_text
  message (Event.new_source id) = source_element id (codes "'/></update>") ∷ []
  message (Event.delete_source id) =
      (codes "<update><delete><source id='"
        ++ show_int id
        ++ codes "' />"
        ++ codes "</delete></update>")
      ∷ []
  message Event.delete_all_sources = codes "<update><delete><source id='0'/></delete></update>" ∷ []
  message (Event.set_source_position id p) =
      source_element id (codes "'>" ++ position_text p ++ codes "</source></update>") ∷ []
  message (Event.set_source_position_fixed id fixed) =
      source_element id
        (codes "'><position fixed='" ++ show_bool fixed ++ codes "'/></source></update>")
      ∷ []
  message (Event.set_source_orientation id o) =
      source_element id (codes "'>" ++ orientation_text o ++ codes "</source></update>") ∷ []
  message (Event.set_source_gain id gain) =
      source_element id
        (codes "' volume='" ++ show_float (fl.linear_to_db gain) ++ codes "'/></update>")
      ∷ []
  message (Event.set_source_mute id mute) =
      source_element id (codes "' mute='" ++ show_bool mute ++ codes "'/></update>") ∷ []
  message (Event.set_source_model id model) =
      if eq_text (print_model model) []
      then []
      else source_element id (codes "' model='" ++ print_model model ++ codes "'/></update>") ∷ []
  message (Event.set_source_file_length id length) =
      source_element id (codes "' file_length='" ++ show_int length ++ codes "'/></update>") ∷ []
  message (Event.set_reference_position p) =
      (codes "<update><reference>" ++ position_text p ++ codes "</reference></update>") ∷ []
  message (Event.set_reference_orientation o) =
      (codes "<update><reference>" ++ orientation_text o ++ codes "</reference></update>") ∷ []
  message (Event.set_reference_offset_position p) =
      (codes "<update><reference_offset>"
        ++ position_text p
        ++ codes "</reference_offset></update>")
      ∷ []
  message (Event.set_reference_offset_orientation o) =
      (codes "<update><reference_offset>"
        ++ orientation_text o
        ++ codes "</reference_offset></update>")
      ∷ []
  message (Event.set_master_volume volume) =
      (codes "<update><scene volume='"
        ++ show_float (fl.linear_to_db volume)
        ++ codes "'/></update>")
      ∷ []
  message (Event.set_source_output_levels id levels) =
      source_element id (codes "' output_level='" ++ levels_text levels ++ codes "'/></update>")
      ∷ []
  message _ = []

  -- set_transport_state(); the flag is the function's static variable, of which there is one for all
  -- subscribers.
  unfoldable pub transport_message : Bool → Bool → List Text
  transport_message previous playing =
      if same_bool playing previous
      then []
      else (codes "<update><state transport='"
          ++ (if playing then codes "start" else codes "stop")
          ++ codes "'/></update>")
        ∷ []

  levels_messages : Map F → Text
  levels_messages [] = []
  levels_messages ((id, level) ∷ m) =
      codes "<source id='"
      ++ show_int id
      ++ codes "' level='"
      ++ show_float (fl.linear_to_db level)
      ++ codes "'/>"
      ++ levels_messages m

  unfoldable pub send_levels : Network F → Network F
  unfolding levels_messages
  send_levels n = record n {
    sent =
        n.sent ++ (codes "<update>" ++ levels_messages n.source_levels ++ codes "</update>") ∷ [];
  }

  -- The overridden functions of Subscriber, with the static variable of set_transport_state().
  unfoldable pub receive : Event F → Bool → Network F → Network F × Bool
  unfolding message transport_message
  receive (Event.delete_source id) previous n = (
    record n {
      source_levels = erase id n.source_levels;
      sent = n.sent ++ message (Event.delete_source id);
    },
    previous,
  )
  receive Event.delete_all_sources previous n =
      (record n { source_levels = []; sent = n.sent ++ message Event.delete_all_sources }, previous)
  receive (Event.set_source_signal_level id level) previous n =
      (record n { source_levels = insert id level n.source_levels }, previous)
  receive (Event.set_master_signal_level level) previous n =
      (record n { master_level = level }, previous)
  receive (Event.set_transport_state playing position) previous n =
      (record n { sent = n.sent ++ transport_message previous playing }, playing)
  receive e previous n = (record n { sent = n.sent ++ message e }, previous)
