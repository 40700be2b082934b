-- ===== src/Network/Messages.antt =====
-- NetworkSubscriber::set_transport_state() of src/boostnetwork/networksubscriber.cpp, with its static
-- variable.
use ssr_pre.Common.{ℕ, ◌≡◌, refl, Bool, true, false, arith, append-nil}
use ssr_pre.Geometry.{Floats}
use ssr_pre.Subscriber.{Event}
use ssr_pre.Network.{Printer, Network, receive, transport_message, same_bool}

same_bool_refl : (b : Bool) → same_bool b b ≡ true
same_bool_refl true = refl
same_bool_refl false = refl

module _ {F : Type 0} (fl : Floats F) (pr : Printer F) where
  -- Of two network subscribers that are told the same transport state in turn, the second never
  -- sends a message.
  pub receive-transport_shared :
      (playing previous : Bool) (position : ℕ) (first second : Network F)
      → (receive fl pr
          (Event.set_transport_state playing position)
          (receive fl pr (Event.set_transport_state playing position) previous first).1
          second).0.sent
        ≡ second.sent
  unfolding receive transport_message
  receive-transport_shared playing previous position first second =
      ground (arith, same_bool_refl playing, append-nil second.sent)
