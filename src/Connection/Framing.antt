-- ===== src/Connection/Framing.antt =====
-- The packets of a connection, and a description of them that does not speak of buffers.
use ssr_pre.Common.{
  ◌≡◌, refl, sym, ap, ◌∙◌, true, false, List, [], ◌∷◌, ◌++◌, arith, ◌==◌, append_assoc, append-nil,
}
use ssr_pre.Common.Text.{Text}
use ssr_pre.Connection.{getline, is_complete, on_socket}

-- All packets of the bytes that a client sends, and what follows the last zero byte. `packet` is the part
-- of a packet that came before.
unfoldable pub split : Text → Text → List Text × Text
split [] packet = ([], packet)
split (c ∷ s) packet = elim (c == 0) [
  | true ↦ (packet ∷ (split s []).0, (split s []).1)
  | false ↦ split s (packet ++ c ∷ [])
]

pub split-append :
    (s t packet : Text)
    → split (s ++ t) packet
      ≡ ((split s packet).0 ++ (split t (split s packet).1).0, (split t (split s packet).1).1)
unfolding split
split-append [] t packet = refl
split-append (c ∷ s) t packet =
    ground (arith, split-append s t [], split-append s t (packet ++ c ∷ []))

pub split-getline :
    (s packet : Text)
    → is_complete s ≡ true
    → split s packet
      ≡ ((packet ++ (getline s).0) ∷ (split (getline s).1 []).0, (split (getline s).1 []).1)
unfolding split getline
split-getline [] packet h = ground (arith, h)
split-getline (c ∷ s) packet h = ground (
  arith,
  h,
  append-nil packet,
  split-getline s (packet ++ c ∷ []),
  append_assoc packet (c ∷ []) (getline s).0,
)

-- A text without a zero byte holds no packet.
pub split_incomplete :
    (s packet : Text) → is_complete s ≡ false → split s packet ≡ ([], packet ++ s)
unfolding split
split_incomplete [] packet h = ap (λ r. ([], r)) (sym (append-nil packet))
split_incomplete (c ∷ s) packet h =
    ground (arith, h, split_incomplete s (packet ++ c ∷ []), append_assoc packet (c ∷ []) s)

abbrev pub NoneComplete : List Text → Type 0
NoneComplete [] = Unit
NoneComplete (t ∷ ts) = (is_complete t ≡ false) × NoneComplete ts

split_packet :
    (t rest packet : Text)
    → is_complete t ≡ false
    → split (t ++ (0 ∷ rest)) packet ≡ ((packet ++ t) ∷ (split rest []).0, (split rest []).1)
unfolding split
split_packet [] rest packet h = ground (arith, append-nil packet)
split_packet (c ∷ t) rest packet h =
    ground (arith, h, split_packet t rest (packet ++ c ∷ []), append_assoc packet (c ∷ []) t)

-- Texts without zero bytes that are written to a socket are the packets of its bytes.
pub split-on_socket : (ts : List Text) → NoneComplete ts → split (on_socket ts) [] ≡ (ts, [])
unfolding on_socket
split-on_socket [] h = unfold split in refl
split-on_socket (t ∷ ts) (h, hs) =
    split_packet t (on_socket ts) [] h ∙ ap (λ r. (t ∷ r.0, r.1)) (split-on_socket ts hs)
