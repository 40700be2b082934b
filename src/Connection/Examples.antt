-- ===== src/Connection/Examples.antt =====
-- A client that sends two packets in pieces.
use ssr_pre.Common.{ℕ, ◌≡◌, refl, true, false, List, [], ◌∷◌, none, some, ◌⊎◌, arith}
use ssr_pre.Common.Text.{Text, codes}
use ssr_pre.Subscriber.{Event}
use ssr_pre.Controller.{publish}
use ssr_pre.Controller.Loading.Sample.{loader}
use ssr_pre.Controller.Sample.{numbers, printer, services, start, idle}
use ssr_pre.Connection.{
  Connection, World, Peer, getline, is_complete, on_socket, handle, read_handler, create, destroy,
  Step, arrives, reads, Run, ends, steps,
}
use ssr_pre.Controller.{subscribe}
use ssr_pre.Controller.Saving.{get_scene_as_xml, add_sources}
use ssr_pre.CommandParser.Examples.{is_some, value}
use ssr_pre.Connection
use ssr_pre.Connection.Framing.{split}
use ssr_pre.Connection.Running.{Run-packets, Run-is_complete}
use ssr_pre.Connection.Lifetime.{publish-destroy}

-- No text is a request.
abbrev pub silent : Peer ℕ
silent = record { load_request = λ t. none }

abbrev listening : Text → List Text → World ℕ
listening buffer commands = record {
  connection = record { streambuf = buffer; reading = true; waiting = true; commands = commands };
  controller = start;
}

read_ab :
    read_handler numbers printer loader services silent 7 false
      (listening (97 ∷ 98 ∷ 0 ∷ 99 ∷ []) [])
    ≡ some (listening (99 ∷ []) (codes "ab" ∷ []))
unfolding read_handler handle getline
read_ab = refl

-- The bytes of "ab", a zero byte and "c" arrive in two pieces.
pieces :
    Run numbers printer loader services silent 7
      (listening (99 ∷ []) (codes "ab" ∷ []))
      (listening [] [])
      (97 ∷ 98 ∷ 0 ∷ 99 ∷ [])
pieces =
    steps (listening [] []) (listening (97 ∷ []) []) (97 ∷ []) (98 ∷ 0 ∷ 99 ∷ []) (arrives refl) (
      steps (listening (97 ∷ []) []) (listening (97 ∷ 98 ∷ 0 ∷ 99 ∷ []) []) (98 ∷ 0 ∷ 99 ∷ []) []
        (arrives refl)
        (steps (listening (97 ∷ 98 ∷ 0 ∷ 99 ∷ []) []) (listening (99 ∷ []) (codes "ab" ∷ [])) [] []
          (reads refl refl refl read_ab) ends))

Run-packets_example :
    (codes "ab" ∷ (split (99 ∷ []) []).0, (split (99 ∷ []) []).1) ≡ split (97 ∷ 98 ∷ 0 ∷ 99 ∷ []) []
Run-packets_example =
    Run-packets numbers printer loader services silent 7 (listening (99 ∷ []) (codes "ab" ∷ []))
      (listening [] []) (97 ∷ 98 ∷ 0 ∷ 99 ∷ []) refl refl pieces

Run-is_complete_example :
    (u : World ℕ) × Run numbers printer loader services silent 7 u (listening (97 ∷ 0 ∷ []) []) []
    × ((is_complete u.connection.streambuf ≡ false)
        ⊎ ((is_complete u.connection.streambuf ≡ true)
            × (read_handler numbers printer loader services silent 7 false u ≡ none)))
Run-is_complete_example =
    Run-is_complete numbers printer loader services silent 7 (listening (97 ∷ 0 ∷ []) []) refl

starts :
    is_some (
      Connection.start numbers printer loader services silent 8
        (create numbers printer loader services silent 8 idle start))
    ≡ true
unfolding Connection.start create subscribe get_scene_as_xml add_sources
starts = refl

connected :
    (w : World ℕ) × (Connection.start numbers printer loader services silent 8
        (create numbers printer loader services silent 8 idle start)
      ≡ some w)
connected =
    value
      (Connection.start numbers printer loader services silent 8
        (create numbers printer loader services silent 8 idle start))
      starts

publish-destroy_example :
    publish numbers printer
      (Event.set_processing_state true)
      (destroy numbers printer loader services silent 8 connected.0.controller)
    ≡ none
publish-destroy_example =
    publish-destroy numbers printer loader services silent 8 idle (Event.set_processing_state true)
      start connected.0 (λ l. ground (arith, l)) connected.1
