-- ===== src/Connection/Running.antt =====
-- What a connection does with the bytes that arrive, however the steps are ordered.
use mathlib.Core.Option.{some-injective}
use ssr_pre.Common.{
  ℕ, zero, suc, ◌≡◌, refl, sym, ap, ◌∙◌, true, false, List, [], ◌∷◌, ◌++◌, none, some, arith,
  append_assoc, append-nil, length, Bool-cases, Option-cases, inl, inr, ◌⊎◌, ◌<◌, ◌≤◌,
}
use ssr_pre.Common.Text.{Text}
use ssr_pre.Geometry.{Floats}
use ssr_pre.Network.{Printer}
use ssr_pre.Controller.{Services}
use ssr_pre.Controller.Publish.{>>=-eq-some}
use ssr_pre.Controller.Loading.{Loader}
use ssr_pre.Connection.{
  World, Peer, getline, is_complete, handle, read_handler, timeout_handler, Step, arrives, reads,
  fails, ticks, elsewhere, Run, ends, steps,
}
use ssr_pre.Connection.Framing.{split, split-append, split-getline}

module _ {F : Type 0} (fl : Floats F) (pr : Printer F) (ld : Loader F) (sv : Services)
    (peer : Peer F) (i : ℕ) where
  -- The packets that are handled, or wait in the buffer and the bytes to come, and what is left.
  abbrev pub expected : World F → Text → List Text × Text
  expected w bytes =
      let s = split (w.connection.streambuf ++ bytes) [] in (w.connection.commands ++ s.0, s.1)

  -- What read_handler() does when it returns.
  record Handled (w v : World F) : Type 0 where
    commands :
        v.connection.commands ≡ w.connection.commands ++ (getline w.connection.streambuf).0 ∷ []
    streambuf : v.connection.streambuf ≡ (getline w.connection.streambuf).1
    reading : v.connection.reading ≡ w.connection.reading

  read_handler-Handled :
      (w v : World F) → read_handler fl pr ld sv peer i false w ≡ some v → Handled w v
  unfolding read_handler
  read_handler-Handled w v h =
      let (c, handled, last) =
        >>=-eq-some (handle fl pr ld sv peer i (getline w.connection.streambuf).0 w.controller) _
          h in
      let e = sym (some-injective _ _ last) in
      record {
        commands = ap (λ v. v.connection.commands) e;
        streambuf = ap (λ v. v.connection.streambuf) e;
        reading = ap (λ v. v.connection.reading) e;
      }

  Handled-expected :
      (w v : World F) (rest : Text)
      → is_complete w.connection.streambuf ≡ true
      → Handled w v
      → expected w rest ≡ expected v rest
  Handled-expected w v rest full k =
      let s = w.connection.streambuf in
      let g = getline s in
      rw
        (
          k.commands,
          k.streambuf,
          split-append s rest [],
          split-append g.1 rest [],
          split-getline s [] full,
          append_assoc w.connection.commands (g.0 ∷ [])
              ((split g.1 []).0 ++ (split rest (split g.1 []).1).0),
        )
        refl

  Step-expected :
      (w v : World F) (bytes rest : Text)
      → Step fl pr ld sv peer i w bytes v
      → expected w (bytes ++ rest) ≡ expected v rest
  unfolding timeout_handler read_handler
  Step-expected w v bytes rest (arrives e) =
      rw (e, append_assoc w.connection.streambuf bytes rest) refl
  Step-expected w v bytes rest (reads nothing reading full h) =
      rw nothing (Handled-expected w v rest full (read_handler-Handled w v h))
  Step-expected w v bytes rest (fails nothing reading h) =
      rw (nothing, sym (some-injective _ _ h)) refl
  Step-expected w v bytes rest (ticks true nothing waiting h) = rw (nothing, h) refl
  Step-expected w v bytes rest (ticks false nothing waiting h) = rw (nothing, h) refl
  Step-expected w v bytes rest (elsewhere c nothing h) = rw (nothing, h) refl

  Run-expected :
      (u w : World F) (bytes : Text)
      → Run fl pr ld sv peer i u w bytes
      → expected w bytes ≡ expected u []
  Run-expected u w bytes ends = refl
  Run-expected u w bytes (steps w' v some_bytes others s r) =
      Step-expected w v some_bytes others s ∙ Run-expected u v others r

  -- However bytes arrive and handlers, errors, the timer and other threads take turns, the
  -- packets that parse_cmd() was called with and those that wait in the buffer are the packets of
  -- all bytes, in their order, and the rest of the buffer is the rest of the bytes, if the
  -- connection starts with an empty buffer.
  pub Run-packets :
      (u w : World F) (bytes : Text)
      → w.connection.streambuf ≡ []
      → w.connection.commands ≡ []
      → Run fl pr ld sv peer i u w bytes
      → (
        u.connection.commands ++ (split u.connection.streambuf []).0,
        (split u.connection.streambuf []).1,
      )
        ≡ split bytes []
  Run-packets u w bytes no_bytes no_commands r =
      let start : expected w bytes ≡ split bytes [] = rw (no_bytes, no_commands) refl in
      let end : expected u [] ≡ (
        u.connection.commands ++ (split u.connection.streambuf []).0,
        (split u.connection.streambuf []).1,
      ) =
        rw (append-nil u.connection.streambuf) refl in
      sym end ∙ sym (Run-expected u w bytes r) ∙ start

  getline_shorter : (s : Text) → is_complete s ≡ true → length (getline s).1 < length s
  unfolding getline
  getline_shorter [] h = ground (arith, h)
  getline_shorter (c ∷ s) h = ground (arith, h, getline_shorter s)

  -- The world after the packets in the buffer, or the one in which parse_cmd() did not return.
  record Drained (w : World F) : Type 0 where
    last : World F
    run : Run fl pr ld sv peer i last w []
    result :
        (is_complete last.connection.streambuf ≡ false)
        ⊎ ((is_complete last.connection.streambuf ≡ true)
            × (read_handler fl pr ld sv peer i false last ≡ none))

  drain :
      (fuel : ℕ) (w : World F)
      → length w.connection.streambuf ≤ fuel
      → w.connection.reading ≡ true
      → Drained w
  drain zero w enough reading = record {
    last = w;
    run = ends;
    result = elim (Bool-cases (is_complete w.connection.streambuf)) [
      | inl full ↦ absurd (omega (arith, enough, getline_shorter w.connection.streambuf full))
      | inr done ↦ inl done
    ];
  }
  drain (suc fuel) w enough reading = elim (Bool-cases (is_complete w.connection.streambuf)) [
    | inr done ↦ record { last = w; run = ends; result = inl done }
    | inl full ↦ elim (Option-cases (read_handler fl pr ld sv peer i false w)) [
      | inl failed ↦ record { last = w; run = ends; result = inr (full, failed) }
      | inr (v, handled) ↦
          let k = read_handler-Handled w v handled in
          let shorter = getline_shorter w.connection.streambuf full in
          let rest =
            drain fuel v (rw k.streambuf (omega (arith, enough, shorter))) (k.reading ∙ reading) in
          record {
            last = rest.last;
            run = steps w v [] [] (reads refl reading full handled) rest.run;
            result = rest.result;
          }
    ]
  ]

  -- From any state in which the connection reads, its handlers lead, without further bytes, to
  -- one in which no complete packet waits, or to one in which read_handler() has a complete
  -- packet and does not return.
  pub Run-is_complete :
      (w : World F)
      → w.connection.reading ≡ true
      → (u : World F) × Run fl pr ld sv peer i u w []
        × ((is_complete u.connection.streambuf ≡ false)
            ⊎ ((is_complete u.connection.streambuf ≡ true)
                × (read_handler fl pr ld sv peer i false u ≡ none)))
  Run-is_complete w reading =
      let d = drain (length w.connection.streambuf) w (omega arith) reading in
      (d.last, d.run, d.result)
