-- ===== src/Server/Refusing.antt =====
-- What an accept that ends with an error does to the server.
use mathlib.Core.Option.{some-injective}
use ssr_pre.Common.{ℕ, ◌≡◌, refl, sym, subst, ◌∙◌, Bool, true, false, none, some, if◌then◌else◌}
use ssr_pre.Common.Assoc.{find, find-insert_kept, find-erase_kept}
use ssr_pre.Geometry.{Floats}
use ssr_pre.Network.{Printer}
use ssr_pre.Controller.{Services}
use ssr_pre.Controller.Loading.{Loader}
use ssr_pre.Connection.{Connection, Peer}
use ssr_pre.Server.{
  Server, handle_accept, start, Turn, starts, begins, accepts, refuses, works, leaves, elsewhere,
  stops, Serves, ends, turns,
}

-- No client is waited for, and the connections of `s` are all there are.
pub record Closed {F : Type 0} (s v : Server F) : Type 0 where
  pub nobody : v.pending ≡ none
  pub entered : v.entered ≡ true
  pub old : (j : ℕ) → find j s.connections ≡ none → find j v.connections ≡ none

module _ {F : Type 0} (fl : Floats F) (pr : Printer F) (ld : Loader F) (sv : Services)
    (peer : Peer F) where
  Closed-kept :
      (s u v : Server F)
      → v.pending ≡ u.pending
      → v.entered ≡ u.entered
      → ((j : ℕ) → find j u.connections ≡ none → find j v.connections ≡ none)
      → Closed s u
      → Closed s v
  Closed-kept s u v p e kept closed = record {
    nobody = p ∙ closed.nobody;
    entered = e ∙ closed.entered;
    old = λ j missing. kept j (closed.old j missing);
  }

  stopped-Closed :
      (b : Bool) (s u : Server F)
      → Closed s u
      → Closed s (if b then record u { stopped = true } else u)
  stopped-Closed true s u closed =
      Closed-kept s u (record u { stopped = true }) refl refl (λ j h. h) closed
  stopped-Closed false s u closed = closed

  Turn-Closed : (s u v : Server F) → Turn fl pr ld sv peer true u v → Closed s u → Closed s v
  Turn-Closed s u v (starts e) closed =
      subst (Closed s) (sym e)
        (Closed-kept s u (start fl pr ld sv peer u) refl refl (λ j h. h) closed)
  Turn-Closed s u v (begins thread early e) closed =
      let clash : true ≡ false = sym closed.entered ∙ early in cc
  Turn-Closed s u v (accepts i connection live p h) closed =
      let e : none ≡ some (i, connection) = sym closed.nobody ∙ p in cc
  Turn-Closed s u v (refuses i connection may live p h) closed =
      let e : none ≡ some (i, connection) = sym closed.nobody ∙ p in cc
  Turn-Closed s u v (works i connection bytes w live found step e) closed =
      subst (Closed s) (sym e) (
        Closed-kept s u _ refl refl (find-insert_kept i connection w.connection u.connections found)
          closed)
  Turn-Closed s u v (leaves i connection found e) closed =
      subst (Closed s) (sym e)
        (Closed-kept s u _ refl refl (find-erase_kept i u.connections) closed)
  Turn-Closed s u v (elsewhere c e) closed =
      subst (Closed s) (sym e)
        (Closed-kept s u (record u { controller = c }) refl refl (λ j h. h) closed)
  Turn-Closed s u v (stops e) closed =
      subst (Closed s) (sym e) (stopped-Closed u.network_thread s u closed)

  Serves-Closed : (s v u : Server F) → Serves fl pr ld sv peer true v u → Closed s u → Closed s v
  Serves-Closed s v u ends closed = closed
  Serves-Closed s v _ (turns u w turn rest) closed =
      Serves-Closed s v w rest (Turn-Closed s u w turn closed)

  refused-Closed :
      (s u : Server F) (i : ℕ) (connection : Connection)
      → s.entered ≡ true
      → handle_accept fl pr ld sv peer i connection true s ≡ some u
      → Closed s u
  unfolding handle_accept
  refused-Closed s u i connection entered h =
      subst (Closed s) (some-injective _ _ h)
        (record { nobody = refl; entered = entered; old = λ j missing. missing })

  -- Once an accept has ended with an error while the server runs, no client is waited for any
  -- more, and no connection is there that was not there at that time, whatever happens
  -- afterwards.
  pub Serves-refused :
      (s u v : Server F) (i : ℕ) (connection : Connection)
      → s.entered ≡ true
      → handle_accept fl pr ld sv peer i connection true s ≡ some u
      → Serves fl pr ld sv peer true v u
      → (v.pending ≡ none) × ((j : ℕ) → find j s.connections ≡ none → find j v.connections ≡ none)
  Serves-refused s u v i connection entered h serves =
      let closed = Serves-Closed s v u serves (refused-Closed s u i connection entered h) in
      (closed.nobody, closed.old)
