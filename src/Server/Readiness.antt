-- ===== src/Server/Readiness.antt =====
-- The connection that a server waits with, through all turns without an accept that fails.
use mathlib.Core.Option.{some-injective}
use ssr_pre.Common.{
  ℕ, suc, ◌≡◌, ◌≤◌, ◌<◌, refl, sym, ap, subst, ◌∙◌, Bool, true, false, [], none, some, arith,
  if◌then◌else◌, Bool-cases, inl, inr, ◌==◌,
}
use ssr_pre.Common.Assoc.{find, insert, find-insert, find-insert_kept, find-erase_kept}
use ssr_pre.Geometry.{Floats}
use ssr_pre.Network.{Printer}
use ssr_pre.Controller.{Services}
use ssr_pre.Controller.Publish.{>>=-eq-some}
use ssr_pre.Controller.Loading.{Loader}
use ssr_pre.Connection
use ssr_pre.Connection.{Connection, World, Peer, create, destroy, write}
use ssr_pre.Server.{
  Server, start_accept, handle_accept, hold, world_of, start, run, Turn, starts, begins, accepts,
  refuses, works, leaves, elsewhere, stops, Serves, ends, turns,
}

-- A connection before its start.
abbrev pub untouched : Connection
untouched = record { streambuf = []; reading = false; waiting = false; commands = [] }

-- One connection is waited with, and its number and those above are in use nowhere else.
pub record Waits {F : Type 0} (s : Server F) : Type 0 where
  pub last : ℕ
  pub waiting : s.pending ≡ some (last, untouched)
  pub count : s.created ≡ suc last
  pub unused : (j : ℕ) → last ≤ j → find j s.connections ≡ none

-- Before run() there is nothing, afterwards a connection is waited with.
pub record Ready {F : Type 0} (s : Server F) : Type 0 where
  pub before : s.entered ≡ false → (s.created ≡ 0) × (s.pending ≡ none) × (s.connections ≡ [])
  pub after : s.entered ≡ true → Waits s

module _ {F : Type 0} (fl : Floats F) (pr : Printer F) (ld : Loader F) (sv : Services)
    (peer : Peer F) where
  start_accept-Waits :
      (s : Server F)
      → ((j : ℕ) → s.created ≤ j → find j s.connections ≡ none)
      → Waits (start_accept fl pr ld sv peer s)
  unfolding start_accept create
  start_accept-Waits s unused = record {
    last = s.created;
    waiting = refl;
    count = refl;
    unused = unused;
  }

  insert-unused :
      (s : Server F) (i : ℕ) (n : ℕ) (connection : Connection)
      → i < n
      → ((j : ℕ) → n ≤ j → find j s.connections ≡ none)
      → (j : ℕ) → n ≤ j
      → find j (insert i connection s.connections) ≡ none
  insert-unused s i n connection below unused j h =
      let other : (i == j) ≡ false = ground arith in
      find-insert j i connection s.connections
      ∙ (ap (λ b. if b then some connection else find j s.connections) other ∙ unused j h)

  Waits-alike :
      (s v : Server F)
      → v.pending ≡ s.pending
      → v.created ≡ s.created
      → ((j : ℕ) → find j s.connections ≡ none → find j v.connections ≡ none)
      → Waits s
      → Waits v
  Waits-alike s v p c kept w = record {
    last = w.last;
    waiting = p ∙ w.waiting;
    count = c ∙ w.count;
    unused = λ j h. kept j (w.unused j h);
  }

  Ready-alike :
      (s v : Server F)
      → v.entered ≡ s.entered
      → v.pending ≡ s.pending
      → v.created ≡ s.created
      → v.connections ≡ s.connections
      → Ready s
      → Ready v
  Ready-alike s v e p c same r = record {
    before = λ h. let (a, b, d) = r.before (sym e ∙ h) in (c ∙ a, p ∙ b, same ∙ d);
    after = λ h. Waits-alike s v p c (λ j none. ap (find j) same ∙ none) (r.after (sym e ∙ h));
  }

  -- A server with a connection has begun to run.
  Ready-entered :
      (s : Server F) (i : ℕ) (connection : Connection)
      → Ready s
      → find i s.connections ≡ some connection
      → s.entered ≡ true
  unfolding find
  Ready-entered s i connection r found = elim (Bool-cases s.entered) [
    | inl entered ↦ entered
    | inr early ↦ let (a, b, empty) = r.before early in let e = sym found ∙ ap (find i) empty in cc
  ]

  -- Changing or taking away a connection that is there.
  Ready-kept :
      (s v : Server F) (i : ℕ) (connection : Connection)
      → find i s.connections ≡ some connection
      → v.entered ≡ s.entered
      → v.pending ≡ s.pending
      → v.created ≡ s.created
      → ((j : ℕ) → find j s.connections ≡ none → find j v.connections ≡ none)
      → Ready s
      → Ready v
  Ready-kept s v i connection found e p c kept r =
      let entered = Ready-entered s i connection r found in
      record {
        before = λ h. let clash : true ≡ false = sym entered ∙ (sym e ∙ h) in cc;
        after = λ h. Waits-alike s v p c kept (r.after entered);
      }

  start_accept-hold :
      (s : Server F) (w : World F) (waits : Waits s)
      → Waits (
          start_accept fl pr ld sv peer
            (hold fl pr ld sv peer waits.last w (record s { pending = none })))
  start_accept-hold s w waits =
      start_accept-Waits (hold fl pr ld sv peer waits.last w (record s { pending = none })) (λ j h.
        insert-unused s waits.last (suc waits.last) w.connection (omega arith)
          (λ k above. waits.unused k (omega arith)) j (omega (arith, waits.count)))

  handle_accept-Waits :
      (s v : Server F) (waits : Waits s)
      → handle_accept fl pr ld sv peer waits.last untouched false s ≡ some v
      → Waits v × (v.entered ≡ s.entered)
  unfolding handle_accept start_accept
  handle_accept-Waits s v waits h =
      let (w, began, e) =
        >>=-eq-some
          (Connection.start fl pr ld sv peer waits.last (world_of fl pr ld sv peer untouched s))
          (λ w. some (
            start_accept fl pr ld sv peer
              (hold fl pr ld sv peer waits.last w (record s { pending = none }))))
          h in
      let same = some-injective _ _ e in
      (subst Waits same (start_accept-hold s w waits), sym (ap (λ v. v.entered) same))

  accepts-Ready :
      (s v : Server F) (i : ℕ) (connection : Connection)
      → Ready s
      → s.pending ≡ some (i, connection)
      → handle_accept fl pr ld sv peer i connection false s ≡ some v
      → Ready v
  accepts-Ready s v i connection r p h = elim (Bool-cases s.entered) [
    | inl entered ↦
        let waits = r.after entered in
        let same : (i, connection) ≡ (waits.last, untouched) =
          some-injective _ _ (sym p ∙ waits.waiting) in
        let (next, e) =
          handle_accept-Waits s v waits
            (subst (λ q. handle_accept fl pr ld sv peer q.0 q.1 false s ≡ some v) same h) in
        record {
          before = λ early. let clash : true ≡ false = sym entered ∙ (sym e ∙ early) in cc;
          after = λ _. next;
        }
    | inr early ↦ let (a, nobody, d) = r.before early in let e = sym p ∙ nobody in cc
  ]

  begins-Ready : (s : Server F) → Ready s → s.entered ≡ false → Ready (run fl pr ld sv peer s)
  unfolding run start_accept find
  begins-Ready s r early =
      let (a, b, empty) = r.before early in
      record {
        before = λ h. cc;
        after = λ _. start_accept-Waits (record s { entered = true }) (λ j h. ap (find j) empty);
      }

  stopped-Ready :
      (b : Bool) (s : Server F) → Ready s → Ready (if b then record s { stopped = true } else s)
  stopped-Ready true s r = Ready-alike s (record s { stopped = true }) refl refl refl refl r
  stopped-Ready false s r = r

  Turn-Ready : (s v : Server F) → Turn fl pr ld sv peer false s v → Ready s → Ready v
  Turn-Ready s v (starts e) r =
      subst Ready (sym e) (Ready-alike s (start fl pr ld sv peer s) refl refl refl refl r)
  Turn-Ready s v (begins thread early e) r = subst Ready (sym e) (begins-Ready s r early)
  Turn-Ready s v (accepts i connection live p h) r = accepts-Ready s v i connection r p h
  Turn-Ready s v (refuses i connection never live p h) r = cc
  Turn-Ready s v (works i connection bytes w live found step e) r = subst Ready (sym e) (
      Ready-kept s (hold fl pr ld sv peer i w s) i connection found refl refl refl
        (find-insert_kept i connection w.connection s.connections found) r)
  Turn-Ready s v (leaves i connection found e) r =
      subst Ready (sym e)
        (Ready-kept s _ i connection found refl refl refl (find-erase_kept i s.connections) r)
  Turn-Ready s v (elsewhere c e) r =
      subst Ready (sym e) (Ready-alike s (record s { controller = c }) refl refl refl refl r)
  Turn-Ready s v (stops e) r = subst Ready (sym e) (stopped-Ready s.network_thread s r)

  pub Serves-Ready : (v s : Server F) → Serves fl pr ld sv peer false v s → Ready s → Ready v
  Serves-Ready v s ends r = r
  Serves-Ready v _ (turns s u turn rest) r = Serves-Ready v u rest (Turn-Ready s u turn r)
