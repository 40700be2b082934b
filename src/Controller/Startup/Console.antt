-- ===== src/Controller/Startup/Console.antt =====
-- run() on the console: it ends with the first 'q', and never without one.
use mathlib.Core.Option.{some-injective}
use ssr_pre.Common.{
  passed, ℕ, zero, suc, ◌<◌, ◌≡◌, refl, ap, subst, ◌∙◌, Bool, true, false, not, List, [], ◌∷◌, ◌++◌,
  Option, none, some, arith, length, if◌then◌else◌, Bool-cases, inl, inr, ◌==◌,
}
use ssr_pre.Common.Text.{Text}
use ssr_pre.Geometry.{Floats}
use ssr_pre.Network.{Printer}
use ssr_pre.Publisher
use ssr_pre.Subscriber.{Event}
use ssr_pre.Controller.{Controller, Services, ◌>>=◌, start_processing, set_processing_state}
use ssr_pre.Controller.Calls.{perform, perform_all}
use ssr_pre.Controller.Loading.{Loader}
use ssr_pre.Controller.Publish.{>>=-eq-some}
use ssr_pre.Controller.Standing.{Standing, Stands, if-Stands}
use ssr_pre.Controller.Startup.{
  Host, Program, console, console_call, first_calls, run, configured, start_tracker,
}

-- The characters before the first 'q', if there is one.
unfoldable pub before_quit : Text → Option Text
before_quit [] = none
before_quit (c ∷ input) =
    let others = before_quit input in if c == b'q' then some [] else others >>= λ s. some (c ∷ s)

bind-none : {A B : Type 0} (o : Option A) (f : A → B) → (o >>= λ a. some (f a)) ≡ none → o ≡ none
bind-none none f h = refl
bind-none (some a) f h = cc

module _ {F : Type 0} (fl : Floats F) where
  -- The calls that characters other than 'q' lead to.
  unfoldable pub calls_of : Text → List (Publisher.Call F)
  calls_of [] = []
  calls_of (c ∷ s) = console_call fl c ++ calls_of s

  console-none : (fuel : ℕ) (input : Text) → before_quit input ≡ none → console fl fuel input ≡ none
  unfolding console before_quit
  console-none zero input e = refl
  console-none (suc fuel) [] e = console-none fuel [] refl
  console-none (suc fuel) (c ∷ input) e = elim (Bool-cases (c == b'q')) [
    | inl quit ↦
        let clash : some [] ≡ none =
          subst (λ b. (if b then some [] else before_quit input >>= λ s. some (c ∷ s)) ≡ none) quit
            e in
        cc
    | inr other ↦
        let left : (before_quit input >>= λ s. some (c ∷ s)) ≡ none =
          subst (λ b. (if b then some [] else before_quit input >>= λ s. some (c ∷ s)) ≡ none) other
            e in
        let ih = console-none fuel input (bind-none (before_quit input) (λ s. c ∷ s) left) in
        rw (other, ih) refl
  ]

  console-some :
      (fuel : ℕ) (input before : Text)
      → before_quit input ≡ some before
      → length input < fuel
      → console fl fuel input ≡ some (calls_of before)
  unfolding console before_quit calls_of
  console-some zero input before e h = absurd (omega (arith, h))
  console-some (suc fuel) [] before e h = cc
  console-some (suc fuel) (c ∷ input) before e h = elim (Bool-cases (c == b'q')) [
    | inl quit ↦
        let stopped : some [] ≡ some before =
          subst
            (λ b. (if b then some [] else before_quit input >>= λ s. some (c ∷ s)) ≡ some before)
            quit e in
        rw quit (ap (λ s. some (calls_of s)) (some-injective _ _ stopped))
    | inr other ↦
        let left : (before_quit input >>= λ s. some (c ∷ s)) ≡ some before =
          subst
            (λ b. (if b then some [] else before_quit input >>= λ s. some (c ∷ s)) ≡ some before)
            other e in
        let (s, found, same) = >>=-eq-some (before_quit input) (λ s. some (c ∷ s)) left in
        let ih = console-some fuel input s found (omega (arith, h)) in
        rw (other, ih) (ap (λ s. some (calls_of s)) (some-injective _ _ same))
  ]

  -- The calls of a console move nothing.
  module _ (pr : Printer F) (ld : Loader F) (sv : Services) where
    console_call-still :
        (ch : ℕ) (calls : List (Publisher.Call F)) (c : Controller F)
        → perform_all fl pr ld sv (console_call fl ch ++ calls) c ≡ perform_all fl pr ld sv calls c
    unfolding perform_all perform
    console_call-still ch calls c = elim (Bool-cases (ch == b'c')) [
      | inl e ↦ rw e refl
      | inr e ↦ rw e (elim (Bool-cases (ch == b'p')) [
        | inl f ↦ rw f refl
        | inr f ↦ rw f (elim (Bool-cases (ch == b'r')) [
          | inl g ↦ rw g refl
          | inr g ↦ rw g (elim (Bool-cases (ch == b's')) [ inl k ↦ rw k refl | inr k ↦ rw k refl ])
        ])
      ])
    ]

    calls_of-still : (s : Text) (c : Controller F) → perform_all fl pr ld sv (calls_of s) c ≡ some c
    unfolding calls_of perform_all
    calls_of-still [] c = refl
    calls_of-still (ch ∷ s) c = console_call-still ch (calls_of s) c ∙ calls_of-still s c

module _ {P F : Type 0} (fl : Floats F) (pr : Printer F) (ld : Loader F) (sv : Services)
    (host : Host F) where
  -- run() returns true, and the Controller stands as before.
  pub record Returns (fuel : ℕ) (input : Text) (p : Program P F) : Type 0 where
    pub after : Program P F
    pub returned : run fl pr ld sv host fuel input p ≡ some (true, after)
    pub standing : Standing after.controller

  -- The program with its tracker, and what follows the reading of the console.
  abbrev tracked : Program P F → Program P F
  tracked p = record p { tracker = start_tracker host p.conf.tracker p.conf.tracker_ports }

  abbrev performed_then : Program P F → List (Publisher.Call F) → Option (Bool × Program P F)
  performed_then p calls =
      perform_all fl pr (configured fl pr ld sv host p.conf) sv
        (first_calls fl ++ Publisher.transport_start ∷ calls) p.controller
      >>= λ c. some (true, record (tracked p) { controller = c })

  run-console :
      (fuel : ℕ) (input : Text) (p : Program P F)
      → host.activates ≡ true
      → p.conf.gui ≡ false
      → run fl pr ld sv host fuel input p ≡ (console fl fuel input >>= performed_then p)
  unfolding run
  run-console fuel input p active bare =
      passed (not host.activates) _ _ (ground arith) ∙ passed p.conf.gui _ _ bare

  begun-Returns :
      (fuel : ℕ) (input before : Text) (p : Program P F)
      → host.activates ≡ true
      → p.conf.gui ≡ false
      → console fl fuel input ≡ some (calls_of fl before)
      → Stands (start_processing fl pr p.controller)
      → Returns fuel input p
  unfolding perform_all perform
  begun-Returns fuel input before p active bare read (c, started, standing) =
      let commands = perform_all fl pr (configured fl pr ld sv host p.conf) sv in
      let others =
        Publisher.transport_locate (fl.lit 0) ∷ Publisher.transport_start ∷ calls_of fl before in
      let performed : commands (Publisher.start_processing ∷ others) p.controller ≡ some c =
        ap (λ o. o >>= commands others) started
        ∙ calls_of-still fl pr (configured fl pr ld sv host p.conf) sv before c in
      record {
        after = record (tracked p) { controller = c };
        returned =
            run-console fuel input p active bare
            ∙ ap (λ o. o >>= performed_then p) read
            ∙ ap (λ o. o >>= λ c. some (true, record (tracked p) { controller = c })) performed;
        standing = standing;
      }

  -- Without a GUI, run() returns true for any fuel above the length of what is typed, and the
  -- Controller stands as before, if a 'q' is typed; without one it does not return, whatever the
  -- fuel. This holds if the renderer can be activated and the Controller stands with all its
  -- network subscribers.
  pub run-before_quit :
      (input : Text) (p : Program P F)
      → host.activates ≡ true
      → p.conf.gui ≡ false
      → Standing p.controller
      → ((before : Text)
          → before_quit input ≡ some before
          → (fuel : ℕ) → length input < fuel
          → Returns fuel input p)
        × (before_quit input ≡ none → (fuel : ℕ) → run fl pr ld sv host fuel input p ≡ none)
  unfolding start_processing set_processing_state
  run-before_quit input p active bare standing = (
    λ before found fuel enough.
        begun-Returns fuel input before p active bare
          (console-some fl fuel input before found enough)
          (if-Stands fl pr (not p.controller.scene.processing_state)
            (Event.set_processing_state true) p.controller tt standing),
    λ missing fuel.
        run-console fuel input p active bare
        ∙ ap (λ o. o >>= performed_then p) (console-none fl fuel input missing),
  )
