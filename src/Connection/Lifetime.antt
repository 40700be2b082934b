-- ===== src/Connection/Lifetime.antt =====
-- A client that connects and leaves again.
use mathlib.Core.Option.{some-injective}
use ssr_pre.Common.{
  ℕ, ◌≡◌, refl, sym, ap, subst, ◌∙◌, true, List, [], ◌∷◌, ◌++◌, Option, none, some, arith,
  Option-cases, inl, inr,
}
use ssr_pre.Common.Text.{Text}
use ssr_pre.Common.Assoc.{find, insert, find-insert, find-erase}
use ssr_pre.Geometry.{Floats}
use ssr_pre.Subscriber.{Event}
use ssr_pre.Renderer
use ssr_pre.Network
use ssr_pre.Network.{Network, Printer}
use ssr_pre.Controller.{
  std_remove, Controller, Services, Handle, network, deliver, publish_to, publish, subscribe,
  unsubscribe, same_handle,
}
use ssr_pre.Controller.Subscribers.{Listens, unsubscribe-subscribe}
use ssr_pre.Controller.Publish.{>>=-eq-some}
use ssr_pre.Controller.Loading.{Loader}
use ssr_pre.Controller.Saving.{get_scene_as_xml}
use ssr_pre.Connection.{World, Peer, write, create, start, destroy}

module _ {F : Type 0} (fl : Floats F) (pr : Printer F) where
  delivered_missing :
      (i : ℕ) (e : Event F) (j : ℕ) (c c' : Controller F)
      → (¬ (same_handle (network j) (network i) ≡ true))
      → find i c.networks ≡ none
      → (o : Option (Network F))
      → elim o [
        | none ↦ none
        | some n ↦
            let (n', previous) = Network.receive fl pr e c.previous_state n in
            some (record c { networks = insert j n' c.networks; previous_state = previous })
      ]
        ≡ some c'
      → find i c'.networks ≡ none
  delivered_missing i e j c c' other gone none k = cc
  delivered_missing i e j c c' other gone (some n) k =
      let received = Network.receive fl pr e c.previous_state n in
      subst (λ c'. find i c'.networks ≡ none) (some-injective _ _ k)
        (find-insert i j received.0 c.networks ∙ ground (arith, other, gone))

  deliver_missing :
      (i : ℕ) (e : Event F) (h : Handle) (c c' : Controller F)
      → (¬ (same_handle h (network i) ≡ true))
      → find i c.networks ≡ none
      → deliver fl pr e h c ≡ some c'
      → find i c'.networks ≡ none
  unfolding deliver
  deliver_missing i e Handle.scene c c' other gone k =
      subst (λ c'. find i c'.networks ≡ none) (some-injective _ _ k) gone
  deliver_missing i e Handle.renderer c c' other gone k =
      let (r, received, last) =
        >>=-eq-some (Renderer.receive e c.renderer) (λ r. some (record c { renderer = r })) k in
      subst (λ c'. find i c'.networks ≡ none) (some-injective _ _ last) gone
  deliver_missing i e (network j) c c' other gone k =
      delivered_missing i e j c c' other gone (find j c.networks) k

  -- A handle without its object behind other handles.
  publish_to_missing :
      (i : ℕ) (e : Event F) (hs : List Handle) (c : Controller F)
      → (¬ Listens (network i) hs)
      → find i c.networks ≡ none
      → publish_to fl pr e (hs ++ network i ∷ []) c ≡ none
  unfolding publish_to deliver
  publish_to_missing i e [] c n gone = rw (gone, publish_to, deliver) refl
  publish_to_missing i e (h ∷ hs) c n gone = elim (Option-cases (deliver fl pr e h c)) [
    | inl failed ↦ rw failed refl
    | inr (c1, first) ↦ rw first (
        publish_to_missing i e hs c1 (λ l. n (inr l))
          (deliver_missing i e h c c1 (λ same. n (inl same)) gone first))
  ]

  -- The end of a connection whose controller has the same subscribers.
  left_then :
      (ld : Loader F) (sv : Services) (peer : Peer F) (i : ℕ) (e : Event F) (c d : Controller F)
      → (¬ Listens (network i) c.subscribers)
      → d.subscribers ≡ (subscribe (network i) c).subscribers
      → publish fl pr e (destroy fl pr ld sv peer i d) ≡ none
  unfolding publish destroy subscribe unsubscribe
  left_then ld sv peer i e c d listens same =
      let left = destroy fl pr ld sv peer i d in
      let still : left.subscribers ≡ c.subscribers ++ network i ∷ [] =
        ap (std_remove (network i)) same
        ∙ ap (λ d. d.subscribers) (unsubscribe-subscribe (network i) c listens) in
      subst (λ hs. publish_to fl pr e hs left ≡ none) (sym still)
        (publish_to_missing i e c.subscribers left listens
          (find-erase i i (unsubscribe (network i) d).networks ∙ ground arith))

  start_then :
      (ld : Loader F) (sv : Services) (peer : Peer F) (i : ℕ) (e : Event F) (w v : World F)
      (o : Option Text)
      → (¬ Listens (network i) w.controller.subscribers)
      → elim o [
        | none ↦ none
        | some whole_scene ↦ some (record {
          connection = record w.connection { reading = true; waiting = true };
          controller = write fl pr ld sv peer i whole_scene (subscribe (network i) w.controller);
        })
      ]
        ≡ some v
      → publish fl pr e (destroy fl pr ld sv peer i v.controller) ≡ none
  unfolding write
  start_then ld sv peer i e w v none listens h = cc
  start_then ld sv peer i e w v (some t) listens h =
      left_then ld sv peer i e w.controller v.controller listens
        (sym (ap (λ v. v.controller.subscribers) (some-injective _ _ h)))

  -- After a client has connected, its start has returned and it has left again, the next
  -- publication fails, whatever the event, if its subscriber was not listed before.
  pub publish-destroy :
      (ld : Loader F) (sv : Services) (peer : Peer F) (i : ℕ) (n : Network F) (e : Event F)
      (c : Controller F) (w : World F)
      → (¬ Listens (network i) c.subscribers)
      → start fl pr ld sv peer i (create fl pr ld sv peer i n c) ≡ some w
      → publish fl pr e (destroy fl pr ld sv peer i w.controller) ≡ none
  unfolding start create
  publish-destroy ld sv peer i n e c w listens h =
      start_then ld sv peer i e (create fl pr ld sv peer i n c) w
        (get_scene_as_xml fl pr ld.writer ld.cwd c.scene) listens h
