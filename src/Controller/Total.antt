-- ===== src/Controller/Total.antt =====
-- A publication comes to an end: the only thing that can go wrong is the deletion of a source that
-- does not exist.
use ssr_pre.Common.{
  Bool, ℕ, Bool, true, false, ◌≡◌, refl, sym, List, [], ◌∷◌, none, some, Option-cases, inl, inr,
  subst, ◌≢◌, ◌==◌, if◌then◌else◌,
}
use ssr_pre.Common.Assoc.{Map, find, insert, find-insert}
use ssr_pre.Geometry.{Floats}
use ssr_pre.Subscriber.{Event}
use ssr_pre.Scene
use ssr_pre.Renderer
use ssr_pre.Renderer.Lookup.{receive-none}
use ssr_pre.Network
use ssr_pre.Network.{Printer, Network}
use ssr_pre.Controller.{Controller, Handle, network, deliver, publish_to, publish}
use ssr_pre.Controller.Sync.{Extent, Match}
use ssr_pre.Controller.Publish.{Synced, OnlyNetworks}
use ssr_pre.Controller.Register.{Match-none}

-- The object of every network subscriber of the list exists.
abbrev pub AllKnown : {F : Type 0} → List Handle → Map (Network F) → Type 0
AllKnown [] m = Unit
AllKnown {F = F} (network i ∷ hs) m = ((n : Network F) × (find i m ≡ some n)) × AllKnown hs m
AllKnown (_ ∷ hs) m = AllKnown hs m

module _ {F : Type 0} where
  insert-Known :
      (i j : ℕ) (n n' : Network F) (m : Map (Network F))
      → find j m ≡ some n
      → (k : Network F) × (find j (insert i n' m) ≡ some k)
  insert-Known i j n n' m h = rw (find-insert j i n' m) (either (i == j))
    where
      either : (b : Bool) → (k : Network F) × ((if b then some n' else find j m) ≡ some k)
      either true = (n', refl)
      either false = (n, h)

  pub insert-AllKnown :
      (i : ℕ) (n' : Network F) (hs : List Handle) (m : Map (Network F))
      → AllKnown hs m
      → AllKnown hs (insert i n' m)
  insert-AllKnown i n' [] m k = tt
  insert-AllKnown i n' (Handle.scene ∷ hs) m k = insert-AllKnown i n' hs m k
  insert-AllKnown i n' (Handle.renderer ∷ hs) m k = insert-AllKnown i n' hs m k
  insert-AllKnown i n' (network j ∷ hs) m ((n, h), k) =
      (insert-Known i j n n' m h, insert-AllKnown i n' hs m k)

module _ {F : Type 0} (fl : Floats F) (pr : Printer F) where
  pub publish_to-total :
      (e : Event F) (hs : List Handle) (c : Controller F)
      → OnlyNetworks hs
      → AllKnown hs c.networks
      → (c' : Controller F) × (publish_to fl pr e hs c ≡ some c')
  unfolding publish_to deliver
  publish_to-total e [] c o k = (c, refl)
  publish_to-total e (Handle.scene ∷ hs) c o k = absurd o
  publish_to-total e (Handle.renderer ∷ hs) c o k = absurd o
  publish_to-total e (network i ∷ hs) c o ((n, known), k) =
      let (n', previous) = Network.receive fl pr e c.previous_state n in
      rw (known, deliver)
        (publish_to-total e hs
          (record c { networks = insert i n' c.networks; previous_state = previous }) o
          (insert-AllKnown i n' hs c.networks k))

  -- A publication returns and no assertion fails, if the Controller is in its state of agreement,
  -- all network subscribers exist, and the event is not the deletion of a source that the Scene
  -- does not know.
  pub publish-total :
      {ext : Extent} (e : Event F) (c : Controller F) (v : Synced ext c)
      → AllKnown v.rest c.networks
      → ((id : ℕ) → e ≡ Event.delete_source id → find id c.scene.source_map ≢ none)
      → (c' : Controller F) × (publish fl pr e c ≡ some c')
  unfolding publish publish_to deliver
  publish-total e c v known exists = elim (Option-cases (Renderer.receive e c.renderer)) [
    | inl failed ↦
        let (id, deletion, missing) = receive-none e c.renderer v.agree.order failed in
        absurd (
          exists id deletion (
            Match-none fl pr (find id c.scene.source_map)
              (subst (Match (find id c.scene.source_map)) missing (v.agree.sources id))))
    | inr (r, done) ↦
        subst (λ hs. (c' : Controller F) × (publish_to fl pr e hs c ≡ some c')) (sym v.listening)
          (rw (done) (
            publish_to-total e v.rest
              (record c { scene = Scene.receive fl e c.scene; renderer = r }) v.only known))
  ]
