-- ===== src/Controller/Publish.antt =====
-- What _publish() does to the Controller as it is set up: the Scene is the first subscriber, the
-- renderer the second, and all others are network clients.
use mathlib.Core.Option.{some-injective}
use ssr_pre.Common.{ℕ, ◌≡◌, refl, ◌∙◌, List, [], ◌∷◌, Option, none, some, arith, subst}
use ssr_pre.Geometry.{Floats}
use ssr_pre.Subscriber.{Event}
use ssr_pre.Scene.{Scene}
use ssr_pre.Scene
use ssr_pre.Renderer.{Renderer}
use ssr_pre.Renderer
use ssr_pre.Network.{Printer}
use ssr_pre.Controller.{
  Controller, Handle, network, ◌>>=◌, deliver, publish_to, publish, publish_all,
}
use ssr_pre.Controller.Sync.{Extent, Agree, IsChange, receive-Agree}

abbrev pub OnlyNetworks : List Handle → Type 0
OnlyNetworks [] = Unit
OnlyNetworks (network i ∷ hs) = OnlyNetworks hs
OnlyNetworks (_ ∷ hs) = ⊥

pub >>=-eq-some :
    {A B : Type 0} (m : Option A) (f : A → Option B) {b : B}
    → (m >>= f) ≡ some b
    → (a : A) × (m ≡ some a) × (f a ≡ some b)
>>=-eq-some (some a) f h = (a, refl, h)
>>=-eq-some none f h = cc

-- The parts of the Controller that a network client has no access to.
pub record SameCore {F : Type 0} (c c' : Controller F) : Type 0 where
  pub scene : c'.scene ≡ c.scene
  pub renderer : c'.renderer ≡ c.renderer
  pub subscribers : c'.subscribers ≡ c.subscribers

-- The Controller as its constructor and its clients leave it.
pub record Synced {F : Type 0} (ext : Extent) (c : Controller F) : Type 0 where
  pub rest : List Handle
  pub listening : c.subscribers ≡ Handle.scene ∷ Handle.renderer ∷ rest
  pub only : OnlyNetworks rest
  pub agree : Agree ext c.scene c.renderer

module _ {F : Type 0} (fl : Floats F) (pr : Printer F) where
  deliver-SameCore :
      (e : Event F) (i : ℕ) (c c' : Controller F)
      → deliver fl pr e (network i) c ≡ some c'
      → SameCore c c'
  unfolding deliver
  deliver-SameCore e i c c' h = ground arith

  publish_to-SameCore :
      (e : Event F) (hs : List Handle) (c c' : Controller F)
      → OnlyNetworks hs
      → publish_to fl pr e hs c ≡ some c'
      → SameCore c c'
  unfolding publish_to
  publish_to-SameCore e [] c c' o h = ground arith
  publish_to-SameCore e (Handle.scene ∷ hs) c c' o h = absurd o
  publish_to-SameCore e (Handle.renderer ∷ hs) c c' o h = absurd o
  publish_to-SameCore e (network i ∷ hs) c c' o h =
      let (c1, first, then_rest) =
        >>=-eq-some (deliver fl pr e (network i) c) (publish_to fl pr e hs) h in
      let a = deliver-SameCore e i c c1 first in
      let b = publish_to-SameCore e hs c1 c' o then_rest in
      record {
        scene = b.scene ∙ a.scene;
        renderer = b.renderer ∙ a.renderer;
        subscribers = b.subscribers ∙ a.subscribers;
      }

  -- What is known after a publication that did not fail.
  pub record Published (e : Event F) (c c' : Controller F) : Type 0 where
    pub scene : c'.scene ≡ Scene.receive fl e c.scene
    pub renderer : Renderer.receive e c.renderer ≡ some c'.renderer
    pub subscribers : c'.subscribers ≡ c.subscribers

  pub publish_wired :
      (e : Event F) (c c' : Controller F) (rest : List Handle)
      → c.subscribers ≡ Handle.scene ∷ Handle.renderer ∷ rest
      → OnlyNetworks rest
      → publish fl pr e c ≡ some c'
      → Published e c c'
  unfolding publish publish_to deliver
  publish_wired e c c' rest listening only h =
      let listed = subst (λ hs. publish_to fl pr e hs c ≡ some c') listening h in
      let with_scene : Controller F = record c { scene = Scene.receive fl e c.scene } in
      let (c1, second, others) =
        >>=-eq-some (deliver fl pr e Handle.renderer with_scene) (publish_to fl pr e rest) listed in
      let (r, received, first) =
        >>=-eq-some (Renderer.receive e c.renderer) (λ r. some (record with_scene { renderer = r }))
          second in
      let k = publish_to-SameCore e rest c1 c' only others in
      record {
        scene = k.scene ∙ ground (arith, first);
        renderer = received ∙ ground (arith, first, k.renderer);
        subscribers = k.subscribers ∙ ground (arith, first);
      }

  -- Publishing an event that does not fail gives the Scene and the renderer exactly that event
  -- and leaves the list of subscribers as it is, if the Scene is the first subscriber, the
  -- renderer the second and the others are network clients.
  pub publish-Published :
      {ext : Extent} (e : Event F) (c c' : Controller F)
      → Synced ext c
      → publish fl pr e c ≡ some c'
      → Published e c c'
  publish-Published e c c' v h = publish_wired e c c' v.rest v.listening v.only h

  -- A published event other than new_source keeps the Controller in its state of agreement when
  -- no assertion fails.
  pub publish-Synced :
      {ext : Extent} (e : Event F) (c c' : Controller F)
      → IsChange e
      → Synced ext c
      → publish fl pr e c ≡ some c'
      → Synced ext c'
  publish-Synced e c c' change v h =
      let p = publish-Published e c c' v h in
      record {
        rest = v.rest;
        listening = p.subscribers ∙ v.listening;
        only = v.only;
        agree =
            rw p.scene
              (receive-Agree fl e c.scene c.renderer c'.renderer change v.agree p.renderer);
      }

  abbrev pub AllChanges : List (Event F) → Type 0
  AllChanges [] = Unit
  AllChanges (e ∷ es) = IsChange e × AllChanges es

  pub publish_all-Synced :
      {ext : Extent} (es : List (Event F)) (c c' : Controller F)
      → AllChanges es
      → Synced ext c
      → publish_all fl pr es c ≡ some c'
      → Synced ext c'
  unfolding publish_all
  publish_all-Synced {ext} [] c c' all v h = subst (Synced ext) (some-injective _ _ h) v
  publish_all-Synced (e ∷ es) c c' (change, all) v h =
      let (c1, first, then_rest) = >>=-eq-some (publish fl pr e c) (publish_all fl pr es) h in
      publish_all-Synced es c1 c' all (publish-Synced e c c1 change v first) then_rest
