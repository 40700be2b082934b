-- ===== src/Controller/Standing.antt =====
-- Operations of the Controller return while all network subscribers exist.
use mathlib.Core.Option.{some-injective}
use ssr_pre.Common.{
  ℕ, ◌≡◌, refl, sym, subst, ◌∙◌, Bool, true, false, List, [], ◌∷◌, Option, none, some, arith,
  if◌then◌else◌, Option-cases, Bool-cases, inl, inr,
}
use ssr_pre.Common.Text.{Text, eq_text}
use ssr_pre.Common.Assoc.{find, insert}
use ssr_pre.Geometry.{Floats}
use ssr_pre.Subscriber.{Event}
use ssr_pre.Publisher.{Settings}
use ssr_pre.Scene
use ssr_pre.Renderer
use ssr_pre.Renderer.{Params, add_source}
use ssr_pre.Renderer.Sources.{InOrder, receive-InOrder, add_source-InOrder}
use ssr_pre.Renderer.Lookup.{receive-none}
use ssr_pre.Network
use ssr_pre.Network.{Network, Printer}
use ssr_pre.Controller.{
  Controller, Services, Handle, network, ◌>>=◌, deliver, publish_to, publish, publish_all,
  announcements, port_name_of, new_source_on, new_source, delete_all_sources,
}
use ssr_pre.Controller.Publish.{>>=-eq-some, OnlyNetworks, publish_wired}
use ssr_pre.Controller.Total.{AllKnown, insert-AllKnown, publish_to-total}

-- The Controller as it is set up, with its network subscribers.
pub record Standing {F : Type 0} (c : Controller F) : Type 0 where
  pub rest : List Handle
  pub listening : c.subscribers ≡ Handle.scene ∷ Handle.renderer ∷ rest
  pub only : OnlyNetworks rest
  pub order : InOrder c.renderer
  pub known : AllKnown rest c.networks

-- An event that is not the deletion of one source.
abbrev pub IsKeeping : {F : Type 0} → Event F → Type 0
IsKeeping (Event.delete_source id) = ⊥
IsKeeping _ = Unit

abbrev pub AllKeeping : {F : Type 0} → List (Event F) → Type 0
AllKeeping [] = Unit
AllKeeping (e ∷ es) = IsKeeping e × AllKeeping es

-- The call returns, and the Controller stands again.
abbrev pub Stands : {F : Type 0} → Option (Controller F) → Type 0
Stands {F = F} o = (c : Controller F) × (o ≡ some c) × Standing c

module _ {F : Type 0} (fl : Floats F) (pr : Printer F) where
  network-AllKnown :
      (e : Event F) (j : ℕ) (hs : List Handle) (c c' : Controller F) (o : Option (Network F))
      → AllKnown hs c.networks
      → elim o [
        | none ↦ none
        | some n ↦
            let (n', previous) = Network.receive fl pr e c.previous_state n in
            some (record c { networks = insert j n' c.networks; previous_state = previous })
      ]
        ≡ some c'
      → AllKnown hs c'.networks
  network-AllKnown e j hs c c' none k h = cc
  network-AllKnown e j hs c c' (some n) k h =
      subst (λ c'. AllKnown hs c'.networks) (some-injective _ _ h)
        (insert-AllKnown j (Network.receive fl pr e c.previous_state n).0 hs c.networks k)

  deliver-AllKnown :
      (e : Event F) (h : Handle) (hs : List Handle) (c c' : Controller F)
      → AllKnown hs c.networks
      → deliver fl pr e h c ≡ some c'
      → AllKnown hs c'.networks
  unfolding deliver
  deliver-AllKnown e Handle.scene hs c c' k h =
      subst (λ c'. AllKnown hs c'.networks) (some-injective _ _ h) k
  deliver-AllKnown e Handle.renderer hs c c' k h =
      let (r, received, last) =
        >>=-eq-some (Renderer.receive e c.renderer) (λ r. some (record c { renderer = r })) h in
      subst (λ c'. AllKnown hs c'.networks) (some-injective _ _ last) k
  deliver-AllKnown e (network j) hs c c' k h = network-AllKnown e j hs c c' (find j c.networks) k h

  publish_to-AllKnown :
      (e : Event F) (to hs : List Handle) (c c' : Controller F)
      → AllKnown hs c.networks
      → publish_to fl pr e to c ≡ some c'
      → AllKnown hs c'.networks
  unfolding publish_to
  publish_to-AllKnown e [] hs c c' k h =
      subst (λ c'. AllKnown hs c'.networks) (some-injective _ _ h) k
  publish_to-AllKnown e (to ∷ others) hs c c' k h =
      let (c1, first, then_rest) =
        >>=-eq-some (deliver fl pr e to c) (publish_to fl pr e others) h in
      publish_to-AllKnown e others hs c1 c' (deliver-AllKnown e to hs c c1 k first) then_rest

  published :
      (e : Event F) (c : Controller F)
      → IsKeeping e
      → (v : Standing c) → (c' : Controller F) × (publish fl pr e c ≡ some c')
  unfolding publish publish_to deliver
  published e c keeping v = elim (Option-cases (Renderer.receive e c.renderer)) [
    | inl failed ↦
        let (id, deletion, missing) = receive-none e c.renderer v.order failed in
        absurd (subst IsKeeping deletion keeping)
    | inr (r, done) ↦
        subst (λ hs. (c' : Controller F) × (publish_to fl pr e hs c ≡ some c')) (sym v.listening)
          (rw (done) (
            publish_to-total fl pr e v.rest
              (record c { scene = Scene.receive fl e c.scene; renderer = r }) v.only v.known))
  ]

  known_after :
      (e : Event F) (hs : List Handle) (c c' : Controller F)
      → AllKnown hs c.networks
      → publish fl pr e c ≡ some c'
      → AllKnown hs c'.networks
  unfolding publish
  known_after e hs c c' k h = publish_to-AllKnown e c.subscribers hs c c' k h

  pub publish-Stands :
      (e : Event F) (c : Controller F) → IsKeeping e → Standing c → Stands (publish fl pr e c)
  publish-Stands e c keeping v =
      let (c', h) = published e c keeping v in
      let p = publish_wired fl pr e c c' v.rest v.listening v.only h in
      (
        c',
        h,
        record {
          rest = v.rest;
          listening = p.subscribers ∙ v.listening;
          only = v.only;
          order = receive-InOrder e c.renderer c'.renderer v.order p.renderer;
          known = known_after e v.rest c c' v.known h;
        },
      )

  -- Two calls in a row.
  pub bind-Stands :
      (o : Option (Controller F)) (f : Controller F → Option (Controller F))
      → Stands o
      → ((c : Controller F) → Standing c → Stands (f c))
      → Stands (o >>= f)
  bind-Stands o f (c, h, v) k = subst (λ o. Stands (o >>= f)) (sym h) (k c v)

  pub publish_all-Stands :
      (es : List (Event F)) (c : Controller F)
      → AllKeeping es
      → Standing c
      → Stands (publish_all fl pr es c)
  unfolding publish_all
  publish_all-Stands [] c k v = (c, refl, v)
  publish_all-Stands (e ∷ es) c (k, ks) v =
      bind-Stands (publish fl pr e c) (publish_all fl pr es) (publish-Stands e c k v)
        (λ c' v'. publish_all-Stands es c' ks v')

  pub if-Stands :
      (b : Bool) (e : Event F) (c : Controller F)
      → IsKeeping e
      → Standing c
      → Stands (if b then publish fl pr e c else some c)
  if-Stands true e c k v = publish-Stands e c k v
  if-Stands false e c k v = (c, refl, v)

  pub delete_all-Stands : (c : Controller F) → Standing c → Stands (delete_all_sources fl pr c)
  unfolding delete_all_sources
  delete_all-Stands c v =
      bind-Stands (publish fl pr Event.delete_all_sources c)
        (λ c'. some (record c' { player = false })) (publish-Stands Event.delete_all_sources c tt v)
        (λ c' w. (
          record c' { player = false },
          refl,
          record {
            rest = w.rest;
            listening = w.listening;
            only = w.only;
            order = w.order;
            known = w.known;
          },
        ))

  announcements-AllKeeping :
      (id : ℕ) (t : Settings F) (port_name file_name : Text) (file_length : ℕ)
      → AllKeeping (announcements fl pr id t port_name file_name file_length)
  unfolding announcements
  announcements-AllKeeping id t port_name file_name file_length =
      elim (Bool-cases (eq_text file_name [])) [
        | inl e ↦ rw e (ground arith)
        | inr e ↦ rw e (ground arith)
      ]

  made-Stands :
      (es : ℕ → List (Event F)) (made : Option ℕ) (c : Controller F)
      → ((id : ℕ) → AllKeeping (es id))
      → Standing c
      → Stands (elim made [ none ↦ some c | some id ↦ publish_all fl pr (es id) c ])
  made-Stands es none c k v = (c, refl, v)
  made-Stands es (some id) c k v = publish_all-Stands (es id) c (k id) v

  -- The name of the port is known, whatever the loop mode; for a sound file the audio player gives
  -- it.
  abbrev pub Named : Services → Settings F → Type 0
  Named sv t = (loop : Bool) → (port_name : Text) × (port_name_of fl pr sv t loop ≡ some port_name)

  on_port-Stands :
      (sv : Services) (t : Settings F) (name : Text) (c : Controller F)
      → Standing c
      → Stands (new_source_on fl pr sv t c name)
  unfolding new_source_on
  on_port-Stands sv t name c v =
      made-Stands (λ id. announcements fl pr id t name _ _) _ _
        (λ id. announcements-AllKeeping id t name _ _)
        (record {
          rest = v.rest;
          listening = v.listening;
          only = v.only;
          order = add_source-InOrder fl sv.accepts _ c.renderer v.order;
          known = v.known;
        })

  pub new_source-Stands :
      (sv : Services) (t : Settings F) (c : Controller F)
      → Named sv t
      → Standing c
      → Stands (new_source fl pr sv t c)
  unfolding new_source
  new_source-Stands sv t c named v =
      let (name, e) = named c.loop_mode in rw e (on_port-Stands sv t name c v)
