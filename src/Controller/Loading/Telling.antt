-- ===== src/Controller/Loading/Telling.antt =====
-- The amplitude reference distances that the Scene and the renderer have, through every publication
-- but the one that sets them, and through new_source().
use mathlib.Core.Option.{some-injective}
use ssr_pre.Common.{
  ◌≡◌, List, [], ◌∷◌, Option, none, some, Bool, subst, arith, ◌∙◌, ℕ, ap, Bool-cases, inl, inr,
}
use ssr_pre.Common.Text.{Text, eq_text}
use ssr_pre.Geometry.{Floats}
use ssr_pre.Subscriber.{Event}
use ssr_pre.Publisher.{Settings}
use ssr_pre.Scene.{Scene}
use ssr_pre.Scene
use ssr_pre.Renderer.{Renderer, State, Params, add_source}
use ssr_pre.Renderer.Sources.{InOrder, receive-InOrder, add_source-InOrder}
use ssr_pre.Renderer.Lookup.{state_effect, receive-Follows}
use ssr_pre.Network.{Printer}
use ssr_pre.Controller.{
  Controller, Handle, Services, publish, publish_all, port_name_of, new_source_on, new_source,
  announcements,
}
use ssr_pre.Controller.Publish.{>>=-eq-some, OnlyNetworks, publish_wired}
use ssr_pre.Controller.Loading.Keeping.{IsQuiet}

-- Any event but the one that sets the amplitude reference distance.
abbrev pub IsOther : {F : Type 0} → Event F → Type 0
IsOther (Event.set_amplitude_reference_distance d) = ⊥
IsOther _ = Unit

abbrev pub AllOther : {F : Type 0} → List (Event F) → Type 0
AllOther [] = Unit
AllOther (e ∷ es) = IsOther e × AllOther es

-- The Controller as it is set up, with the distance that the Scene and the renderer have.
pub record Distances {F : Type 0} (x y : F) (c : Controller F) : Type 0 where
  pub rest : List Handle
  pub listening : c.subscribers ≡ Handle.scene ∷ Handle.renderer ∷ rest
  pub only : OnlyNetworks rest
  pub order : InOrder c.renderer
  pub of_scene : c.scene.amplitude_reference_distance ≡ x
  pub of_renderer : c.renderer.state.amplitude_reference_distance ≡ y

pub IsQuiet-IsOther : {F : Type 0} (e : Event F) → IsQuiet e → IsOther e
IsQuiet-IsOther e q = ground arith

module _ {F : Type 0} (fl : Floats F) (pr : Printer F) where
  scene_distance :
      (e : Event F) (s : Scene F)
      → IsOther e
      → (Scene.receive fl e s).amplitude_reference_distance ≡ s.amplitude_reference_distance
  unfolding Scene.receive Scene.new_source
  scene_distance (Event.new_source id) s o = ground arith
  scene_distance e s o = ground arith

  state_distance :
      (e : Event F) (r : State F)
      → IsOther e
      → (state_effect e r).amplitude_reference_distance ≡ r.amplitude_reference_distance
  unfolding state_effect
  state_distance e r o = ground arith

  pub publish-Distances :
      (x y : F) (e : Event F) (c c' : Controller F)
      → IsOther e
      → Distances x y c
      → publish fl pr e c ≡ some c'
      → Distances x y c'
  publish-Distances x y e c c' o v h =
      let p = publish_wired fl pr e c c' v.rest v.listening v.only h in
      let f = receive-Follows e c.renderer c'.renderer v.order p.renderer in
      record {
        rest = v.rest;
        listening = p.subscribers ∙ v.listening;
        only = v.only;
        order = receive-InOrder e c.renderer c'.renderer v.order p.renderer;
        of_scene =
            ap (λ s. s.amplitude_reference_distance) p.scene
            ∙ scene_distance e c.scene o
            ∙ v.of_scene;
        of_renderer =
            ap (λ s. s.amplitude_reference_distance) f.state
            ∙ state_distance e c.renderer.state o
            ∙ v.of_renderer;
      }

  publish_all-Distances :
      (x y : F) (es : List (Event F)) (c c' : Controller F)
      → AllOther es
      → Distances x y c
      → publish_all fl pr es c ≡ some c'
      → Distances x y c'
  unfolding publish_all
  publish_all-Distances x y [] c c' o v h = subst (Distances x y) (some-injective _ _ h) v
  publish_all-Distances x y (e ∷ es) c c' (o, os) v h =
      let (c1, first, then_rest) = >>=-eq-some (publish fl pr e c) (publish_all fl pr es) h in
      publish_all-Distances x y es c1 c' os (publish-Distances x y e c c1 o v first) then_rest

  add_source_state :
      (accepts : Params → Bool) (p : Params) (r : Renderer F)
      → (add_source fl accepts p r).1.state ≡ r.state
  unfolding add_source
  add_source_state accepts p r = ground arith

  announcements-AllOther :
      (id : ℕ) (t : Settings F) (port_name file_name : Text) (file_length : ℕ)
      → AllOther (announcements fl pr id t port_name file_name file_length)
  unfolding announcements
  announcements-AllOther id t port_name file_name file_length =
      elim (Bool-cases (eq_text file_name [])) [
        | inl e ↦ rw e (ground arith)
        | inr e ↦ rw e (ground arith)
      ]

  made_then :
      (x y : F) (es : ℕ → List (Event F)) (made : Option ℕ) (c c' : Controller F)
      → ((id : ℕ) → AllOther (es id))
      → Distances x y c
      → elim made [ none ↦ some c | some id ↦ publish_all fl pr (es id) c ] ≡ some c'
      → Distances x y c'
  made_then x y es none c c' o v h = subst (Distances x y) (some-injective _ _ h) v
  made_then x y es (some id) c c' o v h = publish_all-Distances x y (es id) c c' (o id) v h

  on_port-Distances :
      (x y : F) (sv : Services) (t : Settings F) (port_name : Text) (c c' : Controller F)
      → Distances x y c
      → new_source_on fl pr sv t c port_name ≡ some c'
      → Distances x y c'
  unfolding new_source_on
  on_port-Distances x y sv t port_name c c' v h =
      made_then x y (λ id. announcements fl pr id t port_name _ _) _ _ c'
        (λ id. announcements-AllOther id t port_name _ _)
        (record {
          rest = v.rest;
          listening = v.listening;
          only = v.only;
          order = add_source-InOrder fl sv.accepts _ c.renderer v.order;
          of_scene = v.of_scene;
          of_renderer =
              ap (λ s. s.amplitude_reference_distance) (add_source_state sv.accepts _ c.renderer)
              ∙ v.of_renderer;
        })
        h

  pub new_source-Distances :
      (x y : F) (sv : Services) (t : Settings F) (c c' : Controller F)
      → Distances x y c
      → new_source fl pr sv t c ≡ some c'
      → Distances x y c'
  unfolding new_source
  new_source-Distances x y sv t c c' v h =
      let (port_name, answered, made) =
        >>=-eq-some (port_name_of fl pr sv t c.loop_mode) (new_source_on fl pr sv t c) h in
      on_port-Distances x y sv t port_name c c' v made
