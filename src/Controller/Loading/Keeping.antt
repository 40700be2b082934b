-- ===== src/Controller/Loading/Keeping.antt =====
-- Loading a scene calls only a few functions of the Controller: what each of them keeps, loading keeps.
use mathlib.Core.Option.{some-injective}
use ssr_pre.Common.{
  ◌≡◌, List, [], ◌∷◌, Option, none, some, Bool, true, false, if◌then◌else◌, subst, not, arith,
}
use ssr_pre.Common.Text.{Text, codes}
use ssr_pre.Geometry.{Floats, Position, Orientation}
use ssr_pre.Subscriber.{Event}
use ssr_pre.Publisher.{Settings}
use ssr_pre.Network.{Printer}
use ssr_pre.SceneFile.{Document, Node, read_source, read_reference}
use ssr_pre.Controller.{
  Controller, Services, ◌>>=◌, publish, publish_all, new_source, start_processing,
  set_processing_state,
}
use ssr_pre.Controller.Publish.{>>=-eq-some}
use ssr_pre.Controller.Loading.{
  Loader, load_sources, new_sources, started, reference_events, load_reference,
}

-- An event that neither announces a source nor sets the amplitude reference distance.
abbrev pub IsQuiet : {F : Type 0} → Event F → Type 0
IsQuiet (Event.new_source id) = ⊥
IsQuiet (Event.set_amplitude_reference_distance d) = ⊥
IsQuiet _ = Unit

abbrev pub AllQuiet : {F : Type 0} → List (Event F) → Type 0
AllQuiet [] = Unit
AllQuiet (e ∷ es) = IsQuiet e × AllQuiet es

module _ {F : Type 0} (fl : Floats F) (pr : Printer F) (I : Controller F → Type 0)
    (publishing : (e : Event F) (c c' : Controller F)
      → IsQuiet e
      → I c
      → publish fl pr e c ≡ some c'
      → I c') where
  pub publish_all-keeps :
      (es : List (Event F)) (c c' : Controller F)
      → AllQuiet es
      → I c
      → publish_all fl pr es c ≡ some c'
      → I c'
  unfolding publish_all
  publish_all-keeps [] c c' q v h = subst I (some-injective _ _ h) v
  publish_all-keeps (e ∷ es) c c' (q, qs) v h =
      let (c1, first, then_rest) = >>=-eq-some (publish fl pr e c) (publish_all fl pr es) h in
      publish_all-keeps es c1 c' qs (publishing e c c1 q v first) then_rest

  maybe-keeps :
      (b : Bool) (c c' : Controller F)
      → I c
      → (if b then publish fl pr (Event.set_processing_state true) c else some c) ≡ some c'
      → I c'
  maybe-keeps true c c' v h = publishing (Event.set_processing_state true) c c' tt v h
  maybe-keeps false c c' v h = subst I (some-injective _ _ h) v

  pub started-keeps :
      (ld : Loader F) (sv : Services) (c : Controller F) (r : Bool × Controller F)
      → I c
      → started fl pr ld sv c ≡ some r
      → I r.1
  unfolding start_processing set_processing_state
  started-keeps ld sv c r v h =
      let (c1, first, last) = >>=-eq-some (start_processing fl pr c) (λ c'. some (true, c')) h in
      subst (λ r. I r.1) (some-injective _ _ last)
        (maybe-keeps (not c.scene.processing_state) c c1 v first)

  module _ (ld : Loader F) (sv : Services)
      (making : (t : Settings F) (c c' : Controller F)
        → I c
        → new_source fl pr sv t c ≡ some c'
        → I c') where
    read_then :
        (scene_file : Text) (nodes : List Node) (o : Option (Option (Settings F)))
        (c c' : Controller F)
        → ((d : Controller F) → I d → load_sources fl pr ld sv scene_file nodes d ≡ some c' → I c')
        → I c
        → elim o [
          | none ↦ none
          | some none ↦ load_sources fl pr ld sv scene_file nodes c
          | some (some settings) ↦
              new_source fl pr sv settings c >>= load_sources fl pr ld sv scene_file nodes
        ]
          ≡ some c'
        → I c'
    read_then scene_file nodes none c c' k v h = cc
    read_then scene_file nodes (some none) c c' k v h = k c v h
    read_then scene_file nodes (some (some t)) c c' k v h =
        let (c1, first, then_rest) =
          >>=-eq-some (new_source fl pr sv t c) (load_sources fl pr ld sv scene_file nodes) h in
        k c1 (making t c c1 v first) then_rest

    pub load_sources-keeps :
        (scene_file : Text) (nodes : List Node) (c c' : Controller F)
        → I c
        → load_sources fl pr ld sv scene_file nodes c ≡ some c'
        → I c'
    unfolding load_sources
    load_sources-keeps scene_file [] c c' v h = subst I (some-injective _ _ h) v
    load_sources-keeps scene_file (node ∷ nodes) c c' v h =
        read_then scene_file nodes
          (read_source fl ld.readers ld.cwd ld.conf.input_port_prefix scene_file node) c c'
          (λ d w k. load_sources-keeps scene_file nodes d c' w k) v h

    pub new_sources-keeps :
        (ts : List (Settings F)) (c c' : Controller F)
        → I c
        → new_sources fl pr ld sv ts c ≡ some c'
        → I c'
    unfolding new_sources
    new_sources-keeps [] c c' v h = subst I (some-injective _ _ h) v
    new_sources-keeps (t ∷ ts) c c' v h =
        let (c1, first, then_rest) =
          >>=-eq-some (new_source fl pr sv t c) (new_sources fl pr ld sv ts) h in
        new_sources-keeps ts c1 c' (making t c c1 v first) then_rest

    reference_then :
        (scene_file : Text) (nodes : List Node) (o : Option (Position F × Orientation F))
        (c : Controller F) (r : Bool × Controller F)
        → I c
        → elim o [
          | none ↦ some (false, c)
          | some (position, orientation) ↦
              publish_all fl pr (reference_events fl pr ld sv position orientation) c
              >>= (λ c1. load_sources fl pr ld sv scene_file nodes c1)
              >>= started fl pr ld sv
        ]
          ≡ some r
        → I r.1
    reference_then scene_file nodes none c r v h = subst (λ r. I r.1) (some-injective _ _ h) v
    reference_then scene_file nodes (some (p, o)) c r v h =
        let es = reference_events fl pr ld sv p o in
        let (c2, loaded, last) =
          >>=-eq-some
            (publish_all fl pr es c >>= λ c1. load_sources fl pr ld sv scene_file nodes c1)
            (started fl pr ld sv) h in
        let (c1, first, second) =
          >>=-eq-some (publish_all fl pr es c) (λ c1. load_sources fl pr ld sv scene_file nodes c1)
            loaded in
        started-keeps ld sv c2 r
          (load_sources-keeps scene_file nodes c1 c2
            (publish_all-keeps es c c1 (ground arith) v first) second)
          last

    pub load_reference-keeps :
        (scene_file : Text) (doc : Document) (c : Controller F) (r : Bool × Controller F)
        → I c
        → load_reference fl pr ld sv scene_file doc c ≡ some r
        → I r.1
    unfolding load_reference
    load_reference-keeps scene_file doc c r v h =
        reference_then scene_file (doc.eval_xpath (codes "//scene_setup/source"))
          (read_reference fl ld.readers (doc.eval_xpath (codes "//scene_setup/reference"))) c r v h
