-- ===== src/Controller/Loading/Distance.antt =====
-- The amplitude reference distance of a scene file: the Scene gets it, the renderer does not.
use mathlib.Core.Option.{some-injective}
use ssr_pre.Common.{
  ◌≡◌, [], ◌∷◌, some, Bool, true, false, if◌then◌else◌, subst, arith, refl, ◌∙◌, sym,
}
use ssr_pre.Common.Text.{Text, codes, eq_text}
use ssr_pre.Geometry.{Floats}
use ssr_pre.Subscriber.{Event}
use ssr_pre.Network.{Printer}
use ssr_pre.SceneFile.{Document}
use ssr_pre.CommandParser.{empty}
use ssr_pre.PathTools.{get_file_extension}
use ssr_pre.Controller.{
  Controller, Services, ◌>>=◌, delete_all_sources, stop_processing, set_processing_state, publish,
}
use ssr_pre.Controller.Publish.{>>=-eq-some}
use ssr_pre.Controller.Loading.{
  Loader, load_scene, load_into, load_document, load_reference, set_scene_distance, file_volume,
  file_distance,
}
use ssr_pre.Controller.Loading.Keeping.{load_reference-keeps}
use ssr_pre.Controller.Loading.Telling.{
  Distances, IsQuiet-IsOther, publish-Distances, new_source-Distances,
}

module _ {F : Type 0} (fl : Floats F) (pr : Printer F) where
  load_document-Distances :
      (ld : Loader F) (sv : Services) (file : Text) (doc : Document) (x y : F) (c : Controller F)
      (r : Bool × Controller F)
      → Distances x y c
      → load_document fl pr ld sv file doc c ≡ some r
      → Distances (file_distance fl pr ld sv doc) y r.1
  unfolding load_document
  load_document-Distances ld sv file doc x y c r v h =
      let e = Event.set_master_volume (fl.db_to_linear (file_volume fl pr ld sv doc)) in
      let d = file_distance fl pr ld sv doc in
      let (c1, first, then_rest) =
        >>=-eq-some (publish fl pr e c)
          (λ c1. load_reference fl pr ld sv file doc (set_scene_distance fl pr ld sv d c1)) h in
      let w = publish-Distances fl pr x y e c c1 tt v first in
      load_reference-keeps fl pr (Distances d y)
        (λ e c c' q v h. publish-Distances fl pr d y e c c' (IsQuiet-IsOther e q) v h) ld sv
        (new_source-Distances fl pr d y sv) file doc (set_scene_distance fl pr ld sv d c1) r
        (record {
          rest = w.rest;
          listening = w.listening;
          only = w.only;
          order = w.order;
          of_scene = refl;
          of_renderer = w.of_renderer;
        })
        then_rest

  delete_all-Distances :
      (x y : F) (c c' : Controller F)
      → Distances x y c
      → delete_all_sources fl pr c ≡ some c'
      → Distances x y c'
  unfolding delete_all_sources
  delete_all-Distances x y c c' v h =
      let (c1, published, last) =
        >>=-eq-some (publish fl pr Event.delete_all_sources c)
          (λ c'. some (record c' { player = false })) h in
      let w = publish-Distances fl pr x y Event.delete_all_sources c c1 tt v published in
      subst (Distances x y) (some-injective _ _ last) (record {
        rest = w.rest;
        listening = w.listening;
        only = w.only;
        order = w.order;
        of_scene = w.of_scene;
        of_renderer = w.of_renderer;
      })

  stop_processing-Distances :
      (b : Bool) (x y : F) (c c' : Controller F)
      → Distances x y c
      → (if b then publish fl pr (Event.set_processing_state false) c else some c) ≡ some c'
      → Distances x y c'
  stop_processing-Distances true x y c c' v h =
      publish-Distances fl pr x y (Event.set_processing_state false) c c' tt v h
  stop_processing-Distances false x y c c' v h = subst (Distances x y) (some-injective _ _ h) v

  no_extension : ¬ (get_file_extension [] ≡ codes "asd")
  unfolding get_file_extension
  no_extension e = ground (arith, e)

  -- A scene file that can be read and is valid.
  loads_document :
      (ld : Loader F) (sv : Services) (file : Text) (doc : Document) (c : Controller F)
      → get_file_extension file ≡ codes "asd"
      → ld.load_file file ≡ some doc
      → empty ld.conf.xml_schema ≡ false
      → doc.validate ld.conf.xml_schema ≡ true
      → load_into fl pr ld sv file c ≡ load_document fl pr ld sv file doc c
  unfolding load_into publish eq_text
  loads_document ld sv [] doc c asd read schema valid = absurd (no_extension asd)
  loads_document ld sv (ch ∷ file) doc c asd read schema valid = rw (asd, read, schema, valid) refl

  -- Loading a scene file that can be read and is valid leaves the Scene with the amplitude
  -- reference distance of the file, or of the configuration, and the renderer with the one that
  -- it had before, if load_scene() returns and the subscribers and the sources of the renderer
  -- are in order.
  pub load_scene-Distances :
      (ld : Loader F) (sv : Services) (file : Text) (doc : Document) (x y : F) (c : Controller F)
      (r : Bool × Controller F)
      → get_file_extension file ≡ codes "asd"
      → ld.load_file file ≡ some doc
      → empty ld.conf.xml_schema ≡ false
      → doc.validate ld.conf.xml_schema ≡ true
      → Distances x y c
      → load_scene fl pr ld sv file c ≡ some r
      → Distances (file_distance fl pr ld sv doc) y r.1
  unfolding load_scene stop_processing set_processing_state
  load_scene-Distances ld sv file doc x y c r asd read schema valid v h =
      let (c2, before, last) =
        >>=-eq-some (stop_processing fl pr c >>= λ c1. delete_all_sources fl pr c1)
          (λ c2. load_into fl pr ld sv file c2) h in
      let (c1, first, second) =
        >>=-eq-some (stop_processing fl pr c) (λ c1. delete_all_sources fl pr c1) before in
      load_document-Distances ld sv file doc x y c2 r
        (delete_all-Distances x y c1 c2
          (stop_processing-Distances c.scene.processing_state x y c c1 v first) second)
        (sym (loads_document ld sv file doc c2 asd read schema valid) ∙ last)
