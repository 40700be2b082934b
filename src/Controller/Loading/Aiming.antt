-- ===== src/Controller/Loading/Aiming.antt =====
-- A scene that is loaded tells the Scene and the renderer the reference orientation, in which they may
-- have differed before.
use mathlib.Core.Option.{some-injective}
use ssr_pre.Common.{
  ◌≡◌, List, [], ◌∷◌, Option, none, some, Bool, true, false, if◌then◌else◌, subst, not, arith, ◌||◌,
  ◌==◌, ℕ, ap, refl, ◌∙◌,
}
use ssr_pre.Common.Text.{Text, codes, eq_text}
use ssr_pre.Geometry.{Floats, Position, Orientation, origin, facing}
use ssr_pre.Subscriber.{Event}
use ssr_pre.Scene
use ssr_pre.Renderer
use ssr_pre.Network.{Printer}
use ssr_pre.CommandParser.{empty}
use ssr_pre.PathTools.{get_file_extension}
use ssr_pre.SceneFile.{Document, Node, read_reference}
use ssr_pre.Controller.{
  Controller, Services, ◌>>=◌, publish, publish_all, set_amplitude_reference_distance,
  stop_processing, delete_all_sources,
}
use ssr_pre.Controller.Sync.{Extent}
use ssr_pre.Controller.Publish.{
  >>=-eq-some, Synced, publish-Published, publish-Synced, publish_all-Synced,
}
use ssr_pre.Controller.Register.{new_source-Synced}
use ssr_pre.Controller.Upkeep.{stop_processing-Synced, delete_all-Synced, set_distance-Synced}
use ssr_pre.Controller.Loading.{
  Loader, load_scene, load_into, load_document, load_reference, create_spontaneous_scene,
  load_sources, started, spontaneous_scene, new_sources, set_scene_distance, file_volume,
  file_distance, started_if, reference_events, spontaneous_sources, pure_file_name,
}
use ssr_pre.Controller.Loading.Keeping.{started-keeps, load_sources-keeps, new_sources-keeps}
use ssr_pre.Controller.Loading.Agreement.{branch, quiet-Synced, set_scene_distance-Synced}

-- With the reference orientation.
abbrev pub with_aim : Extent → Extent
with_aim ext = record ext { aimed = true }

module _ {F : Type 0} (fl : Floats F) (pr : Printer F) (ld : Loader F) (sv : Services)
    (ext : Extent) where
  aim-Synced :
      (o : Orientation F) (c c' : Controller F)
      → Synced ext c
      → publish fl pr (Event.set_reference_orientation o) c ≡ some c'
      → Synced (with_aim ext) c'
  unfolding Scene.receive Renderer.receive
  aim-Synced o c c' v h =
      let p = publish-Published fl pr (Event.set_reference_orientation o) c c' v h in
      let w = publish-Synced fl pr (Event.set_reference_orientation o) c c' tt v h in
      let same = w.agree.state in
      record {
        rest = w.rest;
        listening = w.listening;
        only = w.only;
        agree = record {
          order = w.agree.order;
          sources = w.agree.sources;
          state = record {
            reference_position = same.reference_position;
            reference_orientation = λ _.
                ap (λ s. s.reference.orientation) p.scene
                ∙ ap (λ r. r.state.reference_orientation) (some-injective _ _ p.renderer);
            offset_position = same.offset_position;
            offset_orientation = same.offset_orientation;
            master_volume = same.master_volume;
            processing = same.processing;
            distance = same.distance;
          };
        };
      }

  reference_events-Synced :
      (p : Position F) (o : Orientation F) (c c' : Controller F)
      → Synced ext c
      → publish_all fl pr (reference_events fl pr ld sv p o) c ≡ some c'
      → Synced (with_aim ext) c'
  unfolding publish_all
  reference_events-Synced p o c c' v h =
      let offsets =
        Event.set_reference_offset_position (origin fl)
        ∷ Event.set_reference_offset_orientation (facing fl 0)
        ∷ [] in
      let aim = Event.set_reference_orientation o in
      let (c1, first, others) =
        >>=-eq-some (publish fl pr (Event.set_reference_position p) c)
          (publish_all fl pr (aim ∷ offsets)) h in
      let (c2, second, last) =
        >>=-eq-some (publish fl pr aim c1) (publish_all fl pr offsets) others in
      publish_all-Synced fl pr offsets c2 c' (tt, (tt, tt))
        (aim-Synced o c1 c2 (publish-Synced fl pr (Event.set_reference_position p) c c1 tt v first)
          second)
        last

  reference_then :
      (file : Text) (nodes : List Node) (o : Option (Position F × Orientation F)) (c : Controller F)
      (r : Bool × Controller F)
      → r.0 ≡ true
      → Synced ext c
      → elim o [
        | none ↦ some (false, c)
        | some (position, orientation) ↦
            publish_all fl pr (reference_events fl pr ld sv position orientation) c
            >>= (λ c1. load_sources fl pr ld sv file nodes c1)
            >>= started fl pr ld sv
      ]
        ≡ some r
      → Synced (with_aim ext) r.1
  reference_then file nodes none c r loaded v h =
      let clash : false ≡ true = ap (λ r. r.0) (some-injective _ _ h) ∙ loaded in cc
  reference_then file nodes (some (p, o)) c r loaded v h =
      let es = reference_events fl pr ld sv p o in
      let (c2, h2, last) =
        >>=-eq-some (publish_all fl pr es c >>= λ c1. load_sources fl pr ld sv file nodes c1)
          (started fl pr ld sv) h in
      let (c1, first, second) =
        >>=-eq-some (publish_all fl pr es c) (λ c1. load_sources fl pr ld sv file nodes c1) h2 in
      let quiet = quiet-Synced fl pr ld sv (with_aim ext) in
      started-keeps fl pr (Synced (with_aim ext)) quiet ld sv c2 r
        (load_sources-keeps fl pr (Synced (with_aim ext)) quiet ld sv
          (λ t c c' v h. new_source-Synced fl pr sv t c c' v h) file nodes c1 c2
          (reference_events-Synced p o c c1 v first) second)
        last

  document_then :
      (file : Text) (doc : Document) (c : Controller F) (r : Bool × Controller F)
      → ext.told ≡ false
      → r.0 ≡ true
      → Synced ext c
      → load_document fl pr ld sv file doc c ≡ some r
      → Synced (with_aim ext) r.1
  unfolding load_document load_reference
  document_then file doc c r untold loaded v h =
      let e = Event.set_master_volume (fl.db_to_linear (file_volume fl pr ld sv doc)) in
      let d = file_distance fl pr ld sv doc in
      let (c1, first, then_rest) =
        >>=-eq-some (publish fl pr e c)
          (λ c1. load_reference fl pr ld sv file doc (set_scene_distance fl pr ld sv d c1)) h in
      reference_then file (doc.eval_xpath (codes "//scene_setup/source"))
        (read_reference fl ld.readers (doc.eval_xpath (codes "//scene_setup/reference")))
        (set_scene_distance fl pr ld sv d c1) r loaded
        (set_scene_distance-Synced fl pr ld sv ext d c1 untold
          (publish-Synced fl pr e c c1 tt v first))
        then_rest

  spontaneous_then :
      (file : Text) (n : ℕ) (c : Controller F) (r : Bool × Controller F)
      → Synced ext c
      → spontaneous_scene fl pr ld sv file n c ≡ some r
      → Synced (with_aim ext) r.1
  unfolding spontaneous_scene
  spontaneous_then file n c r v h =
      let e = Event.set_master_volume (fl.db_to_linear (ld.arithmetic.negate (fl.lit 6))) in
      let es = reference_events fl pr ld sv (origin fl) (facing fl 90) in
      let ts = spontaneous_sources fl pr ld sv (pure_file_name fl pr ld sv file) file n in
      let f1 : Controller F → Option (Controller F) =
        λ c1. set_amplitude_reference_distance fl pr ld.conf.stand_ampl_ref_dist c1 in
      let f2 : Controller F → Option (Controller F) = λ c2. publish_all fl pr es c2 in
      let f3 : Controller F → Option (Controller F) = λ c3. new_sources fl pr ld sv ts c3 in
      let (c4, h4, last) =
        >>=-eq-some (publish fl pr e c >>= f1 >>= f2 >>= f3) (λ c4. some (true, c4)) h in
      let (c3, h3, k4) = >>=-eq-some (publish fl pr e c >>= f1 >>= f2) f3 h4 in
      let (c2, h2, k3) = >>=-eq-some (publish fl pr e c >>= f1) f2 h3 in
      let (c1, h1, k2) = >>=-eq-some (publish fl pr e c) f1 h2 in
      let v1 = publish-Synced fl pr e c c1 tt v h1 in
      let v2 = set_distance-Synced fl pr ld.conf.stand_ampl_ref_dist c1 c2 v1 k2 in
      let v3 = reference_events-Synced (origin fl) (facing fl 90) c2 c3 v2 k3 in
      subst (λ r. Synced (with_aim ext) r.1) (some-injective _ _ last)
        (new_sources-keeps fl pr (Synced (with_aim ext)) (quiet-Synced fl pr ld sv (with_aim ext))
          ld sv (λ t c c' v h. new_source-Synced fl pr sv t c c' v h) ts c3 c4 v3 k4)

  -- A scene that was not loaded is no scene.
  unloaded :
      (P : Bool × Controller F → Type 0) (c : Controller F) (r : Bool × Controller F)
      → r.0 ≡ true
      → some (false, c) ≡ some r
      → P r
  unloaded P c r loaded h =
      let clash : false ≡ true = ap (λ r. r.0) (some-injective _ _ h) ∙ loaded in cc

  format_then :
      (file : Text) (o : Option ℕ) (c : Controller F) (s : Bool × Controller F)
      → s.0 ≡ true
      → Synced ext c
      → elim o [
        | none ↦ none
        | some n ↦ if n == 0 then some (false, c) else spontaneous_scene fl pr ld sv file n c
      ]
        ≡ some s
      → Synced (with_aim ext) s.1
  format_then file none c s loaded v h = cc
  format_then file (some n) c s loaded v h =
      branch (n == 0) (some (false, c)) (spontaneous_scene fl pr ld sv file n c) (some s)
        (λ e k. unloaded (λ s. Synced (with_aim ext) s.1) c s loaded k)
        (λ e k. spontaneous_then file n c s v k) h

  ended :
      (s r : Bool × Controller F)
      → (s.0 ≡ true → Synced (with_aim ext) s.1)
      → r.0 ≡ true
      → started_if fl pr ld sv s ≡ some r
      → Synced (with_aim ext) r.1
  ended (true, c) r v loaded h =
      started-keeps fl pr (Synced (with_aim ext)) (quiet-Synced fl pr ld sv (with_aim ext)) ld sv c
        r (v refl) h
  ended (false, c) r v loaded h = unloaded (λ s. Synced (with_aim ext) s.1) c r loaded h

  read_then :
      (file : Text) (o : Option Document) (c : Controller F) (r : Bool × Controller F)
      → ext.told ≡ false
      → r.0 ≡ true
      → Synced ext c
      → elim o [
        | none ↦ some (false, c)
        | some doc ↦
            if empty ld.conf.xml_schema || not (doc.validate ld.conf.xml_schema)
            then some (false, c)
            else load_document fl pr ld sv file doc c
      ]
        ≡ some r
      → Synced (with_aim ext) r.1
  read_then file none c r quiet loaded v h = unloaded (λ s. Synced (with_aim ext) s.1) c r loaded h
  read_then file (some doc) c r quiet loaded v h =
      branch (empty ld.conf.xml_schema || not (doc.validate ld.conf.xml_schema)) (some (false, c))
        (load_document fl pr ld sv file doc c) (some r)
        (λ e k. unloaded (λ s. Synced (with_aim ext) s.1) c r loaded k)
        (λ e k. document_then file doc c r quiet loaded v k) h

  load_into-aimed :
      (file : Text) (c : Controller F) (r : Bool × Controller F)
      → empty file ≡ false
      → (ext.told ≡ true → eq_text (get_file_extension file) (codes "asd") ≡ false)
      → r.0 ≡ true
      → Synced ext c
      → load_into fl pr ld sv file c ≡ some r
      → Synced (with_aim ext) r.1
  unfolding load_into create_spontaneous_scene
  load_into-aimed file c r named l loaded v h =
      branch (empty file) (some (true, c)) _ (some r) (λ e k. ground (arith, e, named))
        (λ e k.
          branch (empty (get_file_extension file)) (some (false, c)) _ (some r)
            (λ e' k'. unloaded (λ s. Synced (with_aim ext) s.1) c r loaded k')
            (λ e' k'.
              branch (eq_text (get_file_extension file) (codes "asd")) _ _ (some r)
                (λ is_scene k''.
                  read_then file (ld.load_file file) c r (ground (arith, l, is_scene)) loaded v k'')
                (λ other k''.
                  let (s, made, last) =
                    >>=-eq-some (create_spontaneous_scene fl pr ld sv file c)
                      (started_if fl pr ld sv) k'' in
                  ended s r (λ begun. format_then file (ld.get_format file) c s begun v made) loaded
                    last)
                k')
            k)
        h

-- A scene that is loaded brings the Scene and the renderer to agree on the reference orientation, too,
-- if they agreed on the rest and a file is named.
pub load_scene-aimed :
    {F : Type 0} (fl : Floats F) (pr : Printer F) (ld : Loader F) (sv : Services) (ext : Extent)
    (file : Text) (c : Controller F) (r : Bool × Controller F)
    → empty file ≡ false
    → (ext.told ≡ true → eq_text (get_file_extension file) (codes "asd") ≡ false)
    → r.0 ≡ true
    → Synced ext c
    → load_scene fl pr ld sv file c ≡ some r
    → Synced (with_aim ext) r.1
unfolding load_scene
load_scene-aimed fl pr ld sv ext file c r named l loaded v h =
    let (c2, before, last) =
      >>=-eq-some (stop_processing fl pr c >>= λ c1. delete_all_sources fl pr c1)
        (λ c2. load_into fl pr ld sv file c2) h in
    let (c1, first, second) =
      >>=-eq-some (stop_processing fl pr c) (λ c1. delete_all_sources fl pr c1) before in
    load_into-aimed fl pr ld sv ext file c2 r named l loaded
      (delete_all-Synced fl pr c1 c2 (stop_processing-Synced fl pr c c1 v first) second) last
