-- ===== src/Controller/Loading/Agreement.antt =====
-- Loading a scene keeps the Scene and the renderer in agreement, but for the amplitude reference
-- distance, which a scene file sets in the Scene alone.
use mathlib.Core.Option.{some-injective}
use ssr_pre.Common.{
  ◌≡◌, Option, none, some, Bool, true, false, if◌then◌else◌, subst, not, arith, refl, ◌||◌, ◌==◌, ℕ,
}
use ssr_pre.Common.Text.{Text, codes, eq_text}
use ssr_pre.Geometry.{Floats, origin, facing}
use ssr_pre.Subscriber.{Event}
use ssr_pre.Network.{Printer}
use ssr_pre.CommandParser.{empty}
use ssr_pre.PathTools.{get_file_extension}
use ssr_pre.SceneFile.{Document}
use ssr_pre.Controller.{
  Controller, Services, ◌>>=◌, publish, publish_all, set_amplitude_reference_distance,
  stop_processing, delete_all_sources,
}
use ssr_pre.Controller.Sync.{Extent, IsChange}
use ssr_pre.Controller.Publish.{>>=-eq-some, Synced, publish-Synced}
use ssr_pre.Controller.Register.{new_source-Synced}
use ssr_pre.Controller.Upkeep.{stop_processing-Synced, delete_all-Synced, set_distance-Synced}
use ssr_pre.Controller.Loading.{
  Loader, load_scene, load_into, load_document, load_reference, create_spontaneous_scene,
  spontaneous_scene, new_sources, set_scene_distance, file_volume, file_distance, started_if,
  reference_events, spontaneous_sources, pure_file_name,
}
use ssr_pre.Controller.Loading.Keeping.{
  IsQuiet, publish_all-keeps, started-keeps, load_reference-keeps, new_sources-keeps,
}

-- What a conditional gives, one of its branches gives.
pub branch :
    {A P : Type 0} (b : Bool) (x y r : A)
    → (b ≡ true → x ≡ r → P)
    → (b ≡ false → y ≡ r → P)
    → (if b then x else y) ≡ r
    → P
branch true x y r f g h = f refl h
branch false x y r f g h = g refl h

IsQuiet-IsChange : {F : Type 0} (e : Event F) → IsQuiet e → IsChange e
IsQuiet-IsChange e q = ground arith

module _ {F : Type 0} (fl : Floats F) (pr : Printer F) (ld : Loader F) (sv : Services)
    (ext : Extent) where
  pub quiet-Synced :
      (e : Event F) (c c' : Controller F)
      → IsQuiet e
      → Synced ext c
      → publish fl pr e c ≡ some c'
      → Synced ext c'
  quiet-Synced e c c' q v h = publish-Synced fl pr e c c' (IsQuiet-IsChange e q) v h

  pub set_scene_distance-Synced :
      (d : F) (c : Controller F)
      → ext.told ≡ false
      → Synced ext c
      → Synced ext (set_scene_distance fl pr ld sv d c)
  set_scene_distance-Synced d c untold v = record {
    rest = v.rest;
    listening = v.listening;
    only = v.only;
    agree = record {
      order = v.agree.order;
      sources = v.agree.sources;
      state = record {
        reference_position = v.agree.state.reference_position;
        reference_orientation = v.agree.state.reference_orientation;
        offset_position = v.agree.state.offset_position;
        offset_orientation = v.agree.state.offset_orientation;
        master_volume = v.agree.state.master_volume;
        processing = v.agree.state.processing;
        distance = λ t. ground (arith, t, untold);
      };
    };
  }

  load_document-Synced :
      (file : Text) (doc : Document) (c : Controller F) (r : Bool × Controller F)
      → ext.told ≡ false
      → Synced ext c
      → load_document fl pr ld sv file doc c ≡ some r
      → Synced ext r.1
  unfolding load_document
  load_document-Synced file doc c r untold v h =
      let e = Event.set_master_volume (fl.db_to_linear (file_volume fl pr ld sv doc)) in
      let d = file_distance fl pr ld sv doc in
      let (c1, first, then_rest) =
        >>=-eq-some (publish fl pr e c)
          (λ c1. load_reference fl pr ld sv file doc (set_scene_distance fl pr ld sv d c1)) h in
      load_reference-keeps fl pr (Synced ext) quiet-Synced ld sv
        (λ t c c' v h. new_source-Synced fl pr sv t c c' v h) file doc
        (set_scene_distance fl pr ld sv d c1) r
        (set_scene_distance-Synced d c1 untold (quiet-Synced e c c1 tt v first)) then_rest

  sources_then :
      (file : Text) (n : ℕ) (c : Controller F) (r : Bool × Controller F)
      → Synced ext c
      → spontaneous_scene fl pr ld sv file n c ≡ some r
      → Synced ext r.1
  unfolding spontaneous_scene
  sources_then file n c r v h =
      let e = Event.set_master_volume (fl.db_to_linear (ld.arithmetic.negate (fl.lit 6))) in
      let es = reference_events fl pr ld sv (origin fl) (facing fl 90) in
      let ts = spontaneous_sources fl pr ld sv (pure_file_name fl pr ld sv file) file n in
      let f1 : Controller F → Option (Controller F) =
        λ c1. set_amplitude_reference_distance fl pr ld.conf.stand_ampl_ref_dist c1 in
      let f2 : Controller F → Option (Controller F) = λ c2. publish_all fl pr es c2 in
      let f3 : Controller F → Option (Controller F) = λ c3. new_sources fl pr ld sv ts c3 in
      let (c4, h4, last) =
        >>=-eq-some (publish fl pr e c >>= f1 >>= f2 >>= f3) (λ c4. some (true, c4)) h in
      let (c3, h3, k4) = >>=-eq-some (publish fl pr e c >>= f1 >>= f2) f3 h4 in
      let (c2, h2, k3) = >>=-eq-some (publish fl pr e c >>= f1) f2 h3 in
      let (c1, h1, k2) = >>=-eq-some (publish fl pr e c) f1 h2 in
      let v1 = quiet-Synced e c c1 tt v h1 in
      let v2 = set_distance-Synced fl pr ld.conf.stand_ampl_ref_dist c1 c2 v1 k2 in
      let v3 = publish_all-keeps fl pr (Synced ext) quiet-Synced es c2 c3 (ground arith) v2 k3 in
      subst (λ r. Synced ext r.1) (some-injective _ _ last)
        (new_sources-keeps fl pr (Synced ext) quiet-Synced ld sv
          (λ t c c' v h. new_source-Synced fl pr sv t c c' v h) ts c3 c4 v3 k4)

  format_then :
      (file : Text) (o : Option ℕ) (c : Controller F) (r : Bool × Controller F)
      → Synced ext c
      → elim o [
        | none ↦ none
        | some n ↦ if n == 0 then some (false, c) else spontaneous_scene fl pr ld sv file n c
      ]
        ≡ some r
      → Synced ext r.1
  format_then file none c r v h = cc
  format_then file (some n) c r v h =
      branch (n == 0) (some (false, c)) (spontaneous_scene fl pr ld sv file n c) (some r)
        (λ e k. subst (λ r. Synced ext r.1) (some-injective _ _ k) v)
        (λ e k. sources_then file n c r v k) h

  spontaneous-Synced :
      (file : Text) (c : Controller F) (r : Bool × Controller F)
      → Synced ext c
      → create_spontaneous_scene fl pr ld sv file c ≡ some r
      → Synced ext r.1
  unfolding create_spontaneous_scene
  spontaneous-Synced file c r v h = format_then file (ld.get_format file) c r v h

  end-Synced :
      (s r : Bool × Controller F)
      → Synced ext s.1
      → started_if fl pr ld sv s ≡ some r
      → Synced ext r.1
  end-Synced (true, c) r v h = started-keeps fl pr (Synced ext) quiet-Synced ld sv c r v h
  end-Synced (false, c) r v h = subst (λ r. Synced ext r.1) (some-injective _ _ h) v

  read_then :
      (file : Text) (o : Option Document) (c : Controller F) (r : Bool × Controller F)
      → ext.told ≡ false
      → Synced ext c
      → elim o [
        | none ↦ some (false, c)
        | some doc ↦
            if empty ld.conf.xml_schema || not (doc.validate ld.conf.xml_schema)
            then some (false, c)
            else load_document fl pr ld sv file doc c
      ]
        ≡ some r
      → Synced ext r.1
  read_then file none c r untold v h = subst (λ r. Synced ext r.1) (some-injective _ _ h) v
  read_then file (some doc) c r untold v h =
      branch (empty ld.conf.xml_schema || not (doc.validate ld.conf.xml_schema)) (some (false, c))
        (load_document fl pr ld sv file doc c) (some r)
        (λ e k. subst (λ r. Synced ext r.1) (some-injective _ _ k) v)
        (λ e k. load_document-Synced file doc c r untold v k) h

  load_into-Synced :
      (file : Text) (c : Controller F) (r : Bool × Controller F)
      → (ext.told ≡ true → eq_text (get_file_extension file) (codes "asd") ≡ false)
      → Synced ext c
      → load_into fl pr ld sv file c ≡ some r
      → Synced ext r.1
  unfolding load_into
  load_into-Synced file c r l v h =
      let same : (b : Bool) → some (b, c) ≡ some r → Synced ext r.1 =
        λ b k. subst (λ r. Synced ext r.1) (some-injective _ _ k) v in
      branch (empty file) (some (true, c)) _ (some r) (λ e k. same true k)
        (λ e k.
          branch (empty (get_file_extension file)) (some (false, c)) _ (some r)
            (λ e' k'. same false k')
            (λ e' k'.
              branch (eq_text (get_file_extension file) (codes "asd")) _ _ (some r)
                (λ is_scene k''.
                  read_then file (ld.load_file file) c r (ground (arith, l, is_scene)) v k'')
                (λ other k''.
                  let (s, made, last) =
                    >>=-eq-some (create_spontaneous_scene fl pr ld sv file c)
                      (started_if fl pr ld sv) k'' in
                  end-Synced s r (spontaneous-Synced file c s v made) last)
                k')
            k)
        h

-- load_scene() keeps the Scene and the renderer in agreement when it returns, whatever it
-- returns; on the amplitude reference distance (`ext.told` is true) it does so if the file has
-- not the extension "asd".
pub load_scene-Synced :
    {F : Type 0} (fl : Floats F) (pr : Printer F) (ld : Loader F) (sv : Services) {ext : Extent}
    (file : Text) (c : Controller F) (r : Bool × Controller F)
    → (ext.told ≡ true → eq_text (get_file_extension file) (codes "asd") ≡ false)
    → Synced ext c
    → load_scene fl pr ld sv file c ≡ some r
    → Synced ext r.1
unfolding load_scene
load_scene-Synced fl pr ld sv {ext} file c r l v h =
    let (c2, before, last) =
      >>=-eq-some (stop_processing fl pr c >>= λ c1. delete_all_sources fl pr c1)
        (λ c2. load_into fl pr ld sv file c2) h in
    let (c1, first, second) =
      >>=-eq-some (stop_processing fl pr c) (λ c1. delete_all_sources fl pr c1) before in
    load_into-Synced fl pr ld sv ext file c2 r l
      (delete_all-Synced fl pr c1 c2 (stop_processing-Synced fl pr c c1 v first) second) last
