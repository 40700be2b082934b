-- ===== src/Controller/Loading/Returning.antt =====
-- load_scene() returns while there is a working directory and no channel is negative.
use ssr_pre.Common.{
  ℕ, ◌≡◌, refl, sym, subst, Bool, true, false, not, ◌||◌, List, Option, none, some, arith,
  if◌then◌else◌, ◌==◌,
}
use ssr_pre.Common.Text.{Text, codes, eq_text}
use ssr_pre.Geometry.{Floats, Position, Orientation, origin, facing}
use ssr_pre.Subscriber.{Event}
use ssr_pre.Network.{Printer}
use ssr_pre.CommandParser.{empty}
use ssr_pre.PathTools.{get_file_extension}
use ssr_pre.SceneFile.{Document, Node, read_reference}
use ssr_pre.Controller.{
  Controller, Services, ◌>>=◌, publish, publish_all, delete_all_sources, stop_processing,
  set_processing_state, set_amplitude_reference_distance,
}
use ssr_pre.Controller.Standing.{
  Standing, Stands, publish-Stands, bind-Stands, publish_all-Stands, if-Stands, delete_all-Stands,
}
use ssr_pre.Controller.Loading.{
  Loader, load_sources, new_sources, started, started_if, reference_events, set_scene_distance,
  load_reference, load_document, load_into, load_scene, file_volume, file_distance,
  spontaneous_scene, spontaneous_sources, pure_file_name, create_spontaneous_scene,
}
use ssr_pre.Controller.Loading.Sources.{
  StandsWith, IsSpontaneous, AllNamed, AllRead, Playable, bind-StandsWith, started-StandsWith,
  load_sources-Stands, new_sources-Stands,
}

module _ {F : Type 0} (fl : Floats F) (pr : Printer F) (ld : Loader F) (sv : Services) where
  reference_then :
      (scene_file cwd : Text) (nodes : List Node) (o : Option (Position F × Orientation F))
      (c : Controller F)
      → ld.cwd ≡ some cwd
      → AllRead fl pr ld sv cwd scene_file nodes
      → Standing c
      → StandsWith (elim o [
        | none ↦ some (false, c)
        | some (position, orientation) ↦
            publish_all fl pr (reference_events fl pr ld sv position orientation) c
            >>= (λ c1. load_sources fl pr ld sv scene_file nodes c1)
            >>= started fl pr ld sv
      ])
  reference_then scene_file cwd nodes none c here k v = ((false, c), refl, v)
  reference_then scene_file cwd nodes (some (p, o)) c here k v =
      let es = reference_events fl pr ld sv p o in
      bind-StandsWith fl pr ld sv
        (publish_all fl pr es c >>= λ c1. load_sources fl pr ld sv scene_file nodes c1)
        (started fl pr ld sv)
        (bind-Stands fl pr (publish_all fl pr es c)
          (λ c1. load_sources fl pr ld sv scene_file nodes c1)
          (publish_all-Stands fl pr es c (ground arith) v)
          (λ c1 w. load_sources-Stands fl pr ld sv cwd scene_file nodes c1 here k.0 k.1 w))
        (started-StandsWith fl pr ld sv)

  load_document-StandsWith :
      (cwd file : Text) (doc : Document) (c : Controller F)
      → ld.cwd ≡ some cwd
      → AllRead fl pr ld sv cwd file (doc.eval_xpath (codes "//scene_setup/source"))
      → Standing c
      → StandsWith (load_document fl pr ld sv file doc c)
  unfolding load_document load_reference
  load_document-StandsWith cwd file doc c here k v =
      let e = Event.set_master_volume (fl.db_to_linear (file_volume fl pr ld sv doc)) in
      bind-StandsWith fl pr ld sv (publish fl pr e c)
        (λ c1.
          load_reference fl pr ld sv file doc
            (set_scene_distance fl pr ld sv (file_distance fl pr ld sv doc) c1))
        (publish-Stands fl pr e c tt v)
        (λ c1 w.
          reference_then file cwd (doc.eval_xpath (codes "//scene_setup/source"))
            (read_reference fl ld.readers (doc.eval_xpath (codes "//scene_setup/reference")))
            (set_scene_distance fl pr ld sv (file_distance fl pr ld sv doc) c1) here k
            (record {
              rest = w.rest;
              listening = w.listening;
              only = w.only;
              order = w.order;
              known = w.known;
            }))

  set_distance-Stands :
      (p : F) (c : Controller F) → Standing c → Stands (set_amplitude_reference_distance fl pr p c)
  unfolding set_amplitude_reference_distance
  set_distance-Stands p c v =
      if-Stands fl pr (fl.greater p (fl.lit 1)) (Event.set_amplitude_reference_distance p) c tt v

  spontaneous-StandsWith :
      (file : Text) (n : ℕ) (c : Controller F)
      → AllNamed fl pr ld sv
          (spontaneous_sources fl pr ld sv (pure_file_name fl pr ld sv file) file n)
      → Standing c
      → StandsWith (spontaneous_scene fl pr ld sv file n c)
  unfolding spontaneous_scene
  spontaneous-StandsWith file n c named v =
      let e = Event.set_master_volume (fl.db_to_linear (ld.arithmetic.negate (fl.lit 6))) in
      let es = reference_events fl pr ld sv (origin fl) (facing fl 90) in
      let ts = spontaneous_sources fl pr ld sv (pure_file_name fl pr ld sv file) file n in
      let f1 : Controller F → Option (Controller F) =
        λ c1. set_amplitude_reference_distance fl pr ld.conf.stand_ampl_ref_dist c1 in
      let f2 : Controller F → Option (Controller F) = λ c2. publish_all fl pr es c2 in
      let f3 : Controller F → Option (Controller F) = λ c3. new_sources fl pr ld sv ts c3 in
      let s1 =
        bind-Stands fl pr (publish fl pr e c) f1 (publish-Stands fl pr e c tt v)
          (λ c1 w. set_distance-Stands ld.conf.stand_ampl_ref_dist c1 w) in
      let s2 =
        bind-Stands fl pr (publish fl pr e c >>= f1) f2 s1
          (λ c2 w. publish_all-Stands fl pr es c2 (ground arith) w) in
      let s3 =
        bind-Stands fl pr (publish fl pr e c >>= f1 >>= f2) f3 s2
          (λ c3 w. new_sources-Stands fl pr ld sv ts c3 named w) in
      bind-StandsWith fl pr ld sv (publish fl pr e c >>= f1 >>= f2 >>= f3) (λ c4. some (true, c4))
        s3 (λ c4 w. ((true, c4), refl, w))

  chosen :
      (b : Bool) (x y : Option (Bool × Controller F))
      → (b ≡ true → StandsWith x)
      → (b ≡ false → StandsWith y)
      → StandsWith (if b then x else y)
  chosen true x y v w = v refl
  chosen false x y v w = w refl

  document_then :
      (cwd file : Text) (o : Option Document) (c : Controller F)
      → ld.cwd ≡ some cwd
      → ((doc : Document)
          → o ≡ some doc
          → AllRead fl pr ld sv cwd file (doc.eval_xpath (codes "//scene_setup/source")))
      → Standing c
      → StandsWith (elim o [
        | none ↦ some (false, c)
        | some doc ↦
            if empty ld.conf.xml_schema || not (doc.validate ld.conf.xml_schema)
            then some (false, c)
            else load_document fl pr ld sv file doc c
      ])
  document_then cwd file none c here k v = ((false, c), refl, v)
  document_then cwd file (some doc) c here k v =
      chosen (empty ld.conf.xml_schema || not (doc.validate ld.conf.xml_schema)) (some (false, c))
        (load_document fl pr ld sv file doc c) (λ invalid. ((false, c), refl, v))
        (λ valid. load_document-StandsWith cwd file doc c here (k doc refl) v)

  ended-StandsWith :
      (o : Option (Bool × Controller F)) → StandsWith o → StandsWith (o >>= started_if fl pr ld sv)
  ended-StandsWith o ((true, c), e, v) =
      subst (λ o. StandsWith (o >>= started_if fl pr ld sv)) (sym e)
        (started-StandsWith fl pr ld sv c v)
  ended-StandsWith o ((false, c), e, v) =
      subst (λ o. StandsWith (o >>= started_if fl pr ld sv)) (sym e) ((false, c), refl, v)

  spontaneous_returns :
      (file : Text) (c : Controller F)
      → Playable fl pr ld sv file
      → Standing c
      → StandsWith (create_spontaneous_scene fl pr ld sv file c)
  unfolding create_spontaneous_scene
  spontaneous_returns file c (n, e, named) v =
      subst
        (λ o. StandsWith (elim o [
          | none ↦ none
          | some n ↦ if n == 0 then some (false, c) else spontaneous_scene fl pr ld sv file n c
        ]))
        (sym e)
        (chosen (n == 0) (some (false, c)) (spontaneous_scene fl pr ld sv file n c)
          (λ silent. ((false, c), refl, v)) (λ sounds. spontaneous-StandsWith file n c named v))

  load_into-StandsWith :
      (cwd file : Text) (c : Controller F)
      → ld.cwd ≡ some cwd
      → ((doc : Document)
          → ld.load_file file ≡ some doc
          → AllRead fl pr ld sv cwd file (doc.eval_xpath (codes "//scene_setup/source")))
      → (IsSpontaneous file → Playable fl pr ld sv file)
      → Standing c
      → StandsWith (load_into fl pr ld sv file c)
  unfolding load_into
  load_into-StandsWith cwd file c here k playable v =
      chosen (empty file) (some (true, c)) _ (λ none'. ((true, c), refl, v))
        (λ named.
          chosen (empty (get_file_extension file)) (some (false, c)) _
            (λ unknown. ((false, c), refl, v))
            (λ extended.
              chosen (eq_text (get_file_extension file) (codes "asd")) _ _
                (λ scene. document_then cwd file (ld.load_file file) c here k v)
                (λ sound.
                  ended-StandsWith (create_spontaneous_scene fl pr ld sv file c)
                    (spontaneous_returns file c (playable (named, extended, sound)) v))))

  -- load_scene() returns, without a failed assertion or an exception, and the Controller stands
  -- as before, if it is set up with all network subscribers and an ordered renderer and there is
  -- a working directory; for a scene file, if no <file> child of a source in the document has a
  -- negative channel; for a file of another kind, if Ecasound answers with a number of channels;
  -- and if no assertion fails in the audio player for the sound files of the sources.
  pub load_scene-Standing :
      (cwd file : Text) (c : Controller F)
      → ld.cwd ≡ some cwd
      → ((doc : Document)
          → ld.load_file file ≡ some doc
          → AllRead fl pr ld sv cwd file (doc.eval_xpath (codes "//scene_setup/source")))
      → (IsSpontaneous file → Playable fl pr ld sv file)
      → Standing c
      → (r : Bool × Controller F) × (load_scene fl pr ld sv file c ≡ some r) × Standing r.1
  unfolding load_scene stop_processing set_processing_state
  load_scene-Standing cwd file c here k playable v =
      let stop : Option (Controller F) = stop_processing fl pr c in
      let clear : Controller F → Option (Controller F) = λ c1. delete_all_sources fl pr c1 in
      bind-StandsWith fl pr ld sv (stop >>= clear) (λ c2. load_into fl pr ld sv file c2)
        (bind-Stands fl pr stop clear
          (if-Stands fl pr c.scene.processing_state (Event.set_processing_state false) c tt v)
          (λ c1 w. delete_all-Stands fl pr c1 w))
        (λ c2 w. load_into-StandsWith cwd file c2 here k playable w)
