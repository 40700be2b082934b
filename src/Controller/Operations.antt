-- ===== src/Controller/Operations.antt =====
-- The calls of the Publisher interface keep the Scene and the renderer in agreement.
use mathlib.Core.Option.{some-injective}
use ssr_pre.Common.{◌≡◌, List, [], ◌∷◌, some, true, false, subst, not}
use ssr_pre.Common.Text.{codes, eq_text}
use ssr_pre.Controller.Sync.{Extent}
use ssr_pre.Geometry.{Floats}
use ssr_pre.Subscriber.{Event}
use ssr_pre.Publisher.{Settings}
use ssr_pre.Publisher
use ssr_pre.Scene.{get_source_position_fixed}
use ssr_pre.Network.{Printer}
use ssr_pre.Controller.{
  Controller, Services, set_source_position, delete_source, set_processing_state,
}
use ssr_pre.Controller.Loading.{Loader, load_scene}
use ssr_pre.Controller.Loading.Agreement.{load_scene-Synced}
use ssr_pre.Controller.Saving.{save_scene_as_xml}
use ssr_pre.Controller.Calls.{perform, perform_all}
use ssr_pre.Controller.Upkeep.{
  KeepsSynced, maybe-Synced, start_processing-Synced, stop_processing-Synced, set_distance-Synced,
  delete_all-Synced,
}
use ssr_pre.PathTools.{get_file_extension}
use ssr_pre.Controller.Publish.{>>=-eq-some, Synced, publish-Synced, >>=-eq-some}
use ssr_pre.Controller.Register.{new_source-Synced}

module _ {F : Type 0} (fl : Floats F) (pr : Printer F) where
  -- No scene file in which load_scene() finds an amplitude reference distance.
  abbrev pub IsTold : Publisher.Call F → Type 0
  IsTold (Publisher.load_scene file) = eq_text (get_file_extension file) (codes "asd") ≡ false
  IsTold _ = Unit

  perform-Synced :
      {ext : Extent} (ld : Loader F) (sv : Services) (call : Publisher.Call F)
      → (ext.told ≡ true → IsTold call)
      → KeepsSynced fl pr ext (perform fl pr ld sv call)
  unfolding perform set_processing_state set_source_position delete_source
  perform-Synced {ext} ld sv (Publisher.load_scene file) l c c' v h =
      let (result, loaded, last) =
        >>=-eq-some (load_scene fl pr ld sv file c) (λ result. some result.1) h in
      subst (Synced ext) (some-injective _ _ last)
        (load_scene-Synced fl pr ld sv file c result l v loaded)
  perform-Synced ld sv Publisher.start_processing l c c' v h =
      start_processing-Synced fl pr c c' v h
  perform-Synced ld sv Publisher.stop_processing l c c' v h = stop_processing-Synced fl pr c c' v h
  perform-Synced ld sv (Publisher.new_source t) l c c' v h = new_source-Synced fl pr sv t c c' v h
  perform-Synced ld sv (Publisher.delete_source id) l c c' v h =
      publish-Synced fl pr (Event.delete_source id) c c' tt v h
  perform-Synced ld sv Publisher.delete_all_sources l c c' v h = delete_all-Synced fl pr c c' v h
  perform-Synced ld sv (Publisher.set_source_position id p) l c c' v h =
      maybe-Synced fl pr (not (get_source_position_fixed id c.scene))
        (Event.set_source_position id p) c c' tt v h
  perform-Synced ld sv (Publisher.set_amplitude_reference_distance p) l c c' v h =
      set_distance-Synced fl pr p c c' v h
  perform-Synced {ext} ld sv (Publisher.save_scene_as_xml file) l c c' v h =
      let (result, saved, last) =
        >>=-eq-some (save_scene_as_xml fl pr ld.writer ld.cwd file c.scene) (λ saved. some c) h in
      subst (Synced ext) (some-injective _ _ last) v
  perform-Synced {ext} ld sv Publisher.transport_start l c c' v h =
      subst (Synced ext) (some-injective _ _ h) v
  perform-Synced {ext} ld sv Publisher.transport_stop l c c' v h =
      subst (Synced ext) (some-injective _ _ h) v
  perform-Synced {ext} ld sv (Publisher.transport_locate time) l c c' v h =
      subst (Synced ext) (some-injective _ _ h) v
  perform-Synced {ext} ld sv Publisher.calibrate_client l c c' v h =
      subst (Synced ext) (some-injective _ _ h) v
  perform-Synced ld sv (Publisher.set_source_orientation id p) l c c' v h =
      publish-Synced fl pr (Event.set_source_orientation id p) c c' tt v h
  perform-Synced ld sv (Publisher.set_source_gain id p) l c c' v h =
      publish-Synced fl pr (Event.set_source_gain id p) c c' tt v h
  perform-Synced ld sv (Publisher.set_source_signal_level id p) l c c' v h =
      publish-Synced fl pr (Event.set_source_signal_level id p) c c' tt v h
  perform-Synced ld sv (Publisher.set_source_mute id p) l c c' v h =
      publish-Synced fl pr (Event.set_source_mute id p) c c' tt v h
  perform-Synced ld sv (Publisher.set_source_name id p) l c c' v h =
      publish-Synced fl pr (Event.set_source_name id p) c c' tt v h
  perform-Synced ld sv (Publisher.set_source_properties_file id p) l c c' v h =
      publish-Synced fl pr (Event.set_source_properties_file id p) c c' tt v h
  perform-Synced ld sv (Publisher.set_source_model id p) l c c' v h =
      publish-Synced fl pr (Event.set_source_model id p) c c' tt v h
  perform-Synced ld sv (Publisher.set_source_port_name id p) l c c' v h =
      publish-Synced fl pr (Event.set_source_port_name id p) c c' tt v h
  perform-Synced ld sv (Publisher.set_source_file_name id p) l c c' v h =
      publish-Synced fl pr (Event.set_source_file_name id p) c c' tt v h
  perform-Synced ld sv (Publisher.set_source_file_channel id p) l c c' v h =
      publish-Synced fl pr (Event.set_source_file_channel id p) c c' tt v h
  perform-Synced ld sv (Publisher.set_source_position_fixed id p) l c c' v h =
      publish-Synced fl pr (Event.set_source_position_fixed id p) c c' tt v h
  perform-Synced ld sv (Publisher.set_reference_position p) l c c' v h =
      publish-Synced fl pr (Event.set_reference_position p) c c' tt v h
  perform-Synced ld sv (Publisher.set_reference_orientation p) l c c' v h =
      publish-Synced fl pr (Event.set_reference_orientation p) c c' tt v h
  perform-Synced ld sv (Publisher.set_reference_offset_position p) l c c' v h =
      publish-Synced fl pr (Event.set_reference_offset_position p) c c' tt v h
  perform-Synced ld sv (Publisher.set_reference_offset_orientation p) l c c' v h =
      publish-Synced fl pr (Event.set_reference_offset_orientation p) c c' tt v h
  perform-Synced ld sv (Publisher.set_master_volume p) l c c' v h =
      publish-Synced fl pr (Event.set_master_volume p) c c' tt v h
  perform-Synced ld sv (Publisher.set_master_signal_level p) l c c' v h =
      publish-Synced fl pr (Event.set_master_signal_level p) c c' tt v h
  perform-Synced ld sv (Publisher.set_cpu_load p) l c c' v h =
      publish-Synced fl pr (Event.set_cpu_load p) c c' tt v h
  perform-Synced ld sv (Publisher.publish_sample_rate p) l c c' v h =
      publish-Synced fl pr (Event.set_sample_rate p) c c' tt v h
  perform-Synced ld sv (Publisher.set_processing_state p) l c c' v h =
      publish-Synced fl pr (Event.set_processing_state p) c c' tt v h

  abbrev pub AllTold : List (Publisher.Call F) → Type 0
  AllTold [] = Unit
  AllTold (call ∷ calls) = IsTold call × AllTold calls

  -- Any sequence of Publisher calls keeps the Scene and the renderer in agreement, if they agreed
  -- before and all calls return. Where `ext.told` is true, so that the agreement speaks of the
  -- amplitude reference distance too, this holds if no call loads a file with the extension
  -- "asd".
  pub perform_all-Synced :
      {ext : Extent} (ld : Loader F) (sv : Services) (calls : List (Publisher.Call F))
      (c c' : Controller F)
      → (ext.told ≡ true → AllTold calls)
      → Synced ext c
      → perform_all fl pr ld sv calls c ≡ some c'
      → Synced ext c'
  unfolding perform_all
  perform_all-Synced {ext} ld sv [] c c' l v h = subst (Synced ext) (some-injective _ _ h) v
  perform_all-Synced ld sv (call ∷ calls) c c' l v h =
      let (c1, first, then_rest) =
        >>=-eq-some (perform fl pr ld sv call c) (perform_all fl pr ld sv calls) h in
      perform_all-Synced ld sv calls c1 c' (λ t. (l t).1)
        (perform-Synced ld sv call (λ t. (l t).0) c c1 v first) then_rest
