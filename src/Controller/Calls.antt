-- ===== src/Controller/Calls.antt =====
-- src/controller.h: the functions of the Publisher interface, which the Controller implements. The
-- calls of the JACK transport and of the tracker do not change the state that is modelled, and what
-- load_scene() and save_scene_as_XML() return is thrown away by the network server and the GUI.
use ssr_pre.Common.{List, [], ◌∷◌, Option, some}
use ssr_pre.Geometry.{Floats}
use ssr_pre.Subscriber.{Event}
use ssr_pre.Publisher
use ssr_pre.Network.{Printer}
use ssr_pre.Controller.{
  Controller, Services, ◌>>=◌, publish, new_source, set_processing_state, start_processing,
  stop_processing, set_source_position, set_amplitude_reference_distance, delete_source,
  delete_all_sources,
}
use ssr_pre.Controller.Loading.{Loader, load_scene}
use ssr_pre.Controller.Saving.{save_scene_as_xml}

module _ {F : Type 0} (fl : Floats F) (pr : Printer F) where
  unfoldable pub perform :
      Loader F → Services → Publisher.Call F → Controller F → Option (Controller F)
  perform ld sv (Publisher.load_scene file) =
      λ c. load_scene fl pr ld sv file c >>= λ result. some result.1
  perform ld sv (Publisher.save_scene_as_xml file) =
      λ c. save_scene_as_xml fl pr ld.writer ld.cwd file c.scene >>= λ saved. some c
  perform ld sv Publisher.start_processing = start_processing fl pr
  perform ld sv Publisher.stop_processing = stop_processing fl pr
  perform ld sv (Publisher.new_source t) = new_source fl pr sv t
  perform ld sv (Publisher.delete_source id) = delete_source fl pr id
  perform ld sv Publisher.delete_all_sources = delete_all_sources fl pr
  perform ld sv (Publisher.set_source_position id p) = set_source_position fl pr id p
  perform ld sv (Publisher.set_source_orientation id p) =
      publish fl pr (Event.set_source_orientation id p)
  perform ld sv (Publisher.set_source_gain id p) = publish fl pr (Event.set_source_gain id p)
  perform ld sv (Publisher.set_source_signal_level id p) =
      publish fl pr (Event.set_source_signal_level id p)
  perform ld sv (Publisher.set_source_mute id p) = publish fl pr (Event.set_source_mute id p)
  perform ld sv (Publisher.set_source_name id p) = publish fl pr (Event.set_source_name id p)
  perform ld sv (Publisher.set_source_properties_file id p) =
      publish fl pr (Event.set_source_properties_file id p)
  perform ld sv (Publisher.set_source_model id p) = publish fl pr (Event.set_source_model id p)
  perform ld sv (Publisher.set_source_port_name id p) =
      publish fl pr (Event.set_source_port_name id p)
  perform ld sv (Publisher.set_source_file_name id p) =
      publish fl pr (Event.set_source_file_name id p)
  perform ld sv (Publisher.set_source_file_channel id p) =
      publish fl pr (Event.set_source_file_channel id p)
  perform ld sv (Publisher.set_source_position_fixed id p) =
      publish fl pr (Event.set_source_position_fixed id p)
  perform ld sv (Publisher.set_reference_position p) =
      publish fl pr (Event.set_reference_position p)
  perform ld sv (Publisher.set_reference_orientation p) =
      publish fl pr (Event.set_reference_orientation p)
  perform ld sv (Publisher.set_reference_offset_position p) =
      publish fl pr (Event.set_reference_offset_position p)
  perform ld sv (Publisher.set_reference_offset_orientation p) =
      publish fl pr (Event.set_reference_offset_orientation p)
  perform ld sv (Publisher.set_master_volume p) = publish fl pr (Event.set_master_volume p)
  perform ld sv (Publisher.set_amplitude_reference_distance p) =
      set_amplitude_reference_distance fl pr p
  perform ld sv (Publisher.set_master_signal_level p) =
      publish fl pr (Event.set_master_signal_level p)
  perform ld sv (Publisher.set_cpu_load p) = publish fl pr (Event.set_cpu_load p)
  perform ld sv (Publisher.publish_sample_rate p) = publish fl pr (Event.set_sample_rate p)
  perform ld sv (Publisher.set_processing_state p) = set_processing_state fl pr p
  perform ld sv Publisher.transport_start = some
  perform ld sv Publisher.transport_stop = some
  perform ld sv (Publisher.transport_locate time) = some
  perform ld sv Publisher.calibrate_client = some

  unfoldable pub perform_all :
      Loader F → Services → List (Publisher.Call F) → Controller F → Option (Controller F)
  perform_all ld sv [] c = some c
  perform_all ld sv (call ∷ calls) c = perform ld sv call c >>= perform_all ld sv calls
