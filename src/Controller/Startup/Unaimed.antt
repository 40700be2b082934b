-- ===== src/Controller/Startup/Unaimed.antt =====
-- A start without a scene: the Scene looks into another direction than the renderer.
use ssr_pre.Common.{
  ◌≡◌, refl, sym, ap, subst, ◌∙◌, Bool, true, false, not, ◌&&◌, [], Option, some, arith,
}
use ssr_pre.Common.Text.{eq_text}
use ssr_pre.CommandParser.{empty}
use ssr_pre.Configuration.{Conf}
use ssr_pre.Geometry.{Floats, facing}
use ssr_pre.Network.{Printer}
use ssr_pre.Scene
use ssr_pre.Renderer
use ssr_pre.Renderer.{empty_renderer}
use ssr_pre.Controller.{
  Controller, Services, publish, publish_to, deliver, stop_processing, set_processing_state,
  delete_all_sources,
}
use ssr_pre.Controller.Loading.{Loader, load_scene, load_into}
use ssr_pre.Controller.Startup.{
  Host, Program, open_scene, set_up, construct, without_gui, without_freewheeling,
}
use ssr_pre.Controller.Startup.Beginning.{
  first_scene, introduced, introduce_lem, Obliging, construct-set_up, without_gui-scene_file_name,
}

module _ {F : Type 0} (fl : Floats F) (pr : Printer F) (sv : Services) (host : Host F) where
  -- The Controller that has loaded no scene.
  abbrev unaimed : Bool → Controller F
  unaimed loop = record (introduced fl pr host loop) {
    scene = record (first_scene fl pr host) { processing_state = false };
    renderer = record (empty_renderer fl) {
      state = record ((empty_renderer fl).state) { processing = false };
    };
  }

  load_scene-nothing :
      (ld : Loader F) (loop : Bool)
      → load_scene fl pr ld sv [] (introduced fl pr host loop) ≡ some (true, unaimed loop)
  unfolding load_scene load_into stop_processing set_processing_state publish publish_to deliver
      delete_all_sources Scene.receive Renderer.receive Renderer.rem_all_sources Renderer.rem_loop
      eq_text
  load_scene-nothing ld loop = refl

module _ {P F : Type 0} (fl : Floats F) where
  -- A program without a scene, and the directions in it.
  pub record Unaimed (p : Program P F) : Type 0 where
    pub scene : p.controller.scene.reference.orientation ≡ facing fl 90
    pub renderer : p.controller.renderer.state.reference_orientation ≡ facing fl 0

  abbrev Begins : Option (Program P F) → Type 0
  Begins o = (p : Program P F) × (o ≡ some p) × Unaimed p

module _ {P F : Type 0} (fl : Floats F) (pr : Printer F) (ld : Loader F) (sv : Services)
    (host : Host F) where
  open_scene-Unaimed :
      (conf : Conf P F) (recorder loop : Bool)
      → conf.scene_file_name ≡ []
      → host.freewheels ≡ true
      → host.listens conf.server_port ≡ true
      → Begins fl (open_scene fl pr ld sv host conf recorder (introduced fl pr host loop))
  unfolding open_scene
  open_scene-Unaimed conf recorder loop none_named free heard =
      let free' : (conf.freewheeling && not host.freewheels) ≡ false = ground arith in
      let heard' : (conf.ip_server && not (host.listens conf.server_port)) ≡ false = ground arith in
      rw (none_named, load_scene-nothing)
        (rw (free', heard') (_, refl, record { scene = refl; renderer = refl }))

  without_gui-file :
      (conf : Conf P F)
      → (without_gui (without_freewheeling conf)).audio_recorder_file_name
        ≡ conf.audio_recorder_file_name
  unfolding without_gui without_freewheeling
  without_gui-file conf = ground arith

  set_up-Unaimed :
      (conf : Conf P F)
      → conf.scene_file_name ≡ []
      → empty conf.audio_recorder_file_name ≡ true
      → host.freewheels ≡ true
      → host.listens conf.server_port ≡ true
      → Begins fl (set_up fl pr ld sv host conf)
  unfolding set_up
  set_up-Unaimed conf none_named silent free heard =
      rw (introduce_lem fl pr host conf.loop)
        (rw silent (open_scene-Unaimed conf false conf.loop none_named free heard))

  -- Without a scene file and an audio recorder, the constructor returns, and the reference of the
  -- Scene looks in the direction 90, that of the renderer in the direction 0, if the reproduction
  -- setup can be loaded, the build has a server and a GUI, and the libraries do what they are
  -- asked for.
  pub construct-Unaimed :
      (conf : Conf P F)
      → conf.scene_file_name ≡ []
      → empty conf.audio_recorder_file_name ≡ true
      → Obliging host
      → (p : Program P F) × (construct fl pr ld sv host conf ≡ some p) × Unaimed fl p
  construct-Unaimed conf none_named silent obliging =
      let adapted = without_gui (without_freewheeling conf) in
      subst (Begins fl) (sym (construct-set_up fl pr ld sv host conf obliging)) (
        set_up-Unaimed adapted (without_gui-scene_file_name conf ∙ none_named)
          (ap empty (without_gui-file conf) ∙ silent) obliging.freewheeling
          (obliging.listening adapted.server_port))
