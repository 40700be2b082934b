-- ===== src/Controller/Startup/Beginning.antt =====
-- What the constructor of the Controller leaves behind: whether the Scene and the renderer agree.
use mathlib.Core.Option.{some-injective}
use ssr_pre.Common.{
  passed, ◌≡◌, refl, sym, ap, subst, ◌∙◌, Bool, true, false, not, ◌&&◌, List, [], ◌∷◌, none, some,
  arith,
}
use ssr_pre.Common.Assoc.{find}
use ssr_pre.Common.Int.{ℤ}
use ssr_pre.Common.Text.{Text, codes, eq_text}
use ssr_pre.CommandParser.{empty}
use ssr_pre.Configuration.{Conf}
use ssr_pre.Geometry.{Floats}
use ssr_pre.Network.{Printer}
use ssr_pre.PathTools.{get_file_extension}
use ssr_pre.Publisher
use ssr_pre.Scene
use ssr_pre.Scene.{Scene, empty_scene}
use ssr_pre.Controller.{Controller, Services, Handle, publish, publish_to, deliver, subscribe}
use ssr_pre.Controller.Calls.{perform_all}
use ssr_pre.Controller.Loading.{Loader, load_scene}
use ssr_pre.Controller.Loading.Agreement.{branch}
use ssr_pre.Controller.Loading.Aiming.{load_scene-aimed}
use ssr_pre.Controller.Operations.{AllTold, perform_all-Synced}
use ssr_pre.Controller.Publish.{>>=-eq-some, Synced}
use ssr_pre.Controller.Standing.{Standing}
use ssr_pre.Controller.Startup.{
  Host, Program, new_controller, introduce, load_audio_recorder, open_scene, set_up, construct,
  configured, without_gui, without_freewheeling,
}

module _ {F : Type 0} (fl : Floats F) (pr : Printer F) (host : Host F) where
  -- The Scene that has heard of the sample rate and the loudspeakers.
  abbrev pub first_scene : Scene F
  first_scene = record (empty_scene fl) {
    sample_rate = host.sample_rate;
    loudspeakers = host.loudspeakers;
  }

  -- The Controller before the first scene is loaded.
  abbrev pub introduced : Bool → Controller F
  introduced loop = record (new_controller fl) {
    loop_mode = loop;
    scene = first_scene;
    subscribers = Handle.scene ∷ Handle.renderer ∷ [];
  }

  pub introduce_lem :
      (loop : Bool)
      → introduce fl pr host (record (new_controller fl) { loop_mode = loop })
        ≡ some (introduced loop)
  unfolding introduce publish publish_to deliver subscribe Scene.receive
  introduce_lem loop = refl

  introduced-Synced :
      (told loop : Bool) → Synced (record { told = told; aimed = false }) (introduced loop)
  unfolding find
  introduced-Synced told loop = record {
    rest = [];
    listening = refl;
    only = tt;
    agree = record {
      order = record { ascending = tt; same_order = refl; same_inputs = refl };
      sources = λ j. tt;
      state = record {
        reference_position = refl;
        reference_orientation = λ aimed. cc;
        offset_position = refl;
        offset_orientation = refl;
        master_volume = refl;
        processing = refl;
        distance = λ t. refl;
      };
    };
  }

  pub introduced-Standing : (loop : Bool) → Standing (introduced loop)
  introduced-Standing loop = record {
    rest = [];
    listening = refl;
    only = tt;
    order = record { ascending = tt; same_order = refl; same_inputs = refl };
    known = tt;
  }

module _ {F : Type 0} (host : Host F) where
  -- The libraries do what they are asked for.
  pub record Obliging : Type 0 where
    pub setup : host.has_reproduction_setup ≡ true
    pub server_built : host.enable_ip_interface ≡ true
    pub gui_built : host.enable_gui ≡ true
    pub recording : (name : Text) → host.records name ≡ true
    pub freewheeling : host.freewheels ≡ true
    pub listening : (port : ℤ) → host.listens port ≡ true

module _ {P F : Type 0} where
  pub without_gui-scene_file_name :
      (conf : Conf P F)
      → (without_gui (without_freewheeling conf)).scene_file_name ≡ conf.scene_file_name
  unfolding without_gui without_freewheeling
  without_gui-scene_file_name conf = ground arith

module _ {P F : Type 0} (fl : Floats F) (pr : Printer F) (ld : Loader F) (sv : Services)
    (host : Host F) where
  -- A scene has been loaded into the Controller of a program.
  record Opened (conf : Conf P F) (c : Controller F) (p : Program P F) : Type 0 where
    pub result : Bool × Controller F
    pub loading :
        load_scene fl pr (configured fl pr ld sv host conf) sv conf.scene_file_name c ≡ some result
    pub loaded : result.0 ≡ true
    pub kept : p.controller ≡ result.1

  open_scene-Opened :
      (conf : Conf P F) (recorder : Bool) (c : Controller F) (p : Program P F)
      → open_scene fl pr ld sv host conf recorder c ≡ some p
      → Opened conf c p
  unfolding open_scene
  open_scene-Opened conf recorder c p h =
      let (r, loading, then_rest) =
        >>=-eq-some (load_scene fl pr (configured fl pr ld sv host conf) sv conf.scene_file_name c)
          _ h in
      branch (not r.0) none _ (some p) (λ e k. cc)
        (λ e k.
          branch (conf.freewheeling && not host.freewheels) none _ (some p) (λ e' k'. cc)
            (λ e' k'.
              branch (conf.ip_server && not (host.listens conf.server_port)) none _ (some p)
                (λ e'' k''. cc)
                (λ e'' k''. record {
                  result = r;
                  loading = loading;
                  loaded = ground (arith, e);
                  kept = ap (λ p. p.controller) (sym (some-injective _ _ k''));
                })
                k')
            k)
        then_rest

  -- If the libraries do what they are asked for, the constructor comes to its main part.
  pub construct-set_up :
      (conf : Conf P F)
      → Obliging host
      → construct fl pr ld sv host conf
        ≡ set_up fl pr ld sv host (without_gui (without_freewheeling conf))
  unfolding construct
  construct-set_up conf obliging =
      let set = obliging.setup in
      let built = obliging.server_built in
      let drawn = obliging.gui_built in
      passed (not host.has_reproduction_setup) _ _ (ground (arith, set))
      ∙ passed (not host.enable_ip_interface && conf.ip_server) _ _ (ground (arith, built))
      ∙ passed (not host.enable_gui && conf.gui) _ _ (ground (arith, drawn))

  set_up-Opened :
      (conf : Conf P F) (p : Program P F)
      → set_up fl pr ld sv host conf ≡ some p
      → Opened conf (introduced fl pr host conf.loop) p
  unfolding set_up
  set_up-Opened conf p h =
      let (c, first, others) =
        >>=-eq-some (introduce fl pr host (record (new_controller fl) { loop_mode = conf.loop })) _
          h in
      let (recorder, second, last) =
        >>=-eq-some (load_audio_recorder host conf.audio_recorder_file_name)
          (λ recorder. open_scene fl pr ld sv host conf recorder c) others in
      subst (λ c. Opened conf c p)
        (some-injective _ _ (sym first ∙ introduce_lem fl pr host conf.loop))
        (open_scene-Opened conf recorder c p last)

  construct-Opened :
      (conf : Conf P F) (p : Program P F)
      → construct fl pr ld sv host conf ≡ some p
      → Opened
          (without_gui (without_freewheeling conf))
          (introduced fl pr host (without_gui (without_freewheeling conf)).loop)
          p
  unfolding construct
  construct-Opened conf p h =
      branch (not host.has_reproduction_setup) none _ (some p) (λ e k. cc)
        (λ e k.
          branch (not host.enable_ip_interface && conf.ip_server) none _ (some p) (λ e' k'. cc)
            (λ e' k'.
              branch (not host.enable_gui && conf.gui) none _ (some p) (λ e'' k''. cc)
                (λ e'' k''. set_up-Opened (without_gui (without_freewheeling conf)) p k'') k')
            k)
        h

  pub construct-Synced :
      (told : Bool) (conf : Conf P F) (p : Program P F)
      → empty conf.scene_file_name ≡ false
      → (told ≡ true → eq_text (get_file_extension conf.scene_file_name) (codes "asd") ≡ false)
      → construct fl pr ld sv host conf ≡ some p
      → Synced (record { told = told; aimed = true }) p.controller
  construct-Synced told conf p named l h =
      let opened = construct-Opened conf p h in
      let adapted = without_gui (without_freewheeling conf) in
      let same = sym (without_gui-scene_file_name conf) in
      subst (Synced (record { told = told; aimed = true })) (sym opened.kept) (
        load_scene-aimed fl pr (configured fl pr ld sv host adapted) sv
          (record { told = told; aimed = false }) adapted.scene_file_name
          (introduced fl pr host adapted.loop) opened.result
          (subst (λ file. empty file ≡ false) same named)
          (λ t. subst (λ file. eq_text (get_file_extension file) (codes "asd") ≡ false) same (l t))
          opened.loaded (introduced-Synced fl pr host told adapted.loop) opened.loading)

  -- After a start with a scene, the Scene and the renderer agree whatever sequence of Publisher
  -- calls follows, if all calls return. They agree on the amplitude reference distance, too
  -- (`told` is true), if neither the scene of the start nor one that is loaded later is a file
  -- with the extension "asd".
  pub construct-perform_all :
      (told : Bool) (conf : Conf P F) (p : Program P F) (calls : List (Publisher.Call F))
      (c : Controller F)
      → empty conf.scene_file_name ≡ false
      → (told ≡ true → eq_text (get_file_extension conf.scene_file_name) (codes "asd") ≡ false)
      → (told ≡ true → AllTold fl pr calls)
      → construct fl pr ld sv host conf ≡ some p
      → perform_all fl pr (configured fl pr ld sv host p.conf) sv calls p.controller ≡ some c
      → Synced (record { told = told; aimed = true }) c
  construct-perform_all told conf p calls c named l ls h performed =
      perform_all-Synced fl pr (configured fl pr ld sv host p.conf) sv calls p.controller c ls
        (construct-Synced told conf p named l h) performed
