-- ===== src/Controller/Startup/Returning.antt =====
-- How the constructor of the Controller ends: with a Controller that stands, or because load_scene() has
-- returned false.
use ssr_pre.Common.{
  ◌≡◌, refl, sym, subst, ◌∙◌, Bool, true, false, not, ◌&&◌, Option, none, some, arith, ◌⊎◌, inl,
  inr, Bool-cases,
}
use ssr_pre.Common.Text.{Text, codes}
use ssr_pre.CommandParser.{empty}
use ssr_pre.Configuration.{Conf}
use ssr_pre.Geometry.{Floats}
use ssr_pre.Network.{Printer}
use ssr_pre.SceneFile.{Document}
use ssr_pre.Controller.{Controller, Services}
use ssr_pre.Controller.Loading.{Loader, load_scene}
use ssr_pre.Controller.Loading.Sources.{IsSpontaneous, AllRead, Playable}
use ssr_pre.Controller.Loading.Returning.{load_scene-Standing}
use ssr_pre.Controller.Standing.{Standing}
use ssr_pre.Controller.Startup.{
  Host, Program, load_audio_recorder, open_scene, set_up, construct, configured, without_gui,
  without_freewheeling,
}
use ssr_pre.Controller.Startup.Beginning.{
  introduced, introduce_lem, introduced-Standing, Obliging, construct-set_up,
  without_gui-scene_file_name,
}

module _ {F : Type 0} (host : Host F) where
  recorder_lem :
      (name : Text)
      → Obliging host
      → (recorder : Bool) × (load_audio_recorder host name ≡ some recorder)
  recorder_lem name obliging = elim (Bool-cases (empty name)) [
    | inl e ↦ rw e (false, refl)
    | inr e ↦ rw (e, obliging.recording name) (true, refl)
  ]

module _ {P F : Type 0} (fl : Floats F) (pr : Printer F) (ld : Loader F) (sv : Services)
    (host : Host F) where
  -- The scene of the settings is not loaded.
  pub record Unloaded (conf : Conf P F) : Type 0 where
    pub after : Controller F
    pub not_loaded :
        load_scene fl pr
          (configured fl pr ld sv host conf)
          sv
          conf.scene_file_name
          (introduced fl pr host conf.loop)
        ≡ some (false, after)

  -- A program that stands.
  abbrev pub Begun : Option (Program P F) → Type 0
  Begun o = (p : Program P F) × (o ≡ some p) × Standing p.controller

  open_scene-Begun :
      (conf : Conf P F) (recorder : Bool) (c c' : Controller F)
      → Obliging host
      → load_scene fl pr (configured fl pr ld sv host conf) sv conf.scene_file_name c
        ≡ some (true, c')
      → Standing c'
      → Begun (open_scene fl pr ld sv host conf recorder c)
  unfolding open_scene
  open_scene-Begun conf recorder c c' obliging loading standing =
      let free = obliging.freewheeling in
      let heard = obliging.listening conf.server_port in
      let free' : (conf.freewheeling && not host.freewheels) ≡ false = ground (arith, free) in
      let heard' : (conf.ip_server && not (host.listens conf.server_port)) ≡ false =
        ground (arith, heard) in
      rw loading (rw (free', heard') (_, refl, standing))

  open_scene-none :
      (conf : Conf P F) (recorder : Bool) (c : Controller F) (r : Bool × Controller F)
      → load_scene fl pr (configured fl pr ld sv host conf) sv conf.scene_file_name c ≡ some r
      → r.0 ≡ false
      → open_scene fl pr ld sv host conf recorder c ≡ none
  unfolding open_scene
  open_scene-none conf recorder c r loading failed = rw (loading, failed) refl

  -- What follows the introduction of the subscribers.
  set_up-open_scene :
      (conf : Conf P F)
      → Obliging host
      → (recorder : Bool) × (set_up fl pr ld sv host conf
          ≡ open_scene fl pr ld sv host conf recorder (introduced fl pr host conf.loop))
  unfolding set_up
  set_up-open_scene conf obliging =
      let (recorder, e) = recorder_lem host conf.audio_recorder_file_name obliging in
      (recorder, rw (introduce_lem fl pr host conf.loop) (rw e refl))

  opened-Begun :
      (conf : Conf P F) (recorder : Bool) (r : Bool × Controller F)
      → Obliging host
      → load_scene fl pr
          (configured fl pr ld sv host conf)
          sv
          conf.scene_file_name
          (introduced fl pr host conf.loop)
        ≡ some r
      → Standing r.1
      → Begun (open_scene fl pr ld sv host conf recorder (introduced fl pr host conf.loop))
        ⊎ ((open_scene fl pr ld sv host conf recorder (introduced fl pr host conf.loop) ≡ none)
            × Unloaded conf)
  opened-Begun conf recorder (true, c) obliging loading standing =
      inl (open_scene-Begun conf recorder _ c obliging loading standing)
  opened-Begun conf recorder (false, c) obliging loading standing = inr (
    open_scene-none conf recorder _ (false, c) loading refl,
    record { after = c; not_loaded = loading },
  )

  -- What a scene file has to hold.
  abbrev Readable : Text → Conf P F → Text → Type 0
  Readable cwd conf file =
      (doc : Document)
      → ld.load_file file ≡ some doc
      → AllRead fl pr (configured fl pr ld sv host conf) sv cwd file
          (doc.eval_xpath (codes "//scene_setup/source"))

  -- The constructor returns a Controller that stands with its subscribers, or it throws because
  -- load_scene() has returned false, if the reproduction setup can be loaded, the build has a
  -- server and a GUI, the libraries do what they are asked for and there is a working directory;
  -- for a scene file, if no <file> child of a source in it has a negative channel; for a file of
  -- another kind, if Ecasound answers with a number of channels; and if no assertion fails in the
  -- audio player for the sound files of the sources.
  pub construct-Begun :
      (cwd : Text) (conf : Conf P F)
      → ld.cwd ≡ some cwd
      → ((doc : Document)
          → ld.load_file conf.scene_file_name ≡ some doc
          → AllRead fl pr
              (configured fl pr ld sv host (without_gui (without_freewheeling conf)))
              sv
              cwd
              conf.scene_file_name
              (doc.eval_xpath (codes "//scene_setup/source")))
      → (IsSpontaneous conf.scene_file_name
          → Playable fl pr
              (configured fl pr ld sv host (without_gui (without_freewheeling conf)))
              sv
              conf.scene_file_name)
      → Obliging host
      → Begun (construct fl pr ld sv host conf)
        ⊎ ((construct fl pr ld sv host conf ≡ none)
            × Unloaded (without_gui (without_freewheeling conf)))
  construct-Begun cwd conf here readable playable obliging =
      let adapted = without_gui (without_freewheeling conf) in
      let same = sym (without_gui-scene_file_name conf) in
      let (r, loading, standing) =
        load_scene-Standing fl pr (configured fl pr ld sv host adapted) sv cwd
          adapted.scene_file_name (introduced fl pr host adapted.loop) here
          (subst (Readable cwd adapted) same readable)
          (subst
            (λ name.
              IsSpontaneous name → Playable fl pr (configured fl pr ld sv host adapted) sv name)
            same playable)
          (introduced-Standing fl pr host adapted.loop) in
      let (recorder, e) = set_up-open_scene adapted obliging in
      subst (λ o. Begun o ⊎ ((o ≡ none) × Unloaded adapted))
        (sym (construct-set_up fl pr ld sv host conf obliging ∙ e))
        (opened-Begun adapted recorder r obliging loading standing)
