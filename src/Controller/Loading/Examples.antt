-- ===== src/Controller/Loading/Examples.antt =====
-- A scene file that is loaded by a small Controller.
use mathlib.Core.Option.{some-injective}
use ssr_pre.SceneFile.{Document}
use ssr_pre.Controller.Standing.{Standing}
use ssr_pre.Controller.Loading.Sources.{IsSpontaneous, AllRead, Playable}
use ssr_pre.Controller.Loading.Returning.{load_scene-Standing}
use ssr_pre.Controller.Sample.{idle}
use ssr_pre.Common.{subst, ℕ, ◌≡◌, refl, Bool, true, [], ◌∷◌, some}
use ssr_pre.Common.Text.{codes, eq_text}
use ssr_pre.Common.Assoc.{find, insert, modify}
use ssr_pre.CommandParser.Examples.{is_some, value}
use ssr_pre.PathTools.{get_file_extension, make_path_relative_to_current_dir}
use ssr_pre.SceneFile.{
  read_source, read_reference, get_position, get_orientation, get_file_or_port_name,
  source_settings,
}
use ssr_pre.Scene
use ssr_pre.Scene.{get_source_position_fixed}
use ssr_pre.Renderer
use ssr_pre.Renderer.{add_source}
use ssr_pre.Network
use ssr_pre.Controller.{
  Controller, network, new_source, announcements, stop_processing, start_processing,
  set_processing_state, delete_all_sources, publish_all, publish, publish_to, deliver,
}
use ssr_pre.Controller.Loading.{load_scene, load_into, load_document, load_reference, load_sources}
use ssr_pre.Controller.Loading.Sample.{loader, scene_document}
use ssr_pre.Controller.Loading.Telling.{Distances}
use ssr_pre.Controller.Loading.Distance.{load_scene-Distances}
use ssr_pre.Controller.Sample.{numbers, printer, services, start, start-Synced}

load_succeeds : is_some (load_scene numbers printer loader services (codes "a.asd") start) ≡ true
unfolding load_scene load_into load_document load_reference load_sources get_file_extension
    read_source read_reference get_position get_orientation get_file_or_port_name source_settings
    make_path_relative_to_current_dir delete_all_sources Renderer.rem_all_sources Renderer.rem_loop
    Renderer.rem_source new_source announcements stop_processing start_processing
    set_processing_state publish_all publish publish_to deliver add_source Scene.receive
    Scene.new_source Scene.set_source_member Renderer.receive Renderer.set_member
    Renderer.get_source Network.receive Network.message find insert modify eq_text
load_succeeds = refl

loaded :
    (r : Bool × Controller ℕ) × (load_scene numbers printer loader services (codes "a.asd") start
      ≡ some r)
loaded = value (load_scene numbers printer loader services (codes "a.asd") start) load_succeeds

is_scene : get_file_extension (codes "a.asd") ≡ codes "asd"
unfolding get_file_extension
is_scene = refl

load_scene-Distances_example : Distances 9 3 loaded.0.1
unfolding eq_text
load_scene-Distances_example =
    load_scene-Distances numbers printer loader services (codes "a.asd") scene_document 3 3 start
      loaded.0 is_scene refl refl refl
      (record {
        rest = network 7 ∷ [];
        listening = refl;
        only = tt;
        order = start-Synced.agree.order;
        of_scene = refl;
        of_renderer = refl;
      })
      loaded.1

start-Standing : Standing start
unfolding find
start-Standing = record {
  rest = network 7 ∷ [];
  listening = refl;
  only = tt;
  order = start-Synced.agree.order;
  known = ((idle, refl), tt);
}

-- A scene file is no sound file.
not_spontaneous :
    IsSpontaneous (codes "a.asd") → Playable numbers printer loader services (codes "a.asd")
unfolding eq_text get_file_extension
not_spontaneous (named, extended, sound) = cc

all_read :
    (doc : Document)
    → loader.load_file (codes "a.asd") ≡ some doc
    → AllRead numbers printer loader services
        (codes "/home")
        (codes "a.asd")
        (doc.eval_xpath (codes "//scene_setup/source"))
unfolding eq_text get_file_or_port_name read_source get_position get_orientation source_settings
    make_path_relative_to_current_dir
all_read doc h =
    subst
      (λ doc.
        AllRead numbers printer loader services (codes "/home") (codes "a.asd")
          (doc.eval_xpath (codes "//scene_setup/source")))
      (some-injective scene_document doc h) ((((0, codes "in"), refl), tt), (λ loop. (_, refl), tt))

load_scene-Standing_example :
    (r : Bool × Controller ℕ) × (load_scene numbers printer loader services (codes "a.asd") start
      ≡ some r)
    × Standing r.1
load_scene-Standing_example =
    load_scene-Standing numbers printer loader services (codes "/home") (codes "a.asd") start refl
      all_read not_spontaneous start-Standing
