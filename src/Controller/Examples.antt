-- ===== src/Controller/Examples.antt =====
-- The theorems at concrete inputs.
use ssr_pre.Common.{ℕ, ◌≡◌, refl, [], ◌∷◌, none, some, true, false}
use ssr_pre.Common.Assoc.{find, insert}
use ssr_pre.Controller.Sync.{full_extent}
use ssr_pre.Source.{fresh}
use ssr_pre.Subscriber.{Event}
use ssr_pre.Scene
use ssr_pre.Scene.{
  Scene, empty_scene, get_source_position_fixed, get_source_gain, get_source_position,
  get_source_orientation, get_source_mute_state, get_source_name, get_source_properties_file,
  get_source_model,
}
use ssr_pre.Network
use ssr_pre.Network.{Network, Printer}
use ssr_pre.Controller.{Controller, network, publish}
use ssr_pre.Controller.Publish.{Synced, Published, publish-Published}
use ssr_pre.Controller.Loading.Sample.{loader}
use ssr_pre.Controller.Calls.{perform_all}
use ssr_pre.Controller.Operations.{perform_all-Synced}
use ssr_pre.Controller.Faults.{delete_request-unknown}
use ssr_pre.Controller.Total.{publish-total}
use ssr_pre.CommandParser.Elements.{parse_delete}
use ssr_pre.CommandParser.Examples.{readers}
use ssr_pre.Renderer.Lookup.{Follows, receive-Follows, receive-none}
use ssr_pre.Scene.Lookup.{effect, find-receive}
use ssr_pre.Scene.Getters.{get-receive_all, receive_all}
use ssr_pre.Scene.Members.{of_mute}
use ssr_pre.Network.Messages.{receive-transport_shared}
use ssr_pre.Controller.Sample.{
  numbers, printer, services, idle, start, start-Agree, start-Synced, is_told, session, performed,
  one_scene, one_renderer, one-Agree, one, one-Synced, smaller, deleted, known, unknown,
  missing_deletion, refused, wrong_child, wrong_child_name, wrong_child_id,
}

perform_all-Synced_example : Synced full_extent performed.0
perform_all-Synced_example =
    perform_all-Synced numbers printer loader services session start performed.0
      (λ told. (tt, (tt, (is_told, (tt, tt))))) start-Synced performed.1

publish-Published_example : Published numbers printer (Event.delete_source 1) one deleted.0
publish-Published_example =
    publish-Published numbers printer (Event.delete_source 1) one deleted.0 one-Synced deleted.1

receive-Follows_example : Follows (Event.delete_source 1) one_renderer smaller.0
receive-Follows_example =
    receive-Follows (Event.delete_source 1) one_renderer smaller.0 one-Agree.order smaller.1

receive-none_example :
    (id : ℕ) × (missing_deletion ≡ Event.delete_source id)
    × (find id one_renderer.source_map ≡ none)
receive-none_example = receive-none missing_deletion one_renderer one-Agree.order refused

find-receive_example :
    find 1 (Scene.receive numbers (Event.set_source_gain 1 9) one_scene).source_map
    ≡ effect numbers 0 (Event.set_source_gain 1 9) 1 (find 1 one_scene.source_map)
unfolding Scene.receive Scene.new_source find insert
find-receive_example = find-receive numbers (Event.set_source_gain 1 9) 1 one_scene

receive-transport_shared_example :
    (Network.receive numbers printer
      (Event.set_transport_state true 0)
      (Network.receive numbers printer (Event.set_transport_state true 0) false idle).1
      idle).0.sent
    ≡ []
receive-transport_shared_example = receive-transport_shared numbers printer true false 0 idle idle

-- Other members of the source and another source are set in between.
get-receive_all_example :
    get_source_mute_state 1 (
      receive_all numbers
        (Event.set_source_gain 1 5
          ∷ Event.set_source_mute 2 false
          ∷ Event.new_source 1
          ∷ Event.set_source_output_levels 1 []
          ∷ [])
        (Scene.receive numbers (Event.set_source_mute 1 true) one_scene))
    ≡ true
get-receive_all_example =
    get-receive_all numbers of_mute 1 true _ one_scene (fresh numbers 0) known
      (refl, (refl, (refl, (refl, tt))))

publish-total_example :
    (c' : Controller ℕ) × (publish numbers printer (Event.set_source_gain 1 9) start ≡ some c')
unfolding find
publish-total_example =
    publish-total numbers printer (Event.set_source_gain 1 9) start
      (record { rest = network 7 ∷ []; listening = refl; only = tt; agree = start-Agree })
      ((idle, refl), tt) (λ id same. cc)

delete_request-unknown_example :
    perform_all numbers printer loader services
      (parse_delete numbers readers (wrong_child ∷ []))
      one
    ≡ none
delete_request-unknown_example =
    delete_request-unknown numbers printer readers loader services wrong_child [] 5 one
      wrong_child_name wrong_child_id one-Synced unknown
