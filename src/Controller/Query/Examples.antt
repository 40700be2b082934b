-- ===== src/Controller/Query/Examples.antt =====
-- Levels of a small Controller, measured and published. Numbers stand for floats.
use ssr_pre.Common.{
  if◌then◌else◌, ◌==◌, ℕ, ◌+◌, ◌*◌, ◌≡◌, refl, true, false, List, [], ◌∷◌, none, some, ◌⊎◌, arith,
}
use ssr_pre.Common.Assoc.{keys, find, insert}
use ssr_pre.CommandParser.Examples.{is_some, value}
use ssr_pre.Renderer.{remove_first}
use ssr_pre.Renderer
use ssr_pre.Network
use ssr_pre.Scene
use ssr_pre.Controller.{Controller, publish_all, publish, publish_to, deliver}
use ssr_pre.Controller.Query.{QueryState, Meters, SourceLevel, query, update, source_events}
use ssr_pre.Controller.Query.Changes.{same, removed}
use ssr_pre.Controller.Query.Levels.{signal_levels, measured, source_events-query, query-update}
use ssr_pre.Controller.Query.Reuse.{source_events-reused}
use ssr_pre.Controller.Sample.{numbers, printer, one}

abbrev address : ℕ → ℕ
address id = 1000 + 8 * id

-- Three sources, each with its id as level.
abbrev meters : List ℕ → Meters ℕ
meters ids = record {
  transport_state = (true, 5);
  cpu_load = 1;
  output_levels = 2 ∷ 3 ∷ [];
  source_list = ids;
  address = address;
  get_level = λ id. id;
  get_output_levels = λ id range. (false, range);
}

abbrev fresh_level : SourceLevel ℕ
fresh_level = record { source = 0; outputs_available = false; outputs = 0 ∷ [] }

abbrev asked : QueryState ℕ
asked = record {
  state = (false, 0);
  cpu_load = 0;
  master_level = 0;
  source_levels = fresh_level ∷ fresh_level ∷ [];
  discard_source_levels = true;
  last_source = none;
}

-- The first of two sources goes.
source_events-query_example :
    (signal_levels (
        source_events numbers
          (query numbers (meters (1 ∷ 2 ∷ [])) asked)
          address
          (remove_first 1 (1 ∷ 2 ∷ [])))
      ≡ [])
    ⊎ (signal_levels (
          source_events numbers
            (query numbers (meters (1 ∷ 2 ∷ [])) asked)
            address
            (remove_first 1 (1 ∷ 2 ∷ [])))
        ≡ measured numbers (meters (1 ∷ 2 ∷ [])) (remove_first 1 (1 ∷ 2 ∷ [])))
source_events-query_example =
    source_events-query numbers (meters (1 ∷ 2 ∷ [])) asked 2 (remove_first 1 (1 ∷ 2 ∷ []))
      (λ x y last last' above. ground (arith, last')) (removed (1 ∷ 2 ∷ []) 1 same)

update_returns : is_some (update numbers printer fresh_level asked address one) ≡ true
unfolding update ssr_pre.Controller.Query.publish_state publish_all publish publish_to deliver
    Scene.receive Renderer.receive Network.receive find insert
update_returns = refl

updated :
    (r : QueryState ℕ × Controller ℕ) × (update numbers printer fresh_level asked address one
      ≡ some r)
updated = value (update numbers printer fresh_level asked address one) update_returns

query-update_example :
    signal_levels (
      source_events numbers
        (query numbers (meters (keys updated.0.1.renderer.source_map)) updated.0.0)
        address
        (keys updated.0.1.renderer.source_map))
    ≡ measured numbers
        (meters (keys updated.0.1.renderer.source_map))
        (keys updated.0.1.renderer.source_map)
query-update_example =
    query-update numbers printer fresh_level asked updated.0.0 address one updated.0.1
      (meters (keys updated.0.1.renderer.source_map)) updated.1 refl

-- Source 3 lies where source 2 was.
abbrev reused_address : ℕ → ℕ
reused_address id = if id == 3 then 1016 else address id

source_events-reused_example :
    signal_levels (
      source_events numbers (query numbers (meters (1 ∷ 2 ∷ [])) asked) reused_address (1 ∷ 3 ∷ []))
    ≡ (1, 1) ∷ (3, 2) ∷ []
source_events-reused_example =
    source_events-reused numbers (meters (1 ∷ 2 ∷ [])) asked (1 ∷ []) 2 3 reused_address refl refl
      refl
