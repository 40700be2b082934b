-- ===== src/Controller/Query.antt =====
-- query_state of src/controller.h: what the realtime thread measures in query() and another thread
-- publishes in update(). Sources may come and go in between. A pointer to a source is its address.
pub mod Changes
pub mod Levels
pub mod Reuse
pub mod Examples
use ssr_pre.Common.{
  ℕ, zero, suc, Bool, true, false, not, ◌&&◌, ◌||◌, List, [], ◌∷◌, ◌++◌, Option, none, some, ◌==◌,
  length, replicate, if◌then◌else◌,
}
use ssr_pre.Common.Assoc.{keys}
use ssr_pre.Geometry.{Floats}
use ssr_pre.Subscriber.{Event}
use ssr_pre.Network.{Printer}
use ssr_pre.PathTools.{is_nil}
use ssr_pre.Controller.{Controller, ◌>>=◌, publish_all}

pub record SourceLevel (F : Type 0) : Type 0 where
  pub source : F
  pub outputs_available : Bool
  pub outputs : List F

pub record QueryState (F : Type 0) : Type 0 where
  pub state : Bool × ℕ
  pub cpu_load : F
  pub master_level : F
  pub source_levels : List (SourceLevel F)
  pub discard_source_levels : Bool
  -- The address of a source; `none` is a null pointer.
  pub last_source : Option ℕ

-- What the renderer answers in the realtime thread: the sources are those of its list.
pub record Meters (F : Type 0) : Type 0 where
  pub transport_state : Bool × ℕ
  pub cpu_load : F
  pub output_levels : List F
  pub source_list : List ℕ
  pub address : ℕ → ℕ
  pub get_level : ℕ → F
  -- get_output_levels(): whether there are any, and what the range holds afterwards.
  pub get_output_levels : ℕ → List F → Bool × List F

-- The last of some sources, with their ids.
abbrev pub last_of : List ℕ → Option ℕ
last_of [] = none
last_of (x ∷ []) = some x
last_of (x ∷ y ∷ xs) = last_of (y ∷ xs)

-- Its address.
abbrev pub last_address : (ℕ → ℕ) → List ℕ → Option ℕ
last_address address ids = elim (last_of ids) [ none ↦ none | some id ↦ some (address id) ]

-- operator== of two pointers
abbrev pub same_source : Option ℕ → Option ℕ → Bool
same_source (some a) (some b) = a == b
same_source none none = true
same_source _ _ = false

-- std::vector::resize()
unfoldable pub resize {ℓ} : {A : Type ℓ} → ℕ → A → List A → List A
resize zero a xs = []
resize (suc n) a [] = replicate (suc n) a
resize (suc n) a (x ∷ xs) = x ∷ resize n a xs

module _ {F : Type 0} (fl : Floats F) where
  -- The loop over the outputs, with std::max.
  pub max_level : F → List F → F
  max_level master_level [] = master_level
  max_level master_level (out ∷ outs) =
      max_level (if fl.greater out master_level then out else master_level) outs

  -- The loop over the sources.
  unfoldable pub measure : Meters F → List ℕ → List (SourceLevel F) → List (SourceLevel F)
  measure m (id ∷ ids) (level ∷ levels) =
      let (available, outputs) = m.get_output_levels id level.outputs in
      record { source = m.get_level id; outputs_available = available; outputs = outputs }
      ∷ measure m ids levels
  measure m ids levels = levels

  unfoldable pub query : Meters F → QueryState F → QueryState F
  unfolding max_level measure
  query m q =
      let same_size = length q.source_levels == length m.source_list in
      record {
        state = m.transport_state;
        cpu_load = m.cpu_load;
        master_level = max_level (fl.lit 0) m.output_levels;
        source_levels =
            if same_size then measure m m.source_list q.source_levels else q.source_levels;
        discard_source_levels = not same_size;
        last_source = if same_size then last_address m.address m.source_list else none;
      }

  -- _set_source_signal_levels()
  unfoldable pub set_source_signal_levels : List ℕ → List (SourceLevel F) → List (Event F)
  set_source_signal_levels (id ∷ ids) (level ∷ levels) =
      Event.set_source_signal_level id level.source
      ∷ ((if level.outputs_available
            then Event.set_source_output_levels id level.outputs ∷ []
            else [])
          ++ set_source_signal_levels ids levels)
  set_source_signal_levels ids levels = []

  -- The condition of update(), for the sources of the map with their addresses.
  abbrev pub is_current : QueryState F → (ℕ → ℕ) → List ℕ → Bool
  is_current q address ids =
      not q.discard_source_levels
      && (length q.source_levels == length ids)
      && (is_nil ids || same_source q.last_source (last_address address ids))

  unfoldable pub source_events : QueryState F → (ℕ → ℕ) → List ℕ → List (Event F)
  source_events q address ids =
      if is_current q address ids then set_source_signal_levels ids q.source_levels else []

  -- All that update() publishes.
  unfoldable pub publish_state :
      Printer F → QueryState F → (ℕ → ℕ) → Controller F → Option (Controller F)
  unfolding source_events set_source_signal_levels
  publish_state pr q address c =
      publish_all fl pr
        (Event.set_transport_state q.state.0 q.state.1
          ∷ Event.set_cpu_load q.cpu_load
          ∷ Event.set_master_signal_level q.master_level
          ∷ [])
        c
      >>= λ c1. publish_all fl pr (source_events q address (keys c1.renderer.source_map)) c1

  -- update(). The new entries of the vector hold as many levels as there are outputs.
  unfoldable pub update :
      Printer F
      → SourceLevel F
      → QueryState F
      → (ℕ → ℕ)
      → Controller F
      → Option (QueryState F × Controller F)
  unfolding publish_state resize
  update pr entry q address c = publish_state pr q address c >>= λ c2. some (
    record q {
      source_levels = resize (length (keys c2.renderer.source_map)) entry q.source_levels;
    },
    c2,
  )
