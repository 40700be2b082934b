-- ===== src/Renderer.antt =====
-- src/rendererbase.h and src/rendersubscriber.h: the sources of a renderer, and the subscriber that
-- passes the events on to it. SharedData and RtList members are modelled as the realtime thread sees
-- them once it has processed the commands that assign to them. A pointer to a source is the key of
-- its entry in _source_map, and `none` is nullptr; every source has an entry of its own. Ids are
-- numbers that do not overflow.
pub mod Ascending
pub mod Sources
pub mod Lookup
use ssr_pre.Common.{
  ℕ, zero, suc, ◌+◌, Bool, true, false, List, [], ◌∷◌, ◌++◌, Option, none, some, ◌==◌,
  if◌then◌else◌, length,
}
use ssr_pre.Common.Text.{Text}
use ssr_pre.Common.Assoc.{Map, find, insert, erase, modify}
use ssr_pre.Geometry.{Floats, Position, Orientation, origin, facing}
use ssr_pre.Source.{Model}
use ssr_pre.Subscriber.{Event}

-- RendererBase::Source: what the non-realtime thread assigns to.
pub record Item (F : Type 0) : Type 0 where
  pub position : Position F
  pub orientation : Orientation F
  pub gain : F
  pub mute : Bool
  pub model : Model

-- RendererBase::State
pub record State (F : Type 0) : Type 0 where
  pub reference_position : Position F
  pub reference_orientation : Orientation F
  pub reference_offset_position : Position F
  pub reference_offset_orientation : Orientation F
  pub master_volume : F
  pub processing : Bool
  pub amplitude_reference_distance : F

pub record Renderer (F : Type 0) : Type 0 where
  pub state : State F
  -- The inputs (RtList of the MimoProcessor), each known by the id of its source.
  pub inputs : List ℕ
  pub source_list : List ℕ
  pub source_map : Map (Item F)
  pub highest_id : ℕ

-- The entries of the parameter_map that add_source() gets from the Controller.
pub record Params : Type 0 where
  pub connect_to : Text
  pub properties_file : Text

-- std::list::remove of one element, as RemCommand does.
unfoldable pub remove_first : ℕ → List ℕ → List ℕ
remove_first a [] = []
remove_first a (x ∷ xs) = if x == a then xs else x ∷ remove_first a xs

module _ {F : Type 0} where
  unfoldable pub get_source : ℕ → Renderer F → Option ℕ
  get_source id r = elim (find id r.source_map) [ none ↦ none | some item ↦ some id ]

  -- With nullptr the assertion fails: `none`.
  unfoldable pub rem_source : Option ℕ → Renderer F → Option (Renderer F)
  rem_source none r = none
  rem_source (some source) r = some (record r {
    source_map = erase source r.source_map;
    source_list = remove_first source r.source_list;
    inputs = remove_first source r.inputs;
  })

  -- begin()->second
  abbrev pub first_source : Map (Item F) → Option ℕ
  first_source [] = none
  first_source ((id, item) ∷ m) = some id

  -- The loop of rem_all_sources(), on fuel; `none` also stands for fuel that ran out.
  unfoldable pub rem_loop : ℕ → Renderer F → Option (Renderer F)
  rem_loop zero r = elim (first_source r.source_map) [ none ↦ some r | some id ↦ none ]
  rem_loop (suc fuel) r = elim (first_source r.source_map) [
    | none ↦ some r
    | some id ↦ elim (rem_source (some id) r) [ none ↦ none | some r' ↦ rem_loop fuel r' ]
  ]

  -- Each round removes an entry, so the number of entries is fuel enough.
  unfoldable pub rem_all_sources : Renderer F → Option (Renderer F)
  rem_all_sources r = elim (rem_loop (length r.source_map) r) [
    | none ↦ none
    | some r' ↦ some (record r' { highest_id = 0 })
  ]

  -- The setters of RenderSubscriber for a member of a source.
  unfoldable pub set_member : ℕ → (Item F → Item F) → Renderer F → Renderer F × Bool
  unfolding get_source
  set_member id assign r = elim (get_source id r) [
    | none ↦ (r, false)
    | some source ↦ (record r { source_map = modify source assign r.source_map }, true)
  ]

  -- The functions of RenderSubscriber; `none` is a failed assertion.
  unfoldable pub receive : Event F → Renderer F → Option (Renderer F)
  unfolding set_member rem_source get_source
  receive (Event.delete_source id) r = rem_source (get_source id r) r
  receive Event.delete_all_sources r = rem_all_sources r
  receive (Event.set_source_position id p) r =
      some (set_member id (λ t. record t { position = p }) r).0
  receive (Event.set_source_orientation id o) r =
      some (set_member id (λ t. record t { orientation = o }) r).0
  receive (Event.set_source_gain id gain) r =
      some (set_member id (λ t. record t { gain = gain }) r).0
  receive (Event.set_source_mute id mute) r =
      some (set_member id (λ t. record t { mute = mute }) r).0
  receive (Event.set_source_model id model) r =
      some (set_member id (λ t. record t { model = model }) r).0
  receive (Event.set_reference_position p) r =
      some (record r { state = record (r.state) { reference_position = p } })
  receive (Event.set_reference_orientation o) r =
      some (record r { state = record (r.state) { reference_orientation = o } })
  receive (Event.set_reference_offset_position p) r =
      some (record r { state = record (r.state) { reference_offset_position = p } })
  receive (Event.set_reference_offset_orientation o) r =
      some (record r { state = record (r.state) { reference_offset_orientation = o } })
  receive (Event.set_master_volume volume) r =
      some (record r { state = record (r.state) { master_volume = volume } })
  receive (Event.set_processing_state state) r =
      some (record r { state = record (r.state) { processing = state } })
  receive (Event.set_amplitude_reference_distance dist) r =
      some (record r { state = record (r.state) { amplitude_reference_distance = dist } })
  receive _ r = some r

module _ {F : Type 0} (fl : Floats F) where
  -- RendererBase::Source(p)
  abbrev pub fresh_item : Item F
  fresh_item = record {
    position = origin fl;
    orientation = facing fl 0;
    gain = fl.lit 1;
    mute = false;
    model = Model.point;
  }

  -- RendererBase(p)
  abbrev pub empty_renderer : Renderer F
  empty_renderer = record {
    state = record {
      reference_position = origin fl;
      reference_orientation = facing fl 0;
      reference_offset_position = origin fl;
      reference_offset_orientation = facing fl 0;
      master_volume = fl.lit 1;
      processing = true;
      amplitude_reference_distance = fl.lit 3;
    };
    inputs = [];
    source_list = [];
    source_map = [];
    highest_id = 0;
  }

  -- `accepts` tells whether the constructor of Derived::Source returns or throws; an exception is
  -- `none`: the input that was added goes again, and the id is used up all the same.
  unfoldable pub add_source : (Params → Bool) → Params → Renderer F → Option ℕ × Renderer F
  add_source accepts p r =
      let id : ℕ = suc r.highest_id in
      let inputs = r.inputs ++ id ∷ [] in
      if accepts p
      then (
        some id,
        record r {
          highest_id = id;
          inputs = inputs;
          source_list = r.source_list ++ id ∷ [];
          source_map = insert id fresh_item r.source_map;
        },
      )
      else (none, record r { highest_id = id; inputs = remove_first id inputs })
