-- ===== src/Scene/Getters.antt =====
-- What the getters of the Scene return.
use ssr_pre.Common.{ℕ, ◌≡◌, sym, ap, subst, ◌∙◌, Bool, List, [], ◌∷◌, Option, some, arith, length}
use ssr_pre.Common.Text.{Text}
use ssr_pre.Common.Assoc.{find}
use ssr_pre.Geometry.{Floats, Position, Orientation}
use ssr_pre.Source.{Source, Model}
use ssr_pre.Subscriber.{Event}
use ssr_pre.Scene.{
  Scene, receive, get_source_member, get_source_position_fixed, get_source_mute_state,
  get_source_name, get_source_properties_file, get_source_model, get_source_position,
  get_source_orientation, get_source_gain,
}
use ssr_pre.Scene.Lookup.{effect, find-receive}
use ssr_pre.Scene.Members.{
  Member, of_position, of_orientation, of_gain, of_mute, of_name, of_properties_file, of_model,
  of_position_fixed, Held, held, setter, NoneTouches, Keeps, set-Keeps, effect-Keeps,
}

-- What a getter returns: no object without the source, or a value in its place.
abbrev pub Got : Type 0 → Member → Type 0
Got F of_position = Option (Position F)
Got F of_orientation = Option (Orientation F)
Got F of_gain = F
Got F of_mute = Bool
Got F of_name = Text
Got F of_properties_file = Text
Got F of_model = Model
Got F of_position_fixed = Bool

module _ {F : Type 0} (fl : Floats F) where
  abbrev pub got : (m : Member) → Held F m → Got F m
  got of_position v = some v
  got of_orientation v = some v
  got of_gain v = v
  got of_mute v = v
  got of_name v = v
  got of_properties_file v = v
  got of_model v = v
  got of_position_fixed v = v

  abbrev pub getter : (m : Member) → ℕ → Scene F → Got F m
  getter of_position id s = get_source_position id s
  getter of_orientation id s = get_source_orientation id s
  getter of_gain id s = get_source_gain fl id s
  getter of_mute id s = get_source_mute_state id s
  getter of_name id s = get_source_name id s
  getter of_properties_file id s = get_source_properties_file id s
  getter of_model id s = get_source_model id s
  getter of_position_fixed id s = get_source_position_fixed id s

  -- Several events in a row.
  unfoldable pub receive_all : List (Event F) → Scene F → Scene F
  receive_all [] s = s
  receive_all (e ∷ es) s = receive_all es (receive fl e s)

  getter-find :
      (m : Member) (id : ℕ) (s : Scene F) (t : Source F)
      → find id s.source_map ≡ some t
      → getter m id s ≡ got m (held m t)
  unfolding get_source_position get_source_orientation get_source_gain get_source_mute_state
      get_source_name get_source_properties_file get_source_model get_source_position_fixed
      get_source_member
  getter-find of_position id s t h = ground (arith, h)
  getter-find of_orientation id s t h = ground (arith, h)
  getter-find of_gain id s t h = ground (arith, h)
  getter-find of_mute id s t h = ground (arith, h)
  getter-find of_name id s t h = ground (arith, h)
  getter-find of_properties_file id s t h = ground (arith, h)
  getter-find of_model id s t h = ground (arith, h)
  getter-find of_position_fixed id s t h = ground (arith, h)

  receive_all-Keeps :
      (m : Member) (id : ℕ) (v : Held F m) (es : List (Event F)) (s : Scene F)
      → NoneTouches m id es
      → Keeps m v (find id s.source_map)
      → Keeps m v (find id (receive_all es s).source_map)
  unfolding receive_all
  receive_all-Keeps m id v [] s untouched k = k
  receive_all-Keeps m id v (e ∷ es) s (first, untouched) (t, h, holds) =
      let (t', becomes, same) = effect-Keeps fl m (length s.loudspeakers) e id t first in
      receive_all-Keeps m id v es (receive fl e s) untouched (
        t',
        find-receive fl e id s
            ∙ subst (λ o. effect fl (length s.loudspeakers) e id o ≡ some t') (sym h) becomes,
        same ∙ holds,
      )

  -- For a source that exists, each of the getters of its members returns what the last call of
  -- its setter has set, whatever events come in between that neither set this member of the
  -- source nor remove the source.
  pub get-receive_all :
      (m : Member) (id : ℕ) (v : Held F m) (es : List (Event F)) (s : Scene F) (t : Source F)
      → find id s.source_map ≡ some t
      → NoneTouches m id es
      → getter m id (receive_all es (receive fl (setter m id v) s)) ≡ got m v
  get-receive_all m id v es s t h untouched =
      let e = setter m id v in
      let (t', becomes, holds) = set-Keeps fl m (length s.loudspeakers) id v t in
      let (u, found, still) = receive_all-Keeps m id v es (receive fl e s) untouched (
        t',
        find-receive fl e id s
            ∙ subst (λ o. effect fl (length s.loudspeakers) e id o ≡ some t') (sym h) becomes,
        holds,
      ) in
      getter-find m id (receive_all es (receive fl e s)) u found ∙ ap (got m) still
