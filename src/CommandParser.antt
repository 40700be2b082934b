-- ===== src/CommandParser.antt =====
-- src/boostnetwork/commandparser.cpp: what a request of a network client asks the Controller for. The
-- XML document is what libxml2 makes of the text: the elements below <request>, each with its
-- children. The calls of the Controller are returned as a list, in their order. Messages to the log
-- are left out.
pub mod Elements
pub mod Requests
pub mod Updates
pub mod Examples
use ssr_pre.Common.{
  ℕ, Bool, true, false, not, ◌&&◌, ◌||◌, List, [], ◌∷◌, ◌++◌, Option, none, some, if◌then◌else◌,
}
use ssr_pre.Common.Text.{Text, codes, eq_text}
use ssr_pre.Geometry.{Floats, Position, Orientation, origin, facing}
use ssr_pre.Source.{Model}
use ssr_pre.Publisher.{Settings, Call}
use ssr_pre.Publisher

-- A child of an element; a missing attribute is the empty string.
pub record Child : Type 0 where
  pub name : Text
  pub attribute : Text → Text

pub record Element : Type 0 where
  pub name : Text
  pub attribute : Text → Text
  pub children : List Child

-- A channel number as it was read, which may be negative.
pub data Channel : Type 0 where
  channel : ℕ → Channel
  negative : Channel

-- apf::str::S2A() for the types that are read, and string2time(); `none` where they return false.
pub record Readers (F : Type 0) : Type 0 where
  pub read_float : Text → Option F
  pub read_id : Text → Option ℕ
  pub read_bool : Text → Option Bool
  pub read_model : Text → Option Model
  pub read_channel : Text → Option Channel
  pub read_time : Text → Option F

-- The variables of a <source> element that its children assign to.
pub record Placement (F : Type 0) : Type 0 where
  pub position : Position F
  pub orientation : Orientation F
  pub position_fixed : Bool

-- Whether a string is empty.
abbrev pub empty : Text → Bool
empty t = eq_text t []

-- The value that was read, or a default.
abbrev pub or_else {ℓ} : {A : Type ℓ} → Option A → A → A
or_else none d = d
or_else (some a) d = a

module _ {F : Type 0} (fl : Floats F) (rd : Readers F) where
  open rd use {read_float, read_id, read_bool, read_channel, read_time}

  -- Both coordinates of a <position> child.
  pub read_position : Child → Option (Position F)
  read_position c = elim (read_float (c.attribute (codes "x"))) [
    | none ↦ none
    | some x ↦ elim (read_float (c.attribute (codes "y"))) [
      | none ↦ none
      | some y ↦ some (record { x = x; y = y })
    ]
  ]

  pub read_orientation : Child → Option (Orientation F)
  read_orientation c = elim (read_float (c.attribute (codes "azimuth"))) [
    | none ↦ none
    | some azimuth ↦ some (record { azimuth = azimuth })
  ]

  -- A call that is made only if the value could be read.
  abbrev pub when_read : {A : Type 0} → Option A → (A → Call F) → List (Call F)
  when_read none call = []
  when_read (some a) call = call a ∷ []

  -- A child of a <source> element that is not new: the calls for source `id`.
  pub update_child : ℕ → Child → List (Call F)
  unfolding read_position read_orientation
  update_child id c =
      if eq_text c.name (codes "position")
      then when_read (read_position c) (Publisher.set_source_position id)
        ++ when_read (read_bool (c.attribute (codes "fixed")))
            (Publisher.set_source_position_fixed id)
      else if eq_text c.name (codes "orientation")
      then when_read (read_orientation c) (Publisher.set_source_orientation id)
      else []

  pub update_children : ℕ → List Child → List (Call F)
  unfolding update_child
  update_children id [] = []
  update_children id (c ∷ cs) = update_child id c ++ update_children id cs

  -- What the children of a <source> element that is new assign.
  pub place : Child → Placement F → Placement F
  unfolding read_position read_orientation
  place c p =
      if eq_text c.name (codes "position")
      then record p {
        position = or_else (read_position c) (origin fl);
        position_fixed = or_else (read_bool (c.attribute (codes "fixed"))) false;
      }
      else if eq_text c.name (codes "orientation")
      then record p { orientation = or_else (read_orientation c) (facing fl 0) }
      else p

  pub place_all : List Child → Placement F → Placement F
  unfolding place
  place_all [] p = p
  place_all (c ∷ cs) p = place_all cs (place c p)

  abbrev pub unless_empty : Text → (Text → Call F) → List (Call F)
  unless_empty t call = if empty t then [] else call t ∷ []

  -- The calls for a source that exists.
  pub update_source : ℕ → Element → List (Call F)
  unfolding update_children
  update_source id e =
      update_children id e.children
      ++ when_read (read_float (e.attribute (codes "volume")))
          (λ volume. Publisher.set_source_gain id (fl.db_to_linear volume))
      ++ when_read (read_bool (e.attribute (codes "mute"))) (Publisher.set_source_mute id)
      ++ unless_empty (e.attribute (codes "name")) (Publisher.set_source_name id)
      ++ unless_empty (e.attribute (codes "properties_file"))
          (Publisher.set_source_properties_file id)
      ++ when_read (rd.read_model (e.attribute (codes "model"))) (Publisher.set_source_model id)
      ++ unless_empty (e.attribute (codes "port")) (Publisher.set_source_port_name id)

  -- The file or port and the channel of a <source> element; `none` is a failed assertion.
  pub read_channel_of : Element → Option (Text × ℕ)
  read_channel_of e =
      let port_name = e.attribute (codes "port") in
      let file_name = e.attribute (codes "file") in
      elim (read_channel (e.attribute (codes "channel"))) [
        | some negative ↦ none
        | some (channel n) ↦ if empty file_name then some (port_name, 0) else some (file_name, n)
        | none ↦ if empty file_name then some (port_name, 0) else some (file_name, 1)
      ]

  -- A new source with the attributes and children of its element.
  pub create_source : Element → Text → ℕ → List (Call F)
  unfolding place_all
  create_source e file_or_port_name number =
      let p =
        place_all e.children
          (record { position = origin fl; orientation = facing fl 0; position_fixed = false }) in
      if empty file_or_port_name
      then []
      else Publisher.new_source (record {
        name = e.attribute (codes "name");
        model = or_else (rd.read_model (e.attribute (codes "model"))) Model.point;
        file_or_port_name = file_or_port_name;
        channel = number;
        position = p.position;
        position_fixed = p.position_fixed;
        orientation = p.orientation;
        gain = elim (read_float (e.attribute (codes "volume"))) [
          | none ↦ fl.lit 1
          | some volume ↦ fl.db_to_linear volume
        ];
        muted = or_else (read_bool (e.attribute (codes "mute"))) false;
        properties_file = e.attribute (codes "properties_file");
      })
        ∷ []
