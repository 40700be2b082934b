-- ===== src/CommandParser/Elements.antt =====
-- src/boostnetwork/commandparser.cpp: the elements of a request, and parse_cmd() over all of them.
use ssr_pre.Common.{Bool, true, false, List, [], ◌∷◌, ◌++◌, Option, none, some, if◌then◌else◌}
use ssr_pre.Common.Text.{codes, eq_text}
use ssr_pre.Geometry.{Floats}
use ssr_pre.Publisher.{Call}
use ssr_pre.Publisher
use ssr_pre.CommandParser.{
  Child, Element, Readers, or_else, when_read, unless_empty, read_position, read_orientation,
  update_source, create_source, read_channel_of,
}

-- What an element leads to: calls, and whether parse_cmd() goes on with the next one.
pub record Parsed (F : Type 0) : Type 0 where
  pub calls : List (Call F)
  pub goes_on : Bool

module _ {F : Type 0} (fl : Floats F) (rd : Readers F) where
  open rd use {read_float, read_id, read_bool, read_time}

  -- The <source> element. Without an id and without the attribute "new" parse_cmd() returns.
  unfoldable pub parse_source : Element → Option (Parsed F)
  unfolding update_source create_source read_channel_of
  parse_source e =
      let new_source : Bool = or_else (read_bool (e.attribute (codes "new"))) false in
      let create : Option (Parsed F) = elim (read_channel_of fl rd e) [
        | none ↦ none
        | some (file_or_port_name, number) ↦
            some (record { calls = create_source fl rd e file_or_port_name number; goes_on = true })
      ] in
      let update : Option (Parsed F) = elim (read_id (e.attribute (codes "id"))) [
        | none ↦ some (record { calls = []; goes_on = false })
        | some id ↦ elim (read_channel_of fl rd e) [
          | none ↦ none
          | some c ↦ some (record { calls = update_source fl rd id e; goes_on = true })
        ]
      ] in
      if new_source then create else update

  pub parse_reference : List Child → List (Call F)
  unfolding read_position read_orientation
  parse_reference [] = []
  parse_reference (c ∷ cs) =
      (if eq_text c.name (codes "position")
        then when_read fl rd (read_position fl rd c) Publisher.set_reference_position
        else if eq_text c.name (codes "orientation")
        then when_read fl rd (read_orientation fl rd c) Publisher.set_reference_orientation
        else [])
      ++ parse_reference cs

  pub parse_reference_offset : List Child → List (Call F)
  unfolding read_position read_orientation
  parse_reference_offset [] = []
  parse_reference_offset (c ∷ cs) =
      (if eq_text c.name (codes "position")
        then when_read fl rd (read_position fl rd c) Publisher.set_reference_offset_position
        else if eq_text c.name (codes "orientation")
        then when_read fl rd (read_orientation fl rd c) Publisher.set_reference_offset_orientation
        else [])
      ++ parse_reference_offset cs

  unfoldable pub parse_delete : List Child → List (Call F)
  parse_delete [] = []
  parse_delete (c ∷ cs) =
      (if eq_text c.name (codes "source")
        then when_read fl rd (read_id (c.attribute (codes "id"))) Publisher.delete_source
        else [])
      ++ parse_delete cs

  -- First save, then load, then the volume, then clear.
  pub parse_scene : Element → List (Call F)
  parse_scene e =
      unless_empty fl rd (e.attribute (codes "save")) Publisher.save_scene_as_xml
      ++ unless_empty fl rd (e.attribute (codes "load")) Publisher.load_scene
      ++ (if eq_text (e.attribute (codes "volume")) []
          then []
          else when_read fl rd (read_float (e.attribute (codes "volume")))
              (λ volume. Publisher.set_master_volume (fl.db_to_linear volume)))
      ++ (if or_else (read_bool (e.attribute (codes "clear"))) false
          then Publisher.delete_all_sources ∷ []
          else [])

  pub parse_state : Element → List (Call F)
  parse_state e =
      let processing = e.attribute (codes "processing") in
      let transport = e.attribute (codes "transport") in
      (if eq_text processing (codes "start")
        then Publisher.start_processing ∷ []
        else if eq_text processing (codes "stop")
        then Publisher.stop_processing ∷ []
        else [])
      ++ (if eq_text transport (codes "start")
          then Publisher.transport_start ∷ []
          else if eq_text transport (codes "stop")
          then Publisher.transport_stop ∷ []
          else if eq_text transport (codes "rewind")
          then Publisher.transport_locate (fl.lit 0) ∷ []
          else [])
      ++ when_read fl rd (read_time (e.attribute (codes "seek"))) Publisher.transport_locate
      ++ (if eq_text (e.attribute (codes "tracker")) (codes "reset")
          then Publisher.calibrate_client ∷ []
          else [])

  abbrev continue_with : List (Call F) → Option (Parsed F)
  continue_with calls = some (record { calls = calls; goes_on = true })

  -- An element of another name is passed over.
  unfoldable pub parse_element : Element → Option (Parsed F)
  unfolding parse_source parse_reference parse_reference_offset parse_delete parse_scene parse_state
  parse_element e =
      if eq_text e.name (codes "source")
      then parse_source e
      else if eq_text e.name (codes "reference")
      then continue_with (parse_reference e.children)
      else if eq_text e.name (codes "reference_offset")
      then continue_with (parse_reference_offset e.children)
      else if eq_text e.name (codes "delete")
      then continue_with (parse_delete e.children)
      else if eq_text e.name (codes "scene")
      then continue_with (parse_scene e)
      else if eq_text e.name (codes "state")
      then continue_with (parse_state e)
      else continue_with []

  -- The calls of parse_cmd() on the elements below <request>; `none` is a failed assertion.
  unfoldable pub parse_cmd : List Element → Option (List (Call F))
  unfolding parse_element
  parse_cmd [] = some []
  parse_cmd (e ∷ es) =
      let following = parse_cmd es in
      elim (parse_element e) [
        | none ↦ none
        | some parsed ↦
            if parsed.goes_on
            then elim following [ none ↦ none | some calls ↦ some (parsed.calls ++ calls) ]
            else some parsed.calls
      ]
