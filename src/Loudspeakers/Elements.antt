-- ===== src/Loudspeakers/Elements.antt =====
-- src/loudspeakerrenderer.h: single loudspeakers, linear and circular arrays, and the loop over all
-- elements of a reproduction setup.
use ssr_pre.Common.{
  ℕ, zero, suc, ◌+◌, ◌-◌, true, false, not, ◌&&◌, List, [], ◌∷◌, map, Option, none, some,
  if◌then◌else◌,
}
use ssr_pre.Common.Text.{codes}
use ssr_pre.Common.Int.{as_int, less_than, rounds}
use ssr_pre.CommandParser.{empty, or_else}
use ssr_pre.PathTools.{is_nil}
use ssr_pre.Geometry.{
  Floats, Position, Orientation, DirectionalPoint, default_loudspeaker, origin, facing,
}
use ssr_pre.Geometry.Points.{
  Plane, add_point, subtract_point, divide_point, subtract_position, rotate_point,
}
use ssr_pre.Loudspeakers.{
  Part, SetupElement, SetupDocument, Setup, SetupReader, is_named, read_model, child, get_position,
  get_orientation, get_angle, add_loudspeaker,
}

module _ {F : Type 0} (rd : SetupReader F) where
  -- The number of loudspeakers in an array, which is at least 2.
  unfoldable pub array_number : SetupElement → Option ℕ
  array_number node = elim (rd.read_int (node.tag.attribute (codes "number"))) [
    | none ↦ none
    | some number ↦ if less_than 2 number then none else some (rounds number)
  ]

  -- The number of channels that a <skip> element leaves out.
  unfoldable pub skipped : SetupElement → ℕ
  skipped node = elim (rd.read_int (node.tag.attribute (codes "number"))) [
    | none ↦ 1
    | some number ↦ if less_than 1 number then 1 else rounds number
  ]

module _ {F : Type 0} (fl : Floats F) (pl : Plane F) (rd : SetupReader F) where
  open rd use {read_float}

  -- A delay is not negative.
  abbrev pub valid_delay : F → F
  valid_delay delay = if fl.greater (fl.lit 0) delay then fl.lit 0 else delay

  unfoldable pub load_loudspeaker : SetupElement → Setup F → Option (Setup F)
  load_loudspeaker node s =
      let tags = map (λ p. p.tag) node.children in
      elim (get_position rd tags) [
        | none ↦ none
        | some position ↦ elim (get_orientation rd tags) [
          | none ↦ none
          | some orientation ↦
              let point : DirectionalPoint F = record {
                position = position;
                orientation = orientation;
              } in
              let attribute = node.tag.attribute in
              some (
                add_loudspeaker rd
                  (record (default_loudspeaker fl point) {
                    model = read_model (attribute (codes "model"));
                    weight = or_else (read_float (attribute (codes "weight"))) (fl.lit 1);
                    delay =
                        valid_delay (or_else (read_float (attribute (codes "delay"))) (fl.lit 0));
                  })
                  s)
        ]
      ]

  -- The loop of _load_linear_array(), over the rounds that are left.
  unfoldable pub add_line : ℕ → DirectionalPoint F → DirectionalPoint F → Setup F → Setup F
  add_line zero current increment s = s
  add_line (suc n) current increment s =
      add_line n (add_point pl current increment) increment
        (add_loudspeaker rd (default_loudspeaker fl current) s)

  -- The point of an array, with the orientation of the first one where it has none.
  abbrev pub point_like : Position F → Option (Orientation F) → Orientation F → DirectionalPoint F
  point_like position orientation first_dir = record {
    position = position;
    orientation = or_else orientation first_dir;
  }

  -- The difference of two neighbours: one of "second" and "last" has to be there.
  unfoldable pub line_increment : ℕ → DirectionalPoint F → List Part → Option (DirectionalPoint F)
  line_increment number first parts =
      let second_pos = get_position rd (child "second" parts) in
      let last_pos = get_position rd (child "last" parts) in
      elim second_pos [
        | none ↦ elim last_pos [
          | none ↦ none
          | some position ↦ some (
              divide_point pl
                (subtract_point pl
                  (point_like position (get_orientation rd (child "last" parts)) first.orientation)
                  first)
                (fl.lit (number - 1)))
        ]
        | some position ↦ elim last_pos [
          | none ↦ some (
              subtract_point pl
                (point_like position (get_orientation rd (child "second" parts)) first.orientation)
                first)
          | some other ↦ none
        ]
      ]

  -- The position and the orientation of the first loudspeaker.
  unfoldable pub first_point : List Part → Option (DirectionalPoint F)
  first_point parts = elim (get_position rd (child "first" parts)) [
    | none ↦ none
    | some position ↦ elim (get_orientation rd (child "first" parts)) [
      | none ↦ none
      | some orientation ↦ some (record { position = position; orientation = orientation })
    ]
  ]

  unfoldable pub load_linear_array : SetupElement → Setup F → Option (Setup F)
  load_linear_array node s = elim (array_number rd node) [
    | none ↦ none
    | some number ↦ elim (first_point node.children) [
      | none ↦ none
      | some first ↦ elim (line_increment number first node.children) [
        | none ↦ none
        | some increment ↦ some (add_line number first increment s)
      ]
    ]
  ]

  -- The loop of _load_circular_array(): `i` counts up, over the rounds that are left.
  unfoldable pub add_circle :
      ℕ → ℕ → F → DirectionalPoint F → DirectionalPoint F → Setup F → Setup F
  add_circle zero i angle_increment radius center s = s
  add_circle (suc n) i angle_increment radius center s =
      let angle = pl.arithmetic.times (fl.lit i) angle_increment in
      let point = add_point pl (rotate_point pl angle radius) center in
      add_circle n (i + 1) angle_increment radius center
        (add_loudspeaker rd (default_loudspeaker fl point) s)

  abbrev pub angle_increment_of : ℕ → List Part → F
  angle_increment_of number parts = elim (get_angle rd (child "second" parts)) [
    | some second_dir ↦ second_dir.azimuth
    | none ↦ elim (get_angle rd (child "last" parts)) [
      | some last_dir ↦ pl.arithmetic.divide last_dir.azimuth (fl.lit (number - 1))
      | none ↦ pl.arithmetic.divide (fl.lit 360) (fl.lit number)
    ]
  ]

  -- The center is the origin if there is none.
  abbrev center_pos : List Part → Position F
  center_pos parts = or_else (get_position rd (child "center" parts)) (origin fl)

  abbrev pub array_radius : DirectionalPoint F → List Part → DirectionalPoint F
  array_radius first parts = record {
    position = subtract_position pl first.position (center_pos parts);
    orientation = first.orientation;
  }

  abbrev pub array_center : List Part → DirectionalPoint F
  array_center parts = record { position = center_pos parts; orientation = facing fl 0 }

  unfoldable pub load_circular_array : SetupElement → Setup F → Option (Setup F)
  load_circular_array node s = elim (array_number rd node) [
    | none ↦ none
    | some number ↦ elim (first_point node.children) [
      | none ↦ none
      | some first ↦ some (
          add_circle number 0 (angle_increment_of number node.children)
            (array_radius first node.children) (array_center node.children) s)
    ]
  ]

  -- One round of the loop over the elements.
  unfoldable pub load_element : SetupElement → Setup F → Option (Setup F)
  load_element node s = elim (is_named "loudspeaker" node.tag) [
    | true ↦ load_loudspeaker node s
    | false ↦ elim (is_named "linear_array" node.tag) [
      | true ↦ load_linear_array node s
      | false ↦ elim (is_named "circular_array" node.tag) [
        | true ↦ load_circular_array node s
        | false ↦ elim (is_named "skip" node.tag) [
          | true ↦
              some (record s {
                next_loudspeaker_channel = s.next_loudspeaker_channel + skipped rd node;
              })
          | false ↦ some s
        ]
      ]
    ]
  ]

  unfoldable pub load_elements : List SetupElement → Setup F → Option (Setup F)
  load_elements [] s = some s
  load_elements (node ∷ nodes) s = elim (load_element node s) [
    | none ↦ none
    | some s' ↦ load_elements nodes s'
  ]

  -- The constructor.
  abbrev pub no_setup : Setup F
  no_setup = record { outputs = []; next_loudspeaker_channel = 1 }

  abbrev pub setup_elements : SetupDocument → List SetupElement
  setup_elements document = document.eval_xpath (codes "//reproduction_setup/*")

  -- The check at the end.
  unfoldable pub with_loudspeakers : Option (Setup F) → Option (Setup F)
  with_loudspeakers none = none
  with_loudspeakers (some s) =
      if less_than 2 (as_int s.next_loudspeaker_channel) then none else some s

  -- What is made of a document that could be loaded.
  unfoldable pub read_document : SetupDocument → Option (Setup F)
  read_document document =
      if not (empty rd.xml_schema) && not (document.validate rd.xml_schema)
      then none
      else if is_nil (setup_elements document)
      then none
      else with_loudspeakers (load_elements (setup_elements document) no_setup)

  unfoldable pub load_reproduction_setup : Option (Setup F)
  unfolding read_document load_elements
  load_reproduction_setup =
      if empty rd.reproduction_setup then none else elim (rd.load_file rd.reproduction_setup) [
        | none ↦ none
        | some document ↦ read_document document
      ]
