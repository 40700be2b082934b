-- ===== src/Loudspeakers/Examples.antt =====
-- A small reproduction setup: a loudspeaker, a channel that is skipped, and a circular array.
use Prim.Native.String.{String}
use ssr_pre.Common.{
  arith, ℕ, ◌+◌, ◌++◌, length, true, List, [], ◌∷◌, none, some, ◌≡◌, refl, if◌then◌else◌,
}
use ssr_pre.Common.Text.{codes, eq_text}
use ssr_pre.Common.Int.{pos, as_int}
use ssr_pre.CommandParser.Examples.{plain_numbers}
use ssr_pre.Controller.Loading.Sample.{arithmetic}
use ssr_pre.Geometry.Points.{Plane}
use ssr_pre.Loudspeakers.{
  Tag, SetupElement, SetupDocument, Setup, SetupReader, get_position, get_azimuth, child,
  add_loudspeaker,
}
use ssr_pre.Loudspeakers.Elements.{
  load_reproduction_setup, load_element, load_loudspeaker, load_circular_array, add_circle,
  array_number, first_point, skipped, with_loudspeakers,
}
use ssr_pre.Loudspeakers.Ports.{connections, ports, all_slots}
use ssr_pre.Loudspeakers.Setups.{
  Distinct, load_reproduction_setup-ports, load_reproduction_setup-Distinct,
  load_reproduction_setup-AllSkip,
}

abbrev pub plane : Plane ℕ
plane = record {
  arithmetic = arithmetic;
  trigonometry = record {
    atan2 = λ y x. y;
    sqrt = λ a. a;
    square = λ a. a;
    deg2rad = λ a. a;
    pi_div_180 = 1;
  };
}

-- Every attribute but "number" can be read as a coordinate.
abbrev tag : String → ℕ → Tag
tag word number = record {
  name = codes word;
  attribute = λ a. if eq_text a (codes "number") then number ∷ [] else codes "x";
}

abbrev spot : List Tag
spot = tag "position" 0 ∷ tag "orientation" 0 ∷ []

abbrev single : SetupElement
single = record {
  tag = tag "loudspeaker" 0;
  children =
      record { tag = tag "position" 0; children = [] }
      ∷ record { tag = tag "orientation" 0; children = [] }
      ∷ [];
}

abbrev left_out : SetupElement
left_out = record { tag = tag "skip" 2; children = [] }

abbrev ring : SetupElement
ring = record {
  tag = tag "circular_array" 3;
  children = record { tag = tag "first" 0; children = spot } ∷ [];
}

abbrev reader : List SetupElement → SetupReader ℕ
reader elements = record {
  reproduction_setup = codes "f";
  xml_schema = [];
  system_output_prefix = codes "p";
  read_float = λ t. some 7;
  read_int = λ t. elim t [ [] ↦ none | n ∷ rest ↦ some (pos n) ];
  show_int = λ n. n ∷ [];
  load_file = λ name. some (record { validate = λ s. true; eval_xpath = λ x. elements });
}

abbrev document : List SetupElement → SetupDocument
document elements = record { validate = λ s. true; eval_xpath = λ x. elements }

abbrev mixed : List SetupElement
mixed = single ∷ left_out ∷ ring ∷ []

loaded : Setup ℕ
unfolding load_reproduction_setup load_element load_loudspeaker get_position get_azimuth eq_text
    add_loudspeaker child load_circular_array add_circle array_number first_point skipped
    with_loudspeakers as_int
loaded = elim (load_reproduction_setup plain_numbers plane (reader mixed)) [
  | none ↦ record { outputs = []; next_loudspeaker_channel = 0 }
  | some s ↦ s
]

loads : load_reproduction_setup plain_numbers plane (reader mixed) ≡ some loaded
unfolding loaded with_loudspeakers as_int
loads = refl

-- Channel 2 and 3 are left out.
loaded-connections :
    connections (reader mixed) loaded
    ≡ some (codes "p" ++ 1 ∷ [])
      ∷ some (codes "p" ++ 4 ∷ [])
      ∷ some (codes "p" ++ 5 ∷ [])
      ∷ some (codes "p" ++ 6 ∷ [])
      ∷ []
unfolding loaded with_loudspeakers as_int
loaded-connections = refl

load_reproduction_setup-ports_example :
    (connections (reader mixed) loaded ≡ ports (reader mixed) 1 (all_slots (reader mixed) mixed))
    × (loaded.next_loudspeaker_channel ≡ 1 + length (all_slots (reader mixed) mixed))
load_reproduction_setup-ports_example =
    load_reproduction_setup-ports plain_numbers plane (reader mixed) (document mixed) refl loads

load_reproduction_setup-Distinct_example : Distinct (connections (reader mixed) loaded)
unfolding eq_text
load_reproduction_setup-Distinct_example =
    load_reproduction_setup-Distinct plain_numbers plane (reader mixed) refl (λ m n e. cc)
      (document mixed) refl loads

load_reproduction_setup-AllSkip_example :
    (s : Setup ℕ) × (load_reproduction_setup plain_numbers plane (reader (left_out ∷ [])) ≡ some s)
    × (s.outputs ≡ [])
unfolding eq_text skipped
load_reproduction_setup-AllSkip_example =
    load_reproduction_setup-AllSkip plain_numbers plane (reader (left_out ∷ [])) left_out []
      (document (left_out ∷ [])) refl refl refl refl (refl, tt) (omega arith)

-- The int overflows, and the check at the end takes the setup for an empty one.
too_many_skipped :
    load_reproduction_setup plain_numbers plane
      (reader (record { tag = tag "skip" 2147483647; children = [] } ∷ []))
    ≡ none
unfolding load_reproduction_setup load_element eq_text skipped with_loudspeakers as_int
too_many_skipped = refl
