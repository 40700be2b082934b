-- ===== src/Vbap.antt =====
-- src/vbaprenderer.h: the choice of two loudspeakers for a source, their weights, and what an output
-- makes of them. A pointer to an output is its number. A failed assertion is `none`.

pub mod Between
pub mod Neighbours
pub mod Selecting
pub mod Examples
use ssr_pre.Common.{
  ℕ, suc, Bool, true, false, not, ◌&&◌, ◌||◌, List, [], ◌∷◌, ◌++◌, map, Option, none, some, ◌==◌,
  if◌then◌else◌,
}
use ssr_pre.Geometry.{Arithmetic, Position, LoudspeakerModel}
use ssr_pre.Geometry.Points.{Plane, subtract_position, position_orientation}
use ssr_pre.Loudspeakers.{Output}

pub record LoudspeakerEntry (F : Type 0) : Type 0 where
  pub angle : F
  pub valid_section : Bool
  pub ls_ptr : ℕ

-- A weight for an output; the null pointer is none.
pub record LoudspeakerWeight (F : Type 0) : Type 0 where
  pub ls_ptr : Option ℕ
  pub weight : F

-- The weights of a source for its first and its second loudspeaker.
pub record Weights (F : Type 0) : Type 0 where
  pub first : LoudspeakerWeight F
  pub second : LoudspeakerWeight F

-- The parameters of the renderer, the comparisons of floats, and functions of apf::math.
pub record Panning (F : Type 0) : Type 0 where
  pub plane : Plane F
  pub zero_float : F
  pub less : F → F → Bool
  pub greater_equal : F → F → Bool
  pub equal : F → F → Bool
  pub twice : F → F
  pub half : F → F
  pub wrap_two_pi : F → F
  pub overhang_func : F → F
  pub max_angle : F
  pub overhang_angle : F
  -- deg2rad(360)
  pub full_circle : F

-- What an output makes of a source: CombineChannelsResult, with the weight or the ends of the ramp.
pub data Selected (F : Type 0) : Type 0 where
  nothing : Selected F
  constant : F → Selected F
  change : F → F → Selected F

module _ {F : Type 0} (pan : Panning F) where
  open pan use {
    plane, zero_float, less, greater_equal, equal, twice, half, wrap_two_pi, overhang_func,
    max_angle, overhang_angle, full_circle,
  }
  open plane use {arithmetic, trigonometry}
  open arithmetic use {add, subtract, times, divide, cos, sin}

  -- std::upper_bound(), which splits the list in front of the first larger angle.
  unfoldable pub upper_bound :
      List (LoudspeakerEntry F) → F → List (LoudspeakerEntry F) × List (LoudspeakerEntry F)
  upper_bound [] angle = ([], [])
  upper_bound (e ∷ es) angle =
      let (before, behind) = upper_bound es angle in
      if less angle e.angle then ([], e ∷ es) else (e ∷ before, behind)

  -- The last element.
  abbrev pub back {ℓ} : {A : Type ℓ} → A → List A → A
  back x [] = x
  back x (y ∷ ys) = back y ys

  -- Of a list that starts at the circular iterator: the entry in front of it, and the one at it.
  abbrev pub ends_of : List (LoudspeakerEntry F) → Option (LoudspeakerEntry F × LoudspeakerEntry F)
  ends_of [] = none
  ends_of (second ∷ rest) = some (back second rest, second)

  unfoldable pub neighbours :
      List (LoudspeakerEntry F) → F → Option (LoudspeakerEntry F × LoudspeakerEntry F)
  neighbours entries angle =
      let (before, behind) = upper_bound entries angle in ends_of (behind ++ before)

  abbrev pub no_weight : LoudspeakerWeight F
  no_weight = record { ls_ptr = none; weight = zero_float }

  -- The weight of a loudspeaker beside which there is no valid section.
  abbrev pub overhang_weight : F → ℕ → LoudspeakerWeight F
  overhang_weight overhang ptr =
      if less overhang overhang_angle
      then record { ls_ptr = some ptr; weight = overhang_func overhang }
      else no_weight

  unfoldable pub calculate_loudspeaker_weights :
      F → LoudspeakerEntry F → LoudspeakerEntry F → Weights F
  calculate_loudspeaker_weights source_angle first second =
      let phi_0 = half (wrap_two_pi (subtract second.angle first.angle)) in
      let phi = wrap_two_pi (subtract (subtract source_angle first.angle) phi_0) in
      let num1 = times (cos phi) (sin phi_0) in
      let num2 = times (sin phi) (cos phi_0) in
      let den = times (twice (cos phi_0)) (sin phi_0) in
      if first.valid_section
      then record {
        first = record { ls_ptr = some first.ls_ptr; weight = divide (subtract num1 num2) den };
        second = record { ls_ptr = some second.ls_ptr; weight = divide (add num1 num2) den };
      }
      else record {
        first = overhang_weight (wrap_two_pi (subtract source_angle first.angle)) first.ls_ptr;
        second = overhang_weight (wrap_two_pi (subtract second.angle source_angle)) second.ls_ptr;
      }

  abbrev pub scaled : F → LoudspeakerWeight F → LoudspeakerWeight F
  scaled factor w = record w { weight = times w.weight factor }

  -- The weights of a source with its volume, between two loudspeakers.
  unfoldable pub source_weights : F → F → LoudspeakerEntry F → LoudspeakerEntry F → Weights F
  unfolding calculate_loudspeaker_weights
  source_weights incidence_angle weighting_factor first second =
      let weights = calculate_loudspeaker_weights incidence_angle first second in
      record {
        first = scaled weighting_factor weights.first;
        second = scaled weighting_factor weights.second;
      }

  -- Source::process() behind the angle of incidence.
  unfoldable pub process_source : List (LoudspeakerEntry F) → F → F → Option (Weights F)
  process_source entries incidence_angle weighting_factor =
      elim (neighbours entries incidence_angle) [
        | none ↦ none
        | some (first, second) ↦ some (source_weights incidence_angle weighting_factor first second)
      ]

  abbrev pub points_to : ℕ → Option ℕ → Bool
  points_to out none = false
  points_to out (some ptr) = ptr == out

  -- get_weight() of select(), and of get_output_levels()
  abbrev pub get_weight : ℕ → Weights F → F
  get_weight out w =
      if points_to out w.first.ls_ptr
      then w.first.weight
      else if points_to out w.second.ls_ptr
      then w.second.weight
      else zero_float

  unfoldable pub get_output_levels : List ℕ → Weights F → List F
  get_output_levels outs w = map (λ out. get_weight out w) outs

  abbrev pub is_null : Option ℕ → Bool
  is_null none = true
  is_null (some ptr) = false

  abbrev pub same_ptr : Option ℕ → Option ℕ → Bool
  same_ptr none other = is_null other
  same_ptr (some ptr) other = points_to ptr other

  -- What select() chooses from the last weight and the new one.
  abbrev pub selected : F → F → Selected F
  selected old_weight new_weight =
      if equal old_weight zero_float && equal new_weight zero_float
      then nothing
      else if equal old_weight new_weight
      then constant new_weight
      else change old_weight new_weight

  -- RenderFunction::select() with the weights of the last block and of this one.
  unfoldable pub select : ℕ → Weights F → Weights F → Option (Selected F)
  select out old new =
      if not (same_ptr new.first.ls_ptr new.second.ls_ptr) || is_null new.first.ls_ptr
      then some (selected (get_weight out old) (get_weight out new))
      else none

  -- The angle under which a loudspeaker is seen from the reference point.
  abbrev pub angle_of : (ℕ → Position F) → Position F → ℕ → F
  angle_of position offset ptr = wrap_two_pi (
      trigonometry.deg2rad
        ((position_orientation plane (subtract_position plane (position ptr) offset)).azimuth))

  unfoldable pub update_angles :
      (ℕ → Position F) → Position F → List (LoudspeakerEntry F) → List (LoudspeakerEntry F)
  update_angles position offset [] = []
  update_angles position offset (e ∷ es) =
      record e { angle = angle_of position offset e.ls_ptr } ∷ update_angles position offset es

  -- std::sort() by operator<
  pub insert_entry : LoudspeakerEntry F → List (LoudspeakerEntry F) → List (LoudspeakerEntry F)
  insert_entry e [] = e ∷ []
  insert_entry e (f ∷ fs) =
      let rest = insert_entry e fs in if less f.angle e.angle then f ∷ rest else e ∷ f ∷ fs

  unfoldable pub sort_loudspeakers : List (LoudspeakerEntry F) → List (LoudspeakerEntry F)
  unfolding insert_entry
  sort_loudspeakers [] = []
  sort_loudspeakers (e ∷ es) = insert_entry e (sort_loudspeakers es)

  -- The loop of _update_valid_sections(), with the angle of the first entry.
  abbrev pub mark_sections : F → List (LoudspeakerEntry F) → List (LoudspeakerEntry F)
  mark_sections begin [] = []
  mark_sections begin (e ∷ []) =
      record e { valid_section = greater_equal (add e.angle max_angle) (add begin full_circle) }
      ∷ []
  mark_sections begin (e ∷ f ∷ es) =
      record e { valid_section = greater_equal (add e.angle max_angle) f.angle }
      ∷ mark_sections begin (f ∷ es)

  unfoldable pub update_valid_sections : List (LoudspeakerEntry F) → List (LoudspeakerEntry F)
  update_valid_sections [] = []
  update_valid_sections (e ∷ es) = mark_sections e.angle (e ∷ es)

  -- The part of process() for a new reference offset: sorted again only where an angle has wrapped.
  unfoldable pub update_reference :
      (ℕ → Position F) → Position F → List (LoudspeakerEntry F) → List (LoudspeakerEntry F)
  unfolding update_angles sort_loudspeakers update_valid_sections
  update_reference position offset entries = elim (update_angles position offset entries) [
    | [] ↦ []
    | e ∷ es ↦
        update_valid_sections
          (if less (back e es).angle e.angle then sort_loudspeakers (e ∷ es) else e ∷ es)
  ]

  -- The outputs that are no subwoofers, counted from `ptr`.
  unfoldable pub regular_outputs : ℕ → List (Output F) → List ℕ
  regular_outputs ptr [] = []
  regular_outputs ptr (out ∷ outs) =
      let rest = regular_outputs (suc ptr) outs in
      elim out.loudspeaker.model [ LoudspeakerModel.subwoofer ↦ rest | _ ↦ ptr ∷ rest ]

  -- An entry for each output, before its angle is known.
  abbrev pub entries_of : List ℕ → List (LoudspeakerEntry F)
  entries_of [] = []
  entries_of (ptr ∷ outs) =
      record { angle = zero_float; valid_section = false; ls_ptr = ptr } ∷ entries_of outs

  -- The end of load_reproduction_setup(), for the outputs that are no subwoofers.
  unfoldable pub prepare :
      (ℕ → Position F) → Position F → List ℕ → Option (List (LoudspeakerEntry F))
  unfolding update_angles sort_loudspeakers update_valid_sections
  prepare position offset [] = none
  prepare position offset (out ∷ outs) = some (
      update_valid_sections
        (sort_loudspeakers (update_angles position offset (entries_of (out ∷ outs)))))
