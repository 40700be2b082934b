-- ===== src/Vbap/Examples.antt =====
-- Three loudspeakers around a listener; angles are whole degrees.
use mathlib.Core.List.{Nodup, Nodup-cons, Nodup-nil, not-mem-nil, mem-cons}
use mathlib.Core.Logic.Or
use ssr_pre.Common.{
  ℕ, zero, suc, ◌*◌, ◌%◌, Bool, true, false, List, [], ◌∷◌, none, some, ◌≡◌, refl, arith, ltb, leb,
  ◌==◌,
}
use ssr_pre.Geometry.{Position}
use ssr_pre.Loudspeakers.Examples.{plane}
use ssr_pre.Vbap.{
  LoudspeakerEntry, Panning, Weights, neighbours, process_source, prepare, select, selected,
  get_weight, upper_bound, update_angles, sort_loudspeakers, update_valid_sections, insert_entry,
}
use ssr_pre.Vbap.Neighbours.{IsOrder, Chooses, prepare-Chooses}
use ssr_pre.Vbap.Selecting.{pointers, process_source-select, process_source-alone}

abbrev degrees : Panning ℕ
degrees = record {
  plane = plane;
  zero_float = 0;
  less = ltb;
  greater_equal = λ a b. leb b a;
  equal = λ a b. a == b;
  twice = λ a. 2 * a;
  half = λ a. a;
  wrap_two_pi = λ a. a % 360;
  overhang_func = λ a. 1;
  max_angle = 180;
  overhang_angle = 30;
  full_circle = 360;
}

degrees-IsOrder : IsOrder degrees
degrees-IsOrder = record { asymmetric = λ a b h. ground arith; ascends = λ a b c h k. ground arith }

-- The loudspeakers 0, 1 and 2 stand at 200, 20 and 110 degrees.
abbrev spot : ℕ → Position ℕ
spot zero = record { x = 0; y = 200 }
spot (suc zero) = record { x = 0; y = 20 }
spot (suc (suc n)) = record { x = 0; y = 110 }

abbrev here : Position ℕ
here = record { x = 0; y = 0 }

abbrev entry : ℕ → Bool → ℕ → LoudspeakerEntry ℕ
entry angle valid ptr = record { angle = angle; valid_section = valid; ls_ptr = ptr }

abbrev three : List (LoudspeakerEntry ℕ)
three = entry 20 true 1 ∷ entry 110 true 2 ∷ entry 200 true 0 ∷ []

prepared : prepare degrees spot here (0 ∷ 1 ∷ 2 ∷ []) ≡ some three
unfolding prepare update_angles sort_loudspeakers update_valid_sections insert_entry
prepared = refl

-- A source at 300 degrees is between the last and the first loudspeaker.
wrapped : neighbours degrees three 300 ≡ some (entry 200 true 0, entry 20 true 1)
unfolding neighbours upper_bound
wrapped = refl

prepare-Chooses_example :
    (entries : List (LoudspeakerEntry ℕ)) × (prepare degrees spot here (0 ∷ 1 ∷ 2 ∷ [])
      ≡ some entries)
    × Chooses degrees entries
prepare-Chooses_example = prepare-Chooses degrees degrees-IsOrder spot here 0 (1 ∷ 2 ∷ [])

abbrev two : List (LoudspeakerEntry ℕ)
two = entry 20 true 1 ∷ entry 110 true 2 ∷ []

two-Nodup : Nodup (pointers degrees two)
two-Nodup = Nodup-cons.1 (
  λ m. Or.elim (λ a. absurd a) (mem-cons.0 m) (λ e. omega (arith, e)) not-mem-nil,
  Nodup-cons.1 (not-mem-nil, Nodup-nil),
)

process_source-select_example :
    (w : Weights ℕ) × (process_source degrees two 300 5 ≡ some w)
    × ((out : ℕ) (old : Weights ℕ)
        → select degrees out old w
          ≡ some (selected degrees (get_weight degrees out old) (get_weight degrees out w)))
process_source-select_example = process_source-select degrees two 300 5 (omega arith) two-Nodup

process_source-alone_example :
    (w : Weights ℕ) × (process_source degrees (entry 20 false 0 ∷ []) 20 5 ≡ some w)
    × ((out : ℕ) (old : Weights ℕ) → select degrees out old w ≡ none)
process_source-alone_example = process_source-alone degrees (entry 20 false 0) 5 refl refl
