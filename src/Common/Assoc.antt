-- ===== src/Common/Assoc.antt =====
-- std::map with keys of type unsigned int: a list of entries in ascending order of their keys.
use Prim.Native.Nat.{ℕ}
use mathlib.Core.Path.{◌≡◌, refl, sym, ap, ◌∙◌}
use mathlib.Core.Option.{Option, none, some}
use mathlib.Core.Logic.{inl, inr}
use mathlib.Core.List.{List, [], ◌∷◌, map}
use native.Mathlib.Omega.{arith}
use ssr_pre.Common.Tests.{ltb, ◌==◌, if◌then◌else◌, Bool-cases}

abbrev pub Map {ℓ} : Type ℓ → Type ℓ
Map V = List (ℕ × V)

module _ {ℓ} {V : Type ℓ} where
  unfoldable pub find : ℕ → Map V → Option V
  find k [] = none
  find k ((j, v) ∷ m) = if j == k then some v else find k m

  -- m[k] = v
  unfoldable pub insert : ℕ → V → Map V → Map V
  insert k v [] = (k, v) ∷ []
  insert k v ((j, w) ∷ m) =
      if ltb k j
      then (k, v) ∷ (j, w) ∷ m
      else (if j == k then (k, v) ∷ m else (j, w) ∷ insert k v m)

  unfoldable pub erase : ℕ → Map V → Map V
  erase k [] = []
  erase k ((j, v) ∷ m) = if j == k then erase k m else (j, v) ∷ erase k m

  -- Assignment through the pointer that get_item() returns.
  unfoldable pub modify : ℕ → (V → V) → Map V → Map V
  modify k f [] = []
  modify k f ((j, v) ∷ m) = if j == k then (j, f v) ∷ modify k f m else (j, v) ∷ modify k f m

  abbrev pub keys : Map V → List ℕ
  keys m = map (λ e. e.0) m

  pub find-nil : (k : ℕ) → ◌≡◌ {A = Option V} (find k []) none
  unfolding find
  find-nil k = refl

  pub find-insert :
      (j k : ℕ) (v : V) (m : Map V) → find j (insert k v m) ≡ (if k == j then some v else find j m)
  unfolding find insert
  find-insert j k v [] = refl
  find-insert j k v ((i, w) ∷ m) = ground (arith, find-insert j k v m)

  pub find-erase : (j k : ℕ) (m : Map V) → find j (erase k m) ≡ (if k == j then none else find j m)
  unfolding find erase
  find-erase j k [] = ground arith
  find-erase j k ((i, w) ∷ m) = ground (arith, find-erase j k m)

  -- Replacing or taking away an entry makes no other one.
  pub find-insert_kept :
      (k : ℕ) (u v : V) (m : Map V)
      → find k m ≡ some u
      → (j : ℕ) → find j m ≡ none
      → find j (insert k v m) ≡ none
  find-insert_kept k u v m found j missing = elim (Bool-cases (k == j)) [
    | inl same ↦
        let eq : k ≡ j = ground arith in
        let clash : some u ≡ none = sym found ∙ (ap (λ j. find j m) eq ∙ missing) in cc
    | inr other ↦ rw (find-insert, other) missing
  ]

  pub find-erase_kept : (k : ℕ) (m : Map V) (j : ℕ) → find j m ≡ none → find j (erase k m) ≡ none
  find-erase_kept k m j missing = elim (Bool-cases (k == j)) [
    | inl same ↦ rw (find-erase, same) refl
    | inr other ↦ rw (find-erase, other) missing
  ]

  pub find-modify :
      (j k : ℕ) (f : V → V) (m : Map V)
      → find j (modify k f m)
        ≡ (if k == j then elim (find j m) [ none ↦ none | some v ↦ some (f v) ] else find j m)
  unfolding find modify
  find-modify j k f [] = ground arith
  find-modify j k f ((i, w) ∷ m) = ground (arith, find-modify j k f m)

  pub keys-modify : (k : ℕ) (f : V → V) (m : Map V) → keys (modify k f m) ≡ keys m
  unfolding modify
  keys-modify k f [] = refl
  keys-modify k f ((i, w) ∷ m) = ground (arith, keys-modify k f m)
