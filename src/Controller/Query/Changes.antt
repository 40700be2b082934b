-- ===== src/Controller/Query/Changes.antt =====
-- What may happen to the list of sources between query() and update().
use ssr_pre.Common.{
  ℕ, ◌≡◌, refl, ap, inl, inr, ◌<◌, ◌≤◌, ◌≢◌, ltb, true, ◌||◌, List, [], ◌∷◌, ◌++◌, Option, none,
  some, arith, ◌==◌, length, Bool-cases,
}
use ssr_pre.Renderer.{remove_first}
use ssr_pre.PathTools.{is_nil}
use ssr_pre.Controller.Query.{last_of, last_address, same_source}

-- What may happen to the list of sources: a new source has a higher id than `h`, and any may go.
pub data Evolves (h : ℕ) (l : List ℕ) : List ℕ → Type 0 where
  same : Evolves h l l
  added : (m : List ℕ) (id : ℕ) → h < id → Evolves h l m → Evolves h l (m ++ id ∷ [])
  removed : (m : List ℕ) (id : ℕ) → Evolves h l m → Evolves h l (remove_first id m)

abbrev AllAbove : ℕ → List ℕ → Type 0
AllAbove h [] = Unit
AllAbove h (x ∷ xs) = (h < x) × AllAbove h xs

-- Some of the first list, then new ones.
pub data Later (h : ℕ) : List ℕ → List ℕ → Type 0 where
  new : (m : List ℕ) → AllAbove h m → Later h [] m
  kept : (x : ℕ) (l m : List ℕ) → Later h l m → Later h (x ∷ l) (x ∷ m)
  gone : (x : ℕ) (l m : List ℕ) → Later h l m → Later h (x ∷ l) m

Later-refl : (h : ℕ) (l : List ℕ) → Later h l l
Later-refl h [] = new [] tt
Later-refl h (x ∷ l) = kept x l l (Later-refl h l)

above-append : (h : ℕ) (m : List ℕ) (id : ℕ) → h < id → AllAbove h m → AllAbove h (m ++ id ∷ [])
above-append h [] id p a = (p, tt)
above-append h (x ∷ m) id p (q, a) = (q, above-append h m id p a)

above-remove : (h : ℕ) (m : List ℕ) (id : ℕ) → AllAbove h m → AllAbove h (remove_first id m)
unfolding remove_first
above-remove h [] id a = tt
above-remove h (x ∷ m) id (q, a) = ground (arith, q, a, above-remove h m id a)

Later-append : (h : ℕ) (l m : List ℕ) (id : ℕ) → h < id → Later h l m → Later h l (m ++ id ∷ [])
Later-append h l m id p (new m' a) = new (m ++ id ∷ []) (above-append h m id p a)
Later-append h l m id p (kept x l' m' k) = kept x l' (m' ++ id ∷ []) (Later-append h l' m' id p k)
Later-append h l m id p (gone x l' m' k) = gone x l' (m ++ id ∷ []) (Later-append h l' m id p k)

Later-remove : (h : ℕ) (l m : List ℕ) (id : ℕ) → Later h l m → Later h l (remove_first id m)
unfolding remove_first
Later-remove h l m id (new m' a) = new (remove_first id m) (above-remove h m id a)
Later-remove h l m id (gone x l' m' k) = gone x l' (remove_first id m) (Later-remove h l' m id k)
Later-remove h l m id (kept x l' m' k) =
    let rest = Later-remove h l' m' id k in
    elim (Bool-cases (x == id)) [
      | inl e ↦ rw e (gone x l' m' k)
      | inr e ↦ rw e (kept x l' (remove_first id m') rest)
    ]

pub Evolves-Later : (h : ℕ) (l m : List ℕ) → Evolves h l m → Later h l m
Evolves-Later h l m same = Later-refl h l
Evolves-Later h l m (added m' id p e) = Later-append h l m' id p (Evolves-Later h l m' e)
Evolves-Later h l m (removed m' id e) = Later-remove h l m' id (Evolves-Later h l m' e)

-- The last source, if there is one, is not a new one.
abbrev pub EndsUpTo : ℕ → List ℕ → Type 0
EndsUpTo h [] = Unit
EndsUpTo h (x ∷ []) = x ≤ h
EndsUpTo h (x ∷ y ∷ m) = EndsUpTo h (y ∷ m)

ends-above : (h : ℕ) (m : List ℕ) → AllAbove h m → EndsUpTo h m → m ≡ []
ends-above h [] a e = refl
ends-above h (x ∷ []) (p, a) e = absurd (omega (arith, p, e))
ends-above h (x ∷ y ∷ m) (p, a) e = ground (arith, ends-above h (y ∷ m) a e)

EndsUpTo-tail : (h x : ℕ) (m : List ℕ) → EndsUpTo h (x ∷ m) → EndsUpTo h m
EndsUpTo-tail h x [] e = tt
EndsUpTo-tail h x (y ∷ m) e = e

-- As many, with an old one at the end: the same.
pub Later-same :
    (h : ℕ) (l m : List ℕ)
    → Later h l m
    → EndsUpTo h m
    → (length m ≤ length l) × (length m ≡ length l → m ≡ l)
Later-same h l m (new m' a) e =
    let nothing = ends-above h m' a e in (omega (arith, ap length nothing), λ s. nothing)
Later-same h l m (kept x l' m' k) e =
    let (shorter, equal) = Later-same h l' m' k (EndsUpTo-tail h x m' e) in
    (omega (arith, shorter), λ s. ap (◌∷◌ x) (equal (omega (arith, s))))
Later-same h l m (gone x l' m' k) e =
    let (shorter, equal) = Later-same h l' m k e in
    (omega (arith, shorter), λ s. absurd (omega (arith, shorter, s)))

-- The last of some sources is not a new one at the address of the last of others.
abbrev pub NotReused : ℕ → (ℕ → ℕ) → Option ℕ → Option ℕ → Type 0
NotReused h address o o' = (x y : ℕ) → o ≡ some x → o' ≡ some y → h < y → address x ≢ address y

EndsUpTo-last :
    (h : ℕ) (address : ℕ → ℕ) (o : Option ℕ) (m : List ℕ)
    → NotReused h address o (last_of m)
    → same_source (elim o [ none ↦ none | some x ↦ some (address x) ]) (last_address address m)
      ≡ true
    → EndsUpTo h m
EndsUpTo-last h address o [] fresh e = tt
EndsUpTo-last h address none (y ∷ []) fresh e = ground (arith, e)
EndsUpTo-last h address (some x) (y ∷ []) fresh e = elim (Bool-cases (ltb h y)) [
  | inl above ↦ absurd (fresh x y refl refl (ground (arith, above)) (ground (arith, e)))
  | inr upto ↦ ground (arith, upto)
]
EndsUpTo-last h address o (y ∷ z ∷ m) fresh e = EndsUpTo-last h address o (z ∷ m) fresh e

pub EndsUpTo-checked :
    (h : ℕ) (address : ℕ → ℕ) (l m : List ℕ)
    → NotReused h address (last_of l) (last_of m)
    → (is_nil m || same_source (last_address address l) (last_address address m)) ≡ true
    → EndsUpTo h m
EndsUpTo-checked h address l [] fresh e = tt
EndsUpTo-checked h address l (x ∷ m) fresh e = EndsUpTo-last h address (last_of l) (x ∷ m) fresh e
