-- ===== src/Renderer/Ascending.antt =====
-- Maps whose keys ascend, as std::map keeps them, and the list of their keys.
use native.Mathlib.Nat.{le_trans}
use ssr_pre.Common.{ℕ, ◌<◌, ◌≤◌, ◌≡◌, refl, ap, List, [], ◌∷◌, ◌++◌, arith}
use ssr_pre.Common.Assoc.{Map, insert, erase, modify, keys}
use ssr_pre.Renderer.{remove_first}

-- Ascending from above `low`, up to `high`.
abbrev pub Between : {V : Type 0} → ℕ → ℕ → Map V → Type 0
Between low high [] = Unit
Between low high ((k, v) ∷ m) = (low < k) × (k ≤ high) × Between k high m

module _ {V : Type 0} where
  pub Between-mono :
      (low high higher : ℕ) (m : Map V) → high ≤ higher → Between low high m → Between low higher m
  Between-mono low high higher [] h b = tt
  Between-mono low high higher ((k, v) ∷ m) h (p, q, b) =
      (p, le_trans q h, Between-mono k high higher m h b)

  -- A new greatest key goes to the end.
  pub insert_last :
      (low high k : ℕ) (v : V) (m : Map V)
      → high < k
      → Between low high m
      → insert k v m ≡ m ++ (k, v) ∷ []
  unfolding insert
  insert_last low high k v [] h b = refl
  insert_last low high k v ((j, w) ∷ m) h (p, q, b) = ground (arith, insert_last j high k v m h b)

  pub Between-last :
      (low high k : ℕ) (v : V) (m : Map V)
      → low < k
      → high < k
      → Between low high m
      → Between low k (m ++ (k, v) ∷ [])
  Between-last low high k v [] l h b = (l, omega arith, tt)
  Between-last low high k v ((j, w) ∷ m) l h (p, q, b) =
      (p, omega arith, Between-last j high k v m (omega arith) h b)

  pub keys-append : (m n : Map V) → keys (m ++ n) ≡ keys m ++ keys n
  keys-append [] n = refl
  keys-append ((k, v) ∷ m) n = ap (◌∷◌ k) (keys-append m n)

  pub erase_above : (low high k : ℕ) (m : Map V) → k ≤ low → Between low high m → erase k m ≡ m
  unfolding erase
  erase_above low high k [] h b = refl
  erase_above low high k ((j, v) ∷ m) h (p, q, b) =
      ground (arith, erase_above j high k m (omega arith) b)

  pub keys-erase :
      (low high k : ℕ) (m : Map V) → Between low high m → keys (erase k m) ≡ remove_first k (keys m)
  unfolding erase remove_first
  keys-erase low high k [] b = refl
  keys-erase low high k ((j, v) ∷ m) (p, q, b) =
      ground (arith, keys-erase j high k m b, erase_above j high k m)

  pub Between-lower :
      (low lower high : ℕ) (m : Map V) → lower ≤ low → Between low high m → Between lower high m
  Between-lower low lower high [] h b = tt
  Between-lower low lower high ((k, v) ∷ m) h (p, q, b) = (omega arith, q, b)

  pub Between-erase :
      (low high k : ℕ) (m : Map V) → Between low high m → Between low high (erase k m)
  unfolding erase
  Between-erase low high k [] b = tt
  Between-erase low high k ((j, v) ∷ m) (p, q, b) = ground (
    arith,
    Between-erase j high k m b,
    Between-lower j low high (erase k m),
    Between-erase j high k m b,
  )

  pub Between-modify :
      (low high k : ℕ) (f : V → V) (m : Map V)
      → Between low high m
      → Between low high (modify k f m)
  unfolding modify
  Between-modify low high k f [] b = tt
  Between-modify low high k f ((j, v) ∷ m) (p, q, b) = ground (arith, Between-modify j high k f m b)

pub remove_head : (k : ℕ) (xs : List ℕ) → remove_first k (k ∷ xs) ≡ xs
unfolding remove_first
remove_head k xs = ground arith
