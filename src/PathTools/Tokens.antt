-- ===== src/PathTools/Tokens.antt =====
-- Splitting a path into components and putting it together again.
use ssr_pre.Common.{
  ◌≡◌, ◌≢◌, refl, sym, ap, ◌∙◌, false, List, [], ◌∷◌, ◌++◌, arith, if◌then◌else◌, append_assoc,
  append-nil,
}
use ssr_pre.Common.Text.{Text, codes}
use ssr_pre.PathTools.{slash, is_nil, getlines, tokenize, copied, pop_back, untokenize}

-- No slash in a component.
abbrev pub IsComponent : Text → Type 0
IsComponent [] = Unit
IsComponent (c ∷ t) = (c ≢ slash) × IsComponent t

abbrev pub AllComponents : List Text → Type 0
AllComponents [] = Unit
AllComponents (t ∷ ts) = IsComponent t × AllComponents ts

pop_back_last : {A : Type 0} (s : List A) (c : A) → pop_back (s ++ c ∷ []) ≡ s
pop_back_last [] c = refl
pop_back_last (x ∷ []) c = refl
pop_back_last (x ∷ y ∷ s) c = ap (◌∷◌ x) (pop_back_last (y ∷ s) c)

-- What was read and the rest of the path spell the components.
copied-getlines :
    (path s : Text) → copied (getlines (path ++ slash ∷ []) s) ≡ s ++ (path ++ slash ∷ [])
unfolding copied getlines
copied-getlines [] s = refl
copied-getlines (c ∷ path) s = ground (
  arith,
  copied-getlines path [],
  copied-getlines path (s ++ c ∷ []),
  append_assoc s (c ∷ []) (path ++ slash ∷ []),
)

-- A path that is split into components and put together again is the same path, and "." if it was
-- empty.
pub untokenize-tokenize :
    (path : Text) → untokenize (tokenize path) ≡ (if is_nil path then codes "." else path)
unfolding untokenize tokenize
untokenize-tokenize path = rw (copied-getlines path [], pop_back_last path slash) refl

-- Reading a component up to its slash.
getlines_component :
    (t rest s : Text) → IsComponent t → getlines (t ++ slash ∷ rest) s ≡ (s ++ t) ∷ getlines rest []
unfolding getlines
getlines_component [] rest s p = ap (λ w. w ∷ getlines rest []) (sym (append-nil s))
getlines_component (c ∷ t) rest s (p, q) =
    ground (arith, p, getlines_component t rest (s ++ c ∷ []) q, append_assoc s (c ∷ []) t)

getlines-copied : (ts : List Text) → AllComponents ts → getlines (copied ts) [] ≡ ts
unfolding copied
getlines-copied [] p = unfold getlines in refl
getlines-copied (t ∷ ts) (p, q) =
    getlines_component t (copied ts) [] p ∙ ap (◌∷◌ t) (getlines-copied ts q)

-- The components with a slash between any two of them.
pub joined : Text → List Text → Text
joined t [] = t
joined t (u ∷ us) = t ++ (slash ∷ joined u us)

pub copied-joined : (t : Text) (ts : List Text) → copied (t ∷ ts) ≡ joined t ts ++ slash ∷ []
unfolding copied joined
copied-joined t [] = refl
copied-joined t (u ∷ us) =
    ap (λ s. t ++ (slash ∷ s)) (copied-joined u us)
    ∙ sym (append_assoc t (slash ∷ joined u us) (slash ∷ []))

joined-nonempty : (t : Text) (ts : List Text) → (t ∷ ts) ≢ ([] ∷ []) → is_nil (joined t ts) ≡ false
unfolding joined
joined-nonempty [] [] h = absurd (h refl)
joined-nonempty (c ∷ t) [] h = refl
joined-nonempty [] (u ∷ us) h = refl
joined-nonempty (c ∷ t) (u ∷ us) h = refl

pub untokenize-joined :
    (t : Text) (ts : List Text) → (t ∷ ts) ≢ ([] ∷ []) → untokenize (t ∷ ts) ≡ joined t ts
unfolding untokenize
untokenize-joined t ts h =
    rw (copied-joined t ts, pop_back_last (joined t ts) slash, joined-nonempty t ts h) refl

-- A list of components without slashes that is put together and split again is the same list, if
-- it has a component and is not a single empty one.
pub tokenize-untokenize :
    (t : Text) (ts : List Text)
    → AllComponents (t ∷ ts)
    → (t ∷ ts) ≢ ([] ∷ [])
    → tokenize (untokenize (t ∷ ts)) ≡ t ∷ ts
unfolding tokenize
tokenize-untokenize t ts p h =
    rw (untokenize-joined t ts h, sym (copied-joined t ts)) (getlines-copied (t ∷ ts) p)
