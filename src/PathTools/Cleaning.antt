-- ===== src/PathTools/Cleaning.antt =====
-- clean_path() against what a path means in a tree of directories without symbolic links.
use ssr_pre.Common.{
  ℕ, zero, suc, ◌≡◌, refl, sym, ap, ◌∙◌, Bool, true, false, List, [], ◌∷◌, ◌++◌, arith, ◌==◌, subst,
  if◌then◌else◌, replicate, Bool-cases, inl, inr, ◌&&◌, length,
}
use ssr_pre.Common.Text.{Text, eq_text, eq_text_iff}
use ssr_pre.PathTools.{
  is_nil, dot, dot_dot, sweep_one, sweep, reattach, inner, clean_path, pop_front, pop_back,
  front_is_empty, back_is_empty, is_directory,
}

-- A tree of directories: where a name leads, and where ".." leads. The parent of what a directory
-- contains is the directory; nothing is assumed of the parent of the root.
pub record Tree : Type 1 where
  pub Place : Type 0
  pub enter : Text → Place → Place
  pub parent : Place → Place
  pub parent-enter : (name : Text) (p : Place) → parent (enter name p) ≡ p

-- A name is dropped if a ".." behind it waits for one.
abbrev pub drop_name : Text → ℕ → List Text → ℕ × List Text
drop_name t zero kept = (zero, t ∷ kept)
drop_name t (suc n) kept = (n, kept)

pub sweep_one-name :
    (t : Text) (levels : ℕ) (kept : List Text)
    → eq_text t dot ≡ false
    → eq_text t dot_dot ≡ false
    → is_nil t ≡ false
    → sweep_one t (levels, kept) ≡ drop_name t levels kept
unfolding sweep_one
sweep_one-name t zero kept e f g = rw (e, f, g) refl
sweep_one-name t (suc n) kept e f g = rw (e, f, g) (ground arith)

module _ (tree : Tree) where
  open tree use {Place, enter, parent, parent-enter}

  -- One component: ".", ".." and the empty one are no names.
  unfoldable pub move : Text → Place → Place
  move t p =
      if eq_text t dot
      then p
      else if eq_text t dot_dot
      then parent p
      else if is_nil t
      then p
      else enter t p

  -- The meaning of a path, one component after the other.
  unfoldable pub resolve : List Text → Place → Place
  resolve [] p = p
  resolve (t ∷ ts) p = resolve ts (move t p)

  pub climb : ℕ → Place → Place
  climb zero p = p
  climb (suc n) p = climb n (parent p)

  pub resolve-append :
      (ts us : List Text) (p : Place) → resolve (ts ++ us) p ≡ resolve us (resolve ts p)
  unfolding resolve
  resolve-append [] us p = refl
  resolve-append (t ∷ ts) us p = resolve-append ts us (move t p)

  pub resolve-parents :
      (n : ℕ) (ts : List Text) (p : Place)
      → resolve (replicate n dot_dot ++ ts) p ≡ resolve ts (climb n p)
  unfolding resolve climb move eq_text
  resolve-parents zero ts p = refl
  resolve-parents (suc n) ts p = resolve-parents n ts (parent p)

  pub move-name :
      (t : Text) (p : Place)
      → eq_text t dot ≡ false
      → eq_text t dot_dot ≡ false
      → is_nil t ≡ false
      → move t p ≡ enter t p
  unfolding move
  move-name t p e f g = rw (e, f, g) refl

  pub move-dot_dot : (t : Text) (p : Place) → eq_text t dot_dot ≡ true → move t p ≡ parent p
  unfolding move eq_text
  move-dot_dot t p e = subst (λ u. move u p ≡ parent p) (sym ((eq_text_iff t dot_dot).0 e)) refl

  pub move-empty : (t : Text) (p : Place) → is_nil t ≡ true → move t p ≡ p
  unfolding move eq_text
  move-empty [] p e = refl
  move-empty (c ∷ t) p e = cc

  name-resolve :
      (t : Text) (levels : ℕ) (kept : List Text) (p : Place)
      → eq_text t dot ≡ false
      → eq_text t dot_dot ≡ false
      → is_nil t ≡ false
      → resolve (sweep_one t (levels, kept)).1 (climb (sweep_one t (levels, kept)).0 p)
        ≡ resolve kept (climb levels (move t p))
  unfolding resolve climb
  name-resolve t zero kept p e f g = rw (sweep_one-name t zero kept e f g) refl
  name-resolve t (suc n) kept p e f g = rw (sweep_one-name t (suc n) kept e f g) (
      ap (λ q. resolve kept (climb n q)) (sym (ap parent (move-name t p e f g) ∙ parent-enter t p)))

  sweep_one-resolve :
      (t : Text) (levels : ℕ) (kept : List Text) (p : Place)
      → resolve (sweep_one t (levels, kept)).1 (climb (sweep_one t (levels, kept)).0 p)
        ≡ resolve kept (climb levels (move t p))
  unfolding sweep_one resolve climb move
  sweep_one-resolve t levels kept p = elim (Bool-cases (eq_text t dot)) [
    | inl e ↦ rw (e, sweep_one, move) refl
    | inr e ↦ elim (Bool-cases (eq_text t dot_dot)) [
      | inl f ↦ rw (e, f, sweep_one, move) refl
      | inr f ↦ elim (Bool-cases (is_nil t)) [
        | inl g ↦ rw (e, f, g, sweep_one, move) refl
        | inr g ↦ name-resolve t levels kept p e f g
      ]
    ]
  ]

  sweep-resolve :
      (ts : List Text) (p : Place) → resolve (sweep ts).1 (climb (sweep ts).0 p) ≡ resolve ts p
  unfolding sweep resolve climb
  sweep-resolve [] p = refl
  sweep-resolve (t ∷ ts) p =
      sweep_one-resolve t (sweep ts).0 (sweep ts).1 p ∙ sweep-resolve ts (move t p)

  -- Empty components at the ends say nothing.
  resolve-pop_front :
      (ts : List Text) (p : Place)
      → front_is_empty ts ≡ true
      → resolve (pop_front ts) p ≡ resolve ts p
  unfolding resolve move eq_text
  resolve-pop_front [] p h = refl
  resolve-pop_front ([] ∷ ts) p h = refl
  resolve-pop_front ((c ∷ t) ∷ ts) p h = cc

  resolve-pop_back :
      (ts : List Text) (p : Place)
      → back_is_empty ts ≡ true
      → resolve (pop_back ts) p ≡ resolve ts p
  unfolding resolve
  resolve-pop_back [] p h = refl
  resolve-pop_back ([] ∷ []) p h = unfold move eq_text in refl
  resolve-pop_back ((c ∷ t) ∷ []) p h = cc
  resolve-pop_back (t ∷ u ∷ ts) p h = resolve-pop_back (u ∷ ts) (move t p) h

  resolve-end : (ts : List Text) (p : Place) → resolve (ts ++ [] ∷ []) p ≡ resolve ts p
  resolve-end ts p = resolve-append ts ([] ∷ []) p ∙ unfold resolve move eq_text in refl

  trimmed_front :
      (b : Bool) (ts : List Text) (p : Place)
      → front_is_empty ts ≡ b
      → resolve (if b then pop_front ts else ts) p ≡ resolve ts p
  trimmed_front true ts p h = resolve-pop_front ts p h
  trimmed_front false ts p h = refl

  trimmed_back :
      (b : Bool) (ts : List Text) (p : Place)
      → back_is_empty ts ≡ b
      → resolve (if b then pop_back ts else ts) p ≡ resolve ts p
  trimmed_back true ts p h = resolve-pop_back ts p h
  trimmed_back false ts p h = refl

  resolve-inner : (ts : List Text) (p : Place) → resolve (inner ts) p ≡ resolve ts p
  resolve-inner ts p =
      trimmed_back (is_directory ts) (if front_is_empty ts then pop_front ts else ts) p refl
      ∙ trimmed_front (front_is_empty ts) ts p refl

  -- What is put back says nothing either.
  rooted_same :
      (b : Bool) (ts : List Text) (p : Place) → resolve (if b then [] ∷ ts else ts) p ≡ resolve ts p
  unfolding resolve move eq_text
  rooted_same true ts p = refl
  rooted_same false ts p = refl

  present_same :
      (ts : List Text) (p : Place) → resolve (if is_nil ts then dot ∷ [] else ts) p ≡ resolve ts p
  unfolding resolve move eq_text
  present_same [] p = refl
  present_same (t ∷ ts) p = refl

  ended_same :
      (b : Bool) (ts : List Text) (p : Place)
      → resolve (if b then ts ++ [] ∷ [] else ts) p ≡ resolve ts p
  ended_same true ts p = resolve-end ts p
  ended_same false ts p = refl

  reattach-resolve :
      (absolute directory : Bool) (ts : List Text) (p : Place)
      → resolve (reattach absolute directory ts) p ≡ resolve ts p
  unfolding reattach
  reattach-resolve absolute directory ts p =
      let rooted = if absolute then [] ∷ ts else ts in
      let present = if is_nil rooted then dot ∷ [] else rooted in
      let result = if directory then present ++ [] ∷ [] else present in
      ended_same ((length result == 1) && front_is_empty result) result p
      ∙ ended_same directory present p
      ∙ present_same rooted p
      ∙ rooted_same absolute ts p

  -- clean_path() does not change where a path leads, from any place in any tree of directories.
  pub clean_path-resolve :
      (tokens : List Text) (p : Place) → resolve (clean_path tokens) p ≡ resolve tokens p
  unfolding clean_path
  clean_path-resolve [] p = refl
  clean_path-resolve (t ∷ ts) p =
      let tokens : List Text = t ∷ ts in
      let swept = sweep (inner tokens) in
      reattach-resolve (front_is_empty tokens) (is_directory tokens)
        (replicate swept.0 dot_dot ++ swept.1) p
      ∙ resolve-parents swept.0 swept.1 p
      ∙ sweep-resolve (inner tokens) p
      ∙ resolve-inner tokens p
