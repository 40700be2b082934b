-- ===== src/PathTools/Meeting.antt =====
-- make_relative() behind make_absolute(): where the two clean paths part, and the way from one to the
-- other in a tree of directories.
use ssr_pre.Common.{
  ℕ, zero, suc, ◌≡◌, refl, sym, ap, ◌∙◌, Bool, true, false, List, [], ◌∷◌, ◌++◌, ◌==◌,
  if◌then◌else◌, replicate, Bool-cases, inl, inr, ◌&&◌, length, subst,
}
use ssr_pre.Common.Text.{Text, eq_text, eq_text_iff}
use ssr_pre.PathTools.{
  is_nil, dot, dot_dot, sweep_one, sweep, reattach, inner, clean_path, front_is_empty, is_directory,
  remove_common, prepend_parents, relate,
}
use ssr_pre.PathTools.Cleaning.{
  Tree, move, resolve, clean_path-resolve, drop_name, sweep_one-name, move-dot_dot, move-empty,
  move-name,
}

-- A component that enters a directory.
pub record IsName (t : Text) : Type 0 where
  pub not_dot : eq_text t dot ≡ false
  pub not_dot_dot : eq_text t dot_dot ≡ false
  pub not_empty : is_nil t ≡ false

abbrev pub AllNames : List Text → Type 0
AllNames [] = Unit
AllNames (t ∷ ts) = IsName t × AllNames ts

-- Nothing but names is left.
drop_name-AllNames :
    (t : Text) (levels : ℕ) (kept : List Text)
    → IsName t
    → AllNames kept
    → AllNames (drop_name t levels kept).1
drop_name-AllNames t zero kept n a = (n, a)
drop_name-AllNames t (suc levels) kept n a = a

sweep_one-AllNames :
    (t : Text) (levels : ℕ) (kept : List Text)
    → AllNames kept
    → AllNames (sweep_one t (levels, kept)).1
unfolding sweep_one
sweep_one-AllNames t levels kept a = elim (Bool-cases (eq_text t dot)) [
  | inl e ↦ rw (e, sweep_one) a
  | inr e ↦ elim (Bool-cases (eq_text t dot_dot)) [
    | inl f ↦ rw (e, f, sweep_one) a
    | inr f ↦ elim (Bool-cases (is_nil t)) [
      | inl g ↦ rw (e, f, g, sweep_one) a
      | inr g ↦
          subst (λ swept. AllNames swept.1) (sym (sweep_one-name t levels kept e f g))
            (drop_name-AllNames t levels kept
              (record { not_dot = e; not_dot_dot = f; not_empty = g }) a)
    ]
  ]
]

pub sweep-AllNames : (ts : List Text) → AllNames (sweep ts).1
unfolding sweep
sweep-AllNames [] = tt
sweep-AllNames (t ∷ ts) = sweep_one-AllNames t (sweep ts).0 (sweep ts).1 (sweep-AllNames ts)

module _ (tree : Tree) (root : tree.Place) (top : tree.parent root ≡ root) where
  open tree use {Place, enter, parent, parent-enter}

  -- From `q` on, the path goes up only where it stands at the root.
  Fits : List Text → Place → Type 0
  Fits [] q = Unit
  Fits (d ∷ ds) q =
      (eq_text d dot ≡ false) × ((eq_text d dot_dot ≡ true) → q ≡ root) × Fits ds (move tree d q)

  Fits-end : (ts : List Text) (q : Place) → Fits ts q → Fits (ts ++ [] ∷ []) q
  unfolding Fits eq_text
  Fits-end [] q f = (refl, λ h. cc, tt)
  Fits-end (t ∷ ts) q (d, u, f) = (d, u, Fits-end ts (move tree t q) f)

  Fits-names : (ts : List Text) (q : Place) → AllNames ts → Fits ts q
  unfolding Fits
  Fits-names [] q a = tt
  Fits-names (t ∷ ts) q (n, a) =
      (n.not_dot, λ h. cc (n.not_dot_dot, h), Fits-names ts (move tree t q) a)

  Fits-parents : (n : ℕ) (ts : List Text) → AllNames ts → Fits (replicate n dot_dot ++ ts) root
  unfolding Fits move eq_text
  Fits-parents zero ts a = Fits-names ts root a
  Fits-parents (suc n) ts a =
      (refl, λ h. refl, subst (Fits (replicate n dot_dot ++ ts)) (sym top) (Fits-parents n ts a))

  Fits-rooted : (ts : List Text) → Fits ts root → Fits ([] ∷ ts) root
  unfolding Fits move eq_text
  Fits-rooted ts f = (refl, λ h. cc, f)

  Fits-chosen :
      (b : Bool) (ts : List Text) → Fits ts root → Fits (if b then ts ++ [] ∷ [] else ts) root
  Fits-chosen true ts f = Fits-end ts root f
  Fits-chosen false ts f = f

  -- A cleaned absolute path goes up at the root only.
  Fits-clean_path : (ts : List Text) → Fits (clean_path ([] ∷ ts)) root
  unfolding clean_path reattach
  Fits-clean_path ts =
      let swept = sweep (inner ([] ∷ ts)) in
      let rooted : List Text = [] ∷ (replicate swept.0 dot_dot ++ swept.1) in
      let directory = is_directory ([] ∷ ts) in
      let result = if directory then rooted ++ [] ∷ [] else rooted in
      Fits-chosen ((length result == 1) && front_is_empty result) result (
        Fits-chosen directory rooted (
          Fits-rooted (replicate swept.0 dot_dot ++ swept.1)
            (Fits-parents swept.0 swept.1 (sweep-AllNames (inner ([] ∷ ts))))))

  -- Two paths that start at `p` go on from a place that both come to.
  record Parted (a b : List Text) (p : Place) (parts : List Text × List Text) : Type 0 where
    meeting : Place
    first : resolve tree a p ≡ resolve tree parts.0 meeting
    second : resolve tree b p ≡ resolve tree parts.1 meeting
    fits : Fits parts.1 meeting

  remove_common-Parted : (a b : List Text) (p : Place) → Fits b p → Parted a b p (remove_common a b)
  unfolding remove_common resolve Fits
  remove_common-Parted [] b p f = record { meeting = p; first = refl; second = refl; fits = f }
  remove_common-Parted (x ∷ a) [] p f = record {
    meeting = p;
    first = refl;
    second = refl;
    fits = f;
  }
  remove_common-Parted (x ∷ a) (y ∷ b) p f = elim (Bool-cases (eq_text x y)) [
    | inr e ↦ rw (e, remove_common) (record { meeting = p; first = refl; second = refl; fits = f })
    | inl e ↦
        let k = remove_common-Parted a b (move tree y p) f.2 in
        rw (e, remove_common)
          (record {
            meeting = k.meeting;
            first = ap (λ t. resolve tree a (move tree t p)) ((eq_text_iff x y).0 e) ∙ k.first;
            second = k.second;
            fits = k.fits;
          })
  ]

  parent_again :
      (d : Text) (q : Place)
      → eq_text d dot ≡ false
      → is_nil d ≡ false
      → ((eq_text d dot_dot ≡ true) → q ≡ root)
      → parent (move tree d q) ≡ q
  parent_again d q n e u = elim (Bool-cases (eq_text d dot_dot)) [
    | inl up ↦
        let at_root = u up in
        ap parent (move-dot_dot tree d q up)
        ∙ ap (λ r. parent (parent r)) at_root
        ∙ ap parent top
        ∙ top
        ∙ sym at_root
    | inr name ↦ ap parent (move-name tree d q n name e) ∙ parent-enter d q
  ]

  -- Going up where a component of the base directory went down.
  up_again :
      (d : Text) (path : List Text) (q : Place)
      → eq_text d dot ≡ false
      → ((eq_text d dot_dot ≡ true) → q ≡ root)
      → resolve tree (if is_nil d then path else dot_dot ∷ path) (move tree d q)
        ≡ resolve tree path q
  unfolding resolve
  up_again d path q n u = elim (Bool-cases (is_nil d)) [
    | inl e ↦ rw (e) (ap (resolve tree path) (move-empty tree d q e))
    | inr e ↦ rw (e) (
        ap (resolve tree path) (
          move-dot_dot tree dot_dot (move tree d q) ((eq_text_iff dot_dot dot_dot).1 refl)
          ∙ parent_again d q n e u))
  ]

  prepend_parents-resolve :
      (base path : List Text) (q : Place)
      → Fits base q
      → resolve tree (prepend_parents base path) (resolve tree base q) ≡ resolve tree path q
  unfolding prepend_parents resolve Fits
  prepend_parents-resolve [] path q f = refl
  prepend_parents-resolve (d ∷ base) path q (n, u, f) =
      prepend_parents-resolve base (if is_nil d then path else dot_dot ∷ path) (move tree d q) f
      ∙ up_again d path q n u

  finished :
      (b : Bool) (ts : List Text) (p : Place)
      → resolve tree (if b then dot ∷ ts else ts) p ≡ resolve tree ts p
  unfolding resolve move eq_text
  finished true ts p = refl
  finished false ts p = refl

  -- Both paths absolute.
  pub relate-resolve :
      (path base : List Text)
      → resolve tree (relate path ([] ∷ base)) (resolve tree ([] ∷ base) root)
        ≡ resolve tree path root
  unfolding relate
  relate-resolve path base =
      let a = clean_path path in
      let b = clean_path ([] ∷ base) in
      let parts = remove_common a b in
      let k = remove_common-Parted a b root (Fits-clean_path base) in
      let result = prepend_parents parts.1 parts.0 in
      finished ((length result == 1) && front_is_empty result) result
        (resolve tree ([] ∷ base) root)
      ∙ ap (resolve tree result) (sym (clean_path-resolve tree ([] ∷ base) root) ∙ k.second)
      ∙ prepend_parents-resolve parts.1 parts.0 k.meeting k.fits
      ∙ sym k.first
      ∙ clean_path-resolve tree path root
