-- ===== src/PathTools/Relative.antt =====
-- make_relative() in a tree of directories: its result leads to where the path led.
use ssr_pre.Common.{◌≡◌, refl, sym, ap, ◌∙◌, List, [], ◌∷◌, ◌++◌, Option, some, if◌then◌else◌}
use ssr_pre.Common.Text.{Text, eq_text}
use ssr_pre.PathTools.{slash, is_nil, dot, relate, make_absolute, make_relative, tokenize, getlines}
use ssr_pre.PathTools.Cleaning.{Tree, move, resolve, resolve-append}
use ssr_pre.PathTools.Meeting.{relate-resolve}

make_relative_step :
    (cwd : Option Text) (path directory a b : List Text)
    → make_absolute cwd path ≡ some a
    → make_absolute cwd (if is_nil directory then dot ∷ [] else directory) ≡ some b
    → make_relative cwd path directory ≡ some (relate a b)
unfolding make_relative
make_relative_step cwd path directory a b e f = rw (e, make_relative, f) refl

module _ (tree : Tree) (root : tree.Place) (top : tree.parent root ≡ root) where
  open tree use {Place, enter, parent, parent-enter}

  -- Where a path leads: an absolute one from the root, any other one from the working directory.
  abbrev pub locate : Place → List Text → Place
  locate here [] = here
  locate here (t ∷ ts) = if is_nil t then resolve tree (t ∷ ts) root else resolve tree (t ∷ ts) here

  -- make_absolute() does not change where a path leads.
  record FromRoot (cwd : Text) (path : List Text) : Type 0 where
    rest : List Text
    made : make_absolute (some (slash ∷ cwd)) path ≡ some ([] ∷ rest)
    same : resolve tree ([] ∷ rest) root ≡ locate (resolve tree (tokenize (slash ∷ cwd)) root) path

  make_absolute-FromRoot : (cwd t : Text) (ts : List Text) → FromRoot cwd (t ∷ ts)
  unfolding make_absolute resolve
  make_absolute-FromRoot cwd [] ts = record { rest = ts; made = refl; same = refl }
  make_absolute-FromRoot cwd (c ∷ t) ts =
      let start = getlines (cwd ++ slash ∷ []) [] in
      record {
        rest = start ++ (c ∷ t) ∷ ts;
        made = refl;
        same = resolve-append tree start ((c ∷ t) ∷ ts) (move tree [] root);
      }

  -- The working directory.
  abbrev pub place_of : Text → Place
  place_of cwd = resolve tree (tokenize cwd) root

  -- The base directory, which may be left out.
  base-FromRoot :
      (cwd : Text) (directory : List Text)
      → FromRoot cwd (if is_nil directory then dot ∷ [] else directory)
  base-FromRoot cwd [] = make_absolute-FromRoot cwd dot []
  base-FromRoot cwd (t ∷ ts) = make_absolute-FromRoot cwd t ts

  locate-base :
      (here : Place) (directory : List Text)
      → locate here (if is_nil directory then dot ∷ [] else directory) ≡ locate here directory
  unfolding resolve move eq_text
  locate-base here [] = refl
  locate-base here (t ∷ ts) = refl

  -- make_relative() of a path that is not empty returns, and its result leads from the base
  -- directory to the place where the path leads, in any tree of directories in which the root is
  -- its own parent.
  pub make_relative-resolve :
      (cwd t : Text) (ts directory : List Text)
      → (r : List Text) × (make_relative (some (slash ∷ cwd)) (t ∷ ts) directory ≡ some r)
        × (resolve tree r (locate (place_of (slash ∷ cwd)) directory)
            ≡ locate (place_of (slash ∷ cwd)) (t ∷ ts))
  make_relative-resolve cwd t ts directory =
      let a = make_absolute-FromRoot cwd t ts in
      let b = base-FromRoot cwd directory in
      let here = place_of (slash ∷ cwd) in
      (
        relate ([] ∷ a.rest) ([] ∷ b.rest),
        make_relative_step (some (slash ∷ cwd)) (t ∷ ts) directory ([] ∷ a.rest) ([] ∷ b.rest)
            a.made b.made,
        ap (resolve tree (relate ([] ∷ a.rest) ([] ∷ b.rest)))
              (sym (locate-base here directory) ∙ sym b.same)
            ∙ relate-resolve tree root top ([] ∷ a.rest) b.rest
            ∙ a.same,
      )
