-- ===== src/PathTools/Returning.antt =====
-- No assertion of the path tools fails while there is a working directory.
use ssr_pre.Common.{◌≡◌, refl, List, [], ◌∷◌, ◌++◌, some, if◌then◌else◌, Bool-cases, inl, inr}
use ssr_pre.Common.Text.{Text}
use ssr_pre.PathTools.{
  is_nil, dot, tokenize, untokenize, clean_path, make_absolute, make_relative, relate,
  remove_last_component, is_relative, is_current_dir, make_path_relative_to_file,
  make_path_relative_to_current_dir,
}

make_absolute_returns :
    (cwd : Text) (path : List Text) → (r : List Text) × (make_absolute (some cwd) path ≡ some r)
unfolding make_absolute
make_absolute_returns cwd [] = ([], refl)
make_absolute_returns cwd ([] ∷ ts) = ([] ∷ ts, refl)
make_absolute_returns cwd ((c ∷ t) ∷ ts) = (tokenize cwd ++ (c ∷ t) ∷ ts, refl)

make_relative_returns :
    (cwd : Text) (path directory : List Text)
    → (r : List Text) × (make_relative (some cwd) path directory ≡ some r)
unfolding make_relative
make_relative_returns cwd path directory =
    let a = make_absolute_returns cwd path in
    let b = make_absolute_returns cwd (if is_nil directory then dot ∷ [] else directory) in
    (relate a.0 b.0, rw (a.1, make_relative, b.1) refl)

pub make_path_relative_to_file_returns :
    (cwd path filename : Text)
    → (r : Text) × (make_path_relative_to_file (some cwd) path filename ≡ some r)
unfolding make_path_relative_to_file
make_path_relative_to_file_returns cwd path filename =
    let p2 = remove_last_component (tokenize filename) in
    let r = make_relative_returns cwd (tokenize path) p2 in
    elim (Bool-cases (is_relative path)) [
      | inr e ↦ (path, rw e refl)
      | inl e ↦ elim (Bool-cases (is_current_dir p2)) [
        | inl e' ↦ (untokenize (clean_path (tokenize path)), rw (e, e') refl)
        | inr e' ↦ (untokenize r.0, rw (e, e', r.1) refl)
      ]
    ]

pub make_path_relative_to_current_dir_returns :
    (cwd path filename : Text)
    → (r : Text) × (make_path_relative_to_current_dir (some cwd) path filename ≡ some r)
unfolding make_path_relative_to_current_dir
make_path_relative_to_current_dir_returns cwd path filename =
    let r =
      make_relative_returns cwd (remove_last_component (tokenize filename) ++ tokenize path) [] in
    elim (Bool-cases (is_relative path)) [
      | inr e ↦ (path, rw e refl)
      | inl e ↦ (untokenize r.0, rw (e, r.1) refl)
    ]
