-- ===== src/PathTools/Examples.antt =====
-- Paths in a small tree of directories, which has a place for each list of names.
use ssr_pre.Common.{ℕ, arith, ap, length, ◌≡◌, ◌≢◌, refl, List, [], ◌∷◌, Option, some}
use ssr_pre.Common.Text.{Text, codes}
use ssr_pre.PathTools.{
  slash, tokenize, untokenize, clean_path, make_relative, pop_front, remove_last_component,
  make_path_relative_to_file, make_path_relative_to_current_dir, get_file_extension,
  get_escaped_filename, dot, dot_dot,
}
use ssr_pre.PathTools.Cleaning.{Tree, resolve, clean_path-resolve}
use ssr_pre.PathTools.Relative.{make_relative-resolve}

abbrev names : Tree
names = record {
  Place = List Text;
  enter = λ name p. name ∷ p;
  parent = λ p. pop_front p;
  parent-enter = λ name p. refl;
}

two_not_empty : (codes "ab" ∷ [] ∷ []) ≢ ([] ∷ [])
two_not_empty e = omega (arith, ap length e)

clean_path-resolve_example :
    resolve names (clean_path (codes "a" ∷ dot_dot ∷ dot_dot ∷ codes "b" ∷ [])) (codes "c" ∷ [])
    ≡ resolve names (codes "a" ∷ dot_dot ∷ dot_dot ∷ codes "b" ∷ []) (codes "c" ∷ [])
clean_path-resolve_example =
    clean_path-resolve names (codes "a" ∷ dot_dot ∷ dot_dot ∷ codes "b" ∷ []) (codes "c" ∷ [])

make_relative-resolve_example :
    (r : List Text) × (make_relative
        (some (codes "/home"))
        (codes "a" ∷ [])
        (codes "b" ∷ codes "c" ∷ [])
      ≡ some r)
    × (resolve names r (codes "c" ∷ codes "b" ∷ codes "home" ∷ []) ≡ codes "a" ∷ codes "home" ∷ [])
unfolding resolve ssr_pre.PathTools.Cleaning.move ssr_pre.Common.Text.eq_text tokenize
make_relative-resolve_example =
    make_relative-resolve names [] refl (codes "home") (codes "a") [] (codes "b" ∷ codes "c" ∷ [])

-- From the scene file's directory, and back.
relative_to_file :
    make_path_relative_to_file (some (codes "/home")) (codes "audio/a.wav") (codes "scenes/b.asd")
    ≡ some (codes "../audio/a.wav")
unfolding make_path_relative_to_file ssr_pre.Common.Text.eq_text ssr_pre.PathTools.make_absolute
    ssr_pre.PathTools.relate clean_path
relative_to_file = refl

relative_to_current_dir :
    make_path_relative_to_current_dir
      (some (codes "/home"))
      (codes "../audio/a.wav")
      (codes "scenes/b.asd")
    ≡ some (codes "audio/a.wav")
unfolding make_path_relative_to_current_dir ssr_pre.Common.Text.eq_text
    ssr_pre.PathTools.make_absolute ssr_pre.PathTools.relate clean_path
relative_to_current_dir = refl
