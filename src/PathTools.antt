-- ===== src/PathTools.antt =====
-- src/posixpathtools.h: paths as strings and as lists of components. The current working directory is
-- an argument: `none` where getcwd() fails. A failed assertion is `none`.
pub mod Tokens
pub mod Cleaning
pub mod Meeting
pub mod Relative
pub mod FileNames
pub mod Returning
pub mod Examples
use ssr_pre.Common.{
  ℕ, zero, suc, ◌+◌, ◌^◌, ◌-◌, ◌%◌, Bool, true, false, not, ◌&&◌, ◌||◌, List, [], ◌∷◌, ◌++◌, Option,
  none, some, ◌==◌, ltb, leb, if◌then◌else◌, length, replicate,
}
use ssr_pre.Common.Text.{Text, codes, eq_text}

abbrev pub slash : ℕ
slash = b'/'

abbrev pub is_nil {ℓ} : {A : Type ℓ} → List A → Bool
is_nil [] = true
is_nil (x ∷ xs) = false

-- while (std::getline(ss, s, '/')) of the rest of the stream, behind the characters read already.
unfoldable pub getlines : Text → Text → List Text
getlines [] s = if is_nil s then [] else s ∷ []
getlines (c ∷ rest) s = elim (c == slash) [
  | true ↦ s ∷ getlines rest []
  | false ↦ getlines rest (s ++ c ∷ [])
]

pub tokenize : Text → List Text
unfolding getlines
tokenize path = getlines (path ++ slash ∷ []) []

-- What std::copy writes to the stream.
pub copied : List Text → Text
copied [] = []
copied (t ∷ ts) = t ++ (slash ∷ copied ts)

abbrev pub pop_back {ℓ} : {A : Type ℓ} → List A → List A
pop_back [] = []
pop_back (x ∷ []) = []
pop_back (x ∷ y ∷ ys) = x ∷ pop_back (y ∷ ys)

pub untokenize : List Text → Text
unfolding copied
untokenize tokens =
    let result = pop_back (copied tokens) in if is_nil result then codes "." else result

abbrev pub pop_front {ℓ} : {A : Type ℓ} → List A → List A
pop_front [] = []
pop_front (x ∷ xs) = xs

-- Whether there is a first component, and it is the empty string; likewise for the last one.
abbrev pub front_is_empty : List Text → Bool
front_is_empty [] = false
front_is_empty (t ∷ ts) = is_nil t

abbrev pub back_is_empty : List Text → Bool
back_is_empty [] = false
back_is_empty (t ∷ []) = is_nil t
back_is_empty (t ∷ u ∷ ts) = back_is_empty (u ∷ ts)

abbrev pub dot : Text
dot = codes "."

abbrev pub dot_dot : Text
dot_dot = codes ".."

-- One round of the loop of clean_path(), with `levels` and the components behind `t` that are left.
pub sweep_one : Text → ℕ × List Text → ℕ × List Text
sweep_one t (levels, kept) =
    if eq_text t dot
    then (levels, kept)
    else if eq_text t dot_dot
    then (suc levels, kept)
    else if is_nil t
    then (levels, kept)
    else if ltb 0 levels
    then (levels - 1, kept)
    else (levels, t ∷ kept)

-- The loop runs from the last component to the first one.
pub sweep : List Text → ℕ × List Text
unfolding sweep_one
sweep [] = (0, [])
sweep (t ∷ ts) = sweep_one t (sweep ts)

-- The end of clean_path(): what was taken off is put back.
pub reattach : Bool → Bool → List Text → List Text
reattach absolute directory tokens =
    let rooted = if absolute then [] ∷ tokens else tokens in
    let present = if is_nil rooted then dot ∷ [] else rooted in
    let result = if directory then present ++ [] ∷ [] else present in
    if (length result == 1) && front_is_empty result then result ++ [] ∷ [] else result

-- The components between the slashes at both ends.
abbrev pub inner : List Text → List Text
inner tokens =
    let rest = if front_is_empty tokens then pop_front tokens else tokens in
    if back_is_empty rest then pop_back rest else rest

abbrev pub is_directory : List Text → Bool
is_directory tokens = back_is_empty (if front_is_empty tokens then pop_front tokens else tokens)

unfoldable pub clean_path : List Text → List Text
unfolding sweep reattach
clean_path [] = []
clean_path (t ∷ ts) =
    let tokens = t ∷ ts in
    let (levels, kept) = sweep (inner tokens) in
    reattach (front_is_empty tokens) (is_directory tokens) (replicate levels dot_dot ++ kept)

-- `tokens.back() != ".." && tokens.back() != "."`
abbrev pub back_is_dots : List Text → Bool
back_is_dots [] = false
back_is_dots (t ∷ []) = eq_text t dot || eq_text t dot_dot
back_is_dots (t ∷ u ∷ ts) = back_is_dots (u ∷ ts)

pub remove_last_component : List Text → List Text
remove_last_component tokens = if back_is_dots tokens then tokens else pop_back tokens

-- The current directory is prepended to a relative path.
pub make_absolute : Option Text → List Text → Option (List Text)
unfolding tokenize
make_absolute cwd [] = some []
make_absolute cwd (t ∷ ts) =
    if is_nil t
    then some (t ∷ ts)
    else elim cwd [ none ↦ none | some directory ↦ some (tokenize directory ++ t ∷ ts) ]

-- The loop that removes common parent directories.
pub remove_common : List Text → List Text → List Text × List Text
remove_common [] dir = ([], dir)
remove_common (p ∷ path) [] = (p ∷ path, [])
remove_common (p ∷ path) (d ∷ dir) = elim (eq_text p d) [
  | true ↦ remove_common path dir
  | false ↦ (p ∷ path, d ∷ dir)
]

-- The loop over the rest of `dir`, which prepends to `path`.
pub prepend_parents : List Text → List Text → List Text
prepend_parents [] path = path
prepend_parents (d ∷ dir) path = prepend_parents dir (if is_nil d then path else dot_dot ∷ path)

-- make_relative() behind the two calls of make_absolute().
pub relate : List Text → List Text → List Text
unfolding remove_common prepend_parents
relate path dir =
    let (rest, base) = remove_common (clean_path path) (clean_path dir) in
    let result = prepend_parents base rest in
    if (length result == 1) && front_is_empty result then dot ∷ result else result

pub make_relative : Option Text → List Text → List Text → Option (List Text)
make_relative cwd path directory =
    let dir = if is_nil directory then dot ∷ [] else directory in
    elim (make_absolute cwd path) [
      | none ↦ none
      | some path' ↦ elim (make_absolute cwd dir) [
        | none ↦ none
        | some dir' ↦ some (relate path' dir')
      ]
    ]

-- `path != "" && path[0] != '/'`
abbrev pub is_relative : Text → Bool
is_relative [] = false
is_relative (c ∷ path) = not (c == slash)

abbrev pub front_is_dot : List Text → Bool
front_is_dot [] = false
front_is_dot (t ∷ ts) = eq_text t dot

abbrev pub is_current_dir : List Text → Bool
is_current_dir tokens = is_nil tokens || (length tokens == 1) && front_is_dot tokens

unfoldable pub make_path_relative_to_file : Option Text → Text → Text → Option Text
unfolding tokenize untokenize make_relative remove_last_component
make_path_relative_to_file cwd path filename =
    let p1 = tokenize path in
    let p2 = remove_last_component (tokenize filename) in
    if is_relative path
    then (if is_current_dir p2
        then some (untokenize (clean_path p1))
        else elim (make_relative cwd p1 p2) [ none ↦ none | some p ↦ some (untokenize p) ])
    else some path

unfoldable pub make_path_relative_to_current_dir : Option Text → Text → Text → Option Text
unfolding tokenize untokenize make_relative remove_last_component
make_path_relative_to_current_dir cwd path filename =
    let result = remove_last_component (tokenize filename) ++ tokenize path in
    if is_relative path
    then elim (make_relative cwd result []) [ none ↦ none | some p ↦ some (untokenize p) ]
    else some path

-- std::string::npos
abbrev pub npos : ℕ
npos = 2 ^ 64 - 1

-- rfind() of a character, counted from index `at`; `found` is the last index found before.
pub rfind_from : ℕ → Text → ℕ → ℕ → ℕ
rfind_from ch [] at found = found
rfind_from ch (c ∷ s) at found = rfind_from ch s (at + 1) (if c == ch then at else found)

pub rfind : ℕ → Text → ℕ
unfolding rfind_from
rfind ch s = rfind_from ch s 0 npos

-- substr(n)
abbrev pub substr : Text → ℕ → Text
substr s zero = s
substr [] (suc n) = []
substr (c ∷ s) (suc n) = substr s n

-- What follows the last dot, if it is an extension. Differences of size_t wrap.
pub extension_at : Text → ℕ → ℕ → Text
extension_at filename last_slash last_dot =
    let before_end = (length filename + 2 ^ 64 - 1) % 2 ^ 64 in
    if ltb 0 last_dot
      && ltb last_dot before_end
      && (last_slash == npos || ltb last_slash last_dot && ltb 1 (last_dot - last_slash))
    then substr filename ((last_dot + 1) % 2 ^ 64)
    else []

unfoldable pub get_file_extension : Text → Text
unfolding rfind extension_at
get_file_extension filename = extension_at filename (rfind slash filename) (rfind b'.' filename)

-- isspace() of the C locale
abbrev pub isspace : ℕ → Bool
isspace c = c == 32 || leb 9 c && leb c 13

unfoldable pub get_escaped_filename : Text → Text
get_escaped_filename [] = []
get_escaped_filename (ch ∷ filename) =
    (if isspace ch then b'\\' ∷ ch ∷ [] else ch ∷ []) ++ get_escaped_filename filename
