-- ===== src/PathTools/FileNames.antt =====
-- The extension of a file name, and the escaping of white space.
use ssr_pre.Common.{
  ℕ, suc, ◌+◌, ◌^◌, ◌<◌, ◌≡◌, ◌≢◌, ◌⊎◌, refl, ap, ◌∙◌, inl, inr, Bool, false, ◌&&◌, [], ◌∷◌, ◌++◌,
  arith, ◌==◌, if◌then◌else◌, length, length-append, ◌||◌, ◌≤◌, true, Bool-cases,
}
use ssr_pre.Common.Text.{Text}
use ssr_pre.PathTools.{
  slash, npos, rfind_from, rfind, substr, extension_at, get_file_extension, isspace,
  get_escaped_filename,
}

-- The character does not occur.
abbrev pub Lacks : ℕ → Text → Type 0
Lacks ch [] = Unit
Lacks ch (c ∷ s) = (c ≢ ch) × Lacks ch s

rfind_from-Lacks :
    (ch : ℕ) (s : Text) (at found : ℕ) → Lacks ch s → rfind_from ch s at found ≡ found
unfolding rfind_from
rfind_from-Lacks ch [] at found l = refl
rfind_from-Lacks ch (c ∷ s) at found (n, l) =
    ground (arith, n, rfind_from-Lacks ch s (at + 1) found l)

rfind_from-append :
    (ch : ℕ) (s rest : Text) (at found : ℕ)
    → rfind_from ch (s ++ rest) at found
      ≡ rfind_from ch rest (at + length s) (rfind_from ch s at found)
unfolding rfind_from
rfind_from-append ch [] rest at found = ap (λ n. rfind_from ch rest n found) (omega arith)
rfind_from-append ch (c ∷ s) rest at found =
    rfind_from-append ch s rest (at + 1) (if c == ch then at else found)
    ∙ ap (λ n. rfind_from ch rest n (rfind_from ch s (at + 1) (if c == ch then at else found)))
        (omega arith)

-- What is found lies in the text, or was found before.
rfind_from_bound :
    (ch : ℕ) (s : Text) (at found : ℕ)
    → (rfind_from ch s at found ≡ found) ⊎ (rfind_from ch s at found < at + length s)
unfolding rfind_from
rfind_from_bound ch [] at found = inl refl
rfind_from_bound ch (c ∷ s) at found =
    ground (arith, rfind_from_bound ch s (at + 1) (if c == ch then at else found))

substr-extension : (stem e : Text) → substr (stem ++ b'.' ∷ e) (suc (length stem)) ≡ e
substr-extension [] e = refl
substr-extension (c ∷ stem) e = substr-extension stem e

-- The last dot, where none follows.
dot_found : (stem e : Text) → Lacks b'.' e → rfind b'.' (stem ++ b'.' ∷ e) ≡ length stem
unfolding rfind rfind_from
dot_found stem e l =
    rfind_from-append b'.' stem (b'.' ∷ e) 0 npos
    ∙ rfind_from-Lacks b'.' e (0 + length stem + 1) (0 + length stem) l
    ∙ omega arith

not_found : (ch c at found : ℕ) → c ≢ ch → (if c == ch then at else found) ≡ found
not_found ch c at found n = ground (arith, n)

slash_found :
    (b e : Text) (c : ℕ)
    → c ≢ slash
    → Lacks slash e
    → (rfind slash ((b ++ c ∷ []) ++ b'.' ∷ e) ≡ npos)
      ⊎ (rfind slash ((b ++ c ∷ []) ++ b'.' ∷ e) < length b)
unfolding rfind rfind_from
slash_found b e c n l =
    let same : rfind slash ((b ++ c ∷ []) ++ b'.' ∷ e) ≡ rfind_from slash b 0 npos =
      rfind_from-append slash (b ++ c ∷ []) (b'.' ∷ e) 0 npos
      ∙ rfind_from-Lacks slash e (0 + length (b ++ c ∷ []) + 1)
          (rfind_from slash (b ++ c ∷ []) 0 npos) l
      ∙ rfind_from-append slash b (c ∷ []) 0 npos
      ∙ not_found slash c (0 + length b) (rfind_from slash b 0 npos) n in
    rw same (bounded (rfind_from_bound slash b 0 npos))
  where
    bounded :
        (rfind_from slash b 0 npos ≡ npos) ⊎ (rfind_from slash b 0 npos < 0 + length b)
        → (rfind_from slash b 0 npos ≡ npos) ⊎ (rfind_from slash b 0 npos < length b)
    bounded (inl e') = inl e'
    bounded (inr h) = inr (omega arith)

accepted :
    (filename : Text) (last_slash last_dot : ℕ)
    → 0 < last_dot
    → suc last_dot < length filename
    → length filename < 2 ^ 64
    → (last_slash ≡ npos) ⊎ (suc last_slash < last_dot)
    → extension_at filename last_slash last_dot ≡ substr filename (suc last_dot)
unfolding extension_at
accepted filename last_slash last_dot pos before fits (inl none_there) = ground (arith, none_there)
accepted filename last_slash last_dot pos before fits (inr far) = ground arith

-- The extension of a file name that ends in a character other than a slash, a dot and an
-- extension, which is not empty and has neither slash nor dot, is that extension, if the name is
-- shorter than 2^64 characters.
pub get_file_extension-append :
    (b e : Text) (c x : ℕ)
    → c ≢ slash
    → Lacks slash (x ∷ e)
    → Lacks b'.' (x ∷ e)
    → length b + length e + 3 < 2 ^ 64
    → get_file_extension ((b ++ c ∷ []) ++ b'.' ∷ x ∷ e) ≡ x ∷ e
unfolding get_file_extension
get_file_extension-append b e c x n l m fits =
    let at_dot : rfind b'.' ((b ++ c ∷ []) ++ b'.' ∷ x ∷ e) ≡ length (b ++ c ∷ []) =
      dot_found (b ++ c ∷ []) (x ∷ e) m in
    let filename : Text = (b ++ c ∷ []) ++ b'.' ∷ x ∷ e in
    ap (extension_at filename (rfind slash filename)) at_dot
    ∙ accepted filename (rfind slash filename) (length (b ++ c ∷ []))
        (ground (arith, length-append b (c ∷ [])))
        (ground (arith, length-append b (c ∷ []), length-append (b ++ c ∷ []) (b'.' ∷ x ∷ e)))
        (ground (arith, fits, length-append b (c ∷ []), length-append (b ++ c ∷ []) (b'.' ∷ x ∷ e)))
        (far_enough (slash_found b (x ∷ e) c n l))
    ∙ substr-extension (b ++ c ∷ []) (x ∷ e)
  where
    far_enough :
        (rfind slash ((b ++ c ∷ []) ++ b'.' ∷ x ∷ e) ≡ npos)
          ⊎ (rfind slash ((b ++ c ∷ []) ++ b'.' ∷ x ∷ e) < length b)
        → (rfind slash ((b ++ c ∷ []) ++ b'.' ∷ x ∷ e) ≡ npos)
          ⊎ (suc (rfind slash ((b ++ c ∷ []) ++ b'.' ∷ x ∷ e)) < length (b ++ c ∷ []))
    far_enough (inl e') = inl e'
    far_enough (inr h) = inr (omega (arith, h, length-append b (c ∷ [])))

-- Reading an escaped file name: a backslash before a white space is left out.
abbrev pub starts_with_space : Text → Bool
starts_with_space [] = false
starts_with_space (c ∷ s) = isspace c

unfoldable pub unescape : Text → Text
unescape [] = []
unescape (c ∷ s) =
    let rest = unescape s in if (c == b'\\') && starts_with_space s then rest else c ∷ rest

escaped_start : (s : Text) → starts_with_space (get_escaped_filename s) ≡ false
unfolding get_escaped_filename
escaped_start [] = refl
escaped_start (c ∷ s) = ground arith

-- An escaped file name without the backslashes before its white space is the file name.
pub unescape-get_escaped_filename : (s : Text) → unescape (get_escaped_filename s) ≡ s
unfolding get_escaped_filename unescape
unescape-get_escaped_filename [] = refl
unescape-get_escaped_filename (c ∷ s) =
    ground (arith, unescape-get_escaped_filename s, escaped_start s)

-- Whether there is white space in a name.
abbrev pub has_space : Text → Bool
has_space [] = false
has_space (c ∷ s) = isspace c || has_space s

pub length-get_escaped_filename : (s : Text) → length s ≤ length (get_escaped_filename s)
unfolding get_escaped_filename
length-get_escaped_filename [] = omega arith
length-get_escaped_filename (c ∷ s) = ground (arith, length-get_escaped_filename s)

pub get_escaped_filename_longer :
    (s : Text) → has_space s ≡ true → length s < length (get_escaped_filename s)
unfolding get_escaped_filename
get_escaped_filename_longer [] h = cc
get_escaped_filename_longer (c ∷ s) h = elim (Bool-cases (isspace c)) [
  | inl space ↦ rw space (omega (arith, length-get_escaped_filename s))
  | inr other ↦ rw other (
      let more : has_space s ≡ true = rw other at h in
      omega (arith, get_escaped_filename_longer s more))
]

pub has_space-get_escaped_filename :
    (s : Text) → has_space s ≡ true → has_space (get_escaped_filename s) ≡ true
unfolding get_escaped_filename
has_space-get_escaped_filename [] h = cc
has_space-get_escaped_filename (c ∷ s) h = ground (arith, has_space-get_escaped_filename s)
