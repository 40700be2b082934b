-- ===== src/Source/Models.antt =====
-- Reading back what was printed.
use ssr_pre.Common.{◌≡◌, refl, none, some, arith}
use ssr_pre.Common.Text.{Text, codes, eq_text, eq_text_iff}
use ssr_pre.Source.{Model, read_model, print_model}

-- The models point, plane, line and directional are read back from their names, and the models
-- unknown and extended are not read back at all.
pub read_model-print_model :
    (m : Model)
    → read_model (print_model m) ≡ (elim m [
      | Model.unknown ↦ none
      | Model.extended ↦ none
      | Model.point ↦ some Model.point
      | Model.plane ↦ some Model.plane
      | Model.line ↦ some Model.line
      | Model.directional ↦ some Model.directional
    ])
unfolding read_model print_model eq_text
read_model-print_model Model.unknown = refl
read_model-print_model Model.extended = refl
read_model-print_model Model.point = refl
read_model-print_model Model.plane = refl
read_model-print_model Model.line = refl
read_model-print_model Model.directional = refl

-- A word is read as a model only if it is what that model prints.
pub print_model-read_model :
    (word : Text) (m : Model) → read_model word ≡ some m → print_model m ≡ word
unfolding read_model print_model
print_model-read_model word Model.point h = ground (
  arith,
  eq_text_iff word (codes "point"),
  eq_text_iff word (codes "plane"),
  eq_text_iff word (codes "line"),
  eq_text_iff word (codes "directional"),
)
print_model-read_model word m h = ground (
  arith,
  eq_text_iff word (codes "point"),
  eq_text_iff word (codes "plane"),
  eq_text_iff word (codes "line"),
  eq_text_iff word (codes "directional"),
)
