-- ===== src/CommandParser/Updates.antt =====
-- Whole requests that only speak of sources that exist.
use mathlib.Core.Option.{some-injective}
use ssr_pre.Common.{
  ℕ, ◌≡◌, refl, sym, ◌∙◌, inl, inr, Bool, true, false, List, [], ◌∷◌, ◌++◌, Option, none, some,
  if◌then◌else◌, Option-cases, subst,
}
use ssr_pre.Common.Text.{codes, eq_text}
use ssr_pre.Geometry.{Floats}
use ssr_pre.Publisher.{Call}
use ssr_pre.CommandParser.{Element, Readers, or_else}
use ssr_pre.CommandParser.Elements.{Parsed, parse_source, parse_element, parse_cmd}
use ssr_pre.CommandParser.Requests.{Concerns, AllConcern, parse_source-Concerns, not_some}

-- Only <source> elements, and none of them is marked as new.
abbrev pub OldSources : {F : Type 0} → Readers F → List Element → Type 0
OldSources rd [] = Unit
OldSources rd (e ∷ es) =
    (eq_text e.name (codes "source") ≡ true)
    × (or_else (rd.read_bool (e.attribute (codes "new"))) false ≡ false)
    × OldSources rd es

-- Every call changes one source.
abbrev pub AllUpdate : {F : Type 0} → List (Call F) → Type 0
AllUpdate [] = Unit
AllUpdate (call ∷ calls) = ((id : ℕ) × Concerns id call) × AllUpdate calls

module _ {F : Type 0} (fl : Floats F) (rd : Readers F) where
  updates_of : (id : ℕ) (calls : List (Call F)) → AllConcern id calls → AllUpdate calls
  updates_of id [] a = tt
  updates_of id (call ∷ calls) (h, a) = ((id, h), updates_of id calls a)

  join_updates : (xs ys : List (Call F)) → AllUpdate xs → AllUpdate ys → AllUpdate (xs ++ ys)
  join_updates [] ys a b = b
  join_updates (x ∷ xs) ys (h, a) b = (h, join_updates xs ys a b)

  old_source-AllUpdate :
      (e : Element) (parsed : Parsed F)
      → or_else (rd.read_bool (e.attribute (codes "new"))) false ≡ false
      → parse_source fl rd e ≡ some parsed
      → AllUpdate parsed.calls
  unfolding parse_source
  old_source-AllUpdate e parsed old h =
      elim (Option-cases (rd.read_id (e.attribute (codes "id")))) [
        | inl missing ↦
            subst (λ p. AllUpdate p.calls) (some-injective _ _ (rw (old, missing) at h)) tt
        | inr (id, known) ↦
            updates_of id parsed.calls (parse_source-Concerns fl rd e id parsed old known h).0
      ]

  -- What parse_cmd() adds after an element.
  sequel-AllUpdate :
      (goes_on : Bool) (first calls : List (Call F)) (following : Option (List (Call F)))
      → AllUpdate first
      → ((rest : List (Call F)) → following ≡ some rest → AllUpdate rest)
      → (if goes_on
          then elim following [ none ↦ none | some rest ↦ some (first ++ rest) ]
          else some first)
        ≡ some calls
      → AllUpdate calls
  sequel-AllUpdate false first calls following a b h = subst AllUpdate (some-injective _ _ h) a
  sequel-AllUpdate true first calls none a b h = absurd (not_some calls h)
  sequel-AllUpdate true first calls (some rest) a b h =
      subst AllUpdate (some-injective _ _ h) (join_updates first rest a (b rest refl))

  source_element :
      (e : Element)
      → eq_text e.name (codes "source") ≡ true
      → parse_element fl rd e ≡ parse_source fl rd e
  unfolding parse_element
  source_element e is_source = rw (is_source) refl

  -- A request of source elements of which none is marked as new leads only to calls that each
  -- change one source, if no assertion fails: it makes, deletes and loads nothing.
  pub parse_cmd-AllUpdate :
      (es : List Element) (calls : List (Call F))
      → OldSources rd es
      → parse_cmd fl rd es ≡ some calls
      → AllUpdate calls
  unfolding parse_cmd
  parse_cmd-AllUpdate [] calls o h = subst AllUpdate (some-injective _ _ h) tt
  parse_cmd-AllUpdate (e ∷ es) calls (is_source, old, o) h =
      elim (Option-cases (parse_element fl rd e)) [
        | inl failed ↦ absurd (not_some calls (rw (failed, parse_cmd) at h))
        | inr (parsed, read) ↦
            sequel-AllUpdate parsed.goes_on parsed.calls calls (parse_cmd fl rd es)
              (old_source-AllUpdate e parsed old (sym (source_element e is_source) ∙ read))
              (λ rest r. parse_cmd-AllUpdate es rest o r) (rw (read, parse_cmd) at h)
      ]
