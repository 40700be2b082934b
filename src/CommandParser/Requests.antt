-- ===== src/CommandParser/Requests.antt =====
-- What a <source> element of a request can lead to.
use mathlib.Core.Option.{some-injective}
use ssr_pre.Common.{
  ℕ, ◌<◌, ◌≡◌, ◌≢◌, ◌⊎◌, refl, inl, inr, Bool, true, false, List, [], ◌∷◌, ◌++◌, Option, none, some,
  if◌then◌else◌, arith, Option-cases, Bool-cases, subst,
}
use ssr_pre.Common.Text.{Text, codes, eq_text, eq_text_iff}
use ssr_pre.Geometry.{Floats}
use ssr_pre.Publisher.{Settings, Call}
use ssr_pre.Publisher
use ssr_pre.CommandParser.{
  Child, Element, Readers, or_else, empty, when_read, read_position, read_orientation, update_child,
  update_children, update_source, create_source, read_channel_of,
}
use ssr_pre.CommandParser.Elements.{Parsed, parse_source}

-- The call changes source `id` and nothing else; it neither makes nor deletes a source.
abbrev pub Concerns : {F : Type 0} → ℕ → Call F → Type 0
Concerns id (Publisher.set_source_position j p) = j ≡ id
Concerns id (Publisher.set_source_position_fixed j p) = j ≡ id
Concerns id (Publisher.set_source_orientation j p) = j ≡ id
Concerns id (Publisher.set_source_gain j p) = j ≡ id
Concerns id (Publisher.set_source_mute j p) = j ≡ id
Concerns id (Publisher.set_source_name j p) = j ≡ id
Concerns id (Publisher.set_source_properties_file j p) = j ≡ id
Concerns id (Publisher.set_source_model j p) = j ≡ id
Concerns id (Publisher.set_source_port_name j p) = j ≡ id
Concerns id _ = ⊥

abbrev pub AllConcern : {F : Type 0} → ℕ → List (Call F) → Type 0
AllConcern id [] = Unit
AllConcern id (call ∷ calls) = Concerns id call × AllConcern id calls

pub not_some : {A : Type 0} (a : A) → ¬ (none ≡ some a)
not_some a e = cc

module _ {F : Type 0} (fl : Floats F) (rd : Readers F) where
  join :
      (id : ℕ) (xs ys : List (Call F))
      → AllConcern id xs
      → AllConcern id ys
      → AllConcern id (xs ++ ys)
  join id [] ys a b = b
  join id (x ∷ xs) ys (h, a) b = (h, join id xs ys a b)

  when_read-Concerns :
      {A : Type 0} (id : ℕ) (o : Option A) (call : A → Call F)
      → ((a : A) → Concerns id (call a))
      → AllConcern id (when_read fl rd o call)
  when_read-Concerns id none call h = tt
  when_read-Concerns id (some a) call h = (h a, tt)

  chosen-Concerns :
      (id : ℕ) (b : Bool) (xs ys : List (Call F))
      → AllConcern id xs
      → AllConcern id ys
      → AllConcern id (if b then xs else ys)
  chosen-Concerns id true xs ys p q = p
  chosen-Concerns id false xs ys p q = q

  update_child-Concerns : (id : ℕ) (c : Child) → AllConcern id (update_child fl rd id c)
  unfolding update_child
  update_child-Concerns id c =
      chosen-Concerns id (eq_text c.name (codes "position")) _ _
        (join id _ _ (when_read-Concerns id (read_position fl rd c) _ (λ p. refl))
          (when_read-Concerns id (rd.read_bool (c.attribute (codes "fixed"))) _ (λ p. refl)))
        (chosen-Concerns id (eq_text c.name (codes "orientation")) _ _
          (when_read-Concerns id (read_orientation fl rd c) _ (λ p. refl)) tt)

  update_children-Concerns :
      (id : ℕ) (cs : List Child) → AllConcern id (update_children fl rd id cs)
  unfolding update_children
  update_children-Concerns id [] = tt
  update_children-Concerns id (c ∷ cs) =
      join id _ _ (update_child-Concerns id c) (update_children-Concerns id cs)

  update_source-Concerns : (id : ℕ) (e : Element) → AllConcern id (update_source fl rd id e)
  unfolding update_source
  update_source-Concerns id e =
      join id _ _
        (join id _ _
          (join id _ _
            (join id _ _
              (join id _ _
                (join id _ _ (update_children-Concerns id e.children) (
                  when_read-Concerns id (rd.read_float (e.attribute (codes "volume"))) _
                    (λ p. refl)))
                (when_read-Concerns id (rd.read_bool (e.attribute (codes "mute"))) _ (λ p. refl)))
              (chosen-Concerns id (empty (e.attribute (codes "name"))) [] _ tt (refl, tt)))
            (chosen-Concerns id (empty (e.attribute (codes "properties_file"))) [] _ tt (refl, tt)))
          (when_read-Concerns id (rd.read_model (e.attribute (codes "model"))) _ (λ p. refl)))
        (chosen-Concerns id (empty (e.attribute (codes "port"))) [] _ tt (refl, tt))

  -- A source element that is not marked as new and has a readable id only leads to calls that
  -- change that source, and parse_cmd() goes on after it, if no assertion fails.
  pub parse_source-Concerns :
      (e : Element) (id : ℕ) (parsed : Parsed F)
      → or_else (rd.read_bool (e.attribute (codes "new"))) false ≡ false
      → rd.read_id (e.attribute (codes "id")) ≡ some id
      → parse_source fl rd e ≡ some parsed
      → AllConcern id parsed.calls × (parsed.goes_on ≡ true)
  unfolding parse_source
  parse_source-Concerns e id parsed old known h = elim (Option-cases (read_channel_of fl rd e)) [
    | inl failed ↦ absurd (not_some parsed (rw (old, known, failed) at h))
    | inr (c, got) ↦
        subst (λ p. AllConcern id p.calls × (p.goes_on ≡ true))
          (some-injective _ _ (rw (old, known, got) at h)) (update_source-Concerns id e, refl)
  ]

  -- What a new source may be: it has a file or a port, and a channel only with a file.
  pub record Creates (e : Element) (calls : List (Call F)) : Type 0 where
    pub settings : Settings F
    pub only : calls ≡ Publisher.new_source settings ∷ []
    pub named : settings.file_or_port_name ≢ []
    pub from_file : 0 < settings.channel → settings.file_or_port_name ≡ e.attribute (codes "file")

  from_channel :
      (e : Element) (f : Text) (n : ℕ)
      → read_channel_of fl rd e ≡ some (f, n)
      → 0 < n
      → f ≡ e.attribute (codes "file")
  unfolding read_channel_of
  from_channel e f n got more = ground (arith, got, more)

  created :
      (e : Element) (f : Text) (n : ℕ)
      → read_channel_of fl rd e ≡ some (f, n)
      → (create_source fl rd e f n ≡ []) ⊎ Creates e (create_source fl rd e f n)
  unfolding create_source
  created e f n got = elim (Bool-cases (empty f)) [
    | inl nothing ↦ inl (rw (nothing) refl)
    | inr named ↦ inr (
        rw (named) (record {
          settings = _;
          only = refl;
          named = λ same. ground (arith, named, same, (eq_text_iff f []).1);
          from_file = λ more. from_channel e f n got more;
        }))
  ]

  -- A source element that is marked as new leads to no call, or to one that makes a source with a
  -- file or a port, whose channel is 0 unless it has a file, if no assertion fails.
  pub parse_source-Creates :
      (e : Element) (parsed : Parsed F)
      → or_else (rd.read_bool (e.attribute (codes "new"))) false ≡ true
      → parse_source fl rd e ≡ some parsed
      → (parsed.calls ≡ []) ⊎ Creates e parsed.calls
  unfolding parse_source
  parse_source-Creates e parsed new h = elim (Option-cases (read_channel_of fl rd e)) [
    | inl failed ↦ absurd (not_some parsed (rw (new, failed) at h))
    | inr ((f, n), got) ↦
        subst (λ p. (p.calls ≡ []) ⊎ Creates e p.calls) (some-injective _ _ (rw (new, got) at h))
          (created e f n got)
  ]
