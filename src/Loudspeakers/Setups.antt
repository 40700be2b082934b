-- ===== src/Loudspeakers/Setups.antt =====
-- load_reproduction_setup() as a whole: the ports of all loudspeakers, and a setup without loudspeakers.
use ssr_pre.Common.{
  ℕ, suc, ◌+◌, ◌-◌, ◌^◌, ◌<◌, ◌≤◌, Bool, true, false, not, ◌&&◌, List, [], ◌∷◌, ◌++◌, Option, none,
  some, ◌≡◌, ◌≢◌, refl, arith, length, if◌then◌else◌, Option-cases, inl, inr,
}
use ssr_pre.Common.Text.{Text, codes, eq_text}
use ssr_pre.Common.Int.{ℤ, pos, negsuc, less_than, rounds, as_int}
use ssr_pre.CommandParser.{empty}
use ssr_pre.Geometry.{Floats}
use ssr_pre.Geometry.Points.{Plane}
use ssr_pre.Loudspeakers.{SetupElement, SetupDocument, Setup, SetupReader}
use ssr_pre.Loudspeakers.Elements.{
  skipped, load_element, load_elements, no_setup, setup_elements, with_loudspeakers,
  load_reproduction_setup, read_document,
}
use ssr_pre.Loudspeakers.Ports.{all_slots, port, ports, connections, Gives_some, Grows}
use ssr_pre.Loudspeakers.Numbering.{load_elements-Grows}

-- No element of a list is equal to an earlier one.
abbrev pub AllOther {ℓ} : {A : Type ℓ} → A → List A → Type ℓ
AllOther x [] = Unit
AllOther x (y ∷ ys) = (x ≢ y) × AllOther x ys

abbrev pub Distinct {ℓ} : {A : Type ℓ} → List A → Type ℓ
Distinct [] = Unit
Distinct (x ∷ xs) = AllOther x xs × Distinct xs

rounds-pos : (number : ℤ) → 1 ≤ (if less_than 1 number then 1 else rounds number)
rounds-pos (pos a) = ground arith
rounds-pos (negsuc a) = omega arith

append_cancel : (p s t : Text) → (p ++ s) ≡ (p ++ t) → s ≡ t
append_cancel [] s t e = e
append_cancel (c ∷ p) s t e = append_cancel p s t (cc)

module _ {F : Type 0} (fl : Floats F) (pl : Plane F) (rd : SetupReader F) where
  unless :
      (test : Bool) (o : Option (Setup F)) {s : Setup F}
      → (if test then none else o) ≡ some s
      → o ≡ some s
  unless true o e = cc
  unless false o e = e

  with_loudspeakers-some :
      (o : Option (Setup F)) {s : Setup F} → with_loudspeakers fl pl rd o ≡ some s → o ≡ some s
  unfolding with_loudspeakers
  with_loudspeakers-some none e = e
  with_loudspeakers-some (some t) e = unless _ (some t) e

  opened :
      (o : Option SetupDocument) (document : SetupDocument) {s : Setup F}
      → o ≡ some document
      → ◌≡◌ {A = Option (Setup F)}
          (elim o [ none ↦ none | some d ↦ read_document fl pl rd d ])
          (some s)
      → read_document fl pl rd document ≡ some s
  opened o document l e = rw l at e

  -- What load_reproduction_setup() returns comes from the elements.
  load_reproduction_setup-elements :
      (document : SetupDocument) {s : Setup F}
      → rd.load_file rd.reproduction_setup ≡ some document
      → load_reproduction_setup fl pl rd ≡ some s
      → load_elements fl pl rd (setup_elements fl pl rd document) (no_setup fl pl rd) ≡ some s
  unfolding load_reproduction_setup read_document
  load_reproduction_setup-elements document loaded e =
      with_loudspeakers-some _ (unless _ _ (unless _ _ (opened _ document loaded (unless _ _ e))))

  -- When a reproduction setup is loaded, its loudspeakers are connected, in their order, to the
  -- ports that are numbered from 1 over all loudspeakers of the file and all skipped channels,
  -- and the next channel comes behind all of them.
  pub load_reproduction_setup-ports :
      (document : SetupDocument) {s : Setup F}
      → rd.load_file rd.reproduction_setup ≡ some document
      → load_reproduction_setup fl pl rd ≡ some s
      → (connections rd s ≡ ports rd 1 (all_slots rd (setup_elements fl pl rd document)))
        × (s.next_loudspeaker_channel
            ≡ 1 + length (all_slots rd (setup_elements fl pl rd document)))
  load_reproduction_setup-ports document {s} loaded e =
      let nodes = setup_elements fl pl rd document in
      let grown =
        Gives_some (Grows rd (all_slots rd nodes) (no_setup fl pl rd))
          (load_elements-Grows rd fl pl nodes (no_setup fl pl rd))
          (load_reproduction_setup-elements document loaded e) in
      (grown.connected, grown.numbered)

  module _ (prefixed : empty rd.system_output_prefix ≡ false)
      (injective : (m n : ℕ) → rd.show_int m ≡ rd.show_int n → m ≡ n) where
    port-injective : (m n : ℕ) → port rd m ≡ port rd n → m ≡ n
    port-injective m n e =
        let ports_equal = rw prefixed at e in
        injective m n (append_cancel rd.system_output_prefix (rd.show_int m) (rd.show_int n) (cc))

    ports-AllOther :
        (m next : ℕ) (ss : List Bool) → m < next → AllOther (port rd m) (ports rd next ss)
    unfolding ports
    ports-AllOther m next [] h = tt
    ports-AllOther m next (true ∷ ss) h =
        (λ e. omega (arith, port-injective m next e), ports-AllOther m (suc next) ss (omega arith))
    ports-AllOther m next (false ∷ ss) h = ports-AllOther m (suc next) ss (omega arith)

    ports-Distinct : (next : ℕ) (ss : List Bool) → Distinct (ports rd next ss)
    unfolding ports
    ports-Distinct next [] = tt
    ports-Distinct next (true ∷ ss) =
        (ports-AllOther next (suc next) ss (omega arith), ports-Distinct (suc next) ss)
    ports-Distinct next (false ∷ ss) = ports-Distinct (suc next) ss

    -- No two loudspeakers of a reproduction setup that is loaded are connected to the same port,
    -- if there is a prefix for ports and different numbers are printed differently.
    pub load_reproduction_setup-Distinct :
        (document : SetupDocument) {s : Setup F}
        → rd.load_file rd.reproduction_setup ≡ some document
        → load_reproduction_setup fl pl rd ≡ some s
        → Distinct (connections rd s)
    load_reproduction_setup-Distinct document loaded e =
        rw ((load_reproduction_setup-ports document loaded e).0) (ports-Distinct 1 _)

  abbrev pub AllSkip : List SetupElement → Type 0
  AllSkip [] = Unit
  AllSkip (node ∷ nodes) = (node.tag.name ≡ codes "skip") × AllSkip nodes

  skipped-pos : (node : SetupElement) → 1 ≤ skipped rd node
  unfolding skipped
  skipped-pos node = elim (Option-cases (rd.read_int (node.tag.attribute (codes "number")))) [
    | inl e ↦ rw (e, skipped) (omega arith)
    | inr (number, e) ↦ rw (e, skipped) (rounds-pos number)
  ]

  abbrev skip_one : SetupElement → Setup F → Setup F
  skip_one node s = record s {
    next_loudspeaker_channel = s.next_loudspeaker_channel + skipped rd node;
  }

  load_skip :
      (node : SetupElement) (s : Setup F)
      → node.tag.name ≡ codes "skip"
      → load_element fl pl rd node s ≡ some (skip_one node s)
  unfolding load_element eq_text
  load_skip node s e = rw e

  -- How many channels are skipped.
  abbrev pub all_skipped : List SetupElement → ℕ
  all_skipped [] = 0
  all_skipped (node ∷ nodes) = skipped rd node + all_skipped nodes

  small_int : (n : ℕ) → 2 ≤ n → n < 2 ^ 31 → less_than 2 (as_int n) ≡ false
  unfolding as_int
  small_int n low high = ground arith

  load_skips :
      (nodes : List SetupElement) (s : Setup F)
      → AllSkip nodes
      → (t : Setup F) × (load_elements fl pl rd nodes s ≡ some t)
        × (t.outputs ≡ s.outputs)
        × (t.next_loudspeaker_channel ≡ s.next_loudspeaker_channel + all_skipped nodes)
  unfolding load_elements
  load_skips [] s h = (s, refl, refl, omega arith)
  load_skips (node ∷ nodes) s h =
      let (t, loads, same, grows) = load_skips nodes (skip_one node s) h.1 in
      (t, rw (load_skip node s h.0, load_elements) loads, same, omega arith)

  -- A reproduction setup that only skips channels, fewer than 2^31 - 1 of them, is loaded without
  -- an error and without a loudspeaker, if the file can be loaded and is valid.
  pub load_reproduction_setup-AllSkip :
      (node : SetupElement) (nodes : List SetupElement) (document : SetupDocument)
      → empty rd.reproduction_setup ≡ false
      → rd.load_file rd.reproduction_setup ≡ some document
      → (not (empty rd.xml_schema) && not (document.validate rd.xml_schema)) ≡ false
      → setup_elements fl pl rd document ≡ node ∷ nodes
      → AllSkip (node ∷ nodes)
      → all_skipped (node ∷ nodes) < 2 ^ 31 - 1
      → (s : Setup F) × (load_reproduction_setup fl pl rd ≡ some s) × (s.outputs ≡ [])
  unfolding load_reproduction_setup load_elements with_loudspeakers
  load_reproduction_setup-AllSkip node nodes document named loaded valid found skips few =
      let (t, loads, same, grows) = load_skips nodes (skip_one node (no_setup fl pl rd)) skips.1 in
      let enough =
        small_int t.next_loudspeaker_channel (omega (arith, skipped-pos node, grows))
          (omega (arith, grows, few)) in
      (
        t,
        rw (named, load_reproduction_setup)
            (rw loaded (
              rw valid (
                rw found (
                  rw (load_skip node (no_setup fl pl rd) skips.0, load_elements, with_loudspeakers)
                    (rw loads (rw enough)))))),
        same,
      )
