-- ===== src/Loudspeakers/Ports.antt =====
-- The channels that the elements of a reproduction setup stand for, and their ports.
use ssr_pre.Common.{
  ℕ, zero, suc, ◌+◌, Bool, true, false, List, [], ◌∷◌, ◌++◌, map, Option, none, some, ◌≡◌, refl,
  sym, ap, subst, ◌∙◌, arith, length, replicate, append_assoc, append-nil, length-append,
  length-replicate, if◌then◌else◌,
}
use mathlib.Core.List.{map-append}
use ssr_pre.Common.Text.{Text}
use ssr_pre.CommandParser.{empty, or_else}
use ssr_pre.Geometry.{Loudspeaker}
use ssr_pre.Loudspeakers.{SetupElement, Setup, SetupReader, is_named, add_loudspeaker}
use ssr_pre.Loudspeakers.Elements.{array_number, skipped}

-- What holds of a result, if there is one.
abbrev pub Gives : {A : Type 0} → (A → Type 0) → Option A → Type 0
Gives P none = Unit {0}
Gives P (some a) = P a

pub Gives-map :
    {A : Type 0} (P Q : A → Type 0) (o : Option A) → ((a : A) → P a → Q a) → Gives P o → Gives Q o
Gives-map P Q none f h = tt
Gives-map P Q (some a) f h = f a h

pub Gives_some : {A : Type 0} (P : A → Type 0) {o : Option A} {a : A} → Gives P o → o ≡ some a → P a
Gives_some P h e = subst (Gives P) e h

add_nothing : (n : ℕ) → n ≡ n + 0
add_nothing n = omega arith

add_shift : (n k : ℕ) → suc n + k ≡ n + suc k
add_shift n k = omega arith

module _ {F : Type 0} (rd : SetupReader F) where
  -- The channels that an element stands for: whether there is a loudspeaker on each of them.
  unfoldable pub slots : SetupElement → List Bool
  slots node = elim (is_named "loudspeaker" node.tag) [
    | true ↦ true ∷ []
    | false ↦ elim (is_named "linear_array" node.tag) [
      | true ↦ replicate (or_else (array_number rd node) 0) true
      | false ↦ elim (is_named "circular_array" node.tag) [
        | true ↦ replicate (or_else (array_number rd node) 0) true
        | false ↦ elim (is_named "skip" node.tag) [
          | true ↦ replicate (skipped rd node) false
          | false ↦ []
        ]
      ]
    ]
  ]

  unfoldable pub all_slots : List SetupElement → List Bool
  all_slots [] = []
  all_slots (node ∷ nodes) = slots node ++ all_slots nodes

  -- The port of a channel.
  abbrev pub port : ℕ → Option Text
  port channel =
      if empty rd.system_output_prefix
      then none
      else some (rd.system_output_prefix ++ rd.show_int channel)

  -- The ports of the loudspeakers, numbered up over all slots.
  unfoldable pub ports : ℕ → List Bool → List (Option Text)
  ports next [] = []
  ports next (true ∷ ss) = port next ∷ ports (suc next) ss
  ports next (false ∷ ss) = ports (suc next) ss

  ports-append :
      (next : ℕ) (ss ts : List Bool)
      → ports next (ss ++ ts) ≡ ports next ss ++ ports (next + length ss) ts
  unfolding ports
  ports-append next [] ts = ap (λ n. ports n ts) (add_nothing next)
  ports-append next (true ∷ ss) ts =
      ap (λ l. port next ∷ l)
        (ports-append (suc next) ss ts
          ∙ ap (λ n. ports (suc next) ss ++ ports n ts) (add_shift next (length ss)))
  ports-append next (false ∷ ss) ts =
      ports-append (suc next) ss ts
      ∙ ap (λ n. ports (suc next) ss ++ ports n ts) (add_shift next (length ss))

  abbrev pub connections : Setup F → List (Option Text)
  connections s = map (λ o. o.connect_to) s.outputs

  -- A state that comes from another by filling slots.
  pub record Grows (ss : List Bool) (s s' : Setup F) : Type 0 where
    pub connected : connections s' ≡ connections s ++ ports s.next_loudspeaker_channel ss
    pub numbered : s'.next_loudspeaker_channel ≡ s.next_loudspeaker_channel + length ss

  pub Grows-nil : (s : Setup F) → Grows [] s s
  unfolding ports
  Grows-nil s = record { connected = sym (append-nil (connections s)); numbered = omega arith }

  pub Grows-append :
      (ss ts : List Bool) (s t u : Setup F) → Grows ss s t → Grows ts t u → Grows (ss ++ ts) s u
  Grows-append ss ts s t u g h = record {
    connected =
        h.connected
        ∙ ap (λ l. l ++ ports t.next_loudspeaker_channel ts) g.connected
        ∙ append_assoc (connections s) (ports s.next_loudspeaker_channel ss) _
        ∙ ap (λ l. connections s ++ l)
            (ap (λ n. ports s.next_loudspeaker_channel ss ++ ports n ts) g.numbered
              ∙ sym (ports-append s.next_loudspeaker_channel ss ts));
    numbered = omega (arith, g.numbered, h.numbered, length-append ss ts);
  }

  pub add_loudspeaker-Grows :
      (ls : Loudspeaker F) (s : Setup F) → Grows (true ∷ []) s (add_loudspeaker rd ls s)
  unfolding add_loudspeaker ports
  add_loudspeaker-Grows ls s = record {
    connected = map-append _ s.outputs _;
    numbered = omega arith;
  }

  ports-replicate : (next n : ℕ) → ports next (replicate n false) ≡ []
  unfolding ports
  ports-replicate next zero = refl
  ports-replicate next (suc n) = ports-replicate (suc next) n

  pub skip-Grows :
      (n : ℕ) (s : Setup F)
      → Grows
          (replicate n false)
          s
          (record s { next_loudspeaker_channel = s.next_loudspeaker_channel + n })
  skip-Grows n s = record {
    connected =
        rw (ports-replicate s.next_loudspeaker_channel n) (sym (append-nil (connections s)));
    numbered = ap (λ k. s.next_loudspeaker_channel + k) (sym (length-replicate n false));
  }
