-- ===== src/Loudspeakers/Numbering.antt =====
-- The channels that a reproduction setup gives to its loudspeakers.
use ssr_pre.Common.{
  ℕ, zero, suc, Bool, true, false, List, [], ◌∷◌, ◌++◌, map, Option, some, ◌≡◌, replicate,
  Option-cases, Bool-cases, inl, inr,
}
use ssr_pre.CommandParser.{or_else}
use ssr_pre.Geometry.{Floats, DirectionalPoint}
use ssr_pre.Geometry.Points.{Plane}
use ssr_pre.Loudspeakers.{
  SetupElement, Setup, SetupReader, is_named, Part, get_position, get_orientation,
}
use ssr_pre.Loudspeakers.Elements.{
  first_point, line_increment, array_number, skipped, load_loudspeaker, add_line, load_linear_array,
  add_circle, angle_increment_of, array_radius, array_center, load_circular_array, load_element,
  load_elements,
}
use ssr_pre.Loudspeakers.Ports.{
  Gives, Gives-map, Gives_some, slots, all_slots, Grows, Grows-nil, Grows-append,
  add_loudspeaker-Grows, skip-Grows,
}

module _ {F : Type 0} (rd : SetupReader F) where
  module _ (fl : Floats F) (pl : Plane F) where
    add_line-Grows :
        (n : ℕ) (current increment : DirectionalPoint F) (s : Setup F)
        → Grows rd (replicate n true) s (add_line fl pl rd n current increment s)
    unfolding add_line
    add_line-Grows zero current increment s = Grows-nil rd s
    add_line-Grows (suc n) current increment s =
        Grows-append rd (true ∷ []) (replicate n true) s _ _ (add_loudspeaker-Grows rd _ s)
          (add_line-Grows n _ increment _)

    add_circle-Grows :
        (n i : ℕ) (angle : F) (radius center : DirectionalPoint F) (s : Setup F)
        → Grows rd (replicate n true) s (add_circle fl pl rd n i angle radius center s)
    unfolding add_circle
    add_circle-Grows zero i angle radius center s = Grows-nil rd s
    add_circle-Grows (suc n) i angle radius center s =
        Grows-append rd (true ∷ []) (replicate n true) s _ _ (add_loudspeaker-Grows rd _ s)
          (add_circle-Grows n _ angle radius center _)

    load_loudspeaker-Grows :
        (node : SetupElement) (s : Setup F)
        → Gives (Grows rd (true ∷ []) s) (load_loudspeaker fl pl rd node s)
    unfolding load_loudspeaker
    load_loudspeaker-Grows node s =
        let tags = map (λ (p : Part). p.tag) node.children in
        elim (Option-cases (get_position rd tags)) [
          | inl e ↦ rw (e, Gives) tt
          | inr (position, e) ↦
              rw (e, Gives)
                (elim (Option-cases (get_orientation rd tags)) [
                  | inl f ↦ rw f tt
                  | inr (orientation, f) ↦ rw f (add_loudspeaker-Grows rd _ s)
                ])
        ]

    load_linear_array-Grows :
        (node : SetupElement) (s : Setup F)
        → Gives
            (Grows rd (replicate (or_else (array_number rd node) 0) true) s)
            (load_linear_array fl pl rd node s)
    unfolding load_linear_array
    load_linear_array-Grows node s = elim (Option-cases (array_number rd node)) [
      | inl e ↦ rw (e, Gives) tt
      | inr (number, e) ↦
          rw (e, Gives)
            (elim (Option-cases (first_point fl pl rd node.children)) [
              | inl f ↦ rw f tt
              | inr (first, f) ↦
                  rw f (elim (Option-cases (line_increment fl pl rd number first node.children)) [
                    | inl g ↦ rw g tt
                    | inr (increment, g) ↦ rw g (rw e (add_line-Grows number first increment s))
                  ])
            ])
    ]

    load_circular_array-Grows :
        (node : SetupElement) (s : Setup F)
        → Gives
            (Grows rd (replicate (or_else (array_number rd node) 0) true) s)
            (load_circular_array fl pl rd node s)
    unfolding load_circular_array
    load_circular_array-Grows node s = elim (Option-cases (array_number rd node)) [
      | inl e ↦ rw (e, Gives) tt
      | inr (number, e) ↦
          rw (e, Gives)
            (elim (Option-cases (first_point fl pl rd node.children)) [
              | inl f ↦ rw f tt
              | inr (first, f) ↦ rw f (
                  rw e (
                    add_circle-Grows number 0 (angle_increment_of fl pl rd number node.children)
                      (array_radius fl pl rd first node.children)
                      (array_center fl pl rd node.children) s))
            ])
    ]

    as_slots :
        (node : SetupElement) (ss : List Bool) (s : Setup F) (o : Option (Setup F))
        → slots rd node ≡ ss
        → Gives (Grows rd ss s) o
        → Gives (Grows rd (slots rd node) s) o
    as_slots node ss s o e h = rw e h

    load_element-Grows :
        (node : SetupElement) (s : Setup F)
        → Gives (Grows rd (slots rd node) s) (load_element fl pl rd node s)
    unfolding load_element slots
    load_element-Grows node s = elim (Bool-cases (is_named "loudspeaker" node.tag)) [
      | inl l ↦
          rw (l, Gives)
            (as_slots node (true ∷ []) s (load_loudspeaker fl pl rd node s) (rw (l, slots))
              (load_loudspeaker-Grows node s))
      | inr not_l ↦
          rw (not_l, Gives)
            (elim (Bool-cases (is_named "linear_array" node.tag)) [
              | inl a ↦
                  rw (a, Gives)
                    (as_slots node (replicate (or_else (array_number rd node) 0) true) s
                      (load_linear_array fl pl rd node s) (rw (not_l, slots) (rw a))
                      (load_linear_array-Grows node s))
              | inr not_a ↦
                  rw (not_a, Gives)
                    (elim (Bool-cases (is_named "circular_array" node.tag)) [
                      | inl c ↦
                          rw (c, Gives)
                            (as_slots node (replicate (or_else (array_number rd node) 0) true) s
                              (load_circular_array fl pl rd node s)
                              (rw (not_l, slots) (rw not_a (rw c)))
                              (load_circular_array-Grows node s))
                      | inr not_c ↦
                          rw (not_c, Gives)
                            (elim (Bool-cases (is_named "skip" node.tag)) [
                              | inl k ↦
                                  rw (k, Gives)
                                    (as_slots node (replicate (skipped rd node) false) s (some _)
                                      (rw (not_l, slots) (rw not_a (rw not_c (rw k))))
                                      (skip-Grows rd (skipped rd node) s))
                              | inr not_k ↦
                                  rw (not_k, Gives)
                                    (as_slots node [] s (some s)
                                      (rw (not_l, slots) (rw not_a (rw not_c (rw not_k))))
                                      (Grows-nil rd s))
                            ])
                    ])
            ])
    ]

    pub load_elements-Grows :
        (nodes : List SetupElement) (s : Setup F)
        → Gives (Grows rd (all_slots rd nodes) s) (load_elements fl pl rd nodes s)
    unfolding load_elements all_slots
    load_elements-Grows [] s = Grows-nil rd s
    load_elements-Grows (node ∷ nodes) s = elim (Option-cases (load_element fl pl rd node s)) [
      | inl e ↦ rw (e, Gives) tt
      | inr (t, e) ↦
          rw (e, Gives)
            (Gives-map (Grows rd (all_slots rd nodes) t)
              (Grows rd (slots rd node ++ all_slots rd nodes) s) (load_elements fl pl rd nodes t)
              (λ u g.
                Grows-append rd (slots rd node) (all_slots rd nodes) s t u
                  (Gives_some (Grows rd (slots rd node) s) (load_element-Grows node s) e) g)
              (load_elements-Grows nodes t))
    ]
