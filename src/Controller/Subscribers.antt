-- ===== src/Controller/Subscribers.antt =====
-- Who receives the events: Controller::unsubscribe() of src/controller.h, and the variable that all
-- objects of NetworkSubscriber share in src/networksubscriber.cpp.
use ssr_pre.Common.{
  ◌≡◌, ◌⊎◌, inl, inr, Bool-cases, refl, ap, List, [], ◌∷◌, ◌++◌, arith, true, length,
}
use ssr_pre.Controller.{
  Controller, Handle, network, same_handle, kept_elements, overwrite, std_remove, subscribe,
  unsubscribe,
}

-- Whether a handle is in a list of subscribers.
abbrev pub Listens : Handle → List Handle → Type 0
Listens h [] = ⊥
Listens h (x ∷ xs) = (same_handle x h ≡ true) ⊎ Listens h xs

same_handle_refl : (h : Handle) → same_handle h h ≡ true
same_handle_refl Handle.scene = refl
same_handle_refl Handle.renderer = refl
same_handle_refl (network i) = ground arith

length-overwrite : (front range : List Handle) → length (overwrite front range) ≡ length range
unfolding overwrite
length-overwrite [] range = refl
length-overwrite (x ∷ front) [] = refl
length-overwrite (x ∷ front) (y ∷ range) = ground (arith, length-overwrite front range)

module _ {F : Type 0} where
  -- unsubscribe() never changes the length of the list of subscribers.
  pub length-unsubscribe :
      (h : Handle) (c : Controller F) → length (unsubscribe h c).subscribers ≡ length c.subscribers
  unfolding unsubscribe std_remove
  length-unsubscribe h c = length-overwrite (kept_elements h c.subscribers) c.subscribers

kept_last :
    (h : Handle) (hs : List Handle)
    → (¬ Listens h hs)
    → overwrite (kept_elements h (hs ++ h ∷ [])) (hs ++ h ∷ []) ≡ hs ++ h ∷ []
unfolding kept_elements overwrite
kept_last h [] n = rw (same_handle_refl h) refl
kept_last h (x ∷ hs) n = elim (Bool-cases (same_handle x h)) [
  | inl same ↦ absurd (n (inl same))
  | inr other ↦ rw (other, overwrite) (ap (◌∷◌ x) (kept_last h hs (λ l. n (inr l))))
]

module _ {F : Type 0} where
  -- Unsubscribing the subscriber that came last, and that was not listed before, leaves it in the
  -- list.
  pub unsubscribe-subscribe :
      (h : Handle) (c : Controller F)
      → (¬ Listens h c.subscribers)
      → unsubscribe h (subscribe h c) ≡ subscribe h c
  unfolding unsubscribe subscribe std_remove
  unsubscribe-subscribe h c n =
      ap (λ hs. record c { subscribers = hs }) (kept_last h c.subscribers n)
