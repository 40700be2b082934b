-- ===== src/Controller/Upkeep.antt =====
-- The single operations of the Controller keep the Scene and the renderer in agreement.
use mathlib.Core.Option.{some-injective}
use ssr_pre.Common.{◌≡◌, Option, some, Bool, true, false, if◌then◌else◌, subst, not}
use ssr_pre.Geometry.{Floats}
use ssr_pre.Subscriber.{Event}
use ssr_pre.Network.{Printer}
use ssr_pre.Controller.{
  Controller, publish, set_amplitude_reference_distance, start_processing, stop_processing,
  delete_all_sources, set_processing_state,
}
use ssr_pre.Controller.Sync.{Extent, IsChange}
use ssr_pre.Controller.Publish.{>>=-eq-some, Synced, publish-Synced}

module _ {F : Type 0} (fl : Floats F) (pr : Printer F) where
  -- A call that only publishes, or does nothing at all.
  pub maybe-Synced :
      {ext : Extent} (b : Bool) (e : Event F) (c c' : Controller F)
      → IsChange e
      → Synced ext c
      → (if b then publish fl pr e c else some c) ≡ some c'
      → Synced ext c'
  maybe-Synced true e c c' change v h = publish-Synced fl pr e c c' change v h
  maybe-Synced {ext} false e c c' change v h = subst (Synced ext) (some-injective _ _ h) v

  abbrev pub KeepsSynced : Extent → (Controller F → Option (Controller F)) → Type 0
  KeepsSynced ext f = (c c' : Controller F) → Synced ext c → f c ≡ some c' → Synced ext c'

  pub start_processing-Synced : {ext : Extent} → KeepsSynced ext (start_processing fl pr)
  unfolding start_processing set_processing_state
  start_processing-Synced c c' v h =
      maybe-Synced (not c.scene.processing_state) (Event.set_processing_state true) c c' tt v h

  pub stop_processing-Synced : {ext : Extent} → KeepsSynced ext (stop_processing fl pr)
  unfolding stop_processing set_processing_state
  stop_processing-Synced c c' v h =
      maybe-Synced c.scene.processing_state (Event.set_processing_state false) c c' tt v h

  pub set_distance-Synced :
      {ext : Extent} (p : F) → KeepsSynced ext (set_amplitude_reference_distance fl pr p)
  unfolding set_amplitude_reference_distance
  set_distance-Synced p c c' v h =
      maybe-Synced (fl.greater p (fl.lit 1)) (Event.set_amplitude_reference_distance p) c c' tt v h

  pub delete_all-Synced : {ext : Extent} → KeepsSynced ext (delete_all_sources fl pr)
  unfolding delete_all_sources
  delete_all-Synced {ext} c c' v h =
      let (c1, published, last) =
        >>=-eq-some (publish fl pr Event.delete_all_sources c)
          (λ c'. some (record c' { player = false })) h in
      let w = publish-Synced fl pr Event.delete_all_sources c c1 tt v published in
      subst (Synced ext) (some-injective _ _ last)
        (record { rest = w.rest; listening = w.listening; only = w.only; agree = w.agree })
