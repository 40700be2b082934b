-- ===== src/Connection/Agreement.antt =====
-- What a connection does keeps the Scene and the renderer in agreement.
use mathlib.Core.Option.{some-injective}
use ssr_pre.Common.{
  ℕ, ◌≡◌, refl, sym, ap, subst, Bool, true, false, List, [], ◌∷◌, ◌++◌, Option, none, some,
  Bool-cases, inl, inr,
}
use ssr_pre.Common.Text.{Text}
use ssr_pre.Geometry.{Floats}
use ssr_pre.Network.{Network, Printer}
use ssr_pre.Publisher
use ssr_pre.CommandParser.{Element}
use ssr_pre.CommandParser.Elements.{parse_cmd}
use ssr_pre.Controller.{
  Controller, Services, Handle, network, same_handle, kept_elements, overwrite, std_remove,
  subscribe, unsubscribe,
}
use ssr_pre.Controller.Calls.{perform_all}
use ssr_pre.Controller.Loading.{Loader}
use ssr_pre.Controller.Operations.{perform_all-Synced}
use ssr_pre.Controller.Publish.{OnlyNetworks, >>=-eq-some, Synced}
use ssr_pre.Controller.Saving.{get_scene_as_xml}
use ssr_pre.Controller.Sync.{Extent}
use ssr_pre.Connection
use ssr_pre.Connection.{
  World, Peer, getline, handle, write, create, timeout_handler, read_handler, destroy, Step,
  arrives, reads, fails, ticks, elsewhere, Run, ends, steps,
}

append-OnlyNetworks :
    (i : ℕ) (hs : List Handle) → OnlyNetworks hs → OnlyNetworks (hs ++ network i ∷ [])
append-OnlyNetworks i [] o = tt
append-OnlyNetworks i (network j ∷ hs) o = append-OnlyNetworks i hs o
append-OnlyNetworks i (Handle.scene ∷ hs) o = absurd o
append-OnlyNetworks i (Handle.renderer ∷ hs) o = absurd o

kept_elements-OnlyNetworks :
    (h : Handle) (hs : List Handle) → OnlyNetworks hs → OnlyNetworks (kept_elements h hs)
unfolding kept_elements
kept_elements-OnlyNetworks h [] o = tt
kept_elements-OnlyNetworks h (network j ∷ hs) o = elim (Bool-cases (same_handle (network j) h)) [
  | inl e ↦ rw e (kept_elements-OnlyNetworks h hs o)
  | inr e ↦ rw e (kept_elements-OnlyNetworks h hs o)
]
kept_elements-OnlyNetworks h (Handle.scene ∷ hs) o = absurd o
kept_elements-OnlyNetworks h (Handle.renderer ∷ hs) o = absurd o

overwrite-OnlyNetworks :
    (front range : List Handle)
    → OnlyNetworks front
    → OnlyNetworks range
    → OnlyNetworks (overwrite front range)
unfolding overwrite
overwrite-OnlyNetworks [] range o p = p
overwrite-OnlyNetworks (network i ∷ front) [] o p = tt
overwrite-OnlyNetworks (network i ∷ front) (network j ∷ range) o p =
    overwrite-OnlyNetworks front range o p
overwrite-OnlyNetworks (Handle.scene ∷ front) range o p = absurd o
overwrite-OnlyNetworks (Handle.renderer ∷ front) range o p = absurd o
overwrite-OnlyNetworks (network i ∷ front) (Handle.scene ∷ range) o p = absurd p
overwrite-OnlyNetworks (network i ∷ front) (Handle.renderer ∷ range) o p = absurd p

module _ {F : Type 0} {ext : Extent} where
  -- A Controller with the same Scene, renderer and, up to network clients, subscribers.
  same-Synced :
      (c c' : Controller F) (rest : List Handle)
      → Synced ext c
      → c'.scene ≡ c.scene
      → c'.renderer ≡ c.renderer
      → c'.subscribers ≡ Handle.scene ∷ Handle.renderer ∷ rest
      → OnlyNetworks rest
      → Synced ext c'
  same-Synced c c' rest v s r listening only = record {
    rest = rest;
    listening = listening;
    only = only;
    agree = rw (s, r) v.agree;
  }

module _ {F : Type 0} (fl : Floats F) (pr : Printer F) (ld : Loader F) (sv : Services)
    (peer : Peer F) (i : ℕ) (ext : Extent) where
  pub create-Synced :
      (n : Network F) (c : Controller F)
      → Synced ext c
      → Synced ext (create fl pr ld sv peer i n c).controller
  unfolding create
  create-Synced n c v = same-Synced c _ v.rest v refl refl v.listening v.only

  pub destroy-Synced : (c : Controller F) → Synced ext c → Synced ext (destroy fl pr ld sv peer i c)
  unfolding destroy unsubscribe std_remove kept_elements overwrite
  destroy-Synced c v =
      let kept = overwrite (kept_elements (network i) v.rest) v.rest in
      same-Synced c _ kept v refl refl (ap (std_remove (network i)) v.listening) (
        overwrite-OnlyNetworks (kept_elements (network i) v.rest) v.rest
          (kept_elements-OnlyNetworks (network i) v.rest v.only) v.only)

  start_then :
      (w v : World F) (o : Option Text)
      → Synced ext w.controller
      → elim o [
        | none ↦ none
        | some whole_scene ↦ some (record {
          connection = record w.connection { reading = true; waiting = true };
          controller = write fl pr ld sv peer i whole_scene (subscribe (network i) w.controller);
        })
      ]
        ≡ some v
      → Synced ext v.controller
  unfolding write subscribe
  start_then w v none s h = cc
  start_then w v (some text) s h =
      subst (λ v. Synced ext v.controller) (some-injective _ _ h)
        (same-Synced w.controller _ (s.rest ++ network i ∷ []) s refl refl
          (ap (λ hs. hs ++ network i ∷ []) s.listening) (append-OnlyNetworks i s.rest s.only))

  pub start-Synced :
      (w v : World F)
      → Synced ext w.controller
      → Connection.start fl pr ld sv peer i w ≡ some v
      → Synced ext v.controller
  unfolding Connection.start subscribe
  start-Synced w v s h =
      start_then w v (get_scene_as_xml fl pr ld.writer ld.cwd w.controller.scene) s h

  parsed_then :
      (o : Option (List (Publisher.Call F))) (c c' : Controller F)
      → ext.told ≡ false
      → Synced ext c
      → elim o [ none ↦ none | some calls ↦ perform_all fl pr ld sv calls c ] ≡ some c'
      → Synced ext c'
  parsed_then none c c' quiet s h = cc
  parsed_then (some calls) c c' quiet s h = perform_all-Synced fl pr ld sv calls c c' (λ t. cc) s h

  request_then :
      (o : Option (List Element)) (c c' : Controller F)
      → ext.told ≡ false
      → Synced ext c
      → elim o [
        | none ↦ some c
        | some elements ↦ elim (parse_cmd fl ld.readers elements) [
          | none ↦ none
          | some calls ↦ perform_all fl pr ld sv calls c
        ]
      ]
        ≡ some c'
      → Synced ext c'
  request_then none c c' quiet s h = subst (Synced ext) (some-injective _ _ h) s
  request_then (some elements) c c' quiet s h =
      parsed_then (parse_cmd fl ld.readers elements) c c' quiet s h

  handle-Synced :
      (packet : Text) (c c' : Controller F)
      → ext.told ≡ false
      → Synced ext c
      → handle fl pr ld sv peer i packet c ≡ some c'
      → Synced ext c'
  unfolding handle
  handle-Synced packet c c' quiet s h = request_then (peer.load_request packet) c c' quiet s h

  read_handler-Synced :
      (error : Bool) (w v : World F)
      → ext.told ≡ false
      → Synced ext w.controller
      → read_handler fl pr ld sv peer i error w ≡ some v
      → Synced ext v.controller
  unfolding read_handler
  read_handler-Synced true w v quiet s h =
      subst (λ v. Synced ext v.controller) (some-injective _ _ h) s
  read_handler-Synced false w v quiet s h =
      let (packet, rest) = getline w.connection.streambuf in
      let (c, handled, last) = >>=-eq-some (handle fl pr ld sv peer i packet w.controller) _ h in
      subst (λ v. Synced ext v.controller) (some-injective _ _ last)
        (handle-Synced packet w.controller c quiet s handled)

  timeout_handler-Synced :
      (e : Bool) (w : World F)
      → Synced ext w.controller
      → Synced ext (timeout_handler fl pr ld sv peer i e w).controller
  unfolding timeout_handler
  timeout_handler-Synced true w s = s
  timeout_handler-Synced false w s =
      same-Synced w.controller _ s.rest s refl refl s.listening s.only

  -- Other threads keep the agreement in this step.
  abbrev pub Keeps : {w v : World F} {bytes : Text} → Step fl pr ld sv peer i w bytes v → Type 0
  Keeps {w = w} (elsewhere c quiet e) = Synced ext w.controller → Synced ext c
  Keeps _ = Unit {0}

  pub Step-Synced :
      (w v : World F) (bytes : Text) (step : Step fl pr ld sv peer i w bytes v)
      → ext.told ≡ false
      → Keeps step
      → Synced ext w.controller
      → Synced ext v.controller
  Step-Synced w v bytes (arrives e) quiet k s = subst (λ v. Synced ext v.controller) (sym e) s
  Step-Synced w v bytes (reads none_new active full h) quiet k s =
      read_handler-Synced false w v quiet s h
  Step-Synced w v bytes (fails none_new active h) quiet k s = read_handler-Synced true w v quiet s h
  Step-Synced w v bytes (ticks b none_new active e) quiet k s =
      subst (λ v. Synced ext v.controller) (sym e) (timeout_handler-Synced b w s)
  Step-Synced w v bytes (elsewhere c none_new e) quiet k s =
      subst (λ v. Synced ext v.controller) (sym e) (k s)
