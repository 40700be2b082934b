-- ===== src/Controller.antt =====
-- src/controller.h: the Controller, which owns the Scene and the renderer and publishes every change
-- to its subscribers. The model is of a build with Ecasound. A subscriber is a handle: the Scene,
-- the RenderSubscriber, or the NetworkSubscriber of a connection. A failed assertion is `none`.
pub mod Loading
pub mod Saving
pub mod Query
pub mod Calls
pub mod Sync
pub mod Publish
pub mod Register
pub mod Upkeep
pub mod Operations
pub mod Faults
pub mod Total
pub mod Standing
pub mod Startup
pub mod Subscribers
pub mod Sample
pub mod Examples
use ssr_pre.Common.{
  ℕ, suc, Bool, true, false, not, ◌&&◌, List, [], ◌∷◌, ◌++◌, Option, none, some, ◌==◌, ltb,
  if◌then◌else◌,
}
use ssr_pre.Common.Text.{Text, codes, eq_text}
use ssr_pre.Common.Assoc.{Map, find, insert}
use ssr_pre.Geometry.{Floats, Position, Orientation}
use ssr_pre.Source.{Model}
use ssr_pre.Subscriber.{Event}
use ssr_pre.Publisher.{Settings}
use ssr_pre.Publisher
use ssr_pre.Scene.{Scene, get_source_position_fixed}
use ssr_pre.Scene
use ssr_pre.Renderer.{Renderer, Params, add_source}
use ssr_pre.Renderer
use ssr_pre.Network.{Network, Printer}
use ssr_pre.Network

pub data Handle : Type 0 where
  scene renderer : Handle
  network : ℕ → Handle

pub record Controller (F : Type 0) : Type 0 where
  pub scene : Scene F
  pub renderer : Renderer F
  pub networks : Map (Network F)
  -- The static variable of NetworkSubscriber::set_transport_state().
  pub previous_state : Bool
  pub subscribers : List Handle
  -- Whether there is an AudioPlayer.
  pub player : Bool
  pub loop_mode : Bool

-- What the Controller gets from other libraries and from the renderer that it is built with.
pub record Services : Type 0 where
  -- AudioPlayer::get_port_name() and get_file_length(), which ask Ecasound; `none` is an assertion
  -- that fails in the audio player.
  pub player_port_name : Text → ℕ → Bool → Option Text
  pub player_file_length : Text → ℕ
  -- Whether the constructor of Derived::Source returns.
  pub accepts : Params → Bool

-- operator== of two pointers
abbrev pub same_handle : Handle → Handle → Bool
same_handle Handle.scene Handle.scene = true
same_handle Handle.renderer Handle.renderer = true
same_handle (network i) (network j) = i == j
same_handle _ _ = false

-- What std::remove leaves in the range: the elements that are kept move to the front, and the places
-- behind them keep what they held.
unfoldable pub kept_elements : Handle → List Handle → List Handle
kept_elements h [] = []
kept_elements h (x ∷ xs) = if same_handle x h then kept_elements h xs else x ∷ kept_elements h xs

-- `front` over the first places of `range`.
unfoldable pub overwrite : List Handle → List Handle → List Handle
overwrite [] range = range
overwrite (x ∷ front) [] = []
overwrite (x ∷ front) (y ∷ range) = x ∷ overwrite front range

unfoldable pub std_remove : Handle → List Handle → List Handle
unfolding kept_elements overwrite
std_remove h range = overwrite (kept_elements h range) range

infixl 5 ◌>>=◌
abbrev pub ◌>>=◌ : {A B : Type 0} → Option A → (A → Option B) → Option B
none >>= f = none
some a >>= f = f a

module _ {F : Type 0} where
  unfoldable pub subscribe : Handle → Controller F → Controller F
  subscribe h c = record c { subscribers = c.subscribers ++ h ∷ [] }

  -- The result of std::remove is thrown away.
  unfoldable pub unsubscribe : Handle → Controller F → Controller F
  unfolding std_remove
  unsubscribe h c = record c { subscribers = std_remove h c.subscribers }

module _ {F : Type 0} (fl : Floats F) (pr : Printer F) where
  -- The call of one subscriber's function.
  unfoldable pub deliver : Event F → Handle → Controller F → Option (Controller F)
  deliver e Handle.scene c = some (record c { scene = Scene.receive fl e c.scene })
  deliver e Handle.renderer c =
      Renderer.receive e c.renderer >>= λ r. some (record c { renderer = r })
  deliver e (network i) c = elim (find i c.networks) [
    | none ↦ none
    | some n ↦
        let (n', previous) = Network.receive fl pr e c.previous_state n in
        some (record c { networks = insert i n' c.networks; previous_state = previous })
  ]

  unfoldable pub publish_to : Event F → List Handle → Controller F → Option (Controller F)
  publish_to e [] c = some c
  publish_to e (h ∷ hs) c = deliver e h c >>= publish_to e hs

  -- _publish()
  unfoldable pub publish : Event F → Controller F → Option (Controller F)
  publish e c = publish_to e c.subscribers c

  -- Several calls of _publish() in a row.
  unfoldable pub publish_all : List (Event F) → Controller F → Option (Controller F)
  publish_all [] c = some c
  publish_all (e ∷ es) c = publish e c >>= publish_all es

  pub set_processing_state : Bool → Controller F → Option (Controller F)
  set_processing_state state = publish (Event.set_processing_state state)

  pub start_processing : Controller F → Option (Controller F)
  unfolding set_processing_state
  start_processing c = if not c.scene.processing_state then set_processing_state true c else some c

  pub stop_processing : Controller F → Option (Controller F)
  unfolding set_processing_state
  stop_processing c = if c.scene.processing_state then set_processing_state false c else some c

  -- A source that is fixed is not moved.
  pub set_source_position : ℕ → Position F → Controller F → Option (Controller F)
  set_source_position id p c =
      if not (get_source_position_fixed id c.scene)
      then publish (Event.set_source_position id p) c
      else some c

  pub set_amplitude_reference_distance : F → Controller F → Option (Controller F)
  set_amplitude_reference_distance dist c =
      if fl.greater dist (fl.lit 1)
      then publish (Event.set_amplitude_reference_distance dist) c
      else some c

  pub delete_source : ℕ → Controller F → Option (Controller F)
  delete_source id = publish (Event.delete_source id)

  -- The audio player is shut down; waiting for the realtime thread changes nothing here.
  pub delete_all_sources : Controller F → Option (Controller F)
  delete_all_sources c =
      publish Event.delete_all_sources c >>= λ c'. some (record c' { player = false })

  -- The calls of _publish() in new_source(), in their order.
  unfoldable pub announcements : ℕ → Settings F → Text → Text → ℕ → List (Event F)
  announcements id t port_name file_name file_length =
      Event.new_source id
      ∷ Event.set_source_mute id true
      ∷ Event.set_source_gain id t.gain
      ∷ Event.set_source_position id t.position
      ∷ Event.set_source_position_fixed id t.position_fixed
      ∷ Event.set_source_orientation id t.orientation
      ∷ Event.set_source_name id t.name
      ∷ Event.set_source_model id t.model
      ∷ Event.set_source_port_name id port_name
      ∷ ((if not (eq_text file_name [])
            then Event.set_source_file_name id file_name
              ∷ Event.set_source_file_channel id t.channel
              ∷ []
            else [])
          ++ Event.set_source_file_length id file_length
            ∷ Event.set_source_properties_file id t.properties_file
            ∷ Event.set_source_mute id t.muted
            ∷ [])

  -- The name of the port of a new source. With a channel the source is a sound file.
  abbrev pub port_name_of : Services → Settings F → Bool → Option Text
  port_name_of sv t loop =
      if ltb 0 t.channel
      then sv.player_port_name t.file_or_port_name t.channel loop
      else some t.file_or_port_name

  -- new_source() once the name of the port is known.
  pub new_source_on : Services → Settings F → Controller F → Text → Option (Controller F)
  unfolding announcements
  new_source_on sv t c port_name =
      let is_file = ltb 0 t.channel in
      let file_length : ℕ = if is_file then sv.player_file_length t.file_or_port_name else 0 in
      let file_name = if is_file then t.file_or_port_name else [] in
      let (made, r) =
        add_source fl sv.accepts
          (record { connect_to = port_name; properties_file = t.properties_file }) c.renderer in
      let c' : Controller F = record c {
        renderer = r;
        player = if is_file then true else c.player;
      } in
      elim made [
        | none ↦ some c'
        | some id ↦ publish_all (announcements id t port_name file_name file_length) c'
      ]

  -- new_source(). For a sound file the audio player is started.
  pub new_source : Services → Settings F → Controller F → Option (Controller F)
  unfolding new_source_on
  new_source sv t c = port_name_of sv t c.loop_mode >>= new_source_on sv t c
