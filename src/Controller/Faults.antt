-- ===== src/Controller/Faults.antt =====
-- The call that makes the Controller fail: the deletion of a source that does not exist.
use ssr_pre.Common.{List, ◌∷◌, true, ℕ, ◌≡◌, refl, Option, none, some, subst}
use ssr_pre.Common.Text.{codes, eq_text}
use ssr_pre.CommandParser.{Child, Readers}
use ssr_pre.CommandParser.Elements.{parse_delete}
use ssr_pre.Common.Assoc.{find}
use ssr_pre.Geometry.{Floats}
use ssr_pre.Renderer
use ssr_pre.Renderer.{Renderer, Item, get_source, rem_source}
use ssr_pre.Network.{Printer}
use ssr_pre.Controller.{Controller, deliver, publish_to, publish, delete_source, Services}
use ssr_pre.Controller.Loading.{Loader}
use ssr_pre.Controller.Calls.{perform, perform_all}
use ssr_pre.Controller.Publish.{Synced}
use ssr_pre.Controller.Sync.{Extent, Match}

unlisted : {F : Type 0} (o : Option (Item F)) → Match none o → o ≡ none
unlisted none m = refl
unlisted (some i) m = absurd m

module _ {F : Type 0} (fl : Floats F) (pr : Printer F) where
  -- While Scene and renderer agree, deleting a source that the Scene does not know makes an
  -- assertion of the renderer fail.
  pub delete_source-unknown :
      {ext : Extent} (id : ℕ) (c : Controller F)
      → Synced ext c
      → find id c.scene.source_map ≡ none
      → delete_source fl pr id c ≡ none
  unfolding delete_source publish publish_to deliver Renderer.receive get_source rem_source
  delete_source-unknown id c v unknown =
      let gone =
        unlisted (find id c.renderer.source_map)
          (subst (λ o. Match o (find id c.renderer.source_map)) unknown (v.agree.sources id)) in
      rw (v.listening, gone, publish_to, deliver, get_source, rem_source) refl

  -- While Scene and renderer agree, a delete request of a network client whose first child names
  -- a source that the Scene does not know makes an assertion of the renderer fail, whatever
  -- follows in the request.
  pub delete_request-unknown :
      {ext : Extent} (rd : Readers F) (ld : Loader F) (sv : Services) (child : Child)
      (children : List Child) (id : ℕ) (c : Controller F)
      → eq_text child.name (codes "source") ≡ true
      → rd.read_id (child.attribute (codes "id")) ≡ some id
      → Synced ext c
      → find id c.scene.source_map ≡ none
      → perform_all fl pr ld sv (parse_delete fl rd (child ∷ children)) c ≡ none
  unfolding parse_delete perform_all perform
  delete_request-unknown rd ld sv child children id c is_source read v unknown =
      rw (is_source, read, delete_source-unknown id c v unknown) refl
