-- ===== src/Controller/Loading/Sources.antt =====
-- Reading and making the sources of a scene file returns.
use mathlib.Core.Option.{some-injective}
use ssr_pre.Common.{
  ℕ, ◌≡◌, refl, sym, subst, Bool, true, false, not, List, [], ◌∷◌, Option, none, some, arith,
  Option-cases, inl, inr,
}
use ssr_pre.Common.Text.{Text, codes, eq_text}
use ssr_pre.CommandParser.{empty}
use ssr_pre.PathTools.{get_file_extension}
use ssr_pre.Geometry.{Floats, Orientation}
use ssr_pre.Subscriber.{Event}
use ssr_pre.Publisher.{Settings}
use ssr_pre.Network.{Printer}
use ssr_pre.PathTools.Returning.{make_path_relative_to_current_dir_returns}
use ssr_pre.SceneFile.{
  Node, PositionPlusBool, get_position, get_file_or_port_name, source_orientation, source_model,
  source_settings, read_source,
}
use ssr_pre.Controller.{
  Controller, Services, ◌>>=◌, new_source, start_processing, set_processing_state,
}
use ssr_pre.Controller.Standing.{Standing, Stands, bind-Stands, if-Stands, new_source-Stands, Named}
use ssr_pre.Controller.Saving.Reloading.{located_returns}
use ssr_pre.Controller.Loading.{
  Loader, load_sources, new_sources, started, spontaneous_sources, pure_file_name,
}

-- A file for which load_scene() makes a spontaneous scene.
abbrev pub IsSpontaneous : Text → Type 0
IsSpontaneous file =
    (empty file ≡ false)
    × (empty (get_file_extension file) ≡ false)
    × (eq_text (get_file_extension file) (codes "asd") ≡ false)

-- What load_scene() returns, with a Controller that stands.
abbrev pub StandsWith : {F : Type 0} → Option (Bool × Controller F) → Type 0
StandsWith {F = F} o = (r : Bool × Controller F) × (o ≡ some r) × Standing r.1

module _ {F : Type 0} (fl : Floats F) (pr : Printer F) (ld : Loader F) (sv : Services) where
  -- No <file> child of a source has a negative channel.
  abbrev pub AllChannels : List Node → Type 0
  AllChannels [] = Unit
  AllChannels (node ∷ nodes) =
      ((found : ℕ × Text) × (get_file_or_port_name fl ld.readers node.children ≡ some found))
      × AllChannels nodes

  -- The name of the port is known of all sources in a list.
  abbrev pub AllNamed : List (Settings F) → Type 0
  AllNamed [] = Unit
  AllNamed (t ∷ ts) = Named fl pr sv t × AllNamed ts

  -- The sources that are read from the nodes of a scene file.
  abbrev pub settings_of : Option Text → Text → List Node → List (Settings F)
  settings_of cwd scene_file [] = []
  settings_of cwd scene_file (node ∷ nodes) =
      let rest = settings_of cwd scene_file nodes in
      elim (read_source fl ld.readers cwd ld.conf.input_port_prefix scene_file node) [
        | some (some t) ↦ t ∷ rest
        | _ ↦ rest
      ]

  -- No <file> child of a source has a negative channel, and the name of the port is known of all
  -- sources that are read.
  abbrev pub AllRead : Text → Text → List Node → Type 0
  AllRead cwd scene_file nodes =
      AllChannels nodes × AllNamed (settings_of (some cwd) scene_file nodes)

  -- Ecasound answers with a number of channels, and the name of the port is known of all sources
  -- of the spontaneous scene.
  abbrev pub Playable : Text → Type 0
  Playable file =
      (n : ℕ) × (ld.get_format file ≡ some n)
      × AllNamed (spontaneous_sources fl pr ld sv (pure_file_name fl pr ld sv file) file n)

  settings_return :
      (cwd prefix scene_file : Text) (node : Node) (properties_file : Text)
      (pos : PositionPlusBool F) (dir : Orientation F)
      → (found : ℕ × Text) × (get_file_or_port_name fl ld.readers node.children ≡ some found)
      → (s : Settings F) × (source_settings fl ld.readers
            (some cwd)
            prefix
            scene_file
            node
            properties_file
            pos
            dir
          ≡ some s)
  unfolding source_settings
  settings_return cwd prefix scene_file node properties_file pos dir (found, e) =
      let name = located_returns fl pr ld.readers cwd prefix scene_file found in
      elim (Option-cases
        (source_settings fl ld.readers (some cwd) prefix scene_file node properties_file pos dir)) [
          | inl failed ↦ absurd (ground (arith, failed, e, name.1))
          | inr s ↦ s
        ]

  read_source_returns :
      (cwd prefix scene_file : Text) (node : Node)
      → (found : ℕ × Text) × (get_file_or_port_name fl ld.readers node.children ≡ some found)
      → (o : Option (Settings F)) × (read_source fl ld.readers (some cwd) prefix scene_file node
          ≡ some o)
  unfolding read_source
  read_source_returns cwd prefix scene_file node found =
      let path =
        make_path_relative_to_current_dir_returns cwd (node.attribute (codes "properties_file"))
          scene_file in
      elim (Option-cases (get_position fl ld.readers node.children)) [
        | inl missing ↦ (none, ground (arith, path.1, missing))
        | inr (pos, p) ↦
            elim (Option-cases
              (source_orientation fl ld.readers (source_model fl ld.readers node) node.children)) [
                | inl missing ↦ (none, ground (arith, path.1, p, missing))
                | inr (dir, d) ↦
                    let s = settings_return cwd prefix scene_file node path.0 pos dir found in
                    (some s.0, ground (arith, path.1, p, d, s.1))
              ]
      ]

  pub bind-StandsWith :
      (o : Option (Controller F)) (f : Controller F → Option (Bool × Controller F))
      → Stands o
      → ((c : Controller F) → Standing c → StandsWith (f c))
      → StandsWith (o >>= f)
  bind-StandsWith o f (c, h, v) k = subst (λ o. StandsWith (o >>= f)) (sym h) (k c v)

  pub started-StandsWith : (c : Controller F) → Standing c → StandsWith (started fl pr ld sv c)
  unfolding start_processing set_processing_state
  started-StandsWith c v =
      bind-StandsWith (start_processing fl pr c) (λ c'. some (true, c'))
        (if-Stands fl pr (not c.scene.processing_state) (Event.set_processing_state true) c tt v)
        (λ c' w. ((true, c'), refl, w))

  read_then :
      (scene_file : Text) (nodes : List Node) (c : Controller F) (o : Option (Settings F))
      → ((d : Controller F) → Standing d → Stands (load_sources fl pr ld sv scene_file nodes d))
      → ((t : Settings F) → o ≡ some t → Named fl pr sv t)
      → Standing c
      → Stands (elim (some o) [
        | none ↦ none
        | some none ↦ load_sources fl pr ld sv scene_file nodes c
        | some (some settings) ↦
            new_source fl pr sv settings c >>= load_sources fl pr ld sv scene_file nodes
      ])
  read_then scene_file nodes c none k named v = k c v
  read_then scene_file nodes c (some t) k named v =
      bind-Stands fl pr (new_source fl pr sv t c) (load_sources fl pr ld sv scene_file nodes)
        (new_source-Stands fl pr sv t c (named t refl) v) k

  -- What is known of the first source that is read, and of the others.
  first-Named :
      (o : Option (Settings F)) (rest : List (Settings F)) (t : Settings F)
      → AllNamed (elim (some o) [ some (some t) ↦ t ∷ rest | _ ↦ rest ])
      → o ≡ some t
      → Named fl pr sv t
  first-Named none rest t named e = cc
  first-Named (some u) rest t named e = subst (Named fl pr sv) (some-injective _ _ e) named.0

  later-AllNamed :
      (o : Option (Settings F)) (rest : List (Settings F))
      → AllNamed (elim (some o) [ some (some t) ↦ t ∷ rest | _ ↦ rest ])
      → AllNamed rest
  later-AllNamed none rest named = named
  later-AllNamed (some u) rest named = named.1

  pub load_sources-Stands :
      (cwd scene_file : Text) (nodes : List Node) (c : Controller F)
      → ld.cwd ≡ some cwd
      → AllChannels nodes
      → AllNamed (settings_of (some cwd) scene_file nodes)
      → Standing c
      → Stands (load_sources fl pr ld sv scene_file nodes c)
  unfolding load_sources
  load_sources-Stands cwd scene_file [] c here k named v = (c, refl, v)
  load_sources-Stands cwd scene_file (node ∷ nodes) c here (found, k) named v =
      let (o, e) = read_source_returns cwd ld.conf.input_port_prefix scene_file node found in
      let known =
        subst
          (λ o. AllNamed (elim o [
            | some (some t) ↦ t ∷ settings_of (some cwd) scene_file nodes
            | _ ↦ settings_of (some cwd) scene_file nodes
          ]))
          e named in
      let later =
        read_then scene_file nodes c o
          (λ d w.
            load_sources-Stands cwd scene_file nodes d here k
              (later-AllNamed o (settings_of (some cwd) scene_file nodes) known) w)
          (λ t f. first-Named o (settings_of (some cwd) scene_file nodes) t known f) v in
      let e' =
        subst (λ w. read_source fl ld.readers w ld.conf.input_port_prefix scene_file node ≡ some o)
          (sym here) e in
      rw (e', load_sources) later

  pub new_sources-Stands :
      (ts : List (Settings F)) (c : Controller F)
      → AllNamed ts
      → Standing c
      → Stands (new_sources fl pr ld sv ts c)
  unfolding new_sources
  new_sources-Stands [] c named v = (c, refl, v)
  new_sources-Stands (t ∷ ts) c named v =
      bind-Stands fl pr (new_source fl pr sv t c) (new_sources fl pr ld sv ts)
        (new_source-Stands fl pr sv t c named.0 v) (λ c' w. new_sources-Stands ts c' named.1 w)
