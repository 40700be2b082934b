-- ===== src/Renderer/Sources.antt =====
-- src/rendererbase.h: the inputs, the list and the map of sources hold the same sources in the same
-- order. The query of the source levels walks through list and map at once.
use ssr_pre.Common.{
  ℕ, suc, ◌≡◌, refl, ap, ◌∙◌, sym, [], ◌∷◌, ◌++◌, ◌==◌, Option, none, some, arith, Bool, false,
  length, subst, Bool-cases, inl, inr,
}
use ssr_pre.Common.Assoc.{Map, erase, keys, keys-modify}
use ssr_pre.Geometry.{Floats}
use ssr_pre.Subscriber.{Event}
use ssr_pre.Renderer.{
  Renderer, Item, Params, State, remove_first, get_source, rem_source, first_source, rem_loop,
  rem_all_sources, set_member, receive, fresh_item, add_source,
}
use ssr_pre.Renderer.Ascending.{
  Between, Between-mono, insert_last, Between-last, keys-append, erase_above, keys-erase,
  Between-erase, Between-modify, remove_head,
}

pub record InOrder {F : Type 0} (r : Renderer F) : Type 0 where
  pub ascending : Between 0 r.highest_id r.source_map
  pub same_order : r.source_list ≡ keys r.source_map
  -- Every source has its input, and there are no others.
  pub same_inputs : r.inputs ≡ r.source_list

module _ {F : Type 0} where
  -- The last input, which is above all others, goes again.
  remove_new :
      (low high : ℕ) (m : Map (Item F))
      → Between low high m
      → remove_first (suc high) (keys m ++ suc high ∷ []) ≡ keys m
  unfolding remove_first
  remove_new low high [] b = ground arith
  remove_new low high ((k, v) ∷ m) (p, q, b) =
      let other : (k == suc high) ≡ false = ground arith in
      rw other (ap (λ l. k ∷ l) (remove_new k high m b))

  set_member-InOrder :
      (id : ℕ) (assign : Item F → Item F) (r : Renderer F)
      → InOrder r
      → InOrder (set_member id assign r).0
  unfolding set_member
  set_member-InOrder id assign r v = ground (
    arith,
    Between-modify 0 r.highest_id id assign r.source_map v.ascending,
    keys-modify id assign r.source_map,
    v,
  )

  -- A new source, whether its constructor throws or not, keeps the list and the map of sources in
  -- the same ascending order, below the highest id.
  pub add_source-InOrder :
      (fl : Floats F) (accepts : Params → Bool) (p : Params) (r : Renderer F)
      → InOrder r
      → InOrder (add_source fl accepts p r).1
  unfolding add_source
  add_source-InOrder fl accepts p r v = elim (Bool-cases (accepts p)) [
    | inl yes' ↦
        let id : ℕ = suc r.highest_id in
        let last =
          insert_last 0 r.highest_id id (fresh_item fl) r.source_map (omega arith) v.ascending in
        rw (yes', add_source)
          (record {
            ascending = rw last (
                Between-last 0 r.highest_id id (fresh_item fl) r.source_map (omega arith)
                  (omega arith) v.ascending);
            same_order =
                rw (last, v.same_order) (sym (keys-append r.source_map ((id, fresh_item fl) ∷ [])));
            same_inputs = ap (λ l. l ++ id ∷ []) v.same_inputs;
          })
    | inr no' ↦
        rw (no', add_source)
          (record {
            ascending = Between-mono 0 r.highest_id _ r.source_map (omega arith) v.ascending;
            same_order = v.same_order;
            same_inputs =
                ap (λ l. remove_first (suc r.highest_id) (l ++ suc r.highest_id ∷ []))
                  (v.same_inputs ∙ v.same_order)
                ∙ remove_new 0 r.highest_id r.source_map v.ascending
                ∙ sym v.same_order;
          })
  ]

  rem_source-InOrder :
      (id : ℕ) (r r' : Renderer F)
      → InOrder r
      → rem_source (some id) r ≡ some r'
      → InOrder r' × (r'.highest_id ≡ r.highest_id)
  unfolding rem_source
  rem_source-InOrder id r r' v e = ground (
    arith,
    Between-erase 0 r.highest_id id r.source_map v.ascending,
    keys-erase 0 r.highest_id id r.source_map v.ascending,
    ap (remove_first id) v.same_order,
    ap (remove_first id) v.same_inputs,
    v,
  )

  -- The state after the first source is removed.
  abbrev without : ℕ → Renderer F → Renderer F
  without k r = record r {
    source_map = erase k r.source_map;
    source_list = remove_first k r.source_list;
    inputs = remove_first k r.inputs;
  }

  rem_loop-step :
      (n k : ℕ) (r : Renderer F)
      → first_source r.source_map ≡ some k
      → rem_loop (suc n) r ≡ rem_loop n (without k r)
  unfolding rem_loop rem_source
  rem_loop-step n k r e = ground arith

  erase_head :
      (low high k : ℕ) (v : Item F) (m : Map (Item F))
      → Between low high ((k, v) ∷ m)
      → erase k ((k, v) ∷ m) ≡ m
  unfolding erase
  erase_head low high k v m (p, q, b) = ground (arith, erase_above k high k m (omega arith) b)

  rem_loop-nil :
      (m : Map (Item F)) (low : ℕ) (r : Renderer F)
      → r.source_map ≡ m
      → r.source_list ≡ keys m
      → r.inputs ≡ keys m
      → Between low r.highest_id m
      → (r' : Renderer F) × (rem_loop (length m) r ≡ some r')
        × (r'.source_map ≡ [])
        × (r'.source_list ≡ [])
        × (r'.inputs ≡ [])
        × (r'.state ≡ r.state)
  unfolding rem_loop
  rem_loop-nil [] low r e l i b = (r, ground (arith, ap first_source e), e, l, i, refl)
  rem_loop-nil ((k, v) ∷ m) low r e l i (p, q, b) =
      let rest = ap (erase k) e ∙ erase_head low r.highest_id k v m (p, q, b) in
      let rest_list = ap (remove_first k) l ∙ remove_head k (keys m) in
      let rest_inputs = ap (remove_first k) i ∙ remove_head k (keys m) in
      let (r', done, empty, empty_list, empty_inputs, same) =
        rem_loop-nil m k (without k r) rest rest_list rest_inputs b in
      (
        r',
        rem_loop-step (length m) k r (ap first_source e) ∙ done,
        empty,
        empty_list,
        empty_inputs,
        same,
      )

  -- rem_all_sources() of an ordered renderer ends, leaves no source in the map or the list,
  -- no input either, starts the numbering again and keeps the state.
  pub rem_all_sources-empty :
      (r : Renderer F)
      → InOrder r
      → (r' : Renderer F) × (rem_all_sources r ≡ some r')
        × (r'.source_map ≡ [])
        × (r'.source_list ≡ [])
        × (r'.inputs ≡ [])
        × (r'.highest_id ≡ 0)
        × (r'.state ≡ r.state)
  unfolding rem_all_sources
  rem_all_sources-empty r v =
      let (r', done, empty, empty_list, empty_inputs, same) =
        rem_loop-nil r.source_map 0 r refl v.same_order (v.same_inputs ∙ v.same_order)
          v.ascending in
      (
        record r' { highest_id = 0 },
        rw (done, rem_all_sources) refl,
        empty,
        empty_list,
        empty_inputs,
        refl,
        same,
      )

  abbrev Kept : Option (Renderer F) → Type 0
  Kept none = Unit
  Kept (some r) = InOrder r

  same_sources :
      (r : Renderer F) (state : State F) → InOrder r → InOrder (record r { state = state })
  same_sources r state v = record {
    ascending = v.ascending;
    same_order = v.same_order;
    same_inputs = v.same_inputs;
  }

  deleted-Kept : (id : Option ℕ) (r : Renderer F) → InOrder r → Kept (rem_source id r)
  unfolding rem_source
  deleted-Kept none r v = tt
  deleted-Kept (some id) r v = (rem_source-InOrder id r _ v refl).0

  purged-Kept : (r : Renderer F) → InOrder r → Kept (rem_all_sources r)
  purged-Kept r v =
      let (r', done, empty, empty_list, empty_inputs, none_left, same) =
        rem_all_sources-empty r v in
      rw done (record {
        ascending = rw empty tt;
        same_order = rw (empty, empty_list) refl;
        same_inputs = rw (empty_list, empty_inputs) refl;
      })

  receive-Kept : (e : Event F) (r : Renderer F) → InOrder r → Kept (receive e r)
  unfolding receive
  receive-Kept (Event.delete_source id) r v = deleted-Kept (get_source id r) r v
  receive-Kept Event.delete_all_sources r v = purged-Kept r v
  receive-Kept (Event.set_source_position id p) r v =
      set_member-InOrder id (λ t. record t { position = p }) r v
  receive-Kept (Event.set_source_orientation id p) r v =
      set_member-InOrder id (λ t. record t { orientation = p }) r v
  receive-Kept (Event.set_source_gain id p) r v =
      set_member-InOrder id (λ t. record t { gain = p }) r v
  receive-Kept (Event.set_source_mute id p) r v =
      set_member-InOrder id (λ t. record t { mute = p }) r v
  receive-Kept (Event.set_source_model id p) r v =
      set_member-InOrder id (λ t. record t { model = p }) r v
  receive-Kept (Event.set_reference_position p) r v = same_sources r _ v
  receive-Kept (Event.set_reference_orientation p) r v = same_sources r _ v
  receive-Kept (Event.set_reference_offset_position p) r v = same_sources r _ v
  receive-Kept (Event.set_reference_offset_orientation p) r v = same_sources r _ v
  receive-Kept (Event.set_master_volume p) r v = same_sources r _ v
  receive-Kept (Event.set_processing_state p) r v = same_sources r _ v
  receive-Kept (Event.set_amplitude_reference_distance p) r v = same_sources r _ v
  receive-Kept _ r v = v

  -- Every event that the renderer accepts keeps the list and the map of sources in the same
  -- ascending order.
  pub receive-InOrder :
      (e : Event F) (r r' : Renderer F) → InOrder r → receive e r ≡ some r' → InOrder r'
  receive-InOrder e r r' v h = subst Kept h (receive-Kept e r v)
