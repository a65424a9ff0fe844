-- ===== src/View/Markers/Invariant.antt =====
-- viewer/crates/btelem-viewer/src/view_state.rs: the ids, the links and the selection of `MarkerSet`
-- for every sequence of calls.
use btelem.Prelude.{
  ℕ, refl, inl, inr, List, [], ◌∷◌, ◌++◌, Option, none, some, Text, arith, All, All-append,
  All-weaken, All-retain, any, get_elem?, Bool-cases, Option-cases, ◌==◌, ==_refl,
}
use btelem.Store.{ChannelId}
use btelem.View.Markers.{
  Color, Marker, MarkerSet, new, alloc_id, alloc_link_id, restore_markers, restore_link,
  restore_links, restore, get, add, link, add_linked_to, remove, select, unlink,
}
use btelem.View.Markers.Consistent.{
  Exists, LinkExists, IsConsistent, Ids-retain, any-append, any_here, get_elem?-Exists,
  remove-SelectedExists, get-Exists, LinkExists-remove, with_marker, with_link,
}

module _ {F : Type 0} where
  restore_markers-IsConsistent :
      (ms : List (ℕ × Text × Color)) (s : MarkerSet F) (id_map : List ℕ)
      → IsConsistent s
      → All (Exists s.markers) id_map
      → IsConsistent (restore_markers ms s id_map).0
        × All (Exists (restore_markers ms s id_map).0.markers) (restore_markers ms s id_map).1
  unfolding restore_markers alloc_id
  restore_markers-IsConsistent [] s id_map c x = (c, x)
  restore_markers-IsConsistent (m ∷ ms) s id_map c x =
      let new_marker : Marker = record { id = s.next_id; t_ns = m.0; label = m.1; color = m.2 } in
      restore_markers-IsConsistent ms _ (id_map ++ (s.next_id ∷ []))
        (with_marker s new_marker refl c)
        (All-append (Exists (s.markers ++ (new_marker ∷ []))) id_map s.next_id
          (All-weaken (Exists s.markers) id_map (λ i e. any-append _ s.markers (new_marker ∷ []) e)
            x)
          (any_here _ s.markers new_marker (==_refl s.next_id)))

  restore_links-IsConsistent :
      (id_map : List ℕ) (ls : List (ℕ × ℕ × F × List ChannelId)) (s : MarkerSet F)
      → All (Exists s.markers) id_map
      → IsConsistent s
      → IsConsistent (restore_links id_map ls s)
  unfolding restore_links restore_link alloc_link_id
  restore_links-IsConsistent id_map [] s x c = c
  restore_links-IsConsistent id_map ((a, b, y, signals) ∷ ls) s x c =
      elim (Option-cases (get_elem? id_map a)) [
        | inl e ↦ rw (e, restore_link) (restore_links-IsConsistent id_map ls s x c)
        | inr (ida, ea) ↦ elim (Option-cases (get_elem? id_map b)) [
          | inl e ↦ rw (ea, e, restore_link) (restore_links-IsConsistent id_map ls s x c)
          | inr (idb, eb) ↦
              rw (ea, eb, restore_link)
                (restore_links-IsConsistent id_map ls _ x (
                  with_link s
                    (record {
                      id = s.next_link_id;
                      a = ida;
                      b = idb;
                      y_frac = y;
                      signals = signals;
                    })
                    refl
                    (
                      get_elem?-Exists s.markers id_map a ida x ea,
                      get_elem?-Exists s.markers id_map b idb x eb,
                    )
                    c))
        ]
      ]

  empty-IsConsistent : IsConsistent (new {F = F})
  empty-IsConsistent = record {
    markers = omega arith;
    link_ids = omega arith;
    links = tt;
    selected = tt;
  }

  -- A call of a method that writes. `link` is called on markers that exist.
  pub data Step (half : F) : MarkerSet F → MarkerSet F → Type 0 where
    restores :
        (s : MarkerSet F) (ms : List (ℕ × Text × Color)) (ls : List (ℕ × ℕ × F × List ChannelId))
        → Step half s (restore ms ls s)
    adds : (s : MarkerSet F) (t_ns : ℕ) (color : Color) → Step half s (add s t_ns color).0
    adds_linked :
        (s : MarkerSet F) (anchor t_ns : ℕ) (color : Color) (signals : List ChannelId)
        → Step half s (add_linked_to half s anchor t_ns color signals).0
    links :
        (s : MarkerSet F) (a b : ℕ) (signals : List ChannelId)
        → Exists s.markers a
        → Exists s.markers b
        → Step half s (link half s a b signals).0
    removes : (s : MarkerSet F) (id : ℕ) → Step half s (remove s id)
    selects : (s : MarkerSet F) (id : Option ℕ) → Step half s (select s id)
    unlinks : (s : MarkerSet F) (id : ℕ) → Step half s (unlink s id)

  pub data Reach (half : F) : MarkerSet F → Type 0 where
    starts : Reach half new
    next : {s t : MarkerSet F} → Reach half s → Step half s t → Reach half t

  Step-IsConsistent :
      (half : F) {s t : MarkerSet F} → Step half s t → IsConsistent s → IsConsistent t
  unfolding restore add add_linked_to link remove select unlink alloc_id alloc_link_id get
  Step-IsConsistent half (restores s ms ls) c =
      let (c', x) =
        restore_markers-IsConsistent ms
          (record s { markers = []; links = []; selected = none; next_id = 1; next_link_id = 1 }) []
          (record { markers = omega arith; link_ids = omega arith; links = tt; selected = tt })
          tt in
      restore_links-IsConsistent _ ls _ x c'
  Step-IsConsistent half (adds s t_ns color) c = with_marker s _ refl c
  Step-IsConsistent half (adds_linked s anchor t_ns color signals) c =
      elim (Option-cases (get s anchor)) [
        | inl e ↦ rw (e, add_linked_to) c
        | inr (m, e) ↦
            rw (e, add_linked_to)
              (with_link _ _ refl
                (
                  any-append _ s.markers _ (get-Exists s.markers anchor m e),
                  any_here _ s.markers _ (==_refl s.next_id),
                )
                (with_marker s _ refl c))
      ]
  Step-IsConsistent half (links s a b signals ea eb) c = with_link s _ refl (ea, eb) c
  Step-IsConsistent half (removes s id) c = record {
    markers = Ids-retain (λ m. m.id) _ 1 s.next_id s.markers c.markers;
    link_ids = Ids-retain (λ l. l.id) _ 1 s.next_link_id s.links c.link_ids;
    links = LinkExists-remove s.markers id s.links c.links;
    selected = remove-SelectedExists s.markers id s.selected c.selected;
  }
  Step-IsConsistent half (selects s none) c = record {
    markers = c.markers;
    link_ids = c.link_ids;
    links = c.links;
    selected = tt;
  }
  Step-IsConsistent half (selects s (some i)) c =
      elim (Bool-cases (any (λ m. m.id == i) s.markers)) [
        | inl e ↦
            rw (e, select)
              (record { markers = c.markers; link_ids = c.link_ids; links = c.links; selected = e })
        | inr e ↦
            rw (e, select)
              (record {
                markers = c.markers;
                link_ids = c.link_ids;
                links = c.links;
                selected = tt;
              })
      ]
  Step-IsConsistent half (unlinks s id) c = record {
    markers = c.markers;
    link_ids = Ids-retain (λ l. l.id) _ 1 s.next_link_id s.links c.link_ids;
    links = All-retain (LinkExists s.markers) _ s.links c.links;
    selected = c.selected;
  }

  -- In every state of the marker set that its methods lead to, with `link` called on markers
  -- that exist, no two markers and no two links have the same id and the counters are above all
  -- of them, both ends of every link exist, and so does the selected marker.
  pub Reach-IsConsistent : {half : F} {s : MarkerSet F} → Reach half s → IsConsistent s
  Reach-IsConsistent starts = empty-IsConsistent
  Reach-IsConsistent (next {s} r x) = Step-IsConsistent _ x (Reach-IsConsistent r)
