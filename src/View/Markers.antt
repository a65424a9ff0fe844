-- ===== src/View/Markers.antt =====
-- viewer/crates/btelem-viewer/src/view_state.rs: `MarkerSet`. A colour is its three bytes, and the
-- `y_frac` of a link is a parameter `F` with the value of the literal 0.5. The ids count from 1 and
-- do not reach 2^64.
pub mod Consistent
pub mod Invariant
pub mod Pairs
use btelem.Prelude.{
  ℕ, zero, suc, ◌+◌, Bool, true, false, not, ◌||◌, ◌&&◌, List, [], ◌∷◌, ◌++◌, Option, none, some,
  Text, leb, ◌==◌, if◌then◌else◌, any, retain, find, get_elem?, decimal, map, length,
}
use btelem.Store.{ChannelId}

abbrev pub Color : Type 0
Color = ℕ × ℕ × ℕ

pub record Marker : Type 0 where
  pub id : ℕ
  pub t_ns : ℕ
  pub label : Text
  pub color : Color

pub record Link (F : Type 0) : Type 0 where
  pub id : ℕ
  pub a : ℕ
  pub b : ℕ
  pub y_frac : F
  pub signals : List ChannelId

pub record MarkerSet (F : Type 0) : Type 0 where
  pub markers : List Marker
  pub links : List (Link F)
  pub selected : Option ℕ
  pub next_id : ℕ
  pub next_link_id : ℕ

module _ {F : Type 0} where
  abbrev pub new : MarkerSet F
  new = record { markers = []; links = []; selected = none; next_id = 1; next_link_id = 1 }

  unfoldable pub alloc_id : MarkerSet F → MarkerSet F × ℕ
  alloc_id s = (record s { next_id = s.next_id + 1 }, s.next_id)

  unfoldable pub alloc_link_id : MarkerSet F → MarkerSet F × ℕ
  alloc_link_id s = (record s { next_link_id = s.next_link_id + 1 }, s.next_link_id)

  -- The first loop of `restore`: the set, and the ids that the markers got.
  unfoldable pub restore_markers :
      List (ℕ × Text × Color) → MarkerSet F → List ℕ → MarkerSet F × List ℕ
  unfolding alloc_id
  restore_markers [] s id_map = (s, id_map)
  restore_markers ((t_ns, label, color) ∷ ms) s id_map =
      let (s', id) = alloc_id s in
      restore_markers ms
        (record s' {
          markers =
              s'.markers ++ (record { id = id; t_ns = t_ns; label = label; color = color } ∷ []);
        })
        (id_map ++ (id ∷ []))

  -- The second loop, one link: both ends must be among the markers.
  unfoldable pub restore_link : List ℕ → ℕ × ℕ × F × List ChannelId → MarkerSet F → MarkerSet F
  unfolding alloc_link_id
  restore_link id_map (a_idx, b_idx, y_frac, signals) s = elim (get_elem? id_map a_idx) [
    | none ↦ s
    | some a ↦ elim (get_elem? id_map b_idx) [
      | none ↦ s
      | some b ↦
          let (s', lid) = alloc_link_id s in
          record s' {
            links =
                s'.links
                ++ (record { id = lid; a = a; b = b; y_frac = y_frac; signals = signals } ∷ []);
          }
    ]
  ]

  unfoldable pub restore_links :
      List ℕ → List (ℕ × ℕ × F × List ChannelId) → MarkerSet F → MarkerSet F
  unfolding restore_link
  restore_links id_map [] s = s
  restore_links id_map (l ∷ ls) s = restore_links id_map ls (restore_link id_map l s)

  unfoldable pub restore :
      List (ℕ × Text × Color) → List (ℕ × ℕ × F × List ChannelId) → MarkerSet F → MarkerSet F
  unfolding restore_markers restore_links
  restore markers links s =
      let (s', id_map) =
        restore_markers markers
          (record s { markers = []; links = []; selected = none; next_id = 1; next_link_id = 1 })
          [] in
      restore_links id_map links s'

  unfoldable pub get : MarkerSet F → ℕ → Option Marker
  get s id = find (λ m. m.id == id) s.markers

  unfoldable pub get_link : MarkerSet F → ℕ → Option (Link F)
  get_link s link_id = find (λ l. l.id == link_id) s.links

  unfoldable pub add : MarkerSet F → ℕ → Color → MarkerSet F × ℕ
  unfolding alloc_id
  add s t_ns color =
      let (s', id) = alloc_id s in
      (
        record s' {
          markers =
              s'.markers
              ++ (record { id = id; t_ns = t_ns; label = b'M' ∷ decimal id; color = color } ∷ []);
        },
        id,
      )

  module _ (half : F) where
    unfoldable pub link : MarkerSet F → ℕ → ℕ → List ChannelId → MarkerSet F × ℕ
    unfolding alloc_link_id
    link s a b signals =
        let (s', lid) = alloc_link_id s in
        (
          record s' {
            links =
                s'.links
                ++ (record { id = lid; a = a; b = b; y_frac = half; signals = signals } ∷ []);
          },
          lid,
        )

    unfoldable pub add_linked_to :
        MarkerSet F → ℕ → ℕ → Color → List ChannelId → MarkerSet F × Option (ℕ × ℕ)
    unfolding get add link
    add_linked_to s anchor_id t_ns color signals = elim (get s anchor_id) [
      | none ↦ (s, none)
      | some m ↦
          let (s1, marker_id) = add s t_ns color in
          let (s2, link_id) = link s1 anchor_id marker_id signals in (s2, some (marker_id, link_id))
    ]

  unfoldable pub remove : MarkerSet F → ℕ → MarkerSet F
  remove s id = record s {
    markers = retain (λ m. not (m.id == id)) s.markers;
    links = retain (λ l. not (l.a == id) && not (l.b == id)) s.links;
    selected = elim s.selected [ none ↦ none | some i ↦ if i == id then none else some i ];
  }

  unfoldable pub select : MarkerSet F → Option ℕ → MarkerSet F
  select s none = record s { selected = none }
  select s (some i) = record s {
    selected = if any (λ m. m.id == i) s.markers then some i else none;
  }

  unfoldable pub unlink : MarkerSet F → ℕ → MarkerSet F
  unlink s link_id = record s { links = retain (λ l. not (l.id == link_id)) s.links }

  unfoldable pub links_for : MarkerSet F → ℕ → List (Link F)
  links_for s marker_id = retain (λ l. l.a == marker_id || l.b == marker_id) s.links

  -- The `filter_map` of `link_pairs` over the links that are left.
  unfoldable pub resolve : MarkerSet F → List (Link F) → List (Marker × Marker × Link F)
  unfolding get
  resolve s [] = []
  resolve s (l ∷ ls) =
      let rest = resolve s ls in
      elim (get s l.a) [
        | none ↦ rest
        | some a ↦ elim (get s l.b) [ none ↦ rest | some b ↦ (a, b, l) ∷ rest ]
      ]

  unfoldable pub link_pairs : MarkerSet F → List (Marker × Marker × Link F)
  unfolding resolve
  link_pairs s = resolve s s.links

  abbrev pub in_time_order : Marker × Marker × Link F → Marker × Marker × Link F
  in_time_order (a, b, l) = if leb a.t_ns b.t_ns then (a, b, l) else (b, a, l)

  unfoldable pub time_ordered_pairs : MarkerSet F → List (Marker × Marker × Link F)
  unfolding link_pairs
  time_ordered_pairs s = map in_time_order (link_pairs s)
