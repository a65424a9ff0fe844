-- ===== src/App/Drop/LogViews.antt =====
-- viewer/crates/btelem-viewer/src/app.rs: the log view that a dropped text channel opens.
use btelem.Prelude.{
  ℕ, suc, ◌≡◌, refl, sym, ◌∙◌, ap, subst, true, false, List, [], ◌∷◌, some, map_get, get_elem?,
  filter_map, filter_map-some, set_has, text_eq, text_eq_refl, ◌==◌, ==_refl, ==_iff, arith,
  Bool-cases, inl, inr, some-injective,
}
use mathlib.Core.Option.{none-ne-some}
use mathlib.Core.Bool.{false≢true}
use btelem.Store.{ChannelId, ChannelKind, ChannelInfo}
use btelem.Store.Mock.{Inner}
use btelem.View.Registry.{
  PlotKind, log_view, scalar_plot, logic_analyser, xy, PlotId, LogViewPanel, get, channel, accepts,
}
use btelem.View.Panels.{accepts_logic}
use btelem.View.Names.{channel_group}
use btelem.App.Selection.{position}
use btelem.App.Drop.{ById, Viewer, group_channels, text_log_view, drop_channel, on_drop, open_plot}

position-get :
    (xs : List ChannelId) (a : ChannelId)
    → set_has xs a ≡ true
    → (i : ℕ) × (position xs a ≡ some i) × (get_elem? xs i ≡ some a)
position-get [] a h = absurd (false≢true h)
position-get (x ∷ xs) a h = elim (Bool-cases (x == a)) [
  | inl e ↦ rw e (0, refl, ap some ((==_iff x a).0 e))
  | inr e ↦ let (i, p, q) = position-get xs a (rw e at h) in rw (e, p) (suc i, refl, q)
]

group_channels-has :
    (by_id : ById) (ch : ChannelId) (info : ChannelInfo)
    → map_get ch by_id ≡ some info
    → info.id ≡ ch
    → set_has (group_channels by_id (channel_group info.path)) ch ≡ true
group_channels-has [] ch info h e = absurd (none-ne-some info h)
group_channels-has ((j, other) ∷ by_id) ch info h e = elim (Bool-cases (j == ch)) [
  | inl q ↦
      let same : other ≡ info = some-injective (rw q at h) in
      let grouped : text_eq (channel_group other.path) (channel_group info.path) ≡ true =
        subst (λ o. text_eq (channel_group o.path) (channel_group info.path) ≡ true) (sym same)
          (text_eq_refl (channel_group info.path)) in
      let id_same : other.id ≡ ch = ap (λ o. o.id) same ∙ e in
      rw (grouped, id_same, ==_refl ch) refl
  | inr q ↦
      let rest = group_channels-has by_id ch info (rw q at h) e in
      elim (Bool-cases (text_eq (channel_group other.path) (channel_group info.path))) [
        | inl g ↦ rw g (ground (arith, rest))
        | inr g ↦ rw g rest
      ]
]

text-rejected :
    {F : Type 0} (plot : PlotKind F) (info : ChannelInfo)
    → info.kind ≡ ChannelKind.text
    → accepts plot info ≡ false
unfolding accepts accepts_logic
text-rejected (scalar_plot p) info k = rw k refl
text-rejected (logic_analyser p) info k = rw k refl
text-rejected (log_view p) info k = refl
text-rejected (xy p) info k = rw k refl

module _ {F : Type 0} (g : Inner F) (by_id : ById) where
  -- A text channel that is dropped on any registered plot, also on a log view, changes no plot; it opens
  -- a log view of the channel's group in which the dropped channel alone is visible.
  pub on_drop-text :
      (v : Viewer F) (pid : PlotId) (ch : ChannelId) (info : ChannelInfo) (plot : PlotKind F)
      → map_get ch by_id ≡ some info
      → info.id ≡ ch
      → info.kind ≡ ChannelKind.text
      → get v.plots pid ≡ some plot
      → (p : LogViewPanel F) × (on_drop g by_id v pid (channel ch) ≡ open_plot v (log_view p))
        × (p.group ≡ channel_group info.path)
        × (filter_map (get_elem? p.columns) p.visible ≡ ch ∷ [])
  unfolding on_drop drop_channel get text_log_view
  on_drop-text v pid ch info plot known same kind there =
      let columns = group_channels by_id (channel_group info.path) in
      let found = position-get columns ch (group_channels-has by_id ch info known same) in
      let view = text_log_view by_id ch info in
      let refused = text-rejected plot info kind in
      (
        view,
        rw (known, there, on_drop) (rw (refused, kind, drop_channel) refl),
        refl,
        rw found.1 (filter_map-some (get_elem? columns) found.0 [] found.2),
      )
