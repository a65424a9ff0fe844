-- ===== src/View/ScalarPanel.antt =====
-- viewer/crates/btelem-viewer/src/view_state.rs: the methods of `ScalarPanel`.
use btelem.Prelude.{
  Bool, true, false, not, List, [], ◌∷◌, ◌++◌, none, some, Text, ◌==◌, if◌then◌else◌, retain,
  map_get, map_insert, map_remove,
}
use btelem.Store.{ChannelId, ChannelInfo}
use btelem.View.Panels.{SignalStyle, default_style, ScalarPanel, is_scalar, contains}

unfoldable pub new : Text → ScalarPanel
new title = record { title = title; channels = []; styles = []; selected_signals = [] }

-- The style that a new channel takes over from the first one.
abbrev pub inherit :
    ChannelId → List ChannelId → List (ChannelId × SignalStyle) → List (ChannelId × SignalStyle)
inherit id [] styles = styles
inherit id (first ∷ rest) styles = elim (map_get first styles) [
  | none ↦ styles
  | some style ↦ map_insert id style styles
]

unfoldable pub add : ScalarPanel → ChannelInfo → ScalarPanel × Bool
add p ch =
    if not (is_scalar ch.kind)
    then (p, false)
    else if contains p.channels ch.id
    then (p, false)
    else (
      record p {
        styles = inherit ch.id p.channels p.styles;
        channels = p.channels ++ (ch.id ∷ []);
      },
      true,
    )

unfoldable pub remove : ScalarPanel → ChannelId → ScalarPanel
remove p id = record p {
  channels = retain (λ x. not (x == id)) p.channels;
  styles = map_remove id p.styles;
}

unfoldable pub style_for : ScalarPanel → ChannelId → SignalStyle
style_for p ch = elim (map_get ch p.styles) [ none ↦ default_style | some style ↦ style ]

-- `style_for_mut`, and the assignment through the reference that it returns.
unfoldable pub style_for_mut : ScalarPanel → ChannelId → (SignalStyle → SignalStyle) → ScalarPanel
unfolding style_for
style_for_mut p ch f = record p { styles = map_insert ch (f (style_for p ch)) p.styles }
