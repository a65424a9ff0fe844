-- ===== src/App/Tests.antt =====
-- Small clicks and drops.
use btelem.Prelude.{
  ◌≡◌, refl, true, false, List, [], ◌∷◌, none, some, codes, set_has, filter_map, get_elem?,
}
use btelem.Prelude.Int.{ℤ}
use btelem.Store.{ChannelId, ChannelInfo, ChannelKind}
use btelem.Store.Mock.{Inner}
use btelem.View.Registry.{log_view, LogViewPanel, new_log_view, get, channel}
use btelem.View.Names.{channel_group}
use btelem.App.Selection.{update_selection}
use btelem.App.Selection.Members.{update_selection-selects}
use btelem.App.Drop.{ById, Viewer, on_drop, open_plot}
use btelem.App.Drop.LogViews.{on_drop-text}

abbrev rows : List ChannelId
rows = 4 ∷ 7 ∷ 2 ∷ 9 ∷ []

from_anchor : update_selection (9 ∷ []) (some 2) rows 4 false true ≡ (4 ∷ 7 ∷ 2 ∷ [], some 2)
unfolding update_selection
from_anchor = refl

update_selection-selects_example :
    (set_has (update_selection (9 ∷ []) (some 2) rows 4 false true).0 7 ≡ true)
    × ((update_selection (9 ∷ []) (some 2) rows 4 false true).1 ≡ some 2)
update_selection-selects_example =
    update_selection-selects (9 ∷ []) (some 2) rows 4 false true 7
      (refl, (refl, (refl, (refl, tt))))

abbrev boot_text : ChannelInfo
boot_text = record {
  id = 0;
  path = codes "log.text";
  kind = ChannelKind.text;
  integer_storage = false;
}

abbrev boot_code : ChannelInfo
boot_code = record {
  id = 1;
  path = codes "log.code";
  kind = ChannelKind.text;
  integer_storage = false;
}

abbrev known : ById
known = (0, boot_text) ∷ (1, boot_code) ∷ []

abbrev no_data : Inner ℤ
no_data = record {
  channels = boot_text ∷ boot_code ∷ [];
  scalars = [] ∷ [] ∷ [];
  states = [] ∷ [] ∷ [];
  texts = [] ∷ [] ∷ [];
  revision = 2;
  word_to_bits = [];
}

abbrev one_log_view : Viewer ℤ
one_log_view = record {
  plots = record {
    plots = (3, log_view (new_log_view (codes "log") (codes "log"))) ∷ [];
    next_id = 4;
  };
  new_plots = [];
  xy_drag = record { first = none };
}

on_drop-text_example :
    (p : LogViewPanel ℤ) × (on_drop no_data known one_log_view 3 (channel 1)
      ≡ open_plot one_log_view (log_view p))
    × (p.group ≡ channel_group boot_code.path)
    × (filter_map (get_elem? p.columns) p.visible ≡ 1 ∷ [])
unfolding get
on_drop-text_example =
    on_drop-text no_data known one_log_view 3 1 boot_code
      (log_view (new_log_view (codes "log") (codes "log"))) refl refl refl refl
