-- ===== src/View/Tests.antt =====
-- viewer/crates/btelem-viewer/src/view_state.rs: the theorems at small states of the viewer.
use btelem.Prelude.{◌≡◌, refl, true, false, [], ◌∷◌, none, ok, arith, codes, decimal, digits_from}
use btelem.Prelude.Int.{ℤ, pos}
use btelem.Store.{ChannelInfo, scalar}
use btelem.View.ScalarPanel as ScalarMethods
use btelem.View.Filter.{is_blank, starts_with}
use btelem.View.Registry.{
  PlotKind, scalar_plot, xy, PlotRegistry, try_move_channel, get, update, receive, give_up,
  accepts as accepts_plot,
}
use btelem.View.Registry.Moves.{Moved, try_move_channel-Moved}
use btelem.View.Connection.{Connection, udp, parse, pretty, pretty_with}
use btelem.View.Connection.RoundTrip.{parse-pretty}
use btelem.View.Markers.{MarkerSet, new, add, add_linked_to}
use btelem.View.Markers.Invariant.{Reach, starts, next, adds, adds_linked, Reach-IsConsistent}
use btelem.View.Markers.Consistent.{IsConsistent}

-- A marker, and one before it that is linked to it.
abbrev linked : MarkerSet ℤ
linked = (add_linked_to (pos 0) (add new 500 (1, 2, 3)).0 1 200 (4, 5, 6) []).0

linked-Reach : Reach (pos 0) linked
linked-Reach =
    next (next starts (adds new 500 (1, 2, 3)))
      (adds_linked (add new 500 (1, 2, 3)).0 1 200 (4, 5, 6) [])

Reach-IsConsistent_example : IsConsistent linked
Reach-IsConsistent_example = Reach-IsConsistent linked-Reach

abbrev speed : ChannelInfo
speed = record { id = 7; path = codes "motor.speed"; kind = scalar; integer_storage = false }

abbrev with_speed : PlotKind ℤ
with_speed =
    scalar_plot
      (record { title = codes "a"; channels = 7 ∷ 3 ∷ []; styles = []; selected_signals = [] })

abbrev without_speed : PlotKind ℤ
without_speed =
    scalar_plot
      (record { title = codes "a"; channels = 3 ∷ []; styles = []; selected_signals = [] })

abbrev xy_plot : PlotKind ℤ
xy_plot = xy (record { title = codes "xy"; x = 1; y = 2; trail_ns = none })

abbrev before_move : PlotRegistry ℤ
before_move = record { plots = (0, with_speed) ∷ (1, xy_plot) ∷ []; next_id = 2 }

-- The channel is in neither plot; the other channel of the source stays.
abbrev after_move : PlotRegistry ℤ
after_move = record { plots = (0, without_speed) ∷ (1, xy_plot) ∷ []; next_id = 2 }

move_to_xy : try_move_channel before_move 0 1 7 speed none ≡ (after_move, true)
unfolding try_move_channel get update receive give_up accepts_plot ScalarMethods.remove
move_to_xy = refl

try_move_channel-Moved_example : Moved 7 0 1 before_move after_move
try_move_channel-Moved_example =
    try_move_channel-Moved before_move after_move 0 1 speed none move_to_xy

abbrev device : Connection
device = record { host = codes "fe80::1"; port = 4040; protocol = udp }

parse-pretty_example : parse (pretty device) ≡ ok device
parse-pretty_example = parse-pretty device (omega arith)

pretty-device : pretty device ≡ codes "udp://fe80::1:4040"
unfolding pretty pretty_with decimal digits_from
pretty-device = refl

-- An em space of U+2003 and a no-break space; a needle with a letter.
blank_needle :
    (is_blank (0xe2 ∷ 0x80 ∷ 0x83 ∷ 0xc2 ∷ 0xa0 ∷ []) ≡ true)
    × (is_blank (0xc2 ∷ 0xa0 ∷ b'a' ∷ []) ≡ false)
unfolding is_blank starts_with
blank_needle = (refl, refl)
