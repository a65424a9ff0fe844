-- ===== src/View/Layout.antt =====
-- viewer/crates/btelem-viewer/src/layout.rs: the data of a saved layout, its filters and the report
-- of what could not be restored. `F` stands for `f64`, `G` for `f32` and `J` for the JSON values of
-- serde_json. The children save a layout (Capture), restore it (Apply, Dock) and keep it on disk
-- (Slug, Files, Migrate).
pub mod Slug
pub mod Migrate
pub mod Files
pub mod Dock
pub mod Capture
pub mod Resolve
pub mod Apply
pub mod Renaming
pub mod Restored
pub mod RoundTrip
pub mod Placed
mod Tests
use btelem.Prelude.{
  ℕ, Bool, true, false, ◌&&◌, leb, List, [], ◌∷◌, ◌++◌, Option, none, some, Text, text_eq, any,
  find, filter_map, length, set_extend, if◌then◌else◌,
}
use btelem.Store.{ChannelId, ChannelInfo}
use btelem.View.Panels.{SignalStyle, LabelRadix, LaneMode, numeric}
use btelem.View.Filter.{ColumnFilter}
use btelem.View.Markers.{Color}

abbrev pub schema_version : ℕ
schema_version = 6

abbrev pub min_version : ℕ
min_version = 1

unfoldable pub version_supported : ℕ → Bool
version_supported v = leb min_version v && leb v schema_version

pub record MarkerSpec : Type 0 where
  pub t_ns : ℕ
  pub label : Text
  pub color : Color
  pub chain : Option ℕ

pub record LinkSpec (G : Type 0) : Type 0 where
  pub a_index : ℕ
  pub b_index : ℕ
  pub y_frac : G
  pub signal_paths : List Text

-- `channels.iter().find(|c| c.path == *path).map(|c| c.id)`
abbrev pub first_id : List ChannelInfo → Text → Option ChannelId
first_id channels path = elim (find (λ c. text_eq c.path path) channels) [
  | none ↦ none
  | some c ↦ some c.id
]

unfoldable pub signals_resolved : {G : Type 0} → LinkSpec G → List ChannelInfo → List ChannelId
signals_resolved l channels = filter_map (first_id channels) l.signal_paths

pub data TypedFilterSpec (F : Type 0) : Type 0 where
  text : Text → Bool → TypedFilterSpec F
  range : Option F → Option F → TypedFilterSpec F
  enum : List ℕ → TypedFilterSpec F

pub data FilterSpec (F : Type 0) : Type 0 where
  legacy : Text → FilterSpec F
  typed : TypedFilterSpec F → FilterSpec F

module _ {F : Type 0} where
  unfoldable pub from_filter : ColumnFilter F → FilterSpec F
  from_filter (ColumnFilter.text needle case_sensitive) =
      typed (TypedFilterSpec.text needle case_sensitive)
  from_filter (ColumnFilter.range min max) = typed (TypedFilterSpec.range min max)
  from_filter (ColumnFilter.enum_set allowed) = typed (TypedFilterSpec.enum allowed)

  unfoldable pub to_filter : FilterSpec F → ColumnFilter F
  to_filter (legacy s) = ColumnFilter.text s false
  to_filter (typed (TypedFilterSpec.text needle case_sensitive)) =
      ColumnFilter.text needle case_sensitive
  to_filter (typed (TypedFilterSpec.range min max)) = ColumnFilter.range min max
  to_filter (typed (TypedFilterSpec.enum allowed)) = ColumnFilter.enum_set (set_extend [] allowed)

pub record LogicLaneSpec : Type 0 where
  pub ch_path : Text
  pub radix : LabelRadix
  pub mode : LaneMode

-- The mode of a lane that was saved without one.
abbrev pub lane_mode_numeric_default : LaneMode
lane_mode_numeric_default = numeric

abbrev pub Styles : Type 0
Styles = List (Text × SignalStyle)

pub data PlotSpec (F : Type 0) : Type 0 where
  time_series : Text → List Text → List Text → Styles → PlotSpec F
  scalar : Text → List Text → Styles → PlotSpec F
  state_chart : Text → List Text → PlotSpec F
  logic_analyser : Text → List LogicLaneSpec → PlotSpec F
  log_view :
      Text
      → Text
      → List Text
      → List (Text × FilterSpec F)
      → Option Text
      → Option Text
      → Option ℕ
      → PlotSpec F
  xy : Text → Text → Text → Option ℕ → PlotSpec F

pub record Layout (F G J : Type 0) : Type 0 where
  pub version : ℕ
  pub name : Text
  pub dock : J
  pub plots : List (PlotSpec F)
  pub markers : List MarkerSpec
  pub links : List (LinkSpec G)

pub record ApplyReport : Type 0 where
  pub missing_paths : List Text
  pub dropped_plots : ℕ

abbrev pub no_report : ApplyReport
no_report = record { missing_paths = []; dropped_plots = 0 }

unfoldable pub missing_count : ApplyReport → ℕ
missing_count r = length r.missing_paths

unfoldable pub add_missing : ApplyReport → Text → ApplyReport
add_missing r path =
    if any (λ p. text_eq p path) r.missing_paths
    then r
    else record r { missing_paths = r.missing_paths ++ (path ∷ []) }
