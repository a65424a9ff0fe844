-- ===== src/View/Layout/Tests.antt =====
-- viewer/crates/btelem-viewer/src/layout.rs: the theorems at small layouts.
use btelem.View.Layout.Resolve.{index_paths}
use btelem.Prelude.{
  ℕ, ◌+◌, ◌≡◌, refl, true, false, List, [], ◌∷◌, Option, none, some, Text, codes, ok, arith,
  set_has, text_eq, if◌then◌else◌, some-injective, subst, Bool-cases, inl, inr, ◌==◌,
}
use btelem.Store.{ChannelId, ChannelInfo, ChannelKind}
use btelem.View.Panels.{ScalarPanel, LogicAnalyserPanel, bin, named, default_style, accepts_logic}
use btelem.View.Registry.{PlotKind, PlotId, PlotRegistry, scalar_plot, logic_analyser, get}
use btelem.View.Markers as MarkerMethods
use btelem.View.Layout.{Layout, MarkerSpec, PlotSpec, no_report}
use btelem.View.Layout.Slug.{slug}
use btelem.View.Layout.Slug.FileName.{IsSlug, slug-IsSlug}
use btelem.View.Layout.Migrate.{migrate_chains_to_links}
use btelem.View.Layout.Migrate.Chains.{linked, is_next, linked-migrate_chains_to_links}
use btelem.View.Layout.Files.{Json, load, save, delete, path_for}
use btelem.View.Layout.Files.Laws.{load-save}
use btelem.View.Layout.Files.Memory.{Disk, memory, memory-IsLawful}
use btelem.View.Layout.Dock.{one_leaf, one_leaf-IsDockLib}
use btelem.View.Layout.Capture.{ById, capture, capture_order}
use btelem.View.Layout.Apply.{apply}
use btelem.View.Layout.Renaming.{IsKnown}
use btelem.View.Layout.RoundTrip.{IsSaved, IsRestored, reopening, apply-capture}
use btelem.View.Layout.Placed.Dock.{IsPlaced, apply-IsPlaced}

slug-IsSlug_example :
    IsSlug (slug (codes "My IMU plots!"))
    × (slug (slug (codes "My IMU plots!")) ≡ slug (codes "My IMU plots!"))
slug-IsSlug_example = slug-IsSlug (codes "My IMU plots!")

abbrev marker : Option ℕ → MarkerSpec
marker chain = record { t_ns = 5; label = codes "M"; color = (1, 2, 3); chain = chain }

abbrev chained : List MarkerSpec
chained = marker (some 7) ∷ marker none ∷ marker (some 7) ∷ []

linked-migrate_chains_to_links_example :
    linked (migrate_chains_to_links {G = ℕ} 0 chained) 0 2 ≡ is_next chained 0 2
linked-migrate_chains_to_links_example = linked-migrate_chains_to_links 0 chained 0 2

abbrev Saved : Type 0
Saved = Layout ℕ ℕ (Option (List (List ℕ)))

abbrev empty_layout : Text → Saved
empty_layout name = record {
  version = 6;
  name = name;
  dock = none;
  plots = [];
  markers = [];
  links = [];
}

-- Layouts without plots, written as their names.
abbrev name_only : Json Saved
name_only = record {
  to_vec_pretty = λ layout. some layout.name;
  from_slice = λ bytes. some (empty_layout bytes);
}

abbrev disk : Disk
disk = (codes "./btelem-viewer/layouts/lab.json", codes "lab") ∷ []

abbrev disk_saved : Disk
disk_saved =
    (codes "./btelem-viewer/layouts/lab.json", codes "lab")
    ∷ (codes "./btelem-viewer/layouts/b-2.json", codes "b 2")
    ∷ []

saved_lem : save memory name_only 0 disk (empty_layout (codes "b 2")) ≡ ok disk_saved
unfolding save slug path_for
saved_lem = refl

load-save_example : load memory name_only 0 disk_saved (codes "B 2") ≡ (
    if text_eq (slug (codes "b 2")) (slug (codes "B 2"))
    then ok (empty_layout (codes "b 2"))
    else load memory name_only 0 disk (codes "B 2"))
load-save_example =
    load-save memory name_only 0 memory-IsLawful disk (empty_layout (codes "b 2")) (codes "b 2")
      disk_saved (codes "B 2") refl refl refl saved_lem

deleted_lem : delete memory name_only 0 disk (codes "Lab") ≡ ok []
unfolding delete slug path_for
deleted_lem = refl

-- A workspace of two plots, restored in a session in which each channel has another id.
abbrev channel : ChannelId → Text → ChannelKind → ChannelInfo
channel id path kind = record { id = id; path = path; kind = kind; integer_storage = false }

abbrev x_then : ChannelInfo
x_then = channel 1 (codes "imu.x") ChannelKind.scalar

abbrev x_now : ChannelInfo
x_now = channel 11 (codes "imu.x") ChannelKind.scalar

abbrev mode_then : ChannelInfo
mode_then = channel 2 (codes "imu.mode") (ChannelKind.state (codes "off" ∷ []))

abbrev mode_now : ChannelInfo
mode_now = channel 12 (codes "imu.mode") (ChannelKind.state (codes "off" ∷ []))

abbrev channels_then : ById
channels_then = (1, x_then) ∷ (2, mode_then) ∷ []

abbrev channels_now : List ChannelInfo
channels_now = mode_now ∷ x_now ∷ []

abbrev later : ChannelId → ChannelId
later i = i + 10

abbrev scalar_panel : ScalarPanel
scalar_panel = record {
  title = codes "accel";
  channels = 1 ∷ [];
  styles = (1, default_style) ∷ [];
  selected_signals = 1 ∷ [];
}

abbrev logic_panel : LogicAnalyserPanel
logic_panel = record {
  title = codes "modes";
  lanes = record { ch = 2; mode = named; radix = bin } ∷ [];
}

abbrev workspace : PlotRegistry ℕ
workspace = record {
  plots = (4, scalar_plot scalar_panel) ∷ (6, logic_analyser logic_panel) ∷ [];
  next_id = 7;
}

x_known : IsKnown (reopening channels_then channels_now later) 1
unfolding index_paths
x_known = record {
  before = x_then;
  after = x_now;
  known = refl;
  found = refl;
  same = record { id_eq = refl; kind = refl; storage = refl };
}

mode_known : IsKnown (reopening channels_then channels_now later) 2
unfolding index_paths
mode_known = record {
  before = mode_then;
  after = mode_now;
  known = refl;
  found = refl;
  same = record { id_eq = refl; kind = refl; storage = refl };
}

workspace-IsSaved :
    (pid : PlotId) (kind : PlotKind ℕ)
    → get workspace pid ≡ some kind
    → IsSaved (reopening channels_then channels_now later) channels_now kind
unfolding get x_known mode_known accepts_logic
workspace-IsSaved pid kind e = elim (Bool-cases (4 == pid)) [
  | inl p ↦
      let same : scalar_plot scalar_panel ≡ kind = some-injective (rw p at e) in
      subst (IsSaved (reopening channels_then channels_now later) channels_now) same (record {
        channels = ((x_known, refl), tt);
        distinct = (refl, tt);
        styles = (x_known, tt);
        styles_distinct = (refl, tt);
      })
  | inr p ↦ elim (Bool-cases (6 == pid)) [
    | inl q ↦
        let same : logic_analyser logic_panel ≡ kind = some-injective (rw q at (rw p at e)) in
        subst (IsSaved (reopening channels_then channels_now later) channels_now) same (record {
          lanes = (record { known = mode_known; accepted = refl; labelled = refl }, tt);
          distinct = (refl, tt);
        })
    | inr q ↦
        let bad : ◌≡◌ {A = Option (PlotKind ℕ)} none (some kind) = rw q at (rw p at e) in
        absurd (cc bad)
  ]
]

abbrev dock_then : List (List ℕ)
dock_then = (6 ∷ []) ∷ []

abbrev no_markers : MarkerMethods.MarkerSet ℕ
no_markers = MarkerMethods.new

workspace_6 : get workspace 6 ≡ some (logic_analyser logic_panel)
unfolding get
workspace_6 = refl

workspace_order : capture_order one_leaf workspace dock_then ≡ 6 ∷ 4 ∷ []
unfolding capture_order
workspace_order = refl

apply-capture_example :
    let (plots', dock', report) =
      apply one_leaf
        (capture one_leaf (codes "lab") workspace dock_then channels_then no_markers)
        channels_now in
    IsRestored one_leaf
      (reopening channels_then channels_now later)
      workspace
      dock_then
      plots'
      dock'
    × (report ≡ no_report)
apply-capture_example =
    apply-capture one_leaf one_leaf-IsDockLib (codes "lab") workspace dock_then channels_then
      no_markers channels_now later (λ i j ki kj e. omega arith) workspace-IsSaved
      ((logic_analyser logic_panel, workspace_6), tt) (λ e. cc) (rw workspace_order (omega arith))

-- A layout of the first version: its plot becomes two, and the dock cannot be read.
abbrev legacy : Saved
legacy = record (empty_layout (codes "old")) {
  version = 1;
  plots =
      PlotSpec.time_series (codes "all") (codes "imu.x" ∷ []) (codes "imu.mode" ∷ codes "gone" ∷ [])
        []
      ∷ [];
}

legacy_tabs : set_has (one_leaf.iter_all_tabs (apply one_leaf legacy channels_now).1) 1 ≡ true
unfolding apply
legacy_tabs = refl

apply-IsPlaced_example : IsPlaced (apply one_leaf legacy channels_now).0 1
apply-IsPlaced_example =
    apply-IsPlaced one_leaf legacy channels_now one_leaf-IsDockLib 1 legacy_tabs
