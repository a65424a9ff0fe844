-- ===== src/View/Layout/Placed/Specs.antt =====
-- viewer/crates/btelem-viewer/src/layout.rs: the ids that the loop over the plots of a layout gives.
use btelem.Prelude.{
  ℕ, ◌+◌, ◌<◌, ◌≡◌, ◌≢◌, refl, ◌∙◌, ap, sym, Bool, true, false, ◌||◌, List, [], ◌∷◌, ◌++◌, Option,
  none, some, Text, ◌==◌, arith, set_has, All, All-weaken, All-append, Bool-cases, Option-cases,
  inl, inr, text_get, map_insert, codes, append-nil,
}
use btelem.Store.{ChannelInfo}
use btelem.View.Panels.{LogicAnalyserPanel}
use btelem.View.ScalarPanel as ScalarMethods
use btelem.View.LogicPanel
use btelem.View.Registry.{PlotKind, PlotId, PlotRegistry, scalar_plot, logic_analyser, insert, xy}
use btelem.View.Layout.{PlotSpec, ApplyReport}
use btelem.View.Layout.Resolve.{ByPath, add_scalars, add_styles, add_states}
use btelem.View.Layout.Apply.{
  Applying, push_plot, push_states, drop_plot, is_scalar_channel, push_xy, apply_spec, apply_specs,
  nothing_applied, surviving,
}
use btelem.View.Layout.Restored.Entries.{keys}

-- Every id below `next_id` is that of a plot; the ids for the dock are below it, and there is one if
-- there is a plot.
pub record IsNumbered {F : Type 0} (st : Applying F) : Type 0 where
  pub has : (t : PlotId) → t < st.registry.next_id → set_has (keys st.registry.plots) t ≡ true
  pub primary : All (λ t. t < st.registry.next_id) (surviving st.new_ids)
  pub companions : All (λ c. c.1 < st.registry.next_id) st.companions
  pub some_primary : surviving st.new_ids ≡ [] → st.registry.next_id ≡ 0

has-map_insert :
    {V : Type 0} (k t : ℕ) (v : V) (m : List (ℕ × V))
    → set_has (keys (map_insert k v m)) t ≡ (k == t || set_has (keys m) t)
has-map_insert k t v [] = refl
has-map_insert k t v ((j, w) ∷ m) = ground (arith, has-map_insert k t v m)

surviving-append :
    (ids : List (Option PlotId)) (id : Option PlotId)
    → surviving (ids ++ (id ∷ [])) ≡ surviving ids ++ surviving (id ∷ [])
surviving-append [] id = refl
surviving-append (none ∷ ids) id = surviving-append ids id
surviving-append (some i ∷ ids) id = ap (◌∷◌ i) (surviving-append ids id)

append-not_nil : {A : Type 0} (xs : List A) (x : A) → xs ++ (x ∷ []) ≢ []
append-not_nil [] x h = cc
append-not_nil (y ∷ xs) x h = cc

All-lt-suc : (n : ℕ) (xs : List ℕ) → All (λ t. t < n) xs → All (λ t. t < n + 1) xs
All-lt-suc n xs h = All-weaken (λ t. t < n) xs (λ t k. omega arith) h

companions-lt-suc :
    (n : ℕ) (cs : List (PlotId × PlotId)) → All (λ c. c.1 < n) cs → All (λ c. c.1 < n + 1) cs
companions-lt-suc n cs h = All-weaken (λ c. c.1 < n) cs (λ c k. omega arith) h

module _ {F : Type 0} where
  inserted_has :
      (g : PlotRegistry F) (kind : PlotKind F)
      → ((t : PlotId) → t < g.next_id → set_has (keys g.plots) t ≡ true)
      → (t : PlotId) → t < g.next_id + 1
      → set_has (keys (map_insert g.next_id kind g.plots)) t ≡ true
  inserted_has g kind h t l =
      has-map_insert g.next_id t kind g.plots ∙ elim (Bool-cases (g.next_id == t)) [
        | inl e ↦ rw e refl
        | inr e ↦ rw (e, h t (ground (arith, e, l))) refl
      ]

  push_plot-IsNumbered :
      (st : Applying F) (kind : PlotKind F) (report : ApplyReport)
      → IsNumbered st
      → IsNumbered (push_plot st kind report)
  unfolding insert
  push_plot-IsNumbered st kind report n = record {
    has = inserted_has st.registry kind n.has;
    primary = rw (surviving-append st.new_ids (some st.registry.next_id)) (
        All-append (λ t. t < st.registry.next_id + 1) (surviving st.new_ids) st.registry.next_id
          (All-lt-suc st.registry.next_id (surviving st.new_ids) n.primary) (omega arith));
    companions = companions-lt-suc st.registry.next_id st.companions n.companions;
    some_primary = λ e. absurd (
        append-not_nil (surviving st.new_ids) st.registry.next_id
          (sym (surviving-append st.new_ids (some st.registry.next_id)) ∙ e));
  }

  push_states-IsNumbered :
      (scalar_id : PlotId) (st : Applying F) (made : LogicAnalyserPanel × Bool × ApplyReport)
      → IsNumbered st
      → surviving st.new_ids ≢ []
      → IsNumbered (push_states scalar_id st made)
  unfolding insert
  push_states-IsNumbered scalar_id st (chart, false, report) n ne = record {
    has = n.has;
    primary = n.primary;
    companions = n.companions;
    some_primary = n.some_primary;
  }
  push_states-IsNumbered scalar_id st (chart, true, report) n ne = record {
    has = inserted_has st.registry (logic_analyser chart) n.has;
    primary = All-lt-suc st.registry.next_id (surviving st.new_ids) n.primary;
    companions =
        All-append (λ c. c.1 < st.registry.next_id + 1) st.companions
          (scalar_id, st.registry.next_id)
          (companions-lt-suc st.registry.next_id st.companions n.companions) (omega arith);
    some_primary = λ e. absurd (ne e);
  }

  drop_plot-IsNumbered :
      (st : Applying F) (x : Text) (xi : Option ChannelInfo) (y : Text) (yi : Option ChannelInfo)
      → IsNumbered st
      → IsNumbered (drop_plot st x xi y yi)
  drop_plot-IsNumbered st x xi y yi n =
      let same = surviving-append st.new_ids none ∙ append-nil (surviving st.new_ids) in
      record {
        has = n.has;
        primary = rw same n.primary;
        companions = n.companions;
        some_primary = λ e. n.some_primary (sym same ∙ e);
      }

  push_xy-IsNumbered :
      (st : Applying F) (title x : Text) (xi : Option ChannelInfo) (y : Text)
      (yi : Option ChannelInfo) (trail : Option ℕ)
      → IsNumbered st
      → IsNumbered (push_xy st title x xi y yi trail)
  push_xy-IsNumbered st title x xi y yi trail n = elim (Option-cases (is_scalar_channel xi)) [
    | inl e ↦ rw (e, push_xy) (drop_plot-IsNumbered st x xi y yi n)
    | inr (xid, e) ↦ elim (Option-cases (is_scalar_channel yi)) [
      | inl k ↦ rw (e, push_xy) (rw (k, push_xy) (drop_plot-IsNumbered st x xi y yi n))
      | inr (yid, k) ↦
          rw (e, push_xy)
            (rw (k, push_xy)
              (push_plot-IsNumbered st
                (xy (record { title = title; x = xid; y = yid; trail_ns = trail })) st.report n))
    ]
  ]

  apply_spec-IsNumbered :
      (by_path : ByPath) (channels : List ChannelInfo) (spec : PlotSpec F) (st : Applying F)
      → IsNumbered st
      → IsNumbered (apply_spec by_path channels spec st)
  unfolding apply_spec insert
  apply_spec-IsNumbered by_path channels (PlotSpec.time_series title scalars [] styles) st n =
      push_plot-IsNumbered st _ _ n
  apply_spec-IsNumbered by_path channels (PlotSpec.time_series title scalars (path ∷ paths) styles)
        st n =
      let (p, report) = add_scalars by_path scalars (ScalarMethods.new title) st.report in
      let kind : PlotKind F = scalar_plot (add_styles by_path true styles p) in
      push_states-IsNumbered st.registry.next_id (push_plot st kind report)
        (add_states by_path (path ∷ paths) (LogicPanel.new (title ++ codes " (states)")) false
          report)
        (push_plot-IsNumbered st kind report n)
        (λ e.
          append-not_nil (surviving st.new_ids) st.registry.next_id
            (sym (surviving-append st.new_ids (some st.registry.next_id)) ∙ e))
  apply_spec-IsNumbered by_path channels (PlotSpec.scalar title paths styles) st n =
      push_plot-IsNumbered st _ _ n
  apply_spec-IsNumbered by_path channels (PlotSpec.state_chart title lanes) st n =
      push_plot-IsNumbered st _ _ n
  apply_spec-IsNumbered by_path channels (PlotSpec.logic_analyser title lanes) st n =
      push_plot-IsNumbered st _ _ n
  apply_spec-IsNumbered by_path channels
        (PlotSpec.log_view title group visible filters color priority rows) st n =
      push_plot-IsNumbered st _ _ n
  apply_spec-IsNumbered by_path channels (PlotSpec.xy title x y trail) st n =
      push_xy-IsNumbered st title x (text_get x by_path) y (text_get y by_path) trail n

  pub apply_specs-IsNumbered :
      (by_path : ByPath) (channels : List ChannelInfo) (specs : List (PlotSpec F)) (st : Applying F)
      → IsNumbered st
      → IsNumbered (apply_specs by_path channels specs st)
  unfolding apply_specs
  apply_specs-IsNumbered by_path channels [] st n = n
  apply_specs-IsNumbered by_path channels (spec ∷ specs) st n =
      apply_specs-IsNumbered by_path channels specs (apply_spec by_path channels spec st)
        (apply_spec-IsNumbered by_path channels spec st n)

  pub nothing_applied-IsNumbered : IsNumbered (nothing_applied {F = F})
  nothing_applied-IsNumbered = record {
    has = λ t h. absurd (omega arith);
    primary = tt;
    companions = tt;
    some_primary = λ e. refl;
  }
