-- ===== src/View/Layout/Restored/Lanes.antt =====
-- viewer/crates/btelem-viewer/src/layout.rs: a logic analyser that is saved and restored.
use btelem.Prelude.{
  ◌≡◌, refl, ◌∙◌, ap, sym, true, false, not, ◌||◌, ◌&&◌, List, [], ◌∷◌, ◌++◌, some, Text, map, ◌==◌,
  ==_refl, any, arith, filter_map, filter_map-some, All, set_has, Distinct, append_assoc,
  append-nil, text_get,
}
use mathlib.Core.List.{map-append}
use btelem.Store.{ChannelId, ChannelInfo}
use btelem.View.Panels.{
  LogicLane, LogicAnalyserPanel, accepts_logic, is_state, default_lane_mode, hex,
}
use btelem.View.LogicPanel.{new, at_lane}
use btelem.View.Registry.{logic_analyser}
use btelem.View.Layout.{LogicLaneSpec, ApplyReport}
use btelem.View.Layout.Capture.{save_lane, spec_from_kind}
use btelem.View.Layout.Resolve.{is_named, restored_mode, add_lane, add_lanes, ByPath}
use btelem.View.Layout.Apply.{Applying, push_plot, apply_spec}
use btelem.View.Layout.Renaming.{
  Reopening, IsKnown, Separates, AllKnown, IsPart, IsPart-next, IsPart-ren_new, IsPart-start,
  path_of-IsKnown, IsSame,
}

abbrev pub chs : List LogicLane → List ChannelId
chs = map (λ l. l.ch)

-- A lane of a known channel that a logic analyser takes; only a channel with labels shows them.
pub record IsLaneSaved (r : Reopening) (l : LogicLane) : Type 0 where
  pub known : IsKnown r l.ch
  pub accepted : accepts_logic known.before ≡ true
  pub labelled : (is_named l.mode && not (is_state known.before.kind)) ≡ false

pub record IsLogicSaved (r : Reopening) (p : LogicAnalyserPanel) : Type 0 where
  pub lanes : All (IsLaneSaved r) p.lanes
  pub distinct : Distinct (chs p.lanes)

abbrev pub restored_lane : Reopening → LogicLane → LogicLane
restored_lane r l = record l { ch = r.ren l.ch }

abbrev pub restored_logic : Reopening → LogicAnalyserPanel → LogicAnalyserPanel
restored_logic r p = record p { lanes = map (restored_lane r) p.lanes }

has_lane :
    (lanes : List LogicLane) (id : ChannelId) → any (λ l. l.ch == id) lanes ≡ set_has (chs lanes) id
has_lane [] id = refl
has_lane (l ∷ lanes) id = ap (λ b. (l.ch == id) || b) (has_lane lanes id)

chs-restored :
    (r : Reopening) (lanes : List LogicLane)
    → chs (map (restored_lane r) lanes) ≡ map r.ren (chs lanes)
chs-restored r [] = refl
chs-restored r (l ∷ lanes) = ap (◌∷◌ (r.ren l.ch)) (chs-restored r lanes)

chs-append : (xs ys : List LogicLane) → chs (xs ++ ys) ≡ chs xs ++ chs ys
chs-append [] ys = refl
chs-append (l ∷ xs) ys = ap (◌∷◌ l.ch) (chs-append xs ys)

at_lane-last :
    (f : LogicLane → LogicLane) (lanes : List LogicLane) (l : LogicLane)
    → set_has (chs lanes) l.ch ≡ false
    → at_lane l.ch f (lanes ++ (l ∷ [])) ≡ lanes ++ (f l ∷ [])
at_lane-last f [] l h = rw (==_refl l.ch) refl
at_lane-last f (m ∷ lanes) l h = ground (arith, at_lane-last f lanes l)

add_lane-new :
    (ls : LogicLaneSpec) (info : ChannelInfo) (p : LogicAnalyserPanel)
    → accepts_logic info ≡ true
    → set_has (chs p.lanes) info.id ≡ false
    → restored_mode ls.mode info ≡ ls.mode
    → add_lane ls info p ≡ record p {
      lanes = p.lanes ++ (record { ch = info.id; mode = ls.mode; radix = ls.radix } ∷ []);
    }
unfolding add_lane
add_lane-new ls info p a h m =
    let mode = default_lane_mode info.kind info.integer_storage in
    let added : LogicLane = record { ch = info.id; mode = mode; radix = hex } in
    let radix_set : LogicLane = record { ch = info.id; mode = mode; radix = ls.radix } in
    rw
      (
        a,
        has_lane p.lanes info.id,
        h,
        m,
        at_lane-last (λ l. record l { radix = ls.radix }) p.lanes added h,
        at_lane-last (λ l. record l { mode = ls.mode }) p.lanes radix_set h,
      )
      refl

accepts_logic-same :
    {c c' : ChannelInfo} {id : ChannelId}
    → IsSame c id c'
    → accepts_logic c ≡ true
    → accepts_logic c' ≡ true
unfolding accepts_logic
accepts_logic-same same h = rw (same.kind, same.storage) h

accepts_logic-acceptable :
    (c : ChannelInfo) → accepts_logic c ≡ true → (is_state c.kind || c.integer_storage) ≡ true
unfolding accepts_logic
accepts_logic-acceptable c h = ground arith

add_lanes-nil :
    (by_path : ByPath) (p : LogicAnalyserPanel) (report : ApplyReport)
    → add_lanes by_path [] p report ≡ (p, report)
unfolding add_lanes
add_lanes-nil by_path p report = refl

add_lanes-found :
    (by_path : ByPath) (ls : LogicLaneSpec) (lanes : List LogicLaneSpec) (p : LogicAnalyserPanel)
    (report : ApplyReport) (info : ChannelInfo)
    → text_get ls.ch_path by_path ≡ some info
    → (is_state info.kind || info.integer_storage) ≡ true
    → add_lanes by_path (ls ∷ lanes) p report ≡ add_lanes by_path lanes (add_lane ls info p) report
unfolding add_lanes
add_lanes-found by_path ls lanes p report info f a = rw (f, add_lanes) (rw (a, add_lanes) refl)

module _ (r : Reopening) (title : Text) where
  abbrev panel : List LogicLane → LogicAnalyserPanel
  panel lanes = record { title = title; lanes = map (restored_lane r) lanes }

  add_lanes-restored :
      (passed lanes : List LogicLane) (report : ApplyReport)
      → All (IsLaneSaved r) lanes
      → IsPart r (chs passed) (chs lanes)
      → add_lanes r.by_path (filter_map (save_lane r.by_id) lanes) (panel passed) report
        ≡ (panel (passed ++ lanes), report)
  add_lanes-restored passed [] report ks p =
      add_lanes-nil r.by_path (panel passed) report
      ∙ ap (λ ls. (panel ls, report)) (sym (append-nil passed))
  add_lanes-restored passed (l ∷ lanes) report ks p =
      let k = ks.0.known in
      let ls : LogicLaneSpec = record { ch_path = k.before.path; radix = l.radix; mode = l.mode } in
      let next : IsPart r (chs (passed ++ (l ∷ []))) (chs lanes) =
        rw (chs-append passed (l ∷ [])) (IsPart-next p) in
      let saved : save_lane r.by_id l ≡ some ls = rw (path_of-IsKnown k, save_lane) refl in
      let fresh : set_has (chs (panel passed).lanes) k.after.id ≡ false =
        rw (chs-restored r passed, k.same.id_eq) (IsPart-ren_new p) in
      let accepted : accepts_logic k.after ≡ true = accepts_logic-same k.same ks.0.accepted in
      let mode : restored_mode l.mode k.after ≡ l.mode = rw (k.same.kind, ks.0.labelled) refl in
      let moved : map (restored_lane r) passed
            ++ (record { ch = k.after.id; mode = l.mode; radix = l.radix } ∷ [])
          ≡ map (restored_lane r) (passed ++ (l ∷ [])) =
        rw k.same.id_eq (sym (map-append (restored_lane r) passed (l ∷ []))) in
      let added = add_lane-new ls k.after (panel passed) accepted fresh mode in
      rw (filter_map-some (save_lane r.by_id) l lanes saved) (
        add_lanes-found r.by_path ls (filter_map (save_lane r.by_id) lanes) (panel passed) report
          k.after k.found (accepts_logic-acceptable k.after accepted)
        ∙ ap (λ q. add_lanes r.by_path (filter_map (save_lane r.by_id) lanes) q report)
            (added ∙ ap (λ ls. record { title = title; lanes = ls }) moved)
        ∙ add_lanes-restored (passed ++ (l ∷ [])) lanes report ks.1 next
        ∙ ap (λ ls. (panel ls, report)) (append_assoc passed (l ∷ []) lanes))

lanes_known :
    (r : Reopening) (lanes : List LogicLane) → All (IsLaneSaved r) lanes → AllKnown r (chs lanes)
lanes_known r [] ks = tt
lanes_known r (l ∷ lanes) ks = (ks.0.known, lanes_known r lanes ks.1)

-- The analyser is restored with its title and its lanes in order, each with its radix and mode;
-- nothing is missing.
pub apply_spec-logic :
    {F : Type 0} (r : Reopening) (channels : List ChannelInfo) (p : LogicAnalyserPanel)
    (st : Applying F)
    → Separates r
    → IsLogicSaved r p
    → apply_spec r.by_path channels (spec_from_kind r.by_id (logic_analyser p)) st
      ≡ push_plot st (logic_analyser (restored_logic r p)) st.report
unfolding new apply_spec spec_from_kind
apply_spec-logic r channels p st sep saved =
    let part = IsPart-start sep (lanes_known r p.lanes saved.lanes) saved.distinct in
    rw (add_lanes-restored r p.title [] p.lanes st.report saved.lanes part) refl
