-- ===== src/View/Layout/Restored/Scalar.antt =====
-- viewer/crates/btelem-viewer/src/layout.rs: a scalar plot that is saved and restored.
use btelem.View.Registry.{scalar_plot}
use btelem.View.Layout.Apply.{Applying, apply_spec, push_plot}
use mathlib.Core.List.{map-append}
use btelem.Prelude.{
  ◌≡◌, refl, ◌∙◌, ap, true, false, List, [], ◌∷◌, ◌++◌, Text, map, filter_map, All, All-weaken,
  append_assoc, append-nil, set_has, Distinct, filter_map-some,
}
use btelem.Store.{ChannelId, ChannelInfo}
use btelem.View.Panels.{ScalarPanel, SignalStyle, is_scalar}
use btelem.View.ScalarPanel.{add, inherit, style_for_mut, new}
use btelem.View.Layout.{ApplyReport}
use btelem.View.Layout.Capture.{path_of, spec_from_kind}
use btelem.View.Layout.Resolve.{add_scalars, add_styles}
use btelem.View.Layout.Renaming.{
  Reopening, IsKnown, Separates, AllKnown, IsPart, IsPart-next, IsPart-ren_new, IsPart-start,
  path_of-IsKnown,
}
use btelem.View.Layout.Restored.Entries.{
  keys, map_insert-new, keys-append, saved_entry, restored_entry, keys-restored,
  path_or_default-IsKnown, save_entries-saved,
}

-- A known channel that is a scalar.
abbrev pub KnownScalar : Reopening → ChannelId → Type 0
KnownScalar r id = (k : IsKnown r id) × (is_scalar k.before.kind ≡ true)

-- What a scalar plot must be for its layout to hold all of it: its channels are known scalars, and
-- neither a channel nor a style comes twice.
pub record IsScalarSaved (r : Reopening) (p : ScalarPanel) : Type 0 where
  pub channels : All (KnownScalar r) p.channels
  pub distinct : Distinct p.channels
  pub styles : AllKnown r (keys p.styles)
  pub styles_distinct : Distinct (keys p.styles)

-- The plot under the new ids; a layout does not keep the selection.
abbrev pub restored_scalar : Reopening → ScalarPanel → ScalarPanel
restored_scalar r p = record {
  title = p.title;
  channels = map r.ren p.channels;
  styles = map (restored_entry r) p.styles;
  selected_signals = [];
}

inherit-nil : (id : ChannelId) (ids : List ChannelId) → inherit id ids [] ≡ []
inherit-nil id [] = refl
inherit-nil id (first ∷ rest) = refl

module _ (r : Reopening) (title : Text) where
  abbrev panel : List ChannelId → ScalarPanel
  panel ids = record { title = title; channels = map r.ren ids; styles = []; selected_signals = [] }

  pub add_scalars-restored :
      (passed ids : List ChannelId) (report : ApplyReport)
      → All (KnownScalar r) ids
      → IsPart r passed ids
      → add_scalars r.by_path (filter_map (path_of r.by_id) ids) (panel passed) report
        ≡ (panel (passed ++ ids), report)
  unfolding add_scalars add
  add_scalars-restored passed [] report ks p = rw append-nil refl
  add_scalars-restored passed (id ∷ ids) report ks p =
      let k = ks.0.0 in
      rw
        (
          filter_map-some (path_of r.by_id) id ids (path_of-IsKnown k),
          k.found,
          add_scalars,
          k.same.kind,
          ks.0.1,
          k.same.id_eq,
          IsPart-ren_new p,
          inherit-nil (r.ren id) (map r.ren passed),
          ← map-append r.ren passed (id ∷ []),
        )
        (add_scalars-restored (passed ++ (id ∷ [])) ids report ks.1 (IsPart-next p)
          ∙ ap (λ ids. (panel ids, report)) (append_assoc passed (id ∷ []) ids))

  add_styles-restored :
      (ids : List ChannelId) (done rest : List (ChannelId × SignalStyle))
      → IsPart r (keys done) (keys rest)
      → add_styles r.by_path false
          (map (saved_entry r (λ st. st)) rest)
          (record (panel ids) { styles = map (restored_entry r) done })
        ≡ record (panel ids) { styles = map (restored_entry r) (done ++ rest) }
  unfolding add_styles style_for_mut
  add_styles-restored ids done [] p = rw append-nil refl
  add_styles-restored ids done ((id, style) ∷ rest) p =
      let k = p.ahead_known.0 in
      let next : IsPart r (keys (done ++ ((id, style) ∷ []))) (keys rest) =
        rw (keys-append done ((id, style) ∷ [])) (IsPart-next p) in
      let fresh : set_has (keys (map (restored_entry r) done)) (r.ren id) ≡ false =
        rw (keys-restored r done) (IsPart-ren_new p) in
      rw
        (
          path_or_default-IsKnown k,
          k.found,
          k.same.id_eq,
          map_insert-new (r.ren id) style (map (restored_entry r) done) fresh,
          ← map-append (restored_entry r) done ((id, style) ∷ []),
        )
        (add_styles-restored ids (done ++ ((id, style) ∷ [])) rest next
          ∙ ap (λ es. record (panel ids) { styles = map (restored_entry r) es })
              (append_assoc done ((id, style) ∷ []) rest))

-- The plot is restored with its title, its channels in order and its styles; nothing is missing.
pub apply_spec-scalar :
    {F : Type 0} (r : Reopening) (channels : List ChannelInfo) (p : ScalarPanel) (st : Applying F)
    → Separates r
    → IsScalarSaved r p
    → apply_spec r.by_path channels (spec_from_kind r.by_id (scalar_plot p)) st
      ≡ push_plot st (scalar_plot (restored_scalar r p)) st.report
unfolding new apply_spec spec_from_kind
apply_spec-scalar r channels p st sep saved =
    let ks : AllKnown r p.channels =
      All-weaken (KnownScalar r) p.channels (λ id k. k.0) saved.channels in
    let part = IsPart-start sep saved.styles saved.styles_distinct in
    rw
      (
        add_scalars-restored r p.title [] p.channels st.report saved.channels
            (IsPart-start sep ks saved.distinct),
        save_entries-saved (λ st. st) [] p.styles part,
        add_styles-restored r p.title p.channels [] p.styles part,
      )
      refl
