-- ===== src/View/Layout/Restored/Xy.antt =====
-- viewer/crates/btelem-viewer/src/layout.rs: an XY plot that is saved and restored.
use btelem.View.Panels.{is_scalar}
use btelem.Prelude.{◌≡◌, refl, List, some, true, ap}
use btelem.Store.{ChannelInfo, ChannelId}
use btelem.View.Registry.{XyPlot, xy}
use btelem.View.Layout.Capture.{spec_from_kind}
use btelem.View.Layout.Apply.{Applying, push_plot, apply_spec, is_scalar_channel, push_xy}
use btelem.View.Layout.Renaming.{Reopening}
use btelem.View.Layout.Restored.Entries.{path_or_default-IsKnown}
use btelem.View.Layout.Restored.Scalar.{KnownScalar}

pub record IsXySaved (r : Reopening) (p : XyPlot) : Type 0 where
  pub x : KnownScalar r p.x
  pub y : KnownScalar r p.y

abbrev pub restored_xy : Reopening → XyPlot → XyPlot
restored_xy r p = record p { x = r.ren p.x; y = r.ren p.y }

scalar_channel-known :
    {r : Reopening} (id : ChannelId) (k : KnownScalar r id)
    → is_scalar_channel (some k.0.after) ≡ some (r.ren id)
scalar_channel-known id k =
    let scalar : is_scalar k.0.after.kind ≡ true = rw k.0.same.kind k.1 in
    rw (scalar, is_scalar_channel) (ap some k.0.same.id_eq)

-- The plot is restored with its title, its two channels and its trail.
pub apply_spec-xy :
    {F : Type 0} (r : Reopening) (channels : List ChannelInfo) (p : XyPlot) (st : Applying F)
    → IsXySaved r p
    → apply_spec r.by_path channels (spec_from_kind r.by_id (xy p)) st
      ≡ push_plot st (xy (restored_xy r p)) st.report
unfolding apply_spec spec_from_kind
apply_spec-xy r channels p st saved =
    let kx = saved.x.0 in
    let ky = saved.y.0 in
    rw (path_or_default-IsKnown kx, path_or_default-IsKnown ky, kx.found, ky.found)
      (rw (scalar_channel-known p.x saved.x, push_xy)
        (rw (scalar_channel-known p.y saved.y, push_xy) refl))
