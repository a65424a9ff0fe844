-- ===== src/View/Registry/Moves.antt =====
-- viewer/crates/btelem-viewer/src/view_state.rs: what `try_move_channel` does to the plots.
use btelem.Prelude.{
  ℕ, ◌≡◌, ◌≢◌, refl, sym, ap, ◌∙◌, subst, inl, inr, Bool, true, false, not, List, [], ◌∷◌, ◌++◌,
  Option, none, some, arith, ◌==◌, ==_refl, if◌then◌else◌, any, retain, map, set_has, ◌||◌,
  map_get-map_insert, Bool-cases, Option-cases,
}
use mathlib.Core.List.{map-append}
use btelem.Store.{ChannelId, ChannelInfo}
use btelem.View.Panels.{
  LabelRadix, LogicLane, ScalarPanel, LogicAnalyserPanel, is_scalar, accepts_logic, contains,
}
use btelem.View.ScalarPanel as ScalarMethods
use btelem.View.LogicPanel
use btelem.View.Registry.{
  PlotKind, scalar_plot, logic_analyser, log_view, xy, PlotId, PlotRegistry, accepts, get, update,
  set_radix_if, receive, give_up, try_move_channel,
}

-- The channels of a plot, in order: the signals of a scalar plot, the lanes of a logic analyser, the
-- columns of a log view, the two axes of an XY plot.
abbrev pub listed : {F : Type 0} → PlotKind F → List ChannelId
listed (scalar_plot p) = p.channels
listed (logic_analyser p) = map (λ l. l.ch) p.lanes
listed (log_view p) = p.columns
listed (xy p) = p.x ∷ p.y ∷ []

abbrev pub is_xy : {F : Type 0} → PlotKind F → Bool
is_xy (xy p) = true
is_xy _ = false

-- A move takes a channel only out of the plots that hold a list of signals or lanes.
abbrev pub is_panel : {F : Type 0} → PlotKind F → Bool
is_panel (scalar_plot p) = true
is_panel (logic_analyser p) = true
is_panel _ = false

-- The channels of the target of a move, and of its source.
abbrev pub with_arrived : {F : Type 0} → ChannelId → PlotKind F → List ChannelId
with_arrived ch k = if is_xy k || set_has (listed k) ch then listed k else listed k ++ (ch ∷ [])

abbrev pub without_left : {F : Type 0} → ChannelId → PlotKind F → List ChannelId
without_left ch k = if is_panel k then retain (λ x. not (x == ch)) (listed k) else listed k

==_ne : (a b : ℕ) → a ≢ b → (a == b) ≡ false
==_ne a b h = ground (arith, h)

==_swap : (a b : ℕ) → (a == b) ≡ false → (b == a) ≡ false
==_swap a b h = ground (arith, h)

module _ {A : Type 0} (id : A → ℕ) (k : ℕ) where
  any-map : (xs : List A) → any (λ x. id x == k) xs ≡ set_has (map id xs) k
  any-map [] = refl
  any-map (x ∷ xs) = elim (Bool-cases (id x == k)) [
    | inl e ↦ rw (e, any)
    | inr e ↦ rw (e, any) (any-map xs)
  ]

  map-retain :
      (xs : List A)
      → map id (retain (λ x. not (id x == k)) xs) ≡ retain (λ x. not (x == k)) (map id xs)
  map-retain [] = refl
  map-retain (x ∷ xs) = elim (Bool-cases (id x == k)) [
    | inl e ↦ rw (e, retain) (map-retain xs)
    | inr e ↦ rw (e, retain) (ap (◌∷◌ (id x)) (map-retain xs))
  ]

map-at_lane :
    (ch : ChannelId) (f : LogicLane → LogicLane)
    → ((l : LogicLane) → (f l).ch ≡ l.ch)
    → (ls : List LogicLane) → map (λ l. l.ch) (LogicPanel.at_lane ch f ls) ≡ map (λ l. l.ch) ls
map-at_lane ch f h [] = refl
map-at_lane ch f h (l ∷ ls) = elim (Bool-cases (l.ch == ch)) [
  | inl e ↦ rw (e, LogicPanel.at_lane) (ap (λ c. c ∷ map (λ l. l.ch) ls) (h l))
  | inr e ↦ rw (e, LogicPanel.at_lane) (ap (◌∷◌ l.ch) (map-at_lane ch f h ls))
]

listed_add :
    (p : ScalarPanel) (info : ChannelInfo)
    → is_scalar info.kind ≡ true
    → (ScalarMethods.add p info).0.channels
      ≡ (if set_has p.channels info.id then p.channels else p.channels ++ (info.id ∷ []))
unfolding ScalarMethods.add
listed_add p info h = elim (Bool-cases (contains p.channels info.id)) [
  | inl c ↦ rw (h, c, ScalarMethods.add)
  | inr c ↦ rw (h, c, ScalarMethods.add)
]

lane_added :
    (p : LogicAnalyserPanel) (info : ChannelInfo)
    → accepts_logic info ≡ true
    → let before = map (λ l. l.ch) p.lanes in
      map (λ l. l.ch) (LogicPanel.add p info).0.lanes
      ≡ (if set_has before info.id then before else before ++ (info.id ∷ []))
unfolding LogicPanel.add
lane_added p info h =
    let same = any-map (λ (l : LogicLane). l.ch) info.id p.lanes in
    elim (Bool-cases (any (λ l. l.ch == info.id) p.lanes)) [
      | inl c ↦ rw (h, c, LogicPanel.add, sym same ∙ c)
      | inr c ↦ rw (h, c, LogicPanel.add, sym same ∙ c) (map-append (λ l. l.ch) p.lanes _)
    ]

radix_keeps :
    (radix : Option LabelRadix) (ch : ChannelId) (p : LogicAnalyserPanel)
    → map (λ l. l.ch) (set_radix_if radix ch p).lanes ≡ map (λ l. l.ch) p.lanes
unfolding LogicPanel.set_radix
radix_keeps none ch p = refl
radix_keeps (some r) ch p = map-at_lane ch (λ l. record l { radix = r }) (λ l. refl) p.lanes

module _ {F : Type 0} where
  listed-receive :
      (info : ChannelInfo) (radix : Option LabelRadix) (k : PlotKind F)
      → accepts k info ≡ true
      → listed (receive info.id info radix k) ≡ with_arrived info.id k
  unfolding receive accepts
  listed-receive info radix (scalar_plot p) h = listed_add p info h
  listed-receive info radix (logic_analyser p) h = radix_keeps radix info.id _ ∙ lane_added p info h
  listed-receive info radix (log_view p) h = absurd (cc h)
  listed-receive info radix (xy p) h = refl

  listed-give_up : (ch : ChannelId) (k : PlotKind F) → listed (give_up ch k) ≡ without_left ch k
  unfolding give_up ScalarMethods.remove LogicPanel.remove
  listed-give_up ch (scalar_plot p) = refl
  listed-give_up ch (logic_analyser p) = map-retain (λ l. l.ch) ch p.lanes
  listed-give_up ch (log_view p) = refl
  listed-give_up ch (xy p) = refl

  get-update :
      (r : PlotRegistry F) (id j : PlotId) (f : PlotKind F → PlotKind F) (k : PlotKind F)
      → get r id ≡ some k
      → get (update r id f) j ≡ (if id == j then some (f k) else get r j)
  unfolding get update
  get-update r id j f k h = rw (h, update) (map_get-map_insert id j (f k) r.plots)

  get-update-none :
      (r : PlotRegistry F) (id : PlotId) (f : PlotKind F → PlotKind F)
      → get r id ≡ none
      → update r id f ≡ r
  unfolding get update
  get-update-none r id f h = rw (h, update)

  -- What a move that is reported did.
  pub record Moved (ch : ChannelId) (source dest : PlotId) (before after : PlotRegistry F)
      : Type 0 where
    pub target : PlotKind F
    pub target_before : get before dest ≡ some target
    pub target_after : PlotKind F
    pub target_is : get after dest ≡ some target_after
    pub arrived : listed target_after ≡ with_arrived ch target
    pub left :
        (k : PlotKind F)
        → get before source ≡ some k
        → (k' : PlotKind F) × (get after source ≡ some k') × (listed k' ≡ without_left ch k)
    pub absent : get before source ≡ none → get after source ≡ none
    pub others : (id : PlotId) → id ≢ source → id ≢ dest → get after id ≡ get before id

  get-update_self :
      (r : PlotRegistry F) (id : PlotId) (f : PlotKind F → PlotKind F) (k : PlotKind F)
      → get r id ≡ some k
      → get (update r id f) id ≡ some (f k)
  get-update_self r id f k h = get-update r id id f k h ∙ rw (==_refl id)

  get-update_other :
      (r : PlotRegistry F) (id j : PlotId) (f : PlotKind F → PlotKind F)
      → (id == j) ≡ false
      → get (update r id f) j ≡ get r j
  get-update_other r id j f ne = elim (Option-cases (get r id)) [
    | inl h ↦ ap (λ x. get x j) (get-update-none r id f h)
    | inr (k, h) ↦ get-update r id j f k h ∙ rw ne
  ]

  moves :
      (plots : PlotRegistry F) (from to : PlotId) (info : ChannelInfo) (radix : Option LabelRadix)
      (k : PlotKind F)
      → (from == to) ≡ false
      → get plots to ≡ some k
      → accepts k info ≡ true
      → Moved info.id from to plots
          (update (update plots to (receive info.id info radix)) from (give_up info.id))
  moves plots from to info radix k ne h a =
      let mid = update plots to (receive info.id info radix) in
      let mid_source : get mid from ≡ get plots from =
        get-update_other plots to from _ (==_swap from to ne) in
      record {
        target = k;
        target_before = h;
        target_after = receive info.id info radix k;
        target_is =
            get-update_other mid from to (give_up info.id) ne ∙ get-update_self plots to _ k h;
        arrived = listed-receive info radix k a;
        left = λ s e. (
          give_up info.id s,
          get-update_self mid from _ s (mid_source ∙ e),
          listed-give_up info.id s,
        );
        absent = λ e.
            ap (λ r. get r from) (get-update-none mid from _ (mid_source ∙ e)) ∙ mid_source ∙ e;
        others = λ id nf nt.
            get-update_other mid from id _ (==_ne from id (λ e. nf (sym e)))
            ∙ get-update_other plots to id _ (==_ne to id (λ e. nt (sym e)));
      }

  -- A move that is reported takes exactly that channel out of the source when that is a scalar plot or
  -- a logic analyser, and leaves the channels of any other source; the target has the channel added
  -- behind those that it had, unless it had it already or is an XY plot, whose two channels stay; no
  -- other plot changes.
  pub try_move_channel-Moved :
      (plots after : PlotRegistry F) (from to : PlotId) (info : ChannelInfo)
      (radix : Option LabelRadix)
      → try_move_channel plots from to info.id info radix ≡ (after, true)
      → Moved info.id from to plots after
  unfolding try_move_channel
  try_move_channel-Moved plots after from to info radix e = elim (Bool-cases (from == to)) [
    | inl h ↦ absurd (cc (ap (λ r. r.1) (rw (h, try_move_channel) at e)))
    | inr ne ↦ elim (Option-cases (get plots to)) [
      | inl h ↦ absurd (cc (ap (λ r. r.1) (rw (ne, h, try_move_channel) at e)))
      | inr (k, h) ↦ elim (Bool-cases (accepts k info)) [
        | inr a ↦ absurd (cc (ap (λ r. r.1) (rw (ne, h, a, try_move_channel) at e)))
        | inl a ↦
            subst (Moved info.id from to plots)
              (ap (λ r. r.0) (rw (ne, h, a, try_move_channel) at e))
              (moves plots from to info radix k ne h a)
      ]
    ]
  ]
