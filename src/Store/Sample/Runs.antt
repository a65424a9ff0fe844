-- ===== src/Store/Sample/Runs.antt =====
-- viewer/crates/btelem-store/src/mock.rs: the runs of a state channel against the observations that
-- were pushed.
use btelem.Prelude.{
  ℕ, suc, ◌-◌, ◌≤◌, ◌<◌, ◌≡◌, ◌≢◌, refl, ◌∙◌, ap, sym, ◌&&◌, List, [], ◌∷◌, Option, none, some,
  arith, length, ltb, leb, if◌then◌else◌, Bool-cases, leb→le, inl, inr,
}
use btelem.Store.Types.{Timestamp, StateRun, u64_max}
use btelem.Store.Mock.{push_run}
use btelem.Store.Query.{partition_point, held_runs, runs_between}
use btelem.Store.Sample.{run_at}

-- The runs of a channel that is observed up to `now`: each ends where the next one starts, and no
-- two neighbours have one value.
abbrev pub IsChain : List StateRun → Timestamp → Type 0
IsChain [] now = Unit {0}
IsChain (r ∷ []) now = (r.t_start ≤ r.t_end) × (r.t_end ≤ now)
IsChain (r ∷ r' ∷ rs) now =
    (r.t_start ≤ r.t_end) × (r.t_end ≡ r'.t_start) × (r.value ≢ r'.value) × IsChain (r' ∷ rs) now

-- The run that holds at `t`, by comparing starts.
abbrev pub held_at : List StateRun → Timestamp → Option ℕ
held_at [] t = none
held_at (r ∷ []) t = if leb r.t_start t then some r.value else none
held_at (r ∷ r' ∷ rs) t =
    if leb r'.t_start t then held_at (r' ∷ rs) t else if leb r.t_start t then some r.value else none

pub run_at-held_at :
    (rs : List StateRun) (now t : Timestamp)
    → IsChain rs now
    → t < u64_max
    → run_at rs t ≡ held_at rs t
unfolding run_at partition_point
run_at-held_at [] now t c h = refl
run_at-held_at (r ∷ []) now t c h = ground arith
run_at-held_at (r ∷ r' ∷ rs) now t c h = ground (arith, run_at-held_at (r' ∷ rs) now t c.3 h)

push_run-IsChain :
    (rs : List StateRun) (now t : Timestamp) (v : ℕ)
    → IsChain rs now
    → now ≤ t
    → IsChain (push_run rs t v) t
unfolding push_run
push_run-IsChain [] now t v c h = omega arith
push_run-IsChain (r ∷ []) now t v c h = ground arith
push_run-IsChain (r ∷ r' ∷ []) now t v c h = ground arith
push_run-IsChain (r ∷ r' ∷ r'' ∷ rs) now t v c h =
    (c.0, c.1, c.2, push_run-IsChain (r' ∷ r'' ∷ rs) now t v c.3 h)

held_at-push_run :
    (rs : List StateRun) (now s t : Timestamp) (v : ℕ)
    → IsChain rs now
    → now ≤ s
    → held_at (push_run rs s v) t ≡ (if leb s t then some v else held_at rs t)
unfolding push_run
held_at-push_run [] now s t v c h = refl
held_at-push_run (r ∷ []) now s t v c h = ground arith
held_at-push_run (r ∷ r' ∷ []) now s t v c h = ground arith
held_at-push_run (r ∷ r' ∷ r'' ∷ rs) now s t v c h =
    ground (arith, held_at-push_run (r' ∷ r'' ∷ rs) now s t v c.3 h)

-- The observations of a channel, in the order in which they were pushed.
unfoldable pub observe : List StateRun → List (Timestamp × ℕ) → List StateRun
unfolding push_run
observe runs [] = runs
observe runs ((t, v) ∷ obs) = observe (push_run runs t v) obs

-- No observation is earlier than the one before it, nor than `now`.
abbrev pub InOrder : Timestamp → List (Timestamp × ℕ) → Type 0
InOrder now [] = Unit {0}
InOrder now ((t, v) ∷ obs) = (now ≤ t) × InOrder t obs

-- The value of the last observation at or before `t`.
unfoldable pub latest : Option ℕ → List (Timestamp × ℕ) → Timestamp → Option ℕ
latest d [] t = d
latest d ((s, v) ∷ obs) t = latest (if leb s t then some v else d) obs t

observe-latest :
    (rs : List StateRun) (obs : List (Timestamp × ℕ)) (now t : Timestamp) (d : Option ℕ)
    → IsChain rs now
    → InOrder now obs
    → t < u64_max
    → held_at rs t ≡ d
    → run_at (observe rs obs) t ≡ latest d obs t
unfolding observe latest
observe-latest rs [] now t d c o h e = run_at-held_at rs now t c h ∙ e
observe-latest rs ((s, v) ∷ obs) now t d c o h e =
    observe-latest (push_run rs s v) obs s t (if leb s t then some v else d)
      (push_run-IsChain rs now s v c o.0) o.1 h
      (held_at-push_run rs now s t v c o.0 ∙ ap (λ x. if leb s t then some v else x) e)

-- The runs that observations in time order leave hold, at any `t` before the last instant of `u64`, the
-- value that was observed last at or before `t`, and nothing before the first observation.
pub run_at-observe :
    (obs : List (Timestamp × ℕ)) (t : Timestamp)
    → InOrder 0 obs
    → t < u64_max
    → run_at (observe [] obs) t ≡ latest none obs t
run_at-observe obs t o h = observe-latest [] obs 0 t none tt o h refl

pub observe-IsChain :
    (rs : List StateRun) (obs : List (Timestamp × ℕ)) (now : Timestamp)
    → IsChain rs now
    → InOrder now obs
    → (end : Timestamp) × IsChain (observe rs obs) end
unfolding observe
observe-IsChain rs [] now c o = (now, c)
observe-IsChain rs ((s, v) ∷ obs) now c o =
    observe-IsChain (push_run rs s v) obs s (push_run-IsChain rs now s v c o.0) o.1

-- The value of the first of the runs that spans `t`.
unfoldable pub spanning : List StateRun → Timestamp → Option ℕ
spanning [] t = none
spanning (r ∷ rs) t = if leb r.t_start t && ltb t r.t_end then some r.value else spanning rs t

-- Every run but the last is unchanged, so what spans `t` is what holds at `t`.
spanning-held_runs :
    (rs : List StateRun) (now t t1 : Timestamp)
    → IsChain rs now
    → t < t1
    → t < u64_max
    → spanning (held_runs t1 rs) t ≡ held_at rs t
unfolding spanning held_runs
spanning-held_runs [] now t t1 c h m = refl
spanning-held_runs (r ∷ []) now t t1 c h m = ground arith
spanning-held_runs (r ∷ r' ∷ rs) now t t1 c h m =
    ground (arith, spanning-held_runs (r' ∷ rs) now t t1 c.3 h m)

pub runs_between_step :
    (r r' : StateRun) (rs : List StateRun) (t0 t1 : Timestamp)
    → runs_between (r ∷ r' ∷ rs) t0 t1
      ≡ (if leb r.t_end t0 then runs_between (r' ∷ rs) t0 t1 else held_runs t1 (r ∷ r' ∷ rs))
unfolding runs_between partition_point
runs_between_step r r' rs t0 t1 =
    let two : suc (suc (length rs)) - 1 ≡ suc (length rs) = omega arith in
    let one : suc (length rs) - 1 ≡ length rs = omega arith in
    rw (two, one) (elim (Bool-cases (leb r.t_end t0)) [ inl e ↦ rw e refl | inr e ↦ rw e refl ])

spanning-runs_between :
    (rs : List StateRun) (now t t0 t1 : Timestamp)
    → IsChain rs now
    → t0 ≤ t
    → t < t1
    → t < u64_max
    → spanning (runs_between rs t0 t1) t ≡ held_at rs t
unfolding runs_between partition_point
spanning-runs_between [] now t t0 t1 c l h m = unfold spanning held_runs in refl
spanning-runs_between (r ∷ []) now t t0 t1 c l h m = spanning-held_runs (r ∷ []) now t t1 c h m
spanning-runs_between (r ∷ r' ∷ rs) now t t0 t1 c l h m = elim (Bool-cases (leb r.t_end t0)) [
  | inl past ↦
      rw (runs_between_step r r' rs t0 t1, past)
        (spanning-runs_between (r' ∷ rs) now t t0 t1 c.3 l h m
          ∙ later (omega (arith, leb→le r.t_end t0 past, c.1)))
  | inr here ↦
      rw (runs_between_step r r' rs t0 t1, here) (spanning-held_runs (r ∷ r' ∷ rs) now t t1 c h m)
]
  where
    later : r'.t_start ≤ t → held_at (r' ∷ rs) t ≡ held_at (r ∷ r' ∷ rs) t
    later e = ground arith

-- The runs between two times, cut out of those that observations in time order leave, agree with the
-- observations on every time between them before the last instant of `u64`: the returned run that
-- spans `t` carries the value observed last at or before `t`, and no returned run spans a time
-- before the first observation.
pub spanning-observe :
    (obs : List (Timestamp × ℕ)) (t t0 t1 : Timestamp)
    → InOrder 0 obs
    → t0 ≤ t
    → t < t1
    → t < u64_max
    → spanning (runs_between (observe [] obs) t0 t1) t ≡ latest none obs t
spanning-observe obs t t0 t1 o l h m =
    let (end, c) = observe-IsChain [] obs 0 tt o in
    spanning-runs_between (observe [] obs) end t t0 t1 c l h m
    ∙ sym (run_at-held_at (observe [] obs) end t c m)
    ∙ run_at-observe obs t o m
