-- ===== src/Store/Sample/Channel.antt =====
-- viewer/crates/btelem-store/src/mock.rs: a state channel from its registration on, through the
-- methods of the store.
use btelem.Prelude.{
  ℕ, zero, suc, ◌%◌, ◌^◌, ◌≤◌, ◌<◌, ◌≡◌, true, List, [], ◌∷◌, ◌++◌, none, some, Text, arith, length,
  get_elem?, get_or, get_elem?-set_self,
}
use btelem.Float.{Float}
use btelem.Store.Types.{ChannelId, Timestamp, ChannelInfo, StateRun, u64_max, state}
use btelem.Store.Mock.{Inner, add_state, push_state, push_run}
use btelem.Store.Mock.Invariant.{IsAligned}
use btelem.Store.Query.{query_state, opt_map}
use btelem.Store.Sample.{sample_at}
use btelem.Store.Sample.Runs.{InOrder, latest, observe, run_at-observe, spanning, spanning-observe}

get_elem?-lt {ℓ} :
    {A : Type ℓ} (xs : List A) (i : ℕ) {a : A} → get_elem? xs i ≡ some a → i < length xs
get_elem?-lt [] i e = absurd (cc e)
get_elem?-lt (x ∷ xs) zero e = omega arith
get_elem?-lt (x ∷ xs) (suc i) e = omega (arith, get_elem?-lt xs i e)

get_elem?-last {ℓ} :
    {A : Type ℓ} (xs : List A) (a : A) (i : ℕ)
    → i ≡ length xs
    → get_elem? (xs ++ (a ∷ [])) i ≡ some a
get_elem?-last [] a i e = rw e
get_elem?-last (x ∷ xs) a zero e = absurd (omega arith)
get_elem?-last (x ∷ xs) a (suc i) e = get_elem?-last xs a i (omega arith)

get_or-some {ℓ} :
    {A : Type ℓ} (xs : List A) (i : ℕ) (d : A) {a : A} → get_elem? xs i ≡ some a → get_or xs i d ≡ a
get_or-some [] i d e = absurd (cc e)
get_or-some (x ∷ xs) zero d e = cc e
get_or-some (x ∷ xs) (suc i) d e = get_or-some xs i d e

module _ {F : Type 0} where
  -- `push_state` for each of the observations.
  unfoldable pub push_states : Inner F → ChannelId → List (Timestamp × ℕ) → Inner F
  push_states g ch [] = g
  push_states g ch ((t, v) ∷ obs) = push_states (push_state g ch t v) ch obs

  -- The channel and its runs, as the methods find them.
  record Holds (g : Inner F) (ch : ChannelId) (info : ChannelInfo) (found : List StateRun)
      : Type 0 where
    channel : get_elem? g.channels ch ≡ some info
    runs : get_elem? g.states ch ≡ some found

  push_states-Holds :
      (g : Inner F) (ch : ChannelId) (info : ChannelInfo) (runs : List StateRun)
      (obs : List (Timestamp × ℕ))
      → Holds g ch info runs
      → Holds (push_states g ch obs) ch info (observe runs obs)
  unfolding push_states observe push_state
  push_states-Holds g ch info runs [] h = h
  push_states-Holds g ch info runs ((t, v) ∷ obs) h =
      push_states-Holds (push_state g ch t v) ch info (push_run runs t v) obs (record {
        channel = rw (h.runs, push_state) h.channel;
        runs =
            rw (h.runs, push_state)
              (get_elem?-set_self g.states ch (push_run runs t v)
                (get_elem?-lt g.states ch h.runs));
      })

  add_state-Holds :
      (g : Inner F) (path : Text) (labels : List Text)
      → IsAligned g
      → length g.channels < 2 ^ 32
      → Holds
          (add_state g path labels).0
          (add_state g path labels).1
          (record {
            id = length g.channels % 2 ^ 32;
            path = path;
            kind = state labels;
            integer_storage = true;
          })
          []
  unfolding add_state
  add_state-Holds g path labels a small = record {
    channel = get_elem?-last g.channels _ _ (omega arith);
    runs = get_elem?-last g.states [] _ (omega (arith, a.states));
  }

  -- A state channel that is added to an aligned store of fewer than 2^32 channels, after
  -- observations in time order: `sample_at` gives at any `t` before the last instant of `u64`
  -- the value observed last at or before `t`, and nothing before the first observation; and the
  -- run of `query_state` that spans `t`, for any range around `t`, has the same value.
  pub sample_at-push_states :
      (fl : Float F) (g : Inner F) (path : Text) (labels : List Text) (obs : List (Timestamp × ℕ))
      (t t0 t1 : Timestamp)
      → IsAligned g
      → length g.channels < 2 ^ 32
      → InOrder 0 obs
      → t < u64_max
      → t0 ≤ t
      → t < t1
      → let (g', ch) = add_state g path labels in
        let filled = push_states g' ch obs in
        (sample_at fl filled ch t ≡ opt_map fl.of_u64 (latest none obs t))
        × (spanning (query_state filled ch t0 t1) t ≡ latest none obs t)
  unfolding sample_at query_state
  sample_at-push_states fl g path labels obs t t0 t1 a small o m l h =
      let (g', ch) = add_state g path labels in
      let filled = push_states g' ch obs in
      let held = push_states-Holds g' ch _ [] obs (add_state-Holds g path labels a small) in
      let found = get_or-some filled.states ch [] held.runs in
      (
        rw (held.channel, sample_at) (rw (found, run_at-observe obs t o m)),
        rw (held.runs, query_state) (spanning-observe obs t t0 t1 o l h m),
      )
