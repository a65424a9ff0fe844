-- ===== src/Store/Tests.antt =====
-- viewer/crates/btelem-store: the theorems at small stores.
use btelem.Prelude.{
  ℕ, ◌+◌, ◌-◌, ◌≤◌, ◌<◌, ◌≡◌, refl, ◌⊎◌, true, List, [], ◌∷◌, some, none, codes, arith, length,
  retain,
}
use btelem.Prelude.Int.{ℤ, pos, negsuc, pos_part, neg_part}
use btelem.Float.{whole}
use btelem.Store.Types.{Timestamp}
use btelem.Store.Mock.{Inner, empty, add_scalar, add_state, push_scalar, bump}
use btelem.Store.Mock.Invariant.{
  IsAligned, Reach, new, next, adds_scalar, pushes_scalar, SameData, Reach-IsAligned, Step-revision,
}
use btelem.Store.Query.{query_raw, query_state, opt_map, bucket_index, is_pos, scalar_buckets}
use btelem.Store.Query.Window.{in_window, Sub, query_raw-window}
use btelem.Store.Query.Buckets.{OrderLaws, AllCovered, IndexLaws, scalar_buckets-AllCovered}
use btelem.Store.Sample.{sample_at}
use btelem.Store.Sample.Runs.{InOrder, latest, spanning}
use btelem.Store.Sample.Channel.{push_states, sample_at-push_states}

abbrev one_channel : Inner ℤ
one_channel = (add_scalar empty (codes "imu.x")).0

one_channel-Reach : Reach one_channel
one_channel-Reach = next new (adds_scalar empty (codes "imu.x"))

Reach-IsAligned_example : IsAligned (push_scalar one_channel 0 5 (pos 7))
Reach-IsAligned_example =
    Reach-IsAligned (next one_channel-Reach (pushes_scalar one_channel 0 5 (pos 7)))

Step-revision_example :
    ((push_scalar one_channel 0 5 (pos 7)).revision ≡ bump one_channel.revision)
    ⊎ SameData one_channel (push_scalar one_channel 0 5 (pos 7))
Step-revision_example = Step-revision (pushes_scalar one_channel 0 5 (pos 7))

-- A push to a channel that is there bumps the revision.
push_scalar_revision : (push_scalar one_channel 0 5 (pos 7)).revision ≡ 2
unfolding add_scalar push_scalar
push_scalar_revision = refl

abbrev four_samples : List (Timestamp × ℤ)
four_samples = (10, pos 1) ∷ (20, pos 5) ∷ (30, negsuc 2) ∷ (40, pos 2) ∷ []

abbrev filled : Inner ℤ
filled = record {
  channels = [];
  scalars = four_samples ∷ [];
  states = [];
  texts = [];
  revision = 0;
  word_to_bits = [];
}

query_raw-window_example :
    (length (query_raw filled 0 15 45 2) ≤ 2)
    × Sub (query_raw filled 0 15 45 2) (retain (in_window 15 45) four_samples)
    × ((query_raw filled 0 15 45 2 ≡ retain (in_window 15 45) four_samples)
        ⊎ (2 < length (retain (in_window 15 45) four_samples)))
query_raw-window_example =
    query_raw-window filled 0 15 45 2 four_samples refl
      (omega arith, (omega arith, (omega arith, (omega arith, tt)))) (omega arith) (omega arith)

abbrev LeZ : ℤ → ℤ → Type 0
LeZ a b = pos_part a + neg_part b ≤ pos_part b + neg_part a

LeZ-refl : (a : ℤ) → LeZ a a
LeZ-refl a = omega arith

LeZ-trans : (a b c : ℤ) → LeZ a b → LeZ b c → LeZ a c
LeZ-trans a b c p q = omega (arith, p, q)

whole-fmin : (a b : ℤ) → LeZ (whole.fmin a b) a × LeZ (whole.fmin a b) b
unfolding whole
whole-fmin a b = ground arith

whole-fmax : (a b : ℤ) → LeZ a (whole.fmax a b) × LeZ b (whole.fmax a b)
unfolding whole
whole-fmax a b = ground arith

abbrev whole-OrderLaws : OrderLaws whole
whole-OrderLaws = record {
  Le = LeZ;
  le_refl = λ a. LeZ-refl a;
  le_trans = λ a b c p q. LeZ-trans a b c p q;
  fmin_left = λ a b. (whole-fmin a b).0;
  fmin_right = λ a b. (whole-fmin a b).1;
  fmax_left = λ a b. (whole-fmax a b).0;
  fmax_right = λ a b. (whole-fmax a b).1;
}

index-is_pos :
    (t : Timestamp)
    → is_pos (bucket_index whole 10 (whole.div (whole.of_u64 (50 - 10)) (whole.of_u64 2)) t) ≡ true
unfolding whole
index-is_pos t = ground arith

scalar_buckets-AllCovered_example :
    AllCovered whole whole-OrderLaws four_samples (scalar_buckets whole four_samples 10 50 2)
scalar_buckets-AllCovered_example =
    scalar_buckets-AllCovered whole whole-OrderLaws four_samples 10 50 2 index-is_pos

index-IndexLaws :
    IndexLaws (bucket_index whole 10 (whole.div (whole.of_u64 (50 - 10)) (whole.of_u64 2))) 50 2
unfolding whole
index-IndexLaws = record {
  nonneg = index-is_pos;
  mono = λ s t h. ground (arith, h);
  below = λ t h. ground (arith, h);
}

abbrev switched : List (Timestamp × ℕ)
switched = (5, 0) ∷ (9, 1) ∷ (12, 1) ∷ (20, 3) ∷ []

switched-InOrder : InOrder 0 switched
switched-InOrder = (omega arith, (omega arith, (omega arith, (omega arith, tt))))

-- The value at 15 is the one that was observed at 9 and 12.
latest_at_15 : latest none switched 15 ≡ some 1
unfolding latest
latest_at_15 = refl

sample_at-push_states_example :
    let g = (add_state one_channel (codes "motor.mode") (codes "off" ∷ codes "on" ∷ [])).0 in
    let full = push_states g 1 switched in
    (sample_at whole full 1 15 ≡ opt_map whole.of_u64 (latest none switched 15))
    × (spanning (query_state full 1 3 30) 15 ≡ latest none switched 15)
unfolding add_scalar add_state
sample_at-push_states_example =
    sample_at-push_states whole one_channel (codes "motor.mode") (codes "off" ∷ codes "on" ∷ [])
      switched 15 3 30 (Reach-IsAligned one_channel-Reach) (omega arith) switched-InOrder
      (omega arith) (omega arith) (omega arith)
