-- ===== src/Store/Mock.antt =====
-- viewer/crates/btelem-store/src/mock.rs: the state of a `MockStore`, the registration of channels
-- and the pushes. The lock makes each method one step, so a method is a function of the state that
-- it locks. A channel id is a `u32` and the revision a `u64`.
pub mod Invariant
use btelem.Prelude.{
  ℕ, zero, suc, ◌+◌, ◌%◌, ◌^◌, Bool, true, false, List, [], ◌∷◌, ◌++◌, Option, none, some, Text,
  ltb, ◌==◌, if◌then◌else◌, length, get_elem?, set, map_get, map_insert,
}
use btelem.Store.Types.{
  ChannelId, Timestamp, ChannelKind, ChannelInfo, StateRun, scalar, state, text,
}

pub record Inner (F : Type 0) : Type 0 where
  pub channels : List ChannelInfo
  pub scalars : List (List (Timestamp × F))
  pub states : List (List StateRun)
  pub texts : List (List (Timestamp × Text))
  pub revision : ℕ
  pub word_to_bits : List (ℕ × List ChannelId)

abbrev pub empty : {F : Type 0} → Inner F
empty = record {
  channels = [];
  scalars = [];
  states = [];
  texts = [];
  revision = 0;
  word_to_bits = [];
}

-- `revision += 1` and `wrapping_add(1)`
abbrev pub bump : ℕ → ℕ
bump r = (r + 1) % 2 ^ 64

module _ {F : Type 0} where
  abbrev pub next_id : Inner F → ChannelId
  next_id g = length g.channels % 2 ^ 32

  -- What every registration does: the channel, and a slot in each of the parallel lists.
  abbrev pub register : Inner F → ChannelInfo → Inner F
  register g info = record g {
    channels = g.channels ++ (info ∷ []);
    scalars = g.scalars ++ ([] ∷ []);
    states = g.states ++ ([] ∷ []);
    texts = g.texts ++ ([] ∷ []);
    revision = bump g.revision;
  }

  unfoldable pub add_scalar_with : Inner F → Text → Bool → Inner F × ChannelId
  add_scalar_with g path integer_storage =
      let id = next_id g in
      (
        register g
            (record { id = id; path = path; kind = scalar; integer_storage = integer_storage }),
        id,
      )

  unfoldable pub add_scalar : Inner F → Text → Inner F × ChannelId
  unfolding add_scalar_with
  add_scalar g path = add_scalar_with g path false

  unfoldable pub add_scalar_int : Inner F → Text → Inner F × ChannelId
  unfolding add_scalar_with
  add_scalar_int g path = add_scalar_with g path true

  unfoldable pub add_state : Inner F → Text → List Text → Inner F × ChannelId
  add_state g path labels =
      let id = next_id g in
      (
        register g (record { id = id; path = path; kind = state labels; integer_storage = true }),
        id,
      )

  unfoldable pub add_text : Inner F → Text → Inner F × ChannelId
  add_text g path =
      let id = next_id g in
      (register g (record { id = id; path = path; kind = text; integer_storage = false }), id)

  unfoldable pub register_word_bits : Inner F → ChannelId → List ChannelId → Inner F
  register_word_bits g word bits = record g { word_to_bits = map_insert word bits g.word_to_bits }

  unfoldable pub bits_for_word : Inner F → ChannelId → Option (List ChannelId)
  bits_for_word g word = map_get word g.word_to_bits

  unfoldable pub push_scalar : Inner F → ChannelId → Timestamp → F → Inner F
  push_scalar g ch t v = elim (get_elem? g.scalars ch) [
    | none ↦ g
    | some buf ↦ record g {
      scalars = set g.scalars ch (buf ++ ((t, v) ∷ []));
      revision = bump g.revision;
    }
  ]

  unfoldable pub push_text : Inner F → ChannelId → Timestamp → Text → Inner F
  push_text g ch t value = elim (get_elem? g.texts ch) [
    | none ↦ g
    | some buf ↦ record g {
      texts = set g.texts ch (buf ++ ((t, value) ∷ []));
      revision = bump g.revision;
    }
  ]

-- The new runs of a channel: the last run is extended, or closed by a new one.
unfoldable pub push_run : List StateRun → Timestamp → ℕ → List StateRun
push_run [] t value = record { t_start = t; t_end = t; value = value } ∷ []
push_run (last ∷ []) t value =
    if last.value == value
    then record last { t_end = t } ∷ []
    else record last { t_end = t } ∷ record { t_start = t; t_end = t; value = value } ∷ []
push_run (r ∷ r' ∷ runs) t value = r ∷ push_run (r' ∷ runs) t value

module _ {F : Type 0} where
  unfoldable pub push_state : Inner F → ChannelId → Timestamp → ℕ → Inner F
  unfolding push_run
  push_state g ch t value = elim (get_elem? g.states ch) [
    | none ↦ g
    | some runs ↦ record g {
      states = set g.states ch (push_run runs t value);
      revision = bump g.revision;
    }
  ]

  unfoldable pub clear : Inner F → Inner F
  clear g = record g {
    channels = [];
    scalars = [];
    states = [];
    texts = [];
    word_to_bits = [];
    revision = bump g.revision;
  }

  unfoldable pub sample_count : Inner F → ChannelId → ℕ
  sample_count g ch = elim (get_elem? g.channels ch) [
    | none ↦ 0
    | some info ↦ elim info.kind [
      | scalar ↦ elim (get_elem? g.scalars ch) [ none ↦ 0 | some v ↦ length v ]
      | state labels ↦ elim (get_elem? g.states ch) [ none ↦ 0 | some v ↦ length v ]
      | text ↦ elim (get_elem? g.texts ch) [ none ↦ 0 | some v ↦ length v ]
    ]
  ]
