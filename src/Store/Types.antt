-- ===== src/Store/Types.antt =====
-- viewer/crates/btelem-store/src/lib.rs: the data that a store exposes.
use btelem.Prelude.{ℕ, Bool, List, Text}

abbrev pub ChannelId : Type 0
ChannelId = ℕ

abbrev pub Timestamp : Type 0
Timestamp = ℕ

abbrev pub u64_max : ℕ
u64_max = 0xffff_ffff_ffff_ffff

pub data ChannelKind : Type 0 where
  scalar : ChannelKind
  state : List Text → ChannelKind
  text : ChannelKind

pub record ChannelInfo : Type 0 where
  pub id : ChannelId
  pub path : Text
  pub kind : ChannelKind
  pub integer_storage : Bool

pub record Bucket (F : Type 0) : Type 0 where
  pub t : Timestamp
  pub min : F
  pub max : F

pub record StateRun : Type 0 where
  pub t_start : Timestamp
  pub t_end : Timestamp
  pub value : ℕ
