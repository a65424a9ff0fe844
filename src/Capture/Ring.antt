-- ===== src/Capture/Ring.antt =====
-- viewer/crates/btelem-capture/src/lib.rs: `Inner`, `extract_meta` and the methods of `Capture`.
-- The lock makes each method one step. `now` is the reading of `Instant::now()`, in nanoseconds.
pub mod Invariant
pub mod Times
use btelem.Prelude.{
  ℕ, zero, suc, ◌+◌, ◌-◌, ◌*◌, Bool, true, false, not, List, [], ◌∷◌, ◌++◌, Option, none, some,
  Result, ok, err, ◌>>=◌, ltb, ◌==◌, if◌then◌else◌, length, slice, from_le, get_or, min, max,
}

abbrev pub default_ring_bytes : ℕ
default_ring_bytes = 256 * 1024 * 1024

abbrev pub packet_header_size : ℕ
packet_header_size = 16

abbrev pub entry_header_size : ℕ
entry_header_size = 16

-- The two ways in which reading a file fails: `read_exact` meets the end, or an offset is no `off_t`.
pub data IoError : Type 0 where
  unexpected_eof invalid_input : IoError

pub data CaptureError : Type 0 where
  io : IoError → CaptureError
  no_schema : CaptureError
  bad_packet : ℕ → CaptureError
  bad_magic : CaptureError
  unsupported_version : ℕ → CaptureError
  truncated : CaptureError

pub record PacketMeta : Type 0 where
  pub ts_min : ℕ
  pub ts_max : ℕ
  pub entry_count : ℕ

pub record CaptureStats : Type 0 where
  pub packets : ℕ
  pub bytes : ℕ
  pub packets_total : ℕ
  pub packets_dropped : ℕ
  pub ts_min : Option ℕ
  pub ts_max : Option ℕ
  pub age_ns : ℕ
  pub has_schema : Bool

abbrev pub Held : Type 0
Held = List ℕ × PacketMeta

-- `packets` is oldest first.
pub record Inner : Type 0 where
  pub schema : Option (List ℕ)
  pub packets : List Held
  pub bytes : ℕ
  pub cap_bytes : ℕ
  pub packets_total : ℕ
  pub packets_dropped : ℕ
  pub epoch : Option ℕ

-- `Inner::new`, `Capture::with_capacity`
unfoldable pub with_capacity : ℕ → Inner
with_capacity cap_bytes = record {
  schema = none;
  packets = [];
  bytes = 0;
  cap_bytes = cap_bytes;
  packets_total = 0;
  packets_dropped = 0;
  epoch = none;
}

unfoldable pub clear : Inner → Inner
clear g = record g {
  schema = none;
  packets = [];
  bytes = 0;
  packets_total = 0;
  packets_dropped = 0;
  epoch = none;
}

-- The loop of `evict_to_fit`: the bytes, the drop counter and the packets that it leaves.
unfoldable pub evict : ℕ → ℕ → ℕ → List Held → ℕ × ℕ × List Held
evict cap bytes dropped [] = (bytes, dropped, [])
evict cap bytes dropped (p ∷ ps) =
    let rest = evict cap (bytes - length p.0) (dropped + 1) ps in
    if ltb cap bytes then rest else (bytes, dropped, p ∷ ps)

unfoldable pub evict_to_fit : Inner → Inner
unfolding evict
evict_to_fit g =
    let left = evict g.cap_bytes g.bytes g.packets_dropped g.packets in
    record g { bytes = left.0; packets_dropped = left.1; packets = left.2 }

-- The loop over the timestamps: entry `i` is next, `n` are left.
unfoldable pub ts_range : List ℕ → ℕ → ℕ → ℕ → ℕ → ℕ × ℕ
ts_range buf lo hi i zero = (lo, hi)
ts_range buf lo hi i (suc n) =
    let ts = from_le (slice buf (packet_header_size + i * entry_header_size + 8) 8) in
    ts_range buf (min lo ts) (max hi ts) (suc i) n

unfoldable pub extract_meta : List ℕ → Result CaptureError PacketMeta
unfolding ts_range
extract_meta buf =
    let entry_count = from_le (get_or buf 0 0 ∷ get_or buf 1 0 ∷ []) in
    let (lo, hi) = ts_range buf 0xffff_ffff_ffff_ffff 0 0 entry_count in
    if ltb (length buf) packet_header_size
    then err (bad_packet (length buf))
    else if ltb (length buf) (packet_header_size + entry_count * entry_header_size)
    then err (bad_packet (length buf))
    else if entry_count == 0
    then ok (record { ts_min = 0; ts_max = 0; entry_count = 0 })
    else ok (record { ts_min = lo; ts_max = hi; entry_count = entry_count })

abbrev pub start_epoch : ℕ → Option ℕ → Option ℕ
start_epoch now none = some now
start_epoch now (some t) = some t

abbrev pub bytes_eq : List ℕ → List ℕ → Bool
bytes_eq [] [] = true
bytes_eq (x ∷ xs) (y ∷ ys) = if x == y then bytes_eq xs ys else false
bytes_eq _ _ = false

unfoldable pub set_schema : ℕ → List ℕ → Inner → Inner × Bool
set_schema now blob g =
    let differs : Bool = elim g.schema [ none ↦ false | some s ↦ not (bytes_eq s blob) ] in
    (record g { schema = some blob; epoch = start_epoch now g.epoch }, differs)

-- The new state, or the error of a packet that is refused.
unfoldable pub push_packet : ℕ → List ℕ → Inner → Result CaptureError Inner
unfolding extract_meta evict_to_fit
push_packet now packet g = do
  meta ← extract_meta packet
  ok (
      evict_to_fit (record g {
        bytes = g.bytes + length packet;
        packets = g.packets ++ ((packet, meta) ∷ []);
        packets_total = g.packets_total + 1;
        epoch = start_epoch now g.epoch;
      }))

-- `iter().map(..).min()` and `max()`
abbrev pub min_ts : List Held → Option ℕ
min_ts [] = none
min_ts (p ∷ ps) = some (elim (min_ts ps) [ none ↦ p.1.ts_min | some m ↦ min p.1.ts_min m ])

abbrev pub max_ts : List Held → Option ℕ
max_ts [] = none
max_ts (p ∷ ps) = some (elim (max_ts ps) [ none ↦ p.1.ts_max | some m ↦ max p.1.ts_max m ])

abbrev pub is_some {ℓ} : {A : Type ℓ} → Option A → Bool
is_some none = false
is_some (some a) = true

unfoldable pub stats : ℕ → Inner → CaptureStats
stats now g = record {
  packets = length g.packets;
  bytes = g.bytes;
  packets_total = g.packets_total;
  packets_dropped = g.packets_dropped;
  ts_min = min_ts g.packets;
  ts_max = max_ts g.packets;
  age_ns = elim g.epoch [ none ↦ 0 | some t ↦ now - t ];
  has_schema = is_some g.schema;
}

unfoldable pub has_data : Inner → Bool
has_data g = elim g.packets [ [] ↦ false | p ∷ ps ↦ true ]
