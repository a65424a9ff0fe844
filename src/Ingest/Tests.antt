-- ===== src/Ingest/Tests.antt =====
-- viewer/crates/btelem-ingest: the theorems at small streams and schemas.
use btelem.Prelude.{
  ℕ, ◌+◌, ◌*◌, min, Bool, length, ◌-◌, ◌≤◌, ◌<◌, ◌≡◌, refl, inr, ◌↔◌, true, false, List, [], ◌∷◌,
  ◌++◌, some, ok, err, index_out_of_bounds, arith, codes, All, to_le, At-whole,
}
use btelem.Prelude.Int.{ℤ, negsuc}
use btelem.Float.{whole}
use btelem.Wire.Schema.{FieldType, Schema}
use btelem.Store.Mock as Store
use btelem.Capture.Ring as Capture
use btelem.Ingest.Mapper.{
  scalar, ChannelMap, build, build_entries, build_fields, build_field, build_numeric,
}
use btelem.Ingest.Mapper.Complete.{IdsDistinct, IsMapped, build-IsMapped}
use btelem.Ingest.Dispatch.{read_scalar}
use btelem.Ingest.Dispatch.Scalars.{
  is_byte, i16, complement, u32, read_scalar-unsigned, read_scalar-signed, read_scalar-panic,
}
use btelem.Ingest.Tcp.{
  bytes, fail, timed_out, other, Stream, io, failed, stopped, Shared, packet_loop,
  read_exact_or_eof,
}
use btelem.Ingest.Tcp.Reading.{Flows, delivers, pauses, ends, content, Took, read_exact_or_eof-Took}
use btelem.Ingest.Tcp.Framing.{frame, take_packets, packet_loop-take_packets, packet_loop-pause}
use btelem.Wire.Utf8.{is_utf8, utf8_step, utf8_lead}
use btelem.Wire.Schema.Layout.{schema_bytes, SchemaFits}
use btelem.Ingest.Reconnect.Session.{
  accepts_after, fresh_store, fresh_capture, attempt-take_packets,
}
use btelem.Ingest.Reconnect.{attempt, Attempt, sleeps, reconnect, run_with_reconnect}
use btelem.Ingest.Reconnect.Delays.{
  total, clear_tests, total-sleeps, IsDelay, run_with_reconnect-IsDelay, backoff, wiped,
  reconnect-refused,
}

-- One entry of the schema 1, with the word 500 at the time 8.
abbrev packet : List ℕ
packet =
    1 ∷ 0 ∷ 0 ∷ 0 ∷ to_le 4 2
    ++ to_le 8 0
    ++ (1 ∷ 0 ∷ 2 ∷ 0 ∷ to_le 4 0 ++ to_le 8 8 ++ to_le 2 500)

-- The prefix in two reads, and the packet with the byte that follows it.
abbrev cut : Stream
cut = bytes (34 ∷ []) ∷ bytes (0 ∷ 0 ∷ []) ∷ bytes (0 ∷ (packet ++ (77 ∷ []))) ∷ []

cut-Flows : Flows false cut
cut-Flows = delivers _ _ _ (delivers _ _ _ (delivers _ _ _ ends))

abbrev handlers : ChannelMap
handlers = (1, scalar 0 FieldType.u16 0 2 ∷ []) ∷ []

abbrev nothing : Shared ℤ
nothing = record { store = Store.empty; capture = some (Capture.with_capacity 1000) }

packet_loop-take_packets_example :
    packet_loop whole 1 40 handlers cut nothing
    ≡ take_packets whole 40 handlers (packet ∷ []) nothing
packet_loop-take_packets_example =
    packet_loop-take_packets whole 40 handlers (packet ∷ []) cut (77 ∷ []) nothing cut-Flows
      (omega arith, tt) refl

packet_loop-pause_example :
    (packet_loop whole 3 40 handlers (fail timed_out ∷ cut) nothing
      ≡ packet_loop whole 2 40 handlers cut nothing)
    × (packet_loop whole 3 40 handlers (bytes (to_le 4 34) ∷ fail timed_out ∷ cut) nothing
        ≡ (failed (io timed_out), nothing))
packet_loop-pause_example =
    packet_loop-pause whole 40 handlers 2 34 timed_out cut nothing (inr refl) (omega arith)
      (omega arith)

-- A pause behind the first bytes.
abbrev slow : Stream
slow = bytes (1 ∷ 2 ∷ []) ∷ fail timed_out ∷ bytes (3 ∷ 4 ∷ []) ∷ []

slow-Flows : Flows true slow
slow-Flows = delivers _ _ _ (pauses timed_out _ refl refl (delivers _ _ _ ends))

read_exact_or_eof-Took_example : Took true 3 [] (content slow) (read_exact_or_eof 3 slow)
read_exact_or_eof-Took_example =
    read_exact_or_eof-Took slow slow-Flows (λ e. absurd (cc e)) 3 (omega arith)

read_scalar-signed_example :
    read_scalar whole FieldType.i16 (to_le 2 (complement 2 (negsuc 4))) 0 2
    ≡ ok (some (whole.of_i64 (negsuc 4)))
read_scalar-signed_example =
    read_scalar-signed whole i16 (negsuc 4) (omega arith) (to_le 2 (complement 2 (negsuc 4))) 0
      (At-whole (to_le 2 (complement 2 (negsuc 4))))

read_scalar-unsigned_example :
    read_scalar whole FieldType.u32 (to_le 4 70000) 0 4 ≡ ok (some (whole.of_u64 70000))
read_scalar-unsigned_example =
    read_scalar-unsigned whole u32 70000 (omega arith) (to_le 4 70000) 0 (At-whole (to_le 4 70000))

read_scalar-panic_example :
    (read_scalar whole FieldType.u8 (1 ∷ []) 1 0 ≡ err index_out_of_bounds)
    ↔ ((is_byte FieldType.u8 ≡ true) × ((let z : ℕ = 0 in z) ≡ 0) × (1 ≤ 1))
read_scalar-panic_example = read_scalar-panic whole FieldType.u8 (1 ∷ []) 1 0

abbrev imu : Schema
imu = record {
  entries =
      record {
        id = 1;
        name = codes "imu";
        description = [];
        payload_size = 2;
        fields =
            record { name = codes "x"; offset = 0; size = 2; ty = FieldType.u16; count = 1 } ∷ [];
      }
      ∷ [];
  enums = [];
  bitfields = [];
}

build-IsMapped_example : IdsDistinct imu.entries ↔ (
    (m : ChannelMap) × ((build imu (Store.empty {F = ℤ})).1 ≡ ok m) × All (IsMapped m) imu.entries)
build-IsMapped_example = build-IsMapped imu Store.empty

-- The flag is clear at two tests and set at the third.
abbrev set_third : List Bool
set_third = false ∷ false ∷ true ∷ []

total-sleeps_example :
    (total (sleeps set_third 250 0) ≡ min (250 - 0) (clear_tests set_third * 100))
    × All (λ n. (0 < n) × (n ≤ 100)) (sleeps set_third 250 0)
    × (length (sleeps set_third 250 0) * 100 < 250 - 0 + 100)
total-sleeps_example = total-sleeps set_third 250 0

-- One sleep of the two is left out, since the flag is set before it.
two_sleeps : sleeps set_third 250 0 ≡ 100 ∷ 100 ∷ []
unfolding sleeps
two_sleeps = refl

abbrev no_answer : Attempt
no_answer = record { answers = err other ∷ err timed_out ∷ []; rounds = 5; now = 60 }

run_with_reconnect-IsDelay_example :
    All IsDelay (run_with_reconnect whole handlers cut 4 40 (no_answer ∷ no_answer ∷ []) nothing).2
run_with_reconnect-IsDelay_example =
    run_with_reconnect-IsDelay whole handlers cut 4 40 (no_answer ∷ no_answer ∷ []) nothing

reconnect-refused_example :
    reconnect whole (no_answer ∷ no_answer ∷ []) 250 nothing
    ≡ (stopped, wiped whole 2 nothing, backoff whole 2 250)
reconnect-refused_example =
    reconnect-refused whole (no_answer ∷ no_answer ∷ []) 250 nothing (refl, (refl, tt))

imu-SchemaFits : SchemaFits imu
unfolding is_utf8 utf8_step utf8_lead
imu-SchemaFits = record {
  entry_count = omega arith;
  enum_count = omega arith;
  bitfield_count = omega arith;
  entries = (
    record {
      id = omega arith;
      payload_size = omega arith;
      name = (omega arith, ground arith, refl);
      description = (omega arith, ground arith, refl);
      count = omega arith;
      fields = (
        record {
          name = (omega arith, ground arith, refl);
          offset = omega arith;
          size = omega arith;
        },
        tt,
      );
    },
    tt,
  );
  enums = tt;
  bitfields = tt;
}

-- The schema behind its prefix, and a packet with the byte that follows it.
abbrev device : Stream
device =
    bytes (to_le 4 (length (schema_bytes imu)))
    ∷ bytes (schema_bytes imu)
    ∷ bytes (frame packet ++ (77 ∷ []))
    ∷ []

device-Flows : Flows false device
device-Flows = delivers _ _ _ (delivers _ _ _ (delivers _ _ _ ends))

imu-build : (build imu (fresh_store nothing.store)).1 ≡ ok handlers
unfolding build build_entries build_fields build_field build_numeric Store.add_scalar_int
    Store.add_scalar_with
imu-build = refl

attempt-take_packets_example :
    let (end, after) = take_packets whole 40 handlers (packet ∷ []) (record {
      store = (build imu (fresh_store nothing.store)).0;
      capture = fresh_capture 40 (schema_bytes imu) nothing.capture;
    }) in
    attempt whole
      (record { answers = accepts_after (other ∷ []) device []; rounds = 1; now = 40 })
      500
      nothing
    ≡ (end, 250, after)
attempt-take_packets_example =
    attempt-take_packets whole (other ∷ []) [] 40 500 imu (packet ∷ []) device (77 ∷ []) nothing
      handlers imu-SchemaFits (omega arith) (omega arith, tt) device-Flows refl imu-build
