-- ===== src/Capture/Tests.antt =====
-- viewer/crates/btelem-capture: the theorems at small captures, and runs of the functions.
use btelem.Prelude.{
  ℕ, ◌≡◌, refl, List, [], ◌∷◌, ◌++◌, some, ok, arith, map, codes, to_le, All, IsByte,
}
use btelem.Capture.Ring.{
  PacketMeta, Inner, with_capacity, set_schema, extract_meta, evict, evict_to_fit, push_packet,
  ts_range,
}
use btelem.Capture.Ring.Invariant.{
  IsCounted, Reach, new, sets_schema, pushes, Pushed, IsKept, Reach-IsKept, push_packet-Pushed,
}
use btelem.Capture.Ring.Times.{IsTimeRange, extract_meta-IsTimeRange}
use btelem.Capture.File.{SaveReport, save_btlm, read_btlm}
use btelem.Capture.File.RoundTrip.{read_btlm-save_btlm}
use btelem.Capture.Date.{utc_components, find_year, find_month}

-- A packet with two entries, at the times 900 and 300.
abbrev packet : List ℕ
packet =
    2 ∷ 0 ∷ to_le 2 0
    ++ to_le 4 0
    ++ to_le 8 0
    ++ to_le 8 0
    ++ to_le 8 900
    ++ to_le 8 0
    ++ to_le 8 300

abbrev packet_meta : PacketMeta
packet_meta = record { ts_min = 300; ts_max = 900; entry_count = 2 }

packet-extract_meta : extract_meta packet ≡ ok packet_meta
unfolding extract_meta ts_range
packet-extract_meta = refl

packet-IsByte : All IsByte packet
packet-IsByte = ground arith

extract_meta-IsTimeRange_example : IsTimeRange packet packet_meta
extract_meta-IsTimeRange_example =
    extract_meta-IsTimeRange packet packet_meta packet-IsByte packet-extract_meta (omega arith)

-- Room for one packet of 48 bytes.
abbrev small : Inner
small = (set_schema 5 (codes "schema") (with_capacity 60)).0

abbrev holding_one : Inner
holding_one = record {
  schema = some (codes "schema");
  packets = (packet, packet_meta) ∷ [];
  bytes = 48;
  cap_bytes = 60;
  packets_total = 1;
  packets_dropped = 0;
  epoch = some 5;
}

holding_one-IsCounted : IsCounted holding_one
holding_one-IsCounted = record { bytes = refl; bounded = omega arith; total = refl }

-- The next packet drops the one that is held.
abbrev holding_next : Inner
holding_next = record {
  schema = some (codes "schema");
  packets = (packet, packet_meta) ∷ [];
  bytes = 48;
  cap_bytes = 60;
  packets_total = 2;
  packets_dropped = 1;
  epoch = some 5;
}

holding_one_push : push_packet 9 packet holding_one ≡ ok holding_next
unfolding push_packet extract_meta ts_range evict_to_fit evict
holding_one_push = refl

first_push : push_packet 9 packet small ≡ ok holding_one
unfolding push_packet extract_meta ts_range evict_to_fit evict set_schema with_capacity
first_push = refl

-- Two packets were accepted: the first is dropped and the second is held.
holding_next-Reach : Reach 60 (packet ∷ packet ∷ []) holding_next
holding_next-Reach =
    pushes 9 packet holding_next
      (pushes 9 packet holding_one (sets_schema 5 (codes "schema") new) first_push) holding_one_push

Reach-IsKept_example : IsKept 60 (packet ∷ packet ∷ []) holding_next
Reach-IsKept_example = Reach-IsKept holding_next-Reach

push_packet-Pushed_example : Pushed packet holding_one holding_next
push_packet-Pushed_example =
    push_packet-Pushed 9 packet holding_one holding_next holding_one-IsCounted holding_one_push

read_btlm-save_btlm_example :
    (saved : List ℕ × SaveReport) × (save_btlm holding_one ≡ ok saved)
    × (read_btlm saved.0
        ≡ ok (record { schema = codes "schema"; packets = map (λ p. p.0) holding_one.packets }))
read_btlm-save_btlm_example =
    read_btlm-save_btlm holding_one (codes "schema") refl (omega arith) (omega arith) (omega arith)

-- The 29th of February 2000.
utc_components_leap_day :
    utc_components 951782400
    ≡ some (record { year = 2000; month = 2; day = 29; hh = 0; mm = 0; ss = 0 })
unfolding utc_components find_year find_month
utc_components_leap_day = refl
