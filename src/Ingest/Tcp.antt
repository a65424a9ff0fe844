-- ===== src/Ingest/Tcp.antt =====
-- viewer/crates/btelem-ingest/src/tcp.rs: the packet loop and the reconnect loop of the ingest
-- thread. The environment is data: a socket is the list of what its reads will give, and ends
-- closed; each loop is told in how many of its tests the stop flag will still be clear.
pub mod Reading
pub mod Framing
use btelem.Prelude.{
  ℕ, zero, suc, ◌+◌, ◌-◌, ◌*◌, Bool, true, false, List, [], ◌∷◌, ◌++◌, Option, none, some, Result,
  ok, err, Panic, ltb, ◌==◌, if◌then◌else◌, length, take, drop, from_le, min,
}
use btelem.Float.{Float}
use btelem.Wire.{WireError}
use btelem.Wire.Packet.{DecodedEntry, Packet, decode_packet}
use btelem.Wire.Schema as Schema
use btelem.Store.Mock as Store
use btelem.Capture.Ring as Capture
use btelem.Ingest.Mapper.{MapError, ChannelMap, build}
use btelem.Ingest.Dispatch.{Pushing, dispatch}

pub data ErrorKind : Type 0 where
  interrupted would_block timed_out other : ErrorKind

pub data IngestError : Type 0 where
  io : ErrorKind → IngestError
  wire : WireError → IngestError
  mapping : MapError → IngestError
  closed : IngestError

-- What `read` finds: bytes (more may be there than the buffer takes), the end, or an error.
pub data ReadEvent : Type 0 where
  bytes : List ℕ → ReadEvent
  eof : ReadEvent
  fail : ErrorKind → ReadEvent

abbrev pub Stream : Type 0
Stream = List ReadEvent

-- A read answers, and leaves the stream.
abbrev pub Reading : Type 0 → Type 0
Reading A = Result IngestError A × Stream

abbrev pub is_retry : ErrorKind → Bool
is_retry interrupted = true
is_retry would_block = true
is_retry timed_out = true
is_retry other = false

-- `read_exact_or_eof`: the buffer holds `filled`, and `n` bytes are due.
unfoldable pub read_more : List ℕ → ℕ → Stream → Reading (List ℕ)
read_more filled zero s = (ok filled, s)
read_more filled (suc n) [] = (err closed, [])
read_more filled (suc n) (eof ∷ s) = (err closed, s)
read_more filled (suc n) (bytes [] ∷ s) = (err closed, s)
read_more filled (suc n) (bytes (b ∷ bs) ∷ s) =
    let k = length bs in
    if ltb k n
    then read_more (filled ++ (b ∷ bs)) (n - k) s
    else if k == n
    then (ok (filled ++ (b ∷ bs)), s)
    else (ok (filled ++ (b ∷ take n bs)), bytes (drop n bs) ∷ s)
read_more filled (suc n) (fail k ∷ s) =
    let again = read_more filled (suc n) s in
    if is_retry k then elim filled [ [] ↦ (err (io k), s) | b ∷ bs ↦ again ] else (err (io k), s)

unfoldable pub read_exact_or_eof : ℕ → Stream → Reading (List ℕ)
unfolding read_more
read_exact_or_eof n s = read_more [] n s

abbrev pub word_of : Reading (List ℕ) → Reading ℕ
word_of (ok b, s) = (ok (from_le b), s)
word_of (err e, s) = (err e, s)

unfoldable pub read_u32 : Stream → Reading ℕ
unfolding read_exact_or_eof
read_u32 s = word_of (read_exact_or_eof 4 s)

-- How a loop ends: by the stop flag, by an error, or by a panic of the thread.
pub data LoopEnd : Type 0 where
  stopped : LoopEnd
  failed : IngestError → LoopEnd
  panicked : LoopEnd

-- What a length prefix tells `packet_loop` to do.
pub data Prefix : Type 0 where
  packet : ℕ → Prefix
  again : Prefix
  leave : IngestError → Prefix

abbrev pub prefix_of : Result IngestError ℕ → Prefix
prefix_of (ok n) = packet n
prefix_of (err closed) = leave closed
prefix_of (err (io would_block)) = again
prefix_of (err (io timed_out)) = again
prefix_of (err e) = leave e

-- What the thread shares with the viewer: the store, and the capture if there is one.
pub record Shared (F : Type 0) : Type 0 where
  pub store : Store.Inner F
  pub capture : Option Capture.Inner

-- What `connect_once` returns.
pub record Connected : Type 0 where
  pub stream : Stream
  pub schema_buf : List ℕ
  pub map : ChannelMap

module _ {F : Type 0} (fl : Float F) where
  -- `for e in &p.entries { map.dispatch(..) }`
  unfoldable pub dispatch_all : ChannelMap → List DecodedEntry → Store.Inner F → Pushing F
  dispatch_all m [] store = (store, none)
  dispatch_all m (e ∷ es) store =
      let pushed = dispatch fl m e.id e.timestamp e.payload store in
      let rest = dispatch_all m es pushed.0 in
      elim pushed.1 [ none ↦ rest | some p ↦ (pushed.0, some p) ]

  -- `let _ = cap.push_packet(pkt.clone())`: an error is dropped.
  unfoldable pub tee : ℕ → List ℕ → Option Capture.Inner → Option Capture.Inner
  tee now pkt none = none
  tee now pkt (some cap) = elim (Capture.push_packet now pkt cap) [
    | ok cap' ↦ some cap'
    | err e ↦ some cap
  ]

  -- The part of a round behind the length prefix, on what reading the packet gave: how it ends the
  -- loop, if it does, and the shared state. A panic leaves what was pushed before it.
  unfoldable pub take_packet :
      ℕ → ChannelMap → Result IngestError (List ℕ) → Shared F → Option LoopEnd × Shared F
  unfolding dispatch_all tee
  take_packet now m (err e) sh = (some (failed e), sh)
  take_packet now m (ok pkt) sh = elim (decode_packet pkt) [
    | err e ↦ (some (failed (wire e)), sh)
    | ok p ↦
        let pushed = dispatch_all m p.entries sh.store in
        elim pushed.1 [
          | some panic ↦ (some panicked, record sh { store = pushed.0 })
          | none ↦ (none, record { store = pushed.0; capture = tee now pkt sh.capture })
        ]
  ]

  -- `packet_loop`: the flag is clear in the next `rounds` tests. The store and the capture are
  -- returned with the way the loop ended.
  unfoldable pub packet_loop : ℕ → ℕ → ChannelMap → Stream → Shared F → LoopEnd × Shared F
  unfolding take_packet read_u32 read_exact_or_eof
  packet_loop zero now m s sh = (stopped, sh)
  packet_loop (suc rounds) now m s sh =
      let (len, s1) = read_u32 s in
      elim (prefix_of len) [
        | again ↦ packet_loop rounds now m s1 sh
        | leave e ↦ (failed e, sh)
        | packet n ↦
            let (pkt, s2) = read_exact_or_eof n s1 in
            let taken = take_packet now m pkt sh in
            elim taken.0 [ none ↦ packet_loop rounds now m s2 taken.1 | some e ↦ (e, taken.1) ]
      ]

  -- What follows a connection that is open. The store keeps what `build` registered.
  unfoldable pub handshake : Stream → Store.Inner F → Result IngestError Connected × Store.Inner F
  unfolding read_u32 read_exact_or_eof
  handshake s store =
      let (len, s1) = read_u32 s in
      elim len [
        | err e ↦ (err e, store)
        | ok n ↦
            let (blob, s2) = read_exact_or_eof n s1 in
            elim blob [
              | err e ↦ (err e, store)
              | ok buf ↦ elim (Schema.decode buf) [
                | err e ↦ (err (wire e), store)
                | ok schema ↦
                    let (store', built) = build schema store in
                    elim built [
                      | err e ↦ (err (mapping e), store')
                      | ok m ↦ (ok (record { stream = s2; schema_buf = buf; map = m }), store')
                    ]
              ]
            ]
      ]

  -- `connect_once` on the answers of the addresses, in order.
  unfoldable pub connect_once :
      IngestError
      → List (Result ErrorKind Stream)
      → Store.Inner F
      → Result IngestError Connected × Store.Inner F
  unfolding handshake
  connect_once last_err [] store = (err last_err, store)
  connect_once last_err (ok s ∷ answers) store = handshake s store
  connect_once last_err (err k ∷ answers) store = connect_once (io k) answers store
