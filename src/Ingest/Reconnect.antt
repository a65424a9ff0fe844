-- ===== src/Ingest/Reconnect.antt =====
-- viewer/crates/btelem-ingest/src/tcp.rs: `run_with_reconnect`, the body of the ingest thread. The
-- stop flag, once set, stays set, and is seen at the next test: the attempts that the environment
-- still allows are a list, and at its end the flag is set. `sleeps` is the loop inside a back-off,
-- with what its tests of the flag find.
pub mod Delays
pub mod Session
use btelem.Prelude.{
  ℕ, ◌+◌, ◌-◌, Bool, not, ◌&&◌, ◌*◌, List, [], ◌∷◌, Option, none, some, Result, ok, err, ltb,
  if◌then◌else◌, min,
}
use btelem.Float.{Float}
use btelem.Store.Mock as Store
use btelem.Capture.Ring as Capture
use btelem.Ingest.Mapper.{ChannelMap}
use btelem.Ingest.Tcp.{
  ErrorKind, other, IngestError, io, Stream, LoopEnd, stopped, failed, panicked, Shared,
  packet_loop, Connected, connect_once,
}

-- The answers of the addresses, the tests of the flag that the packet loop will find clear, and
-- the time.
pub record Attempt : Type 0 where
  pub answers : List (Result ErrorKind Stream)
  pub rounds : ℕ
  pub now : ℕ

-- The loop of one back-off, `slept < delay_ms && !stop.load(..)`, with the answers that the tests of
-- the stop flag give, `true` for a flag that is set; where the list ends the flag is set. The sleeps, in
-- order.
unfoldable pub sleeps : List Bool → ℕ → ℕ → List ℕ
sleeps [] delay_ms slept = []
sleeps (stop ∷ tests) delay_ms slept =
    let rest = sleeps tests delay_ms (slept + 100) in
    if ltb slept delay_ms && not stop then min 100 (delay_ms - slept) ∷ rest else []

abbrev pub clear_capture : Option Capture.Inner → Option Capture.Inner
clear_capture none = none
clear_capture (some cap) = some (Capture.clear cap)

abbrev pub announce : ℕ → List ℕ → Option Capture.Inner → Option Capture.Inner
announce now blob none = none
announce now blob (some cap) = some (Capture.set_schema now blob cap).0

module _ {F : Type 0} (fl : Float F) where
  -- The session of one attempt, on what `connect_once` gave: how it ended, the next delay and the
  -- shared state.
  unfoldable pub session :
      Attempt
      → ℕ
      → Option Capture.Inner
      → Result IngestError Connected
      → Store.Inner F
      → LoopEnd × ℕ × Shared F
  session a delay_ms cap (err e) store =
      (failed e, min (delay_ms * 2) 5000, record { store = store; capture = cap })
  session a delay_ms cap (ok c) store =
      let (end, sh) =
        packet_loop fl a.rounds a.now c.map c.stream
          (record { store = store; capture = announce a.now c.schema_buf cap }) in
      (end, 250, sh)

  -- One round of the loop behind the sleep: store and capture are wiped before the attempt.
  unfoldable pub attempt : Attempt → ℕ → Shared F → LoopEnd × ℕ × Shared F
  unfolding session
  attempt a delay_ms sh =
      let (conn, store) = connect_once fl (io other) a.answers (Store.clear sh.store) in
      session a delay_ms (clear_capture sh.capture) conn store

  -- The loop: how the thread ends, what is shared then, and the delays that were slept, in order.
  -- `stopped` is a return of `Ok(())`.
  unfoldable pub reconnect : List Attempt → ℕ → Shared F → LoopEnd × Shared F × List ℕ
  unfolding attempt
  reconnect [] delay_ms sh = (stopped, sh, [])
  reconnect (a ∷ rest) delay_ms sh =
      let step = attempt a delay_ms sh in
      let more = reconnect rest step.1 step.2 in
      elim step.0 [
        | failed e ↦ (more.0, more.1, delay_ms ∷ more.2)
        | e ↦ (e, step.2, delay_ms ∷ [])
      ]

  -- `run_with_reconnect`: the first session runs on the stream and the map of `connect`.
  unfoldable pub run_with_reconnect :
      ChannelMap → Stream → ℕ → ℕ → List Attempt → Shared F → LoopEnd × Shared F × List ℕ
  unfolding reconnect
  run_with_reconnect m s rounds now attempts sh =
      let first = packet_loop fl rounds now m s sh in
      elim first.0 [ failed e ↦ reconnect attempts 250 first.1 | e ↦ (e, first.1, []) ]
