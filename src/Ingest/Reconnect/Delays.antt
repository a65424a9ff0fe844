-- ===== src/Ingest/Reconnect/Delays.antt =====
-- viewer/crates/btelem-ingest/src/tcp.rs: the back-off of `run_with_reconnect`.
use btelem.Prelude.{
  ℕ, zero, suc, ◌+◌, ◌-◌, ◌*◌, if◌then◌else◌, ◌≤◌, ◌<◌, ◌≡◌, refl, ap, ◌∙◌, inl, inr, Bool, true,
  false, List, [], ◌∷◌, Result, ok, err, arith, ltb, ltb-false, ltb→lt, Bool-cases, All, min,
  length,
}
use btelem.Float.{Float}
use btelem.Store.Mock as Store
use btelem.Ingest.Mapper.{ChannelMap}
use btelem.Ingest.Tcp.{
  ErrorKind, other, IngestError, io, Stream, LoopEnd, stopped, failed, panicked, Shared,
  packet_loop, Connected, connect_once,
}
use btelem.Ingest.Reconnect.{
  Attempt, sleeps, clear_capture, session, attempt, reconnect, run_with_reconnect,
}

abbrev pub total : List ℕ → ℕ
total [] = 0
total (n ∷ ns) = n + total ns

-- The tests of the stop flag that find it clear before the first that finds it set.
abbrev pub clear_tests : List Bool → ℕ
clear_tests [] = 0
clear_tests (stop ∷ tests) = if stop then 0 else suc (clear_tests tests)

-- Whatever the tests of the stop flag find, a back-off sleeps what is left of the delay, or, where that
-- is less, 100 ms for each test that finds the flag clear before it is set: it does not sleep once the
-- flag is set. Each sleep takes at least 1 ms and at most 100 ms, and the sleeps are no more than the
-- delay needs.
pub total-sleeps :
    (tests : List Bool) (delay_ms slept : ℕ)
    → (total (sleeps tests delay_ms slept) ≡ min (delay_ms - slept) (clear_tests tests * 100))
      × All (λ n. (0 < n) × (n ≤ 100)) (sleeps tests delay_ms slept)
      × (length (sleeps tests delay_ms slept) * 100 < delay_ms - slept + 100)
unfolding sleeps
total-sleeps [] delay_ms slept = (omega arith, tt, omega arith)
total-sleeps (true ∷ tests) delay_ms slept = elim (Bool-cases (ltb slept delay_ms)) [
  | inl e ↦ rw (e, sleeps) (omega arith, tt, omega arith)
  | inr e ↦ rw (e, sleeps) (omega arith, tt, omega arith)
]
total-sleeps (false ∷ tests) delay_ms slept = elim (Bool-cases (ltb slept delay_ms)) [
  | inl e ↦
      let l = ltb→lt slept delay_ms e in
      let (t, a, n) = total-sleeps tests delay_ms (slept + 100) in
      rw (e, sleeps)
        (omega (arith, t, l), ((omega (arith, l), omega arith), a), omega (arith, n, l))
  | inr e ↦ rw (e, sleeps) (omega (arith, ltb-false slept delay_ms e), tt, omega arith)
]

-- A delay that the loop uses.
abbrev pub IsDelay : ℕ → Type 0
IsDelay d = (250 ≤ d) × (d ≤ 5000)

-- No address accepts.
abbrev pub refused : List (Result ErrorKind Stream) → Bool
refused [] = true
refused (ok s ∷ answers) = false
refused (err k ∷ answers) = refused answers

round-IsDelay :
    {F : Type 0} (e : LoopEnd) (d : ℕ) (more : LoopEnd × Shared F × List ℕ) (sh : Shared F)
    → IsDelay d
    → All IsDelay more.2
    → All IsDelay
        (elim e as (λ _. LoopEnd × Shared F × List ℕ) [
          | failed e ↦ (more.0, more.1, d ∷ more.2)
          | e ↦ (e, sh, d ∷ [])
        ]).2
round-IsDelay stopped d more sh h a = (h, tt)
round-IsDelay (failed e) d more sh h a = (h, a)
round-IsDelay panicked d more sh h a = (h, tt)

module _ {F : Type 0} (fl : Float F) where
  attempt-IsDelay :
      (a : Attempt) (d : ℕ) (sh : Shared F) → IsDelay d → IsDelay (attempt fl a d sh).1
  unfolding attempt session
  attempt-IsDelay a d sh h =
      session_delay (connect_once fl (io other) a.answers (Store.clear sh.store))
    where
      session_delay :
          (r : Result IngestError Connected × Store.Inner F)
          → IsDelay (session fl a d (clear_capture sh.capture) r.0 r.1).1
      session_delay (err e, store) = (omega (arith, h.0), omega arith)
      session_delay (ok c, store) = (omega arith, omega arith)

  reconnect-IsDelay :
      (attempts : List Attempt) (d : ℕ) (sh : Shared F)
      → IsDelay d
      → All IsDelay (reconnect fl attempts d sh).2
  unfolding reconnect
  reconnect-IsDelay [] d sh h = tt
  reconnect-IsDelay (a ∷ rest) d sh h =
      let step = attempt fl a d sh in
      round-IsDelay step.0 d (reconnect fl rest step.1 step.2) step.2 h
        (reconnect-IsDelay rest step.1 step.2 (attempt-IsDelay a d sh h))

  -- Every delay of the thread is between 250 ms and 5 s.
  pub run_with_reconnect-IsDelay :
      (m : ChannelMap) (s : Stream) (rounds now : ℕ) (attempts : List Attempt) (sh : Shared F)
      → All IsDelay (run_with_reconnect fl m s rounds now attempts sh).2
  unfolding run_with_reconnect
  run_with_reconnect-IsDelay m s rounds now attempts sh =
      delays_of (packet_loop fl rounds now m s sh)
    where
      delays_of :
          (first : LoopEnd × Shared F)
          → All IsDelay
              (elim first.0 as (λ _. LoopEnd × Shared F × List ℕ) [
                | failed e ↦ reconnect fl attempts 250 first.1
                | e ↦ (e, first.1, [])
              ]).2
      delays_of (stopped, sh) = tt
      delays_of (failed e, sh) = reconnect-IsDelay attempts 250 sh (omega arith, omega arith)
      delays_of (panicked, sh) = tt

  abbrev pub backoff : ℕ → ℕ → List ℕ
  backoff zero d = []
  backoff (suc n) d = d ∷ backoff n (min (d * 2) 5000)

  abbrev pub wiped : ℕ → Shared F → Shared F
  wiped zero sh = sh
  wiped (suc n) sh =
      wiped n (record { store = Store.clear sh.store; capture = clear_capture sh.capture })

  connect_once-refused :
      (e : IngestError) (answers : List (Result ErrorKind Stream)) (store : Store.Inner F)
      → refused answers ≡ true
      → (last : IngestError) × (connect_once fl e answers store ≡ (err last, store))
  unfolding connect_once
  connect_once-refused e [] store h = (e, refl)
  connect_once-refused e (ok s ∷ answers) store h = absurd (cc h)
  connect_once-refused e (err k ∷ answers) store h = connect_once-refused (io k) answers store h

  attempt-refused :
      (a : Attempt) (d : ℕ) (sh : Shared F)
      → refused a.answers ≡ true
      → (last : IngestError) × (attempt fl a d sh ≡ (failed last, min (d * 2) 5000, wiped 1 sh))
  unfolding attempt session
  attempt-refused a d sh h =
      let (last, e) = connect_once-refused (io other) a.answers (Store.clear sh.store) h in
      (last, ap (λ r. session fl a d (clear_capture sh.capture) r.0 r.1) e)

  -- While every address of every attempt refuses, the thread runs until it is told to stop: the
  -- delays double up to 5 s, and each attempt clears the store and the capture.
  pub reconnect-refused :
      (attempts : List Attempt) (d : ℕ) (sh : Shared F)
      → All (λ a. refused a.answers ≡ true) attempts
      → reconnect fl attempts d sh
        ≡ (stopped, wiped (length attempts) sh, backoff (length attempts) d)
  unfolding reconnect
  reconnect-refused [] d sh h = refl
  reconnect-refused (a ∷ rest) d sh h =
      let (last, e) = attempt-refused a d sh h.0 in
      ap (body a rest d) e
      ∙ ap (λ more. (more.0, more.1, d ∷ more.2)) (reconnect-refused rest (min (d * 2) 5000) _ h.1)
    where
      body : Attempt → List Attempt → ℕ → LoopEnd × ℕ × Shared F → LoopEnd × Shared F × List ℕ
      body a rest d step =
          let more = reconnect fl rest step.1 step.2 in
          elim step.0 [ failed e ↦ (more.0, more.1, d ∷ more.2) | e ↦ (e, step.2, d ∷ []) ]
