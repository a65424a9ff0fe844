-- ===== src/Ingest/Tcp/Framing.antt =====
-- viewer/crates/btelem-ingest/src/tcp.rs: what the packet loop makes of a stream, however the bytes
-- are cut into reads, and what a pause does to it.
use btelem.Prelude.{
  ℕ, zero, suc, ◌^◌, ◌<◌, ◌≡◌, refl, ap, ◌∙◌, ◌⊎◌, inl, inr, false, List, [], ◌∷◌, ◌++◌, Option,
  none, some, Result, ok, err, arith, Bool-cases, All, length, append_assoc, to_le, from_le-to_le,
  flat,
}
use btelem.Float.{Float}
use btelem.Ingest.Mapper.{ChannelMap}
use btelem.Ingest.Tcp.{
  ErrorKind, would_block, timed_out, IngestError, io, bytes, fail, Stream, Reading, is_retry,
  read_more, read_exact_or_eof, read_u32, LoopEnd, stopped, failed, prefix_of, packet, again, leave,
  Shared, take_packet, packet_loop,
}
use btelem.Ingest.Tcp.Reading.{content, Flows, read_next}

-- A packet on the wire: its length in four bytes, then its bytes.
abbrev pub frame : List ℕ → List ℕ
frame p = to_le 4 (length p) ++ p

pub read_u32_lem :
    (s s1 : Stream) (n : ℕ)
    → n < 2 ^ 32
    → read_exact_or_eof 4 s ≡ (ok (to_le 4 n), s1)
    → read_u32 s ≡ (ok n, s1)
unfolding read_u32
read_u32_lem s s1 n h e = rw e (ap (λ v. (ok v, s1)) (from_le-to_le 4 n (omega arith)))

prefix_read :
    (n : ℕ) (k : ErrorKind) (s : Stream)
    → read_exact_or_eof 4 (bytes (to_le 4 n) ∷ fail k ∷ s) ≡ (ok (to_le 4 n), fail k ∷ s)
unfolding read_exact_or_eof read_more
prefix_read n k s = refl

pause_read :
    (n : ℕ) (k : ErrorKind) (s : Stream)
    → 0 < n
    → read_exact_or_eof n (fail k ∷ s) ≡ (err (io k), s)
unfolding read_exact_or_eof read_more
pause_read zero k s h = elim h [ ]
pause_read (suc n) k s h = elim (Bool-cases (is_retry k)) [ inl e ↦ rw e | inr e ↦ rw e ]

-- Two ways to go on that agree.
next_round :
    {F : Type 0} (r : Option LoopEnd × Shared F) (f g : Shared F → LoopEnd × Shared F)
    → ((x : Shared F) → f x ≡ g x)
    → ◌≡◌ {A = LoopEnd × Shared F}
        (elim r.0 [ none ↦ f r.1 | some e ↦ (e, r.1) ])
        (elim r.0 [ none ↦ g r.1 | some e ↦ (e, r.1) ])
next_round (none, x) f g h = h x
next_round (some e, x) f g h = refl

module _ {F : Type 0} (fl : Float F) (now : ℕ) (m : ChannelMap) where
  -- The packets one after the other, up to the first that ends the loop.
  abbrev pub take_packets : List (List ℕ) → Shared F → LoopEnd × Shared F
  take_packets [] sh = (stopped, sh)
  take_packets (p ∷ ps) sh =
      let taken = take_packet fl now m (ok p) sh in
      elim taken.0 [ none ↦ take_packets ps taken.1 | some e ↦ (e, taken.1) ]

  packet_loop_round :
      (rounds : ℕ) (s s1 s2 : Stream) (n : ℕ) (pkt : Result IngestError (List ℕ)) (sh : Shared F)
      → read_u32 s ≡ (ok n, s1)
      → read_exact_or_eof n s1 ≡ (pkt, s2)
      → let taken = take_packet fl now m pkt sh in
        packet_loop fl (suc rounds) now m s sh
        ≡ elim taken.0 [ none ↦ packet_loop fl rounds now m s2 taken.1 | some e ↦ (e, taken.1) ]
  unfolding packet_loop
  packet_loop_round rounds s s1 s2 n pkt sh e f = ap (body rounds) e ∙ ap (on_packet rounds) f
    where
      on_packet : ℕ → Reading (List ℕ) → LoopEnd × Shared F
      on_packet rounds r =
          let taken = take_packet fl now m r.0 sh in
          elim taken.0 [ none ↦ packet_loop fl rounds now m r.1 taken.1 | some e ↦ (e, taken.1) ]

      body : ℕ → Reading ℕ → LoopEnd × Shared F
      body rounds r = elim (prefix_of r.0) [
        | again ↦ packet_loop fl rounds now m r.1 sh
        | leave e ↦ (failed e, sh)
        | packet n ↦ on_packet rounds (read_exact_or_eof n r.1)
      ]

  -- On a stream that begins with framed packets of fewer than 2^32 bytes each and does not
  -- pause, as many rounds of the loop take exactly these packets in order, up to the first that
  -- ends the loop, however the bytes are cut into reads.
  pub packet_loop-take_packets :
      (ps : List (List ℕ)) (s : Stream) (tail : List ℕ) (sh : Shared F)
      → Flows false s
      → All (λ p. length p < 2 ^ 32) ps
      → content s ≡ flat frame ps ++ tail
      → packet_loop fl (length ps) now m s sh ≡ take_packets ps sh
  unfolding packet_loop
  packet_loop-take_packets [] s tail sh w h e = refl
  packet_loop-take_packets (p ∷ ps) s tail sh w h e =
      let more = flat frame ps ++ tail in
      let (s1, r1, c1, w1) = read_next s (to_le 4 (length p)) (p ++ more) w (
        e
        ∙ append_assoc (frame p) (flat frame ps) tail
        ∙ append_assoc (to_le 4 (length p)) p more) in
      let (s2, r2, c2, w2) = read_next s1 p more w1 c1 in
      packet_loop_round (length ps) s s1 s2 (length p) (ok p) sh
        (read_u32_lem s s1 (length p) h.0 r1) r2
      ∙ next_round (take_packet fl now m (ok p) sh) _ _
          (λ sh'. packet_loop-take_packets ps s2 tail sh' w2 h.1 c2)

  pause_before :
      (rounds : ℕ) (k : ErrorKind) (s : Stream) (sh : Shared F)
      → (k ≡ would_block) ⊎ (k ≡ timed_out)
      → packet_loop fl (suc rounds) now m (fail k ∷ s) sh ≡ packet_loop fl rounds now m s sh
  unfolding packet_loop read_u32 read_exact_or_eof read_more
  pause_before rounds k s sh (inl e) = rw e
  pause_before rounds k s sh (inr e) = rw e

  after_pause :
      (rounds : ℕ) (k : ErrorKind) (s : Stream) (sh : Shared F)
      → ◌≡◌ {A = LoopEnd × Shared F}
          (elim (take_packet fl now m (err (io k)) sh).0 [
            | none ↦ packet_loop fl rounds now m s (take_packet fl now m (err (io k)) sh).1
            | some e ↦ (e, (take_packet fl now m (err (io k)) sh).1)
          ])
          (failed (io k), sh)
  unfolding take_packet
  after_pause rounds k s sh = refl

  pause_inside :
      (rounds n : ℕ) (k : ErrorKind) (s : Stream) (sh : Shared F)
      → n < 2 ^ 32
      → 0 < n
      → packet_loop fl (suc rounds) now m (bytes (to_le 4 n) ∷ fail k ∷ s) sh ≡ (failed (io k), sh)
  pause_inside rounds n k s sh l g =
      packet_loop_round rounds _ (fail k ∷ s) s n (err (io k)) sh
        (read_u32_lem _ _ n l (prefix_read n k s)) (pause_read n k s g)
      ∙ after_pause rounds k s sh

  -- A read that times out, or would block, before a length prefix costs the loop one round and
  -- nothing else. Right behind the length prefix of a packet that is not empty, it ends the loop
  -- with that error, and the rest of the stream is not read.
  pub packet_loop-pause :
      (rounds n : ℕ) (k : ErrorKind) (s : Stream) (sh : Shared F)
      → (k ≡ would_block) ⊎ (k ≡ timed_out)
      → n < 2 ^ 32
      → 0 < n
      → (packet_loop fl (suc rounds) now m (fail k ∷ s) sh ≡ packet_loop fl rounds now m s sh)
        × (packet_loop fl (suc rounds) now m (bytes (to_le 4 n) ∷ fail k ∷ s) sh
            ≡ (failed (io k), sh))
  packet_loop-pause rounds n k s sh h l g =
      (pause_before rounds k s sh h, pause_inside rounds n k s sh l g)
