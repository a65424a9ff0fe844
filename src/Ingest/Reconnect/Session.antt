-- ===== src/Ingest/Reconnect/Session.antt =====
-- viewer/crates/btelem-ingest/src/tcp.rs: one attempt of `run_with_reconnect` that connects, on what a
-- device sends.
use btelem.Prelude.{
  ℕ, ◌+◌, ◌%◌, ◌^◌, ◌<◌, Option, none, some, ◌≡◌, refl, ap, ◌∙◌, false, List, [], ◌∷◌, ◌++◌, Result,
  ok, err, All, length, flat, to_le, append_assoc,
}
use btelem.Float.{Float}
use btelem.Wire.Schema.{Schema}
use btelem.Wire.Schema.Layout.{schema_bytes, SchemaFits}
use btelem.Wire.Schema.RoundTrip.{decode-schema_bytes}
use btelem.Store.Mock as Store
use btelem.Capture.Ring as Capture
use btelem.Ingest.Mapper.{ChannelMap, build}
use btelem.Ingest.Tcp.{ErrorKind, other, IngestError, io, Stream, Shared, handshake, connect_once}
use btelem.Ingest.Tcp.Reading.{content, Flows, read_next}
use btelem.Ingest.Tcp.Framing.{frame, read_u32_lem, take_packets, packet_loop-take_packets}
use btelem.Ingest.Reconnect.{Attempt, clear_capture, announce, session, attempt}

-- Addresses that refuse, then one that accepts.
abbrev pub accepts_after :
    List ErrorKind → Stream → List (Result ErrorKind Stream) → List (Result ErrorKind Stream)
accepts_after [] s later = ok s ∷ later
accepts_after (k ∷ refusals) s later = err k ∷ accepts_after refusals s later

-- A store without channels, behind one more revision.
abbrev pub fresh_store : {F : Type 0} → Store.Inner F → Store.Inner F
fresh_store g = record {
  channels = [];
  scalars = [];
  states = [];
  texts = [];
  revision = (g.revision + 1) % 2 ^ 64;
  word_to_bits = [];
}

-- An empty capture of the schema, that starts at `now`.
abbrev pub fresh_capture : ℕ → List ℕ → Option Capture.Inner → Option Capture.Inner
fresh_capture now blob none = none
fresh_capture now blob (some cap) = some (record {
  schema = some blob;
  packets = [];
  bytes = 0;
  cap_bytes = cap.cap_bytes;
  packets_total = 0;
  packets_dropped = 0;
  epoch = some now;
})

clear-fresh_store : {F : Type 0} (g : Store.Inner F) → Store.clear g ≡ fresh_store g
unfolding Store.clear
clear-fresh_store g = refl

announce-fresh_capture :
    (now : ℕ) (blob : List ℕ) (cap : Option Capture.Inner)
    → announce now blob (clear_capture cap) ≡ fresh_capture now blob cap
unfolding Capture.clear Capture.set_schema
announce-fresh_capture now blob none = refl
announce-fresh_capture now blob (some cap) = refl

module _ {F : Type 0} (fl : Float F) where
  connect_once-accepts_after :
      (last : IngestError) (refusals : List ErrorKind) (s : Stream)
      (later : List (Result ErrorKind Stream)) (store : Store.Inner F)
      → connect_once fl last (accepts_after refusals s later) store ≡ handshake fl s store
  unfolding connect_once
  connect_once-accepts_after last [] s later store = refl
  connect_once-accepts_after last (k ∷ refusals) s later store =
      connect_once-accepts_after (io k) refusals s later store

  handshake-frame :
      (schema : Schema) (s : Stream) (more : List ℕ) (store : Store.Inner F) (m : ChannelMap)
      → SchemaFits schema
      → length (schema_bytes schema) < 2 ^ 32
      → Flows false s
      → content s ≡ frame (schema_bytes schema) ++ more
      → (build schema store).1 ≡ ok m
      → (left : Stream) × (handshake fl s store ≡ (
        ok (record { stream = left; schema_buf = schema_bytes schema; map = m }),
        (build schema store).0,
      ))
        × (content left ≡ more)
        × Flows false left
  unfolding handshake
  handshake-frame schema s more store m fits small w e b =
      let blob = schema_bytes schema in
      let (s1, r1, c1, w1) =
        read_next s (to_le 4 (length blob)) (blob ++ more) w
          (e ∙ append_assoc (to_le 4 (length blob)) blob more) in
      let (s2, r2, c2, w2) = read_next s1 blob more w1 c1 in
      let prefix = read_u32_lem s s1 (length blob) small r1 in
      (
        s2,
        rw
            (
              ap (λ r. r.0) prefix,
              ap (λ r. r.1) prefix,
              ap (λ r. r.0) r2,
              decode-schema_bytes schema fits,
              b,
              ap (λ r. r.1) prefix,
              ap (λ r. r.1) r2,
              handshake,
            )
            refl,
        c2,
        w2,
      )

  -- An attempt in which some addresses refuse and the next one accepts, on a stream that does not pause
  -- and begins with a schema of the device, framed, and packets, each framed, however the bytes are cut
  -- into reads: when the schema can be mapped and the stop flag is clear for as many rounds as there are
  -- packets, the attempt leaves nothing in the store and the capture of what was there but the count of
  -- revisions and the capacity, registers the channels of the schema, gives the capture the schema, and
  -- then takes exactly those packets in order, up to the first that ends the session; the next delay is
  -- 250 ms.
  pub attempt-take_packets :
      (refusals : List ErrorKind) (later : List (Result ErrorKind Stream)) (now d : ℕ)
      (schema : Schema) (ps : List (List ℕ)) (s : Stream) (tail : List ℕ) (sh : Shared F)
      (m : ChannelMap)
      → SchemaFits schema
      → length (schema_bytes schema) < 2 ^ 32
      → All (λ p. length p < 2 ^ 32) ps
      → Flows false s
      → content s ≡ frame (schema_bytes schema) ++ (flat frame ps ++ tail)
      → (build schema (fresh_store sh.store)).1 ≡ ok m
      → let (end, after) = take_packets fl now m ps (record {
        store = (build schema (fresh_store sh.store)).0;
        capture = fresh_capture now (schema_bytes schema) sh.capture;
      }) in
        attempt fl
          (record { answers = accepts_after refusals s later; rounds = length ps; now = now })
          d
          sh
        ≡ (end, 250, after)
  unfolding attempt session
  attempt-take_packets refusals later now d schema ps s tail sh m fits small sizes w e b =
      let store = fresh_store sh.store in
      let (left, h, c, w') =
        handshake-frame schema s (flat frame ps ++ tail) store m fits small w e b in
      let a : Attempt = record {
        answers = accepts_after refusals s later;
        rounds = length ps;
        now = now;
      } in
      ap (λ r. session fl a d (clear_capture sh.capture) r.0 r.1)
        (ap (connect_once fl (io other) a.answers) (clear-fresh_store sh.store)
          ∙ connect_once-accepts_after (io other) refusals s later store
          ∙ h)
      ∙ ap (λ r. (r.0, 250, r.1))
          (packet_loop-take_packets fl now m ps left tail _ w' sizes c
            ∙ ap
                (λ cap.
                  take_packets fl now m ps
                    (record { store = (build schema store).0; capture = cap }))
                (announce-fresh_capture now (schema_bytes schema) sh.capture))
