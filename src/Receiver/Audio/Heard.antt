-- ===== src/Receiver/Audio/Heard.antt =====
-- From the packets of the socket to what is played: `loop_read_socket` of src/gstrtpreceiver.cpp
-- gives its payloads to `enqueue_payload` of src/audio_receiver.cpp by the callback of src/main.cpp,
-- while `play_loop` takes them.
use amldigital_fpv.Prelude.{
  list_laws, ℕ, ◌+◌, ◌≤◌, ◌<◌, ◌≡◌, refl, sym, ap, subst, ◌∙◌, true, List, [], ◌∷◌, ◌++◌,
  append-nil, ltb, if◌then◌else◌, arith, length, length-append, Bool-cases, inl, inr,
}
use mathlib.Core.List.{Sublist, nil-sublist}
use mathlib.Core.List.Sublist
use amldigital_fpv.Receiver.Demux.{
  Target, nowhere, to_audio, to_pipeline, demux, Round, nothing, no_buffer, packet, Passed, pass,
  refused, loop_read_socket, Every, IsPayload, loop_read_socket-IsSorted,
}
use amldigital_fpv.Receiver.Audio.{
  AudioReceiver, Decode, enqueue_payload, play_round, play_round-queue, Turn, arrives, plays,
}
use amldigital_fpv.Receiver.Audio.Playing.{Opening, play_loop}
use amldigital_fpv.Receiver.Audio.Playing.Order.{
  sizes_written, sizes, queued, accepted, enqueue_payload-queued, play_loop-sizes,
}

-- What the two threads do, in the order in which they do it.
pub data Sounding : Type 0 where
  reads : Round → Sounding
  plays_next : Sounding

-- The callback, for a packet that is sent to the audio receiver.
unfoldable pub offered : Target → List Turn
offered nowhere = []
offered (to_audio payload) = arrives payload ∷ []
offered (to_pipeline bytes) = []

-- The rounds of the playing thread go on where the reader has left its loop.
unfoldable pub plays_only : List Sounding → List Turn
plays_only [] = []
plays_only (reads r ∷ ss) = plays_only ss
plays_only (plays_next ∷ ss) = plays ∷ plays_only ss

-- What the audio receiver meets.
unfoldable pub heard : ℕ → List Sounding → List Turn
unfolding offered plays_only
heard video_pt [] = []
heard video_pt (plays_next ∷ ss) = plays ∷ heard video_pt ss
heard video_pt (reads nothing ∷ ss) = heard video_pt ss
heard video_pt (reads no_buffer ∷ ss) = heard video_pt ss
heard video_pt (reads (packet bytes ok) ∷ ss) =
    let target = demux video_pt true bytes in
    let rest = heard video_pt ss in
    offered target ++ (if refused target ok then plays_only ss else rest)

-- The rounds of the reader.
unfoldable pub rounds_of : List Sounding → List Round
rounds_of [] = []
rounds_of (reads r ∷ ss) = r ∷ rounds_of ss
rounds_of (plays_next ∷ ss) = rounds_of ss

-- The payloads that arrive.
unfoldable pub arriving : List Turn → List (List ℕ)
arriving [] = []
arriving (arrives payload ∷ ts) = payload ∷ arriving ts
arriving (plays ∷ ts) = arriving ts

arriving-append : (ts us : List Turn) → arriving (ts ++ us) ≡ arriving ts ++ arriving us
unfolding arriving
arriving-append [] us = refl
arriving-append (arrives payload ∷ ts) us = ap (λ l. payload ∷ l) (arriving-append ts us)
arriving-append (plays ∷ ts) us = arriving-append ts us

plays_only-arriving : (ss : List Sounding) → arriving (plays_only ss) ≡ []
unfolding plays_only arriving
plays_only-arriving [] = refl
plays_only-arriving (reads r ∷ ss) = plays_only-arriving ss
plays_only-arriving (plays_next ∷ ss) = plays_only-arriving ss

pass-arriving : (t : Target) (p : Passed) → (pass t p).audio ≡ p.audio ++ arriving (offered t)
unfolding pass offered arriving
pass-arriving nowhere p = sym (append-nil p.audio)
pass-arriving (to_audio payload) p = refl
pass-arriving (to_pipeline bytes) p = sym (append-nil p.audio)

-- What arrives is what the reader sends, whatever the playing thread does meanwhile.
heard-arriving :
    (video_pt : ℕ) (ss : List Sounding) (p : Passed)
    → (loop_read_socket video_pt true (rounds_of ss) p).audio
      ≡ p.audio ++ arriving (heard video_pt ss)
unfolding loop_read_socket rounds_of heard arriving
heard-arriving video_pt [] p = sym (append-nil p.audio)
heard-arriving video_pt (plays_next ∷ ss) p = heard-arriving video_pt ss p
heard-arriving video_pt (reads nothing ∷ ss) p = heard-arriving video_pt ss p
heard-arriving video_pt (reads no_buffer ∷ ss) p = heard-arriving video_pt ss p
heard-arriving video_pt (reads (packet bytes ok) ∷ ss) p =
    let target = demux video_pt true bytes in
    let now = pass-arriving target p in
    elim (Bool-cases (refused target ok)) [
      | inl left ↦
          rw
            (
              left,
              arriving-append (offered target) (plays_only ss),
              plays_only-arriving ss,
              append-nil (arriving (offered target)),
            )
            now
      | inr on ↦
          rw (on, arriving-append (offered target) (heard video_pt ss))
            (simp (heard-arriving video_pt ss (pass target p), now, list_laws))
    ]

queued-sublist : (payload : List ℕ) (a : AudioReceiver) → Sublist (queued payload a) (payload ∷ [])
unfolding queued
queued-sublist [] a = nil-sublist _
queued-sublist (b ∷ bs) a = elim (Bool-cases (ltb 256 (length a.queue))) [
  | inl full ↦ rw full (nil-sublist _)
  | inr room ↦ rw room (Sublist.refl _)
]

accepted-sublist :
    (decode : Decode) (ts : List Turn) (a : AudioReceiver)
    → Sublist (accepted decode ts a) (arriving ts)
unfolding accepted arriving
accepted-sublist decode [] a = nil-sublist []
accepted-sublist decode (arrives payload ∷ ts) a =
    Sublist.append (queued-sublist payload a)
      (accepted-sublist decode ts (enqueue_payload payload a))
accepted-sublist decode (plays ∷ ts) a = accepted-sublist decode ts (play_round decode a).0

-- What is played of a new receiver's payloads: a run of the reader and of the playing thread.
abbrev pub nothing_passed : Passed
nothing_passed = record { video = []; audio = [] }

-- With a decoder and an output, from an empty queue, over any order of packets and of rounds of the
-- playing thread: what is written, and then what waits, are the sizes to which some of the payloads
-- come that the socket's reader sent, in the order in which it sent them.
pub heard-played :
    (video_pt : ℕ) (decode : Decode) (ss : List Sounding) (a : AudioReceiver)
    → a.queue ≡ []
    → let opening : Opening = record { decoder = true; opus_ok = true; output = true } in
      let (a', calls) = play_loop opening decode (heard video_pt ss) a in
      (ps : List (List ℕ)) × Sublist ps
        (loop_read_socket video_pt true (rounds_of ss) nothing_passed).audio
      × (sizes_written calls ++ sizes decode a'.decoded a'.queue ≡ sizes decode [] ps)
heard-played video_pt decode ss a empty =
    let opening : Opening = record { decoder = true; opus_ok = true; output = true } in
    let ts = heard video_pt ss in
    let fresh = record a { decoded = [] } in
    let ps = accepted decode ts fresh in
    (
      ps,
      subst (λ l. Sublist ps l) (sym (heard-arriving video_pt ss nothing_passed))
          (accepted-sublist decode ts fresh),
      play_loop-sizes opening decode ts a ∙ ap (λ q. sizes decode [] (q ++ ps)) empty,
    )

queued-all :
    (payload : List ℕ) (a : AudioReceiver)
    → length a.queue < 257
    → IsPayload payload
    → queued payload a ≡ payload ∷ []
unfolding queued
queued-all [] a room p = ground arith
queued-all (b ∷ bs) a room p = ground arith

-- With room for all that arrives, all of it is taken.
accepted-all :
    (decode : Decode) (ts : List Turn) (a : AudioReceiver)
    → length a.queue + length (arriving ts) ≤ 257
    → Every IsPayload (arriving ts)
    → accepted decode ts a ≡ arriving ts
unfolding accepted arriving
accepted-all decode [] a room every = refl
accepted-all decode (arrives payload ∷ ts) a room every =
    let one = queued-all payload a (omega arith) every.0 in
    let longer : length (enqueue_payload payload a).queue ≡ length a.queue + 1 =
      ap length (enqueue_payload-queued payload a ∙ ap (λ l. a.queue ++ l) one)
      ∙ length-append a.queue (payload ∷ []) in
    ap (λ l. l ++ accepted decode ts (enqueue_payload payload a)) one
    ∙ ap (λ l. payload ∷ l)
        (accepted-all decode ts (enqueue_payload payload a) (omega (arith, longer)) every.1)
accepted-all decode (plays ∷ ts) a room every =
    accepted-all decode ts (play_round decode a).0 (omega (arith, (play_round-queue decode a).0))
      every

-- The same, where the reader sends no more payloads than the queue holds at most: then none is lost.
pub heard-all :
    (video_pt : ℕ) (decode : Decode) (ss : List Sounding) (a : AudioReceiver)
    → a.queue ≡ []
    → let sent = (loop_read_socket video_pt true (rounds_of ss) nothing_passed).audio in
      length sent ≤ 257
      → let opening : Opening = record { decoder = true; opus_ok = true; output = true } in
        let (a', calls) = play_loop opening decode (heard video_pt ss) a in
        sizes_written calls ++ sizes decode a'.decoded a'.queue ≡ sizes decode [] sent
heard-all video_pt decode ss a empty few =
    let opening : Opening = record { decoder = true; opus_ok = true; output = true } in
    let ts = heard video_pt ss in
    let fresh = record a { decoded = [] } in
    let sent = heard-arriving video_pt ss nothing_passed in
    let sorted =
      loop_read_socket-IsSorted video_pt true (rounds_of ss) nothing_passed
        (record { video = tt; audio = tt }) in
    let all =
      accepted-all decode ts fresh (rw (empty, sym sent) (omega (arith, few)))
        (subst (λ l. Every IsPayload l) sent sorted.audio) in
    play_loop-sizes opening decode ts a
    ∙ ap (λ q. sizes decode [] (q ++ accepted decode ts fresh)) empty
    ∙ ap (λ ps. sizes decode [] ps) (all ∙ sym sent)
