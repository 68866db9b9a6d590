-- ===== src/Dvr/Worker/Rounds.antt =====
-- One round of the loop that writes: the frame that was just pushed is popped and written.
use amldigital_fpv.Prelude.{
  ℕ, suc, zero, ◌≡◌, refl, ◌∙◌, sym, ap, length, List, [], inl, inr, true, false, ◌∷◌, Option, some,
  arith, Bool-cases,
}
use amldigital_fpv.Ring.{Ring, Pop, blocks, fault, popped}
use amldigital_fpv.Ring
use amldigital_fpv.Ring.Invariant.{
  IsValid, IsValidPop, push-IsValid, capacity-push, capacity-pop, pop-IsValidPop,
}
use amldigital_fpv.Dvr.World.{Frame, Status, status_ok, bad_arguments, failure, Env}
use amldigital_fpv.Dvr.State.{Recorder}
use amldigital_fpv.Dvr.Writer.Callback.{run_mux-Touches, frames_written}
use amldigital_fpv.Dvr.Writer.Balance.{IsBalanced}
use amldigital_fpv.Dvr.Worker.{
  outcome, write_nal, rotate_if_requested, stop_or_rotate, after_write, write_frame, on_pop,
  may_write, drain, record_frame, sample_duration,
}
use amldigital_fpv.Ring.Refine.{contents, length-contents, push_refines, pop_refines, Pops, enqueue}
use amldigital_fpv.Dvr.Worker.Sound.{
  IsSound, IsConsistent, rotate-Rotates, rotate-IsSound, finish_recording-IsConsistent,
  finish_recording-size, finish_recording-frames,
}

push-size :
    (r : Ring (Option Frame)) (f : Option Frame)
    → r.size ≡ 0
    → r.capacity ≡ 120
    → (Ring.push r f).size ≡ 1
unfolding Ring.push Ring.make_room Ring.store
push-size r f e c = ground arith

-- A ring of one slot or more that holds nothing: what is pushed is popped next, and nothing is left.
pop-push_empty :
    (r : Ring (Option Frame)) (f : Option Frame)
    → IsValid r
    → r.size ≡ 0
    → r.capacity ≡ 120
    → (q : Ring (Option Frame)) × (Ring.pop (Ring.push r f) ≡ popped f q)
      × (q.size ≡ 0)
      × IsValid q
      × (q.capacity ≡ 120)
unfolding enqueue
pop-push_empty r f v e c =
    only (Ring.pop (Ring.push r f)) refl (pop_refines (push-IsValid {r = r} f v))
      (pop-IsValidPop (push-IsValid {r = r} f v))
  where
    held : contents (Ring.push r f) ≡ some f ∷ []
    held = push_refines {r = r} f v ∙ ground arith

    only :
        (p : Pop (Option Frame))
        → Ring.pop (Ring.push r f) ≡ p
        → Pops (contents (Ring.push r f)) p
        → IsValidPop p
        → (q : Ring (Option Frame)) × (Ring.pop (Ring.push r f) ≡ popped f q)
          × (q.size ≡ 0)
          × IsValid q
          × (q.capacity ≡ 120)
    only blocks is refs valid = cc (held, refs)
    only fault is refs valid = absurd valid
    only (popped g q) is refs valid =
        let both : some f ∷ [] ≡ some g ∷ contents q = sym held ∙ refs in
        let same : g ≡ f = ground arith in
        let nothing : contents q ≡ [] = ground arith in
        (
          q,
          is ∙ ap (λ x. popped x q) same,
          sym (length-contents q) ∙ ap length nothing,
          valid,
          capacity-pop (Ring.push r f) q g is ∙ capacity-push r f ∙ c,
        )

-- A recording whose ring is drained.
pub record IsDrained (s : Recorder) : Type 0 where
  pub sound : IsSound s
  pub recording : s.recording ≡ true
  pub warm : s.warmup_done ≡ true
  pub empty : s.ring_buffer.size ≡ 0

-- After a round: whatever has happened to the file, the ring is drained, and these frames are
-- written.
pub record IsRound (written : List Frame) (s : Recorder) : Type 0 where
  pub consistent : IsConsistent s
  pub empty : s.ring_buffer.size ≡ 0
  pub frames : frames_written s.history ≡ written

module _ (env : Env) where
  -- A drained ring ends the loop, whatever the fuel.
  pub drain-empty : (fuel : ℕ) (s : Recorder) → s.ring_buffer.size ≡ 0 → drain env fuel s ≡ s
  unfolding drain may_write
  drain-empty zero s e = refl
  drain-empty (suc fuel) s e = ground arith

  write_nal-Touched :
      (f : Frame) (d : ℕ) (s : Recorder)
      → IsSound s
      → let s' = (write_nal env f d s).1 in
        IsSound s'
        × (s' ≡ record s {
          history = s'.history;
          current_file_bytes = s'.current_file_bytes;
          rotate_requested = s'.rotate_requested;
        })
        × (frames_written s'.history ≡ f ∷ frames_written s.history)
  unfolding write_nal
  write_nal-Touched f d s v =
      ground (arith, run_mux-Touches env (env.mp4_write_nal s.history f d) s)

  pub write_nal-IsDrained :
      (f : Frame) (d : ℕ) (s : Recorder)
      → IsDrained s
      → let s' = (write_nal env f d s).1 in
        IsDrained s'
        × (frames_written s'.history ≡ f ∷ frames_written s.history)
        × (s'.stop_requested ≡ s.stop_requested)
        × (s'.writer_ready ≡ s.writer_ready)
  write_nal-IsDrained f d s v = ground (arith, write_nal-Touched f d s v.sound)

  pub rotate_if_requested-IsDrained :
      (s : Recorder)
      → IsDrained s
      → let s' = rotate_if_requested env s in
        IsDrained s'
        × (frames_written s'.history ≡ frames_written s.history)
        × (s'.stop_requested ≡ s.stop_requested)
  unfolding rotate_if_requested
  rotate_if_requested-IsDrained s d =
      let t = record s { rotate_requested = false } in
      ground (arith, rotate-Rotates env t d.recording, rotate-IsSound env t d.recording d.warm)

  stop_or_rotate-IsRound :
      (s : Recorder)
      → IsDrained s
      → IsRound (frames_written s.history) (outcome (stop_or_rotate env s))
  unfolding stop_or_rotate
  stop_or_rotate-IsRound s d = elim (Bool-cases s.stop_requested) [
    | inl stops ↦
        let t = record s { stop_requested = false } in
        let b : IsBalanced t = ground arith in
        rw stops (record {
          consistent = finish_recording-IsConsistent env t d.sound.ring d.sound.capacity b;
          empty = (finish_recording-size env t).0;
          frames = finish_recording-frames env t b;
        })
    | inr goes ↦ ground (
      arith,
      rotate-Rotates env s d.recording d.sound.balanced,
      rotate-IsSound env s d.recording d.warm d.sound,
    )
  ]

  after_write-IsRound :
      (status : Status) (s : Recorder)
      → IsDrained s
      → IsRound (frames_written s.history) (outcome (after_write env status s))
  unfolding after_write
  after_write-IsRound status_ok s d =
      let t = rotate_if_requested-IsDrained s d in
      ground (arith, t, stop_or_rotate-IsRound (rotate_if_requested env s) t.0)
  after_write-IsRound bad_arguments s d =
      let t = rotate_if_requested-IsDrained s d in
      ground (arith, t, stop_or_rotate-IsRound (rotate_if_requested env s) t.0)
  after_write-IsRound failure s d = ground arith

  pub write_frame-IsRound :
      (f : Frame) (s : Recorder)
      → IsDrained s
      → IsRound (f ∷ frames_written s.history) (outcome (write_frame env f s))
  unfolding write_frame
  write_frame-IsRound f s d =
      let t = write_nal env f (sample_duration s) s in
      let v = write_nal-IsDrained f (sample_duration s) s d in
      ground (arith, v, after_write-IsRound t.0 t.1 v.0)

  -- A recording that has lost its writer keeps the frame, and writes none.
  pub record_frame-stalled :
      (f : Frame) (s : Recorder)
      → s.writer_ready ≡ false
      → record_frame env f s ≡ record s { ring_buffer = Ring.push s.ring_buffer (some f) }
  unfolding record_frame drain may_write
  record_frame-stalled f s e = ground arith

  drain-pops :
      (f : Frame) (fuel : ℕ) (s : Recorder) (q : Ring (Option Frame))
      → may_write s ≡ true
      → Ring.pop s.ring_buffer ≡ popped (some f) q
      → IsDrained (record s { ring_buffer = q })
      → drain env (suc fuel) s ≡ outcome (write_frame env f (record s { ring_buffer = q }))
  unfolding drain on_pop
  drain-pops f fuel s q writes pops d =
      let t = record s { ring_buffer = q } in
      let r = write_frame-IsRound f t d in
      ground (arith, drain-empty fuel (outcome (write_frame env f t)))

  -- A ready writer gets the frame at once, in one round of the loop, and the loop ends: whatever
  -- fuel there is beyond that of one round.
  pub drain-ready :
      (f : Frame) (fuel : ℕ) (s : Recorder)
      → IsConsistent s
      → s.writer_ready ≡ true
      → (q : Ring (Option Frame)) × IsDrained (record s { ring_buffer = q })
        × (drain env (suc fuel) (record s { ring_buffer = Ring.push s.ring_buffer (some f) })
            ≡ outcome (write_frame env f (record s { ring_buffer = q })))
  unfolding may_write
  drain-ready f fuel s c ready =
      let nothing : s.ring_buffer.size ≡ 0 = ground arith in
      let (q, pops, none_left, valid, cap) =
        pop-push_empty s.ring_buffer (some f) c.sound.ring nothing c.sound.capacity in
      let t = record s { ring_buffer = Ring.push s.ring_buffer (some f) } in
      let writes : may_write t ≡ true =
        ground (arith, push-size s.ring_buffer (some f) nothing c.sound.capacity) in
      let d : IsDrained (record s { ring_buffer = q }) = ground arith in
      (q, d, drain-pops f fuel t q writes pops d)
