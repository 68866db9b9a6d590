-- ===== src/Dvr/Phases/Steps.antt =====
-- The steps of the phases that single commands are.
use amldigital_fpv.Prelude.{
  ◌≡◌, refl, ◌⊎◌, inl, inr, ◌∙◌, ap, sym, subst, Bool, true, false, List, [], ◌∷◌, some, arith,
  Bool-cases, ℕ, ◌+◌, ◌-◌, ◌%◌, ◌^◌, if◌then◌else◌,
}
use amldigital_fpv.Floats.{Floats}
use amldigital_fpv.Ring
use amldigital_fpv.Dvr.World.{Frame, Env, Status, status_ok, bad_arguments, failure, read_clock}
use amldigital_fpv.Dvr.State.{Command, start, frame, Recorder, update_frame_rate}
use amldigital_fpv.Dvr.Writer.{log}
use amldigital_fpv.Dvr.Writer.Balance.{open_writer-Opens}
use amldigital_fpv.Dvr.Worker.{
  warm_up, finish_warmup, begin_warmup, count_frame, outcome, write_frame, after_write,
  stop_or_rotate, write_nal, sample_duration, record_frame, on_frame,
}
use amldigital_fpv.Dvr.Worker.Sound.{IsConsistent, rotate-Rotates, finish_recording-ended}
use amldigital_fpv.Dvr.Worker.Rounds.{
  IsDrained, write_nal-IsDrained, rotate_if_requested-IsDrained, drain-ready, record_frame-stalled,
}
use amldigital_fpv.Dvr.Worker.Invariant.{with_frame}
use amldigital_fpv.Dvr.Phases.{
  Phase, idle, warming, writing, stalled, phase_of, phase, Goes, begins, goes_on_warming,
  goes_on_writing, goes_on_stalled, drops, counts, opens, cannot_open, writes, writes_last,
  loses_writer, buffers,
}

-- A recording is over, or still warmed up: no frame takes it back to its warm-up.
abbrev IsWarm : Recorder → Type 0
IsWarm s = (s.recording ≡ false) ⊎ (s.warmup_done ≡ true)

module _ (env : Env) where
  stop_or_rotate-IsWarm : (s : Recorder) → IsDrained s → IsWarm (outcome (stop_or_rotate env s))
  unfolding stop_or_rotate
  stop_or_rotate-IsWarm s d = ground (
    arith,
    finish_recording-ended env (record s { stop_requested = false }),
    rotate-Rotates env s d.recording d.sound.balanced,
  )

  after_write-IsWarm :
      (status : Status) (s : Recorder) → IsDrained s → IsWarm (outcome (after_write env status s))
  unfolding after_write
  after_write-IsWarm failure s d = inr d.warm
  after_write-IsWarm status_ok s d =
      stop_or_rotate-IsWarm _ (rotate_if_requested-IsDrained env s d).0
  after_write-IsWarm bad_arguments s d =
      stop_or_rotate-IsWarm _ (rotate_if_requested-IsDrained env s d).0

  write_frame-IsWarm :
      (f : Frame) (s : Recorder) → IsDrained s → IsWarm (outcome (write_frame env f s))
  unfolding write_frame
  write_frame-IsWarm f s d =
      after_write-IsWarm (write_nal env f (sample_duration s) s).0 _
        (write_nal-IsDrained env f (sample_duration s) s d).0

  record_frame-IsWarm :
      (f : Frame) (s : Recorder)
      → IsConsistent s
      → s.writer_ready ≡ true
      → IsWarm (record_frame env f s)
  unfolding record_frame
  record_frame-IsWarm f s c ready =
      let (q, d, e) = drain-ready env f (Ring.push s.ring_buffer (some f)).size s c ready in
      rw e (write_frame-IsWarm f (record s { ring_buffer = q }) d)

-- A frame that was written leads to one of three phases.
wrote-Goes :
    (f : Frame) (recording warm ready : Bool)
    → (recording ≡ false) ⊎ (warm ≡ true)
    → Goes writing (frame (some f)) (phase_of recording warm ready) (f ∷ [])
wrote-Goes f false warm ready h = writes_last
wrote-Goes f true true true h = writes
wrote-Goes f true true false h = loses_writer
wrote-Goes f true false ready h = ground arith

-- A frame in the warm-up: it goes on, the recording is given up, or its writer is ready.
abbrev IsWarmed : Bool → Bool → Bool → Type 0
IsWarmed recording warm ready =
    (recording ≡ false)
    ⊎ (((recording ≡ true) × (warm ≡ false))
        ⊎ ((recording ≡ true) × (warm ≡ true) × (ready ≡ true)))

warmed-Goes :
    (f : Frame) (recording warm ready : Bool)
    → IsWarmed recording warm ready
    → Goes warming (frame (some f)) (phase_of recording warm ready) []
warmed-Goes f false warm ready h = cannot_open
warmed-Goes f true false ready h = counts
warmed-Goes f true true true h = opens
warmed-Goes f true true false h = ground arith

pub start-Goes :
    (recording warm ready : Bool)
    → Goes
        (phase_of recording warm ready)
        start
        (if recording then phase_of true warm ready else phase_of true false ready)
        []
start-Goes false warm ready = begins
start-Goes true false ready = goes_on_warming
start-Goes true true true = goes_on_writing
start-Goes true true false = goes_on_stalled

pub Goes-cast :
    {p p' q q' : Phase} {cmd : Command} {fs gs : List Frame}
    → p ≡ p'
    → q ≡ q'
    → fs ≡ gs
    → Goes p cmd q fs
    → Goes p' cmd q' gs
Goes-cast {p' = p'} {q = q} {q' = q'} {cmd = cmd} {fs = fs} a b e g =
    subst (λ l. Goes p' cmd q' l) e
      (subst (λ x. Goes p' cmd x fs) b (subst (λ x. Goes x cmd q fs) a g))

module _ (floats : Floats) (env : Env) where
  open floats use {Double}

  finish_warmup-IsWarmed :
      (elapsed : ℕ) (s : Recorder)
      → s.recording ≡ true
      → s.warmup_done ≡ false
      → IsConsistent s
      → let s' = finish_warmup floats env elapsed s in
        IsWarmed s'.recording s'.warmup_done s'.writer_ready
  unfolding finish_warmup update_frame_rate
  finish_warmup-IsWarmed elapsed s r w c =
      ground (arith, open_writer-Opens env false s (ground arith) (ground arith))

  warm_up-IsWarmed :
      (s : Recorder)
      → s.recording ≡ true
      → s.warmup_done ≡ false
      → IsConsistent s
      → let s' = warm_up floats env s in IsWarmed s'.recording s'.warmup_done s'.writer_ready
  unfolding warm_up
  warm_up-IsWarmed s r w c =
      let t = count_frame (begin_warmup env s) in
      let elapsed = (env.clock t.history + 2 ^ 64 - t.warmup_start_ms) % 2 ^ 64 in
      let t' = log read_clock t in
      let c' : IsConsistent t' × (t'.recording ≡ true) × (t'.warmup_done ≡ false) = ground arith in
      ground (arith, c', finish_warmup-IsWarmed elapsed t' c'.1 c'.2 c'.0)

  on_frame-warm :
      (f : Frame) (s : Recorder)
      → s.recording ≡ true
      → s.warmup_done ≡ true
      → on_frame floats env (some f) s ≡ record_frame env f s
  unfolding on_frame
  on_frame-warm f s r w = ground arith

  on_frame-cold :
      (f : Frame) (s : Recorder)
      → s.recording ≡ true
      → s.warmup_done ≡ false
      → on_frame floats env (some f) s ≡ warm_up floats env s
  unfolding on_frame
  on_frame-cold f s r w = ground arith

  on_frame-idle :
      (f : Frame) (s : Recorder) → s.recording ≡ false → on_frame floats env (some f) s ≡ s
  unfolding on_frame
  on_frame-idle f s r = ground arith

  warm-Goes :
      (f : Frame) (s : Recorder)
      → IsConsistent s
      → s.recording ≡ true
      → s.warmup_done ≡ true
      → Goes
          (phase s)
          (frame (some f))
          (phase (record_frame env f s))
          (with_frame s.writer_ready f [])
  warm-Goes f s c r w = elim (Bool-cases s.writer_ready) [
    | inl ready ↦
        let t = record_frame env f s in
        Goes-cast (ground arith) refl (ap (λ b. with_frame b f []) (sym ready)) (
          wrote-Goes f t.recording t.warmup_done t.writer_ready
            (record_frame-IsWarm env f s c ready))
    | inr lost ↦
        let t = record s { ring_buffer = Ring.push s.ring_buffer (some f) } in
        let still : stalled ≡ phase t = ground arith in
        Goes-cast (ground arith) (still ∙ ap phase (sym (record_frame-stalled env f s lost)))
          (ap (λ b. with_frame b f []) (sym lost)) buffers
  ]

  pub frame-Goes :
      (f : Frame) (s : Recorder)
      → IsConsistent s
      → Goes
          (phase s)
          (frame (some f))
          (phase (on_frame floats env (some f) s))
          (with_frame s.writer_ready f [])
  frame-Goes f s c = elim (Bool-cases s.recording) [
    | inl r ↦ elim (Bool-cases s.warmup_done) [
      | inl w ↦ Goes-cast refl (ap phase (sym (on_frame-warm f s r w))) refl (warm-Goes f s c r w)
      | inr cold ↦
          let t = warm_up floats env s in
          let lost : s.writer_ready ≡ false = ground arith in
          Goes-cast (ground arith) (ap phase (sym (on_frame-cold f s r cold)))
            (ap (λ b. with_frame b f []) (sym lost))
            (warmed-Goes f t.recording t.warmup_done t.writer_ready (warm_up-IsWarmed s r cold c))
    ]
    | inr none_on ↦
        let lost : s.writer_ready ≡ false = ground arith in
        let still : idle ≡ phase s = ground arith in
        Goes-cast still (still ∙ ap phase (sym (on_frame-idle f s none_on)))
          (ap (λ b. with_frame b f []) (sym lost)) drops
  ]
