-- ===== src/Dvr/Healthy/Turns.antt =====
-- Steps of a recording that goes well: a frame that comes, a rate that is told.
use amldigital_fpv.Prelude.{
  list_laws, ◌≡◌, ◌⊎◌, inl, inr, refl, sym, ap, ◌∙◌, Bool, true, false, List, [], ◌∷◌, ◌++◌,
  append-nil, some, arith, Bool-cases,
}
use amldigital_fpv.Floats.{Floats}
use amldigital_fpv.Dvr.World.{Frame}
use amldigital_fpv.Dvr.State.{frame, Recorder, push_command, enqueue_frame, update_frame_rate}
use amldigital_fpv.Dvr.Worker.Sound.{IsConsistent}
use amldigital_fpv.Dvr.Phases.{Phase, idle, writing, stalled, phase}
use amldigital_fpv.Dvr.Phases.Consequences.{carried, frame_commands}
use amldigital_fpv.Dvr.Phases.Refine.{ready-writing}
use amldigital_fpv.Dvr.Recorded.{recorded, push_command-recorded, update_frame_rate-recorded}

-- No writer, and none to come by a frame.
abbrev pub is_lost : Phase → Bool
is_lost idle = true
is_lost stalled = true
is_lost _ = false

lost-unready : (s : Recorder) → IsConsistent s → is_lost (phase s) ≡ true → s.writer_ready ≡ false
lost-unready s c lost = elim (Bool-cases s.writer_ready) [
  | inl ready ↦ absurd (ground (arith, ap is_lost (ready-writing s c ready), lost))
  | inr gone ↦ gone
]

frame_commands-append :
    (q : List Frame) (f : Frame)
    → frame_commands q ++ frame (some f) ∷ [] ≡ frame_commands (q ++ f ∷ [])
unfolding frame_commands
frame_commands-append [] f = refl
frame_commands-append (g ∷ q) f = ap (λ l. frame (some g) ∷ l) (frame_commands-append q f)

-- Only frames wait for a worker that runs.
pub record IsFed (s : Recorder) : Type 0 where
  pub consistent : IsConsistent s
  pub running : s.running ≡ true
  pub frames : (q : List Frame) × (s.queue ≡ frame_commands q)

enqueue_frame-IsFed : (f : Frame) (s : Recorder) → IsFed s → IsFed (enqueue_frame (some f) s)
unfolding enqueue_frame push_command
enqueue_frame-IsFed f s fed =
    let (q, queue) = fed.frames in
    elim (Bool-cases s.recording) [
      | inl records ↦ record {
        consistent = ground (arith, fed.consistent);
        running = ground (arith, fed.running);
        frames = (q ++ f ∷ [], ground (arith, fed.running, queue, frame_commands-append q f));
      }
      | inr idles ↦ record {
        consistent = ground (arith, fed.consistent);
        running = ground (arith, fed.running);
        frames = (q, ground (arith, fed.running, queue));
      }
    ]

enqueue_frame-phase : (f : Frame) (s : Recorder) → phase (enqueue_frame (some f) s) ≡ phase s
unfolding enqueue_frame push_command
enqueue_frame-phase f s = ground arith

enqueue_frame-all :
    (f : Frame) (s : Recorder)
    → s.running ≡ true
    → phase s ≡ writing
    → recorded (enqueue_frame (some f) s) ≡ recorded s ++ f ∷ []
unfolding enqueue_frame carried
enqueue_frame-all f s running w =
    ground (arith, running, w, push_command-recorded (frame (some f)) s)

-- From one state to another, where the frames came: a lost recorder stays lost, and one that writes
-- goes on with nothing dropped, or is lost.
pub record Holds (s s' : Recorder) (fs : List Frame) : Type 0 where
  pub lost : is_lost (phase s) ≡ true → is_lost (phase s') ≡ true
  pub healthy :
      phase s ≡ writing
      → ((phase s' ≡ writing) × (recorded s' ≡ recorded s ++ fs)) ⊎ (is_lost (phase s') ≡ true)

-- What keeps the phase, and adds the frames where the recorder writes.
pub same_phase-Holds :
    (s s' : Recorder) (fs : List Frame)
    → phase s' ≡ phase s
    → (phase s ≡ writing → recorded s' ≡ recorded s ++ fs)
    → Holds s s' fs
same_phase-Holds s s' fs same all = record {
  lost = λ l. ap is_lost same ∙ l;
  healthy = λ w. inl (same ∙ w, all w);
}

pub stay-Holds : (s : Recorder) → Holds s s []
stay-Holds s = same_phase-Holds s s [] refl (λ w. sym (append-nil (recorded s)))

-- One after the other.
pub Holds-trans :
    {s t u : Recorder} {fs gs : List Frame} → Holds s t fs → Holds t u gs → Holds s u (fs ++ gs)
Holds-trans {s} {t} {u} {fs} {gs} first second = record {
  lost = λ l. second.lost (first.lost l);
  healthy = λ w. elim (first.healthy w) [
    | inl (on, some_more) ↦ elim (second.healthy on) [
      | inl (still, more) ↦ inl (still, simp (more, some_more, list_laws))
      | inr gone ↦ inr gone
    ]
    | inr gone ↦ inr (second.lost gone)
  ];
}

-- A writer that is ready at both ends was never lost.
pub Holds-recorded :
    {s s' : Recorder} {fs : List Frame}
    → Holds s s' fs
    → IsConsistent s
    → IsConsistent s'
    → s.writer_ready ≡ true
    → s'.writer_ready ≡ true
    → recorded s' ≡ recorded s ++ fs
Holds-recorded {s} {s'} holds c c' before behind = elim (holds.healthy (ready-writing s c before)) [
  | inl (on, all) ↦ all
  | inr gone ↦ absurd (ground (arith, lost-unready s' c' gone, behind))
]

-- The same, where only frames wait behind it.
pub record IsTurn (s s' : Recorder) (fs : List Frame) : Type 0 where
  pub fed : IsFed s'
  pub holds : Holds s s' fs

pub stay-IsTurn : (s : Recorder) → IsFed s → IsTurn s s []
stay-IsTurn s fed = record { fed = fed; holds = stay-Holds s }

pub IsTurn-trans :
    {s t u : Recorder} {fs gs : List Frame} → IsTurn s t fs → IsTurn t u gs → IsTurn s u (fs ++ gs)
IsTurn-trans first second = record {
  fed = second.fed;
  holds = Holds-trans first.holds second.holds;
}

pub IsTurn-recorded :
    {s s' : Recorder} {fs : List Frame}
    → IsTurn s s' fs
    → IsConsistent s
    → s.writer_ready ≡ true
    → s'.writer_ready ≡ true
    → recorded s' ≡ recorded s ++ fs
IsTurn-recorded turn c before behind = Holds-recorded turn.holds c turn.fed.consistent before behind

pub enqueue_frame-IsTurn :
    (f : Frame) (s : Recorder) → IsFed s → IsTurn s (enqueue_frame (some f) s) (f ∷ [])
enqueue_frame-IsTurn f s fed = record {
  fed = enqueue_frame-IsFed f s fed;
  holds =
      same_phase-Holds s _ (f ∷ []) (enqueue_frame-phase f s) (enqueue_frame-all f s fed.running);
}

pub update_frame_rate-IsTurn :
    (floats : Floats) (fps : floats.Double) (s : Recorder)
    → IsFed s
    → IsTurn s (update_frame_rate floats fps s) []
update_frame_rate-IsTurn floats fps s fed = record {
  fed = unfold update_frame_rate in ground (arith, fed);
  holds =
      same_phase-Holds s _ [] (unfold update_frame_rate in ground arith)
        (λ w. update_frame_rate-recorded floats fps s ∙ sym (append-nil (recorded s)));
}
