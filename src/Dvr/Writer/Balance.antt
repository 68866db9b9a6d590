-- ===== src/Dvr/Writer/Balance.antt =====
-- Every file and every muxer that the recorder opens is closed once, on every path: none is left
-- open but those of a writer that is ready.
use amldigital_fpv.Prelude.{
  ℕ, ◌+◌, ◌≡◌, refl, Bool, true, false, Option, none, some, arith, Bool-cases, Option-cases, inl,
  inr, not, ◌&&◌, ◌||◌, ◌⊎◌,
}
use amldigital_fpv.Dvr.World.{FilePath, Handle, Env, writer_init, file_opened}
use amldigital_fpv.Codec.{is_h265}
use amldigital_fpv.Dvr.State.{Recorder}
use amldigital_fpv.Dvr.Paths.{resolve_target_file}
use amldigital_fpv.Dvr.Writer.{
  log, mp4_close, mp4_open, write_init, init_writer, allocate_writer, prepare_writer, open_mux,
  open_file, open_writer, close_mux, close_h26x, close_file, close_writer,
}
use amldigital_fpv.Dvr.Writer.Callback.{
  Touches, run_mux-Touches, files_opened, files_closed, muxes_opened, muxes_closed, frames_written,
}

-- `n` files and `m` muxers are open.
pub record Open (files muxes : ℕ) (s : Recorder) : Type 0 where
  pub file_count : files_opened s.history ≡ files_closed s.history + files
  pub mux_count : muxes_opened s.history ≡ muxes_closed s.history + muxes

-- What is open goes with a writer that is ready.
abbrev pub Held : Bool → Option Handle → Option Handle → Bool → Type 0
Held true (some f) (some m) true = Unit {0}
Held true _ _ _ = ⊥
Held false _ _ _ = Unit {0}

abbrev is_some : Option Handle → Bool
is_some none = false
is_some (some h) = true

abbrev pub held : Bool → ℕ
held true = 1
held false = 0

pub record IsBalanced (s : Recorder) : Type 0 where
  pub open_ones : Open (held s.writer_ready) (held s.writer_ready) s
  pub members : Held s.writer_ready s.file s.mux s.writer

-- What closing the writer changes.
pub record Closes (clear_recording : Bool) (s s' : Recorder) : Type 0 where
  pub rest : s' ≡ record s {
    history = s'.history;
    file = s'.file;
    mux = s'.mux;
    writer_ready = false;
    current_file_bytes = s'.current_file_bytes;
    rotate_requested = s'.rotate_requested;
    recording = not clear_recording && s.recording;
  }
  pub frames : frames_written s'.history ≡ frames_written s.history
  pub none_open : Open 0 0 s'

-- What opening the writer changes, with its result.
pub record Opens (mark_recording : Bool) (s : Recorder) (r : Bool × Recorder) : Type 0 where
  pub rest : r.1 ≡ record s {
    history = r.1.history;
    file = r.1.file;
    mux = r.1.mux;
    writer = r.1.writer;
    writer_ready = r.0;
    current_file_bytes = r.1.current_file_bytes;
    rotate_requested = r.1.rotate_requested;
    recording = (mark_recording && r.0) || s.recording;
    frame_duration = r.1.frame_duration;
  }
  pub frames : frames_written r.1.history ≡ frames_written s.history
  pub open_ones : Open (held r.0) (held r.0) r.1
  pub members : Held r.0 r.1.file r.1.mux r.1.writer
  pub reset : r.0 ≡ false ⊎ ((r.1.current_file_bytes ≡ 0) × (r.1.rotate_requested ≡ false))

Held-members :
    (file mux : Option Handle) (writer : Bool)
    → Held true file mux writer
    → (f : Handle) × (m : Handle) × (file ≡ some f) × (mux ≡ some m) × (writer ≡ true)
Held-members (some f) (some m) true h = (f, m, refl, refl, refl)
Held-members (some f) (some m) false h = absurd h
Held-members (some f) none _ h = absurd h
Held-members none _ _ h = absurd h

module _ (env : Env) where
  -- `MP4E_close` closes a muxer and, but for the callbacks, leaves the rest alone.
  mp4_close_lem :
      (n m : ℕ) (h : Handle) (s : Recorder)
      → Open n (m + 1) s
      → let s' = mp4_close env h s in
        Open n m s'
        × (frames_written s'.history ≡ frames_written s.history)
        × (s' ≡ record s {
          history = s'.history;
          current_file_bytes = s'.current_file_bytes;
          rotate_requested = s'.rotate_requested;
        })
  unfolding mp4_close
  mp4_close_lem n m h s o = ground (arith, run_mux-Touches env (env.mp4_close s.history h) s)

  resolve_target_file-Open :
      (n m : ℕ) (s : Recorder)
      → Open n m s
      → let s' = (resolve_target_file env s).1 in
        Open n m s'
        × (s' ≡ record s { history = s'.history })
        × (frames_written s'.history ≡ frames_written s.history)
  unfolding resolve_target_file
  resolve_target_file-Open n m s o = ground arith

  write_init-Touches : (m : Handle) (s : Recorder) → Touches s (write_init env m s).1
  unfolding write_init
  write_init-Touches m s = ground (
    arith,
    run_mux-Touches env
        (env.mp4_write_init s.history m s.video_width s.video_height (is_h265 s.codec))
        (log (writer_init m) s),
  )

  close_ready :
      (c : Bool) (f m : Handle) (s : Recorder)
      → s.writer_ready ≡ true
      → s.file ≡ some f
      → s.mux ≡ some m
      → s.writer ≡ true
      → Open 1 1 s
      → Closes c s (close_writer env c s)
  unfolding close_writer close_mux close_h26x close_file
  close_ready c f m s ready file mux writer o =
      ground (arith, mp4_close_lem 1 0 m (record s { writer_ready = false }))

  -- Closing closes the file and the muxer of a writer that is ready.
  pub close_writer-Closes :
      (c : Bool) (s : Recorder) → IsBalanced s → Closes c s (close_writer env c s)
  unfolding close_writer
  close_writer-Closes c s b = elim (Bool-cases s.writer_ready) [
    | inl ready ↦
        let (f, m, file, mux, writer) =
          Held-members s.file s.mux s.writer (rw ready at b.members) in
        close_ready c f m s ready file mux writer (ground arith)
    | inr closed ↦ ground arith
  ]

  init_writer-Opens :
      (mark : Bool) (f m : Handle) (s : Recorder)
      → s.file ≡ some f
      → s.writer ≡ true
      → s.writer_ready ≡ false
      → Open 1 1 s
      → Opens mark s (init_writer env mark f m s)
  unfolding init_writer log
  init_writer-Opens mark f m s file writer closed o =
      let t = write_init env m s in
      let o' : Open 1 1 t.1 = ground (arith, write_init-Touches m s) in
      ground (arith, write_init-Touches m s, mp4_close_lem 1 0 m t.1 o')

  mp4_open-Opened :
      (n m : ℕ) (s : Recorder)
      → Open n m s
      → let (opened, s') = mp4_open env s in
        Open n (held (is_some opened) + m) s'
        × (frames_written s'.history ≡ frames_written s.history)
        × (s' ≡ record s {
          history = s'.history;
          current_file_bytes = s'.current_file_bytes;
          rotate_requested = s'.rotate_requested;
        })
  unfolding mp4_open
  mp4_open-Opened n m s o = ground (arith, run_mux-Touches env (env.mp4_open s.history) s)

  prepare_writer-Opens :
      (mark : Bool) (f m : Handle) (s : Recorder)
      → s.file ≡ some f
      → s.writer_ready ≡ false
      → Open 1 1 s
      → Opens mark s (prepare_writer env mark f m s)
  unfolding prepare_writer allocate_writer log
  prepare_writer-Opens mark f m s file closed o =
      let t = allocate_writer env s in
      let o' : Open 1 1 t = ground arith in
      ground (arith, init_writer-Opens mark f m t, mp4_close_lem 1 0 m t o')

  open_mux-Opens :
      (mark : Bool) (f : Handle) (s : Recorder)
      → s.file ≡ some f
      → s.writer_ready ≡ false
      → Open 1 0 s
      → Opens mark s (open_mux env mark f s)
  unfolding open_mux log
  open_mux-Opens mark f s file closed o = elim (Option-cases (mp4_open env s).0) [
    | inl refused ↦ ground (arith, mp4_open-Opened 1 0 s o)
    | inr (m, opened) ↦
        let t = (mp4_open env s).1 in
        let o' : Open 1 1 t = ground (arith, mp4_open-Opened 1 0 s o) in
        ground (arith, mp4_open-Opened 1 0 s o, prepare_writer-Opens mark f m t)
  ]

  open_file-Opens :
      (mark : Bool) (path : FilePath) (s : Recorder)
      → s.writer_ready ≡ false
      → Open 0 0 s
      → Opens mark s (open_file env mark path s)
  unfolding open_file log
  open_file-Opens mark path s closed o = elim (Option-cases (env.fopen s.history path)) [
    | inl refused ↦ ground arith
    | inr (f, opened) ↦
        let t = record (log (file_opened f) s) { file = some f } in
        ground (arith, open_mux-Opens mark f t)
  ]

  -- Whatever fails on the way, `open_writer` leaves nothing open when it returns false, and one
  -- file and one muxer when it returns true.
  pub open_writer-Opens :
      (mark : Bool) (s : Recorder)
      → s.writer_ready ≡ false
      → Open 0 0 s
      → Opens mark s (open_writer env mark s)
  unfolding open_writer
  open_writer-Opens mark s closed o =
      let t = resolve_target_file env s in
      ground (arith, resolve_target_file-Open 0 0 s o, open_file-Opens mark t.0 t.1)
