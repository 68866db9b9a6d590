-- ===== src/Dvr/Protocol/Writer.antt =====
-- The writer of Dvr/Writer keeps to the order.
use amldigital_fpv.Prelude.{
  ◌≡◌, refl, Bool, true, false, Option, none, some, arith, Bool-cases, Option-cases, inl, inr,
}
use amldigital_fpv.Prelude.Int.{ℤ}
use amldigital_fpv.Dvr.World.{
  Bytes, Handle, FilePath, Muxing, done, callback, Env, file_opened, writer_init, mux_closed,
}
use amldigital_fpv.Codec.{is_h265}
use amldigital_fpv.Dvr.State.{Recorder}
use amldigital_fpv.Dvr.Paths.{resolve_target_file, target_in, fixed_target, make_directories}
use amldigital_fpv.Dvr.Writer.{
  note_end, write_at, file_write_callback, run_mux, log, mp4_close, mp4_open, write_init,
  init_writer, allocate_writer, finish_open, prepare_writer, open_mux, open_file, open_writer,
  close_mux, close_h26x, close_file, close_writer, rotate_recording_file,
}
use amldigital_fpv.Dvr.Writer.Callback.{run_mux-Touches}
use amldigital_fpv.Dvr.Protocol.{
  Disk, closed, opened, muxing, writing, ended, misused, after_effect, disk, Fits, IsInOrder,
}

-- A file on which minimp4 may call back.
abbrev pub Serves : Handle → Disk → Type 0
Serves f (opened g) = f ≡ g
Serves f (muxing g m) = f ≡ g
Serves f (writing g m) = f ≡ g
Serves f _ = ⊥

-- Callbacks use the file and leave it as it is.
pub record IsServed (f : Handle) (d : Disk) (s : Recorder) : Type 0 where
  pub serves : Serves f d
  pub file : s.file ≡ some f
  pub at : disk s.history ≡ d

pub Fits-members :
    (file mux : Option Handle) (d : Disk)
    → Fits true file mux d
    → (f : Handle) × (m : Handle) × (file ≡ some f) × (mux ≡ some m) × (d ≡ writing f m)
Fits-members (some f) (some m) d e = (f, m, refl, refl, e)
Fits-members (some f) none d e = absurd e
Fits-members none mux d e = absurd e

module _ (env : Env) where
  file_write_callback-IsServed :
      (offset : ℤ) (buffer : Bytes) (f : Handle) (d : Disk) (s : Recorder)
      → IsServed f d s
      → IsServed f d (file_write_callback env offset buffer s).1
  unfolding file_write_callback write_at note_end log disk after_effect
  file_write_callback-IsServed offset buffer f (opened g) s v = ground arith
  file_write_callback-IsServed offset buffer f (muxing g m) s v = ground arith
  file_write_callback-IsServed offset buffer f (writing g m) s v = ground arith
  file_write_callback-IsServed offset buffer f closed s v = absurd v.serves
  file_write_callback-IsServed offset buffer f (ended g) s v = absurd v.serves
  file_write_callback-IsServed offset buffer f misused s v = absurd v.serves

  pub run_mux-IsServed :
      {A : Type 0} (c : Muxing A) (f : Handle) (d : Disk) (s : Recorder)
      → IsServed f d s
      → IsServed f d (run_mux env c s).1
  unfolding run_mux
  run_mux-IsServed (done a) f d s v = v
  run_mux-IsServed (callback offset buffer go) f d s v =
      let (ok, t) = file_write_callback env offset buffer s in
      run_mux-IsServed (go ok) f d t (file_write_callback-IsServed offset buffer f d s v)

  -- What a call of minimp4 leaves: the callbacks happen, and then the effect of the call.
  mp4_close-disk :
      (f m : Handle) (d : Disk) (s : Recorder)
      → IsServed f d s
      → after_effect (mux_closed m) d ≡ ended f
      → let s' = mp4_close env m s in
        (disk s'.history ≡ ended f)
        × (s'.file ≡ s.file)
        × (s'.writer ≡ s.writer)
        × (s'.writer_ready ≡ s.writer_ready)
  unfolding mp4_close log disk
  mp4_close-disk f m d s v ends = ground (
    arith,
    ends,
    run_mux-IsServed (env.mp4_close s.history m) f d s v,
    run_mux-Touches env (env.mp4_close s.history m) s,
  )

  pub close_writer-IsInOrder :
      (c : Bool) (s : Recorder)
      → IsInOrder s
      → let s' = close_writer env c s in (disk s'.history ≡ closed) × (s'.writer_ready ≡ false)
  unfolding close_writer close_mux close_h26x close_file log disk after_effect
  close_writer-IsInOrder c s o = elim (Bool-cases s.writer_ready) [
    | inl ready ↦
        let (f, m, file, mux, at) = Fits-members s.file s.mux (disk s.history) (rw ready at o) in
        let unready = record s { writer_ready = false } in
        let v : IsServed f (writing f m) unready = record { serves = refl; file = file; at = at } in
        ground (arith, mp4_close-disk f m (writing f m) unready v (ground arith))
    | inr gone ↦ ground arith
  ]

  resolve_target_file-disk :
      (s : Recorder)
      → disk s.history ≡ closed
      → let s' = (resolve_target_file env s).1 in
        (disk s'.history ≡ closed) × (s'.writer_ready ≡ s.writer_ready)
  unfolding resolve_target_file fixed_target target_in make_directories disk after_effect
  resolve_target_file-disk s o = ground arith

  init_writer-IsInOrder :
      (mark : Bool) (f m : Handle) (s : Recorder)
      → s.file ≡ some f
      → s.writer_ready ≡ false
      → disk s.history ≡ muxing f m
      → IsInOrder (init_writer env mark f m s).1
  unfolding init_writer finish_open write_init log disk after_effect
  init_writer-IsInOrder mark f m s file unready at =
      let asked = log (writer_init m) s in
      let call = env.mp4_write_init s.history m s.video_width s.video_height (is_h265 s.codec) in
      let t = write_init env m s in
      let v : IsServed f (writing f m) asked = record {
        serves = refl;
        file = file;
        at = ground arith;
      } in
      let w : IsServed f (writing f m) t.1 = run_mux-IsServed call f (writing f m) asked v in
      let same = run_mux-Touches env call asked in
      ground (arith, w, same, mp4_close-disk f m (writing f m) t.1 w (ground arith))

  prepare_writer-IsInOrder :
      (mark : Bool) (f m : Handle) (s : Recorder)
      → s.file ≡ some f
      → s.writer_ready ≡ false
      → disk s.history ≡ muxing f m
      → IsInOrder (prepare_writer env mark f m s).1
  unfolding prepare_writer allocate_writer log disk after_effect
  prepare_writer-IsInOrder mark f m s file unready at =
      let t = allocate_writer env s in
      let v : IsServed f (muxing f m) t = record {
        serves = refl;
        file = ground arith;
        at = ground arith;
      } in
      ground (
        arith,
        mp4_close-disk f m (muxing f m) t v (ground arith),
        init_writer-IsInOrder mark f m t,
      )

  mp4_open-disk :
      (f : Handle) (s : Recorder)
      → s.file ≡ some f
      → disk s.history ≡ opened f
      → let (mux, s') = mp4_open env s in
        (disk s'.history ≡ elim mux [ none ↦ opened f | some m ↦ muxing f m ])
        × (s'.file ≡ s.file)
        × (s'.writer_ready ≡ s.writer_ready)
  unfolding mp4_open log disk after_effect
  mp4_open-disk f s file at =
      let v : IsServed f (opened f) s = record { serves = refl; file = file; at = at } in
      ground (
        arith,
        run_mux-IsServed (env.mp4_open s.history) f (opened f) s v,
        run_mux-Touches env (env.mp4_open s.history) s,
      )

  open_mux-IsInOrder :
      (mark : Bool) (f : Handle) (s : Recorder)
      → s.file ≡ some f
      → s.writer_ready ≡ false
      → disk s.history ≡ opened f
      → IsInOrder (open_mux env mark f s).1
  unfolding open_mux log disk after_effect
  open_mux-IsInOrder mark f s file unready at =
      let t = (mp4_open env s).1 in
      elim (Option-cases (mp4_open env s).0) [
        | inl refused ↦ ground (arith, mp4_open-disk f s file at)
        | inr (m, given) ↦
            ground (arith, mp4_open-disk f s file at, prepare_writer-IsInOrder mark f m t)
      ]

  open_file-IsInOrder :
      (mark : Bool) (path : FilePath) (s : Recorder)
      → s.writer_ready ≡ false
      → disk s.history ≡ closed
      → IsInOrder (open_file env mark path s).1
  unfolding open_file log disk after_effect
  open_file-IsInOrder mark path s unready at = elim (Option-cases (env.fopen s.history path)) [
    | inl refused ↦ ground arith
    | inr (f, given) ↦
        let t = record (log (file_opened f) s) { file = some f } in
        ground (arith, open_mux-IsInOrder mark f t)
  ]

  pub open_writer-IsInOrder :
      (mark : Bool) (s : Recorder) → IsInOrder s → IsInOrder (open_writer env mark s).1
  unfolding open_writer
  open_writer-IsInOrder mark s o = elim (Bool-cases s.writer_ready) [
    | inl ready ↦ ground (arith, o)
    | inr unready ↦
        let t = resolve_target_file env s in
        ground
          (arith, resolve_target_file-disk s (rw unready at o), open_file-IsInOrder mark t.0 t.1)
  ]

  pub rotate-IsInOrder : (s : Recorder) → IsInOrder s → IsInOrder (rotate_recording_file env s).1
  unfolding rotate_recording_file
  rotate-IsInOrder s o =
      let t = close_writer env false s in
      ground (arith, close_writer-IsInOrder false s o, open_writer-IsInOrder false t)
