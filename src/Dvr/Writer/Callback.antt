-- ===== src/Dvr/Writer/Callback.antt =====
-- What `file_write_callback`, and so every call of minimp4, may change of the recorder.
use amldigital_fpv.Prelude.{ℕ, ◌+◌, ◌≡◌, refl, List, [], ◌∷◌, arith}
use amldigital_fpv.Prelude.Int.{ℤ}
use amldigital_fpv.Dvr.World.{
  Bytes, Handle, Muxing, done, callback, History, Env, file_opened, file_closed, mux_opened,
  mux_closed, nal_written,
}
use amldigital_fpv.Dvr.State.{Recorder}
use amldigital_fpv.Dvr.Writer.{note_end, write_at, file_write_callback, run_mux}

-- How many files the recorder opened and closed, and how many muxers.
abbrev pub files_opened : History → ℕ
files_opened [] = 0
files_opened (file_opened f ∷ h) = files_opened h + 1
files_opened (_ ∷ h) = files_opened h

abbrev pub files_closed : History → ℕ
files_closed [] = 0
files_closed (file_closed f ∷ h) = files_closed h + 1
files_closed (_ ∷ h) = files_closed h

abbrev pub muxes_opened : History → ℕ
muxes_opened [] = 0
muxes_opened (mux_opened m ∷ h) = muxes_opened h + 1
muxes_opened (_ ∷ h) = muxes_opened h

abbrev pub muxes_closed : History → ℕ
muxes_closed [] = 0
muxes_closed (mux_closed m ∷ h) = muxes_closed h + 1
muxes_closed (_ ∷ h) = muxes_closed h

-- The frames that the muxer was given, the last one in front.
abbrev pub frames_written : History → List Bytes
frames_written [] = []
frames_written (nal_written f _ _ ∷ h) = f ∷ frames_written h
frames_written (_ ∷ h) = frames_written h

-- Only the history, the size of the file and the request for a rotation differ, and no file or
-- muxer is opened or closed, and no frame written.
pub record Touches (s s' : Recorder) : Type 0 where
  pub rest : s' ≡ record s {
    history = s'.history;
    current_file_bytes = s'.current_file_bytes;
    rotate_requested = s'.rotate_requested;
  }
  pub files :
      (files_opened s'.history ≡ files_opened s.history)
      × (files_closed s'.history ≡ files_closed s.history)
  pub muxes :
      (muxes_opened s'.history ≡ muxes_opened s.history)
      × (muxes_closed s'.history ≡ muxes_closed s.history)
  pub frames : frames_written s'.history ≡ frames_written s.history

pub Touches-refl : (s : Recorder) → Touches s s
Touches-refl s = record { rest = refl; files = (refl, refl); muxes = (refl, refl); frames = refl }

pub Touches-trans : {s t u : Recorder} → Touches s t → Touches t u → Touches s u
Touches-trans {s} {t} {u} a b = ground arith

note_end-Touches : (n : ℕ) (s : Recorder) → Touches s (note_end n s)
unfolding note_end
note_end-Touches n s = ground arith

write_at-Touches :
    (env : Env) (f : Handle) (offset : ℕ) (buffer : Bytes) (s : Recorder)
    → Touches s (write_at env f offset buffer s).1
unfolding write_at
write_at-Touches env f offset buffer s = ground arith

file_write_callback-Touches :
    (env : Env) (offset : ℤ) (buffer : Bytes) (s : Recorder)
    → Touches s (file_write_callback env offset buffer s).1
unfolding file_write_callback
file_write_callback-Touches env offset buffer s = ground arith

pub run_mux-Touches :
    (env : Env) {A : Type 0} (m : Muxing A) (s : Recorder) → Touches s (run_mux env m s).1
unfolding run_mux
run_mux-Touches env (done a) s = Touches-refl s
run_mux-Touches env (callback offset buffer go) s =
    let called = file_write_callback env offset buffer s in
    Touches-trans (file_write_callback-Touches env offset buffer s)
      (run_mux-Touches env (go called.0) called.1)
