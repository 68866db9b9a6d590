-- ===== src/Dvr/Protocol/Samples.antt =====
-- The order of the calls in a run of the recorder: a start, a frame that comes, and two turns.
use amldigital_fpv.Prelude.{◌≡◌, ◌≢◌, refl, true, [], ◌∷◌, some}
use amldigital_fpv.Dvr.State.{new, start_recording, enqueue_frame, push_command, Recorder}
use amldigital_fpv.Dvr.World.{
  file_opened, file_closed, mux_opened, writer_init, mux_closed, writer_closed, nal_written,
  status_ok,
}
use amldigital_fpv.Dvr.System.{Reach, here, next, starts, works, frames}
use amldigital_fpv.Dvr.Worker.{work, take_command}
use amldigital_fpv.Dvr.Samples.{whole, working, fresh}
use amldigital_fpv.Dvr.Protocol.{disk, after_effect, closed, misused, IsInOrder}
use amldigital_fpv.Dvr.Protocol.Reached.{Reach-new-IsInOrder}

abbrev asked : Recorder
asked = start_recording (new true)

abbrev recording : Recorder
recording = enqueue_frame (some (1 ∷ 2 ∷ [])) (work whole working asked).1

abbrev last : Recorder
last = (work whole working recording).1

asked-goes_on : (work whole working asked).0 ≡ true
unfolding work take_command start_recording push_command new
asked-goes_on = refl

a_run :
    Reach whole working fresh (record { recorder = last; alive = (work whole working recording).0 })
a_run =
    next (next (next (next here (starts fresh)) (works _ refl)) (frames _ (some (1 ∷ 2 ∷ []))))
      (works _ asked-goes_on)

Reach-new-IsInOrder_example : IsInOrder last × (disk last.history ≢ misused)
Reach-new-IsInOrder_example = Reach-new-IsInOrder whole working true [] last.history a_run refl

-- A file that is closed before its muxer is out of order.
file_first :
    disk (
      file_closed 7
      ∷ nal_written (1 ∷ []) 1500 status_ok
      ∷ writer_init 9
      ∷ mux_opened 9
      ∷ file_opened 7
      ∷ [])
    ≡ misused
unfolding disk after_effect
file_first = refl

muxer_first :
    disk (
      file_closed 7
      ∷ writer_closed
      ∷ mux_closed 9
      ∷ nal_written (1 ∷ []) 1500 status_ok
      ∷ writer_init 9
      ∷ mux_opened 9
      ∷ file_opened 7
      ∷ [])
    ≡ closed
unfolding disk after_effect
muxer_first = refl
