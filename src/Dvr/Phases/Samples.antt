-- ===== src/Dvr/Phases/Samples.antt =====
-- Runs of the recorder's phases at concrete commands.
use amldigital_fpv.Prelude.{◌≡◌, true, List, [], ◌∷◌, ◌++◌, some}
use mathlib.Core.List.{reverse}
use amldigital_fpv.Dvr.World.{Frame}
use amldigital_fpv.Dvr.State.{Command, start, stop, frame, shutdown, new}
use amldigital_fpv.Dvr.Worker.Sound.{IsConsistent}
use amldigital_fpv.Dvr.System.{here, Reach-new-IsSafe}
use amldigital_fpv.Dvr.Writer.Callback.{frames_written}
use amldigital_fpv.Dvr.Samples.{whole, working}
use amldigital_fpv.Dvr.Phases.{phase, Runs}
use amldigital_fpv.Dvr.Phases.Refine.{handle_all, handle_all-Runs}

new-IsConsistent : IsConsistent (new true)
new-IsConsistent = (Reach-new-IsSafe whole working true here).consistent

abbrev a_life : List Command
a_life = start ∷ frame (some (1 ∷ [])) ∷ stop ∷ start ∷ shutdown ∷ []

handle_all-Runs_example :
    let s' = handle_all whole working a_life (new true) in
    (fs : List Frame) × Runs (phase (new true)) a_life (phase s') fs
    × (frames_written s'.history ≡ reverse fs ++ frames_written (new true).history)
handle_all-Runs_example = handle_all-Runs whole working a_life (new true) new-IsConsistent
