-- ===== src/Dvr/Phases/Consequences.antt =====
-- What holds of every run of the recorder's phases.
use amldigital_fpv.Prelude.{◌≡◌, refl, ap, List, [], ◌∷◌, ◌++◌, none, some}
use mathlib.Core.List.{Sublist, nil-sublist}
use mathlib.Core.List.Sublist
use amldigital_fpv.Dvr.World.{Frame}
use amldigital_fpv.Dvr.State.{Command, start, stop, frame, shutdown}
use amldigital_fpv.Dvr.Phases.{
  Phase, idle, writing, stalled, Goes, begins, goes_on_warming, goes_on_writing, goes_on_stalled,
  stops, ends, skips, drops, counts, opens, cannot_open, writes, writes_last, loses_writer, buffers,
  Runs, over, more,
}

-- The frames that commands carry, in their order.
unfoldable pub carried : List Command → List Frame
carried [] = []
carried (frame (some f) ∷ cmds) = f ∷ carried cmds
carried (frame none ∷ cmds) = carried cmds
carried (start ∷ cmds) = carried cmds
carried (stop ∷ cmds) = carried cmds
carried (shutdown ∷ cmds) = carried cmds

pub carried-cons :
    (cmd : Command) (cmds : List Command)
    → carried (cmd ∷ cmds) ≡ carried (cmd ∷ []) ++ carried cmds
unfolding carried
carried-cons (frame (some f)) cmds = refl
carried-cons (frame none) cmds = refl
carried-cons start cmds = refl
carried-cons stop cmds = refl
carried-cons shutdown cmds = refl

Goes-sublist :
    {p q : Phase} {cmd : Command} {fs : List Frame}
    → Goes p cmd q fs
    → Sublist fs (carried (cmd ∷ []))
unfolding carried
Goes-sublist begins = nil-sublist []
Goes-sublist goes_on_warming = nil-sublist []
Goes-sublist goes_on_writing = nil-sublist []
Goes-sublist goes_on_stalled = nil-sublist []
Goes-sublist stops = nil-sublist []
Goes-sublist ends = nil-sublist []
Goes-sublist skips = nil-sublist []
Goes-sublist drops = nil-sublist _
Goes-sublist counts = nil-sublist _
Goes-sublist opens = nil-sublist _
Goes-sublist cannot_open = nil-sublist _
Goes-sublist writes = Sublist.refl _
Goes-sublist writes_last = Sublist.refl _
Goes-sublist loses_writer = Sublist.refl _
Goes-sublist buffers = nil-sublist _

-- What is written is some of what came, in its order.
pub Runs-sublist :
    {p q : Phase} {cmds : List Command} {fs : List Frame}
    → Runs p cmds q fs
    → Sublist fs (carried cmds)
Runs-sublist over = unfold carried in nil-sublist []
Runs-sublist (more {cmd = cmd} {cmds = cmds} g r) =
    rw (carried-cons cmd cmds) (Sublist.append (Goes-sublist g) (Runs-sublist r))

-- Commands that are frames only.
unfoldable pub frame_commands : List Frame → List Command
frame_commands [] = []
frame_commands (f ∷ fs) = frame (some f) ∷ frame_commands fs

-- No frame leads from an idle recorder, or from one without its writer, to another phase.
idle_stays :
    (fs : List Frame) {q : Phase} {gs : List Frame} → Runs idle (frame_commands fs) q gs → q ≡ idle
unfolding frame_commands
idle_stays [] over = refl
idle_stays (f ∷ fs) (more drops r) = idle_stays fs r

stalled_stays :
    (fs : List Frame) {q : Phase} {gs : List Frame}
    → Runs stalled (frame_commands fs) q gs
    → q ≡ stalled
unfolding frame_commands
stalled_stays [] over = refl
stalled_stays (f ∷ fs) (more buffers r) = stalled_stays fs r

-- A recorder that writes before some frames and still writes behind them has written all of them.
pub writing-Runs :
    (fs : List Frame) {gs : List Frame} → Runs writing (frame_commands fs) writing gs → gs ≡ fs
unfolding frame_commands
writing-Runs [] over = refl
writing-Runs (f ∷ fs) (more writes r) = ap (λ l. f ∷ l) (writing-Runs fs r)
writing-Runs (f ∷ fs) (more writes_last r) = cc (idle_stays fs r)
writing-Runs (f ∷ fs) (more loses_writer r) = cc (stalled_stays fs r)
