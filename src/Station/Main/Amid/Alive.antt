-- ===== src/Station/Main/Amid/Alive.antt =====
-- What the messages of `dvr_command_loop` in src/main.cpp do to a receiver that runs, where GStreamer
-- and the sockets are willing.
use amldigital_fpv.Prelude.{
  ℕ, ◌≡◌, refl, Bool, true, false, ◌||◌, List, [], ◌∷◌, take, arith, Bool-cases, inl, inr,
}
use amldigital_fpv.Text.{bytes, contains, starts_with, c_string}
use amldigital_fpv.Receiver.Stream.{
  ReceiverCall, open_socket, launched, Gst, GstRtpReceiver, call, stop_receiving, start_puller,
  start_reader, connect, on_launch, switch_to_stream, start_receiving,
}
use amldigital_fpv.Station.Control.{
  Act, Program, act, datagram, create_audio, sound_on, drop_audio, sound_off, switch_receiver,
  Event, interrupted, select_failed, timeout, receive_failed, halt, record_on, record_off, dispatch,
  on_datagram, on_event, end_commands,
}
use amldigital_fpv.Station.Main.{perform, replay, new_receiver}
use amldigital_fpv.Station.Main.Amid.{either}

-- The words of a message that turns the sound on or off.
abbrev pub IsSound : List ℕ → Type 0
IsSound words =
    (contains (bytes "record=1") words ≡ false)
    × (contains (bytes "record=0") words ≡ false)
    × ((contains (bytes "sound=1") words || contains (bytes "sound=0") words) ≡ true)

-- GStreamer makes each pipeline with its source, and there is a socket to be had.
pub record IsWilling (gst : Gst) : Type 0 where
  pub launches : (h : List ReceiverCall) → gst.parse_launch h ≡ launched
  pub sockets : (h : List ReceiverCall) → gst.create_udp_socket h ≡ true
  pub sources : (h : List ReceiverCall) → gst.has_appsrc h ≡ true

-- There is a pipeline, and a thread pulls its frames.
abbrev pub Runs : GstRtpReceiver → Type 0
Runs r = (r.pipeline ≡ true) × (r.pull_samples_thread ≡ true)

start_reader-Runs :
    (gst : Gst) (r : GstRtpReceiver) → IsWilling gst → r.pipeline ≡ true → Runs (start_reader gst r)
unfolding start_reader start_puller call
start_reader-Runs gst r w there = ground (arith, w.sources r.calls)

connect-Runs :
    (gst : Gst) (r : GstRtpReceiver) → IsWilling gst → r.pipeline ≡ true → Runs (connect gst r)
unfolding connect call
connect-Runs gst r w there =
    let connected = call open_socket (record r { sock = true }) in
    ground
      (arith, w.sockets r.calls, start_reader-Runs gst r w there, start_reader-Runs gst connected w)

start_receiving-Runs :
    (gst : Gst) (r : GstRtpReceiver) → IsWilling gst → Runs (start_receiving gst r)
unfolding start_receiving switch_to_stream on_launch
start_receiving-Runs gst r w = rw (w.launches (stop_receiving r).calls) (connect-Runs gst _ w refl)

-- The receiver is there, and what it was told to do leaves it running.
abbrev pub IsAlive : Gst → Program → Type 0
IsAlive gst p = (p.receiver ≡ true) × Runs (replay gst p.acts new_receiver)

module _ (gst : Gst) (starts : List Act → Bool) (w : IsWilling gst) where
  switched-IsAlive :
      (enable : Bool) (p : Program) → p.receiver ≡ true → IsAlive gst (switch_receiver enable p)
  unfolding switch_receiver act replay perform
  switched-IsAlive true p here = rw here (refl, start_receiving-Runs gst _ w)
  switched-IsAlive false p here = rw here (refl, start_receiving-Runs gst _ w)

  sound_on-IsAlive : (p : Program) → p.receiver ≡ true → IsAlive gst (sound_on starts p)
  unfolding sound_on create_audio act
  sound_on-IsAlive p here = switched-IsAlive true _ (ground (arith, here))

  sound_off-IsAlive : (p : Program) → p.receiver ≡ true → IsAlive gst (sound_off p)
  unfolding sound_off drop_audio act
  sound_off-IsAlive p here = switched-IsAlive false _ (ground (arith, here))

  dispatch-IsAlive :
      (words : List ℕ) (p : Program) → IsAlive gst p → IsAlive gst (dispatch starts words p)
  unfolding dispatch record_on record_off act replay perform
  dispatch-IsAlive words p alive = either (IsAlive gst) (contains (bytes "record=1") words) alive (
      either (IsAlive gst) (contains (bytes "record=0") words) alive (
        either (IsAlive gst) (contains (bytes "sound=1") words) (sound_on-IsAlive p alive.0) (
          either (IsAlive gst) (contains (bytes "sound=0") words) (sound_off-IsAlive p alive.0)
            (either (IsAlive gst) (contains (bytes "ping=1") words) alive alive))))

  pub on_event-IsAlive :
      (e : Event) (p : Program) → IsAlive gst p → IsAlive gst (on_event starts e p)
  unfolding on_event on_datagram end_commands act replay perform
  on_event-IsAlive interrupted p alive = alive
  on_event-IsAlive select_failed p alive = alive
  on_event-IsAlive timeout p alive = alive
  on_event-IsAlive receive_failed p alive = alive
  on_event-IsAlive (datagram []) p alive = alive
  on_event-IsAlive (datagram (c ∷ cs)) p alive = dispatch-IsAlive _ p alive
  on_event-IsAlive halt p alive = alive

  words-IsAlive :
      (words : List ℕ) (p : Program)
      → p.receiver ≡ true
      → IsSound words
      → IsAlive gst (dispatch starts words p)
  unfolding dispatch
  words-IsAlive words p here sound = rw sound.0 (
      rw sound.1 (elim (Bool-cases (contains (bytes "sound=1") words)) [
        | inl on ↦ rw on (sound_on-IsAlive p here)
        | inr off ↦
            let last : contains (bytes "sound=0") words ≡ true = ground (arith, off, sound.2) in
            rw off (rw last (sound_off-IsAlive p here))
      ]))

  -- A message of the sound, whatever the receiver did before.
  pub sound-IsAlive :
      (message : List ℕ) (p : Program)
      → p.receiver ≡ true
      → IsSound (c_string (take 127 message))
      → IsAlive gst (on_datagram starts message p)
  unfolding on_datagram
  sound-IsAlive [] p here sound =
      absurd (unfold contains starts_with c_string in ground (arith, sound))
  sound-IsAlive (c ∷ cs) p here sound = words-IsAlive _ p here sound
