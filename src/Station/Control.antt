-- ===== src/Station/Control.antt =====
-- `dvr_command_loop` of src/main.cpp: the messages that come to the control port.
pub mod Wiring
pub mod Recording
use amldigital_fpv.Prelude.{ℕ, Bool, true, false, List, [], ◌∷◌, Option, take, if◌then◌else◌}
use mathlib.Core.Option
use amldigital_fpv.Text.{bytes, contains, c_string}
use amldigital_fpv.Dvr.State.{Recorder, start_recording, stop_recording}

-- What the loop does with the receivers and the socket.
pub data Act : Type 0 where
  audio_start : Bool → Act
  audio_stop : Act
  stop_receiving : Act
  set_udp_appsrc : Bool → Act
  set_audio_payload_callback : Bool → Act
  start_receiving : Act
  send_pong : Act
  close_socket : Act

-- The globals: whether there are an audio receiver and a receiver, the recorder, and what has been
-- done, the last in front.
pub record Program : Type 0 where
  pub dvr : Option Recorder
  pub audio : Bool
  pub audio_enabled : Bool
  pub receiver : Bool
  pub command_running : Bool
  pub acts : List Act

unfoldable pub act : Act → Program → Program
act a p = record p { acts = a ∷ p.acts }

unfoldable pub record_on : Program → Program
record_on p = record p { dvr = Option.map start_recording p.dvr }

unfoldable pub record_off : Program → Program
record_off p = record p { dvr = Option.map stop_recording p.dvr }

-- `if (receiver) …`: the receiver is stopped, switched and started again.
unfoldable pub switch_receiver : Bool → Program → Program
unfolding act
switch_receiver on p =
    if p.receiver
    then act start_receiving
        (act (set_audio_payload_callback on) (act (set_udp_appsrc on) (act stop_receiving p)))
    else p

-- `if (!g_audio) …`: one that does not start is dropped.
unfoldable pub create_audio : (List Act → Bool) → Program → Program
unfolding act
create_audio starts p =
    if p.audio then p else let ok = starts p.acts in act (audio_start ok) (record p { audio = ok })

unfoldable pub sound_on : (List Act → Bool) → Program → Program
sound_on starts p = switch_receiver true (create_audio starts (record p { audio_enabled = true }))

unfoldable pub drop_audio : Program → Program
unfolding act
drop_audio p = if p.audio then act audio_stop (record p { audio = false }) else p

unfoldable pub sound_off : Program → Program
sound_off p = switch_receiver false (drop_audio (record p { audio_enabled = false }))

-- The first of the words that the message contains decides.
unfoldable pub dispatch : (List Act → Bool) → List ℕ → Program → Program
unfolding act
dispatch starts payload p =
    if contains (bytes "record=1") payload
    then record_on p
    else if contains (bytes "record=0") payload
    then record_off p
    else if contains (bytes "sound=1") payload
    then sound_on starts p
    else if contains (bytes "sound=0") payload
    then sound_off p
    else if contains (bytes "ping=1") payload
    then act send_pong p
    else p

-- `recvfrom` takes 127 bytes at most; an empty message does nothing. The message ends at a zero.
unfoldable pub on_datagram : (List Act → Bool) → List ℕ → Program → Program
on_datagram starts [] p = p
on_datagram starts (c ∷ cs) p = dispatch starts (c_string (take 127 (c ∷ cs))) p

-- What `select` and `recvfrom` give: EINTR, another error, nothing in a second, a failing
-- `recvfrom`, or a message. `halt` is the end of the program, which clears the flag of the loop.
pub data Event : Type 0 where
  interrupted : Event
  select_failed : Event
  timeout : Event
  receive_failed : Event
  datagram : List ℕ → Event
  halt : Event

-- The loop ends: the socket is closed and the flag cleared.
unfoldable pub end_commands : Program → Program
unfolding act
end_commands p = record (act close_socket p) { command_running = false }

-- One round, where the flag is set; `halt` is seen at the test of the next one.
unfoldable pub on_event : (List Act → Bool) → Event → Program → Program
on_event starts interrupted p = p
on_event starts select_failed p = end_commands p
on_event starts timeout p = p
on_event starts receive_failed p = p
on_event starts (datagram message) p = on_datagram starts message p
on_event starts halt p = end_commands p

-- The loop, over the events in their order; behind its end no event is looked at.
unfoldable pub command_loop : (List Act → Bool) → List Event → Program → Program
command_loop starts [] p = p
command_loop starts (e ∷ es) p =
    if p.command_running then command_loop starts es (on_event starts e p) else p

-- How the socket is made.
pub data Socket : Type 0 where
  no_socket : Socket
  not_bound : Socket
  bound : Socket

unfoldable pub dvr_command_loop : (List Act → Bool) → Socket → List Event → Program → Program
unfolding act
dvr_command_loop starts no_socket es p = record p { command_running = false }
dvr_command_loop starts not_bound es p = record (act close_socket p) { command_running = false }
dvr_command_loop starts bound es p = command_loop starts es p
