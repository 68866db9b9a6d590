-- ===== src/Station/Main/Receiving.antt =====
-- While the program runs: the receiver, over the calls that the threads make of it.
use amldigital_fpv.Prelude.{tally, ℕ, Bool, true, false, List, [], ◌∷◌, arith}
use amldigital_fpv.Receiver.Stream.{Gst}
use amldigital_fpv.Receiver.Stream.Kept.{IsKept, restart-IsKept}
use amldigital_fpv.Station.Control.{
  Act, Program, Event, interrupted, select_failed, timeout, receive_failed, datagram, halt, act,
  record_on, record_off, switch_receiver, create_audio, drop_audio, sound_on, sound_off, dispatch,
  on_datagram, on_event, end_commands,
}
use amldigital_fpv.Station.Main.{replay, new_receiver}

-- The receiver behind the calls so far keeps count.
abbrev pub Keeps : Gst → Program → Type 0
Keeps gst p = IsKept (replay gst p.acts new_receiver)

pub new_receiver-IsKept : IsKept new_receiver
unfolding tally
new_receiver-IsKept = ground arith

module _ (gst : Gst) (starts : List Act → Bool) where
  switch_receiver-Keeps : (on : Bool) (p : Program) → Keeps gst p → Keeps gst (switch_receiver on p)
  unfolding switch_receiver act replay
  switch_receiver-Keeps on p k =
      ground (arith, restart-IsKept gst on (replay gst p.acts new_receiver) k)

  create_audio-Keeps : (p : Program) → Keeps gst p → Keeps gst (create_audio starts p)
  unfolding create_audio act replay
  create_audio-Keeps p k = ground arith

  drop_audio-Keeps : (p : Program) → Keeps gst p → Keeps gst (drop_audio p)
  unfolding drop_audio act replay
  drop_audio-Keeps p k = ground arith

  dispatch-Keeps :
      (payload : List ℕ) (p : Program) → Keeps gst p → Keeps gst (dispatch starts payload p)
  unfolding dispatch record_on record_off sound_on sound_off act replay
  dispatch-Keeps payload p k =
      let on = record p { audio_enabled = true } in
      let off = record p { audio_enabled = false } in
      ground (
        arith,
        switch_receiver-Keeps true (create_audio starts on) (create_audio-Keeps on k),
        switch_receiver-Keeps false (drop_audio off) (drop_audio-Keeps off k),
      )

  pub on_event-Keeps : (e : Event) (p : Program) → Keeps gst p → Keeps gst (on_event starts e p)
  unfolding on_event on_datagram end_commands act replay
  on_event-Keeps interrupted p k = k
  on_event-Keeps select_failed p k = k
  on_event-Keeps timeout p k = k
  on_event-Keeps receive_failed p k = k
  on_event-Keeps (datagram []) p k = k
  on_event-Keeps (datagram (b ∷ bs)) p k = dispatch-Keeps _ p k
  on_event-Keeps halt p k = k
