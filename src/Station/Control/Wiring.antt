-- ===== src/Station/Control/Wiring.antt =====
-- What the control messages leave of the receiver: how it is switched.
use amldigital_fpv.Prelude.{ℕ, ◌≡◌, Bool, true, List, [], ◌∷◌, ◌||◌, arith}
use amldigital_fpv.Station.Control.{
  Act, set_udp_appsrc, set_audio_payload_callback, Program, act, record_on, record_off,
  switch_receiver, create_audio, sound_on, drop_audio, sound_off, dispatch, on_datagram, Event,
  interrupted, select_failed, timeout, receive_failed, datagram, halt, end_commands, on_event,
  command_loop,
}

-- What the calls so far have set, with the first value where they have set none.
unfoldable pub appsrc : Bool → List Act → Bool
appsrc first [] = first
appsrc first (set_udp_appsrc on ∷ acts) = on
appsrc first (_ ∷ acts) = appsrc first acts

unfoldable pub payloads : Bool → List Act → Bool
payloads first [] = first
payloads first (set_audio_payload_callback on ∷ acts) = on
payloads first (_ ∷ acts) = payloads first acts

-- There is a receiver, its source and its callback are both set for audio or both not, as the flag
-- says, and there is no audio receiver without the flag.
pub record IsWired (first : Bool) (p : Program) : Type 0 where
  pub present : p.receiver ≡ true
  pub source : appsrc first p.acts ≡ p.audio_enabled
  pub callback : payloads first p.acts ≡ p.audio_enabled
  pub audio : (p.audio || p.audio_enabled) ≡ p.audio_enabled

module _ (starts : List Act → Bool) (first : Bool) where
  sound_on-IsWired : (p : Program) → IsWired first p → IsWired first (sound_on starts p)
  unfolding sound_on switch_receiver create_audio act appsrc payloads
  sound_on-IsWired p w = ground arith

  sound_off-IsWired : (p : Program) → IsWired first p → IsWired first (sound_off p)
  unfolding sound_off switch_receiver drop_audio act appsrc payloads
  sound_off-IsWired p w = ground arith

  dispatch-IsWired :
      (payload : List ℕ) (p : Program) → IsWired first p → IsWired first (dispatch starts payload p)
  unfolding dispatch record_on record_off act appsrc payloads
  dispatch-IsWired payload p w = ground (arith, sound_on-IsWired p w, sound_off-IsWired p w)

  pub on_event-IsWired :
      (e : Event) (p : Program) → IsWired first p → IsWired first (on_event starts e p)
  unfolding on_event on_datagram end_commands act appsrc payloads
  on_event-IsWired interrupted p w = w
  on_event-IsWired select_failed p w = ground arith
  on_event-IsWired timeout p w = w
  on_event-IsWired receive_failed p w = w
  on_event-IsWired (datagram []) p w = w
  on_event-IsWired (datagram (c ∷ cs)) p w = dispatch-IsWired _ p w
  on_event-IsWired halt p w = ground arith

  -- Where they were so before: whatever comes to the control port, and whether or not an audio
  -- receiver starts, the receiver's source and callback stay as the flag of the sound says, and no
  -- audio receiver is kept without the flag.
  command_loop-IsWired :
      (es : List Event) (p : Program) → IsWired first p → IsWired first (command_loop starts es p)
  unfolding command_loop
  command_loop-IsWired [] p w = w
  command_loop-IsWired (e ∷ es) p w =
      ground (arith, command_loop-IsWired es (on_event starts e p) (on_event-IsWired e p w))
