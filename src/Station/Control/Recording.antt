-- ===== src/Station/Control/Recording.antt =====
-- What the control messages do to the recorder: calls that any thread may make.
use amldigital_fpv.Prelude.{ℕ, ◌≡◌, Bool, List, [], ◌∷◌, Option, some, arith}
use mathlib.Core.Option
use amldigital_fpv.Floats.{Floats}
use amldigital_fpv.Dvr.World.{Env}
use amldigital_fpv.Dvr.State.{Recorder, start_recording, stop_recording}
use amldigital_fpv.Dvr.System.{System, here}
use amldigital_fpv.Station.Called.{Called, start_recording-Called, stop_recording-Called}
use amldigital_fpv.Station.Control.{
  Act, Program, act, record_on, record_off, switch_receiver, create_audio, sound_on, drop_audio,
  sound_off, dispatch, on_datagram, Event, interrupted, select_failed, timeout, receive_failed,
  datagram, halt, end_commands, on_event, command_loop,
}

sound-dvr :
    (answers : List Act → Bool) (p : Program)
    → ((sound_on answers p).dvr ≡ p.dvr) × ((sound_off p).dvr ≡ p.dvr)
unfolding sound_on sound_off switch_receiver drop_audio create_audio act
sound-dvr answers p = ground arith

-- What both calls keep, every message keeps.
module _ (answers : List Act → Bool) (P : Option Recorder → Type 0)
    (starts : (o : Option Recorder) → P o → P (Option.map start_recording o))
    (stops : (o : Option Recorder) → P o → P (Option.map stop_recording o)) where
  dispatch-keeps : (payload : List ℕ) (p : Program) → P p.dvr → P (dispatch answers payload p).dvr
  unfolding dispatch record_on record_off act
  dispatch-keeps payload p c =
      let (on, off) = sound-dvr answers p in
      let on' : P (sound_on answers p).dvr = rw on c in
      let off' : P (sound_off p).dvr = rw off c in ground (arith, starts p.dvr c, stops p.dvr c)

  pub on_event-keeps : (e : Event) (p : Program) → P p.dvr → P (on_event answers e p).dvr
  unfolding on_event on_datagram end_commands act
  on_event-keeps interrupted p c = c
  on_event-keeps select_failed p c = c
  on_event-keeps timeout p c = c
  on_event-keeps receive_failed p c = c
  on_event-keeps (datagram []) p c = c
  on_event-keeps (datagram (b ∷ bs)) p c = dispatch-keeps _ p c
  on_event-keeps halt p c = c

module _ (floats : Floats) (env : Env) (answers : List Act → Bool) (alive : Bool) where
  pub on_event-Called :
      (e : Event) (s : System) (p : Program)
      → Called floats env s alive p.dvr
      → Called floats env s alive (on_event answers e p).dvr
  on_event-Called e s p c =
      on_event-keeps answers (Called floats env s alive) (start_recording-Called floats env s alive)
        (stop_recording-Called floats env s alive) e p c

  loop-Called :
      (es : List Event) (s : System) (p : Program)
      → Called floats env s alive p.dvr
      → Called floats env s alive (command_loop answers es p).dvr
  unfolding command_loop
  loop-Called [] s p c = c
  loop-Called (e ∷ es) s p c =
      ground (arith, loop-Called es s (on_event answers e p) (on_event-Called e s p c))

  -- Whatever comes to the control port, the recorder goes on to a state that calls of its own
  -- methods lead to: the loop never creates, drops or alters it in another way.
  command_loop-Called :
      (es : List Event) (r : Recorder) (p : Program)
      → p.dvr ≡ some r
      → Called floats env
          (record { recorder = r; alive = alive })
          alive
          (command_loop answers es p).dvr
  command_loop-Called es r p e =
      loop-Called es (record { recorder = r; alive = alive }) p (rw e here)
