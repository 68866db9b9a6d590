-- ===== src/Station/Main/Safe.antt =====
-- While the program runs: the recorder, the receiver and the frames, over any order of what the
-- threads do.
use amldigital_fpv.Prelude.{
  list_laws, ℕ, ◌≡◌, refl, sym, ap, ◌∙◌, Bool, true, false, not, List, [], ◌∷◌, ◌++◌, append-nil,
  Option, none, some, arith, Bool-cases, inl, inr,
}
use amldigital_fpv.Prelude.Int.{pos, eqb_ℤ, to_unsigned}
use amldigital_fpv.Text.{is_empty}
use amldigital_fpv.Floats.{Floats}
use amldigital_fpv.Dvr.World.{Env, Frame}
use amldigital_fpv.Dvr.State.{Recorder, new}
use amldigital_fpv.Dvr.System.{
  System, IsSafe, Reach, here, next, configures, overrides, Reach-new-IsSafe,
}
use amldigital_fpv.Dvr.System.Ends.{turns-Reach}
use amldigital_fpv.Dvr.Protocol.{IsInOrder}
use amldigital_fpv.Dvr.Protocol.Reached.{Reach-new-IsInOrder}
use amldigital_fpv.Receiver.Stream.{Gst}
use amldigital_fpv.Receiver.Stream.Kept.{IsKept, start_receiving-IsKept, set_udp_appsrc-IsKept}
use amldigital_fpv.Station.Options.{CmdOptions, configure_recorder, selected_codec}
use amldigital_fpv.Station.Called.{Called}
use amldigital_fpv.Station.Control.{Act, act, create_audio}
use amldigital_fpv.Station.Control.Recording.{on_event-Called}
use amldigital_fpv.Station.Control.Wiring.{IsWired, appsrc, payloads, on_event-IsWired}
use amldigital_fpv.Station.Frames.Recording.{happen-Called}
use amldigital_fpv.Station.Frames.Order.{passed, arrived, waiting, happen-passed}
use amldigital_fpv.Aml.Submit.Stamps.{written}
use amldigital_fpv.Station.Main.Receiving.{Keeps, new_receiver-IsKept, on_event-Keeps}
use amldigital_fpv.Station.Main.{
  Station, replay, new_receiver, start_audio, set_payloads, start_program, start_station, Move,
  commands, flows, works, work_on, move, moves,
}

-- The recorder of the program keeps its invariant and the order of its calls, with its worker running
-- or not.
abbrev pub IsSafeDvr : Bool → Option Recorder → Type 0
IsSafeDvr alive none = ⊥
IsSafeDvr alive (some r) = IsSafe (record { recorder = r; alive = alive }) × IsInOrder r

-- The frames that come while the program runs.
unfoldable pub frames_of : List Move → List Frame
frames_of [] = []
frames_of (commands e ∷ ms) = frames_of ms
frames_of (flows h ∷ ms) = arrived (h ∷ []) ++ frames_of ms
frames_of (works ∷ ms) = frames_of ms

-- What the start sets of the sound.
abbrev sound : CmdOptions → Bool
sound o = not (eqb_ℤ o.enable_audio (pos 0))

-- The invariant of the running program, over the recorder that it was started with.
pub record IsRunning (floats : Floats) (env : Env) (gst : Gst) (first : System) (s : Station)
    : Type 0 where
  pub recorder : Called floats env first s.worker s.program.dvr
  pub wired : IsWired false s.program
  pub receiver : Keeps gst s.program

module _ (floats : Floats) (env : Env) (gst : Gst) (starts : List Act → Bool) where
  pub start_program-dvr :
      (allocated : Bool) (o : CmdOptions)
      → (start_program starts allocated o).dvr ≡ some (configure_recorder o (new allocated))
  unfolding start_program start_audio set_payloads create_audio act
  start_program-dvr allocated o = ground arith

  start_program-IsWired :
      (allocated : Bool) (o : CmdOptions) → IsWired false (start_program starts allocated o)
  unfolding start_program start_audio set_payloads create_audio act appsrc payloads
  start_program-IsWired allocated o = ground arith

  start_program-Keeps :
      (allocated : Bool) (o : CmdOptions) → Keeps gst (start_program starts allocated o)
  unfolding start_program start_audio set_payloads create_audio act replay
  start_program-Keeps allocated o =
      let chosen = set_udp_appsrc-IsKept (sound o) new_receiver new_receiver-IsKept refl in
      ground (arith, start_receiving-IsKept gst _ chosen)

  configured-Reach :
      (allocated : Bool) (o : CmdOptions)
      → Reach floats env
          (record { recorder = new allocated; alive = true })
          (record { recorder = configure_recorder o (new allocated); alive = true })
  unfolding configure_recorder
  configured-Reach allocated o =
      let first = next here (
        configures (record { recorder = new allocated; alive = true }) (to_unsigned 32 o.width)
          (to_unsigned 32 o.height) (to_unsigned 32 o.fps) (selected_codec o)) in
      elim (Bool-cases (is_empty o.dvr_path)) [
        | inl empty ↦ rw empty first
        | inr path ↦ rw path (next first (overrides _ o.dvr_path))
      ]

  work_on-Called :
      (first : System) (alive : Bool) (o : Option Recorder)
      → Called floats env first alive o
      → let (alive', o') = work_on floats env 1 alive o in Called floats env first alive' o'
  unfolding work_on
  work_on-Called first alive none c = c
  work_on-Called first alive (some r) c = turns-Reach floats env 1 alive r c

  pub move-IsRunning :
      (first : System) (m : Move) (s : Station)
      → IsRunning floats env gst first s
      → IsRunning floats env gst first (move floats env starts m s)
  unfolding move
  move-IsRunning first (commands e) s r = elim (Bool-cases s.program.command_running) [
    | inl on ↦
        let recorder = on_event-Called floats env starts s.worker e first s.program r.recorder in
        let wired = on_event-IsWired starts false e s.program r.wired in
        let receiver = on_event-Keeps gst starts e s.program r.receiver in
        ground (arith, recorder, wired, receiver)
    | inr off ↦ ground arith
  ]
  move-IsRunning first (flows h) s r =
      let recorder =
        happen-Called floats env first s.worker h (record s.flow { dvr = s.program.dvr })
          r.recorder in
      record { recorder = recorder; wired = ground (arith, r.wired); receiver = r.receiver }
  move-IsRunning first works s r = record {
    recorder = work_on-Called first s.worker s.program.dvr r.recorder;
    wired = ground (arith, r.wired);
    receiver = r.receiver;
  }

  pub moves-IsRunning :
      (first : System) (ms : List Move) (s : Station)
      → IsRunning floats env gst first s
      → IsRunning floats env gst first (moves floats env starts ms s)
  unfolding moves
  moves-IsRunning first [] s r = r
  moves-IsRunning first (m ∷ ms) s r = moves-IsRunning first ms _ (move-IsRunning first m s r)

  move-passed :
      (m : Move) (s : Station)
      → passed (move floats env starts m s).flow ≡ passed s.flow ++ frames_of (m ∷ [])
  unfolding move frames_of passed
  move-passed (commands e) s = ground (arith, append-nil (passed s.flow))
  move-passed (flows h) s =
      happen-passed floats h (record s.flow { dvr = s.program.dvr })
      ∙ ap (λ l. passed s.flow ++ l) (sym (append-nil (arrived (h ∷ []))))
  move-passed works s = sym (append-nil (passed s.flow))

  pub frames_of-cons :
      (m : Move) (ms : List Move) → frames_of (m ∷ ms) ≡ frames_of (m ∷ []) ++ frames_of ms
  unfolding frames_of
  frames_of-cons (commands e) ms = refl
  frames_of-cons (flows h) ms = ap (λ l. l ++ frames_of ms) (sym (append-nil (arrived (h ∷ []))))
  frames_of-cons works ms = refl

  pub moves-passed :
      (ms : List Move) (s : Station)
      → passed (moves floats env starts ms s).flow ≡ passed s.flow ++ frames_of ms
  unfolding moves
  moves-passed [] s = unfold frames_of in sym (append-nil (passed s.flow))
  moves-passed (m ∷ ms) s = simp (
    moves-passed ms (move floats env starts m s),
    move-passed m s,
    frames_of-cons m ms,
    list_laws,
  )

  pub Reach-IsSafeDvr :
      (allocated alive : Bool) (o : Option Recorder)
      → Called floats env (record { recorder = new allocated; alive = true }) alive o
      → IsSafeDvr alive o
  Reach-IsSafeDvr allocated alive none c = c
  Reach-IsSafeDvr allocated alive (some r) c = (
    Reach-new-IsSafe floats env allocated c,
    (Reach-new-IsInOrder floats env allocated [] r.history c refl).0,
  )

  pub start-IsRunning :
      (allocated : Bool) (now_ms : ℕ) (o : CmdOptions)
      → IsRunning floats env gst
          (record { recorder = new allocated; alive = true })
          (start_station starts allocated now_ms o)
  unfolding start_station
  start-IsRunning allocated now_ms o = record {
    recorder = rw (start_program-dvr allocated o) (configured-Reach allocated o);
    wired = start_program-IsWired allocated o;
    receiver = start_program-Keeps allocated o;
  }

  start-passed :
      (allocated : Bool) (now_ms : ℕ) (o : CmdOptions)
      → passed (start_station starts allocated now_ms o).flow ≡ []
  unfolding start_station passed waiting written
  start-passed allocated now_ms o = refl

  pub program-IsRunning :
      (allocated : Bool) (now_ms : ℕ) (o : CmdOptions) (ms : List Move)
      → IsRunning floats env gst
          (record { recorder = new allocated; alive = true })
          (moves floats env starts ms (start_station starts allocated now_ms o))
  program-IsRunning allocated now_ms o ms =
      moves-IsRunning (record { recorder = new allocated; alive = true }) ms
        (start_station starts allocated now_ms o) (start-IsRunning allocated now_ms o)

  pub program-passed :
      (allocated : Bool) (now_ms : ℕ) (o : CmdOptions) (ms : List Move)
      → passed (moves floats env starts ms (start_station starts allocated now_ms o)).flow
        ≡ frames_of ms
  program-passed allocated now_ms o ms =
      moves-passed ms (start_station starts allocated now_ms o)
      ∙ ap (λ l. l ++ frames_of ms) (start-passed allocated now_ms o)

  -- The program from its start on, with any options, over any order of control messages, frames,
  -- rounds of the decode thread and turns of the recorder's worker, and whatever the world answers:
  -- the recorder keeps its invariant, and its calls of the file and the muxer are in order; the
  -- receiver has lost no socket and no thread, has used its pipeline, its socket and its threads in
  -- order, and has its source and its callback as the flag of the sound says; and every frame that
  -- came was submitted or waits for it, once and in its order.
  pub program-IsSafe :
      (allocated : Bool) (now_ms : ℕ) (o : CmdOptions) (ms : List Move)
      → let s = moves floats env starts ms (start_station starts allocated now_ms o) in
        IsSafeDvr s.worker s.program.dvr
        × IsKept (replay gst s.program.acts new_receiver)
        × IsWired false s.program
        × (passed s.flow ≡ frames_of ms)
  program-IsSafe allocated now_ms o ms =
      let r = program-IsRunning allocated now_ms o ms in
      (
        Reach-IsSafeDvr allocated _ _ r.recorder,
        r.receiver,
        r.wired,
        program-passed allocated now_ms o ms,
      )
