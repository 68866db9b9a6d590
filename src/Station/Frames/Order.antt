-- ===== src/Station/Frames/Order.antt =====
-- Each frame that comes is submitted once and in its order, and the decode thread ends.
use amldigital_fpv.Prelude.{
  list_laws, ℕ, ◌+◌, ◌<◌, ◌≡◌, refl, sym, ap, ◌∙◌, true, false, ◌||◌, List, [], ◌∷◌, ◌++◌,
  append_assoc, append-nil, Option, none, some, length, length-append, arith, Bool-cases, inl, inr,
}
use mathlib.Core.List.{reverse}
use amldigital_fpv.Floats.{Floats}
use amldigital_fpv.Dvr.World.{Frame}
use amldigital_fpv.Aml.Submit.{CodecWrite}
use amldigital_fpv.Aml.Submit.Stamps.{written, submit-written}
use amldigital_fpv.Station.Frames.{
  Flow, count_in_window, rate_window, video_callback, decode_frame, take_frame, is_waiting,
  decode_round, finish_decoding, Happening, arrives, decodes, finishes, happen, happen_all,
}

-- The frames that wait in a queue, in their order.
unfoldable pub waiting : List (Option Frame) → List Frame
waiting [] = []
waiting (none ∷ q) = waiting q
waiting (some frame ∷ q) = frame ∷ waiting q

-- Those that come.
unfoldable pub arrived : List Happening → List Frame
arrived [] = []
arrived (arrives now_ms frame ∷ hs) = frame ∷ arrived hs
arrived (decodes time_ms answer ∷ hs) = arrived hs
arrived (finishes ∷ hs) = arrived hs

-- The frames that were submitted, in their order, and those that wait.
unfoldable pub passed : Flow → List Frame
passed f = reverse (written f.decoder.calls) ++ waiting f.decode_queue

waiting-append : (q r : List (Option Frame)) → waiting (q ++ r) ≡ waiting q ++ waiting r
unfolding waiting
waiting-append [] r = refl
waiting-append (none ∷ q) r = waiting-append q r
waiting-append (some frame ∷ q) r = ap (λ l. frame ∷ l) (waiting-append q r)

take_frame-passed :
    (time_ms : ℕ) (answer : CodecWrite) (q : List (Option Frame)) (f : Flow)
    → f.decode_queue ≡ q
    → passed (take_frame time_ms answer q f) ≡ passed f
unfolding take_frame decode_frame passed waiting
take_frame-passed time_ms answer [] f e = refl
take_frame-passed time_ms answer (none ∷ rest) f e =
    ap (λ q. reverse (written f.decoder.calls) ++ waiting q) (sym e)
take_frame-passed time_ms answer (some frame ∷ rest) f e =
    simp (submit-written time_ms answer frame f.decoder, e, list_laws)

decode_round-passed :
    (time_ms : ℕ) (answer : CodecWrite) (f : Flow)
    → passed (decode_round time_ms answer f) ≡ passed f
unfolding decode_round passed
decode_round-passed time_ms answer f =
    elim (Bool-cases (f.decoding_active || is_waiting f.decode_queue)) [
      | inl more ↦ rw (more, decode_round) (take_frame-passed time_ms answer f.decode_queue f refl)
      | inr over ↦ rw (over, decode_round) refl
    ]

-- A happening that is a round of the thread.
unfoldable pub rounds : List (ℕ × CodecWrite) → List Happening
rounds [] = []
rounds ((time_ms, answer) ∷ turns) = decodes time_ms answer ∷ rounds turns

rounds-arrived : (turns : List (ℕ × CodecWrite)) → arrived (rounds turns) ≡ []
unfolding rounds arrived
rounds-arrived [] = refl
rounds-arrived ((time_ms, answer) ∷ turns) = rounds-arrived turns

take_frame-decoding_active :
    (time_ms : ℕ) (answer : CodecWrite) (q : List (Option Frame)) (f : Flow)
    → (take_frame time_ms answer q f).decoding_active ≡ f.decoding_active
unfolding take_frame
take_frame-decoding_active time_ms answer [] f = refl
take_frame-decoding_active time_ms answer (item ∷ rest) f = refl

module _ (floats : Floats) where
  video_callback-passed :
      (now_ms : ℕ) (frame : Frame) (f : Flow)
      → passed (video_callback floats now_ms frame f) ≡ passed f ++ frame ∷ []
  unfolding video_callback rate_window count_in_window passed
  video_callback-passed now_ms frame f =
      let done = reverse (written f.decoder.calls) in
      let more : waiting (f.decode_queue ++ some frame ∷ [])
          ≡ waiting f.decode_queue ++ frame ∷ [] =
        waiting-append f.decode_queue (some frame ∷ []) ∙ unfold waiting in refl in
      ground
        (arith, ap (λ l. done ++ l) more, append_assoc done (waiting f.decode_queue) (frame ∷ []))

  pub finish_decoding-passed : (f : Flow) → passed (finish_decoding f) ≡ passed f
  unfolding finish_decoding passed
  finish_decoding-passed f =
      ap (λ l. reverse (written f.decoder.calls) ++ l)
        (waiting-append f.decode_queue (none ∷ [])
          ∙ unfold waiting in append-nil (waiting f.decode_queue))

  pub happen-passed :
      (h : Happening) (f : Flow) → passed (happen floats h f) ≡ passed f ++ arrived (h ∷ [])
  unfolding happen arrived
  happen-passed (arrives now_ms frame) f = video_callback-passed now_ms frame f
  happen-passed (decodes time_ms answer) f = elim (Bool-cases f.decoding) [
    | inl runs ↦ ground (arith, decode_round-passed time_ms answer f, append-nil (passed f))
    | inr ended ↦ ground (arith, append-nil (passed f))
  ]
  happen-passed finishes f = finish_decoding-passed f ∙ sym (append-nil (passed f))

  arrived-cons :
      (h : Happening) (hs : List Happening) → arrived (h ∷ hs) ≡ arrived (h ∷ []) ++ arrived hs
  unfolding arrived
  arrived-cons (arrives now_ms frame) hs = refl
  arrived-cons (decodes time_ms answer) hs = refl
  arrived-cons finishes hs = refl

  -- Whatever happens in whatever order, and whatever the decoder answers: the frames that were
  -- submitted, with those that wait behind them, are those there were and then the ones that came,
  -- each once and in its order.
  pub happen_all-passed :
      (hs : List Happening) (f : Flow) → passed (happen_all floats hs f) ≡ passed f ++ arrived hs
  unfolding happen_all
  happen_all-passed [] f = unfold arrived in sym (append-nil (passed f))
  happen_all-passed (h ∷ hs) f =
      simp
        (happen_all-passed hs (happen floats h f), happen-passed h f, arrived-cons h hs, list_laws)

  -- The thread has ended, and nothing is left for it.
  pub record IsDecoded (f : Flow) : Type 0 where
    pub ended : f.decoding ≡ false
    pub empty : f.decode_queue ≡ []

  -- A round at the end, and a round before it.
  happen-IsDecoded :
      (time_ms : ℕ) (answer : CodecWrite) (f : Flow)
      → f.decode_queue ≡ []
      → f.decoding_active ≡ false
      → IsDecoded (happen floats (decodes time_ms answer) f)
  unfolding happen decode_round is_waiting
  happen-IsDecoded time_ms answer f e over = ground arith

  happen-queue :
      (time_ms : ℕ) (answer : CodecWrite) (item : Option Frame) (rest : List (Option Frame))
      (f : Flow)
      → f.decode_queue ≡ item ∷ rest
      → f.decoding ≡ true
      → let f' = happen floats (decodes time_ms answer) f in
        (f'.decode_queue ≡ rest) × (f'.decoding ≡ true) × (f'.decoding_active ≡ f.decoding_active)
  unfolding happen decode_round take_frame is_waiting
  happen-queue time_ms answer item rest f e runs = ground arith

  happen-decoding_active :
      (time_ms : ℕ) (answer : CodecWrite) (f : Flow)
      → (happen floats (decodes time_ms answer) f).decoding_active ≡ f.decoding_active
  unfolding happen decode_round take_frame
  happen-decoding_active time_ms answer f =
      ground (arith, take_frame-decoding_active time_ms answer f.decode_queue f)

  rounds-IsDecoded :
      (turns : List (ℕ × CodecWrite)) (f : Flow)
      → f.decoding_active ≡ false
      → IsDecoded f
      → IsDecoded (happen_all floats (rounds turns) f)
  unfolding happen_all rounds
  rounds-IsDecoded [] f over d = d
  rounds-IsDecoded ((time_ms, answer) ∷ turns) f over d =
      rounds-IsDecoded turns _ (happen-decoding_active time_ms answer f ∙ over)
        (happen-IsDecoded time_ms answer f d.empty over)

  rounds-end :
      (turns : List (ℕ × CodecWrite)) (q : List (Option Frame)) (f : Flow)
      → f.decode_queue ≡ q
      → f.decoding ≡ true
      → f.decoding_active ≡ false
      → length q < length turns
      → IsDecoded (happen_all floats (rounds turns) f)
  unfolding happen_all rounds
  rounds-end [] q f e runs over enough = absurd (omega arith)
  rounds-end ((time_ms, answer) ∷ turns) [] f e runs over enough =
      rounds-IsDecoded turns _ (happen-decoding_active time_ms answer f ∙ over)
        (happen-IsDecoded time_ms answer f e over)
  rounds-end ((time_ms, answer) ∷ turns) (item ∷ rest) f e runs over enough =
      let (queue, still, active) = happen-queue time_ms answer item rest f e runs in
      rounds-end turns rest _ queue still (active ∙ over) (omega arith)

  -- The end of the program, while the decode thread runs: where no more frames come, so many rounds
  -- as frames wait and two more end the thread, with an empty queue and every frame submitted, each
  -- once and in its order, whatever the decoder answers.
  pub finish-IsDecoded :
      (turns : List (ℕ × CodecWrite)) (f : Flow)
      → f.decoding ≡ true
      → length f.decode_queue + 1 < length turns
      → let f' = happen_all floats (finishes ∷ rounds turns) f in
        IsDecoded f' × (reverse (written f'.decoder.calls) ≡ passed f)
  unfolding happen_all happen finish_decoding passed waiting
  finish-IsDecoded turns f runs enough =
      let f1 = finish_decoding f in
      let f' = happen_all floats (rounds turns) f1 in
      let d =
        rounds-end turns f1.decode_queue f1 refl runs refl
          (omega (arith, length-append f.decode_queue (none ∷ []))) in
      (
        d,
        sym (append-nil (reverse (written f'.decoder.calls)))
            ∙ ap (λ q. reverse (written f'.decoder.calls) ++ waiting q) (sym d.empty)
            ∙ happen_all-passed (rounds turns) f1
            ∙ ap (λ l. passed f1 ++ l) (rounds-arrived turns)
            ∙ append-nil (passed f1)
            ∙ finish_decoding-passed f,
      )
