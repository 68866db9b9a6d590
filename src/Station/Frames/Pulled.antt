-- ===== src/Station/Frames/Pulled.antt =====
-- From the sink of the pipeline to the decoder: `loop_pull_samples` and `on_new_sample` of
-- src/gstrtpreceiver.cpp give the frames that are pulled to the callback of src/main.cpp, while the
-- decode thread makes its rounds.
use amldigital_fpv.Prelude.{
  ℕ, ◌≡◌, refl, sym, ap, ◌∙◌, Bool, true, List, [], ◌∷◌, ◌++◌, none, some, if◌then◌else◌,
  Bool-cases, inl, inr,
}
use mathlib.Core.List.{reverse}
use amldigital_fpv.Floats.{Floats}
use amldigital_fpv.Dvr.World.{Frame}
use amldigital_fpv.Aml.Submit.{CodecWrite}
use amldigital_fpv.Receiver.Pull
use amldigital_fpv.Receiver.Pull.{
  Pulled, no_sample, sample, Puller, loop_pull_appsink_samples, frames_in, pulled_frames,
  loop_pull_appsink_samples-delivered,
}
use amldigital_fpv.Station.Frames.{Flow, Happening, arrives, decodes, finishes, happen_all}
use amldigital_fpv.Station.Frames.Order.{arrived, passed, happen_all-passed}

-- `on_new_sample`: the callback is called, where there is one.
unfoldable pub on_new_sample : Bool → ℕ → Frame → List Happening
on_new_sample callback now frame = if callback then arrives now frame ∷ [] else []

-- The threads' rounds, in the order in which they are made.
pub data Pulling : Type 0 where
  pulls : Pull.Round → Pulling
  decodes_next : ℕ → CodecWrite → Pulling

-- What a pulled sample comes to.
unfoldable pub take_sample : Bool → ℕ → Pulled → List Happening
unfolding on_new_sample
take_sample callback now no_sample = []
take_sample callback now (sample none) = []
take_sample callback now (sample (some frame)) = on_new_sample callback now frame

-- The rounds of the decode thread go on where the pulling thread has ended.
unfoldable pub decodes_only : List Pulling → List Happening
decodes_only [] = []
decodes_only (pulls r ∷ ts) = decodes_only ts
decodes_only (decodes_next time_ms answer ∷ ts) = decodes time_ms answer ∷ decodes_only ts

-- What the callback and the decode thread meet while the pulling thread runs `loop_pull_samples`.
unfoldable pub loop_pull_samples : Bool → List Pulling → List Happening
unfolding take_sample decodes_only
loop_pull_samples callback [] = []
loop_pull_samples callback (pulls r ∷ ts) =
    let rest = loop_pull_samples callback ts in
    if r.keep_looping then take_sample callback r.now r.pulled ++ rest else decodes_only ts
loop_pull_samples callback (decodes_next time_ms answer ∷ ts) =
    decodes time_ms answer ∷ loop_pull_samples callback ts

-- The rounds of the pulling thread.
unfoldable pub pulls_of : List Pulling → List Pull.Round
pulls_of [] = []
pulls_of (pulls r ∷ ts) = r ∷ pulls_of ts
pulls_of (decodes_next time_ms answer ∷ ts) = pulls_of ts

arrived-append : (hs ks : List Happening) → arrived (hs ++ ks) ≡ arrived hs ++ arrived ks
unfolding arrived
arrived-append [] ks = refl
arrived-append (arrives now_ms frame ∷ hs) ks = ap (λ l. frame ∷ l) (arrived-append hs ks)
arrived-append (decodes time_ms answer ∷ hs) ks = arrived-append hs ks
arrived-append (finishes ∷ hs) ks = arrived-append hs ks

take_sample-arrived : (now : ℕ) (p : Pulled) → arrived (take_sample true now p) ≡ frames_in p
unfolding take_sample on_new_sample frames_in arrived
take_sample-arrived now no_sample = refl
take_sample-arrived now (sample none) = refl
take_sample-arrived now (sample (some frame)) = refl

decodes_only-arrived : (ts : List Pulling) → arrived (decodes_only ts) ≡ []
unfolding decodes_only arrived
decodes_only-arrived [] = refl
decodes_only-arrived (pulls r ∷ ts) = decodes_only-arrived ts
decodes_only-arrived (decodes_next time_ms answer ∷ ts) = decodes_only-arrived ts

loop_pull_samples-arrived :
    (ts : List Pulling) → arrived (loop_pull_samples true ts) ≡ pulled_frames (pulls_of ts)
unfolding loop_pull_samples pulls_of pulled_frames arrived
loop_pull_samples-arrived [] = refl
loop_pull_samples-arrived (decodes_next time_ms answer ∷ ts) = loop_pull_samples-arrived ts
loop_pull_samples-arrived (pulls r ∷ ts) = elim (Bool-cases r.keep_looping) [
  | inl runs ↦ simp runs (
      arrived-append (take_sample true r.now r.pulled) (loop_pull_samples true ts)
      ∙ ap (λ l. l ++ arrived (loop_pull_samples true ts)) (take_sample-arrived r.now r.pulled)
      ∙ ap (λ l. frames_in r.pulled ++ l) (loop_pull_samples-arrived ts))
  | inr over ↦ simp over (decodes_only-arrived ts)
]

module _ (floats : Floats) where
  -- With the callback set, over any order of rounds of the pulling thread and of the decode thread,
  -- and whatever the sink and the decoder answer: the frames that were submitted to the decoder, and
  -- then those that wait for it, are those that there were and then the ones that the pulling thread
  -- delivered, each once and in its order.
  pub loop_pull_samples-passed :
      (ts : List Pulling) (f : Flow) (p : Puller)
      → p.delivered ≡ []
      → passed (happen_all floats (loop_pull_samples true ts) f)
        ≡ passed f ++ reverse (loop_pull_appsink_samples (pulls_of ts) p).delivered
  loop_pull_samples-passed ts f p first =
      happen_all-passed floats (loop_pull_samples true ts) f
      ∙ ap (λ l. passed f ++ l)
          (loop_pull_samples-arrived ts
            ∙ ap (λ d. reverse d ++ pulled_frames (pulls_of ts)) (sym first)
            ∙ sym (loop_pull_appsink_samples-delivered (pulls_of ts) p).0)
