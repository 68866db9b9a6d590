-- ===== src/Aml/Setup/Order.antt =====
-- The order in which src/aml.c must use the video device, the display thread and the text of the
-- configuration.
use amldigital_fpv.Prelude.{ℕ, ◌≡◌, Bool, true, false, not, ◌&&◌, List, [], ◌∷◌, Option, none, some}
use amldigital_fpv.Aml.Front.{
  Call, allocate_config, free_config, open_video, create_thread, set_done, join_thread, close_video,
  close_codec, Front,
}

-- What the calls have left: the device is open, the thread was created and not joined, it was told to
-- end, the text is allocated.
abbrev pub video_in : List Call → Bool
video_in [] = false
video_in (open_video ∷ cs) = true
video_in (close_video ∷ cs) = false
video_in (_ ∷ cs) = video_in cs

abbrev pub thread_in : List Call → Bool
thread_in [] = false
thread_in (create_thread true ∷ cs) = true
thread_in (join_thread ∷ cs) = false
thread_in (_ ∷ cs) = thread_in cs

abbrev pub done_in : List Call → Bool
done_in [] = false
done_in (set_done ∷ cs) = true
done_in (_ ∷ cs) = done_in cs

abbrev pub config_in : List Call → Bool
config_in [] = false
config_in (allocate_config ∷ cs) = true
config_in (free_config ∷ cs) = false
config_in (_ ∷ cs) = config_in cs

-- Whether a call may come behind others. The thread runs on an open device only, and the device and
-- the decoder are closed without it; it is joined only once it was told to end, for else the join
-- does not return; one of each is there at a time, and only what is there is given back.
abbrev pub may_call : Call → List Call → Bool
may_call allocate_config cs = not (config_in cs)
may_call free_config cs = config_in cs
may_call open_video cs = not (video_in cs)
may_call (create_thread ok) cs = video_in cs && not (thread_in cs)
may_call join_thread cs = thread_in cs && done_in cs
may_call close_video cs = video_in cs && not (thread_in cs)
may_call close_codec cs = not (thread_in cs)
may_call _ cs = true

abbrev pub in_order : List Call → Bool
in_order [] = true
in_order (c ∷ cs) = may_call c cs && in_order cs

abbrev pub has_config : Option (List ℕ) → Bool
has_config none = false
has_config (some text) = true

-- The calls were in order, and have left what the state says.
pub record IsOrdered (s : Front) : Type 0 where
  pub order : in_order s.calls ≡ true
  pub video : video_in s.calls ≡ s.video_open
  pub thread : thread_in s.calls ≡ s.thread
  pub done : done_in s.calls ≡ s.is_done
  pub config : config_in s.calls ≡ has_config s.codec.config
