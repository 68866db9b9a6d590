-- ===== src/Receiver/Stream/Order.antt =====
-- The order in which GstRtpReceiver must use its pipeline, its socket and its threads.
use amldigital_fpv.Prelude.{◌≡◌, Bool, true, false, not, ◌&&◌, ◌||◌, List, [], ◌∷◌}
use amldigital_fpv.Receiver.Stream.{
  ReceiverCall, launch, release_pipeline, play, open_socket, refused_socket, close_socket,
  create_reader, join_reader, create_puller, join_puller, GstRtpReceiver,
}

-- What the calls have left: a pipeline may be there, the socket is open, a thread runs.
abbrev pub launched_in : List ReceiverCall → Bool
launched_in [] = false
launched_in (launch ∷ cs) = true
launched_in (release_pipeline ∷ cs) = false
launched_in (_ ∷ cs) = launched_in cs

abbrev pub socket_in : List ReceiverCall → Bool
socket_in [] = false
socket_in (open_socket ∷ cs) = true
socket_in (close_socket ∷ cs) = false
socket_in (_ ∷ cs) = socket_in cs

abbrev pub reader_in : List ReceiverCall → Bool
reader_in [] = false
reader_in (create_reader ∷ cs) = true
reader_in (join_reader ∷ cs) = false
reader_in (_ ∷ cs) = reader_in cs

abbrev pub puller_in : List ReceiverCall → Bool
puller_in [] = false
puller_in (create_puller ∷ cs) = true
puller_in (join_puller ∷ cs) = false
puller_in (_ ∷ cs) = puller_in cs

-- Whether a call may come behind others. No thread runs while its pipeline comes or goes, or its
-- socket; a thread is only started where it finds its pipeline and its socket, one of each kind at a
-- time, and only joined where it runs; a socket is only opened where none is open, and only an open
-- one closed.
abbrev pub may_call : ReceiverCall → List ReceiverCall → Bool
may_call launch cs = not (reader_in cs || puller_in cs)
may_call release_pipeline cs = launched_in cs && not (reader_in cs || puller_in cs)
may_call play cs = launched_in cs
may_call open_socket cs = not (socket_in cs)
may_call refused_socket cs = true
may_call close_socket cs = socket_in cs && not (reader_in cs)
may_call create_reader cs = launched_in cs && socket_in cs && not (reader_in cs)
may_call join_reader cs = reader_in cs
may_call create_puller cs = launched_in cs && not (puller_in cs)
may_call join_puller cs = puller_in cs

abbrev pub in_order : List ReceiverCall → Bool
in_order [] = true
in_order (c ∷ cs) = may_call c cs && in_order cs

-- The calls were in order, and have left what the state says.
pub record IsOrdered (r : GstRtpReceiver) : Type 0 where
  pub order : in_order r.calls ≡ true
  pub socket : socket_in r.calls ≡ r.sock
  pub reader : reader_in r.calls ≡ r.read_socket_thread
  pub puller : puller_in r.calls ≡ r.pull_samples_thread
  pub pipeline : (r.pipeline && launched_in r.calls) ≡ r.pipeline
