-- ===== src/Receiver/Stream/Kept.antt =====
-- What the receiver opens and starts it closes and joins, over starts, stops and switches.
use amldigital_fpv.Prelude.{tally, held, ◌+◌, ◌≡◌, Bool, true, false, ◌&&◌, arith, refl}
use amldigital_fpv.Receiver.Stream.{
  ReceiverCall, open_socket, close_socket, create_reader, join_reader, create_puller, join_puller,
  Launch, launch_error, no_pipeline, launched, Gst, GstRtpReceiver, call, join_threads,
  drop_pipeline, drop_socket, stop_receiving, set_udp_appsrc, start_puller, start_reader, connect,
  on_launch, switch_to_stream, on_file_launch, switch_to_file_playback, start_receiving,
}
use amldigital_fpv.Receiver.Stream.Order.{launched_in, IsOrdered}

abbrev is_open_socket : ReceiverCall → Bool
is_open_socket open_socket = true
is_open_socket _ = false

abbrev is_close_socket : ReceiverCall → Bool
is_close_socket close_socket = true
is_close_socket _ = false

abbrev is_create_reader : ReceiverCall → Bool
is_create_reader create_reader = true
is_create_reader _ = false

abbrev is_join_reader : ReceiverCall → Bool
is_join_reader join_reader = true
is_join_reader _ = false

abbrev is_create_puller : ReceiverCall → Bool
is_create_puller create_puller = true
is_create_puller _ = false

abbrev is_join_puller : ReceiverCall → Bool
is_join_puller join_puller = true
is_join_puller _ = false

-- The state of a receiver on a port: what it has opened and started is what the state says, its
-- socket is one that a stop closes, a thread reads an open socket, the pulling thread has been told
-- to run, and the calls were in order.
pub record IsKept (r : GstRtpReceiver) : Type 0 where
  pub port : r.unix_socket ≡ false
  pub socket : tally is_open_socket r.calls ≡ tally is_close_socket r.calls + held r.sock
  pub reader :
      tally is_create_reader r.calls ≡ tally is_join_reader r.calls + held r.read_socket_thread
  pub puller :
      tally is_create_puller r.calls ≡ tally is_join_puller r.calls + held r.pull_samples_thread
  pub closes : (r.sock && r.udp_appsrc) ≡ r.sock
  pub reads : (r.read_socket_thread && r.sock) ≡ r.read_socket_thread
  pub ordered : IsOrdered r
  pub told : (r.pull_samples_thread && r.pull_samples_run) ≡ r.pull_samples_thread

-- A receiver that holds nothing: no thread, no pipeline and no socket.
pub record IsStopped (r : GstRtpReceiver) : Type 0 where
  pub kept : IsKept r
  pub pipeline : r.pipeline ≡ false
  pub socket : r.sock ≡ false
  pub reader : r.read_socket_thread ≡ false
  pub puller : r.pull_samples_thread ≡ false

-- A stop of a receiver on a port that kept count leaves nothing running and nothing open, and keeps
-- count.
pub stop_receiving-IsStopped : (r : GstRtpReceiver) → IsKept r → IsStopped (stop_receiving r)
unfolding stop_receiving drop_socket drop_pipeline join_threads call tally
stop_receiving-IsStopped r k = ground arith

start_puller-IsKept :
    (r : GstRtpReceiver)
    → IsKept r
    → launched_in r.calls ≡ true
    → r.pull_samples_thread ≡ false
    → IsKept (start_puller r)
unfolding start_puller call tally
start_puller-IsKept r k there none_yet = ground arith

start_reader-IsKept :
    (gst : Gst) (r : GstRtpReceiver)
    → IsKept r
    → launched_in r.calls ≡ true
    → r.pull_samples_thread ≡ false
    → r.read_socket_thread ≡ false
    → r.sock ≡ r.udp_appsrc
    → IsKept (start_reader gst r)
unfolding start_reader call tally
start_reader-IsKept gst r k there no_puller no_reader wanted =
    let reading =
      call create_reader (record r { read_socket_run = true; read_socket_thread = true }) in
    ground (arith, start_puller-IsKept r k there no_puller, start_puller-IsKept reading)

connect-IsKept :
    (gst : Gst) (r : GstRtpReceiver)
    → IsKept r
    → launched_in r.calls ≡ true
    → r.pull_samples_thread ≡ false
    → r.read_socket_thread ≡ false
    → r.sock ≡ false
    → IsKept (connect gst r)
unfolding connect call tally
connect-IsKept gst r k there no_puller no_reader no_socket =
    let connected = call open_socket (record r { sock = true }) in
    ground (
      arith,
      start_reader-IsKept gst r k there no_puller no_reader,
      start_reader-IsKept gst connected,
    )

on_launch-IsKept :
    (gst : Gst) (l : Launch) (r : GstRtpReceiver)
    → IsKept r
    → launched_in r.calls ≡ true
    → r.pull_samples_thread ≡ false
    → r.read_socket_thread ≡ false
    → r.sock ≡ false
    → IsKept (on_launch gst l r)
unfolding on_launch
on_launch-IsKept gst (launch_error element) r k there a b c = ground arith
on_launch-IsKept gst no_pipeline r k there a b c = ground arith
on_launch-IsKept gst launched r k there a b c =
    connect-IsKept gst (record r { pipeline = true }) (ground arith) there a b c

-- A start stops the receiver first.
pub start_receiving-IsKept :
    (gst : Gst) (r : GstRtpReceiver) → IsKept r → IsKept (start_receiving gst r)
unfolding start_receiving switch_to_stream call tally
start_receiving-IsKept gst r k =
    let again = stop_receiving-IsStopped r k in
    on_launch-IsKept gst _ _ (ground (arith, again)) refl again.puller again.reader again.socket

-- The source may be chosen where there is no socket.
pub set_udp_appsrc-IsKept :
    (enable : Bool) (r : GstRtpReceiver)
    → IsKept r
    → r.sock ≡ false
    → IsKept (set_udp_appsrc enable r)
unfolding set_udp_appsrc
set_udp_appsrc-IsKept enable r k none_open = ground arith

-- Switching the sound, as a control message does, of a receiver on a port that kept count: it is
-- stopped, its source is chosen, and it is started again. Whatever GStreamer and the system answer,
-- no socket and no thread is lost, and a thread reads an open socket.
pub restart-IsKept :
    (gst : Gst) (enable : Bool) (r : GstRtpReceiver)
    → IsKept r
    → IsKept (start_receiving gst (set_udp_appsrc enable (stop_receiving r)))
restart-IsKept gst enable r k =
    let stopped = stop_receiving-IsStopped r k in
    start_receiving-IsKept gst _ (set_udp_appsrc-IsKept enable _ stopped.kept stopped.socket)

on_file_launch-IsKept :
    (l : Launch) (r : GstRtpReceiver)
    → IsKept r
    → launched_in r.calls ≡ true
    → r.pull_samples_thread ≡ false
    → IsKept (on_file_launch l r)
unfolding on_file_launch
on_file_launch-IsKept (launch_error element) r k there a = ground arith
on_file_launch-IsKept no_pipeline r k there a = ground arith
on_file_launch-IsKept launched r k there a =
    start_puller-IsKept (record r { pipeline = true }) (ground arith) there a

-- The switch of such a receiver to a file loses no socket and no thread either.
switch_to_file_playback-IsKept :
    (gst : Gst) (r : GstRtpReceiver) → IsKept r → IsKept (switch_to_file_playback gst r)
unfolding switch_to_file_playback call tally
switch_to_file_playback-IsKept gst r k =
    let again = stop_receiving-IsStopped r k in
    on_file_launch-IsKept _ _ (ground (arith, again)) refl again.puller
