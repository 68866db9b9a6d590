-- ===== src/Receiver/Stream.antt =====
-- The start and the stop of GstRtpReceiver (src/gstrtpreceiver.cpp): its pipeline, its two threads
-- and its socket. GStreamer and the system answer by the calls so far.
pub mod Order
pub mod Kept
use amldigital_fpv.Prelude.{Bool, true, false, not, ◌&&◌, ◌||◌, List, ◌∷◌, if◌then◌else◌}

pub data ReceiverCall : Type 0 where
  launch : ReceiverCall
  release_pipeline : ReceiverCall
  play : ReceiverCall
  open_socket : ReceiverCall
  refused_socket : ReceiverCall
  close_socket : ReceiverCall
  create_reader : ReceiverCall
  join_reader : ReceiverCall
  create_puller : ReceiverCall
  join_puller : ReceiverCall

-- `gst_parse_launch`: an error, with or without an element; an element that is no pipeline, or none;
-- or a pipeline.
pub data Launch : Type 0 where
  launch_error : Bool → Launch
  no_pipeline : Launch
  launched : Launch

pub record Gst : Type 0 where
  pub parse_launch : List ReceiverCall → Launch
  pub create_udp_socket : List ReceiverCall → Bool
  pub has_appsrc : List ReceiverCall → Bool

-- `pipeline`, the threads, and `sock` are whether there is one; `unix_socket` is whether it was
-- made on a path.
pub record GstRtpReceiver : Type 0 where
  pub pipeline : Bool
  pub pull_samples_run : Bool
  pub pull_samples_thread : Bool
  pub unix_socket : Bool
  pub sock : Bool
  pub udp_appsrc : Bool
  pub read_socket_run : Bool
  pub read_socket_thread : Bool
  pub calls : List ReceiverCall

unfoldable pub call : ReceiverCall → GstRtpReceiver → GstRtpReceiver
call c r = record r { calls = c ∷ r.calls }

unfoldable pub join_threads : GstRtpReceiver → GstRtpReceiver
unfolding call
join_threads r =
    let r1 =
      if r.pull_samples_thread
      then call join_puller (record r { pull_samples_thread = false })
      else r in
    if r1.read_socket_thread
    then call join_reader (record r1 { read_socket_thread = false })
    else r1

unfoldable pub drop_pipeline : GstRtpReceiver → GstRtpReceiver
unfolding call
drop_pipeline r = if r.pipeline then call release_pipeline (record r { pipeline = false }) else r

unfoldable pub drop_socket : GstRtpReceiver → GstRtpReceiver
unfolding call
drop_socket r = if r.udp_appsrc && r.sock then call close_socket (record r { sock = false }) else r

unfoldable pub stop_receiving : GstRtpReceiver → GstRtpReceiver
stop_receiving r =
    drop_socket (
      drop_pipeline (join_threads (record r { pull_samples_run = false; read_socket_run = false })))

unfoldable pub set_udp_appsrc : Bool → GstRtpReceiver → GstRtpReceiver
set_udp_appsrc enable r = record r { udp_appsrc = enable }

-- From `gst_element_set_state(…, GST_STATE_PLAYING)` on.
unfoldable pub start_puller : GstRtpReceiver → GstRtpReceiver
unfolding call
start_puller r =
    call create_puller
      (call play (record r { pull_samples_run = true; pull_samples_thread = true }))

-- The thread that reads the socket, where there is an appsrc to feed.
unfoldable pub start_reader : Gst → GstRtpReceiver → GstRtpReceiver
unfolding call
start_reader gst r =
    if not (r.unix_socket || r.udp_appsrc)
    then start_puller r
    else if not (gst.has_appsrc r.calls)
    then r
    else start_puller
        (call create_reader (record r { read_socket_run = true; read_socket_thread = true }))

-- The socket, where it is wanted and not there.
unfoldable pub connect : Gst → GstRtpReceiver → GstRtpReceiver
unfolding call
connect gst r =
    if not (r.udp_appsrc && not r.unix_socket) || r.sock
    then start_reader gst r
    else if gst.create_udp_socket r.calls
    then start_reader gst (call open_socket (record r { sock = true }))
    else call refused_socket r

unfoldable pub on_launch : Gst → Launch → GstRtpReceiver → GstRtpReceiver
on_launch gst (launch_error element) r = record r { pipeline = element }
on_launch gst no_pipeline r = record r { pipeline = false }
on_launch gst launched r = connect gst (record r { pipeline = true })

unfoldable pub switch_to_stream : Gst → GstRtpReceiver → GstRtpReceiver
unfolding call
switch_to_stream gst r =
    let r1 = stop_receiving r in on_launch gst (gst.parse_launch r1.calls) (call launch r1)

unfoldable pub on_file_launch : Launch → GstRtpReceiver → GstRtpReceiver
on_file_launch (launch_error element) r = record r { pipeline = element }
on_file_launch no_pipeline r = record r { pipeline = false }
on_file_launch launched r = start_puller (record r { pipeline = true })

unfoldable pub switch_to_file_playback : Gst → GstRtpReceiver → GstRtpReceiver
unfolding call
switch_to_file_playback gst r =
    let r1 = stop_receiving r in on_file_launch (gst.parse_launch r1.calls) (call launch r1)

-- `assert(m_gst_pipeline == nullptr)` holds in the builds without assertions, and else where the
-- receiver was stopped before.
unfoldable pub start_receiving : Gst → GstRtpReceiver → GstRtpReceiver
start_receiving gst r = switch_to_stream gst r
