-- ===== src/Receiver.antt =====
-- The receivers: GstRtpReceiver of src/gstrtpreceiver.cpp, which feeds the GStreamer pipeline, and
-- AudioReceiver of src/audio_receiver.cpp.
pub mod Stream
pub mod Demux
pub mod Pipeline
pub mod Sockets
pub mod Pull
pub mod Playback
pub mod Audio
pub mod Samples
