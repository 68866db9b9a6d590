-- ===== src/Lib.antt =====
-- A model of AMLDigitalFPV, a ground station's receiver of digital FPV video: RTP packets come in
-- over the network, go through GStreamer, and their frames are given to the Amlogic decoder and to
-- a recorder that writes MP4 files. Audio packets are decoded with Opus and played.
--
-- The parts and their files:
-- - Ring: FrameRingBuffer of src/frame_ring_buffer.h, which drops its oldest frame when it is full.
--   `Ring.push` and `Ring.pop` are its methods; Ring/Refine relates them to a bounded queue.
-- - Dvr: DvrRecorder of src/dvr_recorder.cpp. Dvr/State holds its fields and the calls of other
--   threads, Dvr/Paths the choice of the file, Dvr/Writer the opening, closing and rotation of the
--   file and `file_write_callback`, Dvr/Worker the branches of `worker_loop`, and Dvr/System any
--   interleaving of the calls with the worker's turns. Dvr/Phases is the machine of four phases
--   that the recorder promises to be, Dvr/Recorded the frames that it has recorded, Dvr/Healthy a
--   recording that loses none, and Dvr/Protocol the order in which the file and minimp4 may be
--   called.
-- - Aml: src/aml.c. Aml/Front is its state, Aml/Parameters what `aml_setup` gives the decoder,
--   Aml/Setup the rest of `aml_setup` and `aml_cleanup`, with the order of their calls in
--   Aml/Setup/Order, Aml/Submit `aml_submit_decode_unit`, and Aml/Display `aml_display_thread`.
-- - Receiver: GstRtpReceiver of src/gstrtpreceiver.cpp. Receiver/Stream is its start, stop and
--   switch (Receiver/Stream/Order the order of its calls), Receiver/Sockets its constructors, its
--   destructor and `create_udp_socket`, Receiver/Pipeline the texts that it gives to GStreamer,
--   Receiver/Demux the thread `loop_read_socket` with its buffers in Receiver/Demux/Buffers,
--   Receiver/Pull the thread `loop_pull_appsink_samples`, and Receiver/Playback the rate, the pause
--   and the skips. Receiver/Audio is the queue of AudioReceiver of src/audio_receiver.cpp, and
--   Receiver/Audio/Playing its thread `play_loop`; Receiver/Audio/Heard joins it to the socket.
-- - Station: src/main.cpp. Station/Options is the command line, Station/Control the loop
--   `dvr_command_loop` on the control port, which calls the recorder of Dvr and the receivers,
--   Station/Frames the frame callback and the decode thread, which Station/Frames/Pulled joins to
--   the pulling thread, Station/Main the start, the end, in Station/Main/Amid amid all other
--   threads, in Station/Main/Healthy of a program whose recording goes well, and all of it
--   together: a state of the program holds the recorder, the frames on their way to Aml/Submit, and
--   the calls of the receiver, which `replay` carries out with Receiver/Stream.
-- - Config: KvConfig of src/kv_config.cpp.
-- - Util, Log and Scheduling: src/util.c, src/spdlog_wrapper.cpp and src/scheduling_helper.hpp.
-- - Text, Floats, Codec and Prelude: C strings, decimal numbers, doubles as a parameter, the
--   codecs, and what all parts share.
--
-- A method is a function from the state before to the state behind. The system, GStreamer,
-- libamcodec and minimp4 are parameters: records of functions from the calls so far to an answer,
-- so every behaviour of theirs is covered. A call of minimp4 is a tree that may call
-- `file_write_callback` and go on by its result. Machine integers keep their wrap-around: the sizes
-- of files and the time stamps are taken modulo 2 ^ 64, and `fseek` sees its offset as a `long` of
-- the width that the environment names.
--
-- Loops over what other parties send are recursion on lists. Two loops are on fuel: the writing
-- loop of the recorder (`drain`) gets one more than the frames in the ring, and takes a frame in
-- every round; the display thread, which runs until it is told to stop, gets any fuel, and returns
-- once the fuel is above the number of calls by which `done` is set. The end of the program takes
-- the numbers of rounds of the decode thread and of turns of the recorder's worker; the frames and
-- the commands that wait say how many are enough.
--
-- Not modelled: minimp4.h, a copy of another project's library; the calls for priorities in the
-- threads, which src/scheduling_helper.hpp makes; log messages in them, sums that only the log
-- reads, and the signal handlers, which set the flag that ends the program, or end it with a trace.
-- Opus is a function of a payload and of those that the decoder was given before. A round of a
-- thread or a call is one step. The end of the program is in the order of `main`; `end_program` is
-- the one in which no message comes to the control port. Memory orders are left out: each atomic
-- variable has one value at a time.
pub mod Prelude
pub mod Ring
pub mod Floats
pub mod Text
pub mod Codec
pub mod Dvr
pub mod Aml
pub mod Station
pub mod Receiver
pub mod Config
pub mod Util
pub mod Log
pub mod Scheduling
