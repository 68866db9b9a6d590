-- ===== src/Station.antt =====
-- src/main.cpp: the options, the control messages, the frames on their way to the decoder and the
-- recorder, and the start and the end of the program.
pub mod Options
pub mod Called
pub mod Ending
pub mod Control
pub mod Frames
pub mod Main
