-- ===== src/Dvr.antt =====
-- `DvrRecorder` of src/dvr_recorder.h and src/dvr_recorder.cpp: its state, its commands, and the
-- calls that other threads make. The children hold the output path, the MP4 writer and the worker.
pub mod World
pub mod State
pub mod Paths
pub mod Writer
pub mod Worker
pub mod Phases
pub mod Recorded
pub mod Healthy
pub mod Protocol
pub mod System
pub mod Samples
