-- ===== src/Aml.antt =====
-- The Amlogic decoder's front end, src/aml.c: the setup, the submission of frames, the display
-- thread and the cleanup. libamcodec, the kernel's files and V4L2 answer through parameters.
pub mod Submit
pub mod Display
pub mod Front
pub mod Parameters
pub mod Setup
mod Samples
