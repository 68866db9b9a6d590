-- ===== src/Dvr/Writer/Size.antt =====
-- How `file_write_callback` keeps the size of the file, and asks for a new file.
use amldigital_fpv.Prelude.{
  ℕ, ◌+◌, ◌-◌, ◌*◌, ◌≤◌, ◌<◌, ◌%◌, ◌^◌, ◌≡◌, false, ◌&&◌, ◌||◌, if◌then◌else◌, ltb, leb, length,
  arith,
}
use amldigital_fpv.Prelude.Int.{ℤ, pos, negsuc}
use amldigital_fpv.Dvr.World.{Bytes, History, Env}
use amldigital_fpv.Dvr.State.{Recorder}
use amldigital_fpv.Dvr.Writer.{max_fat32_size, clamp_positive, file_write_callback}

-- A write that succeeds raises the noted size to its end, if that is larger, and requests a new
-- file if it ends at the limit or beyond; one that fails leaves both alone.
pub file_write_callback-size :
    (env : Env) (offset : ℤ) (buffer : Bytes) (s : Recorder)
    → let (ok, s') = file_write_callback env offset buffer s in
      let new_end = (clamp_positive offset + length buffer) % 2 ^ 64 in
      (s'.current_file_bytes
        ≡ (if ok && ltb s.current_file_bytes new_end then new_end else s.current_file_bytes))
      × (s'.rotate_requested ≡ (s.rotate_requested || (ok && leb max_fat32_size new_end)))
unfolding file_write_callback
file_write_callback-size env offset buffer s = ground arith

-- `fseek` refuses a negative place.
abbrev pub RefusesNegative : Env → Type 0
RefusesNegative env = (h : History) (n : ℕ) → env.fseek h (negsuc n) ≡ false

-- Where `long` has 32 bits and `fseek` refuses negative places, a write from 2 GiB on and below 4 GiB
-- fails and leaves the file, its noted size and the request for a new file as they were.
pub callback-beyond_long :
    (env : Env) (offset : ℕ) (buffer : Bytes) (s : Recorder)
    → RefusesNegative env
    → env.long_bits ≡ 31
    → 2 ^ 31 ≤ offset
    → offset < 2 ^ 32
    → let (ok, s') = file_write_callback env (pos offset) buffer s in
      (ok ≡ false)
      × (s'.current_file_bytes ≡ s.current_file_bytes)
      × (s'.rotate_requested ≡ s.rotate_requested)
unfolding file_write_callback
callback-beyond_long env offset buffer s refuses bits low high =
    ground (arith, refuses s.history (2 * 2 ^ 31 - offset - 1))
