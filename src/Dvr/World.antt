-- ===== src/Dvr/World.antt =====
-- What the recorder (src/dvr_recorder.cpp) asks of the system and of minimp4. The answers are
-- functions of the history of calls, so that any behaviour of the outside is covered. A muxer call
-- is a tree: it may call `file_write_callback` any number of times, and go on by each result.
use amldigital_fpv.Prelude.{ℕ, Bool, List, Option}
use amldigital_fpv.Prelude.Int.{ℤ}

-- Bytes are numbers below 256.
abbrev pub Bytes : Type 0
Bytes = List ℕ

abbrev pub FilePath : Type 0
FilePath = List ℕ

-- `std::shared_ptr<std::vector<uint8_t>>`, where it is not null.
abbrev pub Frame : Type 0
Frame = Bytes

-- A file or a muxer, by the number that stands for its pointer.
abbrev pub Handle : Type 0
Handle = ℕ

-- The statuses of minimp4 that the recorder tells apart.
pub data Status : Type 0 where
  status_ok bad_arguments failure : Status

pub data Muxing (A : Type 0) : Type 0 where
  done : A → Muxing A
  callback : ℤ → Bytes → (Bool → Muxing A) → Muxing A

pub data Effect : Type 0 where
  read_clock : Effect
  create_directories : FilePath → Effect
  file_opened : Handle → Effect
  file_refused : FilePath → Effect
  file_closed : Handle → Effect
  file_seek : Handle → ℤ → Effect
  file_written : Handle → Bytes → ℕ → Effect
  allocate : Effect
  mux_opened : Handle → Effect
  mux_refused : Effect
  mux_closed : Handle → Effect
  writer_init : Handle → Effect
  writer_closed : Effect
  nal_written : Frame → ℕ → Status → Effect

-- Newest first.
abbrev pub History : Type 0
History = List Effect

-- One entry of `directory_iterator`: its name, and what kind it is of.
pub record Entry : Type 0 where
  pub name : Bytes
  pub is_directory : Bool
  pub is_regular_file : Bool

pub record Env : Type 0 where
  -- The bits of `long` less its sign: 31 on the 32-bit target.
  pub long_bits : ℕ
  pub clock : History → ℕ
  pub exists : History → FilePath → Bool
  pub entries : History → FilePath → List Entry
  -- Whether `create_directories` succeeds.
  pub makes_directories : History → FilePath → Bool
  pub fopen : History → FilePath → Option Handle
  pub fseek : History → ℤ → Bool
  -- How many bytes `fwrite` takes.
  pub fwrite : History → Bytes → ℕ
  pub malloc : History → Bool
  pub mp4_open : History → Muxing (Option Handle)
  pub mp4_close : History → Handle → Muxing (Unit {0})
  pub mp4_write_init : History → Handle → ℕ → ℕ → Bool → Muxing Status
  pub mp4_write_nal : History → Frame → ℕ → Muxing Status
