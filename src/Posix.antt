-- ===== src/Posix.antt =====
-- The operating system's calls that src/storage.cc makes, as an interface: the world `W` is what the
-- calls read and change. A call returns a value, or fails with an errno value.
pub mod Shelf
pub mod Laws
pub mod Ram
pub mod RamLaws
use diarkis.Base.{ℕ, Bool, Option, Bytes}
use diarkis.Error.{Errno}

pub data Outcome {ℓ} (A : Type ℓ) : Type ℓ where
  returned : A → Outcome A
  failed : Errno → Outcome A

-- The flags of the four calls of ::open, with the mode of a file that they create.
pub data OpenMode : Type 0 where
  create_exclusive write_truncate write_append : ℕ → OpenMode
  read_only : OpenMode

pub record Stat : Type 0 where
  pub is_directory : Bool
  pub size : ℕ

pub record Posix (W : Type 0) : Type 0 where
  pub strerror : Errno → Bytes
  pub open_file : OpenMode → Bytes → W → Outcome ℕ × W
  pub close_file : ℕ → W → W
  pub stat_file : ℕ → W → Outcome Stat × W
  pub read_bytes : ℕ → ℕ → W → Outcome Bytes × W
  pub write_bytes : ℕ → Bytes → W → Outcome ℕ × W
  pub sync : ℕ → W → Outcome (Unit {0}) × W
  pub make_directory : ℕ → Bytes → W → Outcome (Unit {0}) × W
  pub remove_directory : Bytes → W → Outcome (Unit {0}) × W
  pub remove_file : Bytes → W → Outcome (Unit {0}) × W
  pub move : Bytes → Bytes → W → Outcome (Unit {0}) × W
  pub stat_path : Bytes → W → Outcome Stat × W
  pub open_directory : Bytes → W → Outcome ℕ × W
  pub read_entry : ℕ → W → Option Bytes × W
  pub close_directory : ℕ → W → W
