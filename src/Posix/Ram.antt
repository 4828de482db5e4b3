-- ===== src/Posix/Ram.antt =====
-- A small operating system that meets the laws: files in memory, one open file, writes and reads of at
-- most `chunk` + 1 bytes, and a number of calls that a signal still interrupts.
use diarkis.Base.{
  ℕ, zero, suc, ◌+◌, List, [], ◌++◌, Option, none, some, false, Bytes, text, length, take, drop,
}
use diarkis.Base.Table.{find, put, erase}
use diarkis.Error.{enoent, eexist, eintr, einval}
use diarkis.Posix.{
  Posix, Outcome, returned, failed, OpenMode, create_exclusive, write_truncate, write_append,
  read_only, Stat,
}
use diarkis.Posix.Laws.{or_nil}

pub record Ram : Type 0 where
  pub files : List (Bytes × Bytes)
  pub handle : Option (Bytes × ℕ)
  pub chunk : ℕ
  pub signals : ℕ

unfoldable pub open_file : OpenMode → Bytes → Ram → Outcome ℕ × Ram
open_file (create_exclusive m) p w = elim (find p w.files) [
  | some c ↦ (failed eexist, w)
  | none ↦ (returned 3, record w { files = put p [] w.files; handle = some (p, 0) })
]
open_file (write_truncate m) p w =
    (returned 3, record w { files = put p [] w.files; handle = some (p, 0) })
open_file (write_append m) p w =
    (returned 3, record w { files = put p (or_nil (find p w.files)) w.files; handle = some (p, 0) })
open_file read_only p w = elim (find p w.files) [
  | none ↦ (failed enoent, w)
  | some c ↦ (returned 3, record w { handle = some (p, 0) })
]

-- What a call does that a signal may interrupt.
abbrev pub interruptible : {A : Type 0} → (Ram → Outcome A × Ram) → ℕ → Ram → Outcome A × Ram
interruptible f zero w = f w
interruptible f (suc n) w = (failed eintr, record w { signals = n })

abbrev pub write_now : Bytes → Option (Bytes × ℕ) → Ram → Outcome ℕ × Ram
write_now b none w = (failed einval, w)
write_now b (some (p, k)) w = (
  returned (length (take (suc w.chunk) b)),
  record w {
    files = put p (or_nil (find p w.files) ++ take (length (take (suc w.chunk) b)) b) w.files;
  },
)

unfoldable pub write_bytes : ℕ → Bytes → Ram → Outcome ℕ × Ram
write_bytes fd b w = interruptible (λ w'. write_now b w'.handle w') w.signals w

abbrev pub read_now : ℕ → Option (Bytes × ℕ) → Ram → Outcome Bytes × Ram
read_now n none w = (failed einval, w)
read_now n (some (p, k)) w =
    let b = take n (take (suc w.chunk) (drop k (or_nil (find p w.files)))) in
    (returned b, record w { handle = some (p, k + length b) })

unfoldable pub read_bytes : ℕ → ℕ → Ram → Outcome Bytes × Ram
read_bytes fd n w = interruptible (λ w'. read_now n w'.handle w') w.signals w

unfoldable pub stat_file : ℕ → Ram → Outcome Stat × Ram
stat_file fd w = elim w.handle [
  | none ↦ (failed einval, w)
  | some (p, k) ↦
      (returned (record { is_directory = false; size = length (or_nil (find p w.files)) }), w)
]

unfoldable pub remove_file : Bytes → Ram → Outcome (Unit {0}) × Ram
remove_file p w = elim (find p w.files) [
  | none ↦ (failed enoent, w)
  | some c ↦ (returned tt, record w { files = erase p w.files })
]

unfoldable pub move : Bytes → Bytes → Ram → Outcome (Unit {0}) × Ram
move p q w = elim (find p w.files) [
  | none ↦ (failed enoent, w)
  | some c ↦ (returned tt, record w { files = put q c (erase p w.files) })
]

unfoldable pub stat_path : Bytes → Ram → Outcome Stat × Ram
stat_path p w = elim (find p w.files) [
  | none ↦ (failed enoent, w)
  | some c ↦ (returned (record { is_directory = false; size = length c }), w)
]

abbrev pub ram : Posix Ram
ram = record {
  strerror = λ e. text "error";
  open_file = open_file;
  close_file = λ fd w. w;
  stat_file = stat_file;
  read_bytes = read_bytes;
  write_bytes = write_bytes;
  sync = λ fd w. (returned tt, w);
  make_directory = λ m p w. (failed eexist, w);
  remove_directory = λ p w. (failed enoent, w);
  remove_file = remove_file;
  move = move;
  stat_path = stat_path;
  open_directory = λ p w. (failed enoent, w);
  read_entry = λ d w. (none, w);
  close_directory = λ d w. w;
}

abbrev pub writing : Option (Bytes × ℕ) → Option Bytes
writing none = none
writing (some (p, k)) = some p
