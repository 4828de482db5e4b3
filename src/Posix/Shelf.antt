-- ===== src/Posix/Shelf.antt =====
-- A small system with one directory, whose calls meet the laws on directories.
use diarkis.Base.{ℕ, zero, suc, false, Option, none, some, List, [], ◌∷◌, Bytes}
use diarkis.Error.{enoent}
use diarkis.Posix.{Posix, returned, failed}

-- The names in the directory, those that are still to be read, how many reads succeed before one fails, and
-- how many have failed.
pub record Shelf : Type 0 where
  pub names : List Bytes
  pub unread : List Bytes
  pub readable : ℕ
  pub errors : ℕ

abbrev pub next_name : ℕ → List Bytes → Shelf → Option Bytes × Shelf
next_name zero unread w = (none, record w { errors = suc w.errors })
next_name (suc n) [] w = (none, w)
next_name (suc n) (name ∷ names) w = (some name, record w { unread = names; readable = n })

abbrev pub shelf : Posix Shelf
shelf = record {
  strerror = λ e. [];
  open_file = λ m p w. (failed enoent, w);
  close_file = λ fd w. w;
  stat_file = λ fd w. (failed enoent, w);
  read_bytes = λ fd n w. (failed enoent, w);
  write_bytes = λ fd b w. (failed enoent, w);
  sync = λ fd w. (returned tt, w);
  make_directory = λ m p w. (failed enoent, w);
  remove_directory = λ p w. (failed enoent, w);
  remove_file = λ p w. (failed enoent, w);
  move = λ p q w. (failed enoent, w);
  stat_path = λ p w. (returned (record { is_directory = false; size = 0 }), w);
  open_directory = λ p w. (returned 5, record w { unread = w.names });
  read_entry = λ d w. next_name w.readable w.unread w;
  close_directory = λ d w. w;
}
