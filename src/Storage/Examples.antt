-- ===== src/Storage/Examples.antt =====
-- The storage over a small system in memory, whose calls are interrupted twice and move two bytes.
use diarkis.Base.{
  ℕ, Option, List, [], ◌∷◌, ◌++◌, ◌≡◌, ◌≢◌, refl, some, none, true, false, zero, suc, ◌<◌, ◌⊎◌, inl,
  inr, Bytes, length, replicate, length-replicate, length-append, arith,
}
use diarkis.Base.Table.{find, put, erase}
use diarkis.Error.{void_ok, value, result_ok}
use diarkis.Path.{validate_path, resolve_path}
use diarkis.Locker.{lock_write, unlock_write}
use diarkis.Posix.{returned}
use diarkis.Posix.Laws.{or_nil}
use diarkis.Posix.Shelf.{Shelf, shelf}
use diarkis.Storage.Entries.{list_directory}
use diarkis.Storage.Entries
use diarkis.Storage.Listing.{DirectoryLaws, Listed, list_directory-Listed}
use diarkis.Posix.Ram.{Ram, ram, open_file, write_bytes}
use diarkis.Posix.RamLaws.{ram_laws}
use diarkis.Storage.Monad.{Storage, ends, blocks}
use diarkis.Base.Int.{pos}
use diarkis.Path.Names.{names}
use diarkis.Storage.Aliases.{write_file-alias}
use diarkis.Storage.Files.{
  write_file_at, write_all, write_file, append_file_at, append_file, read_file,
}
use diarkis.Storage.Writing.{Written, write_file-Written, append_file-Written}
use diarkis.Storage.Reading.{Read, read_file-Read}
use diarkis.Storage.RoundTrip.{
  read_file-write_file, append_file-append_file, append_file_unreadable,
}

abbrev a : Bytes
a = 0x61 ∷ []

abbrev b : Bytes
b = 0x62 ∷ []

abbrev five : Bytes
five = 1 ∷ 2 ∷ 3 ∷ 4 ∷ 5 ∷ []

abbrev fresh : Storage Ram
fresh = record {
  base_path = b;
  file_locker = [];
  world = record { files = []; handle = none; chunk = 1; signals = 2 };
}

-- b/a, behind which the file is kept
abbrev b_a : Bytes
b_a = 0x62 ∷ 0x2f ∷ 0x61 ∷ []

abbrev written : Storage Ram
written = record {
  base_path = b;
  file_locker = [];
  world = record { files = (b_a, five) ∷ []; handle = some (b_a, 0); chunk = 1; signals = 0 };
}

a_valid : result_ok (validate_path a) ≡ true
unfolding validate_path result_ok
a_valid = refl

write_runs : write_file ram 20 a five fresh ≡ ends (void_ok, written)
unfolding write_file write_file_at write_all validate_path resolve_path result_ok lock_write
    unlock_write find put erase open_file write_bytes
write_runs = refl

void_ok-ok : result_ok void_ok ≡ true
unfolding result_ok
void_ok-ok = refl

write_file-Written_example :
    Written ram ram_laws (resolve_path b a) fresh.world [] five (write_file ram 20 a five fresh)
unfolding find
write_file-Written_example =
    write_file-Written ram ram_laws 20 a five fresh a_valid refl (omega arith)

append_file-Written_example :
    Written ram ram_laws
      (resolve_path b a)
      written.world
      five
      five
      (append_file ram 20 a five written)
unfolding find resolve_path
append_file-Written_example =
    append_file-Written ram ram_laws 20 a five written a_valid refl (omega arith)

read_file-Read_example : Read ram ram_laws (resolve_path b a) five (read_file ram 20 a written)
unfolding find resolve_path
read_file-Read_example =
    read_file-Read ram ram_laws 20 a five written a_valid refl refl (omega arith)

read_file-write_file_example :
    Read ram ram_laws (resolve_path b a) five (read_file ram 20 a written)
unfolding find
read_file-write_file_example =
    read_file-write_file ram ram_laws a fresh a_valid refl 20 20 five void_ok written (omega arith)
      write_runs void_ok-ok (omega arith)

abbrev twice : Storage Ram
twice = record {
  base_path = b;
  file_locker = [];
  world = record {
    files = (b_a, five ++ five) ∷ [];
    handle = some (b_a, 0);
    chunk = 1;
    signals = 0;
  };
}

abbrev once : Storage Ram
once = record {
  base_path = b;
  file_locker = [];
  world = record { files = (b_a, five) ∷ []; handle = some (b_a, 0); chunk = 1; signals = 0 };
}

append_once : append_file ram 20 a five fresh ≡ ends (void_ok, once)
unfolding append_file append_file_at write_all validate_path resolve_path result_ok lock_write
    unlock_write find put erase open_file write_bytes
append_once = refl

append_again : append_file ram 20 a five once ≡ ends (void_ok, twice)
unfolding append_file append_file_at write_all validate_path resolve_path result_ok lock_write
    unlock_write find put erase open_file write_bytes
append_again = refl

append_file-append_file_example :
    find (resolve_path b a) twice.world.files
    ≡ some (or_nil (find (resolve_path b a) fresh.world.files) ++ (five ++ five))
unfolding find
append_file-append_file_example =
    append_file-append_file ram ram_laws a fresh once twice void_ok void_ok 20 20 five five a_valid
      refl (omega arith) (omega arith) append_once append_again void_ok-ok void_ok-ok

-- A file of exactly 100 MB.
big : Bytes
big = replicate 104857600 7

length-big : length big ≡ 104857600
unfolding big
length-big = length-replicate 104857600 7

abbrev full : Storage Ram
full = record {
  base_path = b;
  file_locker = [];
  world = record { files = (b_a, big) ∷ []; handle = none; chunk = 1; signals = 0 };
}

abbrev overfull : Storage Ram
overfull = record {
  base_path = b;
  file_locker = [];
  world = record {
    files = (b_a, (big ++ 1 ∷ [])) ∷ [];
    handle = some (b_a, 0);
    chunk = 1;
    signals = 0;
  };
}

append_to_full : append_file ram 20 a (1 ∷ []) full ≡ ends (void_ok, overfull)
unfolding append_file append_file_at write_all validate_path resolve_path result_ok lock_write
    unlock_write find put erase open_file write_bytes
append_to_full = refl

append_file_unreadable_example : read_file ram 104857700 a overfull ≢ ends (value big, overfull)
unfolding find resolve_path
append_file_unreadable_example =
    append_file_unreadable ram ram_laws a full overfull overfull void_ok 20 104857700 (1 ∷ []) big
      a_valid refl (omega arith) append_to_full void_ok-ok
      (omega (arith, length-big, length-append big (1 ∷ [])))
      (omega (arith, length-big, length-append big (1 ∷ [])))

-- A directory with itself, its parent and two files, the second of which ::readdir fails to read.
abbrev shelved : Storage Shelf
shelved = record {
  base_path = 0x62 ∷ [];
  file_locker = [];
  world = record {
    names = (0x2e ∷ []) ∷ (0x2e ∷ 0x2e ∷ []) ∷ (0x61 ∷ []) ∷ (0x62 ∷ []) ∷ [];
    unread = [];
    readable = 3;
    errors = 0;
  };
}

opened_shelf :
    (p : Bytes) (d : ℕ) (w w' : Shelf)
    → shelf.open_directory p w ≡ (returned d, w')
    → (◌≡◌ {A = Option (List Bytes)} (some w.names) (some w'.unread)) × (w'.errors ≡ w.errors)
opened_shelf p d w w' e = ground arith

found_on_shelf :
    (d : ℕ) (name : Bytes) (w w' : Shelf)
    → shelf.read_entry d w ≡ (some name, w')
    → (w.unread ≡ name ∷ w'.unread) × (w'.errors ≡ w.errors)
found_on_shelf d name w w' e = go w.readable w.unread refl refl
  where
    go :
        (n : ℕ) (names : List Bytes)
        → w.readable ≡ n
        → w.unread ≡ names
        → (w.unread ≡ name ∷ w'.unread) × (w'.errors ≡ w.errors)
    go zero names en en' = ground arith
    go (suc n) [] en en' = ground arith
    go (suc n) (x ∷ xs) en en' = ground arith

null_on_shelf :
    (d : ℕ) (w w' : Shelf)
    → shelf.read_entry d w ≡ (none, w')
    → ((w.unread ≡ []) × (w'.errors ≡ w.errors)) ⊎ (w.errors < w'.errors)
null_on_shelf d w w' e = go w.readable w.unread refl refl
  where
    go :
        (n : ℕ) (names : List Bytes)
        → w.readable ≡ n
        → w.unread ≡ names
        → ((w.unread ≡ []) × (w'.errors ≡ w.errors)) ⊎ (w.errors < w'.errors)
    go zero names en en' = inr (ground arith)
    go (suc n) [] en en' = inl (ground arith)
    go (suc n) (x ∷ xs) en en' = ground arith

abbrev shelf_laws : DirectoryLaws shelf
shelf_laws = record {
  entries = λ w p. some w.names;
  listing = λ w d. w.unread;
  errors = λ w. w.errors;
  opened = opened_shelf;
  found = found_on_shelf;
  at_null = null_on_shelf;
  stat_kept = λ p d w. (refl, refl);
  closed = λ d w. refl;
}

-- The failed ::readdir is taken for the end of the directory: the second file is missing from a list that
-- is returned as a success.
truncated :
    list_directory shelf 5 (0x61 ∷ []) shelved
    ≡ ends (
      value (record { name = 0x61 ∷ []; is_directory = false; size = 0 } ∷ []),
      record shelved {
        world = record shelved.world { unread = (0x62 ∷ []) ∷ []; readable = 0; errors = 1 };
      },
    )
unfolding list_directory Entries.list_directory_at Entries.list_loop Entries.entry_info
    validate_path result_ok
truncated = refl

a_accepted : result_ok (validate_path (0x61 ∷ [])) ≡ true
unfolding validate_path result_ok
a_accepted = refl

list_directory-Listed_example :
    Listed shelf shelf_laws shelved shelved.world.names (list_directory shelf 5 (0x61 ∷ []) shelved)
list_directory-Listed_example =
    list_directory-Listed shelf shelf_laws 5 (0x61 ∷ []) shelved.world.names shelved a_accepted refl
      (omega arith)

-- A storage in which another thread writes to the path `a`.
abbrev taken : Storage Ram
taken = record fresh {
  file_locker = (a, record { reader_count = pos 0; write_locked = true }) ∷ [];
}

abbrev a_slash : Bytes
a_slash = 0x61 ∷ 0x2f ∷ []

a_slash_accepted : result_ok (validate_path a_slash) ≡ true
unfolding validate_path result_ok
a_slash_accepted = refl

write_file-alias_example :
    (write_file ram 20 a five taken ≡ blocks)
    × Written ram ram_laws
        (resolve_path b a)
        taken.world
        []
        five
        (write_file ram 20 a_slash five taken)
unfolding lock_write find put names
write_file-alias_example =
    write_file-alias ram ram_laws 20 a a_slash five taken (λ e. ground arith) refl a_accepted
      a_slash_accepted refl (omega arith)
