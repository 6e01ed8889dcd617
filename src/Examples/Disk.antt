-- ===== src/Examples/Disk.antt =====
-- A disk in memory, on which every operation succeeds, and a cursor that is saved and loaded.
use github_update_go_watcher.Common.{
  ◌≡◌, ◌≢◌, refl, arith, true, false, [], ◌∷◌, Option, none, some, Text, bytes, ok, ◌==◌,
  if◌then◌else◌,
}
use github_update_go_watcher.Cursor.{Cursor}
use github_update_go_watcher.Cursor.Durable.{
  Disk, Saves, load_cursor-save_cursor, save_cursor-Saves,
}
use github_update_go_watcher.Cursor.Store.{
  Codec, FileSystem, ReadResult, content, not_exist, load_cursor, save_cursor, after_marshal,
  after_rename, after_write,
}

abbrev pub Memory : Type 0
Memory = Text → Option Text

abbrev pub read_of : Option Text → ReadResult
read_of none = not_exist
read_of (some t) = content t

-- The memory with other contents under one path.
abbrev pub put : Text → Option Text → Memory → Memory
put p t m q = if q == p then t else m q

abbrev pub memory_files : FileSystem Memory
memory_files = record {
  read_file = λ p m. (read_of (m p), m);
  write_file = λ p t m. (true, put p (some t) m);
  rename = λ from to m. (true, put to (m from) (put from none m));
  remove = λ p m. (true, put p none m);
}

pub true-ne-false : true ≢ false
true-ne-false = ground arith

pub put_same : (p : Text) (t : Option Text) (m : Memory) → put p t m p ≡ t
put_same p t m = ground arith

pub put_other : (p q : Text) (t : Option Text) (m : Memory) → q ≢ p → put p t m q ≡ m q
put_other p q t m differ = ground arith

abbrev pub memory_disk : Disk Memory memory_files
memory_disk = record {
  at = λ m p. m p;
  read_some = λ p t m h. rw (h) refl;
  read_none = λ p m h. rw (h) refl;
  write_same = λ p t m _. put_same p (some t) m;
  write_other = λ p q t m differ. put_other p q (some t) m differ;
  rename_moved = λ from to m _. put_same to (m from) (put from none m);
  rename_failed = λ from to q m h. absurd (true-ne-false h);
  remove_other = λ p q m differ. put_other p q none m differ;
}

abbrev stored : Cursor
stored = record {
  repos = some (
      (
        bytes "github.com/alice/tool",
        some (record {
          last_seen_head_sha = bytes "0123456";
          last_seen_go_version = bytes "1.27.2";
          completed_head_sha = [];
          in_flight_target = bytes "1.27.2";
          in_flight_since = bytes "2026-01-01T00:00:00Z";
        }),
      )
      ∷ []);
}

-- A codec of this cursor.
abbrev one_codec : Codec
one_codec = record { marshal = λ c. some (bytes "x"); unmarshal = λ t. some stored }

abbrev pub empty_memory : Memory
empty_memory p = none

save_cursor-Saves_example :
    Saves memory_files one_codec memory_disk
      (bytes "c")
      (some (bytes "x"))
      none
      (save_cursor memory_files one_codec (bytes "c") stored empty_memory)
save_cursor-Saves_example =
    save_cursor-Saves memory_files one_codec memory_disk (bytes "c") stored empty_memory

load_cursor-save_cursor_example :
    (load_cursor memory_files one_codec
      (bytes "c")
      (save_cursor memory_files one_codec (bytes "c") stored empty_memory).1).0
    ≡ ok stored
unfolding save_cursor after_marshal after_rename after_write
load_cursor-save_cursor_example =
    load_cursor-save_cursor memory_files one_codec memory_disk (bytes "c") (bytes "x") stored
      empty_memory refl refl (ground arith) refl
