-- ===== src/Cursor/Store.antt =====
-- `LoadCursor` and `SaveCursor` of pkg/cursor.go over an abstract file system and an abstract JSON
-- codec.
use github_update_go_watcher.Common.{
  Bool, true, false, Option, none, some, Text, Result, ok, err, failed, bytes, ◌++◌,
}
use github_update_go_watcher.Cursor.{Cursor, empty_cursor}

-- The outcomes of `os.ReadFile` that the program tells apart.
pub data ReadResult : Type 0 where
  content : Text → ReadResult
  not_exist read_error : ReadResult

-- Operations of `os` on an environment; `false` is an error.
pub record FileSystem (E : Type 0) : Type 0 where
  pub read_file : Text → E → ReadResult × E
  pub write_file : Text → Text → E → Bool × E
  pub rename : Text → Text → E → Bool × E
  pub remove : Text → E → Bool × E

-- `json.Marshal` and `json.Unmarshal` on cursors.
pub record Codec : Type 0 where
  pub marshal : Cursor → Option Text
  pub unmarshal : Text → Option Cursor

abbrev pub corrupt_path : Text → Text
corrupt_path path = path ++ bytes ".corrupt"

abbrev pub tmp_path : Text → Text
tmp_path path = path ++ bytes ".tmp"

-- A nil map is replaced by an empty one.
unfoldable pub normalise : Cursor → Cursor
normalise c = elim c.repos [ none ↦ empty_cursor | some m ↦ c ]

module _ {E : Type 0} (files : FileSystem E) (codec : Codec) where
  -- A corrupt file is moved away, and the cycle starts cold.
  unfoldable pub after_unmarshal : Text → Option Cursor → E → Result Cursor × E
  after_unmarshal path (some c) e = (ok (normalise c), e)
  after_unmarshal path none e = (ok empty_cursor, (files.rename path (corrupt_path path) e).1)

  unfoldable pub after_read : Text → ReadResult × E → Result Cursor × E
  after_read path (not_exist, e) = (ok empty_cursor, e)
  after_read path (read_error, e) = (err failed, e)
  after_read path (content t, e) = after_unmarshal path (codec.unmarshal t) e

  unfoldable pub load_cursor : Text → E → Result Cursor × E
  unfolding after_read after_unmarshal
  load_cursor path e = after_read path (files.read_file path e)

  unfoldable pub after_rename : Text → Bool × E → Result (Unit {0}) × E
  after_rename path (true, e) = (ok tt, e)
  after_rename path (false, e) = (err failed, (files.remove (tmp_path path) e).1)

  unfoldable pub after_write : Text → Bool × E → Result (Unit {0}) × E
  after_write path (true, e) = after_rename path (files.rename (tmp_path path) path e)
  after_write path (false, e) = (err failed, e)

  unfoldable pub after_marshal : Text → Option Text → E → Result (Unit {0}) × E
  after_marshal path none e = (err failed, e)
  after_marshal path (some t) e = after_write path (files.write_file (tmp_path path) t e)

  unfoldable pub save_cursor : Text → Cursor → E → Result (Unit {0}) × E
  unfolding after_marshal after_write after_rename
  save_cursor path c e = after_marshal path (codec.marshal c) e
