-- ===== src/Cursor/Durable.antt =====
-- `SaveCursor` and `LoadCursor` of pkg/cursor.go on a disk: what a save leaves under the path, and
-- that the next load reads it.
use github_update_go_watcher.Common.{
  ◌≡◌, ◌≢◌, ◌⊎◌, ◌∙◌, refl, sym, ap, arith, inl, inr, Bool, true, false, Option, none, some, Text,
  Result, ok, err, failed, bytes, length, length-append,
}
use github_update_go_watcher.Cursor.{Cursor}
use github_update_go_watcher.Cursor.Store.{
  Codec, FileSystem, content, after_marshal, after_write, after_rename, after_read, after_unmarshal,
  load_cursor, normalise, not_exist, save_cursor, tmp_path,
}

-- What the operations of `os` do to the file under a path. A write, a rename and a removal may succeed or
-- fail, and a failed write may leave anything under its own path. A read of a file that exists is taken
-- to succeed: `LoadCursor` of an unreadable file returns an error, which a disk does not show.
pub record Disk (E : Type 0) (files : FileSystem E) : Type 0 where
  pub at : E → Text → Option Text
  pub read_some : (p t : Text) (e : E) → at e p ≡ some t → files.read_file p e ≡ (content t, e)
  pub read_none : (p : Text) (e : E) → at e p ≡ none → files.read_file p e ≡ (not_exist, e)
  pub write_same :
      (p t : Text) (e : E)
      → (files.write_file p t e).0 ≡ true
      → at (files.write_file p t e).1 p ≡ some t
  pub write_other : (p q t : Text) (e : E) → q ≢ p → at (files.write_file p t e).1 q ≡ at e q
  pub rename_moved :
      (from to : Text) (e : E)
      → (files.rename from to e).0 ≡ true
      → at (files.rename from to e).1 to ≡ at e from
  pub rename_failed :
      (from to q : Text) (e : E)
      → (files.rename from to e).0 ≡ false
      → at (files.rename from to e).1 q ≡ at e q
  pub remove_other : (p q : Text) (e : E) → q ≢ p → at (files.remove p e).1 q ≡ at e q

tmp_path_differs : (path : Text) → path ≢ tmp_path path
tmp_path_differs path h =
    let lengths = ap length h in omega (arith, lengths, length-append path (bytes ".tmp"))

module _ {E : Type 0} (files : FileSystem E) (codec : Codec) (disk : Disk E files) where
  -- The text stands under the path and the save succeeded, or the save failed and what stood under
  -- the path still does.
  abbrev pub Leaves : Text → Text → Option Text → Result (Unit {0}) × E → Type 0
  Leaves path t before (result, e') =
      ((result ≡ ok tt) × (disk.at e' path ≡ some t))
      ⊎ ((result ≡ err failed) × (disk.at e' path ≡ before))

  after_rename-Leaves :
      (path t : Text) (before : Option Text) (tried : Bool × E)
      → (tried.0 ≡ true → disk.at tried.1 path ≡ some t)
      → (tried.0 ≡ false → disk.at tried.1 path ≡ before)
      → Leaves path t before (after_rename files codec path tried)
  unfolding after_rename
  after_rename-Leaves path t before (true, e) moved kept = inl (refl, moved refl)
  after_rename-Leaves path t before (false, e) moved kept =
      inr (refl, disk.remove_other (tmp_path path) path e (tmp_path_differs path) ∙ kept refl)

  after_write-Leaves :
      (path t : Text) (before : Option Text) (tried : Bool × E)
      → (tried.0 ≡ true → disk.at tried.1 (tmp_path path) ≡ some t)
      → disk.at tried.1 path ≡ before
      → Leaves path t before (after_write files codec path tried)
  unfolding after_write
  after_write-Leaves path t before (true, e) written kept =
      after_rename-Leaves path t before (files.rename (tmp_path path) path e)
        (λ moved. disk.rename_moved (tmp_path path) path e moved ∙ written refl)
        (λ failed. disk.rename_failed (tmp_path path) path path e failed ∙ kept)
  after_write-Leaves path t before (false, e) written kept = inr (refl, kept)

  -- The save succeeded and the cursor's text stands under the path, or it failed and what stood under
  -- the path still does.
  abbrev pub Saves : Text → Option Text → Option Text → Result (Unit {0}) × E → Type 0
  Saves path text before saved =
      ((t : Text) × (text ≡ some t) × Leaves path t before saved)
      ⊎ ((text ≡ none) × (saved.0 ≡ err failed) × (disk.at saved.1 path ≡ before))

  after_marshal-Saves :
      (path : Text) (text : Option Text) (e : E)
      → Saves path text (disk.at e path) (after_marshal files codec path text e)
  unfolding after_marshal
  after_marshal-Saves path none e = inr (refl, refl, refl)
  after_marshal-Saves path (some t) e = inl (
    t,
    refl,
    after_write-Leaves path t (disk.at e path) (files.write_file (tmp_path path) t e)
        (disk.write_same (tmp_path path) t e)
        (disk.write_other (tmp_path path) path t e (tmp_path_differs path)),
  )

  -- On a disk whose operations change no other file and whose rename is all or nothing, a save
  -- succeeds and the path holds the cursor's text, or it fails, at whichever step, and the path holds
  -- what it held before.
  pub save_cursor-Saves :
      (path : Text) (c : Cursor) (e : E)
      → Saves path (codec.marshal c) (disk.at e path) (save_cursor files codec path c e)
  unfolding save_cursor
  save_cursor-Saves path c e = after_marshal-Saves path (codec.marshal c) e

  Saves-stored :
      (path t : Text) {text before : Option Text} (saved : Result (Unit {0}) × E)
      → Saves path text before saved
      → text ≡ some t
      → saved.0 ≡ ok tt
      → disk.at saved.1 path ≡ some t
  Saves-stored path t saved (inl (t', p, inl (_, stored))) q h = stored ∙ (sym p ∙ q)
  Saves-stored path t saved (inl (t', p, inr (bad, _))) q h = ground (arith, bad, h)
  Saves-stored path t saved (inr (p, _, _)) q h = ground (arith, p, q)

  pub normalise_filled : (c : Cursor) → c.repos ≢ none → normalise c ≡ c
  unfolding normalise
  normalise_filled c filled = ground arith

  -- On a disk whose operations change no other file and whose rename is all or nothing, a cursor whose
  -- map is not nil and which the codec reads back from its text is loaded once it was saved with
  -- success, where a read of a file that exists succeeds.
  pub load_cursor-save_cursor :
      (path t : Text) (c : Cursor) (e : E)
      → codec.marshal c ≡ some t
      → codec.unmarshal t ≡ some c
      → c.repos ≢ none
      → (save_cursor files codec path c e).0 ≡ ok tt
      → (load_cursor files codec path (save_cursor files codec path c e).1).0 ≡ ok c
  unfolding load_cursor after_read
  load_cursor-save_cursor path t c e written read filled saved =
      let e' : E = (save_cursor files codec path c e).1 in
      let stored : disk.at e' path ≡ some t =
        Saves-stored path t _ (save_cursor-Saves path c e) written saved in
      rw (disk.read_some path t e' stored)
        (rw (read, after_unmarshal) (rw (normalise_filled c filled) refl))
