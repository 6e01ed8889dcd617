-- ===== src/Examples/Operation.antt =====
-- The sample service: after a request for a forced cycle has been refused, its next cycle.
use github_update_go_watcher.Common.{List, [], ◌∷◌, true, refl}
use github_update_go_watcher.Cursor.{Cursor, empty_cursor}
use github_update_go_watcher.Examples.Disk.{memory_disk}
use github_update_go_watcher.Examples.Storing.{
  begun, begun_stored, new_text, old_read, published_cursor, storing, storing-IsSeparate,
}
use github_update_go_watcher.Service.Lifetime.{drive-IsReadable}
use github_update_go_watcher.Watcher.Separate.{stored}
use github_update_go_watcher.Watcher.Stored.{IsReadable}
use mathlib.Core.Path.{subst}
use github_update_go_watcher.Common.{Text, sym, some, ◌≡◌, ◌==◌, if◌then◌else◌}
use github_update_go_watcher.Examples.Routing.{forced_trigger, sample_mux}
use github_update_go_watcher.Service.Loop.{Signal, arrive, drive, launch}

abbrev refused : List Signal
refused = arrive 1 true forced_trigger ∷ []

-- A codec that reads each text as a cursor, over the disk in memory.
drive-IsReadable_example : IsReadable storing memory_disk storing-IsSeparate (
    stored storing memory_disk
      (drive sample_mux storing refused (launch sample_mux storing begun)).world.env)
drive-IsReadable_example =
    drive-IsReadable sample_mux storing memory_disk storing-IsSeparate reads refused begun (
      subst (IsReadable storing memory_disk storing-IsSeparate) (sym begun_stored)
        (empty_cursor, old_read))
  where
    reads :
        (c : Cursor) (t : Text)
        → storing.codec.marshal c ≡ some t
        → IsReadable storing memory_disk storing-IsSeparate (some t)
    reads c t h = (if t == new_text then published_cursor else empty_cursor, refl)
