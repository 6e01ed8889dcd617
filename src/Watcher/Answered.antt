-- ===== src/Watcher/Answered.antt =====
-- A cycle of pkg/watcher.go whose load, lookup and listing are answered comes to its two passes.
use github_update_go_watcher.Common.{Bool, List, ◌≡◌, refl, ok}
use github_update_go_watcher.Cursor.{Cursor}
use github_update_go_watcher.Cursor.Store.{load_cursor}
use github_update_go_watcher.Repo.{Repo}
use github_update_go_watcher.Version.{Version}
use github_update_go_watcher.Watcher.Poll.{poll, scan_repos, with_latest, with_cursor}
use github_update_go_watcher.Watcher.State.{World, Watcher}

module _ {E : Type 0} (d : Watcher E) (force : Bool) (latest : Version) (repos : List Repo)
    (listing : (e : E) → (d.github.list_repos d.owner e).0 ≡ ok repos)
    (stable : (e : E) → (d.latest_stable e).0 ≡ ok latest) where
  -- The cycle is its passes over the repositories listed, from the loaded cursor and the events
  -- before it.
  pub poll-scan_repos :
      (cursor : Cursor) (w : World E)
      → (load_cursor d.files d.codec d.cursor_path w.env).0 ≡ ok cursor
      → (v : World E) × (v.cursor ≡ cursor)
        × (v.events ≡ w.events)
        × (v.env
            ≡ (d.github.list_repos d.owner
                (d.latest_stable (load_cursor d.files d.codec d.cursor_path w.env).1).1).1)
        × (poll d force w ≡ scan_repos d force latest (ok repos) v)
  unfolding poll with_cursor with_latest
  poll-scan_repos cursor w loaded =
      let e₁ : E = (load_cursor d.files d.codec d.cursor_path w.env).1 in
      let e₂ : E = (d.latest_stable e₁).1 in
      (
        record { env = (d.github.list_repos d.owner e₂).1; cursor = cursor; events = w.events },
        refl,
        refl,
        refl,
        rw (loaded) (rw (stable e₁) (rw (listing e₂) refl)),
      )
