-- ===== src/Service/Delivered.antt =====
-- That the service of main.go gets its work done, whatever it saw before.
use github_update_go_watcher.Common.{List}
use github_update_go_watcher.Cursor.{Cursor}
use github_update_go_watcher.Repo.{Repo}
use github_update_go_watcher.Service.Loop.{ServiceState, Signal, tick, finish, drive, launch, step}
use github_update_go_watcher.Service.Router.{Mux}
use github_update_go_watcher.Version.{Version}
use github_update_go_watcher.Watcher.State.{World, Watcher}

module _ {E : Type 0} (mux : Mux) (d : Watcher E) where
  -- The service once the cycle that runs has ended, and one tick and its cycle later.
  abbrev pub at_rest : List Signal → World E → ServiceState E
  at_rest signals w = step mux d finish (drive mux d signals (launch mux d w))

  abbrev pub a_cycle_later : ServiceState E → ServiceState E
  a_cycle_later s = step mux d finish (step mux d tick s)
