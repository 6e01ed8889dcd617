-- ===== src/Cursor.antt =====
-- pkg/cursor.go and pkg/cursorreader.go: the per-repository state that outlives a cycle. A nil map
-- is `none`; so is a nil entry, which a JSON `null` gives.
pub mod Store
pub mod Laws
pub mod Durable
use github_update_go_watcher.Common.{
  Bool, List, [], ◌∷◌, Option, none, some, Text, ◌==◌, if◌then◌else◌,
}
use github_update_go_watcher.Filter.{CursorReader}

pub record RepoState : Type 0 where
  pub last_seen_head_sha : Text
  pub last_seen_go_version : Text
  pub completed_head_sha : Text
  pub in_flight_target : Text
  pub in_flight_since : Text

-- `map[string]*RepoState`
abbrev pub RepoMap : Type 0
RepoMap = List (Text × Option RepoState)

pub record Cursor : Type 0 where
  pub repos : Option RepoMap

-- `m[k]`, nil where the key is missing.
unfoldable pub lookup : Text → RepoMap → Option RepoState
lookup k [] = none
lookup k ((j, v) ∷ m) = if j == k then v else lookup k m

-- `m[k] = v`
unfoldable pub insert : Text → Option RepoState → RepoMap → RepoMap
insert k v [] = (k, v) ∷ []
insert k v ((j, w) ∷ m) = if j == k then (k, v) ∷ m else (j, w) ∷ insert k v m

-- `cursorState.Repos[k]`; reading a nil map gives nil.
unfoldable pub entry : Text → Cursor → Option RepoState
unfolding lookup
entry k c = elim c.repos [ none ↦ none | some m ↦ lookup k m ]

-- `cursorState.Repos[k] = state`, behind the creation of a nil map.
unfoldable pub set_entry : Text → RepoState → Cursor → Cursor
unfolding insert
set_entry k s c = elim c.repos [
  | none ↦ record { repos = some (insert k (some s) []) }
  | some m ↦ record { repos = some (insert k (some s) m) }
]

-- `&Cursor{Repos: make(map[string]*RepoState)}`
abbrev pub empty_cursor : Cursor
empty_cursor = record { repos = some [] }

abbrev pub seen : (RepoState → Text) → Option RepoState → Text
seen field none = []
seen field (some s) = field s

-- `NewCursorReader`
unfoldable pub cursor_reader : Cursor → CursorReader
cursor_reader c = record {
  last_seen_sha = λ k. seen (λ s. s.last_seen_head_sha) (entry k c);
  last_seen_go_version = λ k. seen (λ s. s.last_seen_go_version) (entry k c);
}

clear_claim : Text → Text → Option RepoState → Cursor → Cursor
clear_claim k target none c = c
clear_claim k target (some s) c =
    if s.in_flight_target == target
    then set_entry k (record s { in_flight_target = []; in_flight_since = [] }) c
    else c

-- `clearInFlight` of pkg/watcher.go: the entry is changed in place, so the other fields survive.
unfoldable pub clear_in_flight : Text → Text → Cursor → Cursor
unfolding clear_claim
clear_in_flight k target c = clear_claim k target (entry k c) c
