-- ===== src/Cursor/Laws.antt =====
-- Reading the cursor of pkg/cursor.go behind its writes.
use github_update_go_watcher.Common.{
  [], ◌∷◌, Option, none, some, ◌≡◌, refl, arith, Text, ◌==◌, if◌then◌else◌, Option-cases, inl, inr,
}
use github_update_go_watcher.Cursor.{
  Cursor, RepoMap, RepoState, lookup, insert, entry, set_entry, clear_claim, clear_in_flight,
}

lookup-insert :
    (j k : Text) (v : Option RepoState) (m : RepoMap)
    → lookup j (insert k v m) ≡ (if k == j then v else lookup j m)
unfolding lookup insert
lookup-insert j k v [] = refl
lookup-insert j k v ((i, u) ∷ m) = ground (arith, lookup-insert j k v m)

-- A write changes its own entry and no other.
pub entry-set_entry :
    (j k : Text) (s : RepoState) (c : Cursor)
    → entry j (set_entry k s c) ≡ (if k == j then some s else entry j c)
unfolding entry set_entry
entry-set_entry j k s c = elim (Option-cases c.repos) [
  | inl nil ↦ rw nil (lookup-insert j k (some s) [])
  | inr (m, made) ↦ rw made (lookup-insert j k (some s) m)
]

-- The entry of a repository whose claim is cleared: only the claim is emptied.
abbrev pub cleared : Text → Option RepoState → Option RepoState
cleared target none = none
cleared target (some s) =
    if s.in_flight_target == target
    then some (record s { in_flight_target = []; in_flight_since = [] })
    else some s

clear_claim_lem :
    (j k target : Text) (o : Option RepoState) (c : Cursor)
    → entry k c ≡ o
    → entry j (clear_claim k target o c) ≡ (if k == j then cleared target o else entry j c)
unfolding clear_claim
clear_claim_lem j k target none c e = ground arith
clear_claim_lem j k target (some s) c e =
    ground (arith, entry-set_entry j k (record s { in_flight_target = []; in_flight_since = [] }) c)

-- Clearing a claim empties it in its own entry if it has the target, keeps the other fields, and
-- changes no other entry.
pub entry-clear_in_flight :
    (j k target : Text) (c : Cursor)
    → entry j (clear_in_flight k target c)
      ≡ (if k == j then cleared target (entry k c) else entry j c)
unfolding clear_in_flight
entry-clear_in_flight j k target c = clear_claim_lem j k target (entry k c) c refl
