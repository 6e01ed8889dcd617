-- ===== src/Examples/Dues.antt =====
-- A repository of the sample whose update is due.
use mathlib.Core.Path.{subst}
use github_update_go_watcher.Watcher.Claim.{LiveClaim}
use github_update_go_watcher.Watcher.Spared.{ListedOnce, Spared, poll-Spared}
use github_update_go_watcher.Common.{
  ℕ, List, true, some, arith, err, Result, false, [], ◌∷◌, ◌≡◌, refl, bytes, text_dec, ok, inl, inr,
  Text,
}
use github_update_go_watcher.Cursor.{Cursor, empty_cursor, entry, lookup}
use github_update_go_watcher.Cursor.Store.{load_cursor, content, normalise}
use github_update_go_watcher.Examples.Samples.{
  allow_all, fresh_world, go_1_26_0, go_1_27_2, head, sample, tool,
}
use github_update_go_watcher.GoMod.{
  after_line, directive_value, drop_cr, line_directive, parse_go_mod_version, scan_lines,
  split_lines,
}
use github_update_go_watcher.Repo.{Repo, key}
use github_update_go_watcher.Strings.{
  fields, fields_from, space_width, trim_left, trim_right, trim_space,
}
use github_update_go_watcher.Version.{
  number, less, parse_go_directive, atoi_patch, directive_groups, parse_groups, parse_version,
  patch_group,
}
use github_update_go_watcher.Version.Decimal.{atoi, itoa, atoi-itoa, digits1}
use github_update_go_watcher.Watcher.Commands.{commands}
use github_update_go_watcher.Watcher.Delivery.{IsDue}
use github_update_go_watcher.Watcher.Gate.{claims}
use github_update_go_watcher.Watcher.Liveness.{IsCalm}
use github_update_go_watcher.Watcher.Poll.{poll}
use github_update_go_watcher.Watcher.Turns.Cycle.{TakesTurns, poll-TakesTurns}
use github_update_go_watcher.Watcher.State.{Watcher}

abbrev pub due_content : Text
due_content = bytes "module x\n\ngo 1.26\n"

pub due_parsed : parse_go_mod_version due_content ≡ ok go_1_26_0
unfolding parse_go_mod_version line_directive directive_value drop_cr trim_space trim_left
    trim_right fields fields_from space_width text_dec scan_lines split_lines after_line
    parse_go_directive parse_version directive_groups digits1 patch_group parse_groups atoi
    atoi_patch
due_parsed = refl

pub tool-IsDue :
    IsDue sample allow_all [] false go_1_27_2 tool head go_1_26_0 (entry (key tool) empty_cursor)
unfolding entry lookup claims less
tool-IsDue = record {
  content = due_content;
  head_read = λ e. refl;
  go_mod_read = λ e. refl;
  consent_read = λ e. refl;
  no_open_pr = λ e. refl;
  parsed = due_parsed;
  behind = refl;
  in_scope = refl;
  unclaimed = refl;
  fresh = inr (inr (inl (λ e. cc)));
}

pub sample_calm : IsCalm sample
sample_calm = record {
  head_unlimited = λ r e h. cc;
  go_mod_unlimited = λ r e h. cc;
  consent_unlimited = λ r e h. cc;
  open_pr_unlimited = λ r e h. cc;
  live = λ e. refl;
}

poll-TakesTurns_example : TakesTurns sample fresh_world (poll sample false fresh_world).1
poll-TakesTurns_example = poll-TakesTurns sample false fresh_world

-- The claim of an earlier cycle.
abbrev claimed_cursor : Cursor
claimed_cursor = record {
  repos = some (
      (
        key tool,
        some (record {
          last_seen_head_sha = bytes "fedcba";
          last_seen_go_version = number go_1_27_2;
          completed_head_sha = [];
          in_flight_target = number go_1_27_2;
          in_flight_since = itoa 1000;
        }),
      )
      ∷ []);
}

-- The sample over a store that holds this claim.
abbrev remembering : Watcher ℕ
remembering = record sample {
  files = record sample.files { read_file = λ path e. (content [], e) };
  codec = record sample.codec { unmarshal = λ t. some claimed_cursor };
}

claimed_cursor-LiveClaim : LiveClaim remembering claimed_cursor tool go_1_27_2
unfolding entry lookup text_dec key
claimed_cursor-LiveClaim = record {
  state = record {
    last_seen_head_sha = bytes "fedcba";
    last_seen_go_version = number go_1_27_2;
    completed_head_sha = [];
    in_flight_target = number go_1_27_2;
    in_flight_since = itoa 1000;
  };
  since = 1000;
  recorded = refl;
  targeted = refl;
  dated = atoi-itoa 1000 (omega arith);
  in_time = λ e. omega arith;
}

listed_once : (repos : List Repo) → ok (tool ∷ []) ≡ ok repos → ListedOnce remembering tool repos
listed_once repos h = subst once h ((λ same. tt), tt)
  where
    once : Result (List Repo) → Type 0
    once (ok rs) = ListedOnce remembering tool rs
    once (err e) = Unit

poll-Spared_example : Spared remembering tool (poll remembering true fresh_world).1
poll-Spared_example =
    poll-Spared remembering tool allow_all [] refl true go_1_27_2 (λ e. listed_once) (λ e v h. cc)
      claimed_cursor fresh_world (unfold load_cursor normalise in refl) claimed_cursor-LiveClaim
      (unfold commands in tt)
