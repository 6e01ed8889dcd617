-- ===== src/Watcher/Seen.antt =====
-- What a gathered candidate of pkg/watcher.go was read from.
use github_update_go_watcher.Candidate.{Candidate}
use github_update_go_watcher.Common.{
  ◌≡◌, refl, true, Option, none, some, Text, Error, failed, Result, ok, err, arith,
}
use github_update_go_watcher.Filter.Maintainer.{Consent}
use github_update_go_watcher.GoMod.{parse_go_mod_version}
use github_update_go_watcher.Repo.{Repo}
use github_update_go_watcher.Version.{Version}
use github_update_go_watcher.Watcher.Observe.{gather_candidate, gathered, observe, on_ok}
use github_update_go_watcher.Watcher.State.{Watcher, World}

-- The candidate of a repository whose go.mod was read.
abbrev pub read_candidate : Repo → Version → Text → Version → Consent → Candidate
read_candidate r latest sha current verdict = record {
  repo = r;
  head_sha = sha;
  go_mod_present = true;
  go_mod_parsable = true;
  current_go = current;
  latest_go = latest;
  consent = verdict;
}

gathered-injective : {a b : Candidate} → gathered a ≡ gathered b → a ≡ b
gathered-injective h = cc

module _ (r : Repo) (latest : Version) (sha : Text) (verdict : Consent) where
  observe_parsed :
      (t : Text) (parsed : Result Version)
      → parse_go_mod_version t ≡ parsed
      → (observe r sha latest verdict (some t)).go_mod_parsable ≡ true
      → (current : Version) × (parsed ≡ ok current)
        × (observe r sha latest verdict (some t) ≡ read_candidate r latest sha current verdict)
  unfolding observe
  observe_parsed t (ok current) e h = (current, refl, ground (arith, e))
  observe_parsed t (err x) e h = ground (arith, e, h)

  -- A candidate whose go.mod is there and parsable is the one of a directive that was read.
  pub observe_read :
      (content : Option Text)
      → (observe r sha latest verdict content).go_mod_present ≡ true
      → (observe r sha latest verdict content).go_mod_parsable ≡ true
      → (t : Text) × (current : Version) × (content ≡ some t)
        × (parse_go_mod_version t ≡ ok current)
        × (observe r sha latest verdict content ≡ read_candidate r latest sha current verdict)
  unfolding observe
  observe_read none present parsable = ground (arith, present)
  observe_read (some t) present parsable =
      let (current, parsed, same) = observe_parsed t _ refl parsable in
      (t, current, refl, parsed, same)

module _ {E : Type 0} (d : Watcher E) (r : Repo) (latest : Version) where
  -- The three answers behind a candidate.
  abbrev pub SeenAs : E → Candidate → Type 0
  SeenAs e c =
      (sha : Text) × (content : Option Text) × (verdict : Consent) × ((d.github.get_head_sha r e).0
        ≡ ok sha)
      × ((d.github.get_go_mod r (d.github.get_head_sha r e).1).0 ≡ ok content)
      × ((d.github.get_maintainer_config r
            (d.github.get_go_mod r (d.github.get_head_sha r e).1).1).0
          ≡ ok verdict)
      × (observe r sha latest verdict content ≡ c)

  answered :
      (w : World E) (head : Result Text) (go_mod : Result (Option Text)) (consent : Result Consent)
      (c : Candidate)
      → (d.github.get_head_sha r w.env).0 ≡ head
      → (d.github.get_go_mod r (d.github.get_head_sha r w.env).1).0 ≡ go_mod
      → (d.github.get_maintainer_config r
          (d.github.get_go_mod r (d.github.get_head_sha r w.env).1).1).0
        ≡ consent
      → (gather_candidate d r latest w).0 ≡ gathered c
      → SeenAs w.env c
  unfolding gather_candidate on_ok
  answered w (ok sha) (ok content) (ok verdict) c p q s h =
      (sha, content, verdict, p, q, s, gathered-injective (ground (arith, p, q, s, h)))
  answered w (ok sha) (ok content) (err Error.rate_limited) c p q s h =
      absurd (ground (arith, p, q, s, h))
  answered w (ok sha) (ok content) (err failed) c p q s h = absurd (ground (arith, p, q, s, h))
  answered w (ok sha) (err Error.rate_limited) consent c p q s h = absurd (ground (arith, p, q, h))
  answered w (ok sha) (err failed) consent c p q s h = absurd (ground (arith, p, q, h))
  answered w (err Error.rate_limited) go_mod consent c p q s h = absurd (ground (arith, p, h))
  answered w (err failed) go_mod consent c p q s h = absurd (ground (arith, p, h))

  -- A gathered candidate is what was observed in three reads, each of which was answered.
  pub gather_candidate-SeenAs :
      (w : World E) (c : Candidate)
      → (gather_candidate d r latest w).0 ≡ gathered c
      → SeenAs w.env c
  gather_candidate-SeenAs w c h = answered w _ _ _ c refl refl refl h
