-- ===== src/Transport/Replay.antt =====
-- What the caller gets from the transport of pkg/non2xx_log.go, and when a line is logged.
use mathlib.Core.Path.{ap₂}
use github_update_go_watcher.Common.{
  ℕ, zero, suc, ◌≤◌, ◌≡◌, ◌∙◌, refl, arith, true, false, [], ◌∷◌, ◌++◌, append-nil, Option, none,
  some, Text, take, length, if◌then◌else◌, Bool-cases, inl, inr,
}
use github_update_go_watcher.Transport.{
  Body, HttpResponse, Request, drop, is_2xx, log_non2xx_response, multi_reader, non2xx_line,
  RoundTripper, github_transport, line_text, log_lines, logging_transport, non2xx_peek_bytes,
  peeked_body, prefix_of, read_error, replayed, rest_of, round_trip,
}

take-drop : (n : ℕ) (s : Text) → take n s ++ drop n s ≡ s
take-drop zero s = refl
take-drop (suc n) [] = refl
take-drop (suc n) (b ∷ s) = ground (arith, take-drop n s)

take-all : (n : ℕ) (s : Text) → length s ≤ n → take n s ≡ s
take-all zero [] h = refl
take-all zero (b ∷ s) h = ground arith
take-all (suc n) [] h = refl
take-all (suc n) (b ∷ s) h = ground (arith, take-all n s)

Body-eq : (a b : Body) → a.content ≡ b.content → a.fails ≡ b.fails → a ≡ b
Body-eq a b p q = ap₂ (λ c f. record { content = c; fails = f }) p q

-- The error is met in the peek, so the prefix is all there is.
failed_peek : (n : ℕ) (body : Body) → read_error n body ≡ true → peeked_body n body ≡ body
unfolding read_error peeked_body multi_reader rest_of
failed_peek n body h =
    Body-eq _ body (rw (h) (append-nil _ ∙ take-all n body.content (ground arith)))
      (rw (h) ground arith)

plain_peek : (n : ℕ) (body : Body) → read_error n body ≡ false → peeked_body n body ≡ body
unfolding read_error peeked_body multi_reader rest_of
plain_peek n body h = Body-eq _ body (rw (h) (take-drop n body.content)) (rw (h) refl)

peeked_body_same : (n : ℕ) (body : Body) → peeked_body n body ≡ body
peeked_body_same n body = elim (Bool-cases (read_error n body)) [
  | inl met ↦ failed_peek n body met
  | inr unmet ↦ plain_peek n body unmet
]

replayed_same : (body : Option Body) → replayed body ≡ body
unfolding replayed
replayed_same none = refl
replayed_same (some body) = rw (peeked_body_same non2xx_peek_bytes body) refl

-- The response reaches the caller as the inner transport gave it: its body yields the same bytes and
-- ends in the same way. A line is logged exactly for a status outside 200 to 299.
log_non2xx_response_lem :
    (req : Option Request) (resp : HttpResponse)
    → log_non2xx_response req resp
      ≡ (resp, if is_2xx resp then [] else non2xx_line req resp (prefix_of resp.body) ∷ [])
unfolding log_non2xx_response
log_non2xx_response_lem req resp = rw (replayed_same resp.body) (ground arith)

-- The reply of the inner transport is passed on unchanged, and at most one line is logged.
round_trip_same :
    (req : Option Request) (reply : Option HttpResponse)
    → round_trip req reply ≡ (
      reply,
      elim reply [
        | none ↦ []
        | some resp ↦ if is_2xx resp then [] else non2xx_line req resp (prefix_of resp.body) ∷ []
      ],
    )
unfolding round_trip
round_trip_same req none = refl
round_trip_same req (some resp) = rw (log_non2xx_response_lem req resp) refl

module _ {E : Type 0} (log : Text → E → E) where
  -- A reply outside 200 to 299 is logged as one line, with the first bytes of its body.
  abbrev pub after_reply : Option Request → Option HttpResponse → E → E
  after_reply req none e = e
  after_reply req (some resp) e =
      if is_2xx resp then e else log (line_text (non2xx_line req resp (prefix_of resp.body))) e

  -- The transport that the client would use without the logging.
  abbrev pub inner_transport : RoundTripper E → Option (RoundTripper E) → RoundTripper E
  inner_transport default_transport none = default_transport
  inner_transport default_transport (some inner) = inner

  replied :
      (req : Option Request) (reply : Option HttpResponse) (e : E)
      → Path
          (Option HttpResponse × E)
          ((round_trip req reply).0, log_lines log (round_trip req reply).1 e)
          (reply, after_reply req reply e)
  replied req none e = rw (round_trip_same req none) refl
  replied req (some resp) e =
      rw (round_trip_same req (some resp)) (elim (Bool-cases (is_2xx resp)) [
        | inl fine ↦ rw (fine) refl
        | inr other ↦ rw (other) refl
      ])

  -- The GitHub client gets each reply of its transport, the default one if it has none, unchanged,
  -- the bytes and the end of the body included; and one line is logged exactly for a response with a
  -- status outside 200 to 299.
  pub github_transport_same :
      (default_transport : RoundTripper E) (given : Option (RoundTripper E)) (req : Option Request)
      (e : E)
      → Path (Option HttpResponse × E) (github_transport log default_transport given req e) (
          let (reply, e₁) = inner_transport default_transport given req e in
          (reply, after_reply req reply e₁))
  unfolding github_transport logging_transport
  github_transport_same default_transport none req e = replied req _ _
  github_transport_same default_transport (some inner) req e = replied req _ _
