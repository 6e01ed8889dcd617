-- ===== src/Transport.antt =====
-- pkg/non2xx_log.go: the transport that logs a response outside 200 to 299. A body is the bytes that
-- its reads yield and whether they end in an error. A line is its parts, with the text they make.
pub mod Replay
pub mod OneLine
use github_update_go_watcher.Common.{
  ℕ, zero, suc, ◌≤◌, ◌≡◌, ◌⊎◌, refl, arith, Bool, true, false, ◌&&◌, List, [], ◌∷◌, ◌++◌,
  append-nil, Option, none, some, Text, bytes, take, length, length-take-le, ltb, leb, ◌==◌,
  if◌then◌else◌, Bool-cases, inl, inr,
}
use github_update_go_watcher.Strings.{fields, join}
use github_update_go_watcher.Unicode.{is_valid, rune_count, take_runes, to_valid}
use github_update_go_watcher.Version.Decimal.{itoa}

pub record Body : Type 0 where
  pub content : Text
  pub fails : Bool

pub record Url : Type 0 where
  pub host : Text
  pub path : Text

pub record Request : Type 0 where
  pub method : Text
  pub url : Option Url

-- A response with the headers that the line quotes.
pub record HttpResponse : Type 0 where
  pub status_code : ℕ
  pub resource : Text
  pub remaining : Text
  pub retry_after : Text
  pub body : Option Body

-- The parts of a line; the last is the snippet of the body.
pub record Line : Type 0 where
  pub method : Text
  pub host : Text
  pub path : Text
  pub status : ℕ
  pub resource : Text
  pub remaining : Text
  pub retry_after : Text
  pub body : Text

abbrev pub non2xx_absent : Text
non2xx_absent = bytes "absent"

abbrev pub non2xx_peek_bytes : ℕ
non2xx_peek_bytes = 4096

-- `orAbsent`
unfoldable pub or_absent : Text → Text
or_absent v = if v == [] then non2xx_absent else v

abbrev pub non2xx_body_limit : ℕ
non2xx_body_limit = 200

-- The mark of a snippet that was cut.
abbrev pub ellipsis : Text
ellipsis = 0xE2 ∷ 0x80 ∷ 0xA6 ∷ []

-- White space is collapsed to single spaces.
unfoldable pub collapsed : Text → Text
collapsed body = join (bytes " ") (fields body)

unfoldable pub made_valid : Text → Text
made_valid s = if is_valid 0 s then s else to_valid (bytes "?") 0 false s

unfoldable pub truncated : Text → Text
truncated s =
    if leb (rune_count 0 s) non2xx_body_limit
    then s
    else take_runes non2xx_body_limit 0 s ++ ellipsis

-- `bodySnippet`
unfoldable pub body_snippet : Text → Text
body_snippet body =
    let s = collapsed body in if s == [] then non2xx_absent else truncated (made_valid s)

-- What is left behind the first `n` bytes.
abbrev pub drop : ℕ → Text → Text
drop zero s = s
drop (suc n) [] = []
drop (suc n) (b ∷ s) = drop n s

-- Whether `io.ReadAll` of an `io.LimitReader` meets the error: it ends before the limit.
unfoldable pub read_error : ℕ → Body → Bool
read_error n body = body.fails && ltb (length body.content) n

-- The reader behind the prefix: the error again, or the rest of the original body.
unfoldable pub rest_of : ℕ → Body → Body
rest_of n body =
    if read_error n body
    then record { content = []; fails = true }
    else record { content = drop n body.content; fails = body.fails }

-- `io.MultiReader` of the prefix and the rest.
unfoldable pub multi_reader : Text → Body → Body
multi_reader prefix rest = record { content = prefix ++ rest.content; fails = rest.fails }

unfoldable pub peeked_body : ℕ → Body → Body
peeked_body n body = multi_reader (take n body.content) (rest_of n body)

unfoldable pub url_part : (Url → Text) → Option Url → Text
url_part part none = non2xx_absent
url_part part (some url) = or_absent (part url)

-- `non2xxLine`
unfoldable pub non2xx_line : Option Request → HttpResponse → Text → Line
non2xx_line req resp prefix = record {
  method = elim req [ none ↦ non2xx_absent | some r ↦ r.method ];
  host = elim req [ none ↦ non2xx_absent | some r ↦ url_part (λ u. u.host) r.url ];
  path = elim req [ none ↦ non2xx_absent | some r ↦ url_part (λ u. u.path) r.url ];
  status = resp.status_code;
  resource = or_absent resp.resource;
  remaining = or_absent resp.remaining;
  retry_after = or_absent resp.retry_after;
  body = body_snippet prefix;
}

-- The text that is logged.
unfoldable pub line_text : Line → Text
line_text l =
    bytes "github non-2xx method="
    ++ (l.method
        ++ (bytes " host="
            ++ (l.host
                ++ (bytes " path="
                    ++ (l.path
                        ++ (bytes " status="
                            ++ (itoa l.status
                                ++ (bytes " resource="
                                    ++ (l.resource
                                        ++ (bytes " remaining="
                                            ++ (l.remaining
                                                ++ (bytes " retry_after="
                                                    ++ (l.retry_after
                                                        ++ (bytes " body=" ++ l.body))))))))))))))

abbrev pub is_2xx : HttpResponse → Bool
is_2xx resp = leb 200 resp.status_code && leb resp.status_code 299

unfoldable pub prefix_of : Option Body → Text
prefix_of none = []
prefix_of (some body) = take non2xx_peek_bytes body.content

unfoldable pub replayed : Option Body → Option Body
replayed none = none
replayed (some body) = some (peeked_body non2xx_peek_bytes body)

-- `logNon2xxResponse`: the response that the caller gets, and the lines logged.
unfoldable pub log_non2xx_response : Option Request → HttpResponse → HttpResponse × List Line
log_non2xx_response req resp = if is_2xx resp then (resp, []) else (
  record resp { body = replayed resp.body },
  non2xx_line req resp (prefix_of resp.body) ∷ [],
)

-- `RoundTrip` behind the reply of the inner transport: an error, with no response, or a response.
unfoldable pub round_trip : Option Request → Option HttpResponse → Option HttpResponse × List Line
round_trip req none = (none, [])
round_trip req (some resp) = let (out, lines) = log_non2xx_response req resp in (some out, lines)

-- An `http.RoundTripper`: the reply to a request, none for an error.
abbrev pub RoundTripper : Type 0 → Type 0
RoundTripper E = Option Request → E → Option HttpResponse × E

module _ {E : Type 0} (log : Text → E → E) where
  abbrev pub log_lines : List Line → E → E
  log_lines [] e = e
  log_lines (l ∷ lines) e = log_lines lines (log (line_text l) e)

  -- `non2xxLoggingTransport` over its inner transport.
  unfoldable pub logging_transport : RoundTripper E → RoundTripper E
  logging_transport inner req e =
      let (reply, e₁) = inner req e in
      let (out, lines) = round_trip req reply in (out, log_lines lines e₁)

  -- The transport that `NewGitHubClient` puts into its HTTP client.
  unfoldable pub github_transport : RoundTripper E → Option (RoundTripper E) → RoundTripper E
  github_transport default_transport none = logging_transport default_transport
  github_transport default_transport (some inner) = logging_transport inner
