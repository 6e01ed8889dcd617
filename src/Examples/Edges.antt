-- ===== src/Examples/Edges.antt =====
-- The trigger handler, the credentials, the log transport and the clamp on concrete inputs.
use github_update_go_watcher.Auth.{
  Credentials, Resolves, resolve_github_client, resolve_github_client-Resolves,
}
use github_update_go_watcher.Common.{
  ◌≡◌, true, [], ◌∷◌, Option, some, Text, bytes, pos, List, none, refl, arith, ◌≤◌, length, ◌++◌,
  text_dec,
}
use github_update_go_watcher.CycleGate.{new_cycle_gate}
use github_update_go_watcher.Trigger.{serve_http}
use github_update_go_watcher.Trigger.Protocol.{Answers, serve_http-Answers}
use github_update_go_watcher.Transport.{
  HttpResponse, Request, non2xx_line, prefix_of, RoundTripper, github_transport, body_snippet,
  collapsed, line_text, made_valid, or_absent, truncated, url_part,
}
use github_update_go_watcher.Strings.{fields, fields_from, join, space_width}
use github_update_go_watcher.Unicode.{
  continues, is_valid, lead_width, rune_count, rune_width, second_in_range, to_valid,
}
use github_update_go_watcher.Transport.OneLine.{
  IsOneLine, body_snippet_bounded, line_text-IsOneLine, max_snippet_bytes,
}
use github_update_go_watcher.Transport.Replay.{github_transport_same}

serve_http-Answers_example :
    Answers true (bytes "1") new_cycle_gate (serve_http true (bytes "1") new_cycle_gate)
serve_http-Answers_example = serve_http-Answers true (bytes "1") new_cycle_gate

abbrev half_set : Credentials
half_set = record { app_id = pos 7; installation_id = pos 0; pem_key = bytes "key" }

abbrev always : Credentials → Option Text
always c = some c.pem_key

resolve_github_client-Resolves_example :
    Resolves always half_set (resolve_github_client always half_set)
resolve_github_client-Resolves_example = resolve_github_client-Resolves always half_set

abbrev limited : HttpResponse
limited = record {
  status_code = 403;
  resource = bytes "core";
  remaining = bytes "0";
  retry_after = [];
  body = some (record { content = bytes "rate limit exceeded"; fails = true });
}

abbrev asked : Option Request
asked = some (record {
  method = bytes "GET";
  url = some (record { host = bytes "api.github.com"; path = bytes "/repos" });
})

-- A transport that is always limited, and a log that keeps its lines.
abbrev limiting : RoundTripper (List Text)
limiting req lines = (some limited, lines)

github_transport_same_example :
    github_transport (λ line lines. line ∷ lines) limiting none asked []
    ≡ (some limited, line_text (non2xx_line asked limited (prefix_of limited.body)) ∷ [])
github_transport_same_example =
    github_transport_same (λ line lines. line ∷ lines) limiting none asked []

line_text-IsOneLine_example :
    IsOneLine (line_text (non2xx_line asked limited (bytes "rate limit\n exceeded\n")))
unfolding non2xx_line url_part or_absent text_dec
line_text-IsOneLine_example =
    line_text-IsOneLine asked limited (bytes "rate limit\n exceeded\n") (ground arith)

body_snippet_bounded_example :
    IsOneLine (body_snippet (bytes "rate limit\n exceeded\n"))
    × (length (body_snippet (bytes "rate limit\n exceeded\n")) ≤ max_snippet_bytes)
body_snippet_bounded_example = body_snippet_bounded (bytes "rate limit\n exceeded\n")

-- White space is collapsed, and a run of invalid bytes gives one mark.
snippet_of_invalid : body_snippet (bytes " a\n\t" ++ 0xFF ∷ 0xC3 ∷ bytes "b ") ≡ bytes "a ?b"
unfolding body_snippet collapsed made_valid truncated fields fields_from space_width text_dec join
    is_valid to_valid rune_width lead_width continues second_in_range rune_count
snippet_of_invalid = refl
