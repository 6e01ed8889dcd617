-- ===== src/Transport/OneLine.antt =====
-- The line that pkg/non2xx_log.go logs is short and one line.
use github_update_go_watcher.Common.{
  ℕ, zero, suc, ◌+◌, ◌-◌, ◌*◌, ◌≤◌, ◌≡◌, ◌≢◌, refl, arith, Bool, true, false, not, List, [], ◌∷◌,
  ◌++◌, Option, Text, bytes, length, length-append, leb, ◌=?◌, ◌==◌, All, All-append, Lacks,
  if◌then◌else◌, Bool-cases, inl, inr,
}
use github_update_go_watcher.Strings.{fields, fields_from, join, space_width}
use github_update_go_watcher.Transport.{
  HttpResponse, Request, body_snippet, collapsed, ellipsis, line_text, made_valid, non2xx_absent,
  non2xx_body_limit, non2xx_line, or_absent, truncated,
}
use github_update_go_watcher.Unicode.{
  is_valid, rune_count, rune_count_bounds, rune_width, take_runes, take_runes_bounded, to_valid,
}
use github_update_go_watcher.Version.Decimal.{IsDigit, itoa-Spells}

-- The byte of the line feed.
abbrev newline : ℕ
newline = 10

abbrev pub IsOneLine : Text → Type 0
IsOneLine = Lacks newline

append-IsOneLine : (s t : Text) → IsOneLine s → IsOneLine t → IsOneLine (s ++ t)
append-IsOneLine s t = All-append (λ c. c ≢ newline) s t

if-IsOneLine : (b : Bool) (s t : Text) → IsOneLine s → IsOneLine t → IsOneLine (if b then s else t)
if-IsOneLine true s t hs ht = hs
if-IsOneLine false s t hs ht = ht

-- A label, a part, and what follows.
labelled :
    (label part more : Text)
    → IsOneLine label
    → IsOneLine part
    → IsOneLine more
    → IsOneLine (label ++ (part ++ more))
labelled label part more hl hp hm = append-IsOneLine label _ hl (append-IsOneLine part more hp hm)

space_width-newline : (s : Text) → space_width (newline ∷ s) ≡ 1
unfolding space_width
space_width-newline [] = refl
space_width-newline (b ∷ []) = refl
space_width-newline (b ∷ c ∷ s) = refl

-- A byte at which no white space begins is no line feed.
inside_field : (c : ℕ) (s : Text) → (space_width (c ∷ s) =? 0) ≡ true → c ≢ newline
inside_field c s h e = ground (arith, space_width-newline s, e, h)

fields_from-IsOneLine : (k : ℕ) (cur s : Text) → IsOneLine cur → All IsOneLine (fields_from k cur s)
unfolding fields_from
fields_from-IsOneLine k [] [] h = tt
fields_from-IsOneLine k (b ∷ cur) [] h = (h, tt)
fields_from-IsOneLine (suc k) cur (c ∷ s) h = fields_from-IsOneLine k cur s h
fields_from-IsOneLine zero [] (c ∷ s) h = elim (Bool-cases (space_width (c ∷ s) =? 0)) [
  | inl inside ↦ rw (inside) (fields_from-IsOneLine zero (c ∷ []) s (inside_field c s inside, tt))
  | inr behind ↦ rw (behind) (fields_from-IsOneLine (space_width (c ∷ s) - 1) [] s tt)
]
fields_from-IsOneLine zero (b ∷ cur) (c ∷ s) h = elim (Bool-cases (space_width (c ∷ s) =? 0)) [
  | inl inside ↦ rw (inside) (
      fields_from-IsOneLine zero (b ∷ cur ++ c ∷ []) s
        (append-IsOneLine (b ∷ cur) (c ∷ []) h (inside_field c s inside, tt)))
  | inr behind ↦ rw (behind) (h, fields_from-IsOneLine (space_width (c ∷ s) - 1) [] s tt)
]

join-IsOneLine :
    (sep : Text) (ss : List Text) → IsOneLine sep → All IsOneLine ss → IsOneLine (join sep ss)
unfolding join
join-IsOneLine sep [] h hs = tt
join-IsOneLine sep (s ∷ []) h (hs, _) = hs
join-IsOneLine sep (s ∷ t ∷ ss) h (hs, hss) =
    append-IsOneLine s _ hs (append-IsOneLine sep _ h (join-IsOneLine sep (t ∷ ss) h hss))

to_valid-IsOneLine :
    (mark : Text) (k : ℕ) (inside : Bool) (s : Text)
    → IsOneLine mark
    → IsOneLine s
    → IsOneLine (to_valid mark k inside s)
unfolding to_valid
to_valid-IsOneLine mark k inside [] h hs = tt
to_valid-IsOneLine mark (suc k) inside (c ∷ s) h (hc, hs) =
    (hc, to_valid-IsOneLine mark k false s h hs)
to_valid-IsOneLine mark zero inside (c ∷ s) h (hc, hs) =
    if-IsOneLine (not (rune_width (c ∷ s) =? 0)) _ _
      (hc, to_valid-IsOneLine mark (rune_width (c ∷ s) - 1) false s h hs)
      (if-IsOneLine inside _ _ (to_valid-IsOneLine mark zero true s h hs)
        (append-IsOneLine mark _ h (to_valid-IsOneLine mark zero true s h hs)))

take_runes-IsOneLine : (n k : ℕ) (s : Text) → IsOneLine s → IsOneLine (take_runes n k s)
unfolding take_runes
take_runes-IsOneLine n k [] h = tt
take_runes-IsOneLine n (suc k) (c ∷ s) (hc, hs) = (hc, take_runes-IsOneLine n k s hs)
take_runes-IsOneLine zero zero (c ∷ s) h = tt
take_runes-IsOneLine (suc n) zero (c ∷ s) (hc, hs) =
    (hc, take_runes-IsOneLine n (rune_width (c ∷ s) - 1) s hs)

collapsed-IsOneLine : (body : Text) → IsOneLine (collapsed body)
unfolding collapsed fields
collapsed-IsOneLine body =
    join-IsOneLine (bytes " ") (fields_from 0 [] body) (ground arith)
      (fields_from-IsOneLine 0 [] body tt)

made_valid-IsOneLine : (s : Text) → IsOneLine s → IsOneLine (made_valid s)
unfolding made_valid
made_valid-IsOneLine s h =
    if-IsOneLine (is_valid 0 s) s _ h (to_valid-IsOneLine (bytes "?") 0 false s (ground arith) h)

truncated-IsOneLine : (s : Text) → IsOneLine s → IsOneLine (truncated s)
unfolding truncated
truncated-IsOneLine s h =
    if-IsOneLine (leb (rune_count 0 s) non2xx_body_limit) s _ h
      (append-IsOneLine _ ellipsis (take_runes-IsOneLine non2xx_body_limit 0 s h) (ground arith))

body_snippet-IsOneLine : (body : Text) → IsOneLine (body_snippet body)
unfolding body_snippet
body_snippet-IsOneLine body =
    if-IsOneLine (collapsed body == []) non2xx_absent _ (ground arith)
      (truncated-IsOneLine _ (made_valid-IsOneLine _ (collapsed-IsOneLine body)))

-- The bytes of a snippet: so many characters of at most four, and the mark of the cut.
abbrev pub max_snippet_bytes : ℕ
max_snippet_bytes = 4 * non2xx_body_limit + length ellipsis

truncated_bounded : (s : Text) → length (truncated s) ≤ max_snippet_bytes
unfolding truncated
truncated_bounded s = ground (
  arith,
  rune_count_bounds 0 s,
  length-append (take_runes non2xx_body_limit 0 s) ellipsis,
  take_runes_bounded non2xx_body_limit 0 s,
)

-- The snippet of a body of any bytes has no line feed, and at most the bytes of the limit in
-- characters of four with the mark of the cut.
pub body_snippet_bounded :
    (body : Text) → IsOneLine (body_snippet body) × (length (body_snippet body) ≤ max_snippet_bytes)
unfolding body_snippet
body_snippet_bounded body =
    (body_snippet-IsOneLine body, ground (arith, truncated_bounded (made_valid (collapsed body))))

-- No part of the request and no header that the line quotes has a line feed.
abbrev pub QuotesOneLine : Option Request → HttpResponse → Type 0
QuotesOneLine req resp =
    IsOneLine (non2xx_line req resp []).method
    × IsOneLine (non2xx_line req resp []).host
    × IsOneLine (non2xx_line req resp []).path
    × IsOneLine resp.resource
    × IsOneLine resp.remaining
    × IsOneLine resp.retry_after

or_absent-IsOneLine : (v : Text) → IsOneLine v → IsOneLine (or_absent v)
unfolding or_absent
or_absent-IsOneLine v h = if-IsOneLine (v == []) non2xx_absent v (ground arith) h

digits-IsOneLine : (s : Text) → All IsDigit s → IsOneLine s
digits-IsOneLine [] h = tt
digits-IsOneLine (c ∷ s) (hc, hs) = ((λ e. ground (arith, hc, e)), digits-IsOneLine s hs)

-- The logged text is one line, whatever the body is, if the parts of the request and the headers that
-- it quotes are.
pub line_text-IsOneLine :
    (req : Option Request) (resp : HttpResponse) (prefix : Text)
    → QuotesOneLine req resp
    → IsOneLine (line_text (non2xx_line req resp prefix))
unfolding line_text non2xx_line
line_text-IsOneLine req resp prefix (method, host, path, resource, remaining, retry_after) =
    labelled (bytes "github non-2xx method=") _ _ (ground arith) method (
      labelled (bytes " host=") _ _ (ground arith) host (
        labelled (bytes " path=") _ _ (ground arith) path (
          labelled (bytes " status=") _ _ (ground arith)
            (digits-IsOneLine _ (itoa-Spells resp.status_code).0)
            (labelled (bytes " resource=") _ _ (ground arith) (or_absent-IsOneLine _ resource) (
              labelled (bytes " remaining=") _ _ (ground arith) (or_absent-IsOneLine _ remaining) (
                labelled (bytes " retry_after=") _ _ (ground arith)
                  (or_absent-IsOneLine _ retry_after)
                  (append-IsOneLine (bytes " body=") _ (ground arith)
                    (body_snippet-IsOneLine prefix))))))))
