-- ===== src/Strings.antt =====
-- What the program uses of Go's `strings`: white space, fields and separators.
use github_update_go_watcher.Common.{
  ℕ, ◌-◌, ◌&&◌, ◌||◌, List, [], ◌∷◌, ◌++◌, Text, ◌==◌, ◌=?◌, leb, if◌then◌else◌, zero, suc,
}

-- The bytes of the white-space character (`unicode.IsSpace`) at the front of a text, 0 if there is
-- none. Lead bytes never stand inside another character, so a scan may advance byte by byte.
unfoldable pub space_width : Text → ℕ
space_width [] = 0
space_width (a ∷ []) = if (a =? 32) || leb 9 a && leb a 13 then 1 else 0
space_width (a ∷ b ∷ []) =
    if (a =? 32) || leb 9 a && leb a 13
    then 1
    else if (a =? 0xC2) && ((b =? 0x85) || (b =? 0xA0))
    then 2
    else 0
space_width (a ∷ b ∷ c ∷ s) =
    if (a =? 32) || leb 9 a && leb a 13
    then 1
    else if (a =? 0xC2) && ((b =? 0x85) || (b =? 0xA0))
    then 2
    else if (a =? 0xE1) && (b =? 0x9A) && (c =? 0x80)
        || (a =? 0xE2)
          && (b =? 0x80)
          && (leb 0x80 c && leb c 0x8A || (c =? 0xA8) || (c =? 0xA9) || (c =? 0xAF))
        || (a =? 0xE2) && (b =? 0x81) && (c =? 0x9F)
        || (a =? 0xE3) && (b =? 0x80) && (c =? 0x80)
    then 3
    else 0

-- The text behind its leading white space; the first argument counts the bytes that are left of a
-- white-space character.
unfoldable pub trim_left : ℕ → Text → Text
trim_left k [] = []
trim_left (suc k) (c ∷ s) = trim_left k s
trim_left zero (c ∷ s) =
    if space_width (c ∷ s) =? 0 then c ∷ s else trim_left (space_width (c ∷ s) - 1) s

unfoldable pub trim_right : Text → Text
trim_right [] = []
trim_right (c ∷ s) = if trim_left 0 (c ∷ s) == [] then [] else c ∷ trim_right s

-- `strings.TrimSpace`
unfoldable pub trim_space : Text → Text
trim_space s = trim_right (trim_left 0 s)

end_field : Text → List Text → List Text
end_field [] fs = fs
end_field (c ∷ s) fs = (c ∷ s) ∷ fs

-- The fields of a text behind the field `cur`, which is being read.
unfoldable pub fields_from : ℕ → Text → Text → List Text
unfolding end_field
fields_from k cur [] = end_field cur []
fields_from (suc k) cur (c ∷ s) = fields_from k cur s
fields_from zero cur (c ∷ s) =
    let inside = fields_from zero (cur ++ c ∷ []) s in
    let behind = end_field cur (fields_from (space_width (c ∷ s) - 1) [] s) in
    if space_width (c ∷ s) =? 0 then inside else behind

-- `strings.Fields`
unfoldable pub fields : Text → List Text
fields s = fields_from 0 [] s

-- `strings.Split` by one byte; the first argument is the part that is being read.
unfoldable pub split_from : ℕ → Text → Text → List Text
split_from sep cur [] = cur ∷ []
split_from sep cur (c ∷ s) =
    let cut = cur ∷ split_from sep [] s in
    let more = split_from sep (cur ++ c ∷ []) s in if c =? sep then cut else more

-- `strings.Join`
unfoldable pub join : Text → List Text → Text
join sep [] = []
join sep (s ∷ []) = s
join sep (s ∷ t ∷ ss) = s ++ (sep ++ join sep (t ∷ ss))
