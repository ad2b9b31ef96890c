-- ===== src/Api/Names.antt =====
-- internal/master/api/util.go: the names of containers.
pub mod Legal
use Prim.Native.Char.{Char, code}
use Prim.Native.String.{len, slice, char_at}
use pumpkin_pie.Prelude.{
  ◌≡◌, refl, ap, ◌∙◌, ℕ, ◌+◌, ◌≤◌, String, ◌<>◌, Bool, true, false, not, ◌||◌, ◌&&◌, ◌==◌, Option,
  none, some, ltb, leb, nat_eq, if◌then◌else◌, Bool-cases, inl, inr, arith,
}
use text.Mathlib.Text.{find?}

unfoldable pub is_lower : Char → Bool
is_lower c = leb b'a' (code c) && leb (code c) b'z'

unfoldable pub is_digit : Char → Bool
is_digit c = leb b'0' (code c) && leb (code c) b'9'

-- The characters that a name keeps.
unfoldable pub is_kept : Char → Bool
unfolding is_lower is_digit
is_kept c = is_lower c || is_digit c || nat_eq (code c) b'_' || nat_eq (code c) b'.'

-- The loop over the runes, with lastDash.
unfoldable pub folded : Bool → String → String
unfolding is_kept
folded last_dash String.[] = ""
folded last_dash (String.◌∷◌ c s) =
    let kept = folded false s in
    let dashed = folded true s in
    if is_kept c then String.◌∷◌ c kept else if last_dash then dashed else "-" <> dashed

unfoldable pub is_dash : Char → Bool
is_dash c = nat_eq (code c) b'-'

-- strings.Trim(s, "-")
unfoldable pub trimmed_left : String → String
unfolding is_dash
trimmed_left String.[] = ""
trimmed_left (String.◌∷◌ c s) =
    let rest = trimmed_left s in if is_dash c then rest else String.◌∷◌ c s

unfoldable pub trimmed_right : String → String
unfolding is_dash
trimmed_right String.[] = ""
trimmed_right (String.◌∷◌ c s) =
    let rest = trimmed_right s in if is_dash c && rest == "" then "" else String.◌∷◌ c rest

-- A name of more than 64 bytes is cut; `rand6` is the random suffix.
unfoldable pub shortened : String → String → String
shortened rand6 out = if ltb 64 (len out) then slice out 0 57 <> "-" <> rand6 else out

-- out[0] is a letter or a digit, or else an x is put in front.
unfoldable pub begun : String → String
unfolding is_lower is_digit
begun out = if is_lower (char_at out 0) || is_digit (char_at out 0) then out else "x" <> out

unfoldable pub sanitized : String → String → String
unfolding folded trimmed_left trimmed_right shortened begun
sanitized rand6 s =
    let out = trimmed_right (trimmed_left (folded false s)) in
    if out == "" then "pp-" <> rand6 else begun (shortened rand6 out)

-- sanitizeContainerName; `lower` is strings.ToLower after strings.TrimSpace
unfoldable pub sanitize_container_name : (String → String) → String → String → String
unfolding sanitized
sanitize_container_name lower rand6 s =
    if lower s == "" then "pp-" <> rand6 else sanitized rand6 (lower s)

-- What is behind the last '/', if there is one.
unfoldable pub after_slash : String → Option String
after_slash String.[] = none
after_slash (String.◌∷◌ c s) = elim (after_slash s) [
  | some t ↦ some t
  | none ↦ if nat_eq (code c) b'/' then some s else none
]

-- The first ':' or '@' becomes a '-'.
unfoldable pub tag_joined : String → String
tag_joined String.[] = ""
tag_joined (String.◌∷◌ c s) =
    let rest = tag_joined s in
    if nat_eq (code c) b':' || nat_eq (code c) b'@' then "-" <> s else String.◌∷◌ c rest

unfoldable pub base_name : String → Option String → String
base_name image none = image
base_name image (some t) = t

-- autoName; the two suffixes are rand6 of sanitizeContainerName and its own
unfoldable pub auto_name : (String → String) → String → String → String → String
unfolding sanitize_container_name after_slash tag_joined base_name
auto_name lower rand6 suffix image =
    let name = tag_joined (base_name image (after_slash image)) in
    sanitize_container_name lower rand6 ("pp-" <> (if name == "" then "container" else name))
    <> "-"
    <> suffix

-- newContainerID
unfoldable pub new_container_id : String → String
new_container_id hex = "c-" <> hex
