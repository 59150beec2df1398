-- ===== src/Services/Text.antt =====
-- csilservices/text.go: words, slugs, and `isWebURL` of federation.go. A Go string is its
-- characters, where all of them are ASCII in a slug and in an id.
pub mod Slugs
use tinku.Prelude.{
  ℕ, zero, suc, ◌-◌, String, Bool, true, false, Option, none, some, ◌&&◌, ◌||◌, not, str_eq,
  if◌then◌else◌, leb, ltb, ◌==◌, length,
}
use Prim.Native.Char.{Char, char, code}
use Prim.Native.String.{[], ◌∷◌, ◌++◌}
use tinku.Services.Go.{GoLib}

abbrev pub max_slug_length : ℕ
max_slug_length = 64

-- len([]rune(s))
unfoldable pub rune_count : String → ℕ
rune_count [] = 0
rune_count (c ∷ s) = suc (rune_count s)

abbrev pub is_empty : String → Bool
is_empty [] = true
is_empty (c ∷ s) = false

unfoldable pub word_count : GoLib → String → ℕ
word_count go s = length (go.fields s)

abbrev pub hyphen : Char
hyphen = char 45 tt

abbrev pub is_hyphen : Char → Bool
is_hyphen c = code c == 45

-- A lowercase ASCII letter or a digit.
abbrev pub is_kept : Char → Bool
is_kept c = (leb 97 (code c) && leb (code c) 122) || (leb 48 (code c) && leb (code c) 57)

-- The loop of `slugify`. `last_hyphen` is true after it exactly where the character was not kept.
unfoldable pub write_slug : Bool → String → String
write_slug last_hyphen [] = []
write_slug last_hyphen (c ∷ s) =
    let rest = write_slug (not (is_kept c)) s in
    if is_kept c then c ∷ rest else if last_hyphen then rest else hyphen ∷ rest

-- strings.Trim(s, "-")
unfoldable pub trim_left : String → String
trim_left [] = []
trim_left (c ∷ s) = let rest = trim_left s in if is_hyphen c then rest else c ∷ s

unfoldable pub trim_right : String → String
trim_right [] = []
trim_right (c ∷ s) =
    let rest = trim_right s in if is_hyphen c && is_empty rest then [] else c ∷ rest

unfoldable pub trim : String → String
unfolding trim_left trim_right
trim s = trim_right (trim_left s)

unfoldable pub slugify : GoLib → String → String
unfolding write_slug trim
slugify go name = trim (write_slug true (go.to_lower name))

-- s[:n] and s[n:]
unfoldable pub first_chars : ℕ → String → String
first_chars zero s = []
first_chars (suc n) [] = []
first_chars (suc n) (c ∷ s) = c ∷ first_chars n s

unfoldable pub without_first : ℕ → String → String
without_first zero s = s
without_first (suc n) [] = []
without_first (suc n) (c ∷ s) = without_first n s

abbrev pub shortened : String → String
shortened base =
    if ltb max_slug_length (rune_count base) then trim (first_chars max_slug_length base) else base

abbrev pub base_slug : GoLib → String → String → String
base_slug go name id =
    let base : String = shortened (slugify go name) in
    if is_empty base then go.to_lower id else base

abbrev pub suffix_of : GoLib → String → String
suffix_of go id =
    let suffix : String = go.to_lower id in
    if ltb 6 (rune_count suffix) then without_first (rune_count suffix - 6) suffix else suffix

unfoldable pub unique_slug : GoLib → String → String → (String → Bool) → String
unique_slug go name id taken =
    if not (taken (base_slug go name id))
    then base_slug go name id
    else base_slug go name id ++ "-" ++ suffix_of go id

unfoldable pub is_web_url : GoLib → String → Bool
is_web_url go raw = elim (go.parse_url (go.trim_space raw)) [
  | none ↦ false
  | some parsed ↦
      if str_eq parsed.1 ""
      then false
      else str_eq (go.to_lower parsed.0) "http" || str_eq (go.to_lower parsed.0) "https"
]
