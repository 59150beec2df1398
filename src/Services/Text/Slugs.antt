-- ===== src/Services/Text/Slugs.antt =====
-- The shape of a slug.
use tinku.Prelude.{
  ℕ, zero, suc, ◌≤◌, ◌≡◌, ◌⊎◌, inl, inr, refl, String, Bool, true, false, ◌&&◌, if◌then◌else◌, ltb,
  arith, Bool-cases,
}
use Prim.Native.Char.{Char}
use Prim.Native.String.{[], ◌∷◌, ◌++◌}
use tinku.Services.Go.{GoLib}
use tinku.Services.Text.{
  rune_count, is_empty, is_hyphen, is_kept, write_slug, trim_left, trim_right, trim, slugify,
  first_chars, shortened, base_slug, suffix_of, unique_slug, max_slug_length,
}

-- Kept characters and single hyphens, and no hyphen first if one came just before.
abbrev pub IsSpaced : Bool → String → Type 0
IsSpaced after [] = Unit
IsSpaced after (c ∷ s) =
    ((is_kept c ≡ true) ⊎ ((is_hyphen c ≡ true) × (after ≡ false))) × IsSpaced (is_hyphen c) s

abbrev pub EndsKept : String → Type 0
EndsKept [] = Unit
EndsKept (c ∷ []) = is_hyphen c ≡ false
EndsKept (c ∷ d ∷ s) = EndsKept (d ∷ s)

-- Lowercase letters, digits and single hyphens, with no hyphen at either end.
abbrev pub IsSlug : String → Type 0
IsSlug s = IsSpaced true s × EndsKept s

kept_not_hyphen : (c : Char) → is_kept c ≡ true → is_hyphen c ≡ false
kept_not_hyphen c h = ground arith

write_slug-IsSpaced : (after : Bool) (s : String) → IsSpaced after (write_slug after s)
unfolding write_slug
write_slug-IsSpaced after [] = tt
write_slug-IsSpaced after (c ∷ s) = elim (Bool-cases (is_kept c)) [
  | inl e ↦ rw e (inl e, rw (kept_not_hyphen c e) (write_slug-IsSpaced false s))
  | inr e ↦ elim (Bool-cases after) [
    | inl a ↦ rw (e, a) (write_slug-IsSpaced true s)
    | inr a ↦ rw (e, a) (inr (refl, refl), write_slug-IsSpaced true s)
  ]
]

trim_left_same : (s : String) → IsSpaced true s → trim_left s ≡ s
unfolding trim_left
trim_left_same [] h = refl
trim_left_same (c ∷ s) h = ground (arith, kept_not_hyphen c)

trim_right-IsSpaced : (after : Bool) (s : String) → IsSpaced after s → IsSpaced after (trim_right s)
unfolding trim_right
trim_right-IsSpaced after [] h = tt
trim_right-IsSpaced after (c ∷ s) h = elim (Bool-cases (is_hyphen c && is_empty (trim_right s))) [
  | inl e ↦ rw e tt
  | inr e ↦ rw e (h.0, trim_right-IsSpaced (is_hyphen c) s h.1)
]

end_kept :
    (c : Char) (r : String)
    → EndsKept r
    → EndsKept (if is_hyphen c && is_empty r then [] else c ∷ r)
end_kept c [] h = elim (Bool-cases (is_hyphen c)) [ inl e ↦ rw e tt | inr e ↦ rw e e ]
end_kept c (d ∷ r) h = elim (Bool-cases (is_hyphen c)) [ inl e ↦ rw e h | inr e ↦ rw e h ]

trim_right-EndsKept : (s : String) → EndsKept (trim_right s)
unfolding trim_right
trim_right-EndsKept [] = tt
trim_right-EndsKept (c ∷ s) = end_kept c (trim_right s) (trim_right-EndsKept s)

first_chars-IsSpaced :
    (n : ℕ) (after : Bool) (s : String) → IsSpaced after s → IsSpaced after (first_chars n s)
unfolding first_chars
first_chars-IsSpaced zero after s h = tt
first_chars-IsSpaced (suc n) after [] h = tt
first_chars-IsSpaced (suc n) after (c ∷ s) h = (h.0, first_chars-IsSpaced n (is_hyphen c) s h.1)

rune_count-trim_right : (s : String) → rune_count (trim_right s) ≤ rune_count s
unfolding trim_right rune_count
rune_count-trim_right [] = omega arith
rune_count-trim_right (c ∷ s) = ground (arith, rune_count-trim_right s)

rune_count-first_chars : (n : ℕ) (s : String) → rune_count (first_chars n s) ≤ n
unfolding first_chars rune_count
rune_count-first_chars zero s = omega arith
rune_count-first_chars (suc n) [] = omega arith
rune_count-first_chars (suc n) (c ∷ s) = ground (arith, rune_count-first_chars n s)

trim-IsSlug : (s : String) → IsSpaced true s → IsSlug (trim s)
unfolding trim
trim-IsSlug s h = rw (trim_left_same s h) (trim_right-IsSpaced true s h, trim_right-EndsKept s)

slugify-IsSlug : (go : GoLib) (name : String) → IsSlug (slugify go name)
unfolding slugify
slugify-IsSlug go name = trim-IsSlug _ (write_slug-IsSpaced true (go.to_lower name))

rune_count-trim_le : (s : String) → IsSpaced true s → rune_count (trim s) ≤ rune_count s
unfolding trim
rune_count-trim_le s h = rw (trim_left_same s h) (rune_count-trim_right s)

shortened-IsSlug :
    (s : String) → IsSlug s → IsSlug (shortened s) × (rune_count (shortened s) ≤ max_slug_length)
shortened-IsSlug s h = elim (Bool-cases (ltb max_slug_length (rune_count s))) [
  | inl e ↦ rw e (
    trim-IsSlug (first_chars max_slug_length s) (first_chars-IsSpaced max_slug_length true s h.0),
    omega (
      arith,
      rune_count-first_chars max_slug_length s,
      rune_count-trim_le (first_chars max_slug_length s)
          (first_chars-IsSpaced max_slug_length true s h.0),
    ),
  )
  | inr e ↦ rw e (h, ground arith)
]

-- Whatever the name, and whatever lowercase is taken to be, a slug is made of lowercase ASCII
-- letters, digits and single hyphens with none at either end, also after it is shortened, and is
-- then at most 64 characters long.
slugify_lem :
    (go : GoLib) (name : String)
    → IsSlug (slugify go name)
      × IsSlug (shortened (slugify go name))
      × (rune_count (shortened (slugify go name)) ≤ max_slug_length)
slugify_lem go name = (
  slugify-IsSlug go name,
  (shortened-IsSlug _ (slugify-IsSlug go name)).0,
  (shortened-IsSlug _ (slugify-IsSlug go name)).1,
)

-- A new address was either asked about and found free, or it carries a suffix because the address
-- without one was taken; the suffixed one is then not asked about.
unique_slug_lem :
    (go : GoLib) (name id : String) (taken : String → Bool)
    → (taken (unique_slug go name id taken) ≡ false)
      ⊎ ((taken (base_slug go name id) ≡ true)
          × (unique_slug go name id taken ≡ base_slug go name id ++ "-" ++ suffix_of go id))
unfolding unique_slug
unique_slug_lem go name id taken = elim (Bool-cases (taken (base_slug go name id))) [
  | inl e ↦ rw e (inr (refl, refl))
  | inr e ↦ rw e (inl e)
]
