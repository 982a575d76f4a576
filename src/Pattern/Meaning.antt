-- ===== src/Pattern/Meaning.antt =====
-- What a pattern means, and how far `matchPattern` follows it.
use drive.Pattern.{any_suffix, advance_on, match_pattern}
use drive.Prelude.{
  ℕ, ◌≡◌, ◌≢◌, refl, sym, ◌∙◌, ◌↔◌, Bool, true, false, ◌&&◌, [], ◌∷◌, ◌++◌, ◌==◌, ==_iff, arith,
  All, Bool-cases, inl, inr, ◌⊎◌,
}
use drive.Prelude.Texts.{Bytes}

abbrev pub question : ℕ
question = b'?'

abbrev pub star : ℕ
star = b'*'

abbrev pub IsLiteral : ℕ → Type 0
IsLiteral n = ((n == question) ≡ false) × ((n == star) ≡ false)

-- '?' is any one character, '*' any text.
pub data Matches : Bytes → Bytes → Type 0 where
  end : Matches [] []
  one :
      (c : ℕ) {needle haystack : Bytes}
      → Matches needle haystack
      → Matches (question ∷ needle) (c ∷ haystack)
  literal :
      (c : ℕ) {needle haystack : Bytes}
      → IsLiteral c
      → Matches needle haystack
      → Matches (c ∷ needle) (c ∷ haystack)
  empty : {needle haystack : Bytes} → Matches needle haystack → Matches (star ∷ needle) haystack
  more :
      (c : ℕ) {needle haystack : Bytes}
      → Matches (star ∷ needle) haystack
      → Matches (star ∷ needle) (c ∷ haystack)

star_all : (haystack : Bytes) → Matches (star ∷ []) haystack
star_all [] = empty end
star_all (c ∷ haystack) = more c (star_all haystack)

any_suffix-Matches :
    (p : Bytes → Bool) (needle haystack : Bytes)
    → ((h : Bytes) → p h ≡ true → Matches needle h)
    → any_suffix p haystack ≡ true
    → Matches (star ∷ needle) haystack
unfolding any_suffix
any_suffix-Matches p needle [] sound h = cc
any_suffix-Matches p needle (c ∷ haystack) sound h = elim (Bool-cases (p (c ∷ haystack))) [
  | inl here ↦ empty (sound (c ∷ haystack) here)
  | inr later ↦ more c (any_suffix-Matches p needle haystack sound (rw (later) at h))
]

kind : (n : ℕ) → (n ≡ question) ⊎ ((n ≡ star) ⊎ IsLiteral n)
kind n = ground arith

match_literal :
    (n : ℕ) (needle haystack : Bytes)
    → IsLiteral n
    → match_pattern (n ∷ needle) haystack ≡ advance_on n (match_pattern needle) haystack
unfolding match_pattern
match_literal n needle haystack h = rw (h.0, h.1)

module _ (needle : Bytes)
    (ih : (h : Bytes) → match_pattern needle h ≡ true → Matches needle h) where
  question_step :
      (haystack : Bytes)
      → match_pattern (question ∷ needle) haystack ≡ true
      → Matches (question ∷ needle) haystack
  unfolding match_pattern
  question_step [] h = cc
  question_step (c ∷ haystack) h = one c (ih haystack h)

  literal_step :
      (n : ℕ) (haystack : Bytes)
      → IsLiteral n
      → advance_on n (match_pattern needle) haystack ≡ true
      → Matches (n ∷ needle) haystack
  literal_step n [] l h = cc
  literal_step n (c ∷ haystack) l h =
      let same : c ≡ n = ground arith in rw same (literal n l (ih haystack (ground arith)))

star_step :
    (needle haystack : Bytes)
    → ((h : Bytes) → match_pattern needle h ≡ true → Matches needle h)
    → match_pattern (star ∷ needle) haystack ≡ true
    → Matches (star ∷ needle) haystack
unfolding match_pattern
star_step [] haystack ih h = star_all haystack
star_step (n ∷ needle) haystack ih h =
    any_suffix-Matches (match_pattern (n ∷ needle)) (n ∷ needle) haystack ih h

-- What `matchPattern` accepts does match.
pub match_pattern-Matches :
    (needle haystack : Bytes) → match_pattern needle haystack ≡ true → Matches needle haystack
match_pattern-Matches [] [] h = end
match_pattern-Matches [] (c ∷ haystack) h = unfold match_pattern in cc
match_pattern-Matches (n ∷ needle) haystack h = elim (kind n) [
  | inl q ↦ rw q (question_step needle (match_pattern-Matches needle) haystack (rw q at h))
  | inr (inl s) ↦ rw s (star_step needle haystack (match_pattern-Matches needle) (rw s at h))
  | inr (inr l) ↦
      literal_step needle (match_pattern-Matches needle) n haystack l
        (sym (match_literal n needle haystack l) ∙ h)
]

-- No '*' stands directly behind another.
abbrev pub NoDoubleStar : Bytes → Type 0
NoDoubleStar [] = Unit
NoDoubleStar (n ∷ []) = Unit
NoDoubleStar (n ∷ m ∷ needle) = ((n == star) && (m == star) ≡ false) × NoDoubleStar (m ∷ needle)

NoDoubleStar-tail : (n : ℕ) (needle : Bytes) → NoDoubleStar (n ∷ needle) → NoDoubleStar needle
NoDoubleStar-tail n [] h = tt
NoDoubleStar-tail n (m ∷ needle) h = h.1

any_suffix_here : (p : Bytes → Bool) (h : Bytes) → h ≢ [] → p h ≡ true → any_suffix p h ≡ true
unfolding any_suffix
any_suffix_here p [] ne e = absurd (ne refl)
any_suffix_here p (c ∷ h) ne e = rw e

-- Only stars match the empty text.
Matches-nil :
    {needle haystack : Bytes}
    → Matches needle haystack
    → haystack ≡ []
    → (needle ≡ []) ⊎ ((rest : Bytes) × (needle ≡ star ∷ rest))
Matches-nil end e = inl refl
Matches-nil (one c m) e = cc
Matches-nil (literal c l m) e = cc
Matches-nil (empty {needle = needle} m) e = inr (needle, refl)
Matches-nil (more c m) e = cc

star_accepts :
    (needle haystack : Bytes)
    → NoDoubleStar (star ∷ needle)
    → Matches needle haystack
    → match_pattern needle haystack ≡ true
    → match_pattern (star ∷ needle) haystack ≡ true
unfolding match_pattern
star_accepts [] haystack nd m h = refl
star_accepts (n ∷ needle) haystack nd m h =
    any_suffix_here (match_pattern (n ∷ needle)) haystack
      (λ e. elim (Matches-nil m e) [
        | inl nil ↦ cc
        | inr (rest, s) ↦ let first : n ≡ star = cc in ground arith
      ])
      h

star_more :
    (c : ℕ) (needle haystack : Bytes)
    → match_pattern (star ∷ needle) haystack ≡ true
    → match_pattern (star ∷ needle) (c ∷ haystack) ≡ true
unfolding match_pattern any_suffix
star_more c [] haystack h = refl
star_more c (n ∷ needle) haystack h = ground arith

-- Without "**" in the pattern nothing that matches is turned down.
pub Matches-match_pattern :
    {needle haystack : Bytes}
    → Matches needle haystack
    → NoDoubleStar needle
    → match_pattern needle haystack ≡ true
unfolding match_pattern
Matches-match_pattern end nd = refl
Matches-match_pattern (one c {needle = needle} m) nd =
    Matches-match_pattern m (NoDoubleStar-tail question needle nd)
Matches-match_pattern (literal c {needle = needle} {haystack = haystack} l m) nd =
    match_literal c needle (c ∷ haystack) l
    ∙ rw ((==_iff c c).1 refl) (Matches-match_pattern m (NoDoubleStar-tail c needle nd))
Matches-match_pattern (empty {needle = needle} {haystack = haystack} m) nd =
    star_accepts needle haystack nd m (Matches-match_pattern m (NoDoubleStar-tail star needle nd))
Matches-match_pattern (more c {needle = needle} {haystack = haystack} m) nd =
    star_more c needle haystack (Matches-match_pattern m nd)

-- On a pattern without "**", `matchPattern` accepts exactly what matches it.
pub match_pattern_iff :
    (needle haystack : Bytes)
    → NoDoubleStar needle
    → (match_pattern needle haystack ≡ true) ↔ Matches needle haystack
match_pattern_iff needle haystack nd =
    (match_pattern-Matches needle haystack, λ m. Matches-match_pattern m nd)

-- A text of characters other than '?' and '*', followed by "**", matches the text itself as a
-- pattern, and `matchPattern` turns it down.
pub match_pattern_double_star :
    (text : Bytes)
    → All IsLiteral text
    → Matches (text ++ star ∷ star ∷ []) text
      × (match_pattern (text ++ star ∷ star ∷ []) text ≡ false)
match_pattern_double_star [] h = (empty (empty end), unfold match_pattern in refl)
match_pattern_double_star (c ∷ text) h =
    let (matches, refused) = match_pattern_double_star text h.1 in
    (
      literal c h.0 matches,
      match_literal c (text ++ star ∷ star ∷ []) (c ∷ text) h.0 ∙ rw ((==_iff c c).1 refl) refused,
    )
