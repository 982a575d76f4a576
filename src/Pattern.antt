-- ===== src/Pattern.antt =====
-- src/bdblob/BlobApi.cpp: `matchPattern`, on texts without the byte 0, which ends them in C++.
pub mod Meaning
use drive.OrderedMap.{Map}
use drive.Prelude.{ℕ, Bool, true, false, not, ◌&&◌, ◌||◌, List, [], ◌∷◌, ◌==◌, if◌then◌else◌}
use drive.Prelude.Texts.{Bytes, codes, str_eq}

-- `p` holds of the text from some position before its end on.
any_suffix : (Bytes → Bool) → Bytes → Bool
any_suffix p [] = false
any_suffix p (c ∷ haystack) = p (c ∷ haystack) || any_suffix p haystack

abbrev is_end : Bytes → Bool
is_end [] = true
is_end (_ ∷ _) = false

abbrev advance : (Bytes → Bool) → Bytes → Bool
advance next [] = false
advance next (_ ∷ haystack) = next haystack

abbrev advance_on : ℕ → (Bytes → Bool) → Bytes → Bool
advance_on n next [] = false
advance_on n next (c ∷ haystack) = if c == n then next haystack else false

unfoldable pub match_pattern : Bytes → Bytes → Bool
unfolding any_suffix
match_pattern [] haystack = is_end haystack
match_pattern (n ∷ needle) haystack =
    let next = match_pattern needle in
    if n == b'?'
    then advance next haystack
    else if n == b'*'
    then (if is_end needle then true else any_suffix next haystack)
    else advance_on n next haystack

-- `Folder::Find`: the names that match, "." and ".." left out.
unfoldable pub find_names {ℓ} : {V : Type ℓ} → Bytes → Map V → List Bytes
find_names pattern [] = []
find_names pattern ((k, _) ∷ m) =
    let rest = find_names pattern m in
    if str_eq k (codes ".") || str_eq k (codes "..")
    then rest
    else if match_pattern pattern k
    then k ∷ rest
    else rest
