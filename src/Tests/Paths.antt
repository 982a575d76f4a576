-- ===== src/Tests/Paths.antt =====
-- Paths and patterns of a folder (src/bdblob/BlobApi.cpp).
use drive.BlobPath.{split_path, join_paths}
use drive.BlobPath.RoundTrip.{IsNormal, split_path-IsNormal, split_path-join_paths}
use drive.Pattern.{match_pattern}
use drive.Pattern.Meaning.{
  Matches, star, match_pattern-Matches, match_pattern_iff, match_pattern_double_star,
}
use drive.Prelude.{◌≡◌, refl, ◌↔◌, true, false, List, [], ◌∷◌, ◌++◌, arith}
use drive.Prelude.Texts.{Bytes, codes, str_compare}

split_path-IsNormal_example : IsNormal (split_path (codes "/a//./b/../c"))
split_path-IsNormal_example = split_path-IsNormal (codes "/a//./b/../c")

abbrev parts : List Bytes
parts = codes "usr" ∷ codes "x.y" ∷ []

parts-IsNormal : IsNormal parts
unfolding str_compare
parts-IsNormal = (
  record { filled = refl; plain = (refl, (refl, (refl, tt))); not_dot = refl },
  ((record { filled = refl; plain = (refl, (refl, (refl, tt))); not_dot = refl }, refl), tt),
)

split_path-join_paths_example : split_path (join_paths parts 0 5) ≡ parts
split_path-join_paths_example = split_path-join_paths parts 5 parts-IsNormal (ground arith)

match_pattern_iff_example :
    (match_pattern (codes "a*.?") (codes "abc.h") ≡ true) ↔ Matches (codes "a*.?") (codes "abc.h")
match_pattern_iff_example =
    match_pattern_iff (codes "a*.?") (codes "abc.h") (refl, (refl, (refl, tt)))

accepted : match_pattern (codes "a**") (codes "ab") ≡ true
unfolding match_pattern
accepted = refl

match_pattern-Matches_example : Matches (codes "a**") (codes "ab")
match_pattern-Matches_example = match_pattern-Matches (codes "a**") (codes "ab") accepted

match_pattern_double_star_example :
    Matches (codes "ab" ++ star ∷ star ∷ []) (codes "ab")
    × (match_pattern (codes "ab" ++ star ∷ star ∷ []) (codes "ab") ≡ false)
match_pattern_double_star_example =
    match_pattern_double_star (codes "ab") ((refl, refl), ((refl, refl), tt))
