-- ===== src/BlobPath.antt =====
-- src/bdblob/BlobApi.cpp: paths taken apart and put together.
pub mod RoundTrip
use drive.Prelude.{
  ℕ, zero, suc, ◌-◌, Bool, true, false, not, ◌&&◌, ◌||◌, List, [], ◌∷◌, ◌++◌, Option, none, some,
  ◌==◌, if◌then◌else◌, length, take, drop, min,
}
use drive.Prelude.Texts.{Bytes, codes, str_eq}

-- `delim = "/\\"`
abbrev pub is_delim : ℕ → Bool
is_delim c = c == b'/' || c == 92

abbrev pub dot : Bytes
dot = codes "."

abbrev pub dot_dot : Bytes
dot_dot = codes ".."

unfoldable pub pop_back : List Bytes → List Bytes
pop_back [] = []
pop_back (x ∷ []) = []
pop_back (x ∷ y ∷ xs) = x ∷ pop_back (y ∷ xs)

abbrev is_none : List Bytes → Bool
is_none [] = true
is_none (_ ∷ _) = false

abbrev is_blank : Bytes → Bool
is_blank [] = true
is_blank (_ ∷ _) = false

-- The body of the loop on one name; an empty name is skipped.
unfoldable pub push_name : Bytes → List Bytes → List Bytes
push_name name result =
    if is_blank name
    then result
    else if str_eq name dot_dot && not (is_none result)
    then pop_back result
    else if not (str_eq name dot)
    then result ++ name ∷ []
    else result

-- `name` holds the characters from `offset` up to the one that `find_first_of` looks at.
split_from : Bytes → List Bytes → Bytes → List Bytes
split_from name result [] = push_name name result
split_from name result (c ∷ path) =
    split_from (if is_delim c then [] else name ++ c ∷ [])
      (if is_delim c then push_name name result else result) path

unfoldable pub split_path : Bytes → List Bytes
unfolding split_from push_name pop_back
split_path [] = []
split_path (c ∷ path) = if is_delim c then split_from [] [] path else split_from [] [] (c ∷ path)

join_all : List Bytes → Bytes
join_all [] = []
join_all (p ∷ ps) = b'/' ∷ (p ++ join_all ps)

unfoldable pub join_paths : List Bytes → ℕ → ℕ → Bytes
unfolding join_all
join_paths parts offset len = join_all (take (min len (length parts) - offset) (drop offset parts))

-- The position of the last delimiter.
find_last_of : Bytes → Option ℕ
find_last_of [] = none
find_last_of (c ∷ path) =
    let later = find_last_of path in
    elim later [ some i ↦ some (suc i) | none ↦ if is_delim c then some 0 else none ]

unfoldable pub base_name : Bytes → Bytes
unfolding find_last_of
base_name path = elim (find_last_of path) [
  | none ↦ path
  | some i ↦ if suc i == length path then [] else drop (suc i) path
]
