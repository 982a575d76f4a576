-- ===== src/HostRoutes/Paths.antt =====
-- Which requests reach a partition (src/bdhost/PartitionHandler.cpp).
use drive.HostRoutes.{
  prefix, slash, split_slash, folder_request, partition_request, process_request,
}
use drive.Prelude.{ℕ, ◌≡◌, refl, false, none, some, [], ◌∷◌, ◌++◌, arith, All, ◌==◌, length-append}
use drive.Prelude.Texts.{Bytes}

-- A part of a path: no slash in it.
abbrev pub IsSegment : Bytes → Type 0
IsSegment name = All (λ c. (c == slash) ≡ false) name

split_slash-append :
    (name action : Bytes)
    → IsSegment name
    → split_slash (name ++ slash ∷ action) ≡ some (name, action)
unfolding split_slash
split_slash-append [] action h = refl
split_slash-append (c ∷ name) action h = rw (h.0, split_slash-append name action h.1)

split_slash-none : (name : Bytes) → IsSegment name → split_slash name ≡ none
unfolding split_slash
split_slash-none [] h = refl
split_slash-none (c ∷ name) h = rw (h.0, split_slash-none name h.1)

-- Behind the prefix, a name and a slash lead to the partition of that name, with the text behind
-- the slash as the action.
pub process_request-partition :
    (name action : Bytes)
    → IsSegment name
    → process_request (prefix ++ slash ∷ (name ++ slash ∷ action)) ≡ partition_request name action
unfolding process_request
process_request-partition name action h =
    let size = length-append name (slash ∷ action) in
    rw (split_slash-append name action h) (ground (arith, size))

-- A name alone, not empty, is an action on the folder of all partitions.
pub process_request-folder :
    (c : ℕ) (action : Bytes)
    → IsSegment (c ∷ action)
    → process_request (prefix ++ slash ∷ c ∷ action) ≡ folder_request (c ∷ action)
unfolding process_request
process_request-folder c action h = rw (split_slash-none (c ∷ action) h) (ground arith)
