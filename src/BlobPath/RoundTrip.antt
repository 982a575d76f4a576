-- ===== src/BlobPath/RoundTrip.antt =====
-- Normal paths: what `SplitPath` returns, and what it finds again behind `JoinPaths`.
use drive.BlobPath.{
  is_delim, dot, dot_dot, is_blank, pop_back, push_name, split_from, split_path, join_all,
  join_paths,
}
use drive.Prelude.{
  ℕ, ◌-◌, ◌≤◌, ◌≡◌, refl, ◌∙◌, true, false, List, [], ◌∷◌, ◌++◌, append_assoc, append-nil, arith,
  ◌⊎◌, not, ◌&&◌, length, min, All, take_all, Bool-cases, inl, inr, if_elim,
}
use drive.Prelude.Texts.{Bytes, str_eq}

-- A name of a file or folder: not empty, without delimiters, and not ".".
pub record IsName (name : Bytes) : Type 0 where
  pub filled : is_blank name ≡ false
  pub plain : All (λ c. is_delim c ≡ false) name
  pub not_dot : str_eq name dot ≡ false

-- A path that is taken apart: names, and ".." at most in front.
abbrev pub IsBelow : Bytes → Type 0
IsBelow name = IsName name × (str_eq name dot_dot ≡ false)

abbrev pub IsNormal : List Bytes → Type 0
IsNormal [] = Unit
IsNormal (p ∷ ps) = IsName p × All IsBelow ps

All-append : (ps : List Bytes) (p : Bytes) → All IsBelow ps → IsBelow p → All IsBelow (ps ++ p ∷ [])
All-append [] p h k = (k, tt)
All-append (q ∷ ps) p h k = (h.0, All-append ps p h.1 k)

plain-append :
    (name : Bytes) (c : ℕ)
    → All (λ c. is_delim c ≡ false) name
    → is_delim c ≡ false
    → All (λ c. is_delim c ≡ false) (name ++ c ∷ [])
plain-append [] c h k = (k, tt)
plain-append (d ∷ name) c h k = (h.0, plain-append name c h.1 k)

pop_back-All :
    (p : Bytes) (ps : List Bytes) → All IsBelow (p ∷ ps) → All IsBelow (pop_back (p ∷ ps))
unfolding pop_back
pop_back-All p [] h = tt
pop_back-All p (q ∷ ps) h = (h.0, pop_back-All q ps h.1)

pop_back-IsNormal : (ps : List Bytes) → IsNormal ps → IsNormal (pop_back ps)
unfolding pop_back
pop_back-IsNormal [] h = tt
pop_back-IsNormal (p ∷ []) h = tt
pop_back-IsNormal (p ∷ q ∷ ps) h = (h.0, pop_back-All q ps h.1)

push_name-IsNormal :
    (name : Bytes) (result : List Bytes)
    → All (λ c. is_delim c ≡ false) name
    → IsNormal result
    → IsNormal (push_name name result)
unfolding push_name
push_name-IsNormal name [] h n =
    if_elim IsNormal (is_blank name) _ _ (λ blank. tt)
      (λ filled.
        if_elim IsNormal (str_eq name dot_dot && false) _ _ (λ up. pop_back-IsNormal [] tt)
          (λ down.
            if_elim IsNormal (not (str_eq name dot)) (name ∷ []) _
              (λ other. (record { filled = filled; plain = h; not_dot = ground arith }, tt))
              (λ same. tt)))
push_name-IsNormal name (p ∷ ps) h n =
    if_elim IsNormal (is_blank name) _ _ (λ blank. n)
      (λ filled.
        if_elim IsNormal (str_eq name dot_dot && true) _ _ (λ up. pop_back-IsNormal (p ∷ ps) n)
          (λ down.
            if_elim IsNormal (not (str_eq name dot)) ((p ∷ ps) ++ name ∷ []) _
              (λ other. (
                n.0,
                All-append ps name n.1
                    (record { filled = filled; plain = h; not_dot = ground arith }, ground arith),
              ))
              (λ same. n)))

split_from-IsNormal :
    (path name : Bytes) (result : List Bytes)
    → All (λ c. is_delim c ≡ false) name
    → IsNormal result
    → IsNormal (split_from name result path)
unfolding split_from
split_from-IsNormal [] name result h n = push_name-IsNormal name result h n
split_from-IsNormal (c ∷ path) name result h n = elim (Bool-cases (is_delim c)) [
  | inl e ↦
      rw e (
        split_from-IsNormal path [] (push_name name result) tt (push_name-IsNormal name result h n))
  | inr e ↦ rw e (split_from-IsNormal path (name ++ c ∷ []) result (plain-append name c h e) n)
]

-- Whatever the path, `SplitPath` returns names without delimiters, none empty or ".", and ".." at
-- most as the first.
pub split_path-IsNormal : (path : Bytes) → IsNormal (split_path path)
unfolding split_path
split_path-IsNormal [] = tt
split_path-IsNormal (c ∷ path) = elim (Bool-cases (is_delim c)) [
  | inl e ↦ rw e (split_from-IsNormal path [] [] tt tt)
  | inr e ↦ rw e (split_from-IsNormal path (c ∷ []) [] (e, tt) tt)
]

-- A name without delimiters is read whole.
split_from-append :
    (name front rest : Bytes) (result : List Bytes)
    → All (λ c. is_delim c ≡ false) name
    → split_from front result (name ++ rest) ≡ split_from (front ++ name) result rest
unfolding split_from
split_from-append [] front rest result h = rw append-nil
split_from-append (c ∷ name) front rest result h =
    rw (h.0, split_from)
      (split_from-append name (front ++ c ∷ []) rest result h.1 ∙ rw append_assoc)

push_name_below :
    (name : Bytes) (result : List Bytes)
    → IsName name
    → (str_eq name dot_dot ≡ false) ⊎ (result ≡ [])
    → push_name name result ≡ result ++ name ∷ []
unfolding push_name
push_name_below name [] h why = ground arith
push_name_below name (p ∷ ps) h why = ground arith

split_from-join_all :
    (p : Bytes) (ps result : List Bytes)
    → IsName p
    → (str_eq p dot_dot ≡ false) ⊎ (result ≡ [])
    → All IsBelow ps
    → split_from p result (join_all ps) ≡ result ++ p ∷ ps
unfolding split_from join_all
split_from-join_all p [] result h why below = push_name_below p result h why
split_from-join_all p (q ∷ ps) result h why below =
    rw (split_from-append q [] (join_all ps) (push_name p result) below.0.0.plain) (
      split_from-join_all q ps (push_name p result) below.0.0 (inl below.0.1) below.1
      ∙ rw (push_name_below p result h why) (append_assoc result (p ∷ []) (q ∷ ps)))

-- `SplitPath` finds the parts of a normal path again in what `JoinPaths` writes for all of them.
pub split_path-join_paths :
    (parts : List Bytes) (len : ℕ)
    → IsNormal parts
    → length parts ≤ len
    → split_path (join_paths parts 0 len) ≡ parts
unfolding split_path join_paths
split_path-join_paths [] len n h = rw (take_all {A = Bytes} (min len 0 - 0) [] (omega arith))
split_path-join_paths (p ∷ ps) len n h =
    rw (take_all (min len (length (p ∷ ps)) - 0) (p ∷ ps) (omega arith)) (
      split_from-append p [] (join_all ps) [] n.0.plain
      ∙ split_from-join_all p ps [] n.0 (inr refl) n.1)
