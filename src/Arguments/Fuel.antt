-- ===== src/Arguments/Fuel.antt =====
-- The loop over a command line ends (src/bdblob/ArgumentParser.cpp).
use drive.Arguments.{
  ArgumentParser, is_empty, is_option, set_name, set_names, expand, parse_param, parse_option,
  set_key, parse_loop, nth, is_boolean,
}
use drive.OrderedMap.{Map, find, assign}
use drive.Prelude.{
  ℕ, zero, suc, ◌+◌, ◌≤◌, ◌≡◌, refl, not, ◌&&◌, ◌||◌, Bool, Option, some, none, List, [], ◌∷◌,
  arith, ltb, length, drop, if_elim, if◌then◌else◌, option_elim, Option-cases, inl, inr, Bool-cases,
}
use drive.Prelude.Texts.{Bytes}

-- What is left of a command line, if anything, is at most `n` long.
abbrev IsShort : ℕ → Option (List Bytes × Map Bytes) → Type 0
IsShort n none = Unit
IsShort n (some (rest, _)) = length rest ≤ n

IsShort-mono : (n m : ℕ) (o : Option (List Bytes × Map Bytes)) → n ≤ m → IsShort n o → IsShort m o
IsShort-mono n m none h s = tt
IsShort-mono n m (some (rest, params)) h s = omega arith

module _ (Int : Type 0) (atoll : Bytes → Int) (p : ArgumentParser Int atoll) where
  set_name-IsShort :
      (several : Bool) (value name : Bytes) (rest : List Bytes) (params : Map Bytes)
      → IsShort (length rest) (set_name Int atoll p several value name rest params)
  unfolding set_name
  set_name-IsShort several value name [] params = ground arith
  set_name-IsShort several value name (next ∷ rest) params =
      option_elim (IsShort (suc (length rest))) (find name p.args) none
        (λ a.
          if several && not (is_boolean Int atoll a)
          then none
          else if is_boolean Int atoll a || not (is_empty value)
          then some (next ∷ rest, assign name value params)
          else some (rest, assign name next params))
        (λ e. tt)
        (λ a e.
          if_elim (IsShort (suc (length rest))) (several && not (is_boolean Int atoll a)) none
            (if is_boolean Int atoll a || not (is_empty value)
              then some (next ∷ rest, assign name value params)
              else some (rest, assign name next params))
            (λ h. tt)
            (λ h.
              if_elim (IsShort (suc (length rest))) (is_boolean Int atoll a || not (is_empty value))
                (some (next ∷ rest, assign name value params))
                (some (rest, assign name next params)) (λ h. omega arith) (λ h. omega arith)))

  set_names-IsShort :
      (several : Bool) (value : Bytes) (names rest : List Bytes) (params : Map Bytes)
      → IsShort (length rest) (set_names Int atoll p several value names rest params)
  unfolding set_names
  set_names-IsShort several value [] rest params = omega arith
  set_names-IsShort several value (name ∷ names) rest params =
      option_elim (IsShort (length rest)) (set_name Int atoll p several value name rest params) none
        (λ x. set_names Int atoll p several value names x.0 x.1) (λ e. tt)
        (λ x e.
          let shorter : length x.0 ≤ length rest =
            rw e at (set_name-IsShort several value name rest params) in
          IsShort-mono (length x.0) (length rest)
            (set_names Int atoll p several value names x.0 x.1) shorter
            (set_names-IsShort several value names x.0 x.1))

  set_key-IsShort :
      (is_abbrev : Bool) (key value : Bytes) (rest : List Bytes) (params : Map Bytes)
      → IsShort (length rest) (set_key Int atoll p is_abbrev key value rest params)
  unfolding set_key
  set_key-IsShort is_abbrev key value rest params =
      let names = if is_abbrev then expand Int atoll p key else some (key ∷ []) in
      let set : List Bytes → Option (List Bytes × Map Bytes) =
        λ names. set_names Int atoll p (ltb 1 (length names)) value names rest params in
      if_elim (IsShort (length rest))
        (is_empty key || is_abbrev && (ltb 1 (length key) && not (is_empty value))) none
        (elim names [ none ↦ none | some names ↦ set names ]) (λ h. tt)
        (λ h.
          option_elim (IsShort (length rest)) names none set (λ e. tt)
            (λ names e. set_names-IsShort (ltb 1 (length names)) value names rest params))

  parse_option-IsShort :
      (option : Bytes) (rest : List Bytes) (params : Map Bytes)
      → IsShort (length rest) (parse_option Int atoll p option rest params)
  unfolding parse_option
  parse_option-IsShort option rest params =
      let is_abbrev = not (is_option option) in
      let param = parse_param (if is_abbrev then option else drop 1 option) in
      set_key-IsShort is_abbrev param.0 param.1 rest params

  -- Fuel of the length of the command line is enough: with more, `parse_loop` gives the same.
  pub parse_loop_enough :
      (fuel more index : ℕ) (argv : List Bytes) (params : Map Bytes)
      → length argv ≤ fuel
      → parse_loop Int atoll (fuel + more) p index argv params
        ≡ parse_loop Int atoll fuel p index argv params
  unfolding parse_loop
  parse_loop_enough fuel more index [] params h = refl
  parse_loop_enough zero more index (cur ∷ rest) params h = absurd (omega arith)
  parse_loop_enough (suc fuel) more index (cur ∷ rest) params h =
      let grow : suc fuel + more ≡ suc (fuel + more) = omega arith in
      elim (Bool-cases (is_option cur)) [
        | inl option ↦ elim (Option-cases (parse_option Int atoll p (drop 1 cur) rest params)) [
          | inl e ↦ rw (grow, parse_loop, parse_loop, option, e)
          | inr ((rest', params'), e) ↦
              let shorter : length rest' ≤ length rest =
                rw e at (parse_option-IsShort (drop 1 cur) rest params) in
              rw (grow, parse_loop, parse_loop, option, e)
                (parse_loop_enough fuel more index rest' params' (omega arith))
        ]
        | inr plain ↦ elim (Option-cases (nth p.anonymouse index)) [
          | inl e ↦ rw (grow, parse_loop, parse_loop, plain, e)
          | inr (name, e) ↦
              rw (grow, parse_loop, parse_loop, plain, e)
                (parse_loop_enough fuel more (suc index) rest (assign name cur params)
                  (omega arith))
        ]
      ]
