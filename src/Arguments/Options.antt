-- ===== src/Arguments/Options.antt =====
-- Options written and parsed again, and what a parse sets (src/bdblob/ArgumentParser.cpp).
use drive.Arguments.{
  Argument, ArgumentParser, Value, text, number, flag, is_empty, find_equals, parse_param, set_name,
  set_names, parse_option, set_key, parse_loop, parse_params, set_params, set_value, is_set, parse,
  is_boolean, validate_required,
}
use drive.OrderedMap.{Map, IsOrdered, find, assign, find-assign, find-Above, assign-IsOrdered}
use drive.Prelude.{
  ℕ, zero, suc, ◌-◌, ◌≤◌, ◌≡◌, refl, sym, ap, ◌∙◌, true, false, ◌&&◌, ◌||◌, Bool, not, Option, some,
  none, List, [], ◌∷◌, ◌++◌, arith, ◌==◌, length, drop, All, map, length-append, take-append_length,
  Bool-cases, inl, inr, Option-cases,
}
use drive.Prelude.Texts.{Bytes, codes, str_compare, str_ltb, str_eq, str_eq_iff}

find_equals_append :
    (key value : Bytes)
    → find_equals key ≡ none
    → find_equals (key ++ 61 ∷ value) ≡ some (length key)
unfolding find_equals
find_equals_append [] value e = refl
find_equals_append (c ∷ key) value e = elim (Option-cases (find_equals key)) [
  | inl later ↦ ground (arith, find_equals_append key value later)
  | inr (n, later) ↦ absurd (ground arith)
]

drop_behind : (key value : Bytes) (c : ℕ) → drop (suc (length key)) (key ++ c ∷ value) ≡ value
drop_behind [] value c = refl
drop_behind (k ∷ key) value c = drop_behind key value c

-- A key without "=" that is not empty, an "=" and a value that is not empty are parsed again.
parse_param_lem :
    (key value : Bytes)
    → find_equals key ≡ none
    → is_empty key ≡ false
    → is_empty value ≡ false
    → parse_param (key ++ 61 ∷ value) ≡ (key, value)
unfolding parse_param
parse_param_lem [] value e k v = absurd (ground arith)
parse_param_lem (c ∷ key) [] e k v = absurd (ground arith)
parse_param_lem (c ∷ key) (d ∷ value) e k v =
    let all = length-append (c ∷ key) (61 ∷ d ∷ value) in
    let inside : (suc (length key) == length ((c ∷ key) ++ 61 ∷ d ∷ value) - 1) ≡ false =
      ground (arith, all) in
    let first : (suc (length key) == 0) ≡ false = ground arith in
    rw (
      find_equals_append (c ∷ key) (d ∷ value) e,
      first,
      inside,
      take-append_length (c ∷ key) (61 ∷ d ∷ value),
      drop_behind (c ∷ key) (d ∷ value) 61,
    )

or_swap : (a b c : Bool) → (a || (b || c)) ≡ ((b || a) || c)
or_swap true true c = refl
or_swap true false c = refl
or_swap false true c = refl
or_swap false false c = refl

module _ (Int : Type 0) (atoll : Bytes → Int) where
  -- A parameter of an argument that the parser knows, as it can be written with an "=".
  pub record IsWritable (p : ArgumentParser Int atoll) (param : Bytes × Bytes) : Type 0 where
    pub known : (a : Argument Int atoll) × (find param.0 p.args ≡ some a)
    pub plain : find_equals param.0 ≡ none
    pub named : is_empty param.0 ≡ false
    pub given : is_empty param.1 ≡ false

  -- "--name=value"
  abbrev pub write_option : Bytes × Bytes → Bytes
  write_option (name, value) = 45 ∷ 45 ∷ name ++ 61 ∷ value

  abbrev pub assign_all : List (Bytes × Bytes) → Map Bytes → Map Bytes
  assign_all [] params = params
  assign_all ((name, value) ∷ more) params = assign_all more (assign name value params)

  set_name_lem :
      (p : ArgumentParser Int atoll) (param : Bytes × Bytes) (rest : List Bytes)
      (params : Map Bytes)
      → IsWritable p param
      → set_name Int atoll p false param.1 param.0 rest params
        ≡ some (rest, assign param.0 param.1 params)
  unfolding set_name
  set_name_lem p param rest params w =
      let (a, known) = w.known in
      let given : (is_boolean Int atoll a || not (is_empty param.1)) ≡ true =
        ground (arith, w.given) in
      rw (set_name, known, given)

  set_names_one :
      (p : ArgumentParser Int atoll) (param : Bytes × Bytes) (rest : List Bytes)
      (params : Map Bytes)
      → IsWritable p param
      → set_names Int atoll p false param.1 (param.0 ∷ []) rest params
        ≡ some (rest, assign param.0 param.1 params)
  unfolding set_names
  set_names_one p param rest params w = rw (set_names, set_name_lem p param rest params w)

  parse_option_lem :
      (p : ArgumentParser Int atoll) (name value : Bytes) (rest : List Bytes) (params : Map Bytes)
      → IsWritable p (name, value)
      → parse_option Int atoll p (45 ∷ name ++ 61 ∷ value) rest params
        ≡ some (rest, assign name value params)
  unfolding parse_option set_key
  parse_option_lem p name value rest params w = rw (
    parse_param_lem name value w.plain w.named w.given,
    w.named,
    set_names_one p (name, value) rest params w,
  )

  length-map : (options : List (Bytes × Bytes)) → length (map write_option options) ≡ length options
  length-map [] = refl
  length-map (option ∷ options) = ap suc (length-map options)

  parse_loop-write :
      (options : List (Bytes × Bytes)) (fuel : ℕ) (p : ArgumentParser Int atoll)
      (params : Map Bytes)
      → length options ≤ fuel
      → All (IsWritable p) options
      → parse_loop Int atoll fuel p 0 (map write_option options) params
        ≡ some (assign_all options params)
  unfolding parse_loop
  parse_loop-write [] fuel p params h w = refl
  parse_loop-write (option ∷ options) zero p params h w = absurd (omega arith)
  parse_loop-write ((name, value) ∷ options) (suc fuel) p params h (w, others) =
      rw (parse_option_lem p name value (map write_option options) params w)
        (parse_loop-write options fuel p (assign name value params) (omega arith) others)

  -- The argument of a parameter.
  abbrev Known : Map (Argument Int atoll) → Bytes × Bytes → Type 0
  Known args param = (a : Argument Int atoll) × (find param.0 args ≡ some a)

  Known-assign :
      (args : Map (Argument Int atoll)) (name : Bytes) (b : Argument Int atoll)
      (param : Bytes × Bytes)
      → Known args param
      → Known (assign name b args) param
  Known-assign args name b param (a, e) = elim (Bool-cases (str_eq param.0 name)) [
    | inl same ↦ (b, rw (find-assign name param.0 b args, same))
    | inr other ↦ (a, rw (find-assign name param.0 b args, other) e)
  ]

  All-Known-assign :
      (args : Map (Argument Int atoll)) (name : Bytes) (b : Argument Int atoll) (params : Map Bytes)
      → All (Known args) params
      → All (Known (assign name b args)) params
  All-Known-assign args name b [] k = tt
  All-Known-assign args name b (param ∷ params) (k, others) =
      (Known-assign args name b param k, All-Known-assign args name b params others)

  assign-Known :
      (args : Map (Argument Int atoll)) (name value : Bytes) (params : Map Bytes)
      → Known args (name, value)
      → All (Known args) params
      → All (Known args) (assign name value params)
  unfolding assign
  assign-Known args name value [] k ks = (k, tt)
  assign-Known args name value ((j, w) ∷ params) k (l, ks) = elim (Bool-cases (str_ltb name j)) [
    | inl before ↦ rw before (k, (l, ks))
    | inr not_before ↦ elim (Bool-cases (str_eq name j)) [
      | inl same ↦
          rw (not_before, same)
            ((k.0, ap (λ (t : Bytes). find t args) (sym ((str_eq_iff name j).0 same)) ∙ k.1), ks)
      | inr other ↦ rw (not_before, other) (l, assign-Known args name value params k ks)
    ]
  ]

  assign_all-Known :
      (p : ArgumentParser Int atoll) (options : List (Bytes × Bytes)) (params : Map Bytes)
      → All (IsWritable p) options
      → All (Known p.args) params
      → All (Known p.args) (assign_all options params)
  assign_all-Known p [] params w ks = ks
  assign_all-Known p ((name, value) ∷ options) params (w, others) ks =
      assign_all-Known p options (assign name value params) others
        (assign-Known p.args name value params w.known ks)

  -- Whether an argument is set, and whether a parameter is given.
  abbrev flag_of : Bytes → Map (Argument Int atoll) → Bool
  flag_of q args = elim (find q args) [ none ↦ false | some a ↦ a.is_set ]

  abbrev pub is_given : Bytes → Map Bytes → Bool
  is_given q params = elim (find q params) [ none ↦ false | some _ ↦ true ]

  flag_of-assign :
      (q name value : Bytes) (a : Argument Int atoll) (args : Map (Argument Int atoll))
      → flag_of q (assign name (set_value Int atoll value a) args)
        ≡ (str_eq q name || flag_of q args)
  flag_of-assign q name value a args = elim (Bool-cases (str_eq q name)) [
    | inl same ↦ rw (flag_of, find-assign name q (set_value Int atoll value a) args, same)
    | inr other ↦ rw (flag_of, find-assign name q (set_value Int atoll value a) args, other)
  ]

  is_given_cons :
      (q name value : Bytes) (params : Map Bytes)
      → is_given q ((name, value) ∷ params) ≡ (str_eq q name || is_given q params)
  unfolding find
  is_given_cons q name value params = elim (Bool-cases (str_eq q name)) [
    | inl same ↦ rw (is_given, same)
    | inr other ↦ rw (is_given, other)
  ]

  flag_of_none :
      (q : Bytes) (args : Map (Argument Int atoll))
      → flag_of q args ≡ (is_given q [] || flag_of q args)
  unfolding find
  flag_of_none q args = refl

  set_params_lem :
      (params : Map Bytes) (args : Map (Argument Int atoll))
      → All (Known args) params
      → ((set_params Int atoll params args).0 ≡ true)
        × ((q : Bytes)
            → flag_of q (set_params Int atoll params args).1
              ≡ (is_given q params || flag_of q args))
  unfolding set_params
  set_params_lem [] args k = (refl, λ q. flag_of_none q args)
  set_params_lem ((name, value) ∷ params) args ((a, e), others) =
      let args' = assign name (set_value Int atoll value a) args in
      let (found, flags) =
        set_params_lem params args'
          (All-Known-assign args name (set_value Int atoll value a) params others) in
      rw (set_params, e)
        (
          found,
          λ q.
              flags q
              ∙ rw (flag_of-assign q name value a args, is_given_cons q name value params)
                  (or_swap (is_given q params) (str_eq q name) (flag_of q args)),
        )

  -- What an argument makes of a text: a flag is set by nothing, "true" and "1" only.
  abbrev pub expected_value : Value Int atoll → Bytes → Value Int atoll
  expected_value (text _) given = text given
  expected_value (number _) given = number (atoll given)
  expected_value (flag _) given =
      flag (str_eq given [] || (str_eq given (codes "true") || str_eq given (codes "1")))

  -- The value that an argument has.
  abbrev pub held_value : Bytes → Map (Argument Int atoll) → Option (Value Int atoll)
  held_value q args = elim (find q args) [ none ↦ none | some a ↦ some a.value ]

  -- The value that an argument has after the parameters: its own, or that of the text it is given.
  abbrev pub parsed_value : Bytes → Map Bytes → Map (Argument Int atoll) → Option (Value Int atoll)
  parsed_value q params args = elim (find q args) [
    | none ↦ none
    | some a ↦ elim (find q params) [
      | none ↦ some a.value
      | some given ↦ some (expected_value a.value given)
    ]
  ]

  set_value-value :
      (given : Bytes) (a : Argument Int atoll)
      → (set_value Int atoll given a).value ≡ expected_value a.value given
  unfolding str_compare
  set_value-value given a = value_lem a.value given
    where
      value_lem :
          (v : Value Int atoll) (given : Bytes)
          → elim v as (λ x. Value Int atoll) [
            | text _ ↦ text given
            | number _ ↦ number (atoll given)
            | flag _ ↦
                flag (is_empty given || (str_eq given (codes "true") || str_eq given (codes "1")))
          ]
            ≡ expected_value v given
      value_lem (text _) given = refl
      value_lem (number _) given = refl
      value_lem (flag _) [] = refl
      value_lem (flag _) (c ∷ given) = refl

  set_params-values :
      (params : Map Bytes) (args : Map (Argument Int atoll))
      → IsOrdered params
      → All (Known args) params
      → (q : Bytes) → held_value q (set_params Int atoll params args).1 ≡ parsed_value q params args
  unfolding set_params find
  set_params-values [] args o k q = elim (Option-cases (find q args)) [
    | inl e ↦ rw (held_value, parsed_value, e)
    | inr (a, e) ↦ rw (held_value, parsed_value, e)
  ]
  set_params-values ((name, value) ∷ params) args (above, o) ((a, e), others) q =
      let b = set_value Int atoll value a in
      let args' = assign name b args in
      let ih = set_params-values params args' o (All-Known-assign args name b params others) q in
      rw (set_params, e)
        (ih ∙ elim (Bool-cases (str_eq q name)) [
          | inl same ↦
              let equal : q ≡ name = (str_eq_iff q name).0 same in
              let absent : find q params ≡ none = rw equal (find-Above name params above) in
              let here : find q args' ≡ some b = find-assign name q b args ∙ rw same in
              let had : find q args ≡ some a = rw equal e in
              rw (parsed_value, here, absent, parsed_value, had, find, same)
                (ap (λ (t : Value Int atoll). some t) (set_value-value value a))
          | inr other ↦
              let elsewhere : find q args' ≡ find q args = find-assign name q b args ∙ rw other in
              let skip : find q ((name, value) ∷ params) ≡ find q params = rw (find, other) in
              elim (Option-cases (find q args)) [
                | inl had ↦ rw (parsed_value, elsewhere, had)
                | inr (x, had) ↦ rw (parsed_value, elsewhere, had, skip)
              ]
        ])

  parse_lem :
      (argv : List Bytes) (params : Map Bytes) (p : ArgumentParser Int atoll)
      → parse_params Int atoll p argv ≡ some params
      → (let (found, args) = set_params Int atoll params p.args in
          parse Int atoll argv p
          ≡ (found && validate_required Int atoll args, record p { args = args }))
  unfolding parse
  parse_lem argv params p e = rw (parse, e)

  parse_params-write :
      (p : ArgumentParser Int atoll) (options : List (Bytes × Bytes))
      → All (IsWritable p) options
      → parse_params Int atoll p (map write_option options) ≡ some (assign_all options [])
  unfolding parse_params
  parse_params-write p options w =
      parse_loop-write options (length (map write_option options)) p []
        (omega (arith, length-map options)) w

  assign_all-IsOrdered :
      (options : List (Bytes × Bytes)) (params : Map Bytes)
      → IsOrdered params
      → IsOrdered (assign_all options params)
  assign_all-IsOrdered [] params o = o
  assign_all-IsOrdered ((name, value) ∷ options) params o =
      assign_all-IsOrdered options (assign name value params) (assign-IsOrdered name value params o)

  -- Options of arguments that the parser knows, with names that have no "=" and are not empty, and
  -- values that are not empty, each written with an "=": `Parse` takes them all. It succeeds exactly
  -- if no required argument is then left unset. An argument is set if it was, or is given; it has
  -- the value that its last option gives it, and its old one if there is none: a text as it is, a
  -- number by `atoll`, and a flag that is set by nothing, "true" and "1" only.
  pub parse-write_options :
      (p : ArgumentParser Int atoll) (options : List (Bytes × Bytes))
      → All (IsWritable p) options
      → let (success, p') = parse Int atoll (map write_option options) p in
        (success ≡ validate_required Int atoll p'.args)
        × ((q : Bytes)
            → (is_set Int atoll q p' ≡ (is_given q (assign_all options []) || is_set Int atoll q p))
              × (held_value q p'.args ≡ parsed_value q (assign_all options []) p.args))
  unfolding is_set
  parse-write_options p options w =
      let params = assign_all options [] in
      let known = assign_all-Known p options [] w tt in
      let (found, flags) = set_params_lem params p.args known in
      let values = set_params-values params p.args (assign_all-IsOrdered options [] tt) known in
      rw (parse_lem (map write_option options) params p (parse_params-write p options w), found)
        (refl, λ q. (flags q, values q))
