-- ===== src/Arguments.antt =====
-- src/bdblob/ArgumentParser.cpp, ArgumentParser.h and Argument.h: the options of a command line.
pub mod Options
pub mod Fuel
use drive.OrderedMap.{Map, find, assign}
use drive.Prelude.{
  ℕ, zero, suc, ◌+◌, ◌-◌, Bool, true, false, not, ◌&&◌, ◌||◌, Option, none, some, List, [], ◌∷◌,
  ◌++◌, ltb, leb, ◌==◌, if◌then◌else◌, length, take, drop,
}
use drive.Prelude.Texts.{Bytes, codes, str_eq}

abbrev pub is_empty : Bytes → Bool
is_empty [] = true
is_empty (_ ∷ _) = false

-- `find_first_of('=')`
unfoldable pub find_equals : Bytes → Option ℕ
find_equals [] = none
find_equals (c ∷ cs) =
    let later = find_equals cs in
    if c == 61 then some 0 else elim later [ none ↦ none | some n ↦ some (suc n) ]

-- `parseParam`: key and value, both empty at first.
unfoldable pub parse_param : Bytes → Bytes × Bytes
unfolding find_equals
parse_param input = if is_empty input then ([], []) else elim (find_equals input) [
  | none ↦ (input, [])
  | some n ↦
      if n == 0 || n == length input - 1 then ([], []) else (take n input, drop (suc n) input)
]

abbrev pub find_abbrev : ℕ → List (ℕ × Bytes) → Option Bytes
find_abbrev c [] = none
find_abbrev c ((d, name) ∷ abbrevs) = if c == d then some name else find_abbrev c abbrevs

-- Whether the first character is a dash.
abbrev pub is_option : Bytes → Bool
is_option [] = false
is_option (c ∷ cs) = c == 45

abbrev pub nth : List Bytes → ℕ → Option Bytes
nth [] n = none
nth (x ∷ xs) zero = some x
nth (x ∷ xs) (suc n) = nth xs n

-- `Int` stands for `int64_t`, and `atoll` is the C library's.
module _ (Int : Type 0) (atoll : Bytes → Int) where
  pub data Value : Type 0 where
    text : Bytes → Value
    number : Int → Value
    flag : Bool → Value

  -- `ArgumentBase` with the value of its `Argument`, whose constructor is its type.
  pub record Argument : Type 0 where
    pub value : Value
    pub is_set : Bool
    pub required : Bool
    pub anonymouse : Bool
    pub abbreviation : ℕ
    pub description : Bytes

  abbrev pub is_boolean : Argument → Bool
  is_boolean a = elim a.value [ text _ ↦ false | number _ ↦ false | flag _ ↦ true ]

  pub record ArgumentParser : Type 0 where
    pub abbrevs : List (ℕ × Bytes)
    pub args : Map Argument
    pub anonymouse : List Bytes

  -- `Register`, for a name and an abbreviation that are new; 0 stands for no abbreviation.
  unfoldable pub register :
      Bytes → Bool → ℕ → Bytes → Bool → Value → ArgumentParser → ArgumentParser
  register name required abbreviation description anonymouse default_value p = record {
    abbrevs = if abbreviation == 0 then p.abbrevs else (abbreviation, name) ∷ p.abbrevs;
    args =
        assign name
          (record {
            value = default_value;
            is_set = false;
            required = required;
            anonymouse = anonymouse;
            abbreviation = abbreviation;
            description = description;
          })
          p.args;
    anonymouse = if anonymouse then p.anonymouse ++ name ∷ [] else p.anonymouse;
  }

  -- The names of the letters of `key`.
  unfoldable pub expand : ArgumentParser → Bytes → Option (List Bytes)
  expand p [] = some []
  expand p (c ∷ cs) =
      let others = expand p cs in
      elim (find_abbrev c p.abbrevs) [
        | none ↦ none
        | some name ↦ elim others [ none ↦ none | some names ↦ some (name ∷ names) ]
      ]

  -- One round of the loop over names: what is left of the command line, and the parameters.
  unfoldable pub set_name :
      ArgumentParser
      → Bool
      → Bytes
      → Bytes
      → List Bytes
      → Map Bytes
      → Option (List Bytes × Map Bytes)
  set_name p several value name rest params = elim (find name p.args) [
    | none ↦ none
    | some a ↦
        if several && not (is_boolean a)
        then none
        else if is_boolean a || not (is_empty value)
        then some (rest, assign name value params)
        else elim rest [ [] ↦ none | next ∷ rest' ↦ some (rest', assign name next params) ]
  ]

  unfoldable pub set_names :
      ArgumentParser
      → Bool
      → Bytes
      → List Bytes
      → List Bytes
      → Map Bytes
      → Option (List Bytes × Map Bytes)
  unfolding set_name
  set_names p several value [] rest params = some (rest, params)
  set_names p several value (name ∷ names) rest params =
      elim (set_name p several value name rest params) [
        | none ↦ none
        | some (rest', params') ↦ set_names p several value names rest' params'
      ]

  -- The parameters of a key and a value.
  unfoldable pub set_key :
      ArgumentParser
      → Bool
      → Bytes
      → Bytes
      → List Bytes
      → Map Bytes
      → Option (List Bytes × Map Bytes)
  unfolding expand set_names
  set_key p is_abbrev key value rest params =
      if is_empty key || is_abbrev && (ltb 1 (length key) && not (is_empty value))
      then none
      else elim (if is_abbrev then expand p key else some (key ∷ [])) [
        | none ↦ none
        | some names ↦ set_names p (ltb 1 (length names)) value names rest params
      ]

  -- An option, behind its dash.
  unfoldable pub parse_option :
      ArgumentParser → Bytes → List Bytes → Map Bytes → Option (List Bytes × Map Bytes)
  unfolding parse_param set_key
  parse_option p option rest params =
      let is_abbrev = not (is_option option) in
      let (key, value) = parse_param (if is_abbrev then option else drop 1 option) in
      set_key p is_abbrev key value rest params

  -- The loop of `Parse` over the rest of the command line; each round takes at least one of `fuel`.
  unfoldable pub parse_loop : ℕ → ArgumentParser → ℕ → List Bytes → Map Bytes → Option (Map Bytes)
  unfolding parse_option
  parse_loop fuel p index [] params = some params
  parse_loop zero p index (cur ∷ rest) params = none
  parse_loop (suc fuel) p index (cur ∷ rest) params =
      if is_option cur
      then elim (parse_option p (drop 1 cur) rest params) [
        | none ↦ none
        | some (rest', params') ↦ parse_loop fuel p index rest' params'
      ]
      else elim (nth p.anonymouse index) [
        | none ↦ none
        | some name ↦ parse_loop fuel p (suc index) rest (assign name cur params)
      ]

  -- `Parse` into a map, without the name of the program.
  unfoldable pub parse_params : ArgumentParser → List Bytes → Option (Map Bytes)
  unfolding parse_loop
  parse_params p argv = parse_loop (length argv) p 0 argv []

  abbrev pub set_value : Bytes → Argument → Argument
  set_value value a = record a {
    value = elim a.value [
      | text _ ↦ text value
      | number _ ↦ number (atoll value)
      | flag _ ↦ flag (is_empty value || (str_eq value (codes "true") || str_eq value (codes "1")))
    ];
    is_set = true;
  }

  -- The loop of `Parse` over the parameters.
  unfoldable pub set_params : Map Bytes → Map Argument → Bool × Map Argument
  set_params [] args = (true, args)
  set_params ((name, value) ∷ params) args = elim (find name args) [
    | none ↦ (false, args)
    | some a ↦ set_params params (assign name (set_value value a) args)
  ]

  unfoldable pub validate_required : Map Argument → Bool
  validate_required [] = true
  validate_required ((name, a) ∷ args) =
      let others = validate_required args in if a.required && not a.is_set then false else others

  unfoldable pub parse : List Bytes → ArgumentParser → Bool × ArgumentParser
  unfolding parse_params set_params validate_required
  parse argv p = elim (parse_params p argv) [
    | none ↦ (false, p)
    | some params ↦
        let (found, args) = set_params params p.args in
        (found && validate_required args, record p { args = args })
  ]

  unfoldable pub is_set : Bytes → ArgumentParser → Bool
  is_set name p = elim (find name p.args) [ none ↦ false | some a ↦ a.is_set ]
