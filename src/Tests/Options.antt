-- ===== src/Tests/Options.antt =====
-- A command line (src/bdblob/ArgumentParser.cpp).
use drive.Arguments.{
  ArgumentParser, text, flag, register, parse, is_set, validate_required, find_equals,
}
use drive.Arguments.Options.{
  IsWritable, held_value, parsed_value, write_option, assign_all, is_given, parse-write_options,
}
use drive.OrderedMap.{find, assign}
use drive.Prelude.{ℕ, ◌≡◌, refl, true, false, ◌||◌, List, [], ◌∷◌, map, length}
use drive.Prelude.Texts.{Bytes, codes, str_compare}

abbrev empty_parser : ArgumentParser ℕ length
empty_parser = record { abbrevs = []; args = []; anonymouse = [] }

abbrev parser : ArgumentParser ℕ length
parser = record {
  abbrevs = (110, codes "name") ∷ (118, codes "v") ∷ [];
  args =
      (
        codes "name",
        record {
          value = text [];
          is_set = false;
          required = true;
          anonymouse = true;
          abbreviation = 110;
          description = codes "a name";
        },
      )
      ∷ (
        codes "v",
        record {
          value = flag false;
          is_set = false;
          required = false;
          anonymouse = false;
          abbreviation = 118;
          description = [];
        },
      )
      ∷ [];
  anonymouse = codes "name" ∷ [];
}

registered :
    register ℕ length
      (codes "v")
      false
      118
      []
      false
      (flag false)
      (register ℕ length (codes "name") true 110 (codes "a name") true (text []) empty_parser)
    ≡ record parser { abbrevs = (118, codes "v") ∷ (110, codes "name") ∷ [] }
unfolding register assign str_compare
registered = refl

abbrev options : List (Bytes × Bytes)
options = (codes "name", codes "x=y") ∷ (codes "v", codes "1") ∷ []

name-IsWritable : IsWritable ℕ length parser (codes "name", codes "x=y")
unfolding find str_compare find_equals
name-IsWritable = record { known = (_, refl); plain = refl; named = refl; given = refl }

v-IsWritable : IsWritable ℕ length parser (codes "v", codes "1")
unfolding find str_compare find_equals
v-IsWritable = record { known = (_, refl); plain = refl; named = refl; given = refl }

parse-write_options_example :
    let (success, p) = parse ℕ length (map (write_option ℕ length) options) parser in
    (success ≡ validate_required ℕ length p.args)
    × ((q : Bytes)
        → (is_set ℕ length q p
            ≡ (is_given ℕ length q (assign_all ℕ length options []) || is_set ℕ length q parser))
          × (held_value ℕ length q p.args
              ≡ parsed_value ℕ length q (assign_all ℕ length options []) parser.args))
parse-write_options_example =
    parse-write_options ℕ length parser options (name-IsWritable, (v-IsWritable, tt))
