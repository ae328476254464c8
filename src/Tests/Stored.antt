-- ===== src/Tests/Stored.antt =====
-- The loops over the values of a variable, and the result on them, at inputs.
use log_grep.Prelude.{◌≡◌, refl, true, some, List, [], ◌∷◌, ◌++◌, map, get_elem?}
use log_grep.Tags.{get_type, get_str_tag}
use log_grep.Tags.Bits.{within}
use log_grep.Stored.Stamps.{IsShort}
use log_grep.Stored.Marks.{split_values-within}
use log_grep.Bytes.{Bytes, codes}
use log_grep.Stored.{
  Kind, SubPattern, constant, fixed, variable, new_sub_pattern, extract, extract_all, split_value,
  split_values,
}
use log_grep.Stored.Rows.{line_of}
use log_grep.Stored.Restore.{restore_value, split_values-restore_value}

-- "blk_", three bytes, a part up to ".", ".", and the rest
abbrev pool : List SubPattern
pool =
    new_sub_pattern (constant (codes "blk_") 4)
    ∷ new_sub_pattern (fixed 3)
    ∷ new_sub_pattern (variable (codes "."))
    ∷ new_sub_pattern (constant (codes ".") 1)
    ∷ new_sub_pattern (variable [])
    ∷ []

abbrev values : List Bytes
values = codes "blk_123ab.log" ∷ codes "none" ∷ codes "blk_777.x" ∷ []

split_values-restore_value_example :
    restore_value 2 (split_values pool 0 [] values) ≡ some (codes "blk_777.x")
unfolding new_sub_pattern
split_values-restore_value_example =
    split_values-restore_value pool values
      ((refl, tt, (tt, refl, (tt, refl, (refl, tt, (tt, refl, tt)))))) refl 2 (codes "blk_777.x")
      refl

-- The second value is an outlier.
outlier_test : (split_values pool 0 [] values).1 ≡ ((1, codes "none") ∷ [])
unfolding split_values split_value extract_all extract new_sub_pattern
outlier_test = refl

-- Patterns that end before the value does make no outlier of it, and what is left is lost.
abbrev closed : List SubPattern
closed = new_sub_pattern (fixed 3) ∷ []

closed_success : (split_value closed (codes "abcd")).1 ≡ true
unfolding split_value new_sub_pattern
closed_success = refl

closed_row : line_of 0 (split_value closed (codes "abcd")).0 ≡ some (codes "abc")
unfolding split_value line_of new_sub_pattern
closed_row = refl

abbrev kinds : List Kind
kinds = constant (codes "blk_") 4 ∷ fixed 3 ∷ variable [] ∷ []

-- The open part after the one value, whose stamp has the classes of lower case letters and of ".".
abbrev rest_part : SubPattern
rest_part = record {
  kind = variable [];
  data_type = 52;
  max_len = 7;
  ready_add = codes "ab.log";
  rows = codes "ab.log" ∷ [];
}

rest_part_test :
    get_elem? (split_values (map new_sub_pattern kinds) 0 [] (codes "blk_123ab.log" ∷ [])).0 2
    ≡ some rest_part
unfolding split_values split_value extract_all extract new_sub_pattern get_type
rest_part_test = refl

split_values-within_example :
    (within (get_str_tag (codes "log")) rest_part.data_type ≡ true)
    × IsShort rest_part.kind rest_part.max_len (codes "ab." ++ (codes "log" ++ []))
split_values-within_example =
    split_values-within kinds (codes "blk_123ab.log" ∷ []) 2 rest_part 0 (codes "ab.") (codes "log")
      [] rest_part_test refl
