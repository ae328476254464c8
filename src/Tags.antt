-- ===== src/Tags.antt =====
-- The stamps: which classes of characters a string has. cmdline_loggrep/SearchAlgorithm.cpp
-- (StrIsDelim, GetCharTag, GetStrTag, GetSegmentType) for queries, compression/util.cpp (getTypeC,
-- getType) for stored columns.
pub mod Bits
pub mod Filter
use Prim.Native.Nat.{bit_or, bit_and}
use log_grep.Prelude.{
  ℕ, zero, suc, ◌+◌, ◌-◌, ◌*◌, ◌%◌, ◌^◌, ◌<◌, Bool, true, false, ◌&&◌, ◌||◌, ◌==◌, leb, ltb,
  if◌then◌else◌, List, [], ◌∷◌, length, take, drop,
}
use log_grep.Bytes.{Bytes, at, codes}

-- TOKEN
abbrev pub token : Bytes
token = 32 ∷ 9 ∷ 58 ∷ 61 ∷ 44 ∷ []

abbrev pub is_in : ℕ → Bytes → Bool
is_in c [] = false
is_in c (d ∷ ds) = if d == c then true else is_in c ds

-- StrIsDelim
unfoldable pub str_is_delim : Bytes → Bool
str_is_delim s = length s == 1 && is_in (at s 0) token

-- GetCharTag. A byte above 127 is a negative char, and takes the last branch too.
unfoldable pub get_char_tag : ℕ → ℕ
get_char_tag c =
    if leb b'0' c && leb c b'9'
    then 1
    else if leb b'A' c && leb c b'F'
    then 2
    else if leb b'a' c && leb c b'f'
    then 4
    else if leb b'G' c && leb c b'Z'
    then 8
    else if leb b'g' c && leb c b'z'
    then 16
    else 32

-- the loop of GetStrTag, and of getType
unfoldable pub tag_from : (ℕ → ℕ) → ℕ → Bytes → ℕ
tag_from f tag [] = tag
tag_from f tag (c ∷ s) = tag_from f (bit_or tag (f c)) s

unfoldable pub get_str_tag : Bytes → ℕ
unfolding str_is_delim tag_from get_char_tag
get_str_tag s = if str_is_delim s then 0 else tag_from get_char_tag 0 s

-- getTypeC and getType of compression/util.cpp
unfoldable pub get_type_c : ℕ → ℕ
get_type_c c =
    if leb b'0' c && leb c b'9'
    then 1
    else if leb b'A' c && leb c b'F'
    then 2
    else if leb b'a' c && leb c b'f'
    then 4
    else if leb b'G' c && leb c b'Z'
    then 8
    else if leb b'g' c && leb c b'z'
    then 16
    else 32

unfoldable pub get_type : Bytes → ℕ
unfolding tag_from get_type_c
get_type s = tag_from get_type_c 0 s

pub data SegmentType : Type 0 where
  const : SegmentType
  var : ℕ → SegmentType
  delim : SegmentType

-- The digits between `<V` and `>`, as the bit pattern of an `int`. The source does not check that
-- they are digits.
unfoldable pub seg_value : ℕ → Bytes → ℕ
seg_value v [] = v
seg_value v (c ∷ s) = seg_value ((v * 10 + c + 2 ^ 32 - b'0') % 2 ^ 32) s

-- GetSegmentType; the value of a variable is what goes out through `segValue`.
unfoldable pub get_segment_type : Bytes → SegmentType
unfolding str_is_delim seg_value
get_segment_type s =
    if str_is_delim s
    then delim
    else if ltb 3 (length s) && at s 0 == b'<' && at s 1 == b'V' && at s (length s - 1) == b'>'
    then var (seg_value 0 (take (length s - 3) (drop 2 s)))
    else const
