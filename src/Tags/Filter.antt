-- ===== src/Tags/Filter.antt =====
-- The stamp filter: GetStrTag of cmdline_loggrep/SearchAlgorithm.cpp for the query, getType of
-- compression/util.cpp for the text that contains it.
use Prim.Native.Nat.{bit_or}
use log_grep.Prelude.{
  ℕ, ◌<◌, ◌≡◌, refl, Bool, true, false, ◌||◌, Bool-cases, inl, inr, [], ◌∷◌, ◌++◌, arith,
}
use log_grep.Bytes.{Bytes}
use log_grep.Tags.{get_char_tag, get_str_tag, get_type_c, get_type, tag_from, str_is_delim}
use log_grep.Tags.Bits.{
  bit_or-lt, within, contains, IsClass, within_of_classes, Covers, Covers-zero,
}

get_char_tag-lt : (c : ℕ) → get_char_tag c < 64
unfolding get_char_tag
get_char_tag-lt c = ground arith

-- The compressor and the query engine class every character alike.
pub get_type_c-get_char_tag : (c : ℕ) → get_type_c c ≡ get_char_tag c
unfolding get_type_c get_char_tag
get_type_c-get_char_tag c = refl

abbrev any : (ℕ → Bool) → Bytes → Bool
any f [] = false
any f (c ∷ s) = f c || any f s

any-append : (f : ℕ → Bool) (s t : Bytes) → any f (s ++ t) ≡ (any f s || any f t)
any-append f [] t = refl
any-append f (c ∷ s) t = ground (arith, any-append f s t)

tag_from-lt : (tag : ℕ) (s : Bytes) → tag < 64 → tag_from get_char_tag tag s < 64
unfolding tag_from
tag_from-lt tag [] h = h
tag_from-lt tag (c ∷ s) h =
    tag_from-lt (bit_or tag (get_char_tag c)) s
      (bit_or-lt tag (get_char_tag c) h (get_char_tag-lt c))

contains-tag_from :
    (k tag : ℕ) (s : Bytes)
    → IsClass k
    → tag < 64
    → contains (tag_from get_char_tag tag s) k
      ≡ (contains tag k || any (λ c. contains (get_char_tag c) k) s)
unfolding tag_from
contains-tag_from k tag [] h b = ground arith
contains-tag_from k tag (c ∷ s) h b = ground (
  arith,
  contains-tag_from k (bit_or tag (get_char_tag c)) s h
      (bit_or-lt tag (get_char_tag c) b (get_char_tag-lt c)),
  h tag (get_char_tag c) b (get_char_tag-lt c),
)

get_type-tag_from : (s : Bytes) → get_type s ≡ tag_from get_char_tag 0 s
unfolding get_type get_type_c get_char_tag
get_type-tag_from s = refl

tag_from-Covers :
    (a q b : Bytes) → Covers (tag_from get_char_tag 0 q) (tag_from get_char_tag 0 (a ++ (q ++ b)))
tag_from-Covers a q b k h e = ground (
  arith,
  contains-tag_from k 0 q h (omega arith),
  contains-tag_from k 0 (a ++ (q ++ b)) h (omega arith),
  any-append (λ c. contains (get_char_tag c) k) a (q ++ b),
  any-append (λ c. contains (get_char_tag c) k) q b,
)

pub get_type-lt : (s : Bytes) → get_type s < 64
get_type-lt s = rw get_type-tag_from (tag_from-lt 0 s (omega arith))

pub get_str_tag-lt : (s : Bytes) → get_str_tag s < 64
unfolding get_str_tag
get_str_tag-lt s = ground (arith, tag_from-lt 0 s (omega arith))

-- A stored text has the classes of each query in it.
pub get_str_tag-Covers : (a q b : Bytes) → Covers (get_str_tag q) (get_type (a ++ (q ++ b)))
unfolding get_str_tag
get_str_tag-Covers a q b = elim (Bool-cases (str_is_delim q)) [
  | inl e ↦ rw (e, get_type-tag_from) (Covers-zero _ (tag_from-lt 0 (a ++ (q ++ b)) (omega arith)))
  | inr e ↦ rw (e, get_type-tag_from) (tag_from-Covers a q b)
]

-- Whatever the query `q` and the stored text around it, the stamp that GetStrTag gives the query
-- passes the test `(qTag & tag) == qTag` against the stamp that getType stored for the text.
pub get_str_tag-within : (a q b : Bytes) → within (get_str_tag q) (get_type (a ++ (q ++ b))) ≡ true
get_str_tag-within a q b =
    within_of_classes _ _ (get_str_tag-lt q) (get_type-lt (a ++ (q ++ b)))
      (get_str_tag-Covers a q b)
