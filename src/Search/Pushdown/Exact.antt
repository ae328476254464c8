-- ===== src/Search/Pushdown/Exact.antt =====
-- The pruning searches of cmdline_loggrep/SearchAlgorithm.cpp as filters of a set of lines.
use log_grep.Prelude.{
  ℕ, ◌+◌, ◌-◌, ◌*◌, ◌≤◌, ◌≡◌, refl, ◌⊎◌, Bool, true, false, ◌&&◌, ◌||◌, ◌==◌, ltb, Bool-cases, inl,
  inr, some, List, [], ◌∷◌, length, ◌∙◌, arith,
}
use log_grep.BitMap.{BitMap, size_is, be_size_ful}
use log_grep.BitMap.Sets.{has, Below, kept, has-append}
use log_grep.BitMap.Holds.{Holds}
use log_grep.BitMap.Update.{add, union_at-Holds}
use log_grep.BitMap.Filter.{compact-Holds}
use log_grep.Bytes.{Bytes, at}
use log_grep.Search.QueryType.{QueryType, align_full, align_right}
use log_grep.Search.Compare.Laws.{
  stands, some_pattern, seq_matching_align_right-stands, seq_matching_multi_ful-some_pattern,
}
use log_grep.Search.Fixed.{Outcome}
use log_grep.Search.Pushdown.{
  bm_fixed_pushdown, line_test, line_right, bm_fixed_pushdown_muti_ful, line_multi,
  bm_fixed_pushdown_ref_map, ref_test, union_if,
}

-- The search succeeds, returns the size of its bitmap, and that holds those of `xs` that `S` picks, in
-- the order of `xs`.
abbrev pub Keeps : (ℕ → Bool) → List ℕ → Outcome → Type 0
Keeps S xs r = (b : BitMap) × (r ≡ some (b.size, b)) × Holds b (kept S xs)

-- the line `e` ends with the pattern
abbrev pub ends : (ℕ → ℕ) → Bytes → ℕ → ℕ → Bool
ends text p line_len e =
    stands (at p) (λ k. text (e * line_len + k)) (line_len - length p) (length p)

line_right-ends :
    (text : ℕ → ℕ) (s_len : ℕ) (p : Bytes) (line_len e : ℕ)
    → length p ≤ line_len
    → line_right text s_len p line_len e ≡ ends text p line_len e
unfolding line_right
line_right-ends text s_len p line_len e h =
    ground (arith, seq_matching_align_right-stands (λ k. text (e * line_len + k)) line_len p)

kept-eq : (S T : ℕ → Bool) (xs : List ℕ) → ((e : ℕ) → S e ≡ T e) → kept S xs ≡ kept T xs
kept-eq S T [] h = refl
kept-eq S T (x ∷ xs) h = ground (arith, h x, kept-eq S T xs h)

-- BM_Fixed_Pushdown for right and full alignment, on a bitmap that is neither empty nor full: the
-- in-place loop keeps exactly the lines that end with the pattern.
pub bm_fixed_pushdown-Keeps :
    (text : ℕ → ℕ) (s_len : ℕ) (p : Bytes) (line_len : ℕ) (type : QueryType) {b : BitMap}
    {xs : List ℕ}
    → Holds b xs
    → size_is b.size 0 ≡ false
    → be_size_ful b ≡ false
    → length p ≤ line_len
    → (type ≡ align_right) ⊎ (type ≡ align_full)
    → Keeps (ends text p line_len) xs (bm_fixed_pushdown text s_len p line_len b type)
unfolding bm_fixed_pushdown line_test
bm_fixed_pushdown-Keeps text s_len p line_len type {b} {xs} v z u h t =
    let (b', q, w, _) = compact-Holds (line_right text s_len p line_len) v in
    let short : ltb line_len (length p) ≡ false = ground arith in
    let same : kept (line_right text s_len p line_len) xs ≡ kept (ends text p line_len) xs =
      kept-eq (line_right text s_len p line_len) (ends text p line_len) xs
        (λ e. line_right-ends text s_len p line_len e h) in
    (
      b',
      elim t [ inl r ↦ rw (r, z, u, short, q) refl | inr r ↦ rw (r, z, u, short, q) refl ],
      rw (← same) w,
    )

-- BM_Fixed_Pushdown_MutiFul on a bitmap that is neither empty nor full keeps exactly the lines that
-- are one of the patterns as a whole.
pub bm_fixed_pushdown_muti_ful-Keeps :
    (text : ℕ → ℕ) (s_len : ℕ) (patterns : Bytes) (pat_cnt line_len : ℕ) {b : BitMap} {xs : List ℕ}
    → Holds b xs
    → size_is b.size 0 ≡ false
    → be_size_ful b ≡ false
    → Keeps
        (λ e. some_pattern (λ k. text (e * line_len + k)) line_len patterns pat_cnt 0)
        xs
        (bm_fixed_pushdown_muti_ful text s_len patterns pat_cnt b line_len)
unfolding bm_fixed_pushdown_muti_ful line_multi
bm_fixed_pushdown_muti_ful-Keeps text s_len patterns pat_cnt line_len {b} {xs} v z u =
    let (b', q, w, _) = compact-Holds (line_multi text line_len patterns pat_cnt) v in
    let same =
      kept-eq (line_multi text line_len patterns pat_cnt)
        (λ e. some_pattern (λ k. text (e * line_len + k)) line_len patterns pat_cnt 0) xs
        (λ e.
          seq_matching_multi_ful-some_pattern (λ k. text (e * line_len + k)) line_len patterns
            pat_cnt) in
    (b', rw (z, u, q) refl, rw (← same) w)

union_if-Holds :
    (keep : ℕ → Bool) (es : List ℕ) {b : BitMap} {xs : List ℕ}
    → Holds b xs
    → Below b.total_size es
    → (b' : BitMap) × (ys : List ℕ) × (union_if keep es b ≡ some b')
      × Holds b' ys
      × ((q : ℕ) → has ys q ≡ (has xs q || (keep q && has es q)))
unfolding union_if
union_if-Holds keep [] {b} {xs} v h = (b, xs, refl, v, λ q. ground arith)
union_if-Holds keep (e ∷ es) {b} {xs} v h = elim (Bool-cases (keep e)) [
  | inr k ↦
      let (b', ys, q, w, m) = union_if-Holds keep es v h.1 in
      (b', ys, rw k q, w, λ p. m p ∙ drop_entry p k)
  | inl k ↦
      let (b₁, q₁, w₁, t₁) = union_at-Holds e v h.0 in
      let (b', ys, q, w, m) = union_if-Holds keep es w₁ (rw t₁ h.1) in
      (b', ys, rw (k, q₁) q, w, λ p. m p ∙ add_entry p k)
]
  where
    drop_entry :
        (p : ℕ)
        → keep e ≡ false
        → (has xs p || (keep p && has es p)) ≡ (has xs p || (keep p && has (e ∷ es) p))
    drop_entry p k = elim (Bool-cases (e == p)) [
      | inl y ↦ let y' : e ≡ p = ground arith in rw (← y') (ground arith)
      | inr y ↦ ground arith
    ]

    add_entry :
        (p : ℕ)
        → keep e ≡ true
        → (has (add e xs) p || (keep p && has es p)) ≡ (has xs p || (keep p && has (e ∷ es) p))
    add_entry p k = elim (Bool-cases (e == p)) [
      | inl y ↦
          let y' : e ≡ p = ground arith in rw (← y') (ground (arith, has-append xs (e ∷ []) e))
      | inr y ↦ ground (arith, has-append xs (e ∷ []) p)
    ]

-- BM_Fixed_Pushdown_RefMap for right and full alignment, with a second bitmap over the same lines that
-- is neither empty nor full: the first one gains exactly the lines of the second that end with the
-- pattern.
pub bm_fixed_pushdown_ref_map-Adds :
    (text : ℕ → ℕ) (s_len : ℕ) (p : Bytes) (line_len : ℕ) (type : QueryType) {b ref : BitMap}
    {xs es : List ℕ}
    → Holds b xs
    → Holds ref es
    → ref.total_size ≡ b.total_size
    → size_is ref.size 0 ≡ false
    → be_size_ful ref ≡ false
    → length p ≤ line_len
    → (type ≡ align_right) ⊎ (type ≡ align_full)
    → (b' : BitMap) × (ys : List ℕ) × (bm_fixed_pushdown_ref_map text s_len p b ref line_len type
        ≡ some (b'.size, b'))
      × Holds b' ys
      × ((q : ℕ) → has ys q ≡ (has xs q || (ends text p line_len q && has es q)))
unfolding bm_fixed_pushdown_ref_map ref_test
bm_fixed_pushdown_ref_map-Adds text s_len p line_len type {b} {ref} {xs} {es} v w e z u h t =
    let (b', ys, q, o, m) =
      union_if-Holds (line_right text s_len p line_len) es v (rw e at w.bounded) in
    let short : ltb line_len (length p) ≡ false = ground arith in
    (
      b',
      ys,
      elim t [
        | inl r ↦ rw (r, z, u, short, w.size, w.prefix, q) refl
        | inr r ↦ rw (r, z, u, short, w.size, w.prefix, q) refl
      ],
      o,
      λ p'. m p' ∙ same p',
    )
  where
    same :
        (p' : ℕ)
        → (has xs p' || (line_right text s_len p line_len p' && has es p'))
          ≡ (has xs p' || (ends text p line_len p' && has es p'))
    same p' = rw (line_right-ends text s_len p line_len p' h) refl
