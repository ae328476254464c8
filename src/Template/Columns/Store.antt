-- ===== src/Template/Columns/Store.antt =====
-- What SearchTemplate (compression/LengthParser.cpp) leaves in the columns of a template.
use log_grep.Prelude.{
  ℕ, zero, suc, ◌+◌, ◌≤◌, ◌<◌, ◌≡◌, ◌≢◌, inl, inr, refl, sym, ap, ◌∙◌, ◌==◌, Bool-cases, Option,
  some, ◌>>=◌, List, [], ◌∷◌, ◌++◌, append-nil, append_assoc, length, length-append, get_elem?,
  find, put, find-put_self, find-put_ne, arith,
}
use log_grep.Template.{SegTag}
use log_grep.Template.Columns.{VarArray, Columns, IsArray, add-IsArray, var_name, store_from}
use log_grep.Template.Columns.Names.{var_name-variable}

-- a column of `n` values
abbrev pub HasColumn : Columns → ℕ → ℕ → ℕ → Type 0
HasColumn vars eid t n =
    (a : VarArray) × (find (var_name eid t) vars ≡ some a) × IsArray a × (length a.cells ≡ n)

-- The columns of `vars` are there, with no more than new values at their ends.
abbrev pub IsGrown : Columns → Columns → Type 0
IsGrown vars vars' =
    (name : ℕ) (a : VarArray)
    → find name vars ≡ some a
    → (b : VarArray) × (find name vars' ≡ some b)
      × (tail : List (ℕ × ℕ)) × (b.cells ≡ a.cells ++ tail)

-- the value `k` of a column
abbrev pub cell : Columns → ℕ → ℕ → ℕ → Option (ℕ × ℕ)
cell vars eid t k = find (var_name eid t) vars >>= λ a. get_elem? a.cells k

pub get_elem?-behind {ℓ} :
    {A : Type ℓ} (xs : List A) (y : A) → get_elem? (xs ++ (y ∷ [])) (length xs) ≡ some y
get_elem?-behind [] y = refl
get_elem?-behind (x ∷ xs) y = get_elem?-behind xs y

pub get_elem?-before {ℓ} :
    {A : Type ℓ} (xs ys : List A) (k : ℕ) (y : A)
    → get_elem? xs k ≡ some y
    → get_elem? (xs ++ ys) k ≡ some y
get_elem?-before [] ys k y e = absurd (ground arith)
get_elem?-before (x ∷ xs) ys zero y e = e
get_elem?-before (x ∷ xs) ys (suc k) y e = get_elem?-before xs ys k y e

pub get_elem?-below {ℓ} :
    {A : Type ℓ} (xs : List A) (k : ℕ) → k < length xs → (y : A) × (get_elem? xs k ≡ some y)
get_elem?-below [] k lt = absurd (omega arith)
get_elem?-below (x ∷ xs) zero lt = (x, refl)
get_elem?-below (x ∷ xs) (suc k) lt = get_elem?-below xs k (omega arith)

-- The columns after the values of variables `t` and on were stored behind the `n` values there.
pub record IsStored (eid : ℕ) (segs : List SegTag) (t : ℕ) (places : List ℕ) (n : ℕ)
    (vars vars' : Columns) : Type 0 where
  pub longer : (k : ℕ) → k < length places → HasColumn vars' eid (t + k) (suc n)
  pub grown : IsGrown vars vars'
  pub others :
      (name : ℕ)
      → ((k : ℕ) → k < length places → name ≢ var_name eid (t + k))
      → find name vars' ≡ find name vars
  pub values :
      (k i : ℕ) (s : SegTag)
      → get_elem? places k ≡ some i
      → get_elem? segs i ≡ some s
      → cell vars' eid (t + k) n ≡ some (s.start_pos, s.seg_len)

IsGrown-put :
    (name : ℕ) (a b : VarArray) (tail : List (ℕ × ℕ)) (vars : Columns)
    → find name vars ≡ some a
    → b.cells ≡ a.cells ++ tail
    → IsGrown vars (put name b vars)
IsGrown-put name a b tail vars there longer other c e = elim (Bool-cases (other == name)) [
  | inl same ↦
      let it : other ≡ name = ground arith in
      let found : find name vars ≡ some c = rw it at e in
      let a_is : some a ≡ some c = sym there ∙ found in
      let ac : a ≡ c = ground arith in
      (b, rw it (find-put_self name b vars), tail, rw (← ac) longer)
  | inr differ ↦
      let ne : other ≢ name = ground arith in
      (c, find-put_ne name other b vars ne ∙ e, [], sym (append-nil c.cells))
]

pub IsGrown-trans : (u v w : Columns) → IsGrown u v → IsGrown v w → IsGrown u w
IsGrown-trans u v w uv vw name a e =
    let (b, found, tail, longer) = uv name a e in
    let (c, found', tail', longer') = vw name b found in
    (
      c,
      found',
      tail ++ tail',
      longer' ∙ ap (λ cs. cs ++ tail') longer ∙ append_assoc a.cells tail tail',
    )

names_differ : (eid t k n : ℕ) → suc t + n ≤ 256 → k < n → var_name eid (suc t + k) ≢ var_name eid t
names_differ eid t k n small lt same =
    let eq = (var_name-variable eid (suc t + k) eid t (omega arith) (omega arith) same).1 in
    absurd (omega arith)

-- The value of variable `t` first, then those of the variables behind it.
module _ (eid : ℕ) (segs : List SegTag) (t i : ℕ) (places : List ℕ) (n : ℕ) (vars vars' : Columns)
    (a b : VarArray) (s : SegTag) (small : suc t + length places ≤ 256)
    (here : get_elem? segs i ≡ some s) (there : find (var_name eid t) vars ≡ some a)
    (len : length a.cells ≡ n) (ok : IsArray b)
    (longer : b.cells ≡ a.cells ++ ((s.start_pos, s.seg_len) ∷ []))
    (stored : IsStored eid segs (suc t) places n (put (var_name eid t) b vars) vars') where
  first : find (var_name eid t) vars' ≡ some b
  first =
      stored.others (var_name eid t)
        (λ k lt e. names_differ eid t k (length places) small lt (sym e))
      ∙ find-put_self (var_name eid t) b vars

  cons-longer : (k : ℕ) → k < length (i ∷ places) → HasColumn vars' eid (t + k) (suc n)
  cons-longer zero lt =
      let on : t + 0 ≡ t = omega arith in
      let more = length-append a.cells ((s.start_pos, s.seg_len) ∷ []) in
      rw on (b, first, ok, omega (arith, ap length longer, more, len))
  cons-longer (suc k) lt =
      let on : t + suc k ≡ suc t + k = omega arith in rw on (stored.longer k (omega arith))

  cons-others :
      (other : ℕ)
      → ((k : ℕ) → k < length (i ∷ places) → other ≢ var_name eid (t + k))
      → find other vars' ≡ find other vars
  cons-others other ne =
      let on : t + 0 ≡ t = omega arith in
      let differs : other ≢ var_name eid t = rw on at (ne 0 (omega arith)) in
      stored.others other (λ k lt.
        let on : t + suc k ≡ suc t + k = omega arith in rw on at (ne (suc k) (omega arith)))
      ∙ find-put_ne (var_name eid t) other b vars differs

  cons-values :
      (k j : ℕ) (g : SegTag)
      → get_elem? (i ∷ places) k ≡ some j
      → get_elem? segs j ≡ some g
      → cell vars' eid (t + k) n ≡ some (g.start_pos, g.seg_len)
  cons-values zero j g place seg =
      let on : t + 0 ≡ t = omega arith in
      let ij : i ≡ j = ground arith in
      let both : some s ≡ some g = sym here ∙ rw ij seg in
      let sg : s ≡ g = ground arith in
      let value = get_elem?-behind a.cells (s.start_pos, s.seg_len) in
      rw (on, first, longer, ← len, ← sg) value
  cons-values (suc k) j g place seg =
      let on : t + suc k ≡ suc t + k = omega arith in rw on (stored.values k j g place seg)

  IsStored-cons : IsStored eid segs t (i ∷ places) n vars vars'
  IsStored-cons = record {
    longer = cons-longer;
    grown =
        IsGrown-trans vars (put (var_name eid t) b vars) vars'
          (IsGrown-put (var_name eid t) a b ((s.start_pos, s.seg_len) ∷ []) vars there longer)
          stored.grown;
    others = cons-others;
    values = cons-values;
  }

-- Room for the values: the names do not run into each other, the places are places of segments, and
-- the columns are there with `n` values each.
pub store_from-IsStored :
    (eid : ℕ) (segs : List SegTag) (t : ℕ) (places : List ℕ) (n : ℕ) (vars : Columns)
    → t + length places ≤ 256
    → ((k i : ℕ) → get_elem? places k ≡ some i → (s : SegTag) × (get_elem? segs i ≡ some s))
    → ((k : ℕ) → k < length places → HasColumn vars eid (t + k) n)
    → (vars' : Columns) × (store_from eid segs t places vars ≡ some vars')
      × IsStored eid segs t places n vars vars'
unfolding store_from
store_from-IsStored eid segs t [] n vars small inside columns = (
  vars,
  refl,
  record {
    longer = λ k lt. absurd (omega arith);
    grown = λ name a e. (a, e, [], sym (append-nil a.cells));
    others = λ name ne. refl;
    values = λ k i s e. absurd (ground arith);
  },
)
store_from-IsStored eid segs t (i ∷ places) n vars small inside columns =
    let (s, here) = inside 0 i refl in
    let on : t + 0 ≡ t = omega arith in
    let (a, there, ok, len) = rw on at (columns 0 (omega arith)) in
    let (b, added, longer, ok') = add-IsArray a s.start_pos s.seg_len ok in
    let room : suc t + length places ≤ 256 = omega arith in
    let (vars', rest, stored) =
      store_from-IsStored eid segs (suc t) places n (put (var_name eid t) b vars) room
        (λ k. inside (suc k))
        (λ k lt.
          let on : t + suc k ≡ suc t + k = omega arith in
          let differ = names_differ eid t k (length places) room lt in
          let (c, found, ok_c, len_c) = rw on at (columns (suc k) (omega arith)) in
          (
            c,
            find-put_ne (var_name eid t) (var_name eid (suc t + k)) b vars differ ∙ found,
            ok_c,
            len_c,
          )) in
    (
      vars',
      rw (here, there, added) rest,
      IsStored-cons eid segs t i places n vars vars' a b s room here there len ok' longer stored,
    )
