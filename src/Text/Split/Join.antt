-- ===== src/Text/Split/Join.antt =====
-- The tokens that Split of cmdline_loggrep/CmdDefine.cpp gives, and the source.
use log_grep.Prelude.{
  ℕ, zero, suc, ◌+◌, ◌≤◌, ◌<◌, ◌≡◌, refl, sym, ap, ◌∙◌, Bool, true, false, not, ◌&&◌, ◌||◌, ◌==◌,
  ltb, leb, Bool-cases, inl, inr, Option, none, some, List, [], ◌∷◌, ◌++◌, length, length-append,
  append-nil, append_assoc, arith,
}
use log_grep.Bytes.{Bytes}
use log_grep.Tags.{is_in}
use log_grep.Text.Split.{cut, token_of, mystrtok, params, split_from, split, max_cmd_params_count}

abbrev pub concat : List Bytes → Bytes
concat [] = []
concat (p ∷ ps) = p ++ concat ps

-- no byte of it is a delimiter
abbrev pub free : Bytes → Bytes → Bool
free delim [] = true
free delim (c ∷ s) = not (is_in c delim) && free delim s

-- one delimiter, or some bytes that are none
abbrev pub is_token : Bytes → Bytes → Bool
is_token delim [] = false
is_token delim (c ∷ s) = (is_in c delim && length s == 0) || free delim (c ∷ s)

abbrev pub all_tokens : Bytes → List Bytes → Bool
all_tokens delim [] = true
all_tokens delim (p ∷ ps) = is_token delim p && all_tokens delim ps

-- the bytes behind a cut
abbrev behind : Option (ℕ × Bytes) → Bytes
behind none = []
behind (some (d, s)) = d ∷ s

abbrev ends_right : Bytes → Option (ℕ × Bytes) → Bool
ends_right delim none = true
ends_right delim (some (d, s)) = is_in d delim

cut-append : (delim s : Bytes) → (cut delim s).0 ++ behind (cut delim s).1 ≡ s
unfolding cut
cut-append delim [] = refl
cut-append delim (c ∷ s) = elim (Bool-cases (is_in c delim)) [
  | inl e ↦ rw e
  | inr e ↦ rw (e, cut-append delim s)
]

cut-free : (delim s : Bytes) → free delim (cut delim s).0 ≡ true
unfolding cut
cut-free delim [] = refl
cut-free delim (c ∷ s) = elim (Bool-cases (is_in c delim)) [
  | inl e ↦ rw e
  | inr e ↦ rw (e, cut-free delim s, e)
]

cut-ends_right : (delim s : Bytes) → ends_right delim (cut delim s).1 ≡ true
unfolding cut
cut-ends_right delim [] = refl
cut-ends_right delim (c ∷ s) = elim (Bool-cases (is_in c delim)) [
  | inl e ↦ rw (e, cut) e
  | inr e ↦ rw (e, cut-ends_right delim s)
]

abbrev text : Option Bytes → Bytes
text none = []
text (some s) = s

-- what one round takes of `s`
record Round (delim s : Bytes) (buf : Option Bytes) (value : ℕ) (last : Option Bytes) : Type 0 where
  goes_on : 0 < length (params buf value)
  joins : concat (params buf value) ++ text last ≡ s
  tokens : all_tokens delim (params buf value) ≡ true
  shorter : length (params buf value) + length (text last) ≤ length s

nonzero : (delim : Bytes) (d : ℕ) → is_in 0 delim ≡ false → is_in d delim ≡ true → (d == 0) ≡ false
nonzero delim d z h = elim (Bool-cases (d == 0)) [
  | inr e ↦ e
  | inl e ↦ let d0 : d ≡ 0 = ground arith in absurd (ground (arith, d0, ap (λ k. is_in k delim) d0))
]

Round-token :
    (delim s tok : Bytes) (c : ℕ) (rest : Option (ℕ × Bytes))
    → is_in 0 delim ≡ false
    → is_in c delim ≡ false
    → tok ++ behind rest ≡ s
    → free delim tok ≡ true
    → ends_right delim rest ≡ true
    → Round delim
        (c ∷ s)
        (token_of c (tok, rest)).0
        (token_of c (tok, rest)).1.0
        (token_of c (tok, rest)).1.1
unfolding params
Round-token delim s tok c none z nc join fr ends = record {
  goes_on = omega arith;
  joins = rw (append-nil, sym join, append-nil);
  tokens = rw (nc, fr);
  shorter = omega (arith, ap length join, length-append tok []);
}
Round-token delim s tok c (some (d, s')) z nc join fr ends =
    let nz = nonzero delim d z ends in
    record {
      goes_on = rw nz (omega arith);
      joins = rw (nz, sym join, append_assoc);
      tokens = rw (nz, nc, fr, ends);
      shorter = rw nz (omega (arith, ap length join, length-append tok (d ∷ s')));
    }

mystrtok-Round :
    (delim s : Bytes) (c : ℕ)
    → is_in 0 delim ≡ false
    → Round delim
        (c ∷ s)
        (mystrtok delim (some (c ∷ s))).0
        (mystrtok delim (some (c ∷ s))).1.0
        (mystrtok delim (some (c ∷ s))).1.1
unfolding mystrtok params
mystrtok-Round delim s c z = elim (Bool-cases (is_in c delim)) [
  | inl e ↦
      let nz = nonzero delim c z e in
      rw (e, mystrtok)
        record {
          goes_on = rw nz (omega arith);
          joins = rw nz;
          tokens = rw (nz, e);
          shorter = rw nz (omega arith);
        }
  | inr e ↦
      rw (e, mystrtok)
        (Round-token delim s (cut delim s).0 c (cut delim s).1 z e (cut-append delim s)
          (cut-free delim s) (cut-ends_right delim s))
]

concat-append : (ps qs : List Bytes) → concat (ps ++ qs) ≡ concat ps ++ concat qs
concat-append [] qs = refl
concat-append (p ∷ ps) qs = rw (concat-append ps qs, append_assoc)

all_tokens-append :
    (delim : Bytes) (ps qs : List Bytes)
    → all_tokens delim ps ≡ true
    → all_tokens delim qs ≡ true
    → all_tokens delim (ps ++ qs) ≡ true
all_tokens-append delim [] qs h k = k
all_tokens-append delim (p ∷ ps) qs h k = ground (arith, all_tokens-append delim ps qs)

-- the outcome of the loop from a pointer
abbrev Splits : Bytes → Bytes → Option (List Bytes) → Type 0
Splits delim s o =
    (ps : List Bytes) × (o ≡ some ps) × (concat ps ≡ s) × (all_tokens delim ps ≡ true)

split_from-Splits :
    (delim : Bytes) (f n : ℕ) (last : Option Bytes)
    → is_in 0 delim ≡ false
    → length (text last) < f
    → n + length (text last) ≤ 2000
    → Splits delim (text last) (split_from delim f n last)
unfolding split_from mystrtok params
split_from-Splits delim zero n last z lt le = absurd (omega arith)
split_from-Splits delim (suc f) n none z lt le = ([], refl, refl, refl)
split_from-Splits delim (suc f) n (some []) z lt le = ([], refl, refl, refl)
split_from-Splits delim (suc f) n (some (c ∷ s)) z lt le =
    let r = mystrtok-Round delim s c z in
    let len =
      length (params (mystrtok delim (some (c ∷ s))).0 (mystrtok delim (some (c ∷ s))).1.0) in
    let more : (len == 0) ≡ false = ground (arith, r.goes_on) in
    let room : ltb n max_cmd_params_count ≡ true = ground arith in
    let fits : leb (n + len) max_cmd_params_count ≡ true = ground (arith, r.shorter) in
    let (ps, e, join, toks) =
      split_from-Splits delim f (n + len) (mystrtok delim (some (c ∷ s))).1.1 z
        (omega (arith, r.shorter, r.goes_on)) (omega (arith, r.shorter)) in
    (
      params (mystrtok delim (some (c ∷ s))).0 (mystrtok delim (some (c ∷ s))).1.0 ++ ps,
      rw (more, room, fits, e),
      concat-append (params (mystrtok delim (some (c ∷ s))).0 (mystrtok delim (some (c ∷ s))).1.0)
            ps
          ∙ rw join r.joins,
      all_tokens-append delim
          (params (mystrtok delim (some (c ∷ s))).0 (mystrtok delim (some (c ∷ s))).1.0) ps r.tokens
          toks,
    )

-- For delimiters without NUL and a source of at most MAX_CMD_PARAMS_COUNT bytes: Split comes to an end
-- inside of its array, each parameter is a delimiter or a run of bytes without one, and the
-- parameters one after the other are the source.
pub split-Tokens :
    (source sep : Bytes)
    → is_in 0 sep ≡ false
    → length source ≤ 2000
    → (ps : List Bytes) × (split source sep ≡ some ps)
      × (concat ps ≡ source)
      × (all_tokens sep ps ≡ true)
unfolding split
split-Tokens source sep z le =
    split_from-Splits sep (suc (length source)) 0 (some source) z (omega arith) (omega arith)
