-- ===== src/Template/File/Restore.antt =====
-- What compression/main.cpp keeps of a log file, read back line by line.
use log_grep.Prelude.{
  ℕ, suc, ◌+◌, ◌≡◌, refl, ap, Bool, true, false, ◌==◌, if◌then◌else◌, Option, none, some, ◌>>=◌,
  bind_some, List, [], ◌∷◌, ◌++◌, get_elem?, take, drop, arith,
}
use log_grep.Bytes.{Bytes}
use log_grep.Template.Node.{Piece, Node, var_of, fill_from, fill}
use log_grep.Template.Columns.{Columns, var_name}
use log_grep.Template.Columns.Store.{IsGrown, cell, get_elem?-before}
use log_grep.Template.Parser.Search.{by_eid}

-- the value `k` of variable `t`, read off the buffer
unfoldable pub value_at : Bytes → Columns → ℕ → ℕ → ℕ → Option Bytes
value_at log vars eid k t = cell vars eid t k >>= λ (start, len). some (take len (drop start log))

-- The line `k` of those under an entry of Eid: a template with the values of its variables, or a line
-- that was put aside.
unfoldable pub restore : Bytes → List Node → Columns → List Bytes → Option ℕ → ℕ → Option Bytes
unfolding value_at
restore log nodes vars failed none k = get_elem? failed k
restore log nodes vars failed (some eid) k =
    by_eid eid nodes >>= λ node. fill (value_at log vars eid k) node

abbrev pub same_eid : Option ℕ → Option ℕ → Bool
same_eid none none = true
same_eid none (some b) = false
same_eid (some a) none = false
same_eid (some a) (some b) = a == b

-- how many of the lines are under the entry
abbrev pub seen : Option ℕ → List (Option ℕ) → ℕ
seen x [] = 0
seen x (y ∷ ys) = if same_eid x y then suc (seen x ys) else seen x ys

-- All lines in their order; `before` are the entries of the lines that were read already.
unfoldable pub restore_from :
    Bytes
    → List Node
    → Columns
    → List Bytes
    → List (Option ℕ)
    → List (Option ℕ)
    → Option (List Bytes)
unfolding restore
restore_from log nodes vars failed before [] = some []
restore_from log nodes vars failed before (x ∷ eids) =
    restore log nodes vars failed x (seen x before) >>= λ line.
    restore_from log nodes vars failed (x ∷ before) eids >>= λ lines. some (line ∷ lines)

unfoldable pub restore_lines :
    Bytes → List Node → Columns → List Bytes → List (Option ℕ) → Option (List Bytes)
unfolding restore_from
restore_lines log nodes vars failed eids = restore_from log nodes vars failed [] eids

-- What is there stays the same while more is stored.
piece-more :
    (value value' : ℕ → Option Bytes) (o : Option ℕ) (p : Piece) (s : Bytes)
    → ((t : ℕ) (v : Bytes) → value t ≡ some v → value' t ≡ some v)
    → elim o [ none ↦ some p.template | some t ↦ value t ] ≡ some s
    → elim o [ none ↦ some p.template | some t ↦ value' t ] ≡ some s
piece-more value value' none p s more e = e
piece-more value value' (some t) p s more e = more t s e

fill_from-more :
    (value value' : ℕ → Option Bytes) (idx : List ℕ) (i : ℕ) (ps : List Piece) (line : Bytes)
    → ((t : ℕ) (v : Bytes) → value t ≡ some v → value' t ≡ some v)
    → fill_from value idx i ps ≡ some line
    → fill_from value' idx i ps ≡ some line
unfolding fill_from
fill_from-more value value' idx i [] line more e = e
fill_from-more value value' idx i (p ∷ ps) line more e =
    let (s, this, then_rest) = bind_some _ _ line e in
    let (rest, later, whole) = bind_some _ _ line then_rest in
    let this' = piece-more value value' (var_of i 0 idx) p s more this in
    rw (this', fill_from-more value value' idx (suc i) ps rest more later) whole

value_at-more :
    (log : Bytes) (vars vars' : Columns) (eid k t : ℕ) (v : Bytes)
    → IsGrown vars vars'
    → value_at log vars eid k t ≡ some v
    → value_at log vars' eid k t ≡ some v
unfolding value_at
value_at-more log vars vars' eid k t v grown e =
    let (place, at_k, text) = bind_some _ _ v e in
    let (a, found, inside) = bind_some _ _ place at_k in
    let (b, found', tail, longer) = grown (var_name eid t) a found in
    rw (found', longer, get_elem?-before a.cells tail k place inside) text

pub restore-more :
    (log : Bytes) (nodes : List Node) (vars vars' : Columns) (failed rest : List Bytes)
    (x : Option ℕ) (k : ℕ) (line : Bytes)
    → IsGrown vars vars'
    → restore log nodes vars failed x k ≡ some line
    → restore log nodes vars' (failed ++ rest) x k ≡ some line
unfolding restore fill
restore-more log nodes vars vars' failed rest none k line grown e =
    get_elem?-before failed rest k line e
restore-more log nodes vars vars' failed rest (some eid) k line grown e =
    let (node, found, filled) =
      bind_some (by_eid eid nodes) (λ node. fill (value_at log vars eid k) node) line e in
    rw found (
      fill_from-more (value_at log vars eid k) (value_at log vars' eid k) node.var_index 0
        node.pieces line (λ t v. value_at-more log vars vars' eid k t v grown) filled)

-- One more line at the end.
restore_from-snoc :
    (log : Bytes) (nodes : List Node) (vars : Columns) (failed : List Bytes)
    (before eids : List (Option ℕ)) (lines : List Bytes) (x : Option ℕ) (line : Bytes)
    → restore_from log nodes vars failed before eids ≡ some lines
    → restore log nodes vars failed x (seen x eids + seen x before) ≡ some line
    → restore_from log nodes vars failed before (eids ++ (x ∷ [])) ≡ some (lines ++ (line ∷ []))
unfolding restore_from
restore_from-snoc log nodes vars failed before [] lines x line e last =
    let none_more : 0 + seen x before ≡ seen x before = omega arith in
    let now : restore log nodes vars failed x (seen x before) ≡ some line = rw none_more at last in
    let empty : [] ≡ lines = ground arith in rw (now, ← empty) refl
restore_from-snoc log nodes vars failed before (y ∷ eids) lines x line e last =
    let (first, this, then_rest) =
      bind_some (restore log nodes vars failed y (seen y before))
        (λ l. restore_from log nodes vars failed (y ∷ before) eids >>= λ ls. some (l ∷ ls)) lines
        e in
    let (rest, later, whole) =
      bind_some (restore_from log nodes vars failed (y ∷ before) eids) (λ ls. some (first ∷ ls))
        lines then_rest in
    let lines_are : first ∷ rest ≡ lines = ground arith in
    let moved : seen x (y ∷ eids) + seen x before ≡ seen x eids + seen x (y ∷ before) =
      ground arith in
    let last' = rw moved at last in
    rw (this, restore_from-snoc log nodes vars failed (y ∷ before) eids rest x line later last')
      (ap (λ ls. some (ls ++ (line ∷ []))) lines_are)

pub restore_lines-snoc :
    (log : Bytes) (nodes : List Node) (vars : Columns) (failed : List Bytes)
    (eids : List (Option ℕ)) (lines : List Bytes) (x : Option ℕ) (line : Bytes)
    → restore_lines log nodes vars failed eids ≡ some lines
    → restore log nodes vars failed x (seen x eids) ≡ some line
    → restore_lines log nodes vars failed (eids ++ (x ∷ [])) ≡ some (lines ++ (line ∷ []))
unfolding restore_lines
restore_lines-snoc log nodes vars failed eids lines x line e last =
    let none_before : seen x eids ≡ seen x eids + 0 = omega arith in
    restore_from-snoc log nodes vars failed [] eids lines x line e (rw none_before at last)

-- Lines that could be read back can be read back when more is stored.
restore_from-more :
    (log : Bytes) (nodes : List Node) (vars vars' : Columns) (failed rest : List Bytes)
    (before eids : List (Option ℕ)) (lines : List Bytes)
    → IsGrown vars vars'
    → restore_from log nodes vars failed before eids ≡ some lines
    → restore_from log nodes vars' (failed ++ rest) before eids ≡ some lines
unfolding restore_from
restore_from-more log nodes vars vars' failed rest before [] lines grown e = e
restore_from-more log nodes vars vars' failed rest before (x ∷ eids) lines grown e =
    let (line, this, then_later) = bind_some _ _ lines e in
    let (others, later, whole) = bind_some _ _ lines then_later in
    rw
      (
        restore-more log nodes vars vars' failed rest x (seen x before) line grown this,
        restore_from-more log nodes vars vars' failed rest (x ∷ before) eids others grown later,
      )
      whole

pub restore_lines-more :
    (log : Bytes) (nodes : List Node) (vars vars' : Columns) (failed rest : List Bytes)
    (eids : List (Option ℕ)) (lines : List Bytes)
    → IsGrown vars vars'
    → restore_lines log nodes vars failed eids ≡ some lines
    → restore_lines log nodes vars' (failed ++ rest) eids ≡ some lines
unfolding restore_lines
restore_lines-more log nodes vars vars' failed rest eids lines grown e =
    restore_from-more log nodes vars vars' failed rest [] eids lines grown e
