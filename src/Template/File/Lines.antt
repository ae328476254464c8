-- ===== src/Template/File/Lines.antt =====
-- One line in matchFile (compression/main.cpp): what is kept of it gives it back.
use log_grep.Prelude.{
  ℕ, zero, suc, ◌+◌, ◌-◌, ◌≤◌, ◌<◌, ◌≡◌, refl, sym, ap, ◌∙◌, if◌then◌else◌, Option, none, some,
  List, [], ◌∷◌, ◌++◌, append-nil, length, length-append, get_elem?, take, drop, arith,
}
use log_grep.Bytes.{Bytes}
use log_grep.Template.{slice, next_line}
use log_grep.Template.Segments.{IsScan}
use log_grep.Template.Node.{Node, c_string}
use log_grep.Template.Node.Merge.{NoNul}
use log_grep.Template.Columns.{Columns}
use log_grep.Template.Columns.Store.{HasColumn, IsGrown, get_elem?-behind}
use log_grep.Template.Parser.{Parser}
use log_grep.Template.Parser.Valid.{all_nodes, AllNodes, IsParser}
use log_grep.Template.File.{Matched, end_line}
use log_grep.Template.File.Restore.{
  restore, seen, same_eid, restore_lines, restore_lines-snoc, restore_lines-more,
}

c_string-NoNul : (s : Bytes) → NoNul s → c_string s ≡ s
unfolding c_string
c_string-NoNul [] h = refl
c_string-NoNul (c ∷ s) h = let ne = h.0 in ground (arith, c_string-NoNul s h.1)

NoNul-take : (n : ℕ) (s : Bytes) → NoNul s → NoNul (take n s)
NoNul-take zero s h = tt
NoNul-take (suc n) [] h = tt
NoNul-take (suc n) (c ∷ s) h = (h.0, NoNul-take n s h.1)

NoNul-drop : (n : ℕ) (s : Bytes) → NoNul s → NoNul (drop n s)
NoNul-drop zero s h = h
NoNul-drop (suc n) [] h = tt
NoNul-drop (suc n) (c ∷ s) h = NoNul-drop n s h.1

-- What the passes leave fixed: the file, and the templates, none of them with more than 256 variables
-- or a number that does not fit into a name.
pub record IsSetting (log : Bytes) (p : Parser) : Type 0 where
  pub parser : IsParser p
  pub narrow : AllNodes (λ node. length node.var_index ≤ 256) (all_nodes p.pool)
  pub few : p.now_eid ≤ 65536
  pub nonul : NoNul log

abbrev pub HasColumns : Columns → (ℕ → ℕ) → Node → Type 0
HasColumns vars rows node =
    (t : ℕ) → t < length node.var_index → HasColumn vars node.eid t (rows node.eid)

-- What holds in front of byte `i` when `lines` were read.
pub record IsKept (log : Bytes) (p : Parser) (i : ℕ) (m : Matched) (lines : List Bytes)
    : Type 0 where
  pub scanned : IsScan log i m.scan
  pub pool : m.parser.pool ≡ p.pool
  pub restored : restore_lines log (all_nodes p.pool) m.vars m.failed_log m.eids ≡ some lines
  pub columns : AllNodes (HasColumns m.vars (λ eid. seen (some eid) m.eids)) (all_nodes p.pool)
  pub failed : length m.failed_log ≡ seen none m.eids

pub seen-snoc :
    (x y : Option ℕ) (ys : List (Option ℕ))
    → seen x (ys ++ (y ∷ [])) ≡ seen x ys + (if same_eid x y then 1 else 0)
seen-snoc x y [] = ground arith
seen-snoc x y (z ∷ ys) = ground (arith, seen-snoc x y ys)

IsGrown-self : (vars : Columns) → IsGrown vars vars
IsGrown-self vars name a e = (a, e, [], sym (append-nil a.cells))

pub IsScan-next_line : (log : Bytes) (i : ℕ) → IsScan log (suc i) (next_line i)
unfolding next_line
IsScan-next_line log i =
    let nothing : suc i - suc i ≡ 0 = omega arith in
    record { starts = omega arith; reached = omega arith; whole = rw nothing refl; segments = tt }

pub AllNodes-map {ℓ κ} :
    (P : Node → Type ℓ) (Q : Node → Type κ) (nodes : List Node)
    → ((n : Node) → P n → Q n)
    → AllNodes P nodes
    → AllNodes Q nodes
AllNodes-map P Q [] f h = tt
AllNodes-map P Q (n ∷ nodes) f h = (f n h.0, AllNodes-map P Q nodes f h.1)

pub AllNodes-both {ℓ κ} :
    (P : Node → Type ℓ) (Q : Node → Type κ) (nodes : List Node)
    → AllNodes P nodes
    → AllNodes Q nodes
    → AllNodes (λ n. P n × Q n) nodes
AllNodes-both P Q [] hp hq = tt
AllNodes-both P Q (n ∷ nodes) hp hq = ((hp.0, hq.0), AllNodes-both P Q nodes hp.1 hq.1)

-- A line that no template matches is put aside.
pub fail-IsKept :
    (log : Bytes) (p : Parser) (i : ℕ) (m : Matched) (lines : List Bytes)
    → IsSetting log p
    → IsKept log p i m lines
    → IsKept log p
        (suc i)
        (end_line log i m m.parser m.vars none)
        (lines ++ (slice log m.scan.line_start i ∷ []))
unfolding end_line restore
fail-IsKept log p i m lines fixed kept =
    let line = slice log m.scan.line_start i in
    let whole : c_string line ≡ line = c_string-NoNul line (
      NoNul-take (i - m.scan.line_start) (drop m.scan.line_start log)
        (NoNul-drop m.scan.line_start log fixed.nonul)) in
    let failed' = m.failed_log ++ (c_string line ∷ []) in
    let still =
      restore_lines-more log (all_nodes p.pool) m.vars m.vars m.failed_log (c_string line ∷ [])
        m.eids lines (IsGrown-self m.vars) kept.restored in
    let last : get_elem? failed' (seen none m.eids) ≡ some line =
      rw (← kept.failed) (get_elem?-behind m.failed_log (c_string line) ∙ ap some whole) in
    record {
      scanned = IsScan-next_line log i;
      pool = kept.pool;
      restored =
          restore_lines-snoc log (all_nodes p.pool) m.vars failed' m.eids lines none line still
            last;
      columns =
          AllNodes-map _ _ (all_nodes p.pool)
            (λ n h t lt.
              let same : seen (some n.eid) (m.eids ++ (none ∷ [])) ≡ seen (some n.eid) m.eids =
                omega (arith, seen-snoc (some n.eid) none m.eids) in
              rw same (h t lt))
            kept.columns;
      failed = omega (
        arith,
        length-append m.failed_log (c_string line ∷ []),
        seen-snoc none none m.eids,
        kept.failed,
      );
    }
