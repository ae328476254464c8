-- ===== src/Template/Parser/Found.antt =====
-- SearchTemplate (compression/LengthParser.cpp): what it returns and counts.
use log_grep.Prelude.{
  ℕ, suc, ◌≡◌, refl, ap, ◌∙◌, Bool, ◌==◌, Bool-cases, inl, inr, if◌then◌else◌, Option, none, some,
  Option-cases, ◌>>=◌, List, length, find, arith,
}
use log_grep.Bytes.{Bytes}
use log_grep.Template.{SegTag}
use log_grep.Template.Node.{Node, match_match}
use log_grep.Template.Columns.{Columns, store_from}
use log_grep.Template.Parser.{Parser, count, bump, first_match, search_template}
use log_grep.Template.Parser.Valid.{AllNodes, entry_of}
use log_grep.Template.Parser.Learn.{count-put}
use log_grep.Template.Parser.Search.{IsFirst, first_match-IsChoice}

-- -1 when no template with as many places matches, and then nothing is counted; else the number of the
-- first one that does, counted once more, and no other count touched.
abbrev pub IsFound : Bytes → List SegTag → Parser → Parser → Option ℕ → Type 0
IsFound log segs p p' none =
    AllNodes (λ n. match_match n log segs ≡ some none) (entry_of (length segs) p.pool) × (p' ≡ p)
IsFound log segs p p' (some eid) =
    (node : Node) × IsFirst log segs (entry_of (length segs) p.pool) node
    × (node.eid ≡ eid)
    × (p'.pool ≡ p.pool)
    × ((k : ℕ) → count k p'.tc ≡ (if k == eid then suc (count k p.tc) else count k p.tc))

counted :
    (log : Bytes) (segs : List SegTag) (p : Parser) (nodes : List Node) (node : Node)
    → find (length segs) p.pool ≡ some nodes
    → IsFirst log segs nodes node
    → IsFound log segs p (record p { tc = bump node.eid p.tc }) (some node.eid)
unfolding bump
counted log segs p nodes node present first = (
  node,
  rw (entry_of, present) first,
  refl,
  refl,
  λ k. elim (Bool-cases (k == node.eid)) [
    | inl e ↦
        let it : k ≡ node.eid = ground arith in
        rw (e, it) (count-put node.eid node.eid (suc (count node.eid p.tc)) p.tc ∙ ground arith)
    | inr e ↦ rw e (count-put node.eid k (suc (count node.eid p.tc)) p.tc ∙ rw e refl)
  ],
)

abbrev IsResult : Bytes → List SegTag → Parser → Option (Parser × (Columns × Option ℕ)) → Type 0
IsResult log segs p none = Unit
IsResult log segs p (some (p', (vars', eid))) = IsFound log segs p p' eid

stored-IsResult :
    (log : Bytes) (segs : List SegTag) (p p' : Parser) (eid : ℕ) (stored : Option Columns)
    → IsFound log segs p p' (some eid)
    → IsResult log segs p (stored >>= λ vars'. some (p', (vars', some eid)))
stored-IsResult log segs p p' eid none found = tt
stored-IsResult log segs p p' eid (some vars') found = found

search_template-IsResult :
    (p : Parser) (log : Bytes) (segs : List SegTag) (vars : Columns) (extract : Bool)
    → IsResult log segs p (search_template p log segs vars extract)
unfolding search_template
search_template-IsResult p log segs vars extract = elim (Option-cases (find (length segs) p.pool)) [
  | inl absent ↦
      let r : search_template p log segs vars extract ≡ some (p, (vars, none)) =
        rw (search_template, absent) refl in
      rw r (rw (entry_of, absent) tt, refl)
  | inr (nodes, present) ↦
      let choice = first_match-IsChoice log segs nodes in
      elim (Option-cases (first_match log segs nodes)) [
        | inl over ↦
            let r : search_template p log segs vars extract ≡ none =
              rw (search_template, present, over) refl in
            rw r tt
        | inr (chosen, known) ↦ elim (Option-cases chosen) [
          | inl nowhere ↦
              let nothing : first_match log segs nodes ≡ some none = known ∙ ap some nowhere in
              let r : search_template p log segs vars extract ≡ some (p, (vars, none)) =
                rw (search_template, present, nothing) refl in
              rw r (rw (entry_of, present) (rw nothing at choice), refl)
          | inr (node, given) ↦
              let found : first_match log segs nodes ≡ some (some node) = known ∙ ap some given in
              let first : IsFirst log segs nodes node = rw found at choice in
              let new = counted log segs p nodes node present first in
              let p' : Parser = record p { tc = bump node.eid p.tc } in
              let stored = store_from node.eid segs 0 node.var_index vars in
              elim (Bool-cases extract) [
                | inl e ↦
                    let r : search_template p log segs vars extract
                        ≡ (stored >>= λ vars'. some (p', (vars', some node.eid))) =
                      rw (search_template, present, found, e) refl in
                    rw r (stored-IsResult log segs p p' node.eid stored new)
                | inr e ↦
                    let r : search_template p log segs vars extract
                        ≡ some (p', (vars, some node.eid)) =
                      rw (search_template, present, found, e) refl in
                    rw r new
              ]
        ]
      ]
]

-- A search that stays inside its arrays, with or without storing the variables: it returns -1 and
-- changes no count when no template of the line's length matches; else it returns the number of the
-- first one that does, and only that template's count goes up, by one.
pub search_template-IsFound :
    (p p' : Parser) (log : Bytes) (segs : List SegTag) (vars vars' : Columns) (extract : Bool)
    (eid : Option ℕ)
    → search_template p log segs vars extract ≡ some (p', (vars', eid))
    → IsFound log segs p p' eid
search_template-IsFound p p' log segs vars vars' extract eid e =
    rw e at (search_template-IsResult p log segs vars extract)
