-- ===== src/Template/File/Ends.antt =====
-- The end of a line in matchFile (compression/main.cpp): it stays inside the arrays, and what it keeps
-- gives the line back.
use log_grep.Prelude.{
  ℕ, suc, false, ltb, ◌-◌, ◌≤◌, ◌<◌, ◌≡◌, inl, inr, refl, ap, ◌∙◌, Option, none, some, Option-cases,
  List, [], ◌∷◌, ◌++◌, length, find, arith,
}
use log_grep.Bytes.{Bytes}
use log_grep.Template.{slice, end_token, next_line}
use log_grep.Template.Columns.{Columns}
use log_grep.Template.Parser.{Parser, bump, first_match, search_template}
use log_grep.Template.Parser.Valid.{IsKeyed-find}
use log_grep.Template.Parser.Search.{IsFirst, first_match-IsChoice, first_match-inside}
use log_grep.Template.File.{Matched, end_line, match_line, seg_capacity, fail_capacity}
use log_grep.Template.File.Room.{IsSized, end_token-le, end_line-inside}
use log_grep.Template.File.Lines.{IsSetting, IsKept, fail-IsKept}
use log_grep.Template.File.Stored.{stored, stored-IsKept}

end_line-scan :
    (log : Bytes) (i : ℕ) (m : Matched) (p : Parser) (vars : Columns) (eid : Option ℕ)
    → (end_line log i m p vars eid).scan ≡ next_line i
unfolding end_line
end_line-scan log i m p vars eid = refl

-- the end of a line, when the arrays have room for it
pub match_line-IsKept :
    (eid_size : ℕ) (log : Bytes) (p : Parser) (i : ℕ) (m : Matched) (lines : List Bytes)
    → IsSetting log p
    → i ≤ length log
    → IsKept log p i m lines
    → IsSized m
    → i - m.scan.line_start ≤ seg_capacity
    → length m.eids < eid_size
    → eid_size ≤ fail_capacity
    → (m' : Matched) × (match_line eid_size log i m ≡ some m')
      × IsKept log p (suc i) m' (lines ++ (slice log m.scan.line_start i ∷ []))
      × (m'.scan ≡ next_line i)
      × IsSized m'
      × (length m'.eids ≡ suc (length m.eids))
unfolding match_line search_template
match_line-IsKept eid_size log p i m lines fixed le kept sized short lt room =
    let segs = end_token i m.scan in
    let reached = kept.scanned.reached in
    let few : ltb seg_capacity (length segs) ≡ false =
      ground (arith, end_token-le i m.scan sized.segs reached) in
    let fails : IsKept log p (suc i) (end_line log i m m.parser m.vars none)
        (lines ++ (slice log m.scan.line_start i ∷ [])) =
      fail-IsKept log p i m lines fixed kept in
    let of_fail = end_line-scan log i m m.parser m.vars none in
    let (inside, sized', longer) =
      end_line-inside eid_size log i m m.parser m.vars none sized lt room in
    elim (Option-cases (find (length segs) m.parser.pool)) [
      | inl absent ↦ (
        end_line log i m m.parser m.vars none,
        rw (match_line, few, search_template, absent, inside) refl,
        fails,
        of_fail,
        sized',
        longer,
      )
      | inr (nodes, present) ↦
          let here : find (length segs) p.pool ≡ some nodes = rw kept.pool at present in
          let keyed = IsKeyed-find (length segs) p.pool nodes here fixed.parser.keyed in
          let choice = first_match-IsChoice log segs nodes in
          let (chosen, known) = first_match-inside log segs nodes keyed in
          elim (Option-cases chosen) [
            | inl nowhere ↦
                let nothing : first_match log segs nodes ≡ some none = known ∙ ap some nowhere in
                (
                  end_line log i m m.parser m.vars none,
                  rw (match_line, few, search_template, present, nothing, inside) refl,
                  fails,
                  of_fail,
                  sized',
                  longer,
                )
            | inr (node, given) ↦
                let found : first_match log segs nodes ≡ some (some node) = known ∙ ap some given in
                let first : IsFirst log segs nodes node = rw found at choice in
                let p' : Parser = record m.parser { tc = bump node.eid m.parser.tc } in
                let new = stored log p i m lines nodes node fixed kept le here first in
                let (inside', sized'', longer') =
                  end_line-inside eid_size log i m p' new.0 (some node.eid) sized lt room in
                (
                  end_line log i m p' new.0 (some node.eid),
                  rw (match_line, few, search_template, present, found, new.1, inside') refl,
                  stored-IsKept log p i m lines nodes node fixed kept le here first,
                  end_line-scan log i m p' new.0 (some node.eid),
                  sized'',
                  longer',
                )
          ]
    ]
