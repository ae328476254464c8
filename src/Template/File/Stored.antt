-- ===== src/Template/File/Stored.antt =====
-- One line in matchFile (compression/main.cpp) that SearchTemplate finds a template for.
use log_grep.Prelude.{
  ℕ, zero, suc, ◌+◌, ◌-◌, ◌≤◌, ◌<◌, ◌≡◌, inl, inr, refl, ap, subst, ◌∙◌, true, ◌==◌, Bool-cases,
  none, some, List, [], ◌∷◌, ◌++◌, append-nil, length, get_elem?, find, arith,
}
use log_grep.Bytes.{Bytes}
use log_grep.Template.{SegTag, slice, end_token}
use log_grep.Template.Segments.{AreSegments, end_token-texts, end_token-AreSegments}
use log_grep.Template.Node.{Piece, Node, fill}
use log_grep.Template.Node.Match.{PiecesFit, PrefixFits-PiecesFit, match_match_iff}
use log_grep.Template.Node.Fill.{IsNode, AreBelow, var_of-at, fill_from-texts}
use log_grep.Template.Columns.{Columns, var_name, store_from}
use log_grep.Template.Columns.Names.{var_name-distinct}
use log_grep.Template.Columns.Store.{IsStored, store_from-IsStored, get_elem?-below}
use log_grep.Template.Parser.{Parser, bump}
use log_grep.Template.Parser.Valid.{
  all_nodes, holders, AllNodes, AllNodes-parts, IsKeyed-find, fresh-AllNodes,
}
use log_grep.Template.Parser.Search.{IsFirst, AllNodes-first, by_eid-first, only_first}
use log_grep.Template.File.{Matched, end_line}
use log_grep.Template.File.Restore.{
  value_at, restore, seen, restore_lines, restore_lines-snoc, restore_lines-more,
}
use log_grep.Template.File.Lines.{
  IsSetting, IsKept, HasColumns, seen-snoc, IsScan-next_line, AllNodes-map, AllNodes-both,
}

PiecesFit-length :
    (log : Bytes) (ps : List Piece) (ss : List SegTag) → PiecesFit log ps ss → length ps ≡ length ss
PiecesFit-length log [] [] fits = refl
PiecesFit-length log [] (s ∷ ss) fits = absurd fits
PiecesFit-length log (p ∷ ps) [] fits = absurd fits
PiecesFit-length log (p ∷ ps) (s ∷ ss) fits = ap suc (PiecesFit-length log ps ss fits.1)

AreBelow-get : (n : ℕ) (xs : List ℕ) (k i : ℕ) → AreBelow n xs → get_elem? xs k ≡ some i → i < n
AreBelow-get n [] k i h e = absurd (ground arith)
AreBelow-get n (x ∷ xs) zero i h e = let lt = h.0 in ground arith
AreBelow-get n (x ∷ xs) (suc k) i h e = AreBelow-get n xs k i h.1 e

-- A line that a template matches is stored under it.
module _ (log : Bytes) (p : Parser) (i : ℕ) (m : Matched) (lines : List Bytes) (nodes : List Node)
    (node : Node) (fixed : IsSetting log p) (kept : IsKept log p i m lines) (le : i ≤ length log)
    (present : find (length (end_token i m.scan)) p.pool ≡ some nodes)
    (found : IsFirst log (end_token i m.scan) nodes node) where
  are_segments : AreSegments log (end_token i m.scan)
  are_segments = end_token-AreSegments log i m.scan le kept.scanned

  as_long : length node.pieces ≡ length (end_token i m.scan)
  as_long =
      let keyed =
        IsKeyed-find (length (end_token i m.scan)) p.pool nodes present fixed.parser.keyed in
      let split =
        subst (AllNodes (λ node. length node.pieces ≡ length (end_token i m.scan))) found.stands
          keyed in
      (AllNodes-parts _ found.before (node ∷ found.behind) split).1.0

  fits : PiecesFit log node.pieces (end_token i m.scan)
  fits =
      PrefixFits-PiecesFit log node.pieces (end_token i m.scan) as_long
        ((match_match_iff node log (end_token i m.scan) are_segments).1.0 found.matches)

  of_node {κ} : (P : Node → Type κ) → AllNodes P (all_nodes p.pool) → P node
  of_node P all =
      AllNodes-first p.pool (length (end_token i m.scan)) log (end_token i m.scan) nodes node
        present found P all

  numbers : AllNodes (λ n. n.eid < p.now_eid) (all_nodes p.pool)
  numbers = fresh-AllNodes p.now_eid (all_nodes p.pool) fixed.parser.fresh

  number : node.eid < p.now_eid
  number = of_node (λ n. n.eid < p.now_eid) numbers

  small : length node.var_index ≤ 256
  small = of_node (λ node. length node.var_index ≤ 256) fixed.narrow

  pub stored :
      (vars : Columns) × (store_from node.eid (end_token i m.scan) 0 node.var_index m.vars
        ≡ some vars)
      × IsStored node.eid
          (end_token i m.scan)
          0
          node.var_index
          (seen (some node.eid) m.eids)
          m.vars
          vars
  stored =
      store_from-IsStored node.eid (end_token i m.scan) 0 node.var_index
        (seen (some node.eid) m.eids) m.vars (let le_all = small in omega arith)
        (λ k j e.
          let lt =
            AreBelow-get (length node.pieces) node.var_index k j
              (of_node IsNode fixed.parser.valid).1 e in
          let len = PiecesFit-length log node.pieces (end_token i m.scan) fits in
          get_elem?-below (end_token i m.scan) j (omega arith))
        (λ k lt.
          let on : 0 + k ≡ k = omega arith in
          rw on (of_node (HasColumns m.vars (λ eid. seen (some eid) m.eids)) kept.columns k lt))

  -- the line, read back from the new values
  gives :
      fill (value_at log stored.0 node.eid (seen (some node.eid) m.eids)) node
      ≡ some (slice log m.scan.line_start i)
  unfolding fill value_at
  gives =
      fill_from-texts log (value_at log stored.0 node.eid (seen (some node.eid) m.eids))
        node.var_index 0 node.pieces (end_token i m.scan) (of_node IsNode fixed.parser.valid).0
        are_segments fits
        (λ k t s place var.
          let on : 0 + k ≡ k = omega arith in
          let from : 0 + t ≡ t = omega arith in
          let to : t - 0 ≡ t = omega arith in
          let var_t : get_elem? node.var_index t ≡ some k =
            rw to at ((var_of-at k 0 t node.var_index (rw on at var)).1) in
          rw (rw from at (stored.2.values t k s var_t place)) refl)
      ∙ ap some (end_token-texts log i m.scan kept.scanned)

  others_keep :
      (n : Node)
      → length n.var_index ≤ 256
      → n.eid < p.now_eid
      → (n.eid ≡ node.eid → n ≡ node)
      → HasColumns m.vars (λ eid. seen (some eid) m.eids) n
      → HasColumns stored.0 (λ eid. seen (some eid) (m.eids ++ (some node.eid ∷ []))) n
  others_keep n narrow below only has t lt = elim (Bool-cases (n.eid == node.eid)) [
    | inl e ↦
        let eid_is : n.eid ≡ node.eid = ground arith in
        let n_is = only eid_is in
        let lt' : t < length node.var_index = subst (λ x. t < length x.var_index) n_is lt in
        let self : (node.eid == node.eid) ≡ true = ground arith in
        let rows : seen (some node.eid) (m.eids ++ (some node.eid ∷ []))
            ≡ suc (seen (some node.eid) m.eids) =
          ground (arith, seen-snoc (some node.eid) (some node.eid) m.eids) in
        let from : 0 + t ≡ t = omega arith in rw (eid_is, rows, ← from) (stored.2.longer t lt')
    | inr e ↦
        let rows : seen (some n.eid) (m.eids ++ (some node.eid ∷ [])) ≡ seen (some n.eid) m.eids =
          ground (arith, seen-snoc (some n.eid) (some node.eid) m.eids) in
        let (a, there, ok, len) = has t lt in
        let keeps = stored.2.others (var_name n.eid t) (λ k lt_k same.
          let eq =
            (var_name-distinct n.eid t node.eid (0 + k) (let most = fixed.few in omega arith)
              (let most = fixed.few in omega (arith, number)) (omega arith)
              (let le_all = small in omega arith) same).0 in
          absurd (ground arith)) in
        rw rows (a, keeps ∙ there, ok, len)
  ]

  unique : holders node.eid (all_nodes p.pool) ≤ 1
  unique = fixed.parser.unique node.eid

  only : AllNodes (λ n. n.eid ≡ node.eid → n ≡ node) (all_nodes p.pool)
  only =
      only_first p.pool (length (end_token i m.scan)) log (end_token i m.scan) nodes node present
        found unique

  still : restore_lines log (all_nodes p.pool) stored.0 m.failed_log m.eids ≡ some lines
  still = rw (append-nil m.failed_log) at (
      restore_lines-more log (all_nodes p.pool) m.vars stored.0 m.failed_log [] m.eids lines
        stored.2.grown kept.restored)

  last :
      restore log
        (all_nodes p.pool)
        stored.0
        m.failed_log
        (some node.eid)
        (seen (some node.eid) m.eids)
      ≡ some (slice log m.scan.line_start i)
  unfolding restore
  last =
      rw
        (by_eid-first p.pool (length (end_token i m.scan)) log (end_token i m.scan) nodes node
          present found unique)
        gives

  pub stored-IsKept :
      IsKept log p
        (suc i)
        (end_line log i m
          (record m.parser { tc = bump node.eid m.parser.tc })
          stored.0
          (some node.eid))
        (lines ++ (slice log m.scan.line_start i ∷ []))
  unfolding end_line
  stored-IsKept = record {
    scanned = IsScan-next_line log i;
    pool = kept.pool;
    restored =
        restore_lines-snoc log (all_nodes p.pool) stored.0 m.failed_log m.eids lines (some node.eid)
          (slice log m.scan.line_start i) still last;
    columns =
        AllNodes-map _ _ (all_nodes p.pool) (λ n h. others_keep n h.0 h.1.0 h.1.1.0 h.1.1.1)
          (AllNodes-both _ _ (all_nodes p.pool) fixed.narrow (
            AllNodes-both _ _ (all_nodes p.pool) numbers
              (AllNodes-both _ _ (all_nodes p.pool) only kept.columns)));
    failed = omega (arith, seen-snoc none (some node.eid) m.eids, kept.failed);
  }
