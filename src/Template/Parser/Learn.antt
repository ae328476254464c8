-- ===== src/Template/Parser/Learn.antt =====
-- parseTemplate (compression/LengthParser.cpp): what a sample line makes of the templates.
use log_grep.Prelude.{
  ℕ, suc, ◌+◌, ◌≡◌, ◌≢◌, inl, inr, refl, ap, Bool, ◌==◌, Bool-cases, if◌then◌else◌, Option, none,
  some, Option-cases, ◌>>=◌, ◌∙◌, List, [], ◌∷◌, ◌++◌, length, find, put, find-put_self,
  find-put_ne, arith,
}
use log_grep.Bytes.{Bytes}
use log_grep.Template.{SegTag}
use log_grep.Template.Segments.{AreSegments}
use log_grep.Template.Node.{Node, new_node, merged}
use log_grep.Template.Node.Fill.{IsNode}
use log_grep.Template.Node.Valid.{new_node-IsNode}
use log_grep.Template.Parser.{Parser, new_parser, count, bump, merge_first, parse_template}
use log_grep.Template.Parser.Valid.{
  all_nodes, holders, AllNodes, AllNodes-append, AllNodes-find, AllNodes-put, holders-append,
  entry_of, holders-put, IsParser, IsKeyed-find, IsKeyed-put,
}
use log_grep.Template.Parser.Kept.{length-new_node, IsKept, merge_first-IsKept}

pub count-put :
    (k i v : ℕ) (m : List (ℕ × ℕ)) → count i (put k v m) ≡ (if i == k then v else count i m)
unfolding count
count-put k i v m = elim (Bool-cases (i == k)) [
  | inl same ↦
      let it : i ≡ k = ground arith in
      let found : find i (put k v m) ≡ some v = rw it (find-put_self k v m) in
      rw (same, count, found) refl
  | inr other ↦ let ne : i ≢ k = ground arith in rw (other, count, find-put_ne k i v m ne) refl
]

pub new_parser-IsParser : IsParser new_parser
unfolding new_parser count
new_parser-IsParser = record {
  valid = tt;
  keyed = tt;
  unique = λ eid. omega arith;
  fresh = λ eid le. refl;
  sampled = λ eid lt. absurd (omega arith);
}

-- The two branches that make a template: `old` are the templates of the sample's length so far.
learn_new :
    (p : Parser) (log : Bytes) (segs : List SegTag) (k : ℕ) (old : List Node)
    → entry_of k p.pool ≡ old
    → AllNodes IsNode old
    → AllNodes (λ node. length node.pieces ≡ k) old
    → length segs ≡ k
    → AreSegments log segs
    → IsParser p
    → IsParser (record p {
      now_eid = suc p.now_eid;
      pool = put k (old ++ (new_node p.now_eid log segs ∷ [])) p.pool;
      stc = put p.now_eid 1 p.stc;
    })
unfolding new_node
learn_new p log segs k old e ok len here h ip =
    let node = new_node p.now_eid log segs in
    let numbers : (eid : ℕ)
        → holders eid (all_nodes (put k (old ++ (node ∷ [])) p.pool))
          ≡ holders eid (all_nodes p.pool) + holders eid (node ∷ []) =
      λ eid. omega (
        arith,
        holders-put eid k (old ++ (node ∷ [])) p.pool,
        holders-append eid old (node ∷ []),
        ap (holders eid) e,
      ) in
    record {
      valid =
          AllNodes-put IsNode k (old ++ (node ∷ [])) p.pool
            (AllNodes-append IsNode old (node ∷ []) ok (new_node-IsNode p.now_eid log segs h, tt))
            ip.valid;
      keyed =
          IsKeyed-put k (old ++ (node ∷ [])) p.pool
            (AllNodes-append _ old (node ∷ []) len (length-new_node p.now_eid log segs ∙ here, tt))
            ip.keyed;
      unique = λ eid.
          let one = ip.unique eid in let none_yet = ip.fresh eid in ground (arith, numbers eid);
      fresh = λ eid le. let none_yet = ip.fresh eid (omega arith) in ground (arith, numbers eid);
      sampled = λ eid held.
          let counted = ip.sampled eid in
          ground (arith, numbers eid, count-put p.now_eid eid 1 p.stc);
    }

-- The branch that merges.
learn_merged :
    (p : Parser) (k hit : ℕ) (nodes merged : List Node)
    → find k p.pool ≡ some nodes
    → IsKept k nodes (some (some (merged, hit)))
    → IsParser p
    → IsParser (record p { pool = put k merged p.pool; stc = bump hit p.stc })
unfolding bump IsKept
learn_merged p k hit nodes merged e kept ip =
    let entry : entry_of k p.pool ≡ nodes = rw (entry_of, e) refl in
    let numbers : (eid : ℕ)
        → holders eid (all_nodes (put k merged p.pool)) ≡ holders eid (all_nodes p.pool) =
      λ eid. omega (arith, holders-put eid k merged p.pool, ap (holders eid) entry, kept.2 eid) in
    record {
      valid = AllNodes-put IsNode k merged p.pool kept.0 ip.valid;
      keyed = IsKeyed-put k merged p.pool kept.1 ip.keyed;
      unique = λ eid. rw (numbers eid) (ip.unique eid);
      fresh = λ eid le. rw (numbers eid) (ip.fresh eid le);
      sampled = λ eid held.
          let counted = ip.sampled eid (omega (arith, numbers eid)) in
          ground (arith, count-put hit eid (suc (count hit p.stc)) p.stc);
    }

abbrev IsLearned : Option (Parser × ℕ) → Type 0
IsLearned none = Unit
IsLearned (some (p, eid)) = IsParser p

IsLearned-hit :
    (p : Parser) (log : Bytes) (segs : List SegTag) (nodes : List Node)
    (r : Option (Option (List Node × ℕ)))
    → find (length segs) p.pool ≡ some nodes
    → AllNodes IsNode nodes
    → AllNodes (λ node. length node.pieces ≡ length segs) nodes
    → IsKept (length segs) nodes r
    → AreSegments log segs
    → IsParser p
    → IsLearned (
        r >>= λ hit. some (elim hit [
          | some (merged, hit) ↦
              (record p { pool = put (length segs) merged p.pool; stc = bump hit p.stc }, hit)
          | none ↦ (
            record p {
              now_eid = suc p.now_eid;
              pool = put (length segs) (nodes ++ (new_node p.now_eid log segs ∷ [])) p.pool;
              stc = put p.now_eid 1 p.stc;
            },
            p.now_eid,
          )
        ]))
unfolding IsKept
IsLearned-hit p log segs nodes none present ok len kept h ip = tt
IsLearned-hit p log segs nodes (some none) present ok len kept h ip =
    learn_new p log segs (length segs) nodes (rw (entry_of, present) refl) ok len refl h ip
IsLearned-hit p log segs nodes (some (some (merged, hit))) present ok len kept h ip =
    learn_merged p (length segs) hit nodes merged present kept ip

parse_template-IsLearned :
    (above : ℕ → ℕ → Bool) (p : Parser) (log : Bytes) (segs : List SegTag)
    → AreSegments log segs
    → IsParser p
    → IsLearned (parse_template above p log segs)
unfolding parse_template
parse_template-IsLearned above p log segs h ip = elim (Option-cases (find (length segs) p.pool)) [
  | inl absent ↦
      let r : parse_template above p log segs
          ≡ some (
            record p {
              now_eid = suc p.now_eid;
              pool = put (length segs) (new_node p.now_eid log segs ∷ []) p.pool;
              stc = put p.now_eid 1 p.stc;
            },
            p.now_eid,
          ) =
        rw (parse_template, absent) refl in
      rw r (learn_new p log segs (length segs) [] (rw (entry_of, absent) refl) tt tt refl h ip)
  | inr (nodes, present) ↦
      let ok = AllNodes-find IsNode (length segs) p.pool nodes present ip.valid in
      let len = IsKeyed-find (length segs) p.pool nodes present ip.keyed in
      let kept = merge_first-IsKept above (length segs) log segs nodes ok len in
      rw (parse_template, present)
        (IsLearned-hit p log segs nodes (merge_first above log segs nodes) present ok len kept h ip)
]

-- A sample line whose merge stays inside of the buffers keeps the parser, whatever the threshold is:
-- valid templates, with as many places as their key says, each number given to one template at most, the
-- next number to none, and a count of sample lines for each template.
pub parse_template-IsParser :
    (above : ℕ → ℕ → Bool) (p p' : Parser) (log : Bytes) (segs : List SegTag) (eid : ℕ)
    → AreSegments log segs
    → IsParser p
    → parse_template above p log segs ≡ some (p', eid)
    → IsParser p'
parse_template-IsParser above p p' log segs eid h ip e =
    rw e at (parse_template-IsLearned above p log segs h ip)
