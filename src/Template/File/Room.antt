-- ===== src/Template/File/Room.antt =====
-- The arrays of matchFile (compression/main.cpp) against the lines of the file.
use log_grep.Prelude.{
  ℕ, suc, ◌+◌, ◌-◌, ◌≤◌, ◌<◌, ◌≡◌, inl, inr, refl, true, false, ◌==◌, ltb, Bool-cases, max,
  if◌then◌else◌, Option, none, some, [], ◌∷◌, length, length-append, arith,
}
use log_grep.Bytes.{Bytes}
use log_grep.Template.{SegTag, Scan, is_delim, end_token, scan_byte, next_line}
use log_grep.Template.Columns.{Columns}
use log_grep.Template.Parser.{Parser}
use log_grep.Template.File.{Matched, seg_capacity, fail_capacity, end_line, in_arrays, match_byte}

-- the lines that end in the bytes
abbrev pub newlines : Bytes → ℕ
newlines [] = 0
newlines (c ∷ s) = if c == b'\n' then suc (newlines s) else newlines s

-- The bytes of the longest line; `cur` bytes of the first one were read already.
abbrev pub longest : ℕ → Bytes → ℕ
longest cur [] = cur
longest cur (c ∷ s) = if c == b'\n' then max cur (longest 0 s) else longest (suc cur) s

pub longest-first : (cur : ℕ) (s : Bytes) → cur ≤ longest cur s
longest-first cur [] = omega arith
longest-first cur (c ∷ s) = ground (arith, longest-first (suc cur) s)

-- No more segments than bytes, and no more lines put aside than lines.
pub record IsSized (m : Matched) : Type 0 where
  pub segs : length m.scan.segs + m.scan.line_start ≤ m.scan.seg_start
  pub failed : length m.failed_num ≤ length m.eids

pub end_token-le :
    (i : ℕ) (s : Scan)
    → length s.segs + s.line_start ≤ s.seg_start
    → s.seg_start ≤ i
    → length (end_token i s) + s.line_start ≤ i
unfolding end_token
end_token-le i s sized le = elim (Bool-cases (ltb s.seg_start i)) [
  | inl e ↦
      let last : SegTag = record { start_pos = s.seg_start; seg_len = i - s.seg_start; tag = 0 } in
      let lt : s.seg_start < i = ground arith in
      rw e (omega (arith, length-append s.segs (last ∷ [])))
  | inr e ↦ rw e (omega arith)
]

scan_byte-le :
    (i c : ℕ) (s : Scan)
    → length s.segs + s.line_start ≤ s.seg_start
    → s.seg_start ≤ i
    → length (scan_byte i c s).segs + (scan_byte i c s).line_start ≤ (scan_byte i c s).seg_start
unfolding scan_byte
scan_byte-le i c s sized le = elim (Bool-cases (is_delim c)) [
  | inl e ↦
      let mark : SegTag = record { start_pos = i; seg_len = 1; tag = c } in
      rw e (omega (arith, length-append (end_token i s) (mark ∷ []), end_token-le i s sized le))
  | inr e ↦ rw e sized
]

scan_byte-reached : (i c : ℕ) (s : Scan) → s.seg_start ≤ i → (scan_byte i c s).seg_start ≤ suc i
unfolding scan_byte
scan_byte-reached i c s le = elim (Bool-cases (is_delim c)) [
  | inl e ↦ rw e (omega arith)
  | inr e ↦ rw e (omega arith)
]

-- A byte that ends no line of the buffer's size.
pub match_byte-inside :
    (i c : ℕ) (m : Matched)
    → IsSized m
    → m.scan.seg_start ≤ i
    → (scan_byte i c m.scan).line_start ≡ m.scan.line_start
    → suc i - m.scan.line_start ≤ seg_capacity
    → (match_byte i c m ≡ some (record m { scan = scan_byte i c m.scan }))
      × IsSized (record m { scan = scan_byte i c m.scan })
unfolding match_byte
match_byte-inside i c m sized le same short =
    let few = scan_byte-le i c m.scan sized.segs le in
    let reached = scan_byte-reached i c m.scan le in
    let inside : ltb seg_capacity (length (scan_byte i c m.scan).segs) ≡ false = ground arith in
    (rw inside refl, record { segs = few; failed = sized.failed })

length-eids :
    (log : Bytes) (i : ℕ) (m : Matched) (p : Parser) (vars : Columns) (eid : Option ℕ)
    → length (end_line log i m p vars eid).eids ≡ suc (length m.eids)
unfolding end_line
length-eids log i m p vars none = omega (arith, length-append m.eids (none ∷ []))
length-eids log i m p vars (some e) = omega (arith, length-append m.eids (some e ∷ []))

length-failed_num :
    (log : Bytes) (i : ℕ) (m : Matched) (p : Parser) (vars : Columns) (eid : Option ℕ)
    → length (end_line log i m p vars eid).failed_num ≤ suc (length m.failed_num)
unfolding end_line
length-failed_num log i m p vars none = omega (arith, length-append m.failed_num (m.now_line ∷ []))
length-failed_num log i m p vars (some e) = omega arith

ended :
    (log : Bytes) (i : ℕ) (m : Matched) (p : Parser) (vars : Columns) (eid : Option ℕ)
    → length (end_line log i m p vars eid).scan.segs + (end_line log i m p vars eid).scan.line_start
      ≤ (end_line log i m p vars eid).scan.seg_start
unfolding end_line next_line
ended log i m p vars eid = omega arith

-- A line of a file whose lines fit the arrays.
pub end_line-inside :
    (eid_size : ℕ) (log : Bytes) (i : ℕ) (m : Matched) (p : Parser) (vars : Columns)
    (eid : Option ℕ)
    → IsSized m
    → length m.eids < eid_size
    → eid_size ≤ fail_capacity
    → (in_arrays eid_size (end_line log i m p vars eid) ≡ true)
      × IsSized (end_line log i m p vars eid)
      × (length (end_line log i m p vars eid).eids ≡ suc (length m.eids))
unfolding in_arrays
end_line-inside eid_size log i m p vars eid sized lt le =
    let lines = length-eids log i m p vars eid in
    let put_aside = length-failed_num log i m p vars eid in
    let failed = sized.failed in
    (ground arith, record { segs = ended log i m p vars eid; failed = omega arith }, lines)
