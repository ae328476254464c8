-- ===== src/Template/File/Whole.antt =====
-- matchFile (compression/main.cpp) over a whole file: the lines can be read back.
use log_grep.Prelude.{
  ℕ, zero, suc, true, false, ◌+◌, ◌-◌, ◌≤◌, ◌<◌, ◌≡◌, inl, inr, refl, sym, ap, ◌∙◌, ◌==◌,
  Bool-cases, if◌then◌else◌, some, List, [], ◌∷◌, ◌++◌, append-nil, append_assoc, length, drop,
  arith,
}
use log_grep.Bytes.{Bytes, at}
use log_grep.Template.{Scan, slice, is_delim, scan_byte, next_line}
use log_grep.Template.Segments.{IsScan, scan_byte-IsScan, take_one-drop, slice-append}
use log_grep.Template.Columns.{Columns}
use log_grep.Template.Parser.{Parser}
use log_grep.Template.Parser.Valid.{all_nodes, AllNodes}
use log_grep.Template.File.{
  Matched, match_line, match_byte, match_from, match_file, seg_capacity, fail_capacity,
}
use log_grep.Template.File.Ends.{match_line-IsKept}
use log_grep.Template.File.Room.{newlines, longest, longest-first, IsSized, match_byte-inside}
use log_grep.Template.File.Restore.{restore_lines}
use log_grep.Template.File.Lines.{IsSetting, IsKept, HasColumns}

-- the lines that end in the bytes; `cur` are the bytes of the first one that were read already
unfoldable pub ended_lines : Bytes → Bytes → List Bytes
ended_lines cur [] = []
ended_lines cur (c ∷ s) =
    let next = ended_lines [] s in
    let same = ended_lines (cur ++ (c ∷ [])) s in if c == b'\n' then cur ∷ next else same

pub drop-cons :
    (log : Bytes) (i c : ℕ) (bytes : Bytes)
    → drop i log ≡ c ∷ bytes
    → (i < length log) × (at log i ≡ c) × (drop (suc i) log ≡ bytes)
drop-cons [] zero c bytes e = absurd (ground arith)
drop-cons [] (suc i) c bytes e = absurd (ground arith)
drop-cons (d ∷ log) zero c bytes e = (omega arith, ground arith, ground arith)
drop-cons (d ∷ log) (suc i) c bytes e =
    let rest = drop-cons log i c bytes e in (let lt = rest.0 in omega arith, rest.1, rest.2)

scan_byte-line_start : (i c : ℕ) (s : Scan) → (scan_byte i c s).line_start ≡ s.line_start
unfolding scan_byte
scan_byte-line_start i c s = elim (Bool-cases (is_delim c)) [
  | inl e ↦ rw e refl
  | inr e ↦ rw e refl
]

slice-suc :
    (log : Bytes) (a i : ℕ)
    → a ≤ i
    → i < length log
    → slice log a (suc i) ≡ slice log a i ++ (at log i ∷ [])
slice-suc log a i le lt =
    let one : slice log i (suc i) ≡ at log i ∷ [] =
      let n : suc i - i ≡ 1 = omega arith in rw n (take_one-drop log i lt) in
    sym (slice-append log a i (suc i) le (omega arith)) ∙ ap (λ s. slice log a i ++ s) one

nothing_read : (log : Bytes) (i : ℕ) → slice log (next_line i).line_start (suc i) ≡ []
unfolding next_line
nothing_read log i = let n : suc i - suc i ≡ 0 = omega arith in rw n refl

read_so_far : (log : Bytes) (i : ℕ) (s : Scan) → IsScan log i s → s.line_start ≤ i
read_so_far log i s h = let a = h.starts in let b = h.reached in omega arith

ended_lines-newline :
    (cur : Bytes) (c : ℕ) (s : Bytes)
    → (c == b'\n') ≡ true
    → ended_lines cur (c ∷ s) ≡ cur ∷ ended_lines [] s
unfolding ended_lines
ended_lines-newline cur c s ends = rw ends refl

match_from-newline :
    (eid_size : ℕ) (log : Bytes) (i c : ℕ) (bytes : Bytes) (m m₁ : Matched)
    → (c == b'\n') ≡ true
    → match_line eid_size log i m ≡ some m₁
    → match_from eid_size log i (c ∷ bytes) m ≡ match_from eid_size log (suc i) bytes m₁
unfolding match_from
match_from-newline eid_size log i c bytes m m₁ ends step = rw (ends, step) refl

ended_lines-byte :
    (cur : Bytes) (c : ℕ) (s : Bytes)
    → (c == b'\n') ≡ false
    → ended_lines cur (c ∷ s) ≡ ended_lines (cur ++ (c ∷ [])) s
unfolding ended_lines
ended_lines-byte cur c s more = rw more refl

match_from-byte :
    (eid_size : ℕ) (log : Bytes) (i c : ℕ) (bytes : Bytes) (m m₁ : Matched)
    → (c == b'\n') ≡ false
    → match_byte i c m ≡ some m₁
    → match_from eid_size log i (c ∷ bytes) m ≡ match_from eid_size log (suc i) bytes m₁
unfolding match_from
match_from-byte eid_size log i c bytes m m₁ more step = rw (more, step) refl

match_from-IsKept :
    (eid_size : ℕ) (log : Bytes) (p : Parser) (i : ℕ) (bytes : Bytes) (m : Matched)
    (lines : List Bytes)
    → IsSetting log p
    → i ≤ length log
    → drop i log ≡ bytes
    → IsKept log p i m lines
    → IsSized m
    → length m.eids + newlines bytes ≤ eid_size
    → eid_size ≤ fail_capacity
    → longest (i - m.scan.line_start) bytes ≤ seg_capacity
    → (m' : Matched) × (match_from eid_size log i bytes m ≡ some m')
      × (restore_lines log (all_nodes p.pool) m'.vars m'.failed_log m'.eids
          ≡ some (lines ++ ended_lines (slice log m.scan.line_start i) bytes))
unfolding match_from ended_lines next_line
match_from-IsKept eid_size log p i [] m lines fixed le e kept sized rest_room room short =
    (m, refl, rw (append-nil lines) kept.restored)
match_from-IsKept eid_size log p i (c ∷ bytes) m lines fixed le e kept sized fits room short =
    let (lt, byte, rest) = drop-cons log i c bytes e in
    let so_far = read_so_far log i m.scan kept.scanned in
    elim (Bool-cases (c == b'\n')) [
      | inl ends ↦
          let line = slice log m.scan.line_start i in
          let (m₁, step, kept₁, scan₁, sized₁, longer) =
            match_line-IsKept eid_size log p i m lines fixed le kept sized (ground arith)
              (ground arith) room in
          let origin : suc i - m₁.scan.line_start ≡ 0 =
            ap (λ s. suc i - s.line_start) scan₁ ∙ omega arith in
          let (m', run, back) =
            match_from-IsKept eid_size log p (suc i) bytes m₁ (lines ++ (line ∷ [])) fixed
              (omega arith) rest kept₁ sized₁ (ground arith) room (rw origin (ground arith)) in
          let start : slice log m₁.scan.line_start (suc i) ≡ [] =
            ap (λ s. slice log s.line_start (suc i)) scan₁ ∙ nothing_read log i in
          let others = ap (λ cur. (lines ++ (line ∷ [])) ++ ended_lines cur bytes) start in
          let regroup = append_assoc lines (line ∷ []) (ended_lines [] bytes) in
          let split = ended_lines-newline line c bytes ends in
          (
            m',
            match_from-newline eid_size log i c bytes m m₁ ends step ∙ run,
            back ∙ ap some (others ∙ regroup) ∙ ap (λ ls. some (lines ++ ls)) (sym split),
          )
      | inr more ↦
          let scan' = scan_byte i c m.scan in
          let m₁ : Matched = record m { scan = scan' } in
          let same = scan_byte-line_start i c m.scan in
          let on : suc (i - m.scan.line_start) ≡ suc i - m.scan.line_start = omega arith in
          let still : longest (suc i - m.scan.line_start) bytes ≤ seg_capacity =
            rw (← on) (ground arith) in
          let within = longest-first (suc i - m.scan.line_start) bytes in
          let (step, sized₁) =
            match_byte-inside i c m sized kept.scanned.reached same (omega arith) in
          let kept₁ : IsKept log p (suc i) m₁ lines = record {
            scanned = rw byte at (scan_byte-IsScan log i m.scan lt kept.scanned);
            pool = kept.pool;
            restored = kept.restored;
            columns = kept.columns;
            failed = kept.failed;
          } in
          let (m', run, back) =
            match_from-IsKept eid_size log p (suc i) bytes m₁ lines fixed (omega arith) rest kept₁
              sized₁ (ground arith) room (rw same still) in
          let longer : slice log scan'.line_start (suc i)
              ≡ slice log m.scan.line_start i ++ (c ∷ []) =
            ap (λ a. slice log a (suc i)) (scan_byte-line_start i c m.scan)
            ∙ slice-suc log m.scan.line_start i (read_so_far log i m.scan kept.scanned) lt
            ∙ ap (λ b. slice log m.scan.line_start i ++ (b ∷ [])) byte in
          let others = ap (λ cur. lines ++ ended_lines cur bytes) longer in
          let split = ended_lines-byte (slice log m.scan.line_start i) c bytes more in
          (
            m',
            match_from-byte eid_size log i c bytes m m₁ more step ∙ run,
            back ∙ ap some others ∙ ap (λ ls. some (lines ++ ls)) (sym split),
          )
    ]

-- The file without a NUL, templates with valid places and numbers and at most 256 variables each, an
-- empty column for every variable, and arrays with room for the lines and for the longest line: matchFile
-- stays inside its arrays, and the templates, the columns and the lines put aside give back, in the order
-- of Eid, every line that ends in the file.
pub match_file-restore_lines :
    (eid_size : ℕ) (p : Parser) (vars : Columns) (log : Bytes)
    → IsSetting log p
    → AllNodes (HasColumns vars (λ eid. 0)) (all_nodes p.pool)
    → newlines log ≤ eid_size
    → eid_size ≤ fail_capacity
    → longest 0 log ≤ seg_capacity
    → (m : Matched) × (match_file eid_size p vars log ≡ some m)
      × (restore_lines log (all_nodes p.pool) m.vars m.failed_log m.eids
          ≡ some (ended_lines [] log))
unfolding match_file restore_lines
match_file-restore_lines eid_size p vars log fixed columns fits room short =
    match_from-IsKept eid_size log p 0 log _ [] fixed (omega arith) refl
      (record {
        scanned = record {
          starts = omega arith;
          reached = omega arith;
          whole = refl;
          segments = tt;
        };
        pool = refl;
        restored = refl;
        columns = columns;
        failed = refl;
      })
      (record { segs = omega arith; failed = omega arith }) (omega arith) room short
