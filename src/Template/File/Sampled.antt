-- ===== src/Template/File/Sampled.antt =====
-- What proc (compression/main.cpp) hands to matchFile: the templates of its sampling loop, and an empty
-- column for each of their variables.
use log_grep.Prelude.{
  ℕ, suc, ◌≤◌, ◌<◌, ◌≡◌, inl, inr, refl, ap, ◌+◌, ltb, if◌then◌else◌, Bool, ◌==◌, Bool-cases,
  Option, Option-cases, bind_some, none, some, [], ◌∷◌, length, drop, arith,
}
use mathlib.Core.Option.{some-injective}
use log_grep.Bytes.{Bytes, at}
use log_grep.Template.{Scan, end_token, scan_byte}
use log_grep.Template.Segments.{IsScan, scan_byte-IsScan, end_token-AreSegments}
use log_grep.Template.Node.Merge.{NoNul}
use log_grep.Template.Parser.{Parser, parse_template}
use log_grep.Template.Parser.Valid.{all_nodes, AllNodes, IsParser}
use log_grep.Template.Parser.Learn.{new_parser-IsParser, parse_template-IsParser}
use log_grep.Template.File.{
  Sampling, end_sample, seg_capacity, fail_capacity, sample_line, sample_byte, sample_from, sample,
  variable_mapping, Matched, match_file,
}
use log_grep.Template.File.Room.{newlines, longest}
use log_grep.Template.File.Restore.{restore_lines}
use log_grep.Template.File.Lines.{HasColumns, IsScan-next_line, AllNodes-map}
use log_grep.Template.File.Whole.{ended_lines, drop-cons, match_file-restore_lines}
use log_grep.Template.File.Empty.{pool_columns-new, held}

pub variable_mapping-HasColumns :
    (p : Parser)
    → IsParser p
    → AllNodes (HasColumns (variable_mapping p) (λ eid. 0)) (all_nodes p.pool)
unfolding variable_mapping
variable_mapping-HasColumns p ip =
    pool_columns-new p.stc p.pool []
      (AllNodes-map _ _ (all_nodes p.pool) (λ n h. ip.sampled n.eid h) (held [] (all_nodes p.pool)))

IsScan-later : (log : Bytes) (i : ℕ) (s : Scan) → IsScan log i s → IsScan log (suc i) s
IsScan-later log i s h = record {
  starts = h.starts;
  reached = (let r = h.reached in omega arith);
  whole = h.whole;
  segments = h.segments;
}

-- The file up to byte `i` was read, `lines` of its lines.
abbrev IsSample : Bytes → ℕ → ℕ → Sampling → Type 0
IsSample log i lines s = IsParser s.parser × IsScan log i s.scan × (s.now_line ≡ lines)

-- What a round leaves, if it stays inside of the arrays.
abbrev IsNext : Bytes → ℕ → ℕ → Option Sampling → Type 0
IsNext log i lines none = Unit
IsNext log i lines (some s) = IsSample log i lines s

end_sample-IsSample :
    (draws : ℕ → Bool) (log : Bytes) (i lines : ℕ) (s : Sampling) (p : Parser)
    → s.now_line ≡ lines
    → IsParser p
    → IsSample log (suc i) (suc lines) (end_sample draws i s p)
unfolding end_sample
end_sample-IsSample draws log i lines s p count ip = (ip, IsScan-next_line log i, ap suc count)

sample_line-IsNext :
    (above : ℕ → ℕ → Bool) (draws : ℕ → Bool) (log : Bytes) (i lines : ℕ) (s : Sampling)
    → i ≤ length log
    → IsSample log i lines s
    → IsNext log (suc i) (suc lines) (sample_line above draws log i s)
unfolding sample_line
sample_line-IsNext above draws log i lines s le (ip, scanned, count) =
    let segs = end_token i s.scan in
    elim (Bool-cases s.sampled) [
      | inl e ↦ elim (Bool-cases (ltb seg_capacity (length segs))) [
        | inl over ↦ rw (e, over) tt
        | inr inside ↦ elim (Option-cases (parse_template above s.parser log segs)) [
          | inl stopped ↦
              let r : sample_line above draws log i s ≡ none =
                rw (sample_line, e, inside, stopped) refl in
              rw r tt
          | inr ((p, eid), parsed) ↦
              let r : sample_line above draws log i s ≡ some (end_sample draws i s p) =
                rw (sample_line, e, inside, parsed) refl in
              rw r (
                end_sample-IsSample draws log i lines s p count (
                  parse_template-IsParser above s.parser p log segs eid
                    (end_token-AreSegments log i s.scan le scanned) ip parsed))
        ]
      ]
      | inr e ↦ rw e (end_sample-IsSample draws log i lines s s.parser count ip)
    ]

sample_byte-IsNext :
    (above : ℕ → ℕ → Bool) (draws : ℕ → Bool) (log : Bytes) (i lines : ℕ) (s : Sampling)
    → i < length log
    → IsSample log i lines s
    → IsNext log
        (suc i)
        (if at log i == b'\n' then suc lines else lines)
        (sample_byte above draws log i (at log i) s)
unfolding sample_byte
sample_byte-IsNext above draws log i lines s lt (ip, scanned, count) =
    elim (Bool-cases (at log i == b'\n')) [
      | inl ends ↦
          rw ends (sample_line-IsNext above draws log i lines s (omega arith) (ip, scanned, count))
      | inr more ↦ elim (Bool-cases s.sampled) [
        | inl on ↦
            elim (Bool-cases (ltb seg_capacity (length (scan_byte i (at log i) s.scan).segs))) [
              | inl over ↦ rw (more, on, over) tt
              | inr inside ↦
                  rw (more, on, inside) (ip, scan_byte-IsScan log i s.scan lt scanned, count)
            ]
        | inr off ↦ rw (more, off) (ip, IsScan-later log i s.scan scanned, count)
      ]
    ]

sample_from-IsParser :
    (above : ℕ → ℕ → Bool) (draws : ℕ → Bool) (log : Bytes) (i lines : ℕ) (bytes : Bytes)
    (s s' : Sampling)
    → drop i log ≡ bytes
    → IsSample log i lines s
    → sample_from above draws log i bytes s ≡ some s'
    → IsParser s'.parser × (s'.now_line ≡ lines + newlines bytes)
unfolding sample_from
sample_from-IsParser above draws log i lines [] s s' e (ip, scanned, count) run =
    let same : s ≡ s' = some-injective s s' run in
    let none_more : lines + 0 ≡ lines = omega arith in rw (← same, none_more) (ip, count)
sample_from-IsParser above draws log i lines (c ∷ bytes) s s' e h run =
    let (lt, byte, rest) = drop-cons log i c bytes e in
    let now = sample_byte-IsNext above draws log i lines s lt h in
    let (s₁, step, later) =
      bind_some (sample_byte above draws log i c s) (sample_from above draws log (suc i) bytes) s'
        run in
    let step' : sample_byte above draws log i (at log i) s ≡ some s₁ = rw byte step in
    let (ip, count) =
      sample_from-IsParser above draws log (suc i) (if at log i == b'\n' then suc lines else lines)
        bytes s₁ s' rest (rw step' at now) later in
    (ip, ground (arith, count, byte))

pub sample-IsParser :
    (above : ℕ → ℕ → Bool) (draws : ℕ → Bool) (log : Bytes) (s : Sampling)
    → sample above draws log ≡ some s
    → IsParser s.parser × (s.now_line ≡ newlines log)
unfolding sample
sample-IsParser above draws log s run =
    let (ip, count) =
      sample_from-IsParser above draws log 0 0 log _ s refl
        (
          new_parser-IsParser,
          record { starts = omega arith; reached = omega arith; whole = refl; segments = tt },
          refl,
        )
        run in
    (ip, omega arith)

-- Both passes of proc over a file without a NUL, whatever lines are drawn as samples and wherever the
-- threshold lies: when the sampling pass stays inside of its buffers, leaves no number from 65536 on and
-- no template with more than 256 variables, and the file has at most MAXLOG * 2 lines and none of more
-- than MAXTOCKEN * 100 bytes, matchFile stays inside its arrays, and the templates, the columns and the
-- lines put aside give back every line that ends in the file.
pub proc-restore_lines :
    (above : ℕ → ℕ → Bool) (draws : ℕ → Bool) (log : Bytes) (s : Sampling)
    → sample above draws log ≡ some s
    → NoNul log
    → newlines log ≤ fail_capacity
    → longest 0 log ≤ seg_capacity
    → s.parser.now_eid ≤ 65536
    → AllNodes (λ node. length node.var_index ≤ 256) (all_nodes s.parser.pool)
    → (m : Matched) × (match_file s.now_line s.parser (variable_mapping s.parser) log ≡ some m)
      × (restore_lines log (all_nodes s.parser.pool) m.vars m.failed_log m.eids
          ≡ some (ended_lines [] log))
proc-restore_lines above draws log s run nonul room short few narrow =
    let p = s.parser in
    let (ip, count) = sample-IsParser above draws log s run in
    match_file-restore_lines s.now_line p (variable_mapping p) log
      (record { parser = ip; narrow = narrow; few = few; nonul = nonul })
      (variable_mapping-HasColumns p ip) (omega arith) (omega arith) short
