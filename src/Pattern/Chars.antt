-- ===== src/Pattern/Chars.antt =====
-- One segment of a pattern against a query: the MatchInSub functions of
-- cmdline_loggrep/SearchAlgorithm.cpp. Forward they keep `souIndex`; backward `e` is souIndex + 1, the
-- bytes that are left.
pub mod Laws
use Prim.Native.Nat.{bit_and}
use log_grep.Prelude.{
  ℕ, zero, suc, ◌+◌, ◌-◌, Bool, true, false, ◌&&◌, ◌||◌, ◌==◌, ltb, leb, if◌then◌else◌, Option,
  none, some, List, [], ◌∷◌, length,
}
use log_grep.Bytes.{Bytes, at}
use log_grep.Tags.{get_char_tag}
use log_grep.Pattern.Lcs.{get_lcs_dp_optc}

-- `(thisChar_mark & strTag_mark) == thisChar_mark`
unfoldable pub char_fits : ℕ → ℕ → Bool
unfolding get_char_tag
char_fits tag c = bit_and (get_char_tag c) tag == get_char_tag c

-- The loop of MatchInSubpatVar_Forward; `f` is what is left of the source. Gives count and souIndex.
unfoldable pub var_run : ℕ → ℕ → (ℕ → ℕ) → ℕ → ℕ → ℕ → ℕ × ℕ
unfolding char_fits
var_run tag maxlen source zero count i = (count, i)
var_run tag maxlen source (suc f) count i =
    let rest = var_run tag maxlen source f (suc count) (suc i) in
    if char_fits tag (source i)
    then if suc count == maxlen then (suc count, suc i) else rest
    else (count, i)

-- A count, or `none` for -1.
unfoldable pub var_end : ℕ → ℕ → ℕ × ℕ → Option ℕ × ℕ
var_end maxlen sou_len (count, i) =
    (if i == sou_len || count == maxlen then some count else none, i)

unfoldable pub match_in_subpat_var_forward : ℕ → ℕ → (ℕ → ℕ) → ℕ → ℕ → Option ℕ × ℕ
unfolding var_run var_end
match_in_subpat_var_forward tag maxlen source sou_len i =
    if i == sou_len
    then (some 0, i)
    else var_end maxlen sou_len (var_run tag maxlen source (sou_len - i) 0 i)

-- MatchInSubpatVar_Backward, called with souIndex in the source
unfoldable pub var_run_back : ℕ → ℕ → (ℕ → ℕ) → ℕ → ℕ → ℕ × ℕ
unfolding char_fits
var_run_back tag maxlen source count zero = (count, 0)
var_run_back tag maxlen source count (suc e) =
    let rest = var_run_back tag maxlen source (suc count) e in
    if char_fits tag (source e)
    then if suc count == maxlen then (suc count, e) else rest
    else (count, suc e)

unfoldable pub match_in_subpat_var_backward : ℕ → ℕ → (ℕ → ℕ) → ℕ → Option ℕ × ℕ
unfolding var_run_back var_end
match_in_subpat_var_backward tag maxlen source e =
    var_end maxlen 0 (var_run_back tag maxlen source 0 e)

-- 0, 1, 2 and 3 of the comments
pub data ConstRst : Type 0 where
  miss both_end only_sou_end only_pat_end : ConstRst

unfoldable pub const_end : Bool → Bool → ConstRst
const_end true true = both_end
const_end true false = only_sou_end
const_end false _ = only_pat_end

unfoldable pub match_in_subpat_const_forward : Bytes → (ℕ → ℕ) → ℕ → ℕ → ConstRst × ℕ
unfolding const_end
match_in_subpat_const_forward [] source sou_len i = (const_end (i == sou_len) true, i)
match_in_subpat_const_forward (c ∷ pat) source sou_len i =
    let rest = match_in_subpat_const_forward pat source sou_len (suc i) in
    if ltb i sou_len
    then if c == source i then rest else (miss, i)
    else (const_end (i == sou_len) false, i)

-- `p` is patIndex + 1.
unfoldable pub const_back : (ℕ → ℕ) → (ℕ → ℕ) → ℕ → ℕ → ConstRst × ℕ
unfolding const_end
const_back pat source zero e = (const_end (e == 0) true, e)
const_back pat source (suc p) zero = (const_end true false, 0)
const_back pat source (suc p) (suc e) =
    if pat p == source e then const_back pat source p e else (miss, suc e)

unfoldable pub match_in_subpat_const_backward : Bytes → (ℕ → ℕ) → ℕ → ConstRst × ℕ
unfolding const_back
match_in_subpat_const_backward pat source e = const_back (at pat) source (length pat) e

-- What the next two return: a count, -1 or -2.
pub data VvarRst : Type 0 where
  counted : ℕ → VvarRst
  no_const no_var : VvarRst

abbrev pub vvar_rst : Option ℕ → VvarRst
vvar_rst none = no_var
vvar_rst (some count) = counted count

-- A variable, and the constant behind it.
unfoldable pub match_in_subpat_vvar_with_tail : ℕ → ℕ → Bytes → (ℕ → ℕ) → ℕ → ℕ → VvarRst × ℕ
unfolding match_in_subpat_var_forward get_lcs_dp_optc
match_in_subpat_vvar_with_tail tag maxlen pat source sou_len i =
    let lcs = get_lcs_dp_optc (λ k. source (i + k)) (at pat) (sou_len - i) (length pat) false in
    let (count, i') = match_in_subpat_var_forward tag maxlen source (i + lcs.pos1) i in
    if lcs.len == length pat then (vvar_rst count, i' + length pat) else (no_const, i)

-- A variable, and the constant before it. The search for the constant leaves the last byte out.
unfoldable pub match_in_subpat_vvar_with_head : ℕ → ℕ → Bytes → (ℕ → ℕ) → ℕ → VvarRst × ℕ
unfolding match_in_subpat_var_forward get_lcs_dp_optc
match_in_subpat_vvar_with_head tag maxlen pat source e =
    let lcs = get_lcs_dp_optc source (at pat) (e - 1) (length pat) true in
    let (count, i') = match_in_subpat_var_forward tag maxlen source e (lcs.pos1 + length pat) in
    if lcs.len == length pat then (vvar_rst count, lcs.pos1) else (no_const, e)
