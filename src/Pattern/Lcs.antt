-- ===== src/Pattern/Lcs.antt =====
-- GetLCS_DPoptc of cmdline_loggrep/SearchAlgorithm.cpp: the longest common part of two strings.
pub mod Common
pub mod Longest
use log_grep.Prelude.{
  ℕ, zero, suc, ◌+◌, ◌-◌, Bool, true, false, ◌&&◌, ◌||◌, not, ◌==◌, ltb, leb, if◌then◌else◌,
}

pub record LcsMatch : Type 0 where
  pub len : ℕ
  pub pos1 : ℕ
  pub pos2 : ℕ

abbrev pub lcs_match : ℕ → ℕ → ℕ → LcsMatch
lcs_match len pos1 pos2 = record { len = len; pos1 = pos1; pos2 = pos2 }

abbrev pub no_match : LcsMatch
no_match = lcs_match 0 0 0

module _ (str1 str2 : ℕ → ℕ) (size1 size2 : ℕ) (be_replace : Bool) where
  -- A common part of `length` bytes ends in `m` and `n`: it is taken when it is longer than the best,
  -- and with beReplace when it is as long.
  unfoldable pub better : ℕ → ℕ → ℕ → LcsMatch → LcsMatch
  better m n length best =
      if ltb best.len length || (be_replace && best.len == length)
      then lcs_match length (m + 1 - length) (n + 1 - length)
      else best

  -- the loop along one diagonal; `f` is what is left of str1
  unfoldable pub diagonal : ℕ → ℕ → ℕ → ℕ → LcsMatch → LcsMatch
  unfolding better
  diagonal zero m n length best = best
  diagonal (suc f) m n length best =
      let same = str1 m == str2 n in
      let length' = if same then suc length else 0 in
      let rest =
        diagonal f (suc m) (suc n) length' (if same then better m n length' best else best) in
      if ltb m size1 && ltb n size2 then rest else best

  -- `if(size1-m <= res.Len || size2-n <= res.Len) break`
  unfoldable pub too_short : ℕ → ℕ → LcsMatch → Bool
  too_short m n best = not be_replace && (leb (size1 - m) best.len || leb (size2 - n) best.len)

  -- The loops over the diagonals that start in str1, and in str2. `f` is the number of those left.
  unfoldable pub from_first : ℕ → ℕ → LcsMatch → LcsMatch
  unfolding diagonal too_short
  from_first zero i best = best
  from_first (suc f) i best =
      let rest = from_first f (suc i) (diagonal size1 i 0 0 best) in
      if too_short i 0 best then best else rest

  unfoldable pub from_second : ℕ → ℕ → LcsMatch → LcsMatch
  unfolding diagonal too_short
  from_second zero i best = best
  from_second (suc f) i best =
      let rest = from_second f (suc i) (diagonal size1 0 i 0 best) in
      if too_short 0 i best then best else rest

  unfoldable pub get_lcs_dp_optc : LcsMatch
  unfolding from_first from_second
  get_lcs_dp_optc =
      if size1 == 0 || size2 == 0
      then no_match
      else from_second (size2 - 1) 1 (from_first size1 0 no_match)
