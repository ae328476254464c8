-- ===== src/Logic/Steps.antt =====
-- A query's steps one after another (cmdline_loggrep/LogStore_API.cpp): SearchByLogic_norm for what AND
-- joins, SearchByLogic_not for what follows a NOT.
use log_grep.Prelude.{ℕ, ◌≤◌, ◌≡◌, Bool, false, not, ◌&&◌, Option, none, some, length, arith}
use log_grep.BitMap.{BitMap}
use log_grep.BitMap.Algebra.{on_lines}
use log_grep.Logic.{LogPattern, Query, Searches, Entry, norm_entry, not_entry}
use log_grep.Logic.Entries.{lines, IsEntry, is_axb, AreAnswers, norm_entry-Leaves, not_entry-Leaves}

-- An entry that shows the lines of `S`, and one that was searched.
abbrev pub Agrees : (LogPattern → ℕ → Bool) → LogPattern → Entry → Type 0
Agrees S pat e =
    IsEntry pat.count e × ((p : ℕ) → on_lines pat.count (lines e) p ≡ on_lines pat.count (S pat) p)

abbrev pub Shows : (LogPattern → ℕ → Bool) → LogPattern → Entry → Type 0
Shows S pat none = ⊥
Shows S pat (some left) = Agrees S pat (some left)

pub Shows-Agrees :
    (S : LogPattern → ℕ → Bool) (pat : LogPattern) (e : Entry) → Shows S pat e → Agrees S pat e
Shows-Agrees S pat none h = absurd h
Shows-Agrees S pat (some left) h = h

-- A step of a query: AND, or NOT.
pub data Step : Type 0 where
  also : Query → Step
  but_not : Query → Step

abbrev pub query_of : Step → Query
query_of (also q) = q
query_of (but_not q) = q

abbrev pub narrowed :
    (Query → LogPattern → ℕ → Bool) → Step → (LogPattern → ℕ → Bool) → LogPattern → ℕ → Bool
narrowed hits (also q) S pat p = S pat p && hits q pat p
narrowed hits (but_not q) S pat p = S pat p && not (hits q pat p)

cut_on :
    (n p : ℕ) (L S T R : ℕ → Bool)
    → on_lines n L p ≡ on_lines n S p
    → on_lines n R p ≡ on_lines n (λ p. L p && T p) p
    → on_lines n R p ≡ on_lines n (λ p. S p && T p) p
cut_on n p L S T R e r = ground arith

pub norm_works :
    (s : Searches) (hits : Query → LogPattern → ℕ → Bool) (q : Query) (S : LogPattern → ℕ → Bool)
    → AreAnswers s hits
    → is_axb q ≡ false
    → (pat : LogPattern) (e : Entry) → Agrees S pat e
    → (e' : Option BitMap) × (norm_entry s q pat e ≡ some e')
      × Shows (narrowed hits (also q) S) pat (some e')
norm_works s hits q S ans plain pat e (ok, agree) =
    let (e', done, ok', left) = norm_entry-Leaves s hits q pat e ans plain ok in
    (
      e',
      done,
      (
        ok',
        λ p. cut_on pat.count p (lines e) (S pat) (hits q pat) (lines (some e')) (agree p) (left p),
      ),
    )

pub not_works :
    (s : Searches) (exchange : BitMap) (hits : Query → LogPattern → ℕ → Bool) (q : Query)
    (S : LogPattern → ℕ → Bool)
    → AreAnswers s hits
    → is_axb q ≡ false
    → length exchange.index ≡ exchange.total_size
    → (pat : LogPattern) (e : Entry) → Shows S pat e × (pat.count ≤ exchange.total_size)
    → (e' : Option BitMap) × (not_entry s exchange q pat e ≡ some e')
      × Shows (narrowed hits (but_not q) S) pat (some e')
not_works s exchange hits q S ans plain cells pat none (shown, wide) = absurd shown
not_works s exchange hits q S ans plain cells pat (some left) ((ok, agree), wide) =
    let (e', done, ok', rest) =
      not_entry-Leaves s exchange hits q pat left ans plain cells wide ok in
    (
      e',
      done,
      (
        ok',
        λ p.
            cut_on pat.count p (lines (some left)) (S pat) (λ p. not (hits q pat p))
              (lines (some e')) (agree p) (rest p),
      ),
    )
