-- ===== src/Logic/Run.antt =====
-- A whole query of SearchByLogic (cmdline_loggrep/LogStore_API.cpp), as the calls of SearchByLogic_norm
-- and SearchByLogic_not that it makes, with nothing in the cache of the session.
use log_grep.Prelude.{
  ℕ, ◌≤◌, ◌≡◌, ◌≢◌, refl, sym, subst, Bool, true, false, ◌||◌, Bool-cases, inl, inr, Option, none,
  some, ◌>>=◌, List, [], ◌∷◌, length, find, put, find-put_ne,
}
use log_grep.BitMap.{BitMap, new, set_size, is_full, size_is}
use log_grep.Logic.{
  LogPattern, Query, Searches, outliers, Entry, unless_empty, norm_entry, not_entry, norm_outliers,
  not_outliers, search_by_logic_norm, search_by_logic_not,
}
use log_grep.Logic.Entries.{is_axb, AreAnswers}
use log_grep.Logic.Passes.{
  Patterns, Bitmaps, AllPatterns, AllPatterns-map, AllPatterns-both, AreKeys, each_pattern-all,
}
use log_grep.Logic.Steps.{
  Agrees, Shows, Shows-Agrees, Step, also, but_not, query_of, narrowed, norm_works, not_works,
}

-- The searches in the outliers end.
abbrev pub AreReaders : Searches → Type 0
AreReaders s =
    (q : Query) (inverse : Bool) (b : BitMap) → (b' : BitMap) × (outliers s q inverse b ≡ some b')

norm_outliers-some :
    (s : Searches) (q : Query) (n : ℕ) (e : Entry)
    → AreReaders s
    → (e' : Option BitMap) × (norm_outliers s q n e ≡ some e')
unfolding norm_outliers
norm_outliers-some s q n none reads =
    let (b, done) = reads q false (set_size (new n)) in (unless_empty b, rw done refl)
norm_outliers-some s q n (some none) reads = (none, refl)
norm_outliers-some s q n (some (some b)) reads =
    elim (Bool-cases (is_full b.size || size_is b.size 0)) [
      | inl e ↦ (some b, rw e refl)
      | inr e ↦ let (b', done) = reads q false b in (unless_empty b', rw (e, done) refl)
    ]

not_outliers-some :
    (s : Searches) (q : Query) (e : Entry)
    → AreReaders s
    → (e' : Option BitMap) × (not_outliers s q e ≡ some e')
unfolding not_outliers
not_outliers-some s q none reads = (none, refl)
not_outliers-some s q (some none) reads = (none, refl)
not_outliers-some s q (some (some b)) reads =
    elim (Bool-cases (is_full b.size || size_is b.size 0)) [
      | inl e ↦ (some b, rw e refl)
      | inr e ↦ let (b', done) = reads q true b in (unless_empty b', rw (e, done) refl)
    ]

-- The outliers' key is no pattern's.
kept_beside :
    (P : LogPattern → Entry → Type 0) (pats : Patterns) (bitmaps : Bitmaps) (outl : ℕ)
    (e : Option BitMap)
    → AllPatterns (λ k pat. k ≢ outl) pats
    → AllPatterns (λ k pat. P pat (find k bitmaps)) pats
    → AllPatterns (λ k pat. P pat (find k (put outl e bitmaps))) pats
kept_beside P pats bitmaps outl e ne h =
    AllPatterns-map (λ k pat. P pat (find k bitmaps) × (k ≢ outl))
      (λ k pat. P pat (find k (put outl e bitmaps))) pats
      (λ k pat both. subst (P pat) (sym (find-put_ne outl k e bitmaps both.1)) both.0)
      (AllPatterns-both (λ k pat. P pat (find k bitmaps)) (λ k pat. k ≢ outl) pats h ne)

-- the steps of a query in their order
unfoldable pub run : Searches → BitMap → ℕ → ℕ → Patterns → List Step → Bitmaps → Option Bitmaps
unfolding search_by_logic_norm search_by_logic_not
run s exchange outl n pats [] bitmaps = some bitmaps
run s exchange outl n pats (also q ∷ steps) bitmaps =
    search_by_logic_norm s outl n pats q bitmaps >>= run s exchange outl n pats steps
run s exchange outl n pats (but_not q ∷ steps) bitmaps =
    search_by_logic_not s exchange outl pats q bitmaps >>= run s exchange outl n pats steps

-- A line that the first step shows and no later one takes away.
abbrev pub narrowed_all :
    (Query → LogPattern → ℕ → Bool) → List Step → (LogPattern → ℕ → Bool) → LogPattern → ℕ → Bool
narrowed_all hits [] S = S
narrowed_all hits (step ∷ steps) S = narrowed_all hits steps (narrowed hits step S)

abbrev pub ArePlain : List Step → Type 0
ArePlain [] = Unit
ArePlain (step ∷ steps) = (is_axb (query_of step) ≡ false) × ArePlain steps

-- What a query works on: patterns with keys of their own, an exchange bitmap for the longest of them,
-- and searches that answer.
pub record IsStore (s : Searches) (hits : Query → LogPattern → ℕ → Bool) (exchange : BitMap)
    (outl : ℕ) (pats : Patterns) : Type 0 where
  pub answers : AreAnswers s hits
  pub readers : AreReaders s
  pub cells : length exchange.index ≡ exchange.total_size
  pub wide : AllPatterns (λ k pat. pat.count ≤ exchange.total_size) pats
  pub keys : AreKeys pats
  pub apart : AllPatterns (λ k pat. k ≢ outl) pats

module _ (s : Searches) (hits : Query → LogPattern → ℕ → Bool) (exchange : BitMap) (outl n : ℕ)
    (pats : Patterns) (store : IsStore s hits exchange outl pats) where
  norm_step :
      (q : Query) (S : LogPattern → ℕ → Bool) (bitmaps : Bitmaps)
      → is_axb q ≡ false
      → AllPatterns (λ k pat. Agrees S pat (find k bitmaps)) pats
      → (bitmaps' : Bitmaps) × (search_by_logic_norm s outl n pats q bitmaps ≡ some bitmaps')
        × AllPatterns (λ k pat. Shows (narrowed hits (also q) S) pat (find k bitmaps')) pats
  unfolding search_by_logic_norm
  norm_step q S bitmaps plain before =
      let (bitmaps₁, done, shown, keeps) =
        each_pattern-all (norm_entry s q) (Agrees S) (Shows (narrowed hits (also q) S))
          (norm_works s hits q S store.answers plain) pats bitmaps store.keys before in
      let (e, read) = norm_outliers-some s q n (find outl bitmaps₁) store.readers in
      (
        put outl e bitmaps₁,
        rw (done, read) refl,
        kept_beside (Shows (narrowed hits (also q) S)) pats bitmaps₁ outl e store.apart shown,
      )

  not_step :
      (q : Query) (S : LogPattern → ℕ → Bool) (bitmaps : Bitmaps)
      → is_axb q ≡ false
      → AllPatterns (λ k pat. Shows S pat (find k bitmaps)) pats
      → (bitmaps' : Bitmaps) × (search_by_logic_not s exchange outl pats q bitmaps ≡ some bitmaps')
        × AllPatterns (λ k pat. Shows (narrowed hits (but_not q) S) pat (find k bitmaps')) pats
  unfolding search_by_logic_not
  not_step q S bitmaps plain before =
      let ready =
        AllPatterns-both (λ k pat. Shows S pat (find k bitmaps))
          (λ k pat. pat.count ≤ exchange.total_size) pats before store.wide in
      let (bitmaps₁, done, shown, keeps) =
        each_pattern-all (not_entry s exchange q)
          (λ pat e. Shows S pat e × (pat.count ≤ exchange.total_size))
          (Shows (narrowed hits (but_not q) S))
          (not_works s exchange hits q S store.answers plain store.cells) pats bitmaps store.keys
          ready in
      let (e, read) = not_outliers-some s q (find outl bitmaps₁) store.readers in
      (
        put outl e bitmaps₁,
        rw (done, read) refl,
        kept_beside (Shows (narrowed hits (but_not q) S)) pats bitmaps₁ outl e store.apart shown,
      )

  run_rest :
      (steps : List Step) (S : LogPattern → ℕ → Bool) (bitmaps : Bitmaps)
      → ArePlain steps
      → AllPatterns (λ k pat. Shows S pat (find k bitmaps)) pats
      → (bitmaps' : Bitmaps) × (run s exchange outl n pats steps bitmaps ≡ some bitmaps')
        × AllPatterns (λ k pat. Shows (narrowed_all hits steps S) pat (find k bitmaps')) pats
  unfolding run
  run_rest [] S bitmaps plain shown = (bitmaps, refl, shown)
  run_rest (also q ∷ steps) S bitmaps plain shown =
      let agrees =
        AllPatterns-map (λ k pat. Shows S pat (find k bitmaps))
          (λ k pat. Agrees S pat (find k bitmaps)) pats
          (λ k pat h. Shows-Agrees S pat (find k bitmaps) h) shown in
      let (bitmaps₁, done, shown₁) = norm_step q S bitmaps plain.0 agrees in
      let (bitmaps', rest, all_shown) =
        run_rest steps (narrowed hits (also q) S) bitmaps₁ plain.1 shown₁ in
      (bitmaps', rw done rest, all_shown)
  run_rest (but_not q ∷ steps) S bitmaps plain shown =
      let (bitmaps₁, done, shown₁) = not_step q S bitmaps plain.0 shown in
      let (bitmaps', rest, all_shown) =
        run_rest steps (narrowed hits (but_not q) S) bitmaps₁ plain.1 shown₁ in
      (bitmaps', rw done rest, all_shown)

  unsearched : (pats : Patterns) → AllPatterns (λ k pat. Agrees (λ pat p. true) pat none) pats
  unsearched [] = tt
  unsearched ((k, pat) ∷ pats) = ((tt, λ p. refl), unsearched pats)

  -- A query that begins with a search, without stars, with every search as the interface says: it comes
  -- to an end, and of each pattern shows the lines that match the first part and all parts behind
  -- an AND, and no part behind a NOT.
  pub run-Shows :
      (q : Query) (steps : List Step)
      → ArePlain (also q ∷ steps)
      → (bitmaps : Bitmaps) × (run s exchange outl n pats (also q ∷ steps) [] ≡ some bitmaps)
        × AllPatterns
            (λ k pat.
              Shows (narrowed_all hits (also q ∷ steps) (λ pat p. true)) pat (find k bitmaps))
            pats
  unfolding run
  run-Shows q steps plain =
      let (bitmaps₁, done, shown) = norm_step q (λ pat p. true) [] plain.0 (unsearched pats) in
      let (bitmaps, rest, all_shown) =
        run_rest steps (narrowed hits (also q) (λ pat p. true)) bitmaps₁ plain.1 shown in
      (bitmaps, rw done rest, all_shown)
