-- ===== src/Logic/Passes.antt =====
-- The passes of a query over all patterns (cmdline_loggrep/LogStore_API.cpp): SearchByLogic_OR and
-- SearchByLogic_and call SearchByLogic_norm for each part and SearchByLogic_not for what follows a NOT.
use log_grep.Prelude.{
  ℕ, ◌≡◌, ◌≢◌, refl, sym, subst, ◌∙◌, Option, some, List, [], ◌∷◌, find, put, find-put_self,
  find-put_ne,
}
use log_grep.BitMap.{BitMap}
use log_grep.Logic.{LogPattern, Entry, each_pattern}

abbrev pub Patterns : Type 0
Patterns = List (ℕ × LogPattern)

abbrev pub Bitmaps : Type 0
Bitmaps = List (ℕ × Option BitMap)

abbrev pub AllPatterns {ℓ} : (ℕ → LogPattern → Type ℓ) → Patterns → Type ℓ
AllPatterns P [] = Unit
AllPatterns P ((k, pat) ∷ pats) = P k pat × AllPatterns P pats

pub AllPatterns-map {ℓ κ} :
    (P : ℕ → LogPattern → Type ℓ) (Q : ℕ → LogPattern → Type κ) (pats : Patterns)
    → ((k : ℕ) (pat : LogPattern) → P k pat → Q k pat)
    → AllPatterns P pats
    → AllPatterns Q pats
AllPatterns-map P Q [] f h = tt
AllPatterns-map P Q ((k, pat) ∷ pats) f h = (f k pat h.0, AllPatterns-map P Q pats f h.1)

pub AllPatterns-both {ℓ κ} :
    (P : ℕ → LogPattern → Type ℓ) (Q : ℕ → LogPattern → Type κ) (pats : Patterns)
    → AllPatterns P pats
    → AllPatterns Q pats
    → AllPatterns (λ k pat. P k pat × Q k pat) pats
AllPatterns-both P Q [] hp hq = tt
AllPatterns-both P Q ((k, pat) ∷ pats) hp hq = ((hp.0, hq.0), AllPatterns-both P Q pats hp.1 hq.1)

-- Every key once.
abbrev pub AreKeys : Patterns → Type 0
AreKeys [] = Unit
AreKeys ((k, pat) ∷ pats) = AllPatterns (λ j other. j ≢ k) pats × AreKeys pats

-- A step that works on every entry, over all of them.
pub each_pattern-all {κ} :
    (step : LogPattern → Entry → Option (Option BitMap)) (Before : LogPattern → Entry → Type κ)
    (After : LogPattern → Entry → Type κ)
    → ((pat : LogPattern) (e : Entry)
        → Before pat e
        → (e' : Option BitMap) × (step pat e ≡ some e') × After pat (some e'))
    → (pats : Patterns) (bitmaps : Bitmaps) → AreKeys pats
    → AllPatterns (λ k pat. Before pat (find k bitmaps)) pats
    → (bitmaps' : Bitmaps) × (each_pattern step pats bitmaps ≡ some bitmaps')
      × AllPatterns (λ k pat. After pat (find k bitmaps')) pats
      × ((j : ℕ) → AllPatterns (λ k pat. k ≢ j) pats → find j bitmaps' ≡ find j bitmaps)
unfolding each_pattern
each_pattern-all step Before After works [] bitmaps keys before = (bitmaps, refl, tt, λ j ne. refl)
each_pattern-all step Before After works ((k, pat) ∷ pats) bitmaps keys before =
    let (e', done, after) = works pat (find k bitmaps) before.0 in
    let bitmaps₁ = put k e' bitmaps in
    let others =
      AllPatterns-both (λ j p. Before p (find j bitmaps)) (λ j p. j ≢ k) pats before.1 keys.0 in
    let before₁ =
      AllPatterns-map (λ j p. Before p (find j bitmaps) × (j ≢ k))
        (λ j p. Before p (find j bitmaps₁)) pats
        (λ j p h. subst (Before p) (sym (find-put_ne k j e' bitmaps h.1)) h.0) others in
    let (bitmaps', rest, afters, keeps) =
      each_pattern-all step Before After works pats bitmaps₁ keys.1 before₁ in
    let mine : find k bitmaps' ≡ some e' = keeps k keys.0 ∙ find-put_self k e' bitmaps in
    (
      bitmaps',
      rw done rest,
      (subst (After pat) (sym mine) after, afters),
      λ j ne. keeps j ne.1 ∙ find-put_ne k j e' bitmaps (λ e. ne.0 (sym e)),
    )
