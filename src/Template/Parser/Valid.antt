-- ===== src/Template/Parser/Valid.antt =====
-- The templates of a parser (compression/LengthParser.cpp) and their numbers.
use log_grep.Prelude.{
  ℕ, suc, ◌+◌, ◌≤◌, ◌<◌, ◌≡◌, inl, inr, length, ltb, true, ◌==◌, Bool-cases, if◌then◌else◌, none,
  some, List, [], ◌∷◌, ◌++◌, append-nil, find, put, arith,
}
use log_grep.Template.Node.{Node}
use log_grep.Template.Node.Fill.{IsNode}
use log_grep.Template.Parser.{Parser, count}

-- all templates of the pool, in the order of its keys
abbrev pub all_nodes : List (ℕ × List Node) → List Node
all_nodes [] = []
all_nodes ((k, nodes) ∷ pool) = nodes ++ all_nodes pool

-- how many of them have the number `eid`
abbrev pub holders : ℕ → List Node → ℕ
holders eid [] = 0
holders eid (node ∷ nodes) = if node.eid == eid then suc (holders eid nodes) else holders eid nodes

abbrev pub AllNodes {ℓ} : (Node → Type ℓ) → List Node → Type ℓ
AllNodes P [] = Unit
AllNodes P (node ∷ nodes) = P node × AllNodes P nodes

pub AllNodes-append {ℓ} :
    (P : Node → Type ℓ) (xs ys : List Node) → AllNodes P xs → AllNodes P ys → AllNodes P (xs ++ ys)
AllNodes-append P [] ys hx hy = hy
AllNodes-append P (x ∷ xs) ys hx hy = (hx.0, AllNodes-append P xs ys hx.1 hy)

pub AllNodes-parts {ℓ} :
    (P : Node → Type ℓ) (xs ys : List Node) → AllNodes P (xs ++ ys) → AllNodes P xs × AllNodes P ys
AllNodes-parts P [] ys h = (tt, h)
AllNodes-parts P (x ∷ xs) ys h = let rest = AllNodes-parts P xs ys h.1 in ((h.0, rest.0), rest.1)

pub holders-append :
    (eid : ℕ) (xs ys : List Node) → holders eid (xs ++ ys) ≡ holders eid xs + holders eid ys
holders-append eid [] ys = omega arith
holders-append eid (x ∷ xs) ys = ground (arith, holders-append eid xs ys)

pub AllNodes-find {ℓ} :
    (P : Node → Type ℓ) (k : ℕ) (pool : List (ℕ × List Node)) (nodes : List Node)
    → find k pool ≡ some nodes
    → AllNodes P (all_nodes pool)
    → AllNodes P nodes
AllNodes-find P k [] nodes e h = absurd (ground arith)
AllNodes-find P k ((j, entry) ∷ pool) nodes e h =
    let parts = AllNodes-parts P entry (all_nodes pool) h in
    elim (Bool-cases (k == j)) [
      | inl same ↦ let it : entry ≡ nodes = ground arith in rw (← it) parts.0
      | inr other ↦ AllNodes-find P k pool nodes (ground arith) parts.1
    ]

-- What a `put` makes of all templates: those of the key's entry are exchanged.
pub AllNodes-put {ℓ} :
    (P : Node → Type ℓ) (k : ℕ) (new : List Node) (pool : List (ℕ × List Node))
    → AllNodes P new
    → AllNodes P (all_nodes pool)
    → AllNodes P (all_nodes (put k new pool))
AllNodes-put P k new [] hn h = rw (append-nil new) hn
AllNodes-put P k new ((j, entry) ∷ pool) hn h =
    let parts = AllNodes-parts P entry (all_nodes pool) h in
    elim (Bool-cases (k == j)) [
      | inl same ↦ rw same (AllNodes-append P new (all_nodes pool) hn parts.1)
      | inr other ↦ rw other (
          AllNodes-append P entry (all_nodes (put k new pool)) parts.0
            (AllNodes-put P k new pool hn parts.1))
    ]

-- the templates that `new` takes the place of
abbrev pub entry_of : ℕ → List (ℕ × List Node) → List Node
entry_of k pool = elim (find k pool) [ none ↦ [] | some nodes ↦ nodes ]

pub holders-put :
    (eid k : ℕ) (new : List Node) (pool : List (ℕ × List Node))
    → holders eid (all_nodes (put k new pool)) + holders eid (entry_of k pool)
      ≡ holders eid new + holders eid (all_nodes pool)
holders-put eid k new [] = rw (append-nil new) (omega arith)
holders-put eid k new ((j, entry) ∷ pool) = elim (Bool-cases (k == j)) [
  | inl same ↦ rw same (
      ground
        (arith, holders-append eid new (all_nodes pool), holders-append eid entry (all_nodes pool)))
  | inr other ↦ rw other (
      ground (
        arith,
        holders-append eid entry (all_nodes (put k new pool)),
        holders-append eid entry (all_nodes pool),
        holders-put eid k new pool,
      ))
]

-- Templates with no number from `k` on.
pub fresh-AllNodes :
    (k : ℕ) (nodes : List Node)
    → ((eid : ℕ) → k ≤ eid → holders eid nodes ≡ 0)
    → AllNodes (λ n. n.eid < k) nodes
fresh-AllNodes k [] h = tt
fresh-AllNodes k (x ∷ nodes) h = (
  elim (Bool-cases (ltb x.eid k)) [
    | inl e ↦ ground arith
    | inr e ↦
        let self : (x.eid == x.eid) ≡ true = ground arith in
        let gone = h x.eid (ground arith) in absurd (ground arith)
  ],
  fresh-AllNodes k nodes (λ eid le. let gone = h eid le in ground arith),
)

-- The templates under a key have as many places as it says.
abbrev pub IsKeyed : List (ℕ × List Node) → Type 0
IsKeyed [] = Unit
IsKeyed ((k, nodes) ∷ pool) = AllNodes (λ node. length node.pieces ≡ k) nodes × IsKeyed pool

pub IsKeyed-find :
    (k : ℕ) (pool : List (ℕ × List Node)) (nodes : List Node)
    → find k pool ≡ some nodes
    → IsKeyed pool
    → AllNodes (λ node. length node.pieces ≡ k) nodes
IsKeyed-find k [] nodes e h = absurd (ground arith)
IsKeyed-find k ((j, entry) ∷ pool) nodes e h = elim (Bool-cases (k == j)) [
  | inl same ↦
      let it : entry ≡ nodes = ground arith in let key : k ≡ j = ground arith in rw (← it, key) h.0
  | inr other ↦ IsKeyed-find k pool nodes (ground arith) h.1
]

pub IsKeyed-put :
    (k : ℕ) (new : List Node) (pool : List (ℕ × List Node))
    → AllNodes (λ node. length node.pieces ≡ k) new
    → IsKeyed pool
    → IsKeyed (put k new pool)
IsKeyed-put k new [] hn h = (hn, tt)
IsKeyed-put k new ((j, entry) ∷ pool) hn h = elim (Bool-cases (k == j)) [
  | inl same ↦ rw same (hn, h.1)
  | inr other ↦ rw other (h.0, IsKeyed-put k new pool hn h.1)
]

-- The templates have valid places, as many as their key says, numbers below the next one, at most one template each, and the
-- sample lines of each are counted.
pub record IsParser (p : Parser) : Type 0 where
  pub valid : AllNodes IsNode (all_nodes p.pool)
  pub keyed : IsKeyed p.pool
  pub unique : (eid : ℕ) → holders eid (all_nodes p.pool) ≤ 1
  pub fresh : (eid : ℕ) → p.now_eid ≤ eid → holders eid (all_nodes p.pool) ≡ 0
  pub sampled : (eid : ℕ) → 0 < holders eid (all_nodes p.pool) → 0 < count eid p.stc
