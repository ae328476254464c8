-- ===== src/Template/File/Empty.antt =====
-- variable_mapping of compression/main.cpp: an empty column for each variable.
use log_grep.Prelude.{
  ℕ, zero, suc, ◌+◌, ◌*◌, ◌<◌, ◌≡◌, ◌≢◌, inl, inr, refl, ◌∙◌, ◌==◌, Bool-cases, List, [], ◌∷◌, ◌++◌,
  append_assoc, length, put, find-put_self, find-put_ne, arith,
}
use log_grep.Template.Node.{Node}
use log_grep.Template.Columns.{Columns, new_var_array, var_name}
use log_grep.Template.Columns.Store.{HasColumn}
use log_grep.Template.Parser.{count}
use log_grep.Template.Parser.Valid.{
  all_nodes, holders, holders-append, AllNodes, AllNodes-append, AllNodes-parts,
}
use log_grep.Template.File.{node_columns, nodes_columns, pool_columns}
use log_grep.Template.File.Lines.{HasColumns, AllNodes-map}

-- A new column in place of an empty one, or beside it.
HasColumn-put :
    (vars : Columns) (name size eid t : ℕ)
    → 0 < size
    → HasColumn vars eid t 0
    → HasColumn (put name (new_var_array name size) vars) eid t 0
unfolding new_var_array
HasColumn-put vars name size eid t pos (a, there, ok, len) =
    elim (Bool-cases (var_name eid t == name)) [
      | inl e ↦
          let it : var_name eid t ≡ name = ground arith in
          (
            new_var_array name size,
            rw it (find-put_self name (new_var_array name size) vars),
            record { roomy = pos; bounded = omega arith },
            refl,
          )
      | inr e ↦
          let ne : var_name eid t ≢ name = ground arith in
          (a, find-put_ne name (var_name eid t) (new_var_array name size) vars ne ∙ there, ok, len)
    ]

node_columns-kept :
    (eid i : ℕ) (idx : List ℕ) (size : ℕ) (vars : Columns) (e t : ℕ)
    → 0 < size
    → HasColumn vars e t 0
    → HasColumn (node_columns eid i idx size vars) e t 0
unfolding node_columns
node_columns-kept eid i [] size vars e t pos h = h
node_columns-kept eid i (v ∷ idx) size vars e t pos h =
    node_columns-kept eid (suc i) idx size
      (put (var_name eid i) (new_var_array (var_name eid i) size) vars) e t pos
      (HasColumn-put vars (var_name eid i) size e t pos h)

node_columns-new :
    (eid i : ℕ) (idx : List ℕ) (size : ℕ) (vars : Columns) (k : ℕ)
    → 0 < size
    → k < length idx
    → HasColumn (node_columns eid i idx size vars) eid (i + k) 0
unfolding node_columns new_var_array
node_columns-new eid i [] size vars k pos lt = absurd (omega arith)
node_columns-new eid i (v ∷ idx) size vars zero pos lt =
    let on : i + 0 ≡ i = omega arith in
    let name = var_name eid i in
    let vars₁ = put name (new_var_array name size) vars in
    rw on (
      node_columns-kept eid (suc i) idx size vars₁ eid i pos (
        new_var_array name size,
        find-put_self name (new_var_array name size) vars,
        record { roomy = pos; bounded = omega arith },
        refl,
      ))
node_columns-new eid i (v ∷ idx) size vars (suc k) pos lt =
    let on : i + suc k ≡ suc i + k = omega arith in
    rw on (
      node_columns-new eid (suc i) idx size
        (put (var_name eid i) (new_var_array (var_name eid i) size) vars) k pos (omega arith))

-- Templates whose sample lines were counted, and the columns made for them.
abbrev pub AreCounted : List (ℕ × ℕ) → List Node → Type 0
AreCounted stc = AllNodes (λ n. 0 < count n.eid stc)

nodes_columns-kept :
    (stc : List (ℕ × ℕ)) (nodes : List Node) (vars : Columns) (e t : ℕ)
    → AreCounted stc nodes
    → HasColumn vars e t 0
    → HasColumn (nodes_columns stc nodes vars) e t 0
unfolding nodes_columns
nodes_columns-kept stc [] vars e t counted h = h
nodes_columns-kept stc (node ∷ nodes) vars e t counted h =
    let size = count node.eid stc * 400 in
    let pos : 0 < size = let c = counted.0 in omega arith in
    nodes_columns-kept stc nodes (node_columns node.eid 0 node.var_index size vars) e t counted.1
      (node_columns-kept node.eid 0 node.var_index size vars e t pos h)

nodes_columns-new :
    (stc : List (ℕ × ℕ)) (nodes : List Node) (vars : Columns)
    → AreCounted stc nodes
    → AllNodes (HasColumns (nodes_columns stc nodes vars) (λ eid. 0)) nodes
unfolding nodes_columns
nodes_columns-new stc [] vars counted = tt
nodes_columns-new stc (node ∷ nodes) vars counted =
    let size = count node.eid stc * 400 in
    let pos : 0 < size = let c = counted.0 in omega arith in
    let vars₁ = node_columns node.eid 0 node.var_index size vars in
    (
      λ t lt.
          let on : 0 + t ≡ t = omega arith in
          nodes_columns-kept stc nodes vars₁ node.eid t counted.1
            (rw on at (node_columns-new node.eid 0 node.var_index size vars t pos lt)),
      nodes_columns-new stc nodes vars₁ counted.1,
    )

pool_columns-kept :
    (stc : List (ℕ × ℕ)) (pool : List (ℕ × List Node)) (vars : Columns) (e t : ℕ)
    → AreCounted stc (all_nodes pool)
    → HasColumn vars e t 0
    → HasColumn (pool_columns stc pool vars) e t 0
unfolding pool_columns
pool_columns-kept stc [] vars e t counted h = h
pool_columns-kept stc ((k, nodes) ∷ pool) vars e t counted h =
    let parts = AllNodes-parts (λ n. 0 < count n.eid stc) nodes (all_nodes pool) counted in
    pool_columns-kept stc pool (nodes_columns stc nodes vars) e t parts.1
      (nodes_columns-kept stc nodes vars e t parts.0 h)

pub pool_columns-new :
    (stc : List (ℕ × ℕ)) (pool : List (ℕ × List Node)) (vars : Columns)
    → AreCounted stc (all_nodes pool)
    → AllNodes (HasColumns (pool_columns stc pool vars) (λ eid. 0)) (all_nodes pool)
unfolding pool_columns
pool_columns-new stc [] vars counted = tt
pool_columns-new stc ((k, nodes) ∷ pool) vars counted =
    let parts = AllNodes-parts (λ n. 0 < count n.eid stc) nodes (all_nodes pool) counted in
    let vars₁ = nodes_columns stc nodes vars in
    AllNodes-append _ nodes (all_nodes pool)
      (AllNodes-map (HasColumns vars₁ (λ eid. 0)) _ nodes
        (λ n h t lt. pool_columns-kept stc pool vars₁ n.eid t parts.1 (h t lt))
        (nodes_columns-new stc nodes vars parts.0))
      (pool_columns-new stc pool vars₁ parts.1)

pub held : (before nodes : List Node) → AllNodes (λ n. 0 < holders n.eid (before ++ nodes)) nodes
held before [] = tt
held before (node ∷ nodes) =
    let self : holders node.eid (node ∷ nodes) ≡ suc (holders node.eid nodes) = ground arith in
    let sum = holders-append node.eid before (node ∷ nodes) in
    let regroup = append_assoc before (node ∷ []) nodes in
    (
      omega arith,
      AllNodes-map _ _ nodes (λ n h. rw regroup at h) (held (before ++ (node ∷ [])) nodes),
    )
