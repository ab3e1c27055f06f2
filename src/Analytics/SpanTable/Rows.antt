-- ===== src/Analytics/SpanTable/Rows.antt =====
-- A call tree that was built becomes rows, one for each node.
use micromegas.Prelude.{
  ℕ, ◌+◌, ◌%◌, ◌^◌, ℤ, pos, sub_i64, String, ◌≡◌, refl, List, [], ◌∷◌, ◌++◌, All, All-append, some,
  Result, ok, lookup, length, length-append, arith, Option-cases, inl, inr,
}
use micromegas.Analytics.Time.{F64, ConvertTicks}
use micromegas.Analytics.Columns.{
  HasKey, HasEnough, Strings, HaveKeys, AreIn, keys_i16, append_value-ok,
}
use micromegas.Analytics.Scope.{ScopeDesc, ScopeHashMap}
use micromegas.Analytics.ThreadBlock.{ThreadEvent}
use micromegas.Analytics.CallTree.Tree.{
  Node, Nodes, node, nil, cons, size, size_all, Every, EveryChild,
}
use micromegas.Analytics.CallTree.{CallTree, make_call_tree}
use micromegas.Analytics.CallTree.Invariant.{InRange, make_call_tree-Every}
use micromegas.Analytics.SpanTable.{
  SpanRow, Rows, append, id_or_none, for_each_node_in_tree, for_each_child, append_node,
  append_call_tree,
}

-- The strings of a row, and of the scopes of a tree, are among those that the columns have keys for.
abbrev pub RowIn : Strings → SpanRow × ℤ → Type 0
RowIn k (row, duration) = AreIn k row.name row.target row.filename

abbrev pub ScopesIn : Strings → ScopeHashMap → Type 0
ScopesIn k scopes =
    (hash : ℕ) (scope : ScopeDesc)
    → lookup hash scopes ≡ some scope
    → AreIn k scope.name scope.target scope.filename

module _ (has_key : HasKey) (enough : HasEnough has_key) (k : Strings) (small : HaveKeys k) where
  -- The rows that come out of a traversal, and how many there are.
  abbrev Adds : Result Rows → Rows → ℕ → Type 0
  Adds r before n =
      (after : Rows) × (r ≡ ok after) × (length after ≡ length before + n) × All (RowIn k) after

  append-Adds :
      (row : SpanRow) (rows : Rows)
      → AreIn k row.name row.target row.filename
      → All (RowIn k) rows
      → Adds (append has_key row rows) rows 1
  unfolding append
  append-Adds row rows (name, target, filename) hs =
      let one = append_value-ok has_key {Row = SpanRow × ℤ} enough keys_i16 in
      (
        rows ++ (row, sub_i64 row.end row.begin) ∷ [],
        rw
            (
              one k.names (λ r. r.0.name) (RowIn k) (λ r h. h.0) rows row.name small.0 hs name,
              one k.targets (λ r. r.0.target) (RowIn k) (λ r h. h.1) rows row.target small.1 hs
                  target,
              one k.filenames (λ r. r.0.filename) (RowIn k) (λ r h. h.2) rows row.filename small.2
                  hs filename,
            )
            refl,
        length-append rows ((row, sub_i64 row.end row.begin) ∷ []),
        All-append (RowIn k) rows ((row, sub_i64 row.end row.begin) ∷ []) hs
            ((name, target, filename), tt),
      )

  module _ (scopes : ScopeHashMap) (described : ScopesIn k scopes) (lo hi : ℤ) where
    append_node-Adds :
        (n : Node) (parent : ℤ) (depth : ℕ) (rows : Rows)
        → Every (InRange scopes lo hi) n
        → All (RowIn k) rows
        → Adds (append_node has_key scopes n parent depth rows) rows 1
    unfolding append_node Every
    append_node-Adds (node id hash begin end children) parent depth rows ((has, _), _) hs =
        elim (Option-cases (lookup hash scopes)) [
          | inl missing ↦ absurd (ground arith)
          | inr (scope, found) ↦ rw found (append-Adds _ rows (described hash scope found) hs)
        ]

    mutual
      unfolding for_each_node_in_tree size Every

      for_each_node-Adds :
          (n : Node) (parent : ℤ) (depth : ℕ) (rows : Rows)
          → Every (InRange scopes lo hi) n
          → All (RowIn k) rows
          → Adds
              (for_each_node_in_tree (append_node has_key scopes) n parent depth rows)
              rows
              (size n)
      for_each_node-Adds (node id hash begin end children) parent depth rows (here, below) hs =
          let (rows1, first, l1, hs1) =
            append_node-Adds (node id hash begin end children) parent depth rows (here, below) hs in
          let (rows2, rest, l2, hs2) =
            for_each_child-Adds children (id_or_none id) ((depth + 1) % 2 ^ 32) rows1 below hs1 in
          rw first (rows2, rest, omega arith, hs2)

      for_each_child-Adds :
          (ns : Nodes) (parent : ℤ) (depth : ℕ) (rows : Rows)
          → EveryChild (InRange scopes lo hi) ns
          → All (RowIn k) rows
          → Adds
              (for_each_child (append_node has_key scopes) ns parent depth rows)
              rows
              (size_all ns)
      for_each_child-Adds nil parent depth rows every hs = (rows, refl, omega arith, hs)
      for_each_child-Adds (cons n ns) parent depth rows (one, all) hs =
          let (rows1, first, l1, hs1) = for_each_node-Adds n parent depth rows one hs in
          let (rows2, rest, l2, hs2) = for_each_child-Adds ns parent depth rows1 all hs1 in
          rw first (rows2, rest, omega arith, hs2)

  -- Every tree with a root that `make_call_tree` returns becomes rows with no error, one row for each
  -- node, as long as the strings of its scopes and those of the rows before it are, column by column,
  -- among at most 32768 different ones.
  pub append_call_tree-make_call_tree :
      (f : F64) (xxh32 : List ℕ → ℕ → ℕ) (blocks : List (String × List ThreadEvent))
      (lo hi limit : ℤ) (convert_ticks : ConvertTicks f) (thread_name : List ℕ) (tree : CallTree)
      (root : Node) (rows : Rows)
      → make_call_tree f xxh32 blocks lo hi limit convert_ticks thread_name ≡ ok tree
      → tree.call_tree_root ≡ some root
      → ScopesIn k tree.scopes
      → All (RowIn k) rows
      → (after : Rows) × (append_call_tree has_key tree rows ≡ ok after)
        × (length after ≡ length rows + size root)
        × All (RowIn k) after
  unfolding append_call_tree
  append_call_tree-make_call_tree f xxh32 blocks lo hi limit c name tree root rows made found
        described hs =
      rw found (
        for_each_node-Adds tree.scopes described lo hi root (pos 0) 0 rows
          (make_call_tree-Every f xxh32 blocks lo hi limit c name tree root made found) hs)
