-- ===== src/Analytics/SpanTable.antt =====
-- rust/analytics/src/span_table.rs: the rows of a call tree, parents first. The columns of the arrow
-- builders are one list of rows.
pub mod Rows
use micromegas.Prelude.{
  ℕ, ◌+◌, ◌%◌, ◌^◌, ℤ, pos, negsuc, sub_i64, List, [], ◌∷◌, ◌++◌, Option, none, some, Result, ok,
  bail, or_fail, ◌>>=◌, ◌>>◌, lookup,
}
use micromegas.Analytics.Columns.{HasKey, keys_i16, append_value}
use micromegas.Analytics.Scope.{ScopeDesc, ScopeHashMap}
use micromegas.Analytics.CallTree.Tree.{Node, Nodes, node, nil, cons}
use micromegas.Analytics.CallTree.{CallTree}

pub record SpanRow : Type 0 where
  pub id : ℤ
  pub parent : ℤ
  pub depth : ℕ
  pub begin : ℤ
  pub end : ℤ
  pub hash : ℕ
  pub name : List ℕ
  pub target : List ℕ
  pub filename : List ℕ
  pub line : ℕ

-- A row with the duration that `SpanRecordBuilder::append` adds.
abbrev pub Rows : Type 0
Rows = List (SpanRow × ℤ)

-- `node.id.unwrap_or(-1)`
abbrev pub id_or_none : Option ℤ → ℤ
id_or_none none = negsuc 0
id_or_none (some id) = id

module _ {S : Type 0} (process_node : Node → ℤ → ℕ → S → Result S) where
  unfoldable mutual
    pub for_each_node_in_tree : Node → ℤ → ℕ → S → Result S
    for_each_node_in_tree (node id hash begin end children) parent depth s = do
      s' ← process_node (node id hash begin end children) parent depth s
      for_each_child children (id_or_none id) ((depth + 1) % 2 ^ 32) s'

    pub for_each_child : Nodes → ℤ → ℕ → S → Result S
    for_each_child nil parent depth s = ok s
    for_each_child (cons n ns) parent depth s = do
      s' ← for_each_node_in_tree n parent depth s
      for_each_child ns parent depth s'

module _ (has_key : HasKey) where
  unfoldable pub append : SpanRow → Rows → Result Rows
  append row rows = do
    append_value has_key keys_i16 (λ (r : SpanRow × ℤ). r.0.name) rows row.name
    append_value has_key keys_i16 (λ (r : SpanRow × ℤ). r.0.target) rows row.target
    append_value has_key keys_i16 (λ (r : SpanRow × ℤ). r.0.filename) rows row.filename
    ok (rows ++ (row, sub_i64 row.end row.begin) ∷ [])

  -- The closure of `append_call_tree`: the row of one node.
  unfoldable pub append_node : ScopeHashMap → Node → ℤ → ℕ → Rows → Result Rows
  append_node scopes (node id hash begin end children) parent depth rows = do
    scope_desc ← or_fail (lookup hash scopes) bail
    append
        (record {
          id = id_or_none id;
          parent = parent;
          depth = depth;
          begin = begin;
          end = end;
          hash = hash;
          name = scope_desc.name;
          target = scope_desc.target;
          filename = scope_desc.filename;
          line = scope_desc.line;
        })
        rows

  append_root : ScopeHashMap → Option Node → Rows → Result Rows
  append_root scopes none rows = ok rows
  append_root scopes (some root) rows =
      for_each_node_in_tree (append_node scopes) root (pos 0) 0 rows

  unfoldable pub append_call_tree : CallTree → Rows → Result Rows
  unfolding append_root
  append_call_tree tree rows = append_root tree.scopes tree.call_tree_root rows
