-- ===== src/Analytics/Tests.antt =====
-- Concrete traces, and the theorems on call trees and queries at concrete inputs.
use micromegas.Prelude.{
  ℕ, ◌+◌, ◌*◌, ◌≡◌, refl, ℤ, pos, add_i64, sub_i64, i64_of_bits, bits_of_i64, lookup, String, List,
  [], ◌∷◌, Option, none, some, ok, ◌==◌, inl, inr, All, Bool-cases, ◌>>=◌, if◌then◌else◌, length,
  or_insert, arith,
}
use micromegas.Transit.Bytes.{le_bytes}
use mathlib.Core.Path.{subst}
use mathlib.Core.Option.{some-injective}
use micromegas.Analytics.Columns.{Strings, AreIn}
use micromegas.Analytics.Columns.Counted.{counted, counted-HasEnough}
use micromegas.Analytics.Time.{F64, ConvertTicks, from_meta_data, ticks_to_nanoseconds}
use micromegas.Analytics.Scope.{ScopeDesc, ScopeHashMap, new_scope, compute_scope_hash}
use micromegas.Analytics.ThreadBlock.{ThreadEvent, begin_scope, end_scope, process_events, on_event}
use micromegas.Analytics.CallTree.Tree.{Node, node, nil, cons, Every, size}
use micromegas.Analytics.CallTree.{
  CallTree, make_call_tree, process_blocks, new_builder, on_begin_thread_scope, on_end_thread_scope,
  close_top, add_child_to_top, add_child, record_scope_desc, finish, root_of, collapse,
}
use micromegas.Analytics.CallTree.Invariant.{InRange, make_call_tree-Every}
use micromegas.Analytics.CallTree.Trace
use micromegas.Analytics.CallTree.Trace.{
  Call, Calls, call, also, trees, events, events_all, Within, WithinAll, count, count_all,
}
use micromegas.Analytics.CallTree.Trace.Blocks.{make_call_tree-events}
use micromegas.Analytics.SpanTable.{SpanRow, Rows, append_call_tree}
use micromegas.Analytics.SpanTable.Rows.{RowIn, ScopesIn, append_call_tree-make_call_tree}
use micromegas.Analytics.QuerySpans
use micromegas.Analytics.QuerySpans.{BlockMetadata, Query, query_spans, query_blocks}
use micromegas.Analytics.QuerySpans.Gaps.{query_spans_gap}

-- Floats that are integers, on a clock of one tick a nanosecond.
abbrev floats : F64
floats = record {
  Float = ℤ;
  of_i64 = λ n. n;
  add = add_i64;
  mul = λ a b. a;
  div = λ a b. a;
  round = λ a. a;
  to_i64 = λ a. a;
}

abbrev clock : ConvertTicks floats
clock = from_meta_data floats (pos 0) (pos 0) (pos 1_000_000_000)

abbrev hash : List ℕ → ℕ → ℕ
hash bytes seed = length bytes + 10 * seed

abbrev scope : ℕ → ScopeDesc
scope letter = record { name = letter ∷ []; filename = []; target = []; line = 1; hash = letter }

abbrev thread_name : List ℕ
thread_name = 116 ∷ []

-- A call from 10 to 40 with a call from 20 to 30 in it.
abbrev outer : Call
outer =
    call (pos 0) (pos 3) (scope 97) (pos 10) (pos 40)
      (also (call (pos 1) (pos 2) (scope 98) (pos 20) (pos 30) Trace.none) Trace.none)

abbrev two_blocks : List (String × List ThreadEvent)
two_blocks =
    ("b1", begin_scope (pos 0) (scope 97) (pos 10) ∷ begin_scope (pos 1) (scope 98) (pos 20) ∷ [])
    ∷ ("b2", end_scope (pos 2) (scope 98) (pos 30) ∷ end_scope (pos 3) (scope 97) (pos 40) ∷ [])
    ∷ []

abbrev query : Query floats
query = record {
  relative_begin_ticks = pos 0;
  relative_end_ticks = pos 100;
  limit = pos 50;
  start_ticks = pos 0;
  convert_ticks = clock;
  thread_name = thread_name;
  payload = λ id. [];
}

abbrev block : String → ℕ → ℕ → BlockMetadata
block id begin end = record { block_id = id; begin_ticks = pos begin; end_ticks = pos end }

abbrev root : Node
root = node Option.none 1004 (pos 0) (pos 100) (
    cons
      (node (some (pos 0)) 97 (pos 10) (pos 40)
        (cons (node (some (pos 1)) 98 (pos 20) (pos 30) nil) nil))
      nil)

abbrev built : CallTree
built = record {
  scopes = (98, scope 98) ∷ (97, scope 97) ∷ (1004, new_scope hash thread_name [] [] 0) ∷ [];
  call_tree_root = some root;
}

outer-Within :
    WithinAll (ticks_to_nanoseconds floats clock) (pos 0) (pos 100) (also outer Trace.none)
unfolding WithinAll Within ticks_to_nanoseconds from_meta_data add_i64 i64_of_bits bits_of_i64
    sub_i64
outer-Within = (
  (
    omega arith,
    omega arith,
    omega arith,
    omega arith,
    ((omega arith, omega arith, omega arith, omega arith, tt), tt),
  ),
  tt,
)

make_call_tree-built :
    make_call_tree floats hash two_blocks (pos 0) (pos 100) (pos 50) clock thread_name ≡ ok built
unfolding make_call_tree process_blocks new_builder process_events on_event on_begin_thread_scope
    on_end_thread_scope close_top add_child_to_top add_child record_scope_desc finish root_of
    collapse new_scope compute_scope_hash or_insert ticks_to_nanoseconds from_meta_data add_i64
    i64_of_bits bits_of_i64 sub_i64 lookup le_bytes
make_call_tree-built = refl

make_call_tree-events_example :
    (tree : CallTree) × (make_call_tree floats hash two_blocks
        (pos 0)
        (pos 100)
        (pos 50)
        clock
        thread_name
      ≡ ok tree)
    × (tree.call_tree_root
        ≡ some (
            node Option.none
              (new_scope hash thread_name [] [] 0).hash
              (pos 0)
              (pos 100)
              (trees (ticks_to_nanoseconds floats clock) (also outer Trace.none))))
unfolding events_all events count_all count
make_call_tree-events_example =
    make_call_tree-events floats hash outer Trace.none two_blocks (pos 0) (pos 100) (pos 50) clock
      thread_name refl outer-Within (omega arith)

make_call_tree-Every_example : Every (InRange built.scopes (pos 0) (pos 100)) root
make_call_tree-Every_example =
    make_call_tree-Every floats hash two_blocks (pos 0) (pos 100) (pos 50) clock thread_name built
      root make_call_tree-built refl

-- The strings of the scopes that were built.
abbrev built_strings : Strings
built_strings = record {
  names = (98 ∷ []) ∷ (97 ∷ []) ∷ thread_name ∷ [];
  targets = [] ∷ [];
  filenames = [] ∷ [];
}

scopes-ScopesIn :
    (scopes : ScopeHashMap)
    → All (λ (e : ℕ × ScopeDesc). AreIn built_strings e.1.name e.1.target e.1.filename) scopes
    → ScopesIn built_strings scopes
unfolding lookup
scopes-ScopesIn [] h key scope found = cc
scopes-ScopesIn ((j, v) ∷ scopes) (h, hs) key scope found = elim (Bool-cases (j == key)) [
  | inl same ↦
      let v_is : v ≡ scope = some-injective _ _ (rw same at found) in
      subst (λ s. AreIn built_strings s.name s.target s.filename) v_is h
  | inr other ↦ scopes-ScopesIn scopes hs key scope (rw other at found)
]

built-ScopesIn : ScopesIn built_strings built.scopes
unfolding new_scope
built-ScopesIn = scopes-ScopesIn built.scopes (
  (inl refl, inl refl, inl refl),
  ((inr (inl refl), inl refl, inl refl), ((inr (inr (inl refl)), inl refl, inl refl), tt)),
)

append_call_tree-make_call_tree_example :
    (after : Rows) × (append_call_tree counted built [] ≡ ok after)
    × (length after ≡ length {A = SpanRow × ℤ} [] + size root)
    × All (RowIn built_strings) after
append_call_tree-make_call_tree_example =
    append_call_tree-make_call_tree counted counted-HasEnough built_strings
      (omega arith, omega arith, omega arith) floats hash two_blocks (pos 0) (pos 100) (pos 50)
      clock thread_name built root [] make_call_tree-built refl built-ScopesIn tt

-- The block "b2" does not begin where "b1" ends, and only "b1" is looked at.
query_spans_gap_example :
    query_spans floats hash counted query (block "b1" 0 10 ∷ block "b2" 15 20 ∷ []) ≡ (do
      (rows, continue) ←
          QuerySpans.append_call_tree floats hash counted query (block "b1" 0 10 ∷ []) []
      if continue then query_blocks floats hash counted query [] none [] rows else ok rows)
query_spans_gap_example =
    query_spans_gap floats hash counted query (block "b1" 0 10) (block "b2" 15 20) [] [] tt refl
