-- ===== src/Analytics/CallTree/Trace.antt =====
-- A well-nested trace of calls, and the tree that rust/analytics/src/call_tree.rs makes of its events.
pub mod Rebuild
pub mod Blocks
use micromegas.Prelude.{
  ℕ, zero, suc, ◌+◌, ℤ, ◌≤ℤ◌, List, [], ◌∷◌, ◌++◌, some, or_insert, ◌≡◌, refl, arith,
}
use micromegas.Analytics.Scope.{ScopeDesc, ScopeHashMap}
use micromegas.Analytics.ThreadBlock.{ThreadEvent, begin_scope, end_scope}
use micromegas.Analytics.CallTree.Tree.{
  Node, Nodes, node, nil, cons, push, push_child, size, size_all,
}

-- A call with the ids of its two events, its scope, its begin and end in ticks, and the calls made
-- during it.
mutual
  pub data Call : Type 0 where
    call : ℤ → ℤ → ScopeDesc → ℤ → ℤ → Calls → Call

  pub data Calls : Type 0 where
    none : Calls
    also : Call → Calls → Calls

-- The events that the thread records.
unfoldable mutual
  pub events : Call → List ThreadEvent
  events (call i j scope begin end inner) =
      begin_scope i scope begin ∷ (events_all inner ++ end_scope j scope end ∷ [])

  pub events_all : Calls → List ThreadEvent
  events_all none = []
  events_all (also c cs) = events c ++ events_all cs

-- The nodes that are expected, with the times converted by `ns`.
unfoldable mutual
  pub tree : (ℤ → ℤ) → Call → Node
  tree ns (call i j scope begin end inner) =
      node (some i) scope.hash (ns begin) (ns end) (trees ns inner)

  pub trees : (ℤ → ℤ) → Calls → Nodes
  trees ns none = nil
  trees ns (also c cs) = cons (tree ns c) (trees ns cs)

-- How many calls there are.
unfoldable mutual
  pub count : Call → ℕ
  count (call i j scope begin end inner) = suc (count_all inner)

  pub count_all : Calls → ℕ
  count_all none = 0
  count_all (also c cs) = count c + count_all cs

-- The scopes that are known behind the events.
unfoldable mutual
  pub scopes_after : Call → ScopeHashMap → ScopeHashMap
  scopes_after (call i j scope begin end inner) m =
      or_insert scope.hash scope (scopes_after_all inner (or_insert scope.hash scope m))

  pub scopes_after_all : Calls → ScopeHashMap → ScopeHashMap
  scopes_after_all none m = m
  scopes_after_all (also c cs) m = scopes_after_all cs (scopes_after c m)

-- Every begin and end lies between `lo` and `hi`.
unfoldable mutual
  pub Within : (ℤ → ℤ) → ℤ → ℤ → Call → Type 0
  Within ns lo hi (call i j scope begin end inner) =
      (lo ≤ℤ ns begin)
      × (ns begin ≤ℤ hi)
      × (lo ≤ℤ ns end)
      × (ns end ≤ℤ hi)
      × WithinAll ns lo hi inner

  pub WithinAll : (ℤ → ℤ) → ℤ → ℤ → Calls → Type 0
  WithinAll ns lo hi none = Unit {0}
  WithinAll ns lo hi (also c cs) = Within ns lo hi c × WithinAll ns lo hi cs

-- `top` with all of `ns` pushed, one after the other.
unfoldable pub push_all : Node → Nodes → Node
push_all top nil = top
push_all top (cons n ns) = push_all (push_child top n) ns
