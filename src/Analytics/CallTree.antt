-- ===== src/Analytics/CallTree.antt =====
-- rust/analytics/src/call_tree.rs: the call tree of a thread, built from its scope events.
-- The stack is a list with its top first. `nb_spans` never becomes negative.
pub mod Tree
pub mod Invariant
pub mod Trace
use micromegas.Prelude.{
  ℕ, suc, ◌+◌, ℤ, pos, ltb_ℤ, String, Bool, true, false, not, List, [], ◌∷◌, Option, none, some,
  Result, ok, err, bail, ◌>>=◌, ◌==◌, if◌then◌else◌, or_insert,
}
use micromegas.Analytics.Time.{F64, ConvertTicks, ticks_to_nanoseconds}
use micromegas.Analytics.Scope.{ScopeDesc, ScopeHashMap, new_scope}
use micromegas.Analytics.ThreadBlock.{ThreadBlockProcessor, ThreadEvent, process_events}
use micromegas.Analytics.CallTree.Tree.{
  Node, Nodes, node, nil, cons, push_child, hash_of, close, rename,
}

pub record CallTree : Type 0 where
  pub scopes : ScopeHashMap
  pub call_tree_root : Option Node

module _ (f : F64) where
  pub record Builder : Type 0 where
    pub begin_range_ns : ℤ
    pub end_range_ns : ℤ
    pub limit : ℤ
    pub nb_spans : ℕ
    pub stack : List Node
    pub scopes : ScopeHashMap
    pub convert_ticks : ConvertTicks f
    pub root_hash : ℕ

  -- `CallTreeBuilder::new`; the scope of the thread itself has no file, no target and line 0.
  unfoldable pub new_builder : (List ℕ → ℕ → ℕ) → ℤ → ℤ → ℤ → ConvertTicks f → List ℕ → Builder
  new_builder xxh32 begin_range_ns end_range_ns limit convert_ticks thread_name =
      let thread_scope_desc = new_scope xxh32 thread_name [] [] 0 in
      record {
        begin_range_ns = begin_range_ns;
        end_range_ns = end_range_ns;
        limit = limit;
        nb_spans = 0;
        stack = [];
        scopes = (thread_scope_desc.hash, thread_scope_desc) ∷ [];
        convert_ticks = convert_ticks;
        root_hash = thread_scope_desc.hash;
      }

  -- `while self.stack.len() > 1`: the top becomes the last child of the node below it.
  unfoldable pub collapse : Node → List Node → Node
  collapse top [] = top
  collapse top (parent ∷ rest) = collapse (push_child parent top) rest

  unfoldable pub root_of : List Node → Option Node
  root_of [] = none
  root_of (top ∷ rest) = some (collapse top rest)

  unfoldable pub finish : Builder → CallTree
  unfolding root_of collapse
  finish b = record { scopes = b.scopes; call_tree_root = root_of b.stack }

  -- `add_child_to_top` by what `self.stack.pop()` gives: a child with no parent gets a root.
  unfoldable pub add_child : Node → List Node → Builder → Builder
  add_child child (top ∷ rest) b = record b { stack = push_child top child ∷ rest }
  add_child child [] b = record b {
    stack = node none b.root_hash b.begin_range_ns b.end_range_ns (cons child nil) ∷ [];
    nb_spans = b.nb_spans + 1;
  }

  unfoldable pub add_child_to_top : Node → Builder → Builder
  unfolding add_child
  add_child_to_top child b = add_child child b.stack b

  unfoldable pub record_scope_desc : ScopeDesc → Builder → Builder
  record_scope_desc scope b = record b { scopes = or_insert scope.hash scope b.scopes }

  unfoldable pub on_begin_thread_scope :
      String → ℤ → ScopeDesc → ℤ → Builder → Result (Builder × Bool)
  unfolding record_scope_desc
  on_begin_thread_scope block_id event_id scope ts b =
      let time = ticks_to_nanoseconds f b.convert_ticks ts in
      if not (ltb_ℤ (pos b.nb_spans) b.limit)
      then ok (b, false)
      else if ltb_ℤ time b.begin_range_ns
      then ok (b, true)
      else if ltb_ℤ b.end_range_ns time
      then ok (b, false)
      else let b' = record_scope_desc scope b in
        let new_node = node (some event_id) scope.hash time b.end_range_ns nil in
        ok (record b' { stack = new_node ∷ b.stack; nb_spans = b.nb_spans + 1 }, true)

  -- The body of `on_end_thread_scope` behind the checks of the range, by what `stack.pop()` gives.
  unfoldable pub close_top : ℤ → ℕ → ℤ → List Node → Builder → Result (Builder × Bool)
  close_top event_id hash time (old_top ∷ rest) b =
      let popped = record b { stack = rest } in
      if hash_of old_top == hash
      then ok (add_child_to_top (close time old_top) popped, true)
      else if hash_of old_top == b.root_hash
      then ok (add_child_to_top (close time (rename event_id hash old_top)) popped, true)
      else err bail
  close_top event_id hash time [] b =
      if not (ltb_ℤ (pos b.nb_spans) b.limit)
      then ok (b, false)
      else ok (add_child_to_top (node (some event_id) hash b.begin_range_ns time nil) b, true)

  unfoldable pub on_end_thread_scope :
      String → ℤ → ScopeDesc → ℤ → Builder → Result (Builder × Bool)
  unfolding record_scope_desc
  on_end_thread_scope block_id event_id scope ts b =
      let time = ticks_to_nanoseconds f b.convert_ticks ts in
      if ltb_ℤ time b.begin_range_ns
      then ok (b, true)
      else if ltb_ℤ b.end_range_ns time
      then ok (b, false)
      else close_top event_id scope.hash time b.stack (record_scope_desc scope b)

  abbrev pub processor : ThreadBlockProcessor Builder
  processor = record {
    on_begin_thread_scope = on_begin_thread_scope;
    on_end_thread_scope = on_end_thread_scope;
  }

  -- The loop of `make_call_tree` over the blocks, each with the events that its payload holds. What
  -- the parser of a block answers is not looked at.
  unfoldable pub process_blocks : List (String × List ThreadEvent) → Builder → Result Builder
  process_blocks [] b = ok b
  process_blocks ((block_id, events) ∷ blocks) b = do
    (b', continue) ← process_events processor block_id events b
    process_blocks blocks b'

  unfoldable pub make_call_tree :
      (List ℕ → ℕ → ℕ)
      → List (String × List ThreadEvent)
      → ℤ
      → ℤ
      → ℤ
      → ConvertTicks f
      → List ℕ
      → Result CallTree
  make_call_tree xxh32 blocks begin_range_ns end_range_ns limit convert_ticks thread_name = do
    b ←
        process_blocks blocks
          (new_builder xxh32 begin_range_ns end_range_ns limit convert_ticks thread_name)
    ok (finish b)
