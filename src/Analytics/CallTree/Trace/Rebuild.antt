-- ===== src/Analytics/CallTree/Trace/Rebuild.antt =====
-- The builder of rust/analytics/src/call_tree.rs rebuilds the calls of a well-nested trace.
use micromegas.Prelude.{
  ℕ, suc, ◌+◌, ℤ, pos, ltb_ℤ, ◌≤ℤ◌, String, Bool, true, false, List, ◌∷◌, ◌++◌, Option, some,
  Result, ok, ==_iff, or_insert, ◌≡◌, refl, ap, sym, ◌∙◌, arith, append_assoc,
}
use mathlib.Core.Path.{ap₂}
use micromegas.Analytics.Time.{F64, ticks_to_nanoseconds}
use micromegas.Analytics.Scope.{ScopeDesc}
use micromegas.Analytics.ThreadBlock.{ThreadEvent, begin_scope, end_scope, on_event, process_events}
use micromegas.Analytics.CallTree.Tree.{
  Node, Nodes, node, nil, cons, push, push_child, hash_of, close,
}
use micromegas.Analytics.CallTree.{
  Builder, add_child_to_top, on_begin_thread_scope, close_top, on_end_thread_scope, processor,
}
use micromegas.Analytics.CallTree.Trace.{
  Call, Calls, call, none, also, events, events_all, tree, trees, count, count_all, scopes_after,
  scopes_after_all, Within, WithinAll, push_all,
}

unfoldable pub append_nodes : Nodes → Nodes → Nodes
append_nodes nil ms = ms
append_nodes (cons n ns) ms = cons n (append_nodes ns ms)

append_nodes-push :
    (ns : Nodes) (n : Node) (ms : Nodes) → append_nodes (push ns n) ms ≡ append_nodes ns (cons n ms)
unfolding append_nodes
append_nodes-push nil n ms = refl
append_nodes-push (cons m ns) n ms = ap (cons m) (append_nodes-push ns n ms)

append_nodes-nil : (ns : Nodes) → append_nodes ns nil ≡ ns
unfolding append_nodes
append_nodes-nil nil = refl
append_nodes-nil (cons m ns) = ap (cons m) (append_nodes-nil ns)

pub push_all-node :
    (id : Option ℤ) (hash : ℕ) (begin end : ℤ) (children ms : Nodes)
    → push_all (node id hash begin end children) ms
      ≡ node id hash begin end (append_nodes children ms)
unfolding push_all
push_all-node id hash begin end children nil =
    ap (node id hash begin end) (sym (append_nodes-nil children))
push_all-node id hash begin end children (cons m ms) =
    push_all-node id hash begin end (push children m) ms
    ∙ ap (node id hash begin end) (append_nodes-push children m ms)

module _ (f : F64) where
  -- The conversion of the builder's clock.
  abbrev pub ns_of : Builder f → ℤ → ℤ
  ns_of b ts = ticks_to_nanoseconds f b.convert_ticks ts

  on_begin_lem :
      (block_id : String) (id : ℤ) (scope : ScopeDesc) (ts : ℤ) (b : Builder f)
      → ltb_ℤ (pos b.nb_spans) b.limit ≡ true
      → b.begin_range_ns ≤ℤ ns_of b ts
      → ns_of b ts ≤ℤ b.end_range_ns
      → on_begin_thread_scope f block_id id scope ts b
        ≡ ok (
          record b {
            stack = node (some id) scope.hash (ns_of b ts) b.end_range_ns nil ∷ b.stack;
            nb_spans = b.nb_spans + 1;
            scopes = or_insert scope.hash scope b.scopes;
          },
          true,
        )
  unfolding on_begin_thread_scope
  on_begin_lem block_id id scope ts b room lo hi =
      let from : ltb_ℤ (ns_of b ts) b.begin_range_ns ≡ false = ground arith in
      let to : ltb_ℤ b.end_range_ns (ns_of b ts) ≡ false = ground arith in rw (room, from, to)

  on_end_lem :
      (block_id : String) (id : ℤ) (scope : ScopeDesc) (ts : ℤ) (b : Builder f) (top : Node)
      (rest : List Node)
      → hash_of top ≡ scope.hash
      → b.begin_range_ns ≤ℤ ns_of b ts
      → ns_of b ts ≤ℤ b.end_range_ns
      → on_end_thread_scope f block_id id scope ts (record b { stack = top ∷ rest })
        ≡ ok (
          add_child_to_top f
              (close (ns_of b ts) top)
              (record b { stack = rest; scopes = or_insert scope.hash scope b.scopes }),
          true,
        )
  unfolding on_end_thread_scope close_top
  on_end_lem block_id id scope ts b top rest same lo hi =
      let from : ltb_ℤ (ns_of b ts) b.begin_range_ns ≡ false = ground arith in
      let to : ltb_ℤ b.end_range_ns (ns_of b ts) ≡ false = ground arith in
      rw (from, to, (==_iff _ _).1 same)

  process_step :
      (block_id : String) (e : ThreadEvent) (es : List ThreadEvent) (b b' : Builder f)
      → on_event (processor f) block_id e b ≡ ok (b', true)
      → process_events (processor f) block_id (e ∷ es) b
        ≡ process_events (processor f) block_id es b'
  unfolding process_events
  process_step block_id e es b b' h = rw h

  -- The builder behind the events of a call, but for the stack.
  abbrev pub known : Call → Builder f → Builder f
  known c b = record b { scopes = scopes_after c b.scopes; nb_spans = b.nb_spans + count c }

  abbrev pub known_all : Calls → Builder f → Builder f
  known_all cs b = record b {
    scopes = scopes_after_all cs b.scopes;
    nb_spans = b.nb_spans + count_all cs;
  }

  module _ (block_id : String) where
    abbrev pub run : List ThreadEvent → Builder f → Result (Builder f × Bool)
    run es b = process_events (processor f) block_id es b

    mutual
      unfolding events tree count scopes_after Within push_all add_child_to_top on_event
          append_nodes

      pub run-events :
          (c : Call) (rest : List ThreadEvent) (b : Builder f)
          → Within (ns_of b) b.begin_range_ns b.end_range_ns c
          → pos (b.nb_spans + count c) ≤ℤ b.limit
          → run (events c ++ rest) b ≡ run rest (add_child_to_top f (tree (ns_of b) c) (known c b))
      run-events (call i j scope begin end inner) rest b (l1, h1, l2, h2, within) room =
          let room_here : ltb_ℤ (pos b.nb_spans) b.limit ≡ true = ground arith in
          let opened = node (some i) scope.hash (ns_of b begin) b.end_range_ns nil in
          let b1 = record b {
            nb_spans = b.nb_spans + 1;
            scopes = or_insert scope.hash scope b.scopes;
          } in
          let inner_run =
            run-events_all inner (end_scope j scope end ∷ rest) b1 opened b.stack within
              (omega arith) in
          let pushed =
            push_all-node (some i) scope.hash (ns_of b begin) b.end_range_ns nil
              (trees (ns_of b) inner) in
          let b2 = known_all inner b1 in
          let begins = on_begin_lem block_id i scope begin b room_here l1 h1 in
          let ends =
            on_end_lem block_id j scope end b2 (push_all opened (trees (ns_of b) inner)) b.stack
              (ap hash_of pushed) l2 h2 in
          let closed : close (ns_of b end) (push_all opened (trees (ns_of b) inner))
              ≡ tree (ns_of b) (call i j scope begin end inner) =
            ap (close (ns_of b end)) pushed in
          let counted : b.nb_spans + 1 + count_all inner ≡ b.nb_spans + suc (count_all inner) =
            omega arith in
          rw append_assoc (
            process_step block_id (begin_scope i scope begin) _ b _ begins
            ∙ inner_run
            ∙ process_step block_id (end_scope j scope end) rest _ _ ends
            ∙ ap₂
                (λ n k. run rest (
                  add_child_to_top f n
                    (record (known (call i j scope begin end inner) b) { nb_spans = k })))
                closed counted)

      pub run-events_all :
          (cs : Calls) (rest : List ThreadEvent) (b : Builder f) (top : Node) (stack : List Node)
          → WithinAll (ns_of b) b.begin_range_ns b.end_range_ns cs
          → pos (b.nb_spans + count_all cs) ≤ℤ b.limit
          → run (events_all cs ++ rest) (record b { stack = top ∷ stack })
            ≡ run rest
                (record (known_all cs b) { stack = push_all top (trees (ns_of b) cs) ∷ stack })
      run-events_all none rest b top stack within room =
          let same : b.nb_spans ≡ b.nb_spans + 0 = omega arith in
          ap (λ n. run rest (record b { stack = top ∷ stack; nb_spans = n })) same
      run-events_all (also c cs) rest b top stack (one, all) room =
          let counted : b.nb_spans + count c + count_all cs
              ≡ b.nb_spans + (count c + count_all cs) =
            omega arith in
          rw append_assoc (
            run-events c (events_all cs ++ rest) (record b { stack = top ∷ stack }) one
              (omega arith)
            ∙ run-events_all cs rest (known c b) (push_child top (tree (ns_of b) c)) stack all
                (omega arith)
            ∙ ap
                (λ n. run rest (record (known_all (also c cs) b) {
                  stack = push_all (push_child top (tree (ns_of b) c)) (trees (ns_of b) cs) ∷ stack;
                  nb_spans = n;
                }))
                counted)
