-- ===== src/Analytics/CallTree/Trace/Blocks.antt =====
-- How the events of a trace are cut into blocks makes no difference to rust/analytics/src/call_tree.rs.
use micromegas.Prelude.{
  ℕ, ◌+◌, ℤ, pos, ◌≤ℤ◌, String, Bool, true, false, List, [], ◌∷◌, ◌++◌, Option, some, Result, ok,
  err, ◌>>=◌, if◌then◌else◌, ◌≡◌, refl, ap, sym, ◌∙◌, arith, append-nil,
}
use micromegas.Analytics.Time.{F64, ConvertTicks, ticks_to_nanoseconds}
use micromegas.Analytics.Scope.{new_scope}
use micromegas.Analytics.ThreadBlock.{ThreadEvent, begin_scope, end_scope, on_event, process_events}
use micromegas.Analytics.CallTree.Tree.{node, nil, cons}
use micromegas.Analytics.CallTree.{
  CallTree, Builder, new_builder, finish, add_child_to_top, on_begin_thread_scope,
  on_end_thread_scope, processor, process_blocks, make_call_tree,
}
use micromegas.Analytics.CallTree.Trace.{
  Call, Calls, also, events, events_all, tree, trees, count, count_all, scopes_after,
  scopes_after_all, Within, WithinAll, push_all,
}
use micromegas.Analytics.CallTree.Trace.Rebuild.{
  ns_of, known, run-events, run-events_all, append_nodes, push_all-node,
}

module _ (f : F64) where
  -- A run that goes through goes through each part of its events.
  run-append :
      (block_id : String) (xs ys : List ThreadEvent) (b b' : Builder f)
      → process_events (processor f) block_id (xs ++ ys) b ≡ ok (b', true)
      → (b1 : Builder f) × (process_events (processor f) block_id xs b ≡ ok (b1, true))
        × (process_events (processor f) block_id ys b1 ≡ ok (b', true))
  unfolding process_events
  run-append block_id [] ys b b' h = (b, refl, h)
  run-append block_id (x ∷ xs) ys b b' h =
      go (on_event (processor f) block_id x b) refl (run-append block_id xs ys)
    where
      go :
          (r : Result (Builder f × Bool))
          → on_event (processor f) block_id x b ≡ r
          → ((b2 b3 : Builder f)
              → process_events (processor f) block_id (xs ++ ys) b2 ≡ ok (b3, true)
              → (b1 : Builder f) × (process_events (processor f) block_id xs b2 ≡ ok (b1, true))
                × (process_events (processor f) block_id ys b1 ≡ ok (b3, true)))
          → (b1 : Builder f) × (process_events (processor f) block_id (x ∷ xs) b ≡ ok (b1, true))
            × (process_events (processor f) block_id ys b1 ≡ ok (b', true))
      go (ok (b2, true)) e ih =
          let (b1, first, second) = ih b2 b' (rw e at h) in (b1, rw e first, second)
      go (ok (b2, false)) e ih =
          let p : ◌≡◌ {A = Result (Builder f × Bool)} (ok (b2, false)) (ok (b', true)) =
            rw e at h in
          cc
      go (err x) e ih =
          let p : ◌≡◌ {A = Result (Builder f × Bool)} (err x) (ok (b', true)) = rw e at h in cc

  on_event_block_id :
      (x y : String) (e : ThreadEvent) (b : Builder f)
      → on_event (processor f) x e b ≡ on_event (processor f) y e b
  unfolding on_event on_begin_thread_scope on_end_thread_scope
  on_event_block_id x y (begin_scope id scope ts) b = refl
  on_event_block_id x y (end_scope id scope ts) b = refl

  -- The builder does not look at the ids of the blocks.
  run_block_id :
      (x y : String) (es : List ThreadEvent) (b : Builder f)
      → process_events (processor f) x es b ≡ process_events (processor f) y es b
  unfolding process_events
  run_block_id x y [] b = refl
  run_block_id x y (e ∷ es) b =
      rw (on_event_block_id x y e b) (go (on_event (processor f) y e b) (run_block_id x y es))
    where
      go :
          (r : Result (Builder f × Bool))
          → ((b' : Builder f)
              → process_events (processor f) x es b' ≡ process_events (processor f) y es b')
          → (r >>= λ p. if p.1 then process_events (processor f) x es p.0 else ok (p.0, false))
            ≡ (r >>= λ p. if p.1 then process_events (processor f) y es p.0 else ok (p.0, false))
      go (ok (b', true)) ih = ih b'
      go (ok (b', false)) ih = refl
      go (err x) ih = refl

  -- All events of the blocks, in their order.
  abbrev pub events_of : List (String × List ThreadEvent) → List ThreadEvent
  events_of [] = []
  events_of ((block_id, es) ∷ blocks) = es ++ events_of blocks

  process_blocks-events_of :
      (blocks : List (String × List ThreadEvent)) (b b' : Builder f)
      → process_events (processor f) "" (events_of blocks) b ≡ ok (b', true)
      → process_blocks f blocks b ≡ ok b'
  unfolding process_blocks
  process_blocks-events_of [] b b' h = unfold process_events in cc
  process_blocks-events_of ((block_id, es) ∷ blocks) b b' h =
      let (b1, first, second) = run-append "" es (events_of blocks) b b' h in
      rw (run_block_id block_id "" es b, first) (process_blocks-events_of blocks b1 b' second)

  -- The builder behind a trace of calls: the root holds them all.
  traced : Call → Calls → Builder f → Builder f
  traced c cs b = record b {
    stack =
        push_all
          (node Option.none b.root_hash b.begin_range_ns b.end_range_ns
            (cons (tree (ns_of f b) c) nil))
          (trees (ns_of f b) cs)
        ∷ [];
    scopes = scopes_after_all cs (scopes_after c b.scopes);
    nb_spans = b.nb_spans + count c + 1 + count_all cs;
  }

  run_trace :
      (c : Call) (cs : Calls) (b : Builder f)
      → WithinAll (ns_of f b) b.begin_range_ns b.end_range_ns (also c cs)
      → pos (b.nb_spans + count c + 1 + count_all cs) ≤ℤ b.limit
      → process_events (processor f) "" (events_all (also c cs)) (record b { stack = [] })
        ≡ ok (traced c cs b, true)
  unfolding process_events events Within traced add_child_to_top
  run_trace c cs b (one, all) room =
      let fresh = record b { stack = [] } in
      let root =
        node Option.none b.root_hash b.begin_range_ns b.end_range_ns
          (cons (tree (ns_of f b) c) nil) in
      let b1 = record (known f c b) { nb_spans = b.nb_spans + count c + 1 } in
      ap (λ es. process_events (processor f) "" (events c ++ es) fresh)
        (sym (append-nil (events_all cs)))
      ∙ run-events f "" c (events_all cs ++ []) fresh one (omega arith)
      ∙ run-events_all f "" cs [] b1 root [] all room

  finish-traced :
      (c : Call) (cs : Calls) (b : Builder f)
      → (finish f (traced c cs b)).call_tree_root
        ≡ some (
            node Option.none b.root_hash b.begin_range_ns b.end_range_ns
              (trees (ns_of f b) (also c cs)))
  unfolding finish traced tree append_nodes
  finish-traced c cs b =
      ap some (push_all-node _ _ _ _ (cons (tree (ns_of f b) c) nil) (trees (ns_of f b) cs))

-- From the events of well-nested calls within the range and the limit, however the events were cut
-- into blocks, `make_call_tree` makes exactly the tree of the calls: each node has the id of its
-- begin event, its scope's hash, its converted begin and end, and its inner calls as children in
-- their order, all below a root for the thread whose span is the range of the query.
pub make_call_tree-events :
    (f : F64) (xxh32 : List ℕ → ℕ → ℕ) (c : Call) (cs : Calls)
    (blocks : List (String × List ThreadEvent)) (lo hi limit : ℤ) (convert_ticks : ConvertTicks f)
    (thread_name : List ℕ)
    → events_of f blocks ≡ events_all (also c cs)
    → WithinAll (ticks_to_nanoseconds f convert_ticks) lo hi (also c cs)
    → pos (count_all (also c cs) + 1) ≤ℤ limit
    → (tree : CallTree) × (make_call_tree f xxh32 blocks lo hi limit convert_ticks thread_name
        ≡ ok tree)
      × (tree.call_tree_root
          ≡ some (
              node Option.none
                (new_scope xxh32 thread_name [] [] 0).hash
                lo
                hi
                (trees (ticks_to_nanoseconds f convert_ticks) (also c cs))))
unfolding make_call_tree new_builder count
make_call_tree-events f xxh32 c cs blocks lo hi limit convert_ticks thread_name same within room =
    let b = new_builder f xxh32 lo hi limit convert_ticks thread_name in
    let ran = run_trace f c cs b within (omega arith) in
    let built = process_blocks-events_of f blocks b (traced f c cs b) (rw same ran) in
    (finish f (traced f c cs b), rw built, finish-traced f c cs b)
