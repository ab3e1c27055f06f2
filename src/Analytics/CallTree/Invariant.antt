-- ===== src/Analytics/CallTree/Invariant.antt =====
-- What the builder of rust/analytics/src/call_tree.rs keeps true of the nodes on its stack.
use micromegas.Prelude.{
  ℕ, ℤ, pos, ltb_ℤ, ◌≤ℤ◌, String, not, List, [], ◌∷◌, some, ok, ◌==◌, Has, or_insert-Has_self,
  or_insert-Has, ◌≡◌, refl, arith, All, >>=-eq-ok, lookup, Bool-cases, inl, inr,
}
use mathlib.Core.Path.{subst}
use mathlib.Core.Option.{some-injective}
use micromegas.Analytics.Time.{F64, ConvertTicks, ticks_to_nanoseconds}
use micromegas.Analytics.Scope.{ScopeDesc, ScopeHashMap}
use micromegas.Analytics.ThreadBlock.{
  ThreadEvent, begin_scope, end_scope, on_event, process_events, Post, process_events_inv,
}
use micromegas.Analytics.CallTree.Tree.{
  Node, node, nil, push_child, hash_of, close, rename, Every, Every-push_child, All-weaken,
}
use micromegas.Analytics.CallTree.{
  CallTree, Builder, new_builder, collapse, root_of, finish, add_child, add_child_to_top,
  record_scope_desc, on_begin_thread_scope, close_top, on_end_thread_scope, processor,
  process_blocks, make_call_tree,
}

-- A node's scope is described, and the begin and the end of its span lie in the range of the query.
abbrev pub InRange : ScopeHashMap → ℤ → ℤ → ℕ → ℤ → ℤ → Type 0
InRange scopes lo hi hash begin end =
    Has scopes hash × ((lo ≤ℤ begin) × (begin ≤ℤ hi) × (lo ≤ℤ end) × (end ≤ℤ hi))

module _ (f : F64) (lo hi : ℤ) where
  abbrev InBuilder : Builder f → ℕ → ℤ → ℤ → Type 0
  InBuilder b = InRange b.scopes b.begin_range_ns b.end_range_ns

  -- The builder of a query over the range from `lo` to `hi`.
  pub record IsValid (b : Builder f) : Type 0 where
    pub from : b.begin_range_ns ≡ lo
    pub to : b.end_range_ns ≡ hi
    pub root_scope : Has b.scopes b.root_hash
    pub nodes : All (Every (InBuilder b)) b.stack

  record_scope_desc-IsValid :
      (scope : ScopeDesc) (b : Builder f) → IsValid b → IsValid (record_scope_desc f scope b)
  unfolding record_scope_desc
  record_scope_desc-IsValid scope b v = record {
    from = v.from;
    to = v.to;
    root_scope = or_insert-Has scope.hash b.root_hash scope b.scopes v.root_scope;
    nodes =
        All-weaken _ _ (λ h lo hi (p, q). (or_insert-Has scope.hash h scope b.scopes p, q)) b.stack
          v.nodes;
  }

  add_child-IsValid :
      (child : Node) (stack : List Node) (b : Builder f)
      → IsValid b
      → All (Every (InBuilder b)) stack
      → Every (InBuilder b) child
      → b.begin_range_ns ≤ℤ b.end_range_ns
      → IsValid (add_child f child stack b)
  unfolding add_child Every
  add_child-IsValid child [] b v none_left c range = record {
    from = v.from;
    to = v.to;
    root_scope = v.root_scope;
    nodes = (((v.root_scope, (omega arith, range, range, omega arith)), (c, tt)), tt);
  }
  add_child-IsValid child (top ∷ rest) b v (h, hs) c range = record {
    from = v.from;
    to = v.to;
    root_scope = v.root_scope;
    nodes = (Every-push_child (InBuilder b) top child h c, hs);
  }

  range_of :
      (b : Builder f) (time : ℤ)
      → b.begin_range_ns ≤ℤ time
      → time ≤ℤ b.end_range_ns
      → b.begin_range_ns ≤ℤ b.end_range_ns
  range_of b time lo hi = omega (arith, lo, hi)

  on_begin-IsValid :
      (block_id : String) (id : ℤ) (scope : ScopeDesc) (ts : ℤ) (b : Builder f)
      → IsValid b
      → Post IsValid (on_begin_thread_scope f block_id id scope ts b)
  unfolding on_begin_thread_scope Every
  on_begin-IsValid block_id id scope ts b v =
      let time = ticks_to_nanoseconds f b.convert_ticks ts in
      elim (Bool-cases (not (ltb_ℤ (pos b.nb_spans) b.limit))) [
        | inl full ↦ rw full v
        | inr room ↦ elim (Bool-cases (ltb_ℤ time b.begin_range_ns)) [
          | inl before ↦ rw (room, before) v
          | inr from ↦ elim (Bool-cases (ltb_ℤ b.end_range_ns time)) [
            | inl behind ↦ rw (room, from, behind) v
            | inr to ↦
                let v' = record_scope_desc-IsValid scope b v in
                let begins : b.begin_range_ns ≤ℤ time = ground arith in
                let ends : time ≤ℤ b.end_range_ns = ground arith in
                rw (room, from, to)
                  (record {
                    from = v.from;
                    to = v.to;
                    root_scope = v'.root_scope;
                    nodes = (
                      (
                        (
                          or_insert-Has_self scope.hash scope b.scopes,
                          (begins, ends, range_of b time begins ends, omega arith),
                        ),
                        tt,
                      ),
                      v'.nodes,
                    );
                  })
          ]
        ]
      ]

  Every-close :
      (b : Builder f) (time : ℤ) (n : Node)
      → b.begin_range_ns ≤ℤ time
      → time ≤ℤ b.end_range_ns
      → Every (InBuilder b) n
      → Every (InBuilder b) (close time n)
  unfolding Every
  Every-close b time (node id hash begin end children) l h ((p, (q, r, _, _)), cs) =
      ((p, (q, r, l, h)), cs)

  Every-rename :
      (b : Builder f) (event_id : ℤ) (hash : ℕ) (n : Node)
      → Has b.scopes hash
      → Every (InBuilder b) n
      → Every (InBuilder b) (rename event_id hash n)
  unfolding Every
  Every-rename b event_id hash (node id h begin end children) k ((p, q), cs) = ((k, q), cs)

  close_top-IsValid :
      (event_id : ℤ) (hash : ℕ) (time : ℤ) (stack : List Node) (b : Builder f)
      → IsValid b
      → All (Every (InBuilder b)) stack
      → Has b.scopes hash
      → b.begin_range_ns ≤ℤ time
      → time ≤ℤ b.end_range_ns
      → Post IsValid (close_top f event_id hash time stack b)
  unfolding close_top add_child_to_top Every
  close_top-IsValid event_id hash time [] b v none_left k lo hi =
      let orphan = node (some event_id) hash b.begin_range_ns time nil in
      let added =
        add_child-IsValid orphan b.stack b v v.nodes
          ((k, (omega arith, range_of b time lo hi, lo, hi)), tt) (range_of b time lo hi) in
      elim (Bool-cases (not (ltb_ℤ (pos b.nb_spans) b.limit))) [
        | inl full ↦ rw full v
        | inr room ↦ rw room added
      ]
  close_top-IsValid event_id hash time (top ∷ rest) b v (h, hs) k lo hi =
      let popped = record b { stack = rest } in
      let v' : IsValid popped = record {
        from = v.from;
        to = v.to;
        root_scope = v.root_scope;
        nodes = hs;
      } in
      let matched =
        add_child-IsValid (close time top) rest popped v' hs (Every-close b time top lo hi h)
          (range_of b time lo hi) in
      let renamed =
        add_child-IsValid (close time (rename event_id hash top)) rest popped v' hs
          (Every-close b time (rename event_id hash top) lo hi
            (Every-rename b event_id hash top k h))
          (range_of b time lo hi) in
      elim (Bool-cases (hash_of top == hash)) [
        | inl same ↦ rw same matched
        | inr other ↦ elim (Bool-cases (hash_of top == b.root_hash)) [
          | inl root ↦ rw (other, root) renamed
          | inr mismatch ↦ rw (other, mismatch) tt
        ]
      ]

  on_end-IsValid :
      (block_id : String) (id : ℤ) (scope : ScopeDesc) (ts : ℤ) (b : Builder f)
      → IsValid b
      → Post IsValid (on_end_thread_scope f block_id id scope ts b)
  unfolding on_end_thread_scope
  on_end-IsValid block_id id scope ts b v =
      let time = ticks_to_nanoseconds f b.convert_ticks ts in
      elim (Bool-cases (ltb_ℤ time b.begin_range_ns)) [
        | inl before ↦ rw before v
        | inr from ↦ elim (Bool-cases (ltb_ℤ b.end_range_ns time)) [
          | inl behind ↦ rw (from, behind) v
          | inr to ↦
              let v' = record_scope_desc-IsValid scope b v in
              let begins : b.begin_range_ns ≤ℤ time = ground arith in
              let ends : time ≤ℤ b.end_range_ns = ground arith in
              rw (from, to)
                (close_top-IsValid id scope.hash time b.stack (record_scope_desc f scope b) v'
                  v'.nodes (or_insert-Has_self scope.hash scope b.scopes) begins ends)
        ]
      ]

  on_event-IsValid :
      (block_id : String) (e : ThreadEvent) (b : Builder f)
      → IsValid b
      → Post IsValid (on_event (processor f) block_id e b)
  unfolding on_event
  on_event-IsValid block_id (begin_scope id scope ts) b v =
      on_begin-IsValid block_id id scope ts b v
  on_event-IsValid block_id (end_scope id scope ts) b v = on_end-IsValid block_id id scope ts b v

  process_blocks-IsValid :
      (blocks : List (String × List ThreadEvent)) (b b' : Builder f)
      → IsValid b
      → process_blocks f blocks b ≡ ok b'
      → IsValid b'
  unfolding process_blocks
  process_blocks-IsValid [] b b' v e = subst IsValid (cc) v
  process_blocks-IsValid ((block_id, events) ∷ blocks) b b' v e =
      let ((b1, continue), first, later) =
        >>=-eq-ok (process_events (processor f) block_id events b) _ e in
      let kept =
        process_events_inv IsValid (processor f) block_id (on_event-IsValid block_id) events b v in
      process_blocks-IsValid blocks b1 b' (subst (Post IsValid) first kept) later

  collapse-Every :
      (P : ℕ → ℤ → ℤ → Type 0) (stack : List Node) (top : Node)
      → Every P top
      → All (Every P) stack
      → Every P (collapse f top stack)
  unfolding collapse
  collapse-Every P [] top h hs = h
  collapse-Every P (parent ∷ rest) top h (k, ks) =
      collapse-Every P rest (push_child parent top) (Every-push_child P parent top k h) ks

  finish-Every :
      (b : Builder f) (root : Node)
      → IsValid b
      → (finish f b).call_tree_root ≡ some root
      → Every (InRange (finish f b).scopes lo hi) root
  unfolding finish
  finish-Every b root v e = go b.stack v.nodes e
    where
      go :
          (stack : List Node)
          → All (Every (InBuilder b)) stack
          → root_of f stack ≡ some root
          → Every (InRange b.scopes lo hi) root
      go [] hs e = cc
      go (top ∷ rest) (h, hs) e =
          rw (v.from, v.to) at
            (subst (Every (InBuilder b)) (some-injective _ _ e)
              (collapse-Every (InBuilder b) rest top h hs))

  new_builder-IsValid :
      (xxh32 : List ℕ → ℕ → ℕ) (limit : ℤ) (convert_ticks : ConvertTicks f) (thread_name : List ℕ)
      → IsValid (new_builder f xxh32 lo hi limit convert_ticks thread_name)
  unfolding new_builder lookup
  new_builder-IsValid xxh32 limit convert_ticks thread_name = record {
    from = refl;
    to = refl;
    root_scope = ground arith;
    nodes = tt;
  }

-- Every node of the tree that `make_call_tree` returns has its scope among the scopes returned, and
-- its span begins and ends within the range of the query, whatever the events and however they were cut into
-- blocks.
pub make_call_tree-Every :
    (f : F64) (xxh32 : List ℕ → ℕ → ℕ) (blocks : List (String × List ThreadEvent)) (lo hi limit : ℤ)
    (convert_ticks : ConvertTicks f) (thread_name : List ℕ) (tree : CallTree) (root : Node)
    → make_call_tree f xxh32 blocks lo hi limit convert_ticks thread_name ≡ ok tree
    → tree.call_tree_root ≡ some root
    → Every (InRange tree.scopes lo hi) root
unfolding make_call_tree
make_call_tree-Every f xxh32 blocks lo hi limit convert_ticks thread_name tree root made found =
    let start = new_builder f xxh32 lo hi limit convert_ticks thread_name in
    let (b, ran, finished) = >>=-eq-ok (process_blocks f blocks start) _ made in
    let valid =
      process_blocks-IsValid f lo hi blocks start b
        (new_builder-IsValid f lo hi xxh32 limit convert_ticks thread_name) ran in
    let same : finish f b ≡ tree = cc in
    rw same at (finish-Every f lo hi b root valid (rw same found))
