-- ===== src/Analytics/CallTree/Tree.antt =====
-- `CallTreeNode` of rust/analytics/src/call_tree.rs: a node holds its children in the order in which
-- they were pushed.
use micromegas.Prelude.{ℕ, suc, ◌+◌, ℤ, Option, some, ◌≡◌, arith, List, [], ◌∷◌, All}

mutual
  -- id, hash, begin, end, children
  pub data Node : Type 0 where
    node : Option ℤ → ℕ → ℤ → ℤ → Nodes → Node

  pub data Nodes : Type 0 where
    nil : Nodes
    cons : Node → Nodes → Nodes

abbrev pub hash_of : Node → ℕ
hash_of (node id hash begin end children) = hash

-- `children.push(child)`
abbrev pub push : Nodes → Node → Nodes
push nil child = cons child nil
push (cons n ns) child = cons n (push ns child)

abbrev pub push_child : Node → Node → Node
push_child (node id hash begin end children) child = node id hash begin end (push children child)

-- `old_top.end = time`
abbrev pub close : ℤ → Node → Node
close time (node id hash begin end children) = node id hash begin time children

-- `old_top.id = Some(event_id); old_top.hash = hash`
abbrev pub rename : ℤ → ℕ → Node → Node
rename event_id hash' (node id hash begin end children) =
    node (some event_id) hash' begin end children

-- How many nodes a tree and a list of trees hold.
unfoldable mutual
  pub size : Node → ℕ
  size (node id hash begin end children) = suc (size_all children)

  pub size_all : Nodes → ℕ
  size_all nil = 0
  size_all (cons n ns) = size n + size_all ns

-- A property of the hash, the begin and the end of every node.
unfoldable mutual
  pub Every : (ℕ → ℤ → ℤ → Type 0) → Node → Type 0
  Every P (node id hash begin end children) = P hash begin end × EveryChild P children

  pub EveryChild : (ℕ → ℤ → ℤ → Type 0) → Nodes → Type 0
  EveryChild P nil = Unit {0}
  EveryChild P (cons n ns) = Every P n × EveryChild P ns

mutual
  unfolding size

  pub size_all-push : (ns : Nodes) (n : Node) → size_all (push ns n) ≡ size_all ns + size n
  size_all-push nil n = omega arith
  size_all-push (cons m ns) n = omega (arith, size_all-push ns n)

EveryChild-push :
    (P : ℕ → ℤ → ℤ → Type 0) (ns : Nodes) (n : Node)
    → EveryChild P ns
    → Every P n
    → EveryChild P (push ns n)
unfolding Every
EveryChild-push P nil n h k = (k, tt)
EveryChild-push P (cons m ns) n (h, hs) k = (h, EveryChild-push P ns n hs k)

pub Every-push_child :
    (P : ℕ → ℤ → ℤ → Type 0) (n child : Node)
    → Every P n
    → Every P child
    → Every P (push_child n child)
unfolding Every
Every-push_child P (node id hash begin end children) child (h, hs) k =
    (h, EveryChild-push P children child hs k)

mutual
  unfolding Every

  Every-weaken :
      (P Q : ℕ → ℤ → ℤ → Type 0) (w : (h : ℕ) (b e : ℤ) → P h b e → Q h b e) (n : Node)
      → Every P n
      → Every Q n
  Every-weaken P Q w (node id hash begin end children) (h, hs) =
      (w hash begin end h, EveryChild-weaken P Q w children hs)

  EveryChild-weaken :
      (P Q : ℕ → ℤ → ℤ → Type 0) (w : (h : ℕ) (b e : ℤ) → P h b e → Q h b e) (ns : Nodes)
      → EveryChild P ns
      → EveryChild Q ns
  EveryChild-weaken P Q w nil h = tt
  EveryChild-weaken P Q w (cons n ns) (h, hs) =
      (Every-weaken P Q w n h, EveryChild-weaken P Q w ns hs)

pub All-weaken :
    (P Q : ℕ → ℤ → ℤ → Type 0) (w : (h : ℕ) (b e : ℤ) → P h b e → Q h b e) (ns : List Node)
    → All (Every P) ns
    → All (Every Q) ns
All-weaken P Q w [] h = tt
All-weaken P Q w (n ∷ ns) (h, hs) = (Every-weaken P Q w n h, All-weaken P Q w ns hs)
