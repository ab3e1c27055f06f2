-- ===== src/Tracing/Stream/Blocks.antt =====
-- The events in a list of blocks (rust/tracing/src/event/block.rs), and the numbering of the blocks.
use micromegas.Prelude.{
  ℕ, ◌+◌, ◌<◌, ◌≡◌, sym, ap, ◌∙◌, false, List, [], ◌∷◌, ◌++◌, Result, ok, ◌>>=◌, >>=-eq-ok, ◌==◌,
  length, append_assoc, append-nil, arith,
}
use micromegas.Transit.Queue.{QueueTypes, Queue, new, len_bytes, nb_objects, push, push_all, iter}
use micromegas.Tracing.Stream.{EventBlock}

module _ {A : Type 0} (d : QueueTypes A) where
  -- The events of blocks, one block after the other.
  unfoldable pub contents : List EventBlock → Result (List A)
  contents [] = ok []
  contents (b ∷ bs) = do events ← iter d b.events; later ← contents bs; ok (events ++ later)

  pub contents-snoc :
      (bs : List EventBlock) (b : EventBlock) (before current : List A)
      → contents bs ≡ ok before
      → iter d b.events ≡ ok current
      → contents (bs ++ b ∷ []) ≡ ok (before ++ current)
  unfolding contents
  contents-snoc [] b before current h e =
      let same : [] ≡ before = cc in rw (e, append-nil) (ap (λ l. ok (l ++ current)) same)
  contents-snoc (c ∷ bs) b before current h e =
      let (xs, of_c, h') = >>=-eq-ok (iter d c.events) _ h in
      let (ys, of_bs, last) = >>=-eq-ok (contents bs) _ h' in
      let same : xs ++ ys ≡ before = cc in
      rw (of_c, contents-snoc bs b ys current of_bs e)
        (ap ok (sym (append_assoc xs ys current) ∙ ap (λ l. l ++ current) same))

  pub push_all-snoc :
      (vs : List A) (v : A) (q q1 q2 : Queue)
      → push_all d vs q ≡ ok q1
      → push d v q1 ≡ ok q2
      → push_all d (vs ++ v ∷ []) q ≡ ok q2
  unfolding push_all
  push_all-snoc [] v q q1 q2 h p = let same : q ≡ q1 = cc in rw (same, p)
  push_all-snoc (x ∷ vs) v q q1 q2 h p =
      let (q', first, h') = >>=-eq-ok (push d x q) _ h in
      rw first (push_all-snoc vs v q' q1 q2 h' p)

  pub push_all-pos :
      (vs : List A) (q : Queue)
      → push_all d vs new ≡ ok q
      → (len_bytes q == 0) ≡ false
      → 0 < length vs
  unfolding push_all
  push_all-pos [] q pushed full =
      let same : new ≡ q = cc in
      let full' : (len_bytes new == 0) ≡ false = ap (λ r. len_bytes r == 0) same ∙ full in
      absurd (ground arith)
  push_all-pos (v ∷ vs) q pushed full = omega arith

-- Blocks that are not empty and are numbered by the events before them, from `start` to `stop`.
abbrev pub IsNumbered : ℕ → List EventBlock → ℕ → Type 0
IsNumbered start [] stop = start ≡ stop
IsNumbered start (b ∷ bs) stop =
    (b.event_offset ≡ start)
    × (0 < nb_objects b.events)
    × IsNumbered (start + nb_objects b.events) bs stop

pub IsNumbered-snoc :
    (start : ℕ) (bs : List EventBlock) (stop : ℕ) (b : EventBlock)
    → IsNumbered start bs stop
    → b.event_offset ≡ stop
    → 0 < nb_objects b.events
    → IsNumbered start (bs ++ b ∷ []) (stop + nb_objects b.events)
IsNumbered-snoc start [] stop b h e p = (e ∙ sym h, p, ap (λ n. n + nb_objects b.events) h)
IsNumbered-snoc start (c ∷ bs) stop b (o, q, h) e p =
    (o, q, IsNumbered-snoc (start + nb_objects c.events) bs stop b h e p)
