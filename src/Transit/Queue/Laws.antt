-- ===== src/Transit/Queue/Laws.antt =====
-- The queue of rust/transit/derive/src/declare_queue.rs gives back what was pushed.
use micromegas.Prelude.{
  ℕ, zero, suc, ◌+◌, ◌≤◌, ◌<◌, ◌^◌, ◌≡◌, ◌∙◌, true, List, [], ◌∷◌, ◌++◌, none, some, ok, ltb,
  length, get_elem?, length-append, get_elem?-append, append_assoc, append-nil, arith, lt→ltb, All,
}
use micromegas.Transit.Bytes.{le_bytes, write_any, read_any, length-le_bytes, read_any-le_bytes}
use micromegas.Transit.Queue.{
  InProcSize, const, dynamic, InProcSerialize, QueueTypes, Queue, new, nb_objects, push_value, push,
  read_object, read_value_at_offset, iterate, iter, push_all,
}

module _ {A : Type 0} where
  -- `write_value` writes as many bytes as `in_proc_size` or `get_value_size` announces, and
  -- `read_value` reads the value back from them.
  abbrev pub Encodes : InProcSerialize A → A → InProcSize → Type 0
  Encodes t v (const size) =
      (length (t.write_value v) ≡ size)
      × ((front back : List ℕ)
          → t.read_value (front ++ (t.write_value v ++ back)) (length front) none ≡ ok v)
  Encodes t v dynamic =
      (size : ℕ) × (t.get_value_size v ≡ some size)
      × (size < 256 ^ 4)
      × (length (t.write_value v) ≡ size)
      × ((front back : List ℕ)
          → t.read_value (front ++ (t.write_value v ++ back)) (length front) (some size) ≡ ok v)

module _ {A : Type 0} (d : QueueTypes A) where
  -- The contract of a value of the queue: its type is found under its index, and its trait encodes it.
  pub record Fits (v : A) : Type 0 where
    pub indexed : get_elem? d.types (d.type_index v) ≡ some (d.serializer v)
    pub encodes : Encodes (d.serializer v) v (d.serializer v).in_proc_size

  unfoldable pub body : InProcSize → A → List ℕ
  body (const _) v = (d.serializer v).write_value v
  body dynamic v =
      le_bytes 4 (length ((d.serializer v).write_value v)) ++ (d.serializer v).write_value v

  -- The bytes of one object in the queue.
  unfoldable pub encoding : A → List ℕ
  encoding v = d.type_index v ∷ body (d.serializer v).in_proc_size v

  push_value_lem :
      (s : InProcSize) (v : A) (before : List ℕ)
      → Encodes (d.serializer v) v s
      → push_value d s v before ≡ ok (before ++ body s v)
  unfolding push_value body write_any
  push_value_lem (const size) v before (e, _) =
      ground (arith, length-append before ((d.serializer v).write_value v))
  push_value_lem dynamic v before (size, e, _, l, _) =
      let w = (d.serializer v).write_value v in
      rw (e, append_assoc)
        (ground (
          arith,
          l,
          length-append before (le_bytes 4 size ++ w),
          length-append (le_bytes 4 size) w,
          length-le_bytes 4 size,
        ))

  read_object_lem :
      (s : InProcSize) (v : A) (front back : List ℕ)
      → Encodes (d.serializer v) v s
      → read_object d
          (d.serializer v)
          s
          (front ++ d.type_index v ∷ (body s v ++ back))
          (length front)
        ≡ ok (v, length front + 1 + length (body s v))
  unfolding read_object body
  read_object_lem (const size) v front back (e, law) =
      let i = d.type_index v in
      let at_body = rw (append_assoc, length-append) at (law (front ++ i ∷ []) back) in
      rw (at_body, e)
  read_object_lem dynamic v front back (size, e, small, l, law) =
      let i = d.type_index v in
      let w = (d.serializer v).write_value v in
      let le = le_bytes 4 size in
      let at_size : read_any 4 (front ++ i ∷ (le ++ (w ++ back))) (length front + 1) ≡ ok size =
        rw (append_assoc, length-append) at
          (read_any-le_bytes 4 size (front ++ i ∷ []) (w ++ back) small) in
      let at_body : (d.serializer v).read_value (front ++ i ∷ (le ++ (w ++ back)))
            (length front + 1 + 4) (some size)
          ≡ ok v =
        rw (length-append, length-append, length-le_bytes, append_assoc, append_assoc) at
          (law ((front ++ i ∷ []) ++ le) back) in
      rw (l, append_assoc le w back, at_size, at_body)
        (ground (arith, length-append le w, length-le_bytes 4 size, l))

  -- Reading at the start of an encoded object gives the object back, and the offset behind it.
  pub read_value_at_offset-encoding :
      (v : A) (front back : List ℕ)
      → Fits v
      → read_value_at_offset d (front ++ (encoding v ++ back)) (length front)
        ≡ ok (v, length front + length (encoding v))
  unfolding read_value_at_offset encoding
  read_value_at_offset-encoding v front back fits =
      rw (get_elem?-append front (d.type_index v), fits.indexed)
        (read_object_lem (d.serializer v).in_proc_size v front back fits.encodes ∙ ground arith)

  pub push_lem :
      (v : A) (q : Queue)
      → Fits v
      → push d v q
        ≡ ok (record { buffer = q.buffer ++ encoding v; obj_counter = q.obj_counter + 1 })
  unfolding push encoding
  push_lem v q fits = rw (
    push_value_lem (d.serializer v).in_proc_size v (q.buffer ++ d.type_index v ∷ []) fits.encodes,
    append_assoc,
  )

  unfoldable pub encodings : List A → List ℕ
  encodings [] = []
  encodings (v ∷ vs) = encoding v ++ encodings vs

  pub encoding-pos : (v : A) → 0 < length (encoding v)
  unfolding encoding
  encoding-pos v = omega arith

  pub more_bytes :
      (v : A) (front back : List ℕ)
      → ltb (length front) (length (front ++ (encoding v ++ back))) ≡ true
  more_bytes v front back = lt→ltb _ _ (
      omega (
        arith,
        length-append front (encoding v ++ back),
        length-append (encoding v) back,
        encoding-pos v,
      ))

  iterate-encodings :
      (vs : List A) (front : List ℕ) (fuel : ℕ)
      → All Fits vs
      → length (encodings vs) ≤ fuel
      → iterate d fuel (front ++ encodings vs) (length front) ≡ ok vs
  unfolding iterate encodings
  iterate-encodings [] front zero fits h = rw append-nil (ground arith)
  iterate-encodings [] front (suc fuel) fits h = rw append-nil (ground arith)
  iterate-encodings (v ∷ vs) front zero fits h =
      absurd (omega (arith, length-append (encoding v) (encodings vs), encoding-pos v))
  iterate-encodings (v ∷ vs) front (suc fuel) (fit, fits) h =
      let later : iterate d fuel (front ++ (encoding v ++ encodings vs))
            (length front + length (encoding v))
          ≡ ok vs =
        rw (append_assoc, length-append) at
          (iterate-encodings vs (front ++ encoding v) fuel fits
            (omega (arith, length-append (encoding v) (encodings vs), encoding-pos v))) in
      rw (
        more_bytes v front (encodings vs),
        read_value_at_offset-encoding v front (encodings vs) fit,
        later,
      )

  pub push_all_lem :
      (vs : List A) (q : Queue)
      → All Fits vs
      → push_all d vs q
        ≡ ok (record { buffer = q.buffer ++ encodings vs; obj_counter = q.obj_counter + length vs })
  unfolding push_all encodings
  push_all_lem [] q fits = rw append-nil (ground arith)
  push_all_lem (v ∷ vs) q (fit, fits) =
      rw (push_lem v q fit, push_all_lem vs _ fits, append_assoc) (ground arith)

  -- Pushing any values that fit never fails, whatever their mix of static and dynamic sizes; the
  -- queue then counts them, and iterating over it returns them in the order in which they were
  -- pushed.
  pub iter-push_all :
      (vs : List A)
      → All Fits vs
      → (q : Queue) × (push_all d vs new ≡ ok q) × (nb_objects q ≡ length vs) × (iter d q ≡ ok vs)
  unfolding iter
  iter-push_all vs fits = (
    record { buffer = encodings vs; obj_counter = 0 + length vs },
    push_all_lem vs new fits,
    omega arith,
    iterate-encodings vs [] _ fits (omega arith),
  )
