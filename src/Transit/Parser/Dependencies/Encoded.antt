-- ===== src/Transit/Parser/Dependencies/Encoded.antt =====
-- What `read_dependencies` (rust/transit/src/parser.rs) makes of the bytes that a queue wrote.
use micromegas.Prelude.{
  ℕ, zero, suc, ◌+◌, ◌≤◌, ◌≡◌, refl, sym, ap, ◌∙◌, true, List, [], ◌∷◌, ◌++◌, some, Result, ok, err,
  ◌>>=◌, ltb, length, get_elem?, length-append, append_assoc, arith, All, HashMap,
}
use micromegas.Transit.Value.{UserDefinedType, Value}
use micromegas.Transit.Queue.{QueueTypes, Queue, new, push_all}
use micromegas.Transit.Queue.Laws.{
  Fits, encoding, encodings, push_all_lem, encoding-pos, more_bytes,
}
use micromegas.Transit.Parser.Objects.{read_header, next_object}
use micromegas.Transit.Parser.Objects.Encoded.{next_object-inside}
use micromegas.Transit.Parser.Objects.Header.{IsSized, read_header-body}
use micromegas.Transit.Parser.Dependencies.{read_dependency, read_all, read_dependencies}

module _ {A : Type 0} (load : A → HashMap Value → Result (HashMap Value)) where
  -- The values in order, each with the map that those in front of it made.
  unfoldable pub load_all : List A → HashMap Value → Result (HashMap Value)
  load_all [] hash = ok hash
  load_all (v ∷ vs) hash = do hash' ← load v hash; load_all vs hash'

module _ (from_utf16_lossy : List ℕ → List ℕ) (depth : ℕ) (udts : List UserDefinedType) {A : Type 0}
    (d : QueueTypes A) (load : A → HashMap Value → Result (HashMap Value)) where
  -- The reader does `load` on the bytes of a value.
  pub record Loads (v : A) : Type 0 where
    pub udt : UserDefinedType
    pub described : get_elem? udts (d.type_index v) ≡ some udt
    pub sized : IsSized udts d (d.serializer v).in_proc_size udt v
    pub loads :
        (front back : List ℕ) (hash : HashMap Value)
        → read_dependency from_utf16_lossy depth udts
            (front ++ ((d.serializer v).write_value v ++ back))
            udt
            (length front)
            (length ((d.serializer v).write_value v))
            hash
          ≡ load v hash

  -- One turn of the loop whose parts are known.
  read_all-step :
      (v : A) (udt : UserDefinedType) (buffer : List ℕ) (fuel offset at size next : ℕ)
      (hash : HashMap Value)
      → ltb offset (length buffer) ≡ true
      → read_header udts buffer offset ≡ ok (udt, at, size)
      → read_dependency from_utf16_lossy depth udts buffer udt at size hash ≡ load v hash
      → next_object buffer (at + size) ≡ next
      → read_all from_utf16_lossy depth udts buffer (suc fuel) offset hash
        ≡ (load v hash >>= λ hash'. read_all from_utf16_lossy depth udts buffer fuel next hash')
  unfolding read_all
  read_all-step v udt buffer fuel offset at size next hash inside header loaded e =
      rw (inside, header, loaded, e) refl

  >>=-cong :
      (r : Result (HashMap Value)) (first second : HashMap Value → Result (HashMap Value))
      → ((hash : HashMap Value) → first hash ≡ second hash)
      → (r >>= first) ≡ (r >>= second)
  >>=-cong (err failure) first second h = refl
  >>=-cong (ok hash) first second h = h hash

  read_all-end :
      (buffer : List ℕ) (fuel offset : ℕ) (hash : HashMap Value)
      → length buffer ≤ offset
      → read_all from_utf16_lossy depth udts buffer fuel offset hash ≡ ok hash
  unfolding read_all
  read_all-end buffer zero offset hash h = ground arith
  read_all-end buffer (suc fuel) offset hash h = ground arith

  read_all-encodings :
      (vs : List A) (front buffer : List ℕ) (fuel offset : ℕ) (hash : HashMap Value)
      → buffer ≡ front ++ encodings d vs
      → offset ≡ length front
      → length (encodings d vs) ≤ fuel
      → All (Fits d) vs
      → All Loads vs
      → read_all from_utf16_lossy depth udts buffer fuel offset hash ≡ load_all load vs hash
  unfolding encodings encoding load_all
  read_all-encodings [] front buffer fuel offset hash e at_front enough fits loads =
      read_all-end buffer fuel offset hash
        (omega (arith, at_front, ap length e, length-append front []))
  read_all-encodings (v ∷ vs) front buffer zero offset hash e at_front enough fits loads =
      absurd
        (omega (arith, length-append (encoding d v) (encodings d vs), encoding-pos d v, enough))
  read_all-encodings (v ∷ vs) front buffer (suc fuel) offset hash e at_front enough (fit, fits)
        (l, loads) =
      let (before, same, header, next) =
        read_header-body udts d (d.serializer v).in_proc_size l.udt v front (encodings d vs)
          l.described l.sized in
      let inside : offset + length (encoding d v) ≤ length buffer = omega (
        arith,
        ap length e,
        length-append front (encodings d (v ∷ vs)),
        length-append (encoding d v) (encodings d vs),
        at_front,
      ) in
      let next_is = next ∙ rw at_front refl in
      read_all-step v l.udt buffer fuel offset (length before) _ (offset + length (encoding d v))
        hash (rw (e, at_front) (more_bytes d v front (encodings d vs))) (rw (e, at_front) header)
        (rw (e, same) (l.loads before (encodings d vs) hash))
        (ap (λ n. next_object buffer n) next_is
          ∙ next_object-inside buffer (offset + length (encoding d v)) inside)
      ∙ >>=-cong (load v hash) _ _ λ hash'.
        read_all-encodings vs (front ++ encoding d v) buffer fuel (offset + length (encoding d v))
          hash' (e ∙ sym (append_assoc front _ _))
          (omega (arith, at_front, length-append front (encoding d v)))
          (omega (arith, length-append (encoding d v) (encodings d vs), encoding-pos d v, enough))
          fits loads

  -- Over the bytes of the values that a queue got, the reader loads each of them in the order of the
  -- pushes.
  pub read_dependencies-push_all :
      (vs : List A)
      → All (Fits d) vs
      → All Loads vs
      → (q : Queue) × (push_all d vs new ≡ ok q)
        × (read_dependencies from_utf16_lossy depth udts q.buffer ≡ load_all load vs [])
  unfolding read_dependencies
  read_dependencies-push_all vs fits loads = (
    record { buffer = encodings d vs; obj_counter = 0 + length vs },
    push_all_lem d vs new fits,
    read_all-encodings vs [] (encodings d vs) (length (encodings d vs)) 0 [] refl refl (omega arith)
        fits loads,
  )
