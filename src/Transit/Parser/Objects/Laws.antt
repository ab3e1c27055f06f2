-- ===== src/Transit/Parser/Objects/Laws.antt =====
-- The contract of `parse_object_buffer` (rust/transit/src/parser.rs) on a block that a queue of
-- rust/transit/derive/src/declare_queue.rs wrote.
use micromegas.Prelude.{
  ℕ, zero, suc, ◌+◌, ◌-◌, ◌≤◌, ◌≡◌, refl, sym, ◌∙◌, Bool, true, false, List, [], ◌∷◌, ◌++◌, map,
  none, Result, ok, err, bail, ◌>>=◌, if◌then◌else◌, length, get_elem?, length-append,
  get_elem?-append, append-nil, arith, lt→ltb, All, HashMap,
}
use micromegas.Transit.Value.{UserDefinedType, Value}
use micromegas.Transit.Queue.{QueueTypes, Queue, new, push_all}
use micromegas.Transit.Queue.Laws.{Fits, encodings, encoding, push_all_lem, encoding-pos}
use micromegas.Transit.Parser.Objects.{read_header, parse_objects, parse_object_buffer}
use micromegas.Transit.Parser.Objects.Encoded.{
  for_each, Parses, and_then, more, parse_objects-encodings,
}

module _ (from_utf16_lossy : List ℕ → List ℕ) (depth : ℕ) (dependencies : HashMap Value)
    (udts : List UserDefinedType) {A : Type 0} (d : QueueTypes A) (decoded : A → Value) {S : Type 0}
    (fun : Value → S → Result (Bool × S)) where
  abbrev Decoded : A → Type 0
  Decoded = Parses from_utf16_lossy depth dependencies udts d decoded

  -- The loop at the end of the buffer, and at an index that no type has.
  parse_objects-end :
      (buffer : List ℕ) (fuel offset : ℕ) (s : S)
      → length buffer ≤ offset
      → parse_objects from_utf16_lossy depth dependencies udts buffer fun fuel offset s
        ≡ ok (true, s)
  unfolding parse_objects
  parse_objects-end buffer zero offset s h = ground arith
  parse_objects-end buffer (suc fuel) offset s h = ground arith

  parse_objects-bad_index :
      (front : List ℕ) (index : ℕ) (rest : List ℕ) (fuel : ℕ) (s : S)
      → get_elem? udts index ≡ none
      → parse_objects from_utf16_lossy depth dependencies udts
          (front ++ index ∷ rest)
          fun
          (suc fuel)
          (length front)
          s
        ≡ err bail
  unfolding parse_objects read_header
  parse_objects-bad_index front index rest fuel s h = rw (
    lt→ltb (length front) (length (front ++ index ∷ rest))
        (omega (arith, length-append front (index ∷ rest))),
    get_elem?-append front index rest,
    h,
  )

  more-length : (vs : List A) (fuel : ℕ) → more vs fuel ≡ length vs + fuel
  more-length [] fuel = omega arith
  more-length (v ∷ vs) fuel = omega (arith, more-length vs fuel)

  length-encodings : (vs : List A) → length vs ≤ length (encodings d vs)
  unfolding encodings
  length-encodings [] = omega arith
  length-encodings (v ∷ vs) =
      omega (
        arith,
        length-append (encoding d v) (encodings d vs),
        encoding-pos d v,
        length-encodings vs,
      )

  -- The loop over a whole buffer that starts with the values, where its length is fuel for them.
  parse_object_buffer-encodings :
      (vs : List A) (back buffer : List ℕ) (fuel : ℕ) (s : S)
      → buffer ≡ encodings d vs ++ back
      → length buffer ≡ more vs fuel
      → All (Fits d) vs
      → All Decoded vs
      → parse_object_buffer from_utf16_lossy depth dependencies udts buffer fun s
        ≡ and_then (for_each fun (map decoded vs) s) (
            parse_objects from_utf16_lossy depth dependencies udts buffer fun fuel
              (length (encodings d vs)))
  unfolding parse_object_buffer
  parse_object_buffer-encodings vs back buffer fuel s e enough fits parses =
      let start : 0 + length (encodings d vs) ≡ length (encodings d vs) = omega arith in
      rw enough (
        rw start at (
          parse_objects-encodings from_utf16_lossy depth dependencies udts d decoded fun vs [] back
            buffer fuel 0 s e refl fits parses))

  and_then-end :
      (r : Result (Bool × S)) (rest : S → Result (Bool × S))
      → ((s : S) → rest s ≡ ok (true, s))
      → and_then r rest ≡ r
  and_then-end (err failure) rest h = refl
  and_then-end (ok (true, s)) rest h = h s
  and_then-end (ok (false, s)) rest h = refl

  and_then-err :
      (r : Result (Bool × S)) (rest : S → Result (Bool × S))
      → ((s : S) → rest s ≡ err bail)
      → and_then r rest ≡ (r >>= λ p. if p.0 then err bail else ok (false, p.1))
  and_then-err (err failure) rest h = refl
  and_then-err (ok (true, s)) rest h = h s
  and_then-err (ok (false, s)) rest h = refl

  -- For values that fit in the queue and that the parser decodes: pushing them never fails, and
  -- parsing the bytes of the queue calls the callback on what they decode to, in the order of the
  -- pushes, until it answers `false` or fails.
  pub parse_object_buffer-push_all :
      (vs : List A) (s : S)
      → All (Fits d) vs
      → All Decoded vs
      → (q : Queue) × (push_all d vs new ≡ ok q)
        × (parse_object_buffer from_utf16_lossy depth dependencies udts q.buffer fun s
            ≡ for_each fun (map decoded vs) s)
  parse_object_buffer-push_all vs s fits parses =
      let buffer = encodings d vs in
      let n = length buffer in
      (
        record { buffer = buffer; obj_counter = 0 + length vs },
        push_all_lem d vs new fits,
        parse_object_buffer-encodings vs [] buffer (n - length vs) s (sym (append-nil buffer))
              (omega (arith, more-length vs (n - length vs), length-encodings vs)) fits parses
            ∙ and_then-end _ _ (λ s'. parse_objects-end buffer (n - length vs) n s' (omega arith)),
      )

  -- Where bytes follow the pushed values whose first is the index of no type, the callback still gets
  -- every value in front of them, and the parse then ends with an error, unless the callback stopped
  -- or failed earlier.
  pub parse_object_buffer-bad_index :
      (vs : List A) (index : ℕ) (rest : List ℕ) (s : S)
      → All (Fits d) vs
      → All Decoded vs
      → get_elem? udts index ≡ none
      → (q : Queue) × (push_all d vs new ≡ ok q)
        × (parse_object_buffer from_utf16_lossy depth dependencies udts
              (q.buffer ++ index ∷ rest)
              fun
              s
            ≡ (for_each fun (map decoded vs) s >>= λ (continue, s').
                if continue then err bail else ok (false, s')))
  parse_object_buffer-bad_index vs index rest s fits parses missing =
      let front = encodings d vs in
      let k = length (index ∷ rest) + length front - length vs - 1 in
      (
        record { buffer = front; obj_counter = 0 + length vs },
        push_all_lem d vs new fits,
        parse_object_buffer-encodings vs (index ∷ rest) (front ++ index ∷ rest) (suc k) s refl
              (omega (
                arith,
                more-length vs (suc k),
                length-encodings vs,
                length-append front (index ∷ rest),
              ))
              fits parses
            ∙ and_then-err _ _ (λ s'. parse_objects-bad_index front index rest k s' missing),
      )
