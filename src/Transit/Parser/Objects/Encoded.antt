-- ===== src/Transit/Parser/Objects/Encoded.antt =====
-- What `parse_object_buffer` (rust/transit/src/parser.rs) makes of the bytes that a queue wrote.
use micromegas.Prelude.{
  ℕ, suc, ◌+◌, ◌<◌, ◌≤◌, ◌^◌, ◌≡◌, refl, sym, ap, ◌∙◌, Bool, true, false, List, [], ◌∷◌, ◌++◌, map,
  some, Result, ok, err, ◌>>=◌, ltb, ◌==◌, if◌then◌else◌, length, get_elem?, length-append,
  append_assoc, arith, All, HashMap,
}
use micromegas.Transit.Value.{UserDefinedType, Value}
use micromegas.Transit.Queue.{InProcSize, const, dynamic, QueueTypes}
use micromegas.Transit.Queue.Laws.{Encodes, Fits, body, encoding, encodings, more_bytes}
use micromegas.Transit.Parser.{parse_pod_instance}
use micromegas.Transit.Parser.Custom.{parse_custom_instance}
use micromegas.Transit.Parser.Objects.Header.{read_header-body}
use micromegas.Transit.Parser.Objects.{read_header, next_object, parse_instance, parse_objects}

-- What a loop does with what one turn returned: the rest of the loop, unless it was told to stop.
module _ {S : Type 0} where
  abbrev pub and_then : Result (Bool × S) → (S → Result (Bool × S)) → Result (Bool × S)
  and_then r rest = r >>= λ p. if p.0 then rest p.1 else ok (false, p.1)

  pub and_then_cong :
      (r : Result (Bool × S)) (first second : S → Result (Bool × S))
      → ((s : S) → first s ≡ second s)
      → and_then r first ≡ and_then r second
  and_then_cong (err failure) first second h = refl
  and_then_cong (ok (true, s)) first second h = h s
  and_then_cong (ok (false, s)) first second h = refl

  and_then_assoc :
      (r : Result (Bool × S)) (first second rest : S → Result (Bool × S))
      → ((s : S) → first s ≡ and_then (second s) rest)
      → and_then r first ≡ and_then (and_then r second) rest
  and_then_assoc (err failure) first second rest h = refl
  and_then_assoc (ok (true, s)) first second rest h = h s
  and_then_assoc (ok (false, s)) first second rest h = refl

-- One unit of fuel for each value, and then some.
abbrev pub more : {A : Type 0} → List A → ℕ → ℕ
more [] fuel = fuel
more (v ∷ vs) fuel = suc (more vs fuel)

-- The end of an object in the buffer does not wrap around.
pub next_object-inside :
    (buffer : List ℕ) (behind : ℕ) → behind ≤ length buffer → next_object buffer behind ≡ behind
unfolding next_object
next_object-inside buffer behind h = ground arith

-- What the loop promises: the callback gets the values in order until it answers `false` or fails.
module _ {V S : Type 0} (fun : V → S → Result (Bool × S)) where
  unfoldable pub for_each : List V → S → Result (Bool × S)
  for_each [] s = ok (true, s)
  for_each (v ∷ vs) s = do
    (continue, s') ← fun v s
    let next = for_each vs s'
    if continue then next else ok (false, s')

module _ (from_utf16_lossy : List ℕ → List ℕ) (depth : ℕ) (dependencies : HashMap Value)
    (udts : List UserDefinedType) {A : Type 0} (d : QueueTypes A) (decoded : A → Value) where
  -- The parser makes the value `decoded v` of the bytes of `v`, where the type is `udt`.
  abbrev pub Decodes : InProcSize → UserDefinedType → A → Type 0
  Decodes (const size) udt v =
      (udt.size ≡ size)
      × ((udt.size == 0) ≡ false)
      × ((front back : List ℕ)
          → parse_pod_instance udts dependencies (front ++ ((d.serializer v).write_value v ++ back))
              depth udt (length front)
            ≡ ok (decoded v))
  Decodes dynamic udt v =
      ((udt.size == 0) ≡ true)
      × ((front back : List ℕ)
          → parse_custom_instance from_utf16_lossy depth udts dependencies
              (front ++ ((d.serializer v).write_value v ++ back)) udt (length front)
              (length ((d.serializer v).write_value v))
            ≡ ok (decoded v))

  -- The type of a value is described at its type index, and the parser decodes the value with it.
  pub record Parses (v : A) : Type 0 where
    pub udt : UserDefinedType
    pub described : get_elem? udts (d.type_index v) ≡ some udt
    pub small : length ((d.serializer v).write_value v) < 256 ^ 4
    pub decodes : Decodes (d.serializer v).in_proc_size udt v

  -- The header of an object, its instance, and where the next object starts.
  abbrev Step : A → UserDefinedType → InProcSize → List ℕ → List ℕ → Type 0
  Step v udt s front back =
      let buffer = front ++ d.type_index v ∷ (body d s v ++ back) in
      (at : ℕ) × (size : ℕ) × (read_header udts buffer (length front) ≡ ok (udt, at, size))
      × (parse_instance from_utf16_lossy depth dependencies udts buffer udt at size
          ≡ ok (decoded v))
      × (at + size ≡ length front + suc (length (body d s v)))

  step :
      (s : InProcSize) (v : A) (udt : UserDefinedType) (front back : List ℕ)
      → get_elem? udts (d.type_index v) ≡ some udt
      → length ((d.serializer v).write_value v) < 256 ^ 4
      → Encodes (d.serializer v) v s
      → Decodes s udt v
      → Step v udt s front back
  unfolding parse_instance
  step (const size) v udt front back described small (e, _) (h, nonzero, law) =
      let (before, same, header, next) =
        read_header-body udts d (const size) udt v front back described (nonzero, h ∙ sym e) in
      (length before, _, header, rw (same, nonzero) (law before back), next)
  step dynamic v udt front back described small enc (zero_size, law) =
      let (before, same, header, next) =
        read_header-body udts d dynamic udt v front back described (zero_size, small) in
      (length before, _, header, rw (same, zero_size) (law before back), next)

  module _ {S : Type 0} (fun : Value → S → Result (Bool × S)) where
    -- One turn of the loop whose parts are known.
    parse_objects-step :
        (v : A) (buffer : List ℕ) (fuel offset next : ℕ) (udt : UserDefinedType) (at size : ℕ)
        (s : S)
        → ltb offset (length buffer) ≡ true
        → read_header udts buffer offset ≡ ok (udt, at, size)
        → parse_instance from_utf16_lossy depth dependencies udts buffer udt at size
          ≡ ok (decoded v)
        → next_object buffer (at + size) ≡ next
        → parse_objects from_utf16_lossy depth dependencies udts buffer fun (suc fuel) offset s
          ≡ and_then
              (fun (decoded v) s)
              (parse_objects from_utf16_lossy depth dependencies udts buffer fun fuel next)
    unfolding parse_objects
    parse_objects-step v buffer fuel offset next udt at size s inside header parsed e =
        rw (inside, header, parsed, e) refl

    pub parse_objects-encodings :
        (vs : List A) (front back buffer : List ℕ) (fuel offset : ℕ) (s : S)
        → buffer ≡ front ++ (encodings d vs ++ back)
        → offset ≡ length front
        → All (Fits d) vs
        → All Parses vs
        → parse_objects from_utf16_lossy depth dependencies udts buffer fun (more vs fuel) offset s
          ≡ and_then (for_each fun (map decoded vs) s) (
              parse_objects from_utf16_lossy depth dependencies udts buffer fun fuel
                (offset + length (encodings d vs)))
    unfolding encodings encoding for_each
    parse_objects-encodings [] front back buffer fuel offset s e at_front fits parses =
        let here : offset + 0 ≡ offset = omega arith in rw here refl
    parse_objects-encodings (v ∷ vs) front back buffer fuel offset s e at_front (fit, fits)
          (p, parses) =
        let (at, size, at_header, at_instance, next) =
          step (d.serializer v).in_proc_size v p.udt front (encodings d vs ++ back) p.described
            p.small fit.encodes p.decodes in
        let e' : buffer ≡ front ++ (encoding d v ++ (encodings d vs ++ back)) =
          e ∙ ap (λ bytes. front ++ bytes) (append_assoc (encoding d v) (encodings d vs) back) in
        let behind : offset + length (encodings d (v ∷ vs))
            ≡ offset + length (encoding d v) + length (encodings d vs) =
          omega (arith, length-append (encoding d v) (encodings d vs)) in
        let inside : offset + length (encoding d v) ≤ length buffer = omega (
          arith,
          ap length e',
          length-append front (encoding d v ++ (encodings d vs ++ back)),
          length-append (encoding d v) (encodings d vs ++ back),
          at_front,
        ) in
        let next_is : at + size ≡ offset + length (encoding d v) = next ∙ rw at_front refl in
        rw (behind) (
          parse_objects-step v buffer (more vs fuel) offset (offset + length (encoding d v)) p.udt
            at size s (rw (e', at_front) (more_bytes d v front (encodings d vs ++ back)))
            (rw (e', at_front) at_header) (rw e' at_instance)
            (ap (λ n. next_object buffer n) next_is
              ∙ next_object-inside buffer (offset + length (encoding d v)) inside)
          ∙ and_then_assoc (fun (decoded v) s) _ _ _ λ s'.
            parse_objects-encodings vs (front ++ encoding d v) back buffer fuel
              (offset + length (encoding d v)) s' (e' ∙ sym (append_assoc front _ _))
              (omega (arith, at_front, length-append front (encoding d v))) fits parses)
