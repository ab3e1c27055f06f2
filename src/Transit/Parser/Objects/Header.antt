-- ===== src/Transit/Parser/Objects/Header.antt =====
-- The header of an object that a queue wrote, as `parse_object_buffer` and `read_dependencies`
-- (rust/transit/src/parser.rs) read it.
use micromegas.Prelude.{
  ℕ, suc, ◌+◌, ◌<◌, ◌^◌, ◌≡◌, refl, sym, ap, true, false, List, [], ◌∷◌, ◌++◌, some, Result, ok,
  ◌==◌, length, get_elem?, length-append, get_elem?-append, append_assoc, arith,
}
use micromegas.Transit.Bytes.{le_bytes, read_any, length-le_bytes, read_any-le_bytes}
use micromegas.Transit.Value.{UserDefinedType}
use micromegas.Transit.Queue.{InProcSize, const, dynamic, QueueTypes}
use micromegas.Transit.Queue.Laws.{body}
use micromegas.Transit.Parser.Objects.{read_header}

module _ (udts : List UserDefinedType) {A : Type 0} (d : QueueTypes A) where
  abbrev pub written : A → List ℕ
  written v = (d.serializer v).write_value v

  -- The size that the type declares is that of the value, or the value's own size stands in front.
  abbrev pub IsSized : InProcSize → UserDefinedType → A → Type 0
  IsSized (const size) udt v = ((udt.size == 0) ≡ false) × (udt.size ≡ length (written v))
  IsSized dynamic udt v = ((udt.size == 0) ≡ true) × (length (written v) < 256 ^ 4)

  -- Where the value starts in the buffer, and what the header says.
  abbrev pub Headed : InProcSize → UserDefinedType → A → List ℕ → List ℕ → Type 0
  Headed s udt v front back =
      let buffer = front ++ d.type_index v ∷ (body d s v ++ back) in
      (before : List ℕ) × (buffer ≡ before ++ (written v ++ back))
      × (read_header udts buffer (length front) ≡ ok (udt, length before, length (written v)))
      × (length before + length (written v) ≡ length front + suc (length (body d s v)))

  pub read_header-body :
      (s : InProcSize) (udt : UserDefinedType) (v : A) (front back : List ℕ)
      → get_elem? udts (d.type_index v) ≡ some udt
      → IsSized s udt v
      → Headed s udt v front back
  unfolding read_header body
  read_header-body (const size) udt v front back described (nonzero, e) =
      let i = d.type_index v in
      let longer = length-append front (i ∷ []) in
      let answer : ℕ → Result (UserDefinedType × ℕ × ℕ) = λ n. ok (udt, length front + 1, n) in
      (
        front ++ i ∷ [],
        sym (append_assoc front (i ∷ []) (written v ++ back)),
        rw (get_elem?-append front i (written v ++ back), described, nonzero, longer) (ap answer e),
        omega (arith, longer),
      )
  read_header-body dynamic udt v front back described (zero, small) =
      let i = d.type_index v in
      let le = le_bytes 4 (length (written v)) in
      let at_size : read_any 4 (front ++ i ∷ (le ++ (written v ++ back))) (length front + 1)
          ≡ ok (length (written v)) =
        rw (append_assoc, length-append) at
          (read_any-le_bytes 4 (length (written v)) (front ++ i ∷ []) (written v ++ back) small) in
      let longer : length ((front ++ i ∷ []) ++ le) ≡ length front + 1 + 4 = omega (
        arith,
        length-append (front ++ i ∷ []) le,
        length-append front (i ∷ []),
        length-le_bytes 4 (length (written v)),
      ) in
      (
        (front ++ i ∷ []) ++ le,
        rw (append_assoc le, append_assoc, append_assoc) refl,
        rw
            (
              append_assoc le (written v) back,
              get_elem?-append front i (le ++ (written v ++ back)),
              described,
              zero,
              at_size,
              longer,
            )
            refl,
        omega (arith, longer, length-append le (written v), length-le_bytes 4 (length (written v))),
      )
