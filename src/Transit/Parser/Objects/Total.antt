-- ===== src/Transit/Parser/Objects/Total.antt =====
-- `parse_object_buffer` of rust/transit/src/parser.rs returns on any bytes.
use micromegas.Prelude.{
  ℕ, zero, suc, ◌+◌, ◌%◌, ◌^◌, ◌≤◌, ◌<◌, ◌≡◌, ◌≢◌, ap, inl, inr, Bool, true, false, String, List,
  [], ◌∷◌, Option, some, Result, ok, err, bail, panic, out_of_bounds, out_of_fuel, or_fail,
  or_fail-ok, ◌>>=◌, >>=-eq-ok, ltb, ◌==◌, length, get_elem?, All, HashMap, Bool-cases,
  Option-cases, arith, ltb→lt,
}
use text.Mathlib.Text.{◌==◌ as ◌==ₛ◌}
use mathlib.Core.Path.{subst}
use micromegas.Transit.Bytes.{IsByte, window, read_any, read_any-lt}
use micromegas.Transit.Utf8.{from_utf8}
use micromegas.Transit.Strings.{read_dyn_string, parse_string, decode}
use micromegas.Transit.Value.{UserDefinedType, Value, Members, no_members}
use micromegas.Transit.Parser.{find_udt, parse_pod_instance}
use micromegas.Transit.Parser.Custom.{
  parse_log_string_event, members_or_none, parse_log_string_interop_event_v3, interop_event_members,
  parse_log_string_interop_event, custom_members, parse_custom_instance,
}
use micromegas.Transit.Parser.Objects.{
  read_header, next_object, parse_instance, parse_objects, parse_object_buffer,
}
use micromegas.Transit.Parser.Ends.{
  Ends, Ends-bind_eq, Ends-bind, Ends-ok, Ends-panic, Ends-bail, Ends-bounds, Ends-if,
  read_any-Ends, read_i64-Ends, IsRanked, parse_pod_instance-Ends,
}

read_dyn_string-Ends :
    (buffer : List ℕ) (ptr : ℕ) (size : Option ℕ) → Ends (read_dyn_string buffer ptr size)
unfolding read_dyn_string
read_dyn_string-Ends buffer ptr size =
    Ends-bind _ _ (Ends-panic size)
      λ n. Ends-bind _ _ (Ends-bounds (window buffer ptr n)) λ bytes. Ends-panic (from_utf8 bytes)

members_or_none-Ends : (r : Result Members) → Ends r → Ends (members_or_none r)
members_or_none-Ends (ok ms) first h = cc
members_or_none-Ends (err bail) first h = cc
members_or_none-Ends (err panic) first h = cc
members_or_none-Ends (err out_of_bounds) first h = cc
members_or_none-Ends (err out_of_fuel) first h = first h

module _ (from_utf16_lossy : List ℕ → List ℕ) where
  decode-Ends : (codec_id : ℕ) (bytes : List ℕ) → Ends (decode from_utf16_lossy codec_id bytes)
  unfolding decode
  decode-Ends codec_id bytes = Ends-if (codec_id == 0) _ _ (Ends-ok _) (
      Ends-if (codec_id == 1) _ _ (Ends-if (length bytes % 2 == 0) _ _ (Ends-ok _) (λ h. cc))
        (Ends-if (codec_id == 2) _ _ (Ends-ok _) (λ h. cc)))

  parse_string-Ends :
      (buffer : List ℕ) (cursor : ℕ) → Ends (parse_string from_utf16_lossy buffer cursor)
  unfolding parse_string
  parse_string-Ends buffer cursor = Ends-bind _ _ (Ends-panic _) λ codec_id.
      Ends-bind _ _ (read_any-Ends 4 buffer (cursor + 1)) λ n.
        Ends-bind _ _ (Ends-panic _)
          λ bytes. Ends-bind _ _ (decode-Ends codec_id bytes) λ text. Ends-ok _

parse_log_string_event-Ends :
    (dependencies : HashMap Value) (offset size : ℕ) (buffer : List ℕ)
    → Ends (parse_log_string_event dependencies offset size buffer)
unfolding parse_log_string_event
parse_log_string_event-Ends dependencies offset size buffer =
    Ends-bind _ _ (read_any-Ends 8 buffer offset) λ desc_id.
      Ends-bind _ _ (read_i64-Ends buffer (offset + 8))
        λ time. Ends-bind _ _ (read_dyn_string-Ends buffer (offset + 16) _) λ msg. Ends-ok _

module _ (from_utf16_lossy : List ℕ → List ℕ) (rank : String → ℕ) (depth : ℕ)
    (dependencies : HashMap Value) where
  -- No type holds a value of itself, types are nested less than `depth` deep, and their sizes are those
  -- of values that memory holds.
  abbrev pub IsShallow : UserDefinedType → Type 0
  IsShallow t = IsRanked rank t × (rank t.name < depth) × (t.size < 2 ^ 63)

  module _ (udts : List UserDefinedType) (shallow : All IsShallow udts) where
    ranked : (ts : List UserDefinedType) → All IsShallow ts → All (IsRanked rank) ts
    ranked [] h = tt
    ranked (t ∷ ts) ((r, less, size), h) = (r, ranked ts h)

    find_udt-IsShallow :
        (ts : List UserDefinedType) (name : String) (t : UserDefinedType)
        → All IsShallow ts
        → find_udt name ts ≡ some t
        → IsShallow t
    unfolding find_udt
    find_udt-IsShallow [] name t h e = cc
    find_udt-IsShallow (u ∷ us) name t (low, h) e = elim (Bool-cases (u.name ==ₛ name)) [
      | inl test ↦
          let same : some u ≡ some t = rw test at e in
          let u_is : u ≡ t = cc in subst IsShallow u_is low
      | inr test ↦ find_udt-IsShallow us name t h (rw test at e)
    ]

    get_elem?-IsShallow :
        (ts : List UserDefinedType) (i : ℕ) (t : UserDefinedType)
        → All IsShallow ts
        → get_elem? ts i ≡ some t
        → IsShallow t
    get_elem?-IsShallow [] i t h e = cc
    get_elem?-IsShallow (u ∷ us) zero t (low, h) e =
        let u_is : u ≡ t = cc in subst IsShallow u_is low
    get_elem?-IsShallow (u ∷ us) (suc i) t (low, h) e = get_elem?-IsShallow us i t h e

    pod-Ends :
        (buffer : List ℕ) (u : UserDefinedType) (offset : ℕ)
        → IsShallow u
        → Ends (parse_pod_instance udts dependencies buffer depth u offset)
    pod-Ends buffer u offset (r, less, size) =
        parse_pod_instance-Ends rank udts dependencies buffer (ranked udts shallow) depth u offset r
          less

    interop_v3-Ends :
        (buffer : List ℕ)
        → Ends (parse_log_string_interop_event_v3 from_utf16_lossy depth udts dependencies buffer)
    unfolding parse_log_string_interop_event_v3
    interop_v3-Ends buffer =
        Ends-bind_eq _ _ (Ends-bail (find_udt "StaticStringRef" udts)) λ u found.
          Ends-bind _ _ (read_i64-Ends buffer 0) λ time.
            Ends-bind _ _ (read_any-Ends 1 buffer 8) λ level.
              Ends-bind _ _ (pod-Ends buffer u 9 (string_ref u found)) λ target.
                Ends-bind _ _ (parse_string-Ends from_utf16_lossy buffer (9 + u.size))
                  λ text. Ends-ok _
      where
        string_ref :
            (u : UserDefinedType)
            → or_fail (find_udt "StaticStringRef" udts) bail ≡ ok u
            → IsShallow u
        string_ref u e = find_udt-IsShallow udts "StaticStringRef" u shallow (or_fail-ok _ _ e)

    interop-Ends :
        (buffer : List ℕ) (offset size : ℕ)
        → Ends (
            parse_log_string_interop_event from_utf16_lossy depth udts dependencies buffer offset
              size)
    unfolding parse_log_string_interop_event interop_event_members
    interop-Ends buffer offset size = elim (Option-cases (find_udt "StringId" udts)) [
      | inl e ↦ rw (parse_log_string_interop_event, e) (Ends-ok no_members)
      | inr (u, e) ↦
          let low = find_udt-IsShallow udts "StringId" u shallow e in
          rw (parse_log_string_interop_event, e)
            (Ends-bind _ _ (read_i64-Ends buffer offset) λ time.
              Ends-bind _ _ (read_any-Ends 4 buffer (offset + 8)) λ level.
                Ends-bind _ _ (pod-Ends buffer u (offset + 8 + 4) low) λ target.
                  Ends-bind _ _ (read_dyn_string-Ends buffer (offset + 8 + 4 + u.size) _)
                    λ msg. Ends-ok _)
    ]

    custom-Ends :
        (buffer : List ℕ) (u : UserDefinedType) (offset size : ℕ)
        → Ends (parse_custom_instance from_utf16_lossy depth udts dependencies buffer u offset size)
    unfolding parse_custom_instance custom_members
    custom-Ends buffer u offset size =
        Ends-bind _ _
          (Ends-if (u.name ==ₛ "LogStringEvent") _ _
            (parse_log_string_event-Ends dependencies offset size buffer)
            (Ends-if (u.name ==ₛ "LogStringInteropEventV2") _ _ (interop-Ends buffer offset size) (
              Ends-if (u.name ==ₛ "LogStringInteropEventV3") _ _
                (Ends-bind _ _ (Ends-panic (window buffer offset size))
                  λ object_buffer. members_or_none-Ends _ (interop_v3-Ends object_buffer))
                (Ends-ok no_members))))
          λ ms. Ends-ok _

    module _ (buffer : List ℕ) (bytes : All IsByte buffer)
        (in_memory : length buffer < 2 ^ 63) where
      instance-Ends :
          (u : UserDefinedType) (offset size : ℕ)
          → IsShallow u
          → Ends (parse_instance from_utf16_lossy depth dependencies udts buffer u offset size)
      unfolding parse_instance
      instance-Ends u offset size low =
          Ends-if (u.size == 0) _ _ (custom-Ends buffer u offset size)
            (pod-Ends buffer u offset low)

      next_object-small :
          (buffer : List ℕ) (behind : ℕ) → behind < 2 ^ 64 → next_object buffer behind ≡ behind
      unfolding next_object
      next_object-small buffer behind h = ground arith

      read_header-Ends : (offset : ℕ) → Ends (read_header udts buffer offset)
      unfolding read_header
      read_header-Ends offset = Ends-bind _ _ (Ends-panic _) λ i.
          Ends-bind _ _ (Ends-bail (get_elem? udts i)) λ u.
            Ends-if (u.size == 0) _ _
              (Ends-bind _ _ (read_any-Ends 4 buffer (offset + 1)) λ n. Ends-ok _) (Ends-ok _)

      -- A header leads forward.
      read_header-forward :
          (offset : ℕ) (u : UserDefinedType) (at size : ℕ)
          → offset < length buffer
          → read_header udts buffer offset ≡ ok (u, at, size)
          → IsShallow u × (offset < at) × (at + size < 2 ^ 64)
      unfolding read_header
      read_header-forward offset u at size inside h =
          let (i, _, described) = >>=-eq-ok (or_fail (get_elem? buffer offset) panic) _ h in
          let (t, found, rest) = >>=-eq-ok (or_fail (get_elem? udts i) bail) _ described in
          let low = get_elem?-IsShallow udts i t shallow (or_fail-ok _ _ found) in
          elim (Bool-cases (t.size == 0)) [
            | inl test ↦
                let sized : (read_any 4 buffer (offset + 1) >>= λ n. ok (t, offset + 1 + 4, n))
                    ≡ ok (u, at, size) =
                  rw test at rest in
                let (n, counted, last) = >>=-eq-ok (read_any 4 buffer (offset + 1)) _ sized in
                let below = read_any-lt 4 buffer (offset + 1) n bytes counted in
                header_at t (offset + 1 + 4) n low (omega arith)
                  (omega (arith, below, inside, in_memory)) last
            | inr test ↦
                header_at t (offset + 1) t.size low (omega arith)
                  (omega (arith, low.2, inside, in_memory)) (rw test at rest)
          ]
        where
          header_at :
              (t : UserDefinedType) (next n : ℕ)
              → IsShallow t
              → offset < next
              → next + n < 2 ^ 64
              → ◌≡◌ {A = Result (UserDefinedType × ℕ × ℕ)} (ok (t, next, n)) (ok (u, at, size))
              → IsShallow u × (offset < at) × (at + size < 2 ^ 64)
          header_at t next n low forward small e =
              let first : UserDefinedType × ℕ × ℕ = (t, next, n) in
              let second : UserDefinedType × ℕ × ℕ = (u, at, size) in
              let same : first ≡ second = cc in
              (
                subst IsShallow (ap (λ p. p.0) same) low,
                subst (λ x. offset < x) (ap (λ p. p.1) same) forward,
                subst (λ x. x < 2 ^ 64) (ap (λ p. p.1 + p.2) same) small,
              )

      module _ {S : Type 0} (fun : Value → S → Result (Bool × S))
          (returns : (v : Value) (s : S) → Ends (fun v s)) where
        parse_objects-Ends :
            (fuel offset : ℕ) (s : S)
            → length buffer ≤ offset + fuel
            → Ends (parse_objects from_utf16_lossy depth dependencies udts buffer fun fuel offset s)
        unfolding parse_objects
        parse_objects-Ends zero offset s enough = elim (Bool-cases (ltb offset (length buffer))) [
          | inl test ↦ absurd (omega (arith, ltb→lt offset (length buffer) test, enough))
          | inr test ↦ rw test (Ends-ok (true, s))
        ]
        parse_objects-Ends (suc fuel) offset s enough =
            elim (Bool-cases (ltb offset (length buffer))) [
              | inl test ↦ rw test (
                  Ends-bind_eq _ _ (read_header-Ends offset) λ header e.
                    let (low, forward, small) =
                      read_header-forward offset header.0 header.1 header.2
                        (ltb→lt offset (length buffer) test) e in
                    Ends-bind _ _ (instance-Ends header.0 header.1 header.2 low) λ v.
                      Ends-bind _ _ (returns v s) λ p.
                        Ends-if p.0 _ _
                          (parse_objects-Ends fuel (next_object buffer (header.1 + header.2)) p.1 (
                            omega (
                              arith,
                              forward,
                              enough,
                              next_object-small buffer (header.1 + header.2) small,
                            )))
                          (Ends-ok (false, p.1)))
              | inr test ↦ rw test (Ends-ok (true, s))
            ]

        -- Where no type holds a value of itself at any depth, types are nested less than `depth`
        -- deep and have sizes below 2^63, the buffer has fewer than 2^63 bytes and the callback
        -- returns, the parse returns, on any bytes and with any dependencies: neither the recursion
        -- over types nor the loop over objects runs out of fuel.
        pub parse_object_buffer-Ends :
            (s : S)
            → parse_object_buffer from_utf16_lossy depth dependencies udts buffer fun s
              ≢ err out_of_fuel
        unfolding parse_object_buffer
        parse_object_buffer-Ends s = parse_objects-Ends (length buffer) 0 s (omega arith)
