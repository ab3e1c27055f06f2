-- ===== src/Transit/Parser/Ends.antt =====
-- The recursion of `parse_pod_instance` and the loop of `parse_object_buffer` (rust/transit/src/
-- parser.rs) come to an end.
use micromegas.Prelude.{
  ℕ, zero, suc, ◌+◌, ◌≤◌, ◌<◌, ◌≡◌, ◌≢◌, refl, ap, ◌⊎◌, inl, inr, Bool, true, false, String, List,
  [], ◌∷◌, Option, none, some, Result, ok, err, bail, panic, out_of_bounds, out_of_fuel, or_fail,
  guard, ◌>>=◌, ◌>>◌, ltb, ◌==◌, if◌then◌else◌, All, HashMap, Bool-cases, Option-cases, arith,
}
use text.Mathlib.Text.{◌==◌ as ◌==ₛ◌}
use mathlib.Core.Path.{subst}
use text.Mathlib.TextEquality.{eq_iff}
use micromegas.Transit.Bytes.{read_any, read_i64}
use micromegas.Transit.Value.{Member, UserDefinedType, Value, u8, u32, u64, i64, f64, no_value}
use micromegas.Transit.Parser.{
  find_udt, read_sized, parse_member, parse_members, parse_pod_instance,
}

-- The fuel was enough.
abbrev pub Ends {ℓ} : {A : Type ℓ} → Result A → Type ℓ
Ends r = r ≢ err out_of_fuel

module _ {ℓ} {A : Type ℓ} where
  pub Ends-bind_eq {κ} :
      {B : Type κ} (r : Result A) (k : A → Result B)
      → Ends r
      → ((a : A) → r ≡ ok a → Ends (k a))
      → Ends (r >>= k)
  Ends-bind_eq (ok value) k first rest h = rest value refl h
  Ends-bind_eq (err failure) k first rest h =
      let same : failure ≡ out_of_fuel = cc in first (ap err same)

  pub Ends-bind {κ} :
      {B : Type κ} (r : Result A) (k : A → Result B)
      → Ends r
      → ((a : A) → Ends (k a))
      → Ends (r >>= k)
  Ends-bind r k first rest = Ends-bind_eq r k first λ a e. rest a

  pub Ends-ok : (a : A) → Ends (ok a)
  Ends-ok a h = cc

  pub Ends-panic : (o : Option A) → Ends (or_fail o panic)
  Ends-panic none h = cc
  Ends-panic (some a) h = cc

  pub Ends-bail : (o : Option A) → Ends (or_fail o bail)
  Ends-bail none h = cc
  Ends-bail (some a) h = cc

  pub Ends-bounds : (o : Option A) → Ends (or_fail o out_of_bounds)
  Ends-bounds none h = cc
  Ends-bounds (some a) h = cc

  pub Ends-if : (b : Bool) (r s : Result A) → Ends r → Ends s → Ends (if b then r else s)
  Ends-if true r s h k = h
  Ends-if false r s h k = k

pub Ends-guard : (b : Bool) → Ends (guard b panic)
Ends-guard true h = cc
Ends-guard false h = cc

pub read_any-Ends : (size : ℕ) (buffer : List ℕ) (offset : ℕ) → Ends (read_any size buffer offset)
unfolding read_any
read_any-Ends size buffer offset = Ends-bind _ _ (Ends-bounds _) λ bytes. Ends-ok _

pub read_i64-Ends : (buffer : List ℕ) (offset : ℕ) → Ends (read_i64 buffer offset)
unfolding read_i64
read_i64-Ends buffer offset = Ends-bind _ _ (read_any-Ends 8 buffer offset) λ bits. Ends-ok _

read_sized-Ends :
    (size : ℕ) (m : Member) (buffer : List ℕ) (at : ℕ) (wrap : ℕ → Value)
    → Ends (read_sized size m buffer at wrap)
unfolding read_sized
read_sized-Ends size m buffer at wrap =
    Ends-bind _ _ (Ends-guard (size == m.size))
      λ done. Ends-bind _ _ (read_any-Ends size buffer at) λ bits. Ends-ok _

-- No type holds a value of itself, at any depth: a rank that goes down from a type to the types of
-- the members that it holds by value.
module _ (rank : String → ℕ) where
  abbrev pub IsBelow : UserDefinedType → Member → Type 0
  IsBelow t m = (m.is_reference ≡ true) ⊎ (rank m.type_name < rank t.name)

  abbrev pub IsRanked : UserDefinedType → Type 0
  IsRanked t = All (IsBelow t) t.members

  pub find_udt-IsRanked :
      (name : String) (udts : List UserDefinedType) (t : UserDefinedType)
      → All IsRanked udts
      → find_udt name udts ≡ some t
      → IsRanked t × (t.name ≡ name)
  unfolding find_udt
  find_udt-IsRanked name [] t ranked h = cc
  find_udt-IsRanked name (u ∷ us) t (r, ranked) h = elim (Bool-cases (u.name ==ₛ name)) [
    | inl e ↦
        let same : some u ≡ some t = rw e at h in
        let u_is : u ≡ t = cc in
        subst (λ x. IsRanked x × (x.name ≡ name)) u_is (r, (eq_iff u.name name).0 e)
    | inr e ↦ find_udt-IsRanked name us t ranked (rw e at h)
  ]

  module _ (udts : List UserDefinedType) (dependencies : HashMap Value) (buffer : List ℕ)
      (ranked : All IsRanked udts) where
    -- `parse_udt` ends on every type of a rank below `bound`.
    abbrev pub EndsBelow : (UserDefinedType → ℕ → Result Value) → ℕ → Type 0
    EndsBelow parse_udt bound =
        (u : UserDefinedType) (offset : ℕ)
        → IsRanked u
        → rank u.name < bound
        → Ends (parse_udt u offset)

    read_signed-Ends :
        (m : Member) (at : ℕ)
        → Ends (do guard (8 == m.size) panic; val ← read_i64 buffer at; ok (i64 val))
    read_signed-Ends m at =
        Ends-bind _ _ (Ends-guard (8 == m.size))
          λ done. Ends-bind _ _ (read_i64-Ends buffer at) λ val. Ends-ok _

    held-Ends :
        (parse_udt : UserDefinedType → ℕ → Result Value) (bound at : ℕ) (name : String)
        → EndsBelow parse_udt bound
        → rank name < bound
        → Ends (elim (find_udt name udts) [
          | none ↦ ok no_value
          | some member_udt ↦ parse_udt member_udt at
        ])
    held-Ends parse_udt bound at name below less = elim (Option-cases (find_udt name udts)) [
      | inl e ↦ rw e (Ends-ok no_value)
      | inr (u, e) ↦
          let (r, same) = find_udt-IsRanked name udts u ranked e in
          rw e (below u at r (rw same less))
    ]

    parse_member-Ends :
        (parse_udt : UserDefinedType → ℕ → Result Value) (bound offset : ℕ) (t : UserDefinedType)
        (m : Member)
        → EndsBelow parse_udt bound
        → rank t.name ≤ bound
        → IsBelow t m
        → Ends (parse_member udts dependencies buffer parse_udt offset m)
    unfolding parse_member
    parse_member-Ends parse_udt bound offset t m below bounded low =
        let at = offset + m.offset in
        let sized = λ (size : ℕ) (wrap : ℕ → Value). read_sized-Ends size m buffer at wrap in
        let by_reference =
          Ends-if (ltb m.size 8) _ _ (Ends-ok no_value)
            (Ends-bind _ _ (read_any-Ends 8 buffer at) λ key. Ends-ok _) in
        elim low [
          | inl reference ↦ rw reference by_reference
          | inr less ↦
              let by_udt =
                held-Ends parse_udt bound at m.type_name below (omega (arith, bounded, less)) in
              Ends-if m.is_reference _ _ by_reference (
                Ends-if _ _ _ (sized 1 u8) (
                  Ends-if _ _ _ (sized 4 u32) (
                    Ends-if _ _ _ (sized 8 u64) (
                      Ends-if _ _ _ (read_signed-Ends m at) (Ends-if _ _ _ (sized 8 f64) by_udt)))))
        ]

    parse_members-Ends :
        (parse_udt : UserDefinedType → ℕ → Result Value) (bound offset : ℕ) (t : UserDefinedType)
        (ms : List Member)
        → EndsBelow parse_udt bound
        → rank t.name ≤ bound
        → All (IsBelow t) ms
        → Ends (parse_members udts dependencies buffer parse_udt offset ms)
    unfolding parse_members
    parse_members-Ends parse_udt bound offset t [] below bounded low = Ends-ok _
    parse_members-Ends parse_udt bound offset t (m ∷ ms) below bounded (low, lows) =
        Ends-bind _ _ (parse_member-Ends parse_udt bound offset t m below bounded low) λ value.
          Ends-bind _ _ (parse_members-Ends parse_udt bound offset t ms below bounded lows)
            λ rest. Ends-ok _

    -- Where no type holds a value of itself at any depth, fuel above the rank of a type is enough to
    -- parse an instance of it, whatever the bytes and the dependencies are.
    pub parse_pod_instance-Ends :
        (depth : ℕ) → EndsBelow (parse_pod_instance udts dependencies buffer depth) depth
    unfolding parse_pod_instance
    parse_pod_instance-Ends zero u offset r less = absurd (omega (arith, less))
    parse_pod_instance-Ends (suc depth) u offset r less =
        Ends-bind _ _
          (parse_members-Ends (parse_pod_instance udts dependencies buffer depth) depth offset u
            u.members (parse_pod_instance-Ends depth) (omega (arith, less)) r)
          λ ms. Ends-ok _
