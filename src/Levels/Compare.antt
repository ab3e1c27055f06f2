-- ===== src/Levels/Compare.antt =====
-- The comparisons that rust/tracing/src/levels.rs implements for each pair of its enumerations.
use Prim.Native.Nat.{compare, Ordering}
use micromegas.Prelude.{ℕ, Bool, ◌==◌, ltb, leb}

-- What `PartialEq`, `PartialOrd` and `Ord` give for `A` against `B`.
pub record Comparisons (A B : Type 0) : Type 0 where
  pub eq : A → B → Bool
  pub cmp : A → B → Ordering
  pub lt : A → B → Bool
  pub le : A → B → Bool
  pub gt : A → B → Bool
  pub ge : A → B → Bool

-- Every impl casts both sides by `as u32` and compares the numbers.
abbrev pub by_discriminant : {A B : Type 0} → (A → ℕ) → (B → ℕ) → Comparisons A B
by_discriminant f g = record {
  eq = λ a b. f a == g b;
  cmp = λ a b. compare (f a) (g b);
  lt = λ a b. ltb (f a) (g b);
  le = λ a b. leb (f a) (g b);
  gt = λ a b. ltb (g b) (f a);
  ge = λ a b. leb (g b) (f a);
}
