-- ===== src/Levels/Order.antt =====
-- The two decoders of `Level` in rust/tracing/src/levels.rs.
use micromegas.Prelude.{ℕ, ◌≡◌, ◌↔◌, some, arith}
use micromegas.Levels.Level
use micromegas.Levels.Level.{Level}

of_some : (n : ℕ) (l : Level) → Level.from_u32 n ≡ some l → Level.as_u32 l ≡ n
of_some n l h = ground arith

to_some : (n : ℕ) (l : Level) → Level.as_u32 l ≡ n → Level.from_u32 n ≡ some l
to_some n Level.fatal h = rw (← h)
to_some n _ h = rw (← h)

value_of_some : (n : ℕ) (l : Level) → Level.from_value n ≡ some l → Level.as_u32 l ≡ n
value_of_some n l h = ground arith

value_to_some : (n : ℕ) (l : Level) → Level.as_u32 l ≡ n → Level.from_value n ≡ some l
value_to_some n Level.fatal h = rw (← h)
value_to_some n _ h = rw (← h)

-- `from_u32` and `from_value` accept a number exactly when it is the discriminant of the level that
-- they return.
pub from_u32-eq-some_iff :
    (n : ℕ) (l : Level)
    → ((Level.from_u32 n ≡ some l) ↔ (Level.as_u32 l ≡ n))
      × ((Level.from_value n ≡ some l) ↔ (Level.as_u32 l ≡ n))
from_u32-eq-some_iff n l = ((of_some n l, to_some n l), (value_of_some n l, value_to_some n l))
