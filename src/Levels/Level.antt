-- ===== src/Levels/Level.antt =====
-- `Level` of rust/tracing/src/levels.rs
use micromegas.Prelude.{
  ℕ, zero, suc, Option, none, some, List, [], ◌∷◌, get_elem?, Result, ok, err, bail, panic, or_fail,
  ◌>>=◌,
}
use micromegas.Levels.Names.{level_names, position}
use micromegas.Levels.Compare.{Comparisons, by_discriminant}

pub data Level : Type 0 where
  fatal error warn info debug trace : Level

-- `self as u32`
abbrev pub as_u32 : Level → ℕ
as_u32 fatal = 1
as_u32 error = 2
as_u32 warn = 3
as_u32 info = 4
as_u32 debug = 5
as_u32 trace = 6

abbrev pub from_value : ℕ → Option Level
from_value (suc zero) = some fatal
from_value (suc (suc zero)) = some error
from_value (suc (suc (suc zero))) = some warn
from_value (suc (suc (suc (suc zero)))) = some info
from_value (suc (suc (suc (suc (suc zero))))) = some debug
from_value (suc (suc (suc (suc (suc (suc zero)))))) = some trace
from_value _ = none

abbrev pub from_u32 : ℕ → Option Level
from_u32 (suc zero) = some fatal
from_u32 (suc (suc zero)) = some error
from_u32 (suc (suc (suc zero))) = some warn
from_u32 (suc (suc (suc (suc zero)))) = some info
from_u32 (suc (suc (suc (suc (suc zero))))) = some debug
from_u32 (suc (suc (suc (suc (suc (suc zero)))))) = some trace
from_u32 _ = none

-- `PartialOrd` and `Ord` of `Level`
abbrev pub comparisons : Comparisons Level Level
comparisons = by_discriminant as_u32 as_u32

-- `LEVEL_NAMES[self as usize]`
unfoldable pub as_str : Level → Result (List ℕ)
as_str l = or_fail (get_elem? level_names (as_u32 l)) panic

-- `.filter(|&idx| idx != 0).map(|idx| Self::from_u32(idx as u32).unwrap()).next()`, then `ok_or`
abbrev pub of_index : Option ℕ → Result Level
of_index none = err bail
of_index (some zero) = err bail
of_index (some (suc i)) = or_fail (from_u32 (suc i)) panic

unfoldable pub from_str : List ℕ → Result Level
from_str level = of_index (position level_names level 0)

unfoldable pub max : Level
max = trace

-- `(1..7).map(|i| Self::from_u32(i).unwrap())`
abbrev unwrap_each : List ℕ → Result (List Level)
unwrap_each [] = ok []
unwrap_each (i ∷ is) = do l ← or_fail (from_u32 i) panic; ls ← unwrap_each is; ok (l ∷ ls)

unfoldable pub iter : Result (List Level)
iter = unwrap_each (1 ∷ 2 ∷ 3 ∷ 4 ∷ 5 ∷ 6 ∷ [])
