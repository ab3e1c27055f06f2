-- ===== src/Levels/LevelFilter.antt =====
-- `LevelFilter` of rust/tracing/src/levels.rs, and its conversions from and to `Level`
use micromegas.Prelude.{
  ℕ, zero, suc, Option, none, some, List, [], ◌∷◌, get_elem?, Result, ok, err, bail, panic, or_fail,
  ◌>>=◌,
}
use micromegas.Levels.Names.{level_names, position}
use micromegas.Levels.Compare.{Comparisons, by_discriminant}
use micromegas.Levels.Level
use micromegas.Levels.Level.{Level}

pub data LevelFilter : Type 0 where
  off fatal error warn info debug trace : LevelFilter

-- `self as u32`
abbrev pub as_u32 : LevelFilter → ℕ
as_u32 off = 0
as_u32 fatal = 1
as_u32 error = 2
as_u32 warn = 3
as_u32 info = 4
as_u32 debug = 5
as_u32 trace = 6

abbrev pub from_u32 : ℕ → Option LevelFilter
from_u32 zero = some off
from_u32 (suc zero) = some fatal
from_u32 (suc (suc zero)) = some error
from_u32 (suc (suc (suc zero))) = some warn
from_u32 (suc (suc (suc (suc zero)))) = some info
from_u32 (suc (suc (suc (suc (suc zero))))) = some debug
from_u32 (suc (suc (suc (suc (suc (suc zero)))))) = some trace
from_u32 _ = none

-- `PartialOrd` and `Ord` of `LevelFilter`
abbrev pub comparisons : Comparisons LevelFilter LevelFilter
comparisons = by_discriminant as_u32 as_u32

-- `PartialOrd<LevelFilter> for Level`
abbrev pub level_comparisons : Comparisons Level LevelFilter
level_comparisons = by_discriminant Level.as_u32 as_u32

-- `PartialOrd<Level> for LevelFilter`
abbrev pub comparisons_level : Comparisons LevelFilter Level
comparisons_level = by_discriminant as_u32 Level.as_u32

-- `LevelFilter::from_u32(self as u32).unwrap()`
unfoldable pub to_level_filter : Level → Result LevelFilter
to_level_filter l = or_fail (from_u32 (Level.as_u32 l)) panic

unfoldable pub to_level : LevelFilter → Option Level
to_level f = Level.from_u32 (as_u32 f)

unfoldable pub as_str : LevelFilter → Result (List ℕ)
as_str f = or_fail (get_elem? level_names (as_u32 f)) panic

-- `.map(|p| Self::from_u32(p as u32).unwrap())`, then `ok_or`
abbrev pub of_index : Option ℕ → Result LevelFilter
of_index none = err bail
of_index (some i) = or_fail (from_u32 i) panic

unfoldable pub from_str : List ℕ → Result LevelFilter
from_str level = of_index (position level_names level 0)

unfoldable pub max : LevelFilter
max = trace

-- `(0..7).map(|i| Self::from_u32(i).unwrap())`
abbrev unwrap_each : List ℕ → Result (List LevelFilter)
unwrap_each [] = ok []
unwrap_each (i ∷ is) = do f ← or_fail (from_u32 i) panic; fs ← unwrap_each is; ok (f ∷ fs)

unfoldable pub iter : Result (List LevelFilter)
iter = unwrap_each (0 ∷ 1 ∷ 2 ∷ 3 ∷ 4 ∷ 5 ∷ 6 ∷ [])
