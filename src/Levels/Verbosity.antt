-- ===== src/Levels/Verbosity.antt =====
-- `Verbosity` of rust/tracing/src/levels.rs
use micromegas.Prelude.{
  ℕ, zero, suc, Option, none, some, List, [], ◌∷◌, get_elem?, Result, ok, err, bail, panic, or_fail,
  ◌>>=◌,
}
use micromegas.Levels.Names.{lod_names, position}
use micromegas.Levels.Compare.{Comparisons, by_discriminant}

pub data Verbosity : Type 0 where
  min med max : Verbosity

-- `self as u32`
abbrev pub as_u32 : Verbosity → ℕ
as_u32 min = 1
as_u32 med = 2
as_u32 max = 3

abbrev pub from_usize : ℕ → Option Verbosity
from_usize (suc zero) = some min
from_usize (suc (suc zero)) = some med
from_usize (suc (suc (suc zero))) = some max
from_usize _ = none

abbrev pub from_u32 : ℕ → Option Verbosity
from_u32 (suc zero) = some min
from_u32 (suc (suc zero)) = some med
from_u32 (suc (suc (suc zero))) = some max
from_u32 _ = none

-- `PartialOrd` and `Ord` of `Verbosity`
abbrev pub comparisons : Comparisons Verbosity Verbosity
comparisons = by_discriminant as_u32 as_u32

-- `LOD_NAMES[self as usize]`
unfoldable pub as_str : Verbosity → Result (List ℕ)
as_str l = or_fail (get_elem? lod_names (as_u32 l)) panic

-- `.filter(|&idx| idx != 0).map(|idx| Self::from_usize(idx).unwrap()).next()`, then `ok_or`
abbrev of_index : Option ℕ → Result Verbosity
of_index none = err bail
of_index (some zero) = err bail
of_index (some (suc i)) = or_fail (from_usize (suc i)) panic

unfoldable pub from_str : List ℕ → Result Verbosity
from_str level = of_index (position lod_names level 0)

-- `(1..4).map(|i| Self::from_usize(i).unwrap())`
abbrev unwrap_each : List ℕ → Result (List Verbosity)
unwrap_each [] = ok []
unwrap_each (i ∷ is) = do l ← or_fail (from_usize i) panic; ls ← unwrap_each is; ok (l ∷ ls)

unfoldable pub iter : Result (List Verbosity)
iter = unwrap_each (1 ∷ 2 ∷ 3 ∷ [])
