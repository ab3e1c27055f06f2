-- ===== src/Levels/LodFilter.antt =====
-- `LodFilter` of rust/tracing/src/levels.rs, and its conversions from and to `Verbosity`
use micromegas.Prelude.{
  ℕ, zero, suc, Option, none, some, List, [], ◌∷◌, get_elem?, Result, ok, err, bail, panic, or_fail,
  ◌>>=◌,
}
use micromegas.Levels.Names.{lod_names, position}
use micromegas.Levels.Compare.{Comparisons, by_discriminant}
use micromegas.Levels.Verbosity
use micromegas.Levels.Verbosity.{Verbosity}

pub data LodFilter : Type 0 where
  off min med max : LodFilter

-- `self as u32`
abbrev pub as_u32 : LodFilter → ℕ
as_u32 off = 0
as_u32 min = 1
as_u32 med = 2
as_u32 max = 3

abbrev pub from_usize : ℕ → Option LodFilter
from_usize zero = some off
from_usize (suc zero) = some min
from_usize (suc (suc zero)) = some med
from_usize (suc (suc (suc zero))) = some max
from_usize _ = none

abbrev pub from_u32 : ℕ → Option LodFilter
from_u32 zero = some off
from_u32 (suc zero) = some min
from_u32 (suc (suc zero)) = some med
from_u32 (suc (suc (suc zero))) = some max
from_u32 _ = none

-- `PartialOrd` and `Ord` of `LodFilter`
abbrev pub comparisons : Comparisons LodFilter LodFilter
comparisons = by_discriminant as_u32 as_u32

-- `PartialOrd<LodFilter> for Verbosity`
abbrev pub verbosity_comparisons : Comparisons Verbosity LodFilter
verbosity_comparisons = by_discriminant Verbosity.as_u32 as_u32

-- `PartialOrd<Verbosity> for LodFilter`
abbrev pub comparisons_verbosity : Comparisons LodFilter Verbosity
comparisons_verbosity = by_discriminant as_u32 Verbosity.as_u32

-- `LodFilter::from_u32(self as u32).unwrap()`
unfoldable pub to_level_filter : Verbosity → Result LodFilter
to_level_filter l = or_fail (from_u32 (Verbosity.as_u32 l)) panic

unfoldable pub to_level : LodFilter → Option Verbosity
to_level f = Verbosity.from_u32 (as_u32 f)

unfoldable pub as_str : LodFilter → Result (List ℕ)
as_str f = or_fail (get_elem? lod_names (as_u32 f)) panic

-- `.map(|p| Self::from_usize(p).unwrap())`, then `ok_or`
abbrev of_index : Option ℕ → Result LodFilter
of_index none = err bail
of_index (some i) = or_fail (from_usize i) panic

unfoldable pub from_str : List ℕ → Result LodFilter
from_str level = of_index (position lod_names level 0)

-- `(0..4).map(|i| Self::from_usize(i).unwrap())`
abbrev unwrap_each : List ℕ → Result (List LodFilter)
unwrap_each [] = ok []
unwrap_each (i ∷ is) = do f ← or_fail (from_usize i) panic; fs ← unwrap_each is; ok (f ∷ fs)

unfoldable pub iter : Result (List LodFilter)
iter = unwrap_each (0 ∷ 1 ∷ 2 ∷ 3 ∷ [])
