-- ===== src/Levels/MaxLevel.antt =====
-- The process-wide maxima of rust/tracing/src/levels.rs: two atomics that hold a discriminant.
use micromegas.Prelude.{ℕ, Option, some, List, [], ◌∷◌, ◌≡◌, refl}
use micromegas.Levels.LevelFilter
use micromegas.Levels.LevelFilter.{LevelFilter}
use micromegas.Levels.LodFilter
use micromegas.Levels.LodFilter.{LodFilter}

-- `MAX_LEVEL_FILTER` and `MAX_LOD_FILTER`
pub record Maxima : Type 0 where
  pub level_filter : ℕ
  pub lod_filter : ℕ

abbrev pub init : Maxima
init = record { level_filter = 0; lod_filter = 0 }

unfoldable pub set_max_level : LevelFilter → Maxima → Maxima
set_max_level level m = record m { level_filter = LevelFilter.as_u32 level }

unfoldable pub set_max_lod : LodFilter → Maxima → Maxima
set_max_lod level m = record m { lod_filter = LodFilter.as_u32 level }

-- `transmute` of the stored number: `none` is a number that is no discriminant.
unfoldable pub max_level : Maxima → Option LevelFilter
max_level m = LevelFilter.from_u32 m.level_filter

unfoldable pub max_lod : Maxima → Option LodFilter
max_lod m = LodFilter.from_u32 m.lod_filter

pub data Store : Type 0 where
  level : LevelFilter → Store
  lod : LodFilter → Store

pub store : Store → Maxima → Maxima
unfolding set_max_level set_max_lod
store (level f) m = set_max_level f m
store (lod f) m = set_max_lod f m

pub run : List Store → Maxima → Maxima
run [] m = m
run (s ∷ ss) m = run ss (store s m)

-- The last filters stored, `off` where none was.
abbrev pub last_level : LevelFilter → List Store → LevelFilter
last_level f [] = f
last_level f (level g ∷ ss) = last_level g ss
last_level f (lod g ∷ ss) = last_level f ss

abbrev pub last_lod : LodFilter → List Store → LodFilter
last_lod f [] = f
last_lod f (level g ∷ ss) = last_lod f ss
last_lod f (lod g ∷ ss) = last_lod g ss

from_u32-as_u32 : (f : LevelFilter) → LevelFilter.from_u32 (LevelFilter.as_u32 f) ≡ some f
from_u32-as_u32 LevelFilter.off = refl
from_u32-as_u32 _ = refl

from_u32-as_u32_lod : (f : LodFilter) → LodFilter.from_u32 (LodFilter.as_u32 f) ≡ some f
from_u32-as_u32_lod LodFilter.off = refl
from_u32-as_u32_lod _ = refl

max_level-run :
    (ss : List Store) (m : Maxima) (f : LevelFilter) (g : LodFilter)
    → m.level_filter ≡ LevelFilter.as_u32 f
    → m.lod_filter ≡ LodFilter.as_u32 g
    → (max_level (run ss m) ≡ some (last_level f ss)) × (max_lod (run ss m) ≡ some (last_lod g ss))
unfolding run max_level max_lod store
max_level-run [] m f g h k = (ap_level, ap_lod)
  where
    ap_level : max_level m ≡ some f
    ap_level = cc (h, from_u32-as_u32 f)

    ap_lod : max_lod m ≡ some g
    ap_lod = cc (k, from_u32-as_u32_lod g)
max_level-run (level f' ∷ ss) m f g h k = max_level-run ss (set_max_level f' m) f' g refl k
max_level-run (lod g' ∷ ss) m f g h k = max_level-run ss (set_max_lod g' m) f g' h refl

-- After any sequence of `set_max_level` and `set_max_lod` calls from the initial state, `max_level`
-- and `max_lod` transmute a valid discriminant, and return the filters that were stored last
-- (`off` where none was).
pub max_level-stored :
    (ss : List Store)
    → (max_level (run ss init) ≡ some (last_level LevelFilter.off ss))
      × (max_lod (run ss init) ≡ some (last_lod LodFilter.off ss))
max_level-stored ss = max_level-run ss init LevelFilter.off LodFilter.off refl refl
