-- ===== src/Levels/Tests.antt =====
-- Concrete runs of the levels, and the theorems at concrete inputs.
use micromegas.Prelude.{◌⊎◌, ◌≡◌, refl, ◌↔◌, true, some, [], ◌∷◌, ok, err, bail}
use micromegas.Levels.Names.{codes, eq_ignore_ascii_case, position}
use micromegas.Levels.Level
use micromegas.Levels.Level.{Level}
use micromegas.Levels.LevelFilter
use micromegas.Levels.LevelFilter.{
  LevelFilter, comparisons, level_comparisons, comparisons_level, to_level_filter, to_level,
}
use micromegas.Levels.LodFilter.{LodFilter}
use micromegas.Levels.MaxLevel.{level, lod, init, run, max_level, max_lod, max_level-stored}
use micromegas.Levels.Order.{from_u32-eq-some_iff}
use micromegas.Levels.Parsing.{filter-from_str_iff, level-from_str_iff}

off_is_no_level : Level.from_str (codes "off") ≡ err bail
unfolding Level.from_str position eq_ignore_ascii_case
off_is_no_level = refl

filter-from_str_iff_example :
    (LevelFilter.from_str (codes "Warn") ≡ ok LevelFilter.warn)
    ↔ (eq_ignore_ascii_case (codes "WARN") (codes "Warn") ≡ true)
unfolding LevelFilter.as_str
filter-from_str_iff_example =
    filter-from_str_iff LevelFilter.warn (codes "WARN") (codes "Warn") refl

level-from_str_iff_example :
    ((Level.from_str (codes "debug") ≡ ok Level.debug)
      ↔ (eq_ignore_ascii_case (codes "DEBUG") (codes "debug") ≡ true))
    × ((Level.from_str (codes "debug") ≡ err bail)
        ⊎ (k : Level) × (Level.from_str (codes "debug") ≡ ok k))
unfolding Level.as_str
level-from_str_iff_example = level-from_str_iff Level.debug (codes "DEBUG") (codes "debug") refl

from_u32-eq-some_iff_example :
    ((Level.from_u32 4 ≡ some Level.info) ↔ (Level.as_u32 Level.info ≡ 4))
    × ((Level.from_value 4 ≡ some Level.info) ↔ (Level.as_u32 Level.info ≡ 4))
from_u32-eq-some_iff_example = from_u32-eq-some_iff 4 Level.info

max_level-stored_example :
    let m = run (level LevelFilter.debug ∷ lod LodFilter.min ∷ level LevelFilter.info ∷ []) init in
    (max_level m ≡ some LevelFilter.info) × (max_lod m ≡ some LodFilter.min)
max_level-stored_example =
    max_level-stored (level LevelFilter.debug ∷ lod LodFilter.min ∷ level LevelFilter.info ∷ [])
