-- ===== src/Levels/Parsing.antt =====
-- What the `FromStr` impls of rust/tracing/src/levels.rs accept.
use micromegas.Prelude.{
  ℕ, zero, suc, ◌≡◌, refl, sym, ap, ◌∙◌, ◌↔◌, true, Option, none, some, List, map, ok, err, bail,
  arith, ◌⊎◌, inl, inr, Option-cases, get_elem?,
}
use micromegas.Levels.Names.{
  codes, level_names, eq_ignore_ascii_case, to_ascii_lowercase, list_eq→eq, position,
  position_sound,
}
use micromegas.Levels.Level
use micromegas.Levels.Level.{Level}
use micromegas.Levels.LevelFilter
use micromegas.Levels.LevelFilter.{LevelFilter}

abbrev name : LevelFilter → List ℕ
name LevelFilter.off = codes "OFF"
name LevelFilter.fatal = codes "FATAL"
name LevelFilter.error = codes "ERROR"
name LevelFilter.warn = codes "WARN"
name LevelFilter.info = codes "INFO"
name LevelFilter.debug = codes "DEBUG"
name LevelFilter.trace = codes "TRACE"

as_str-name : (f : LevelFilter) → LevelFilter.as_str f ≡ ok (name f)
unfolding LevelFilter.as_str
as_str-name LevelFilter.off = refl
as_str-name _ = refl

lowered :
    (n s : List ℕ)
    → eq_ignore_ascii_case n s ≡ true
    → map to_ascii_lowercase s ≡ map to_ascii_lowercase n
unfolding eq_ignore_ascii_case
lowered n s h = sym (list_eq→eq _ _ h)

filter_accepts :
    (f : LevelFilter) (s : List ℕ)
    → map to_ascii_lowercase s ≡ map to_ascii_lowercase (name f)
    → position level_names s 0 ≡ some (LevelFilter.as_u32 f)
unfolding position eq_ignore_ascii_case
filter_accepts LevelFilter.off s e = rw e
filter_accepts _ s e = rw e

-- The filter with the name of a level.
abbrev filter_of : Level → LevelFilter
filter_of Level.fatal = LevelFilter.fatal
filter_of Level.error = LevelFilter.error
filter_of Level.warn = LevelFilter.warn
filter_of Level.info = LevelFilter.info
filter_of Level.debug = LevelFilter.debug
filter_of Level.trace = LevelFilter.trace

filter_of_discriminant : (l : Level) → LevelFilter.as_u32 (filter_of l) ≡ Level.as_u32 l
filter_of_discriminant Level.fatal = refl
filter_of_discriminant _ = refl

as_str-filter_of : (l : Level) → Level.as_str l ≡ ok (name (filter_of l))
unfolding Level.as_str
as_str-filter_of Level.fatal = refl
as_str-filter_of _ = refl

filter_of_index : (f : LevelFilter) → LevelFilter.of_index (some (LevelFilter.as_u32 f)) ≡ ok f
filter_of_index LevelFilter.off = refl
filter_of_index _ = refl

level_of_index : (l : Level) → Level.of_index (some (Level.as_u32 l)) ≡ ok l
level_of_index Level.fatal = refl
level_of_index _ = refl

index_of_ok :
    (o : Option ℕ) (f : LevelFilter)
    → LevelFilter.of_index o ≡ ok f
    → o ≡ some (LevelFilter.as_u32 f)
index_of_ok none f h = cc
index_of_ok (some k) f h = ground arith

level_of_ok : (o : Option ℕ) (l : Level) → Level.of_index o ≡ ok l → o ≡ some (Level.as_u32 l)
level_of_ok none l h = cc
level_of_ok (some zero) l h = cc
level_of_ok (some (suc k)) l h = ground arith

name_at : (f : LevelFilter) → get_elem? level_names (LevelFilter.as_u32 f) ≡ some (name f)
name_at LevelFilter.off = refl
name_at _ = refl

-- A name that is found at the discriminant of `f` is the name of `f`, in some case.
position_named :
    (f : LevelFilter) (s : List ℕ)
    → position level_names s 0 ≡ some (LevelFilter.as_u32 f)
    → eq_ignore_ascii_case (name f) s ≡ true
position_named f s h =
    let (j, n, e, at, same) = position_sound level_names s 0 _ h in
    let j_eq : j ≡ LevelFilter.as_u32 f = omega arith in cc (name_at f, j_eq)

-- A text parses as the filter `f` exactly when it is the name that `f` prints, in any case.
pub filter-from_str_iff :
    (f : LevelFilter) (n s : List ℕ)
    → LevelFilter.as_str f ≡ ok n
    → (LevelFilter.from_str s ≡ ok f) ↔ (eq_ignore_ascii_case n s ≡ true)
unfolding LevelFilter.from_str
filter-from_str_iff f n s e =
    let same : n ≡ name f = cc (as_str-name f) in
    rw same (
      λ h. position_named f s (index_of_ok _ f h),
      λ h. rw (filter_accepts f s (lowered (name f) s h)) (filter_of_index f),
    )

no_panic :
    (s : List ℕ)
    → (Level.of_index (position level_names s 0) ≡ err bail)
      ⊎ (k : Level) × (Level.of_index (position level_names s 0) ≡ ok k)
no_panic s = elim (Option-cases (position level_names s 0)) [
  | inl missing ↦ rw missing (inl refl)
  | inr (i, found) ↦
      let (j, n, e, at, same) = position_sound level_names s 0 i found in
      let j_eq : j ≡ i = omega arith in rw found (indexed i n (rw j_eq at at))
]
  where
    indexed :
        (i : ℕ) (n : List ℕ)
        → get_elem? level_names i ≡ some n
        → (Level.of_index (some i) ≡ err bail) ⊎ (k : Level) × (Level.of_index (some i) ≡ ok k)
    indexed zero n h = inl refl
    indexed (suc zero) n h = inr (Level.fatal, refl)
    indexed (suc (suc zero)) n h = inr (Level.error, refl)
    indexed (suc (suc (suc zero))) n h = inr (Level.warn, refl)
    indexed (suc (suc (suc (suc zero)))) n h = inr (Level.info, refl)
    indexed (suc (suc (suc (suc (suc zero))))) n h = inr (Level.debug, refl)
    indexed (suc (suc (suc (suc (suc (suc zero)))))) n h = inr (Level.trace, refl)
    indexed (suc (suc (suc (suc (suc (suc (suc i))))))) n h = cc

-- A text parses as the level `l` exactly when it is the name that `l` prints, in any case; and a
-- text that parses as no level, as the name "OFF" does, is an error and no panic.
pub level-from_str_iff :
    (l : Level) (n s : List ℕ)
    → Level.as_str l ≡ ok n
    → ((Level.from_str s ≡ ok l) ↔ (eq_ignore_ascii_case n s ≡ true))
      × ((Level.from_str s ≡ err bail) ⊎ (k : Level) × (Level.from_str s ≡ ok k))
unfolding Level.from_str
level-from_str_iff l n s e =
    let f = filter_of l in
    let same : n ≡ name f = cc (as_str-filter_of l) in
    (
      rw same (
        λ h. position_named f s (level_of_ok _ l h ∙ ap some (sym (filter_of_discriminant l))),
        λ h.
            rw (filter_accepts f s (lowered (name f) s h), filter_of_discriminant l)
              (level_of_index l),
      ),
      no_panic s,
    )
