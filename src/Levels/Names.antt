-- ===== src/Levels/Names.antt =====
-- The name tables of rust/tracing/src/levels.rs, and the search that the `FromStr` impls share.
-- A text is the list of its bytes.
use Prim.Native.Char.{code}
use micromegas.Prelude.{
  ℕ, suc, ◌+◌, inl, inr, Bool-cases, get_elem?, String, Bool, true, false, ◌&&◌, Option, none, some,
  List, [], ◌∷◌, map, leb, ◌==◌, if◌then◌else◌, Result, ok, err, bail, ◌≡◌, refl, arith,
}

abbrev pub codes : String → List ℕ
codes String.[] = []
codes (String.◌∷◌ c s) = code c ∷ codes s

abbrev pub level_names : List (List ℕ)
level_names =
    codes "OFF"
    ∷ codes "FATAL"
    ∷ codes "ERROR"
    ∷ codes "WARN"
    ∷ codes "INFO"
    ∷ codes "DEBUG"
    ∷ codes "TRACE"
    ∷ []

abbrev pub lod_names : List (List ℕ)
lod_names = codes "OFF" ∷ codes "LOW" ∷ codes "MED" ∷ codes "HIGH" ∷ []

-- `u8::to_ascii_lowercase`
abbrev pub to_ascii_lowercase : ℕ → ℕ
to_ascii_lowercase c = if leb b'A' c && leb c b'Z' then c + 32 else c

unfoldable pub list_eq : List ℕ → List ℕ → Bool
list_eq [] [] = true
list_eq [] (y ∷ ys) = false
list_eq (x ∷ xs) [] = false
list_eq (x ∷ xs) (y ∷ ys) = x == y && list_eq xs ys

-- `str::eq_ignore_ascii_case`
unfoldable pub eq_ignore_ascii_case : List ℕ → List ℕ → Bool
unfolding list_eq
eq_ignore_ascii_case a b = list_eq (map to_ascii_lowercase a) (map to_ascii_lowercase b)

-- `names.iter().position(|&name| str::eq_ignore_ascii_case(name, level))`, counted from `i`
unfoldable pub position : List (List ℕ) → List ℕ → ℕ → Option ℕ
position [] level i = none
position (name ∷ names) level i =
    let later = position names level (suc i) in
    if eq_ignore_ascii_case name level then some i else later

abbrev pub ok_or {ℓ} : {A : Type ℓ} → Option A → Result A
ok_or (some t) = ok t
ok_or none = err bail

pub list_eq→eq : (xs ys : List ℕ) → list_eq xs ys ≡ true → xs ≡ ys
unfolding list_eq
list_eq→eq [] [] h = refl
list_eq→eq [] (y ∷ ys) h = cc
list_eq→eq (x ∷ xs) [] h = cc
list_eq→eq (x ∷ xs) (y ∷ ys) h = ground (arith, list_eq→eq xs ys)

-- A position that is found, counted from `i`, holds a name that matches.
pub position_sound :
    (names : List (List ℕ)) (level : List ℕ) (i k : ℕ)
    → position names level i ≡ some k
    → (j : ℕ) × (n : List ℕ) × (k ≡ i + j)
      × (get_elem? names j ≡ some n)
      × (eq_ignore_ascii_case n level ≡ true)
unfolding position
position_sound [] level i k h = cc
position_sound (name ∷ names) level i k h = elim (Bool-cases (eq_ignore_ascii_case name level)) [
  | inl same ↦ (0, name, ground arith, refl, same)
  | inr other ↦ later (position_sound names level (suc i) k (ground arith))
]
  where
    later :
        ((j : ℕ) × (n : List ℕ) × (k ≡ suc i + j)
          × (get_elem? names j ≡ some n)
          × (eq_ignore_ascii_case n level ≡ true))
        → (j : ℕ) × (n : List ℕ) × (k ≡ i + j)
          × (get_elem? (name ∷ names) j ≡ some n)
          × (eq_ignore_ascii_case n level ≡ true)
    later (j, n, e, at, same) = (suc j, n, omega arith, at, same)
