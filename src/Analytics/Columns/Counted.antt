-- ===== src/Analytics/Columns/Counted.antt =====
-- A dictionary that counts its different strings: string columns as in rust/analytics/src/span_table.rs
-- that keep the promise about their keys.
use micromegas.Prelude.{
  ℕ, suc, ◌≤◌, ◌≡◌, refl, Bool, true, false, ◌||◌, List, [], ◌∷◌, length, All, inl, inr, Bool-cases,
  if◌then◌else◌, leb, arith,
}
use mathlib.Core.Path.{subst}
use micromegas.Levels.Names.{list_eq}
use micromegas.Analytics.Columns.{HasKey, HasEnough, IsIn}

abbrev mem : List ℕ → List (List ℕ) → Bool
mem v [] = false
mem v (x ∷ xs) = list_eq v x || mem v xs

abbrev distinct : List (List ℕ) → List (List ℕ)
distinct [] = []
distinct (x ∷ xs) = if mem x (distinct xs) then distinct xs else x ∷ distinct xs

abbrev pub counted : HasKey
counted keys values value = leb (length (distinct (value ∷ values))) keys

abbrev remove : List ℕ → List (List ℕ) → List (List ℕ)
remove v [] = []
remove v (k ∷ ks) = if list_eq v k then ks else k ∷ remove v ks

list_eq_refl : (v : List ℕ) → list_eq v v ≡ true
unfolding list_eq
list_eq_refl [] = refl
list_eq_refl (x ∷ xs) = ground (arith, list_eq_refl xs)

length-remove :
    (v : List ℕ) (known : List (List ℕ))
    → IsIn known v
    → suc (length (remove v known)) ≡ length known
length-remove v [] none_in = elim none_in [ ]
length-remove v (k ∷ ks) (inl e) =
    let same : list_eq v k ≡ true = subst (λ x. list_eq v x ≡ true) e (list_eq_refl v) in
    rw same refl
length-remove v (k ∷ ks) (inr later) = elim (Bool-cases (list_eq v k)) [
  | inl same ↦ rw same refl
  | inr other ↦ rw other (omega (arith, length-remove v ks later))
]

IsIn-remove :
    (v w : List ℕ) (known : List (List ℕ))
    → list_eq v w ≡ false
    → IsIn known w
    → IsIn (remove v known) w
IsIn-remove v w [] apart none_in = elim none_in [ ]
IsIn-remove v w (k ∷ ks) apart (inl e) =
    let other : list_eq v k ≡ false = subst (λ x. list_eq v x ≡ false) e apart in rw other (inl e)
IsIn-remove v w (k ∷ ks) apart (inr later) = elim (Bool-cases (list_eq v k)) [
  | inl same ↦ rw same later
  | inr other ↦ rw other (inr (IsIn-remove v w ks apart later))
]

All-remove :
    (v : List ℕ) (known ds : List (List ℕ))
    → mem v ds ≡ false
    → All (IsIn known) ds
    → All (IsIn (remove v known)) ds
All-remove v known [] apart h = tt
All-remove v known (d ∷ ds) apart (h, hs) = elim (Bool-cases (list_eq v d)) [
  | inl same ↦ absurd (ground arith)
  | inr other ↦ (IsIn-remove v d known other h, All-remove v known ds (rw other at apart) hs)
]

abbrev NoRepeats : List (List ℕ) → Type 0
NoRepeats [] = Unit {0}
NoRepeats (d ∷ ds) = (mem d ds ≡ false) × NoRepeats ds

length-NoRepeats :
    (ds known : List (List ℕ)) → NoRepeats ds → All (IsIn known) ds → length ds ≤ length known
length-NoRepeats [] known u h = omega arith
length-NoRepeats (d ∷ ds) known (apart, u) (h, hs) = omega (
  arith,
  length-remove d known h,
  length-NoRepeats ds (remove d known) u (All-remove d known ds apart hs),
)

distinct-NoRepeats :
    (known xs : List (List ℕ))
    → All (IsIn known) xs
    → NoRepeats (distinct xs) × All (IsIn known) (distinct xs)
distinct-NoRepeats known [] h = (tt, tt)
distinct-NoRepeats known (x ∷ xs) (h, hs) =
    let (u, all) = distinct-NoRepeats known xs hs in
    elim (Bool-cases (mem x (distinct xs))) [
      | inl there ↦ rw there (u, all)
      | inr new ↦ rw new ((new, u), (h, all))
    ]

pub counted-HasEnough : HasEnough counted
counted-HasEnough keys known values value small all =
    let (u, among) = distinct-NoRepeats known (value ∷ values) all in
    let few = length-NoRepeats (distinct (value ∷ values)) known u among in
    below (length (distinct (value ∷ values))) keys (omega (arith, few, small))
  where
    below : (a b : ℕ) → a ≤ b → leb a b ≡ true
    below a b h = ground arith
