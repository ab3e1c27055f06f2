-- ===== src/Analytics/Columns.antt =====
-- The string columns of the record builders (rust/analytics/src/span_table.rs,
-- rust/analytics/src/thread_events_table.rs): `StringDictionaryBuilder` of the arrow crate, which gives
-- each different string a key and panics where its keys run out. Whether it has one is an argument.
pub mod Counted
use micromegas.Prelude.{
  ℕ, ◌≤◌, ◌≡◌, ap, Bool, true, List, [], ◌∷◌, map, length, Result, guard, panic, ok, All, ◌⊎◌,
}

-- By the number of keys of the column and the strings that it got, whether there is a key for another
-- string.
abbrev pub HasKey : Type 0
HasKey = ℕ → List (List ℕ) → List ℕ → Bool

-- The keys of `Int8Type` and of `Int16Type`
abbrev pub keys_i8 : ℕ
keys_i8 = 128

abbrev pub keys_i16 : ℕ
keys_i16 = 32768

abbrev pub IsIn : List (List ℕ) → List ℕ → Type 0
IsIn [] v = ⊥
IsIn (k ∷ ks) v = (v ≡ k) ⊎ IsIn ks v

-- What arrow documents: the keys do not run out while no more different strings than keys are given.
abbrev pub HasEnough : HasKey → Type 0
HasEnough has_key =
    (keys : ℕ) (known values : List (List ℕ)) (value : List ℕ)
    → length known ≤ keys
    → All (IsIn known) (value ∷ values)
    → has_key keys values value ≡ true

-- The different strings that the columns of scopes may get, and that each column has keys for them.
pub record Strings : Type 0 where
  pub names : List (List ℕ)
  pub targets : List (List ℕ)
  pub filenames : List (List ℕ)

abbrev pub HaveKeys : Strings → Type 0
HaveKeys k =
    (length k.names ≤ keys_i16) × (length k.targets ≤ keys_i16) × (length k.filenames ≤ keys_i16)

abbrev pub AreIn : Strings → List ℕ → List ℕ → List ℕ → Type 0
AreIn k name target filename = IsIn k.names name × IsIn k.targets target × IsIn k.filenames filename

module _ (has_key : HasKey) {Row : Type 0} where
  -- `append_value` of a string column of the rows so far.
  unfoldable pub append_value : ℕ → (Row → List ℕ) → List Row → List ℕ → Result (Unit {0})
  append_value keys column rows value = guard (has_key keys (map column rows) value) panic

  All-column :
      (known : List (List ℕ)) (column : Row → List ℕ) (P : Row → Type 0)
      (holds : (row : Row) → P row → IsIn known (column row)) (rows : List Row)
      → All P rows
      → All (IsIn known) (map column rows)
  All-column known column P holds [] h = tt
  All-column known column P holds (row ∷ rows) (h, hs) =
      (holds row h, All-column known column P holds rows hs)

  pub append_value-ok :
      (enough : HasEnough has_key) (keys : ℕ) (known : List (List ℕ)) (column : Row → List ℕ)
      (P : Row → Type 0) (holds : (row : Row) → P row → IsIn known (column row)) (rows : List Row)
      (value : List ℕ)
      → length known ≤ keys
      → All P rows
      → IsIn known value
      → append_value keys column rows value ≡ ok tt
  unfolding append_value
  append_value-ok enough keys known column P holds rows value small hs h =
      ap (λ b. guard b panic)
        (enough keys known (map column rows) value small
          (h, All-column known column P holds rows hs))
