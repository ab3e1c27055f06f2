-- ===== src/Sink/Composite/Targets.antt =====
-- Which target rust/telemetry-sink/src/composite_event_sink.rs finds for a log.
use micromegas.Prelude.{
  ℕ, ◌^◌, ◌<◌, ◌≤◌, ◌≡◌, ap, ◌⊎◌, inl, inr, true, false, List, [], ◌∷◌, none, some, All, leb, arith,
  length, Bool-cases, Option-cases,
}
use micromegas.Levels.LevelFilter.{LevelFilter}
use micromegas.Sink.Composite.{
  TargetFilters, sort_key, insert_filter, sort_by_key, find_max_match, starts_with,
}

abbrev pub Any : (List ℕ × LevelFilter → Type 0) → TargetFilters → Type 0
Any P [] = ⊥
Any P (x ∷ xs) = P x ⊎ Any P xs

abbrev IsSorted : TargetFilters → Type 0
IsSorted [] = Unit {0}
IsSorted (x ∷ xs) = All (λ y. sort_key x ≤ sort_key y) xs × IsSorted xs

module _ (P : List ℕ × LevelFilter → Type 0) where
  All-insert_filter :
      (x : List ℕ × LevelFilter) (ys : TargetFilters) → P x → All P ys → All P (insert_filter x ys)
  unfolding insert_filter
  All-insert_filter x [] h hs = (h, tt)
  All-insert_filter x (y ∷ ys) h (k, ks) = elim (Bool-cases (leb (sort_key x) (sort_key y))) [
    | inl first ↦ rw first (h, (k, ks))
    | inr later ↦ rw later (k, All-insert_filter x ys h ks)
  ]

  All-of-insert_filter :
      (x : List ℕ × LevelFilter) (ys : TargetFilters) → All P (insert_filter x ys) → P x × All P ys
  unfolding insert_filter
  All-of-insert_filter x [] (h, hs) = (h, tt)
  All-of-insert_filter x (y ∷ ys) all = elim (Bool-cases (leb (sort_key x) (sort_key y))) [
    | inl first ↦ rw first at all
    | inr later ↦
        let (k, ks) = rw later at all in let (h, hs) = All-of-insert_filter x ys ks in (h, (k, hs))
  ]

  Any-of-insert_filter :
      (x : List ℕ × LevelFilter) (ys : TargetFilters) → Any P (insert_filter x ys) → Any P (x ∷ ys)
  unfolding insert_filter
  Any-of-insert_filter x [] any = any
  Any-of-insert_filter x (y ∷ ys) any = elim (Bool-cases (leb (sort_key x) (sort_key y))) [
    | inl first ↦ rw first at any
    | inr later ↦
        let any' : P y ⊎ Any P (insert_filter x ys) = rw later at any in
        elim any' [
          | inl here ↦ inr (inl here)
          | inr there ↦ elim (Any-of-insert_filter x ys there) [
            | inl new ↦ inl new
            | inr old ↦ inr (inr old)
          ]
        ]
  ]

  pub All-sort_by_key : (xs : TargetFilters) → All P xs → All P (sort_by_key xs)
  unfolding sort_by_key
  All-sort_by_key [] h = tt
  All-sort_by_key (x ∷ xs) (h, hs) = All-insert_filter x (sort_by_key xs) h (All-sort_by_key xs hs)

  All-of-sort_by_key : (xs : TargetFilters) → All P (sort_by_key xs) → All P xs
  unfolding sort_by_key
  All-of-sort_by_key [] h = tt
  All-of-sort_by_key (x ∷ xs) all =
      let (h, hs) = All-of-insert_filter x (sort_by_key xs) all in (h, All-of-sort_by_key xs hs)

  Any-of-sort_by_key : (xs : TargetFilters) → Any P (sort_by_key xs) → Any P xs
  unfolding sort_by_key
  Any-of-sort_by_key [] any = any
  Any-of-sort_by_key (x ∷ xs) any = elim (Any-of-insert_filter x (sort_by_key xs) any) [
    | inl here ↦ inl here
    | inr there ↦ inr (Any-of-sort_by_key xs there)
  ]

pub All-map :
    (P Q : List ℕ × LevelFilter → Type 0) (xs : TargetFilters)
    → ((x : List ℕ × LevelFilter) → P x → Q x)
    → All P xs
    → All Q xs
All-map P Q [] f h = tt
All-map P Q (x ∷ xs) f (h, hs) = (f x h, All-map P Q xs f hs)

insert_filter-IsSorted :
    (x : List ℕ × LevelFilter) (ys : TargetFilters) → IsSorted ys → IsSorted (insert_filter x ys)
unfolding insert_filter
insert_filter-IsSorted x [] sorted = (tt, tt)
insert_filter-IsSorted x (y ∷ ys) (below, sorted) =
    elim (Bool-cases (leb (sort_key x) (sort_key y))) [
      | inl first ↦
          let le : sort_key x ≤ sort_key y = ground arith in
          rw first (
            (
              le,
              All-map (λ z. sort_key y ≤ sort_key z) (λ z. sort_key x ≤ sort_key z) ys
                  (λ z h. omega (arith, le, h)) below,
            ),
            (below, sorted),
          )
      | inr later ↦
          let le : sort_key y ≤ sort_key x = ground arith in
          rw later (
            All-insert_filter (λ z. sort_key y ≤ sort_key z) x ys le below,
            insert_filter-IsSorted x ys sorted,
          )
    ]

sort_by_key-IsSorted : (xs : TargetFilters) → IsSorted (sort_by_key xs)
unfolding sort_by_key
sort_by_key-IsSorted [] = tt
sort_by_key-IsSorted (x ∷ xs) = insert_filter-IsSorted x (sort_by_key xs) (sort_by_key-IsSorted xs)

-- A name that is not empty, of a length that fits in a machine word.
abbrev pub IsNamed : List ℕ × LevelFilter → Type 0
IsNamed x = (0 < length x.0) × (length x.0 < 2 ^ 64)

-- No target that matches is longer than `name`.
abbrev pub NotLonger : List ℕ → List ℕ → List ℕ × LevelFilter → Type 0
NotLonger target name x = (starts_with target x.0 ≡ false) ⊎ (length x.0 ≤ length name)

shorter :
    (x y : List ℕ × LevelFilter)
    → IsNamed x
    → IsNamed y
    → sort_key x ≤ sort_key y
    → length y.0 ≤ length x.0
shorter (s, l) (t, m) (a, b) (c, e) h = omega (arith, a, b, c, e, h)

all-shorter :
    (target : List ℕ) (x : List ℕ × LevelFilter) (ys : TargetFilters)
    → IsNamed x
    → All IsNamed ys
    → All (λ y. sort_key x ≤ sort_key y) ys
    → All (NotLonger target x.0) ys
all-shorter target x [] named all below = tt
all-shorter target x (y ∷ ys) named (n, ns) (b, bs) =
    (inr (shorter x y named n b), all-shorter target x ys named ns bs)

find_max_match-sorted :
    (target : List ℕ) (ys : TargetFilters) (l : LevelFilter)
    → IsSorted ys
    → All IsNamed ys
    → find_max_match target ys ≡ some l
    → (name : List ℕ) × Any (λ x. x ≡ (name, l)) ys
      × (starts_with target name ≡ true)
      × All (NotLonger target name) ys
unfolding find_max_match
find_max_match-sorted target [] l sorted named found = cc
find_max_match-sorted target ((t, m) ∷ ys) l (below, sorted) (n, ns) found =
    elim (Bool-cases (starts_with target t)) [
      | inl starts ↦
          let found' : some m ≡ some l = rw starts at found in
          let same : m ≡ l = cc in
          (
            t,
            inl (ap (λ k. (t, k)) same),
            starts,
            (inr (omega arith), all-shorter target (t, m) ys n ns below),
          )
      | inr other ↦
          let found' : find_max_match target ys ≡ some l = rw other at found in
          let (name, any, starts, all) = find_max_match-sorted target ys l sorted ns found' in
          (name, inr any, starts, (inl other, all))
    ]

find_max_match-none :
    (target : List ℕ) (ys : TargetFilters)
    → find_max_match target ys ≡ none
    → All (λ x. starts_with target x.0 ≡ false) ys
unfolding find_max_match
find_max_match-none target [] h = tt
find_max_match-none target ((t, m) ∷ ys) h = elim (Bool-cases (starts_with target t)) [
  | inl starts ↦ let h' : some m ≡ none = rw starts at h in absurd (ground arith)
  | inr other ↦
      let h' : find_max_match target ys ≡ none = rw other at h in
      (other, find_max_match-none target ys h')
]

-- Among targets whose names are not empty, the filter of a log is that of the longest name that its
-- target starts with, in whatever order the targets are given; without a filter no name matches.
pub find_max_match-sort_by_key :
    (target : List ℕ) (filters : TargetFilters)
    → All IsNamed filters
    → ((find_max_match target (sort_by_key filters) ≡ none)
        × All (λ x. starts_with target x.0 ≡ false) filters)
      ⊎ ((l : LevelFilter) × (name : List ℕ) × (find_max_match target (sort_by_key filters)
            ≡ some l)
          × Any (λ x. x ≡ (name, l)) filters
          × (starts_with target name ≡ true)
          × All (NotLonger target name) filters)
find_max_match-sort_by_key target filters named =
    elim (Option-cases (find_max_match target (sort_by_key filters))) [
      | inl nothing ↦ inl (
        nothing,
        All-of-sort_by_key (λ x. starts_with target x.0 ≡ false) filters
            (find_max_match-none target (sort_by_key filters) nothing),
      )
      | inr (l, found) ↦
          let (name, any, starts, all) =
            find_max_match-sorted target (sort_by_key filters) l (sort_by_key-IsSorted filters)
              (All-sort_by_key IsNamed filters named) found in
          inr (
            l,
            name,
            found,
            Any-of-sort_by_key (λ x. x ≡ (name, l)) filters any,
            starts,
            All-of-sort_by_key (NotLonger target name) filters all,
          )
    ]
