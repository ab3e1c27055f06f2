-- ===== src/Tracing/LogFilter/Threads.antt =====
-- Threads that race in `set_level_filter` of rust/tracing/src/logs/events.rs.
use micromegas.Prelude.{
  ℕ, zero, suc, ◌%◌, ◌^◌, ◌<◌, ◌≤◌, ◌≡◌, refl, ◌∙◌, false, Option, none, some, leb, ltb, ◌==◌,
  arith, List, [], ◌∷◌, All, Bool-cases, inl, inr, ◌⊎◌,
}
use micromegas.Levels.LevelFilter.{LevelFilter}
use micromegas.Tracing.LogFilter.{
  recheck, generation_of, pack, Pc, load, exchange, returned, Thread, access, step_thread,
  run_threads, low_bits,
}

low_bits-small : (f : Option LevelFilter) → low_bits f < 2 ^ 4
low_bits-small none = omega arith
low_bits-small (some LevelFilter.off) = omega arith
low_bits-small (some LevelFilter.fatal) = omega arith
low_bits-small (some LevelFilter.error) = omega arith
low_bits-small (some LevelFilter.warn) = omega arith
low_bits-small (some LevelFilter.info) = omega arith
low_bits-small (some LevelFilter.debug) = omega arith
low_bits-small (some LevelFilter.trace) = omega arith

pub generation_of-pack :
    (g : ℕ) (f : Option LevelFilter) → g < 2 ^ 16 → generation_of (pack g f) ≡ g
unfolding pack
generation_of-pack g f small = omega (arith, low_bits-small f)

pub pack-low : (g : ℕ) (f : Option LevelFilter) → pack g f % 2 ^ 4 ≡ low_bits f
unfolding pack
pack-low g f = omega (arith, low_bits-small f)

-- What a thread knows: in front of the exchange it has seen an older generation, and behind the
-- return the word has its own generation or a newer one.
abbrev pub Knows : ℕ → Pc → ℕ → Type 0
Knows g load word = Unit {0}
Knows g (exchange current) word = generation_of current < g
Knows g returned word = g ≤ generation_of word

recheck-Knows : (g word : ℕ) → Knows g (recheck g word) word
recheck-Knows g word = elim (Bool-cases (leb g (generation_of word))) [
  | inl newer ↦ rw newer (ground arith)
  | inr older ↦ rw older (ground arith)
]

access-Knows :
    (g : ℕ) (f : Option LevelFilter) (pc : Pc) (word : ℕ)
    → g < 2 ^ 16
    → Knows g pc word
    → (generation_of word ≤ generation_of (access g f pc word).0)
      × Knows g (access g f pc word).1 (access g f pc word).0
      × (((access g f pc word).0 ≡ word) ⊎ ((access g f pc word).0 ≡ pack g f))
unfolding access
access-Knows g f load word small k = (omega arith, recheck-Knows g word, inl refl)
access-Knows g f (exchange current) word small k = elim (Bool-cases (word == current)) [
  | inl same ↦
      let e : word ≡ current = ground arith in
      rw same (
        omega (arith, generation_of-pack g f small, e, k),
        omega (arith, generation_of-pack g f small),
        inr refl,
      )
  | inr other ↦ rw other (omega arith, recheck-Knows g word, inl refl)
]
access-Knows g f returned word small k = (omega arith, k, inl refl)

-- The word that `pack` makes for one of the threads.
abbrev pub PackedBy : List Thread → ℕ → Type 0
PackedBy [] word = ⊥
PackedBy (t ∷ ts) word = (word ≡ pack t.generation t.filter) ⊎ PackedBy ts word

abbrev pub InU16 : Thread → Type 0
InU16 t = t.generation < 2 ^ 16

abbrev pub KnowsWord : ℕ → Thread → Type 0
KnowsWord word t = Knows t.generation t.pc word

Knows-grows :
    (g : ℕ) (pc : Pc) (word word' : ℕ)
    → generation_of word ≤ generation_of word'
    → Knows g pc word
    → Knows g pc word'
Knows-grows g load word word' h k = tt
Knows-grows g (exchange current) word word' h k = k
Knows-grows g returned word word' h k = omega (arith, h, k)

all-Knows-grow :
    (ts : List Thread) (word word' : ℕ)
    → generation_of word ≤ generation_of word'
    → All (KnowsWord word) ts
    → All (KnowsWord word') ts
all-Knows-grow [] word word' h ks = tt
all-Knows-grow (t ∷ ts) word word' h (k, ks) =
    (Knows-grows t.generation t.pc word word' h k, all-Knows-grow ts word word' h ks)

-- What one step of the threads keeps.
record IsStep (ts : List Thread) (word : ℕ) (ts' : List Thread) (word' : ℕ) : Type 0 where
  grows : generation_of word ≤ generation_of word'
  small : All InU16 ts'
  known : All (KnowsWord word') ts'
  origin : (word' ≡ word) ⊎ PackedBy ts word'
  same : (w : ℕ) → PackedBy ts' w → PackedBy ts w

step_thread-IsStep :
    (i : ℕ) (ts : List Thread) (word : ℕ)
    → All InU16 ts
    → All (KnowsWord word) ts
    → IsStep ts word (step_thread i ts word).1 (step_thread i ts word).0
unfolding step_thread
step_thread-IsStep i [] word small known = record {
  grows = omega arith;
  small = tt;
  known = tt;
  origin = inl refl;
  same = λ w p. p;
}
step_thread-IsStep zero (t ∷ ts) word (small, smalls) (known, knowns) =
    let (grows, k, origin) = access-Knows t.generation t.filter t.pc word small known in
    record {
      grows = grows;
      small = (small, smalls);
      known = (k, all-Knows-grow ts word _ grows knowns);
      origin = elim origin [ inl kept ↦ inl kept | inr packed ↦ inr (inl packed) ];
      same = λ w p. p;
    }
step_thread-IsStep (suc i) (t ∷ ts) word (small, smalls) (known, knowns) =
    let later = step_thread-IsStep i ts word smalls knowns in
    record {
      grows = later.grows;
      small = (small, later.small);
      known = (Knows-grows t.generation t.pc word _ later.grows known, later.known);
      origin = elim later.origin [ inl kept ↦ inl kept | inr packed ↦ inr (inr packed) ];
      same = λ w p. elim p [ inl mine ↦ inl mine | inr theirs ↦ inr (later.same w theirs) ];
    }

run_threads-IsStep :
    (schedule : List ℕ) (ts : List Thread) (word : ℕ)
    → All InU16 ts
    → All (KnowsWord word) ts
    → IsStep ts word (run_threads schedule ts word).1 (run_threads schedule ts word).0
unfolding run_threads
run_threads-IsStep [] ts word small known = record {
  grows = omega arith;
  small = small;
  known = known;
  origin = inl refl;
  same = λ w p. p;
}
run_threads-IsStep (i ∷ schedule) ts word small known =
    let one = step_thread-IsStep i ts word small known in
    let rest =
      run_threads-IsStep schedule (step_thread i ts word).1 (step_thread i ts word).0 one.small
        one.known in
    record {
      grows = omega (arith, one.grows, rest.grows);
      small = rest.small;
      known = rest.known;
      origin = elim rest.origin [
        | inl kept ↦ elim one.origin [
          | inl kept_before ↦ inl (kept ∙ kept_before)
          | inr packed ↦ inr (rw kept packed)
        ]
        | inr packed ↦ inr (one.same _ packed)
      ];
      same = λ w p. one.same w (rest.same w p);
    }

-- Threads that are about to call `set_level_filter` with a generation and a filter each.
unfoldable pub start : List (ℕ × Option LevelFilter) → List Thread
start [] = []
start ((g, f) ∷ requests) = record { generation = g; filter = f; pc = load } ∷ start requests

start-InU16 :
    (requests : List (ℕ × Option LevelFilter))
    → All (λ (r : ℕ × Option LevelFilter). r.0 < 2 ^ 16) requests
    → All InU16 (start requests)
unfolding start
start-InU16 [] small = tt
start-InU16 ((g, f) ∷ requests) (small, smalls) = (small, start-InU16 requests smalls)

start-Knows :
    (requests : List (ℕ × Option LevelFilter)) (word : ℕ) → All (KnowsWord word) (start requests)
unfolding start
start-Knows [] word = tt
start-Knows ((g, f) ∷ requests) word = (tt, start-Knows requests word)

-- A thread that has returned does not see an outdated filter.
abbrev pub Served : ℕ → ℕ → Pc → Type 0
Served word g load = Unit
Served word g (exchange current) = Unit
Served word g returned = ltb (generation_of word) g ≡ false

Knows-Served : (word : ℕ) (g : ℕ) (pc : Pc) → Knows g pc word → Served word g pc
Knows-Served word g load k = tt
Knows-Served word g (exchange current) k = tt
Knows-Served word g returned k = ground arith

abbrev pub ServedThread : ℕ → Thread → Type 0
ServedThread word t = Served word t.generation t.pc

all-Served : (ts : List Thread) (word : ℕ) → All (KnowsWord word) ts → All (ServedThread word) ts
all-Served [] word ks = tt
all-Served (t ∷ ts) word (k, ks) = (Knows-Served word t.generation t.pc k, all-Served ts word ks)

-- However threads with 16-bit generations interleave in `set_level_filter`, the generation in the
-- atomic never goes back; a thread that has returned finds its own generation or a newer one there;
-- and the atomic holds its first value or exactly what one of the threads asked for.
pub run_threads-start :
    (schedule : List ℕ) (requests : List (ℕ × Option LevelFilter)) (word : ℕ)
    → All (λ (r : ℕ × Option LevelFilter). r.0 < 2 ^ 16) requests
    → (generation_of word ≤ generation_of (run_threads schedule (start requests) word).0)
      × All
          (ServedThread (run_threads schedule (start requests) word).0)
          (run_threads schedule (start requests) word).1
      × (((run_threads schedule (start requests) word).0 ≡ word)
          ⊎ PackedBy (start requests) (run_threads schedule (start requests) word).0)
run_threads-start schedule requests word small =
    let v =
      run_threads-IsStep schedule (start requests) word (start-InU16 requests small)
        (start-Knows requests word) in
    (v.grows, all-Served _ _ v.known, v.origin)
