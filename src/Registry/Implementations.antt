-- ===== src/Registry/Implementations.antt =====
-- The implementations of an interface, as a collection.
use mathlib.Core.Path.{ap₂}
use tcengine.Base.{
  ℕ, zero, suc, ◌+◌, ◌-◌, ◌≤◌, ◌<◌, ◌≡◌, ◌≢◌, ◌⊎◌, inl, inr, refl, sym, ap, ◌∙◌, arith, ℕ_discrete,
  ltb, Bool-cases,
}
use tcengine.Base.{
  none, some, List, set, get_or, get_or-set_self, get_or-set_ne, length, ◌==◌, ==_iff,
  if◌then◌else◌, true, false, if-true, if-false,
}
use tcengine.Registry.{Module, add_implementation, remove_implementation, remove_from}

pub one_if : ℕ → ℕ → ℕ
one_if item w = if w == item then 1 else 0

-- How often a pointer stands in the first `n` entries.
count : (item n : ℕ) → List ℕ → ℕ
count item zero entries = 0
count item (suc n) entries = count item n entries + one_if item (get_or entries n 0)

pub implementations : (item : ℕ) → Module → ℕ
implementations item m = count item m.size m.entries

count-set_above :
    (item n i w : ℕ) (entries : List ℕ)
    → n ≤ i
    → count item n (set entries i w) ≡ count item n entries
unfolding count
count-set_above item zero i w entries h = refl
count-set_above item (suc n) i w entries h =
    ap₂ (λ x y. x + one_if item y) (count-set_above item n i w entries (omega arith))
      (get_or-set_ne entries i n w 0 (λ e. absurd (omega arith)))

-- A write at an entry below `n` takes its old value away and adds the new one.
count-set_below :
    (item n i w : ℕ) (entries : List ℕ)
    → i < n
    → n ≤ length entries
    → count item n (set entries i w) + one_if item (get_or entries i 0)
      ≡ count item n entries + one_if item w
unfolding count
count-set_below item zero i w entries h k = absurd (omega arith)
count-set_below item (suc n) i w entries h k = elim (ℕ_discrete i n) [
  | yes e ↦ omega (
    arith,
    count-set_above item n i w entries (omega arith),
    ap (λ j. one_if item (get_or (set entries i w) j 0)) e,
    ap (λ j. one_if item (get_or entries j 0)) e,
    ap (one_if item) (get_or-set_self entries i w 0 (omega arith)),
  )
  | no d ↦ omega (
    arith,
    count-set_below item n i w entries (omega arith) (omega arith),
    ap (one_if item) (get_or-set_ne entries i n w 0 d),
  )
]

-- An entry that is written over by the last one, which is dropped.
count-moved :
    (item p i : ℕ) (entries : List ℕ)
    → i ≤ p
    → p ≤ length entries
    → count item p (set entries i (get_or entries p 0)) + one_if item (get_or entries i 0)
      ≡ count item (suc p) entries
unfolding count
count-moved item p i entries h k = elim (ℕ_discrete i p) [
  | yes e ↦ omega (
    arith,
    count-set_above item p i (get_or entries p 0) entries (omega arith),
    ap (λ j. one_if item (get_or entries j 0)) e,
  )
  | no d ↦ omega (arith, count-set_below item p i (get_or entries p 0) entries (omega arith) k)
]

abbrev without : Module → ℕ → Module
without m i = record m {
  entries = set m.entries i (get_or m.entries (m.size - 1) 0);
  size = m.size - 1;
}

differs : (a b : ℕ) → (a == b) ≡ false → a ≢ b
differs a b h e = ground arith

-- What the loop returns: nothing and no entry is the pointer, or the first entry that is goes.
remove_from-cases :
    (n i item : ℕ) (m : Module)
    → ((remove_from n i item m ≡ none)
        × ((j : ℕ) → i ≤ j → j < i + n → get_or m.entries j 0 ≢ item))
      ⊎ ((j : ℕ) × (j < i + n)
          × (get_or m.entries j 0 ≡ item)
          × remove_from n i item m ≡ some (without m j))
unfolding remove_from
remove_from-cases zero i item m = inl (refl, λ j low high e. absurd (omega arith))
remove_from-cases (suc n) i item m = elim (Bool-cases (get_or m.entries i 0 == item)) [
  | inl e ↦ inr (
    i,
    omega arith,
    (==_iff (get_or m.entries i 0) item).0 e,
    if-true (some (without m i)) (remove_from n (suc i) item m) e,
  )
  | inr e ↦ elim (remove_from-cases n (suc i) item m) [
    | inl r ↦ inl (
      if-false (some (without m i)) (remove_from n (suc i) item m) e ∙ r.0,
      λ j low high same. elim (ℕ_discrete i j) [
        | yes at ↦
            absurd
              (differs (get_or m.entries i 0) item e (ap (λ k. get_or m.entries k 0) at ∙ same))
        | no d ↦ r.1 j (omega arith) (omega arith) same
      ],
    )
    | inr (j, below, same, r) ↦
        inr
          (j, omega arith, same, if-false (some (without m i)) (remove_from n (suc i) item m) e ∙ r)
  ]
]

one_if-ne : (item w : ℕ) → w ≢ item → one_if item w ≡ 0
unfolding one_if
one_if-ne item w h = ground arith

ltb-true : (a b : ℕ) → ltb a b ≡ true → a < b
ltb-true a b h = ground arith

the_size : (n : ℕ) → 0 < n → suc (n - 1) ≡ n
the_size n h = omega arith

add-one : (n : ℕ) → n + 1 ≡ suc n
add-one n = omega arith

added :
    (x item n : ℕ) (entries : List ℕ)
    → n < length entries
    → count x (n + 1) (set entries n item) ≡ count x n entries + one_if x item
unfolding count
added x item n entries h =
    ap (λ k. count x k (set entries n item)) (add-one n)
    ∙ ap₂ (λ a b. a + one_if x b) (count-set_above x n n item entries (omega arith))
        (get_or-set_self entries n item 0 h)

count-absent :
    (item n : ℕ) (entries : List ℕ)
    → ((j : ℕ) → j < n → get_or entries j 0 ≢ item)
    → count item n entries ≡ 0
unfolding count
count-absent item zero entries h = refl
count-absent item (suc n) entries h = omega (
  arith,
  count-absent item n entries (λ j k. h j (omega arith)),
  one_if-ne item (get_or entries n 0) (h n (omega arith)),
)

-- add_implementation, with room, adds one to the number of times its pointer stands in the module;
-- with no room it stops.
pub add_implementation-implementations :
    (item : ℕ) (m : Module)
    → length m.entries ≡ 8
    → ((8 ≤ m.size) × (add_implementation item m ≡ none))
      ⊎ ((n : Module) × (add_implementation item m ≡ some n)
          × ((x : ℕ) → implementations x n ≡ implementations x m + one_if x item))
unfolding add_implementation implementations count
add_implementation-implementations item m eight = elim (Bool-cases (ltb m.size 8)) [
  | inl e ↦ inr (
    record m { entries = set m.entries m.size item; size = m.size + 1 },
    if-true (some (record m { entries = set m.entries m.size item; size = m.size + 1 })) none e,
    λ x. added x item m.size m.entries (omega (arith, ltb-true m.size 8 e, eight)),
  )
  | inr e ↦ inl (
    ground arith,
    if-false (some (record m { entries = set m.entries m.size item; size = m.size + 1 })) none e,
  )
]

-- remove_implementation stops where its pointer stands nowhere in the module, and where it does
-- takes one of its occurrences away and nothing else, for modules of at most eight entries.
pub remove_implementation-implementations :
    (item : ℕ) (m : Module)
    → length m.entries ≡ 8
    → m.size ≤ 8
    → ((implementations item m ≡ 0) × (remove_implementation item m ≡ none))
      ⊎ ((n : Module) × (remove_implementation item m ≡ some n)
          × ((x : ℕ) → implementations x n + one_if x item ≡ implementations x m))
unfolding remove_implementation implementations
remove_implementation-implementations item m eight small =
    elim (remove_from-cases m.size 0 item m) [
      | inl (r, absent) ↦
          inl (count-absent item m.size m.entries (λ j k. absent j (omega arith) (omega arith)), r)
      | inr (j, below, same, r) ↦ inr (
        without m j,
        r,
        λ x.
            ap (λ w. count x (m.size - 1) (without m j).entries + one_if x w) (sym same)
            ∙ count-moved x (m.size - 1) j m.entries (omega arith) (omega arith)
            ∙ ap (λ k. count x k m.entries) (the_size m.size (omega arith)),
      )
    ]
