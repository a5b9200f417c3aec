-- ===== src/Builder/Sets.antt =====
-- Sets of numbers as lists without repetition: the hash sets of workloads/ir-workload/fuzzamoto-ir/
-- src/builder.rs.
use bitcoin_antithesis.Prelude.{
  ℕ, ◌≡◌, refl, true, false, List, [], ◌∷◌, ◌⊎◌, inl, inr, ◌==◌, ==_iff, Bool-cases,
}
use bitcoin_antithesis.Builder.State.{contains, insert, remove}

abbrev pub NoRepeat : List ℕ → Type 0
NoRepeat [] = Unit
NoRepeat (x ∷ xs) = (contains xs x ≡ false) × NoRepeat xs

pub insert-NoRepeat : (x : ℕ) (xs : List ℕ) → NoRepeat xs → NoRepeat (insert x xs)
insert-NoRepeat x xs h = elim (Bool-cases (contains xs x)) [
  | inl old ↦ rw old h
  | inr new ↦ rw new (new, h)
]

pub contains-insert :
    (x z : ℕ) (ys : List ℕ) → contains (insert x ys) z ≡ true → (z ≡ x) ⊎ (contains ys z ≡ true)
contains-insert x z ys h = elim (Bool-cases (contains ys x)) [
  | inl old ↦ inr (rw old at h)
  | inr new ↦ elim (Bool-cases (z == x)) [
    | inl same ↦ inl ((==_iff z x).0 same)
    | inr other ↦ inr (rw (new, other) at h)
  ]
]

pub insert-contains :
    (x z : ℕ) (ys : List ℕ) → (z ≡ x) ⊎ (contains ys z ≡ true) → contains (insert x ys) z ≡ true
insert-contains x z ys h = elim (Bool-cases (contains ys x)) [
  | inl old ↦ rw old (elim h [ inl same ↦ rw same old | inr there ↦ there ])
  | inr new ↦ elim (Bool-cases (z == x)) [
    | inl same ↦ rw (new, same) refl
    | inr other ↦
        rw (new, other)
          (elim h [
            | inl same ↦ let equal : (z == x) ≡ true = (==_iff z x).1 same in cc
            | inr there ↦ there
          ])
  ]
]

pub contains-remove :
    (x z : ℕ) (ys : List ℕ) → contains (remove x ys) z ≡ true → contains ys z ≡ true
contains-remove x z [] h = h
contains-remove x z (y ∷ ys) h = elim (Bool-cases (z == y)) [
  | inl same ↦ rw same refl
  | inr other ↦ elim (Bool-cases (x == y)) [
    | inl gone ↦ rw other (rw gone at h)
    | inr stays ↦ rw other (contains-remove x z ys (rw (stays, other) at h))
  ]
]

absent-remove : (x z : ℕ) (ys : List ℕ) → contains ys z ≡ false → contains (remove x ys) z ≡ false
absent-remove x z ys h = elim (Bool-cases (contains (remove x ys) z)) [
  | inr absent ↦ absent
  | inl there ↦ let before_it = contains-remove x z ys there in cc
]

pub remove-NoRepeat : (x : ℕ) (xs : List ℕ) → NoRepeat xs → NoRepeat (remove x xs)
remove-NoRepeat x [] h = tt
remove-NoRepeat x (y ∷ ys) h = elim (Bool-cases (x == y)) [
  | inl gone ↦ rw gone h.1
  | inr stays ↦ rw stays (absent-remove x y ys h.0, remove-NoRepeat x ys h.1)
]

-- What has been removed is gone.
pub removed : (x : ℕ) (xs : List ℕ) → NoRepeat xs → contains (remove x xs) x ≡ false
removed x [] h = refl
removed x (y ∷ ys) h = elim (Bool-cases (x == y)) [
  | inl same ↦ rw same (rw (← (==_iff x y).0 same) at h.0)
  | inr other ↦ rw (other, other) (removed x ys h.1)
]
