-- ===== src/Prelude/Lists.antt =====
-- Lists measured and indexed by native numbers, under the library's names.
use Prim.Native.Nat.{ℕ, zero, suc, ◌+◌, ◌<◌}
use mathlib.Core.Path.{◌≡◌, refl, ap, sym, subst}
use mathlib.Core.List.{List, [], ◌∷◌, ◌++◌, map}
use mathlib.Core.Option.{Option, none, some, some-injective}
use mathlib.Core.Logic.{◌⊎◌, inl, inr}
use native.Mathlib.Nat.{zero-add, suc-add}
use native.Mathlib.Omega.{arith}

module _ {ℓ} {A : Type ℓ} where
  abbrev pub length : List A → ℕ
  length [] = 0
  length (x ∷ xs) = suc (length xs)

  abbrev pub get_elem? : List A → ℕ → Option A
  get_elem? [] i = none
  get_elem? (x ∷ xs) zero = some x
  get_elem? (x ∷ xs) (suc i) = get_elem? xs i

  abbrev pub get_or : List A → ℕ → A → A
  get_or [] i d = d
  get_or (x ∷ xs) zero d = x
  get_or (x ∷ xs) (suc i) d = get_or xs i d

  abbrev pub take : ℕ → List A → List A
  take zero xs = []
  take (suc n) [] = []
  take (suc n) (x ∷ xs) = x ∷ take n xs

  abbrev pub drop : ℕ → List A → List A
  drop zero xs = xs
  drop (suc n) [] = []
  drop (suc n) (x ∷ xs) = drop n xs

  -- A write out of bounds changes nothing.
  abbrev pub set : List A → ℕ → A → List A
  set [] i v = []
  set (x ∷ xs) zero v = v ∷ xs
  set (x ∷ xs) (suc i) v = x ∷ set xs i v

  abbrev pub replicate : ℕ → A → List A
  replicate zero a = []
  replicate (suc n) a = a ∷ replicate n a

-- A predicate by recursion computes to tuples, which the tactics read and build.
abbrev pub All {ℓ κ} : {A : Type ℓ} → (A → Type κ) → List A → Type κ
All P [] = Unit
All P (x ∷ xs) = P x × All P xs

pub All-append {ℓ κ} :
    {A : Type ℓ} (P : A → Type κ) (xs ys : List A) → All P xs → All P ys → All P (xs ++ ys)
All-append P [] ys hx hy = hy
All-append P (x ∷ xs) ys hx hy = (hx.0, All-append P xs ys hx.1 hy)

pub All-mono {ℓ κ μ} :
    {A : Type ℓ} {P : A → Type κ} {Q : A → Type μ} (xs : List A)
    → ((x : A) → P x → Q x)
    → All P xs
    → All Q xs
All-mono [] f h = tt
All-mono (x ∷ xs) f h = (f x h.0, All-mono xs f h.1)

pub All-get {ℓ κ} :
    {A : Type ℓ} (P : A → Type κ) (xs : List A) (i : ℕ) {x : A}
    → All P xs
    → get_elem? xs i ≡ some x
    → P x
All-get P [] i h e = cc
All-get P (y ∷ ys) zero h e = subst P (some-injective y _ e) h.0
All-get P (y ∷ ys) (suc i) h e = All-get P ys i h.1 e

module _ {ℓ} {A : Type ℓ} where
  pub length-append : (xs ys : List A) → length (xs ++ ys) ≡ length xs + length ys
  length-append [] ys = omega arith
  length-append (x ∷ xs) ys = omega (arith, length-append xs ys)

  pub get_elem?-append :
      (xs ys : List A) (i : ℕ) {x : A} → get_elem? xs i ≡ some x → get_elem? (xs ++ ys) i ≡ some x
  get_elem?-append [] ys i e = cc
  get_elem?-append (y ∷ xs) ys zero e = e
  get_elem?-append (y ∷ xs) ys (suc i) e = get_elem?-append xs ys i e

  pub get_elem?-end : (xs ys : List A) (x : A) → get_elem? (xs ++ x ∷ ys) (length xs) ≡ some x
  get_elem?-end [] ys x = refl
  get_elem?-end (y ∷ xs) ys x = get_elem?-end xs ys x

  pub drop-append : (xs ys : List A) → drop (length xs) (xs ++ ys) ≡ ys
  drop-append [] ys = refl
  drop-append (x ∷ xs) ys = drop-append xs ys

  pub get_elem?-lt : (xs : List A) (i : ℕ) → i < length xs → (x : A) × (get_elem? xs i ≡ some x)
  get_elem?-lt [] i h = absurd (omega arith)
  get_elem?-lt (x ∷ xs) zero h = (x, refl)
  get_elem?-lt (x ∷ xs) (suc i) h = get_elem?-lt xs i (omega arith)

  pub length-map {κ} : {B : Type κ} (f : A → B) (xs : List A) → length (map f xs) ≡ length xs
  length-map f [] = refl
  length-map f (x ∷ xs) = ap suc (length-map f xs)

  -- A read of two lists in a row is a read of one of them.
  pub get_elem?-append_cases :
      (xs ys : List A) (i : ℕ) {x : A}
      → get_elem? (xs ++ ys) i ≡ some x
      → (get_elem? xs i ≡ some x) ⊎ ((k : ℕ) × (i ≡ length xs + k) × (get_elem? ys k ≡ some x))
  get_elem?-append_cases [] ys i e = inr (i, omega arith, e)
  get_elem?-append_cases (y ∷ xs) ys zero e = inl e
  get_elem?-append_cases (y ∷ xs) ys (suc i) e = elim (get_elem?-append_cases xs ys i e) [
    | inl here ↦ inl here
    | inr (k, at, there) ↦ inr (k, omega arith, there)
  ]

  pub get_elem?-append_right :
      (xs ys : List A) (k : ℕ) → get_elem? (xs ++ ys) (length xs + k) ≡ get_elem? ys k
  get_elem?-append_right [] ys k = rw zero-add
  get_elem?-append_right (x ∷ xs) ys k = rw suc-add (get_elem?-append_right xs ys k)

  pub lt-get_elem? : (xs : List A) (i : ℕ) {x : A} → get_elem? xs i ≡ some x → i < length xs
  lt-get_elem? [] i e = cc
  lt-get_elem? (y ∷ xs) zero e = omega arith
  lt-get_elem? (y ∷ xs) (suc i) e = omega (arith, lt-get_elem? xs i e)

  pub take-append-drop : (n : ℕ) (xs : List A) → take n xs ++ drop n xs ≡ xs
  take-append-drop zero xs = refl
  take-append-drop (suc n) [] = refl
  take-append-drop (suc n) (x ∷ xs) = ap (◌∷◌ x) (take-append-drop n xs)

  pub take-get-drop :
      (xs : List A) (i : ℕ) {x : A}
      → get_elem? xs i ≡ some x
      → take i xs ++ x ∷ drop (suc i) xs ≡ xs
  take-get-drop [] i e = cc
  take-get-drop (y ∷ xs) zero e = ap (λ z. z ∷ xs) (sym (some-injective y _ e))
  take-get-drop (y ∷ xs) (suc i) e = ap (λ zs. y ∷ zs) (take-get-drop xs i e)

  pub take-set-drop :
      (xs : List A) (i : ℕ) (y : A) {x : A}
      → get_elem? xs i ≡ some x
      → set xs i y ≡ take i xs ++ y ∷ drop (suc i) xs
  take-set-drop [] i y e = cc
  take-set-drop (z ∷ xs) zero y e = refl
  take-set-drop (z ∷ xs) (suc i) y e = ap (λ zs. z ∷ zs) (take-set-drop xs i y e)

  pub set-set :
      (xs : List A) (k : ℕ) (y x : A) → get_elem? xs k ≡ some x → set (set xs k y) k x ≡ xs
  set-set [] k y x found = refl
  set-set (z ∷ xs) zero y x found =
      let same : z ≡ x = some-injective z _ found in ap (λ w. w ∷ xs) (sym same)
  set-set (z ∷ xs) (suc k) y x found = ap (λ ws. z ∷ ws) (set-set xs k y x found)

  pub length-set : (xs : List A) (k : ℕ) (y : A) → length (set xs k y) ≡ length xs
  length-set [] k y = refl
  length-set (z ∷ xs) zero y = refl
  length-set (z ∷ xs) (suc k) y = ap suc (length-set xs k y)

  pub get_elem?-set_below :
      (xs : List A) (k j : ℕ) (y : A) → j < k → get_elem? (set xs k y) j ≡ get_elem? xs j
  get_elem?-set_below [] k j y h = refl
  get_elem?-set_below (z ∷ xs) zero j y h = absurd (omega arith)
  get_elem?-set_below (z ∷ xs) (suc k) zero y h = refl
  get_elem?-set_below (z ∷ xs) (suc k) (suc j) y h = get_elem?-set_below xs k j y (omega arith)

  pub get_elem?-set_here :
      (xs : List A) (k : ℕ) (y x : A) → get_elem? xs k ≡ some x → get_elem? (set xs k y) k ≡ some y
  get_elem?-set_here [] k y x found = cc
  get_elem?-set_here (z ∷ xs) zero y x found = refl
  get_elem?-set_here (z ∷ xs) (suc k) y x found = get_elem?-set_here xs k y x found
