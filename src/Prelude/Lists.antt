-- ===== src/Prelude/Lists.antt =====
-- Arrays as lists, measured by native numbers, with the methods that the program calls.
use Prim.Native.Nat.{ℕ, zero, suc, ◌+◌, ◌≤◌}
use mathlib.Core.Path.{◌≡◌, refl, ap}
use mathlib.Core.Logic.{inl, inr}
use mathlib.Core.Bool.{Bool, true, false, ◌||◌}
use mathlib.Core.List.{List, [], ◌∷◌, ◌++◌, map}
use mathlib.Core.Option.{Option, none, some}
use native.Mathlib.Omega.{arith}
use content_lens.Prelude.Tests.{if◌then◌else◌, Bool-cases, ltb}

module _ {ℓ} {A : Type ℓ} where
  abbrev pub length : List A → ℕ
  length [] = 0
  length (x ∷ xs) = suc (length xs)

  abbrev pub get_elem? : List A → ℕ → Option A
  get_elem? [] i = none
  get_elem? (x ∷ xs) zero = some x
  get_elem? (x ∷ xs) (suc i) = get_elem? xs i

  -- `filter`, `some` and `find` of an array, by a Boolean test
  abbrev pub keep : (A → Bool) → List A → List A
  keep p [] = []
  keep p (x ∷ xs) = let rest = keep p xs in if p x then x ∷ rest else rest

  abbrev pub any : (A → Bool) → List A → Bool
  any p [] = false
  any p (x ∷ xs) = p x || any p xs

  abbrev pub find : (A → Bool) → List A → Option A
  find p [] = none
  find p (x ∷ xs) = if p x then some x else find p xs

  abbrev pub All {κ} : (A → Type κ) → List A → Type κ
  All P [] = Unit
  All P (x ∷ xs) = P x × All P xs

  pub length-append : (xs ys : List A) → length (xs ++ ys) ≡ length xs + length ys
  length-append [] ys = omega arith
  length-append (x ∷ xs) ys = omega (arith, length-append xs ys)

  pub length-keep-le : (p : A → Bool) (xs : List A) → length (keep p xs) ≤ length xs
  length-keep-le p [] = omega arith
  length-keep-le p (x ∷ xs) = ground (arith, length-keep-le p xs)

module _ {ℓ m κ} {A : Type ℓ} {B : Type m} (P : B → Type κ) (f : A → B) where
  pub All-map-keep :
      (p : A → Bool) → ((x : A) → p x ≡ true → P (f x)) → (xs : List A) → All P (map f (keep p xs))
  All-map-keep p h [] = tt
  All-map-keep p h (x ∷ xs) = elim (Bool-cases (p x)) [
    | inl q ↦ rw (q, if◌then◌else◌) (h x q, All-map-keep p h xs)
    | inr q ↦ rw (q, if◌then◌else◌) (All-map-keep p h xs)
  ]

pub any-map {ℓ m} :
    {A : Type ℓ} {B : Type m} (p : B → Bool) (f : A → B) (xs : List A)
    → any p (map f xs) ≡ any (λ x. p (f x)) xs
any-map p f [] = refl
any-map p f (x ∷ xs) = ap (λ b. p (f x) || b) (any-map p f xs)

module _ {ℓ κ} {A : Type ℓ} (P : A → Type κ) where
  pub All-append : (xs ys : List A) → All P xs → All P ys → All P (xs ++ ys)
  All-append [] ys h k = k
  All-append (x ∷ xs) ys (px, h) k = (px, All-append xs ys h k)

  pub any-All :
      {p q : A → Bool}
      → ((x : A) → P x → p x ≡ true → q x ≡ true)
      → (xs : List A) → All P xs
      → any p xs ≡ true
      → any q xs ≡ true
  any-All {p} {q} f [] h e = cc
  any-All {p} {q} f (x ∷ xs) (px, h) e = elim (Bool-cases (p x)) [
    | inl s ↦ let t : q x ≡ true = f x px s in ground arith
    | inr s ↦ let t : any q xs ≡ true = any-All f xs h (ground arith) in ground arith
  ]

  pub any-none :
      {p : A → Bool} → ((x : A) → P x → p x ≡ false) → (xs : List A) → All P xs → any p xs ≡ false
  any-none f [] h = refl
  any-none f (x ∷ xs) (px, h) = ground (arith, f x px, any-none f xs h)

-- `push` of an optional element before the others
abbrev pub prepend {ℓ} : {A : Type ℓ} → Option A → List A → List A
prepend none xs = xs
prepend (some x) xs = x ∷ xs

pub All-prepend {ℓ κ} :
    {A : Type ℓ} (P : A → Type κ) (o : Option A) (xs : List A)
    → ((x : A) → o ≡ some x → P x)
    → All P xs
    → All P (prepend o xs)
All-prepend P none xs h k = k
All-prepend P (some x) xs h k = (h x refl, k)

pub nonempty-map-keep {ℓ m} :
    {A : Type ℓ} {B : Type m} (f : A → B) (p : A → Bool) (xs : List A) (ys : List B)
    → ltb 0 (length (map f (keep p xs) ++ ys)) ≡ (any p xs || ltb 0 (length ys))
nonempty-map-keep f p [] ys = refl
nonempty-map-keep f p (x ∷ xs) ys = elim (Bool-cases (p x)) [
  | inl q ↦ rw (q, if◌then◌else◌) (ground arith)
  | inr q ↦ rw (q, if◌then◌else◌) (nonempty-map-keep f p xs ys)
]

pub nonempty-map-keep_alone {ℓ m} :
    {A : Type ℓ} {B : Type m} (f : A → B) (p : A → Bool) (xs : List A)
    → ltb 0 (length (map f (keep p xs))) ≡ any p xs
nonempty-map-keep_alone f p [] = refl
nonempty-map-keep_alone f p (x ∷ xs) = elim (Bool-cases (p x)) [
  | inl q ↦ rw (q, if◌then◌else◌) (ground arith)
  | inr q ↦ rw (q, if◌then◌else◌) (nonempty-map-keep_alone f p xs)
]
