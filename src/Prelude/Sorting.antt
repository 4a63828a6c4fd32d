-- ===== src/Prelude/Sorting.antt =====
-- `sort`, which is stable, by a test that says whether the first goes before the second.
use mathlib.Core.Path.{◌≡◌, refl, ap, ◌∙◌}
use mathlib.Core.Logic.{inl, inr}
use mathlib.Core.Bool.{Bool, false, ◌||◌}
use mathlib.Core.List.{List, [], ◌∷◌}
use native.Mathlib.Omega.{arith}
use content_lens.Prelude.Tests.{if◌then◌else◌, Bool-cases}
use content_lens.Prelude.Lists.{All, any, length}
use Prim.Native.Nat.{suc}

module _ {ℓ} {A : Type ℓ} (less : A → A → Bool) where
  unfoldable pub insert : A → List A → List A
  insert x [] = x ∷ []
  insert x (y ∷ ys) = if less y x then y ∷ insert x ys else x ∷ y ∷ ys

  unfoldable pub sort : List A → List A
  unfolding insert
  sort [] = []
  sort (x ∷ xs) = insert x (sort xs)

  -- No element stands behind one that it should precede.
  abbrev pub IsSorted : List A → Type 0
  IsSorted [] = Unit
  IsSorted (x ∷ xs) = All (λ y. less y x ≡ false) xs × IsSorted xs

  any-insert : (p : A → Bool) (x : A) (xs : List A) → any p (insert x xs) ≡ (p x || any p xs)
  unfolding insert
  any-insert p x [] = refl
  any-insert p x (y ∷ ys) = ground (arith, any-insert p x ys)

  pub any-sort : (p : A → Bool) (xs : List A) → any p (sort xs) ≡ any p xs
  unfolding sort
  any-sort p [] = refl
  any-sort p (x ∷ xs) = any-insert p x (sort xs) ∙ ap (λ b. p x || b) (any-sort p xs)

  length-insert : (x : A) (xs : List A) → length (insert x xs) ≡ suc (length xs)
  unfolding insert
  length-insert x [] = refl
  length-insert x (y ∷ ys) = ground (arith, length-insert x ys)

  pub length-sort : (xs : List A) → length (sort xs) ≡ length xs
  unfolding sort
  length-sort [] = refl
  length-sort (x ∷ xs) = length-insert x (sort xs) ∙ ap (λ n. suc n) (length-sort xs)

  module _ {κ} (P : A → Type κ) where
    All-insert : (x : A) (xs : List A) → P x → All P xs → All P (insert x xs)
    unfolding insert
    All-insert x [] px h = (px, h)
    All-insert x (y ∷ ys) px (py, h) = elim (Bool-cases (less y x)) [
      | inl q ↦ rw (q, if◌then◌else◌) (py, All-insert x ys px h)
      | inr q ↦ rw (q, if◌then◌else◌) (px, (py, h))
    ]

    pub All-sort : (xs : List A) → All P xs → All P (sort xs)
    unfolding sort
    All-sort [] h = h
    All-sort (x ∷ xs) (px, h) = All-insert x (sort xs) px (All-sort xs h)

  pub sort-one : (x : A) → sort (x ∷ []) ≡ x ∷ []
  unfolding sort insert
  sort-one x = refl

  pub sort-empty : sort [] ≡ []
  unfolding sort
  sort-empty = refl
