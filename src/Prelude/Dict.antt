-- ===== src/Prelude/Dict.antt =====
-- `Map` with string keys: entries in insertion order. `set` keeps the place of a key that is there.
use content_lens.Prelude.Tests.{if◌then◌else◌, is_some, Bool-cases}
use content_lens.Prelude.Text.{JsString, same, same_iff}
use content_lens.Prelude.Lists.{length}
use Prim.Native.Nat.{◌+◌, ◌≤◌}
use mathlib.Core.Path.{◌≡◌, refl, subst₂}
use mathlib.Core.Logic.{inl, inr}
use mathlib.Core.Bool.{Bool, true}
use mathlib.Core.Option.{Option, none, some}
use mathlib.Core.List.{List, [], ◌∷◌}
use native.Mathlib.Omega.{arith}

abbrev pub Dict {ℓ} : Type ℓ → Type ℓ
Dict V = List (JsString × V)

module _ {ℓ} {V : Type ℓ} where
  unfoldable pub get : JsString → Dict V → Option V
  get k [] = none
  get k ((j, v) ∷ m) = if same j k then some v else get k m

  abbrev pub has : JsString → Dict V → Bool
  has k m = is_some (get k m)

  unfoldable pub set : JsString → V → Dict V → Dict V
  set k v [] = (k, v) ∷ []
  set k v ((j, w) ∷ m) = if same j k then (j, v) ∷ m else (j, w) ∷ set k v m

  unfoldable pub delete : JsString → Dict V → Dict V
  delete k [] = []
  delete k ((j, w) ∷ m) = let rest = delete k m in if same j k then rest else (j, w) ∷ rest

  abbrev pub values : Dict V → List V
  values [] = []
  values ((j, v) ∷ m) = v ∷ values m

  pub get-set :
      (k j : JsString) (v : V) (m : Dict V)
      → get j (set k v m) ≡ (if same k j then some v else get j m)
  unfolding get set
  get-set k j v [] = refl
  get-set k j v ((i, w) ∷ m) =
      ground (arith, same_iff k j, same_iff i k, same_iff i j, get-set k j v m)

  pub get-set_self : (k : JsString) (v : V) (m : Dict V) → get k (set k v m) ≡ some v
  get-set_self k v m = ground (arith, get-set k k v m, same_iff k k)

  pub get-delete :
      (k j : JsString) (m : Dict V) → get j (delete k m) ≡ (if same k j then none else get j m)
  unfolding get delete
  get-delete k j [] = ground arith
  get-delete k j ((i, w) ∷ m) =
      ground (arith, same_iff k j, same_iff i k, same_iff i j, get-delete k j m)

  pub length-set-le : (k : JsString) (v : V) (m : Dict V) → length (set k v m) ≤ length m + 1
  unfolding set
  length-set-le k v [] = omega arith
  length-set-le k v ((j, w) ∷ m) = ground (arith, length-set-le k v m)

  pub length-delete-le : (k : JsString) (m : Dict V) → length (delete k m) ≤ length m
  unfolding delete
  length-delete-le k [] = omega arith
  length-delete-le k ((j, w) ∷ m) = ground (arith, length-delete-le k m)

-- A dictionary holds each key once.
abbrev pub Unique {ℓ} : {V : Type ℓ} → Dict V → Type ℓ
Unique [] = Unit
Unique ((k, v) ∷ m) = (get k m ≡ none) × Unique m

module _ {ℓ} {V : Type ℓ} where
  pub Unique-set : (k : JsString) (v : V) (m : Dict V) → Unique m → Unique (set k v m)
  unfolding set get
  Unique-set k v [] h = (refl, tt)
  Unique-set k v ((j, w) ∷ m) (a, h) = elim (Bool-cases (same j k)) [
    | inl s ↦ rw (s, if◌then◌else◌) (a, h)
    | inr s ↦
        rw (s, if◌then◌else◌)
          (ground (arith, get-set k j v m, same_iff k j, same_iff j k), Unique-set k v m h)
  ]

  pub Unique-delete : (k : JsString) (m : Dict V) → Unique m → Unique (delete k m)
  unfolding delete
  Unique-delete k [] h = tt
  Unique-delete k ((j, w) ∷ m) (a, h) = elim (Bool-cases (same j k)) [
    | inl s ↦ rw (s, if◌then◌else◌) (Unique-delete k m h)
    | inr s ↦
        rw (s, if◌then◌else◌)
          (ground (arith, get-delete k j m, same_iff k j, same_iff j k), Unique-delete k m h)
  ]

  pub length-set_new :
      (k : JsString) (v : V) (m : Dict V) → get k m ≡ none → length (set k v m) ≡ length m + 1
  unfolding set get
  length-set_new k v [] h = refl
  length-set_new k v ((j, w) ∷ m) h = ground (arith, length-set_new k v m)

  pub length-set_old :
      (k : JsString) (v : V) (m : Dict V) → has k m ≡ true → length (set k v m) ≡ length m
  unfolding set get
  length-set_old k v [] h = ground arith
  length-set_old k v ((j, w) ∷ m) h = ground (arith, length-set_old k v m)

  length-delete_new : (k : JsString) (m : Dict V) → get k m ≡ none → length (delete k m) ≡ length m
  unfolding delete get
  length-delete_new k [] h = refl
  length-delete_new k ((j, w) ∷ m) h = ground (arith, length-delete_new k m)

  pub length-delete_old :
      (k : JsString) (m : Dict V) → Unique m → has k m ≡ true → length (delete k m) + 1 ≡ length m
  unfolding delete get
  length-delete_old k [] u h = ground arith
  length-delete_old k ((j, w) ∷ m) (a, u) h =
      ground (arith, same_iff j k, length-delete_new k m, length-delete_old k m u)

pub ruleset dict_laws = (get-set, get-delete)

-- Every entry that a lookup can reach.
abbrev pub Each {ℓ κ} : {V : Type ℓ} → (JsString → V → Type κ) → Dict V → Type (ℓ ⊔ κ)
Each {V} P m = (k : JsString) (v : V) → get k m ≡ some v → P k v

module _ {ℓ κ} {V : Type ℓ} (P : JsString → V → Type κ) where
  pub Each-set : (k : JsString) (v : V) (m : Dict V) → Each P m → P k v → Each P (set k v m)
  Each-set k v m h p j w e = elim (Bool-cases (same k j)) [
    | inl s ↦ let q : v ≡ w = ground (arith, get-set k j v m) in subst₂ P ((same_iff k j).0 s) q p
    | inr s ↦ h j w (ground (arith, get-set k j v m))
  ]

  pub Each-delete : (k : JsString) (m : Dict V) → Each P m → Each P (delete k m)
  Each-delete k m h j w e = h j w (ground (arith, get-delete k j m))

pub get-empty {ℓ} : {V : Type ℓ} (k : JsString) → get {V = V} k [] ≡ none
unfolding get
get-empty k = refl
