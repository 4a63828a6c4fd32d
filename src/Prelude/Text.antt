-- ===== src/Prelude/Text.antt =====
-- A string of the program is its sequence of UTF-16 code units, as in JavaScript.
use Prim.Native.Nat.{ℕ, compare, Ordering}
use Prim.Native.Char.{code}
use Prim.Native.String.{String}
use mathlib.Core.Path.{◌≡◌, refl}
use mathlib.Core.Logic.{◌↔◌}
use mathlib.Core.Bool.{Bool, true, false, not, ◌&&◌, ◌||◌}
use mathlib.Core.List.{List, [], ◌∷◌}
use native.Mathlib.Omega.{arith}
use content_lens.Prelude.Tests.{◌==◌, leb}
use content_lens.Prelude.Lists.{any}

abbrev pub JsString : Type 0
JsString = List ℕ

-- A literal. The program's are ASCII, where code points and code units agree.
abbrev pub js : String → JsString
js String.[] = []
js (String.◌∷◌ c s) = code c ∷ js s

-- `===` on strings
unfoldable pub same : JsString → JsString → Bool
same [] [] = true
same (a ∷ s) (b ∷ t) = (a == b) && same s t
same [] (b ∷ t) = false
same (a ∷ s) [] = false

pub same→eq : (s t : JsString) → same s t ≡ true → s ≡ t
unfolding same
same→eq [] [] h = refl
same→eq (a ∷ s) (b ∷ t) h = ground (arith, same→eq s t)
same→eq [] (b ∷ t) h = cc
same→eq (a ∷ s) [] h = cc

pub same_refl : (s : JsString) → same s s ≡ true
unfolding same
same_refl [] = refl
same_refl (a ∷ s) = ground (arith, same_refl s)

pub same_iff : (s t : JsString) → (same s t ≡ true) ↔ (s ≡ t)
same_iff s t = (same→eq s t, λ e. rw e (same_refl t))

-- `<` on strings: by code units, a proper prefix first
unfoldable pub before : JsString → JsString → Bool
before [] [] = false
before [] (b ∷ t) = true
before (a ∷ s) [] = false
before (a ∷ s) (b ∷ t) = elim (compare a b) [
  | Ordering.lt ↦ true
  | Ordering.eq ↦ before s t
  | Ordering.gt ↦ false
]

-- The white space that `trim` removes.
abbrev pub is_white_space : ℕ → Bool
is_white_space c =
    (leb 9 c && leb c 13)
    || c == 32
    || c == 160
    || c == 0x1680
    || (leb 0x2000 c && leb c 0x200a)
    || c == 0x2028
    || c == 0x2029
    || c == 0x202f
    || c == 0x205f
    || c == 0x3000
    || c == 0xfeff

-- `value.trim().length > 0`
unfoldable pub has_text : JsString → Bool
has_text s = any (λ c. not (is_white_space c)) s
