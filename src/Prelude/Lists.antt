-- ===== src/Prelude/Lists.antt =====
-- Lists over the native numbers: `length`, and lists of addresses with Boolean membership.
use Prim.Native.Nat.{ℕ, zero, suc, ◌+◌}
use mathlib.Core.Path.{◌≡◌, refl, sym, ◌∙◌}
use mathlib.Core.Logic.{inl, inr}
use mathlib.Core.Bool.{Bool, true, false, not, ◌&&◌, ◌||◌}
use mathlib.Core.List.{List, [], ◌∷◌, ◌++◌}
use mathlib.Core.Option.{Option, none, some}
use native.Mathlib.Omega.{arith}
use hox_server.Prelude.Tests.{◌==◌, ==→≡, if◌then◌else◌, Bool-cases}

module _ {ℓ} {A : Type ℓ} where
  abbrev pub length : List A → ℕ
  length [] = 0
  length (x ∷ xs) = suc (length xs)

  abbrev pub get_elem? : List A → ℕ → Option A
  get_elem? [] i = none
  get_elem? (x ∷ xs) zero = some x
  get_elem? (x ∷ xs) (suc i) = get_elem? xs i

  pub length-append : (xs ys : List A) → length (xs ++ ys) ≡ length xs + length ys
  length-append [] ys = omega arith
  length-append (x ∷ xs) ys = omega (arith, length-append xs ys)

  unfoldable pub any : (A → Bool) → List A → Bool
  any p [] = false
  any p (x ∷ xs) = p x || any p xs

-- `std::find` on a list of pointers, as a test.
unfoldable pub contains : ℕ → List ℕ → Bool
contains i [] = false
contains i (x ∷ xs) = i == x || contains i xs

-- `std::list::remove`: every occurrence goes.
unfoldable pub remove : ℕ → List ℕ → List ℕ
remove i [] = []
remove i (x ∷ xs) = if i == x then remove i xs else x ∷ remove i xs

pub contains-remove :
    (i j : ℕ) (xs : List ℕ) → contains j (remove i xs) ≡ (if i == j then false else contains j xs)
unfolding contains remove
contains-remove i j [] = ground arith
contains-remove i j (x ∷ xs) = ground (arith, contains-remove i j xs)

pub contains-append :
    (i : ℕ) (xs ys : List ℕ) → contains i (xs ++ ys) ≡ (contains i xs || contains i ys)
unfolding contains
contains-append i [] ys = refl
contains-append i (x ∷ xs) ys = ground (arith, contains-append i xs ys)

unfoldable pub nodup : List ℕ → Bool
nodup [] = true
nodup (x ∷ xs) = not (contains x xs) && nodup xs

-- A test fails throughout a list exactly if it fails at every member.
pub any-eq_false :
    (p : ℕ → Bool) (xs : List ℕ) → ((i : ℕ) → contains i xs ≡ true → p i ≡ false) → any p xs ≡ false
unfolding any contains
any-eq_false p [] h = refl
any-eq_false p (x ∷ xs) h =
    ground (arith, h x (ground arith), any-eq_false p xs (λ i k. h i (ground (arith, k))))

pub of_any-eq_false :
    (p : ℕ → Bool) (xs : List ℕ) (i : ℕ) → any p xs ≡ false → contains i xs ≡ true → p i ≡ false
unfolding any contains
of_any-eq_false p [] i h k = cc
of_any-eq_false p (x ∷ xs) i h k = ground (arith, of_any-eq_false p xs i, ==→≡ i x)

-- So a test of a list looks at its members only.
pub any_members :
    (p : ℕ → Bool) (xs ys : List ℕ)
    → ((i : ℕ) → contains i xs ≡ contains i ys)
    → any p xs ≡ any p ys
any_members p xs ys same = elim (Bool-cases (any p ys)) [
  | inl yes_ys ↦ elim (Bool-cases (any p xs)) [
    | inl yes_xs ↦ yes_xs ∙ sym yes_ys
    | inr no_xs ↦
        let no_ys = any-eq_false p ys (λ i k. of_any-eq_false p xs i no_xs (same i ∙ k)) in cc
  ]
  | inr no_ys ↦
      any-eq_false p xs (λ i k. of_any-eq_false p ys i no_ys (sym (same i) ∙ k)) ∙ sym no_ys
]

pub nodup-remove : (i : ℕ) (xs : List ℕ) → nodup xs ≡ true → nodup (remove i xs) ≡ true
unfolding nodup remove
nodup-remove i [] h = refl
nodup-remove i (x ∷ xs) h = ground (arith, nodup-remove i xs, contains-remove i x xs)
