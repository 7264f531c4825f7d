-- ===== src/Base/Tests.antt =====
-- Boolean tests on the native numbers, the conditional, and case splits that keep the equation.
use Prim.Native.Nat.{ℕ, zero, suc, ◌+◌, ◌≤◌, ◌<◌, compare, Ordering}
use mathlib.Core.Path.{◌≡◌, refl}
use mathlib.Core.Logic.{◌≢◌, ◌↔◌, ◌⊎◌, inl, inr}
use mathlib.Core.Bool.{Bool, true, false, ◌&&◌, not}
use mathlib.Core.Option.{Option, none, some}
use native.Mathlib.Omega.{arith}
use native.Mathlib.Decide.{ℕ_discrete}

abbrev pub ltb : ℕ → ℕ → Bool
ltb a b = elim (compare a b) [ Ordering.lt ↦ true | _ ↦ false ]

abbrev pub leb : ℕ → ℕ → Bool
leb a b = elim (compare a b) [ Ordering.gt ↦ false | _ ↦ true ]

infix 50 ◌==◌
abbrev pub ◌==◌ : ℕ → ℕ → Bool
a == b = elim (compare a b) [ Ordering.eq ↦ true | _ ↦ false ]

infix 1 if◌then◌else◌
abbrev pub if◌then◌else◌ {ℓ} : {A : Type ℓ} → Bool → A → A → A
if true then x else y = x
if false then x else y = y

pub ==_iff : (a b : ℕ) → ((a == b) ≡ true) ↔ (a ≡ b)
==_iff a b = ground arith

pub ==_refl : (a : ℕ) → (a == a) ≡ true
==_refl a = ground arith

pub Bool-cases : (b : Bool) → (b ≡ true) ⊎ (b ≡ false)
Bool-cases true = inl refl
Bool-cases false = inr refl

pub Option-cases {ℓ} : {A : Type ℓ} (o : Option A) → (o ≡ none) ⊎ ((a : A) × (o ≡ some a))
Option-cases none = inl refl
Option-cases (some a) = inr (a, refl)

-- A test of `count` numbers from `first` on.
range_test : (ℕ → Bool) → ℕ → ℕ → Bool
range_test test first zero = true
range_test test first (suc count) = test first && range_test test (suc first) count

range_test_lem :
    (test : ℕ → Bool) (first count c : ℕ)
    → range_test test first count ≡ true
    → first ≤ c
    → c < first + count
    → test c ≡ true
unfolding range_test
range_test_lem test first zero c h low high = absurd (omega arith)
range_test_lem test first (suc count) c h low high = elim (ℕ_discrete c first) [
  | yes e ↦ rw e (ground arith)
  | no e ↦ range_test_lem test (suc first) count c (ground arith) (omega arith) (omega arith)
]

-- A test of every byte.
unfoldable pub all_bytes : (ℕ → Bool) → Bool
unfolding range_test
all_bytes test = range_test test 0 256

pub all_bytes_lem : (test : ℕ → Bool) (c : ℕ) → all_bytes test ≡ true → c < 256 → test c ≡ true
unfolding all_bytes
all_bytes_lem test c h high = range_test_lem test 0 256 c h (omega arith) (omega arith)

-- A fact about a conditional, by its two branches.
pub branch {ℓ κ} :
    {A : Type ℓ} (P : A → Type κ) (b : Bool) (x y : A)
    → (b ≡ true → P x)
    → (b ≡ false → P y)
    → P (if b then x else y)
branch P true x y h k = h refl
branch P false x y h k = k refl

-- Two of the tests that the source writes as `rc != X`.
pub ne_of_not : (a b : ℕ) → not (a == b) ≡ true → a ≢ b
ne_of_not a b h = ground arith

pub eq_of_not : (a b : ℕ) → not (a == b) ≡ false → a ≡ b
eq_of_not a b h = ground arith
