-- ===== src/Prelude/Bits/Table.antt =====
-- Facts about every byte, checked value by value.
use Prim.Native.Nat.{ℕ, zero, suc, ◌+◌, ◌≤◌, ◌<◌}
use mathlib.Core.Path.{◌≡◌, refl, ap, subst}
use mathlib.Core.Bool.{Bool, true, false, ◌&&◌}
use mathlib.Core.Option.{Option, none, some}
use mathlib.Core.Logic.{inl, inr}
use native.Mathlib.Omega.{arith}
use lorawan.Prelude.Tests.{Bool-cases, ◌==◌, ==_iff}

-- The test holds of the numbers from `first` on, `count` of them.
unfoldable pub all_from : ℕ → ℕ → (ℕ → Bool) → Bool
all_from first zero test = true
all_from first (suc count) test = test first && all_from (suc first) count test

both : (a b : Bool) → a && b ≡ true → (a ≡ true) × (b ≡ true)
both true b h = (refl, h)
both false b h = cc

all_from-elem :
    (count first x : ℕ) (test : ℕ → Bool)
    → all_from first count test ≡ true
    → first ≤ x
    → x < first + count
    → test x ≡ true
unfolding all_from
all_from-elem zero first x test h low high = absurd (omega arith)
all_from-elem (suc count) first x test h low high = elim (Bool-cases (first == x)) [
  | inl here ↦ subst (λ y. test y ≡ true) ((==_iff first x).0 here) (both (test first) _ h).0
  | inr later ↦
      all_from-elem count (suc first) x test (both (test first) _ h).1 (ground arith) (omega arith)
]

pub byte_table : (test : ℕ → Bool) → all_from 0 256 test ≡ true → (x : ℕ) → x < 256 → test x ≡ true
byte_table test h x small = all_from-elem 256 0 x test h (omega arith) (omega arith)

abbrev pub option_eq : Option ℕ → Option ℕ → Bool
option_eq none none = true
option_eq (some a) (some b) = a == b
option_eq _ _ = false

pub option_eq_sound : (a b : Option ℕ) → option_eq a b ≡ true → a ≡ b
option_eq_sound none none h = refl
option_eq_sound none (some b) h = cc
option_eq_sound (some a) none h = cc
option_eq_sound (some a) (some b) h = ap some ((==_iff a b).0 h)
