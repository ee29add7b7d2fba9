-- ===== src/Base/Int.antt =====
-- Python integers, over the native natural numbers.
use Prim.Native.Nat.{ℕ, ◌+◌, ◌-◌, ◌*◌}
use mathlib.Core.Path.{◌≡◌}
use mathlib.Core.Logic.{◌↔◌}
use mathlib.Core.Bool.{Bool, true, false}
use native.Mathlib.Omega.{arith}
use quellgeist.Base.Tests.{Eq, leb, nat_beq}

-- `negsuc n` is -(n + 1).
pub data ℤ : Type 0 where
  pos : ℕ → ℤ
  negsuc : ℕ → ℤ

unfoldable pub eqz : ℤ → ℤ → Bool
eqz (pos a) (pos b) = nat_beq a b
eqz (negsuc a) (negsuc b) = nat_beq a b
eqz _ _ = false

unfoldable pub lez : ℤ → ℤ → Bool
lez (pos a) (pos b) = leb a b
lez (pos a) (negsuc b) = false
lez (negsuc a) (pos b) = true
lez (negsuc a) (negsuc b) = leb b a

-- z * n for a positive n; at n = 0 a negative z is not used.
unfoldable pub mulz : ℤ → ℕ → ℤ
mulz (pos a) n = pos (a * n)
mulz (negsuc a) n = negsuc ((a + 1) * n - 1)

pub eqz_iff : (a b : ℤ) → (eqz a b ≡ true) ↔ (a ≡ b)
unfolding eqz
eqz_iff (pos a) (pos b) = ground arith
eqz_iff (pos a) (negsuc b) = ground arith
eqz_iff (negsuc a) (pos b) = ground arith
eqz_iff (negsuc a) (negsuc b) = ground arith

instance abbrev pub int_eq : Eq ℤ
int_eq = record { beq = eqz; beq_iff = eqz_iff }
