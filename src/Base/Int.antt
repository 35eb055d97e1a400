-- ===== src/Base/Int.antt =====
-- `i64`: an integer, with the wrap-around and the saturation of the machine type written out.
use Prim.Native.Nat.{ℕ, suc, ◌+◌, ◌-◌, ◌*◌, ◌/◌, ◌%◌, ◌≤◌}
use mathlib.Core.Bool.{Bool, true}
use mathlib.Core.Logic.{◌↔◌}
use mathlib.Core.Path.{◌≡◌}
use native.Mathlib.Omega.{arith}
use rstorrent.Base.Tests.{ltb, leb, nat_beq, if◌then◌else◌}

-- `negsuc n` is -(n + 1).
pub data ℤ : Type 0 where
  pos : ℕ → ℤ
  negsuc : ℕ → ℤ

abbrev pub pos_part : ℤ → ℕ
pos_part (pos n) = n
pos_part (negsuc n) = 0

abbrev pub neg_part : ℤ → ℕ
neg_part (pos n) = 0
neg_part (negsuc n) = suc n

-- a - b, as an integer.
abbrev pub sub_ℕ : ℕ → ℕ → ℤ
sub_ℕ a b = if leb b a then pos (a - b) else negsuc (b - a - 1)

infix 50 ◌≤ℤ◌ ◌<ℤ◌
abbrev pub ◌≤ℤ◌ : ℤ → ℤ → Type 0
a ≤ℤ b = pos_part a + neg_part b ≤ pos_part b + neg_part a

abbrev pub ◌<ℤ◌ : ℤ → ℤ → Type 0
a <ℤ b = suc (pos_part a + neg_part b) ≤ pos_part b + neg_part a

abbrev pub ltb_ℤ : ℤ → ℤ → Bool
ltb_ℤ a b = ltb (pos_part a + neg_part b) (pos_part b + neg_part a)

abbrev pub leb_ℤ : ℤ → ℤ → Bool
leb_ℤ a b = leb (pos_part a + neg_part b) (pos_part b + neg_part a)

abbrev pub beq_ℤ : ℤ → ℤ → Bool
beq_ℤ a b = nat_beq (pos_part a + neg_part b) (pos_part b + neg_part a)

pub beq_ℤ_iff : (a b : ℤ) → (beq_ℤ a b ≡ true) ↔ (a ≡ b)
beq_ℤ_iff a b = ground arith

-- 2 ^ 63 - 1, and 2 ^ 64.
abbrev pub i64_max : ℕ
i64_max = 9223372036854775807

abbrev pub i64_mod : ℕ
i64_mod = 18446744073709551616

abbrev pub IsI64 : ℤ → Type 0
IsI64 a = (a ≤ℤ pos i64_max) × (negsuc i64_max ≤ℤ a)

-- The `i64` whose two's complement pattern is `n`, for `n` below 2 ^ 64.
abbrev pub of_pattern : ℕ → ℤ
of_pattern n = if leb n i64_max then pos n else negsuc (i64_mod - 1 - n)

-- p - n wrapped into an `i64`.
abbrev pub wrap : ℕ → ℕ → ℤ
wrap p n = of_pattern ((p % i64_mod + (i64_mod - n % i64_mod)) % i64_mod)

-- `a + b` and `a - b` on `i64` as a release build computes them.
unfoldable pub add_i64 : ℤ → ℤ → ℤ
add_i64 a b = wrap (pos_part a + pos_part b) (neg_part a + neg_part b)

unfoldable pub sub_i64 : ℤ → ℤ → ℤ
sub_i64 a b = wrap (pos_part a + neg_part b) (neg_part a + pos_part b)

-- The integer p - n clamped into the range.
abbrev pub saturate : ℕ → ℕ → ℤ
saturate p n =
    if leb n p
    then (if leb (p - n) i64_max then pos (p - n) else pos i64_max)
    else (if leb (n - p) i64_max then negsuc (n - p - 1) else negsuc i64_max)

-- `saturating_sub`.
unfoldable pub saturating_sub : ℤ → ℤ → ℤ
saturating_sub a b = saturate (pos_part a + neg_part b) (neg_part a + pos_part b)

-- `saturating_mul`.
unfoldable pub saturating_mul : ℤ → ℤ → ℤ
saturating_mul a b =
    saturate (pos_part a * pos_part b + neg_part a * neg_part b)
      (pos_part a * neg_part b + neg_part a * pos_part b)

abbrev pub max_ℤ : ℤ → ℤ → ℤ
max_ℤ a b = if ltb_ℤ a b then b else a

abbrev pub min_ℤ : ℤ → ℤ → ℤ
min_ℤ a b = if ltb_ℤ b a then b else a

-- A sum that fits is the integer sum.
pub add_i64_parts :
    (a b : ℤ)
    → pos_part a + pos_part b ≤ i64_max + neg_part a + neg_part b
    → neg_part a + neg_part b ≤ i64_max + 1 + pos_part a + pos_part b
    → IsI64 a
    → IsI64 b
    → pos_part (add_i64 a b) + neg_part a + neg_part b
      ≡ neg_part (add_i64 a b) + pos_part a + pos_part b
unfolding add_i64
add_i64_parts a b h k ha hb = ground arith

pub sub_i64_parts :
    (a b : ℤ)
    → pos_part a + neg_part b ≤ i64_max + neg_part a + pos_part b
    → neg_part a + pos_part b ≤ i64_max + 1 + pos_part a + neg_part b
    → IsI64 a
    → IsI64 b
    → pos_part (sub_i64 a b) + neg_part a + pos_part b
      ≡ neg_part (sub_i64 a b) + pos_part a + neg_part b
unfolding sub_i64
sub_i64_parts a b h k ha hb = ground arith

-- `div_euclid(k)` and `rem_euclid(k)` by a positive constant, and `as u8`.
unfoldable pub div_euclid : ℤ → ℕ → ℤ
div_euclid (pos n) k = pos (n / k)
div_euclid (negsuc n) k = negsuc (n / k)

unfoldable pub rem_euclid : ℤ → ℕ → ℤ
rem_euclid (pos n) k = pos (n % k)
rem_euclid (negsuc n) k = pos (k - 1 - n % k)

unfoldable pub as_u8 : ℤ → ℕ
as_u8 (pos n) = n % 256
as_u8 (negsuc n) = 255 - n % 256

-- `a * b` on `i64` as a release build computes it.
unfoldable pub mul_i64 : ℤ → ℤ → ℤ
mul_i64 a b =
    wrap (pos_part a * pos_part b + neg_part a * neg_part b)
      (pos_part a * neg_part b + neg_part a * pos_part b)
