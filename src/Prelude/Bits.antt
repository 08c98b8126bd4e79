-- ===== src/Prelude/Bits.antt =====
-- About the native exclusive or, by the binary digits that it is defined by.
use Prim.Native.Nat.{ℕ, zero, suc, ◌/◌, ◌%◌, ◌^◌, ◌<◌, bit_xor, digits, differ, bit_xor-bitwise}
use native.Mathlib.Omega.{arith}
use native.Mathlib.Nat.{pow-suc}

-- Two binary digits differ by a binary digit.
differ-lt : (x y : ℕ) → x < 2 → y < 2 → differ x y < 2
differ-lt zero y hx hy = hy
differ-lt (suc x) zero hx hy = hx
differ-lt (suc zero) (suc y) hx hy = omega arith
differ-lt (suc (suc x)) (suc y) hx hy = absurd (omega arith)

-- Whatever the fuel `n`, which may run out.
digits-lt : (n w a b : ℕ) → a < 2 ^ w → b < 2 ^ w → digits (λ rest. rest) differ n a b < 2 ^ w
digits-lt zero w a b ha hb = hb
digits-lt (suc n) w zero b ha hb = hb
digits-lt (suc n) zero (suc a) b ha hb = absurd (omega arith)
digits-lt (suc n) (suc w) (suc a) b ha hb =
    let two = pow-suc 2 w in
    let higher = digits-lt n w (suc a / 2) (b / 2) (omega (arith, two)) (omega (arith, two)) in
    omega (arith, two, higher, differ-lt (suc a % 2) (b % 2) (omega arith) (omega arith))

-- A word's width is kept.
pub bit_xor-lt : (w a b : ℕ) → a < 2 ^ w → b < 2 ^ w → bit_xor a b < 2 ^ w
bit_xor-lt w a b ha hb = rw bit_xor-bitwise (digits-lt a w a b ha hb)
