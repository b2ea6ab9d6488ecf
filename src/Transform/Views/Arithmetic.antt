-- ===== src/Transform/Views/Arithmetic.antt =====
-- Python's integer division: the quotient rounds down, the remainder has the divisor's sign.
use native.Mathlib.Nat.{mod-lt, div-add-mod', suc-mul}
use schema_guard.Base.{
  ℕ, suc, ◌+◌, ◌-◌, ◌*◌, ◌/◌, ◌%◌, ◌<◌, Bool, true, false, if◌then◌else◌, leb, ltb, ℤ, pos, negsuc,
  ◌≡◌, ap, arith,
}

-- a - b
unfoldable pub sub_ℕ : ℕ → ℕ → ℤ
sub_ℕ a b = if leb b a then pos (a - b) else negsuc (b - a - 1)

-- `x // m` and `x % m` for a positive m.
unfoldable pub floor_div : ℤ → ℕ → ℤ
floor_div (pos n) m = pos (n / m)
floor_div (negsuc n) m = negsuc (n / m)

unfoldable pub floor_mod : ℤ → ℕ → ℤ
floor_mod (pos n) m = pos (n % m)
floor_mod (negsuc n) m = pos (m - 1 - n % m)

-- `q * m`
unfoldable pub times : ℤ → ℕ → ℤ
times (pos n) m = pos (n * m)
times (negsuc n) m = sub_ℕ 0 (suc n * m)

unfoldable pub plus : ℤ → ℤ → ℤ
plus (pos a) (pos b) = pos (a + b)
plus (pos a) (negsuc b) = sub_ℕ a (suc b)
plus (negsuc a) (pos b) = sub_ℕ b (suc a)
plus (negsuc a) (negsuc b) = negsuc (suc (a + b))

unfoldable pub leb_ℤ : ℤ → ℤ → Bool
leb_ℤ (pos a) (pos b) = leb a b
leb_ℤ (pos a) (negsuc b) = false
leb_ℤ (negsuc a) (pos b) = true
leb_ℤ (negsuc a) (negsuc b) = leb b a

abbrev pub int64_half : ℕ
int64_half = 0x8000_0000_0000_0000

-- A value that a 64-bit integer holds.
unfoldable pub is_int64 : ℤ → Bool
is_int64 (pos n) = ltb n int64_half
is_int64 (negsuc n) = ltb n int64_half

-- The integer of a bit pattern of 64 bits.
abbrev signed64 : ℕ → ℤ
signed64 w = if ltb w int64_half then pos w else negsuc (int64_half + int64_half - w - 1)

-- What a 64-bit integer is left with: the bits past the last one are lost.
unfoldable pub wrap64 : ℤ → ℤ
wrap64 (pos n) = signed64 (n % (int64_half + int64_half))
wrap64 (negsuc n) = signed64 (int64_half + int64_half - 1 - n % (int64_half + int64_half))

-- `q * m + r` of 64-bit integers
unfoldable pub combine64 : ℕ → ℤ → ℤ → ℤ
combine64 m q r = wrap64 (plus (wrap64 (times q m)) r)

negative_back :
    (t m r n : ℕ) → 0 < m → r < m → t + r ≡ n → plus (sub_ℕ 0 (t + m)) (pos (m - 1 - r)) ≡ negsuc n
unfolding sub_ℕ plus
negative_back t m r n h k e =
    let some_product : leb (t + m) 0 ≡ false = ground arith in
    let less : leb (suc (t + m - 0 - 1)) (m - 1 - r) ≡ false = ground arith in
    rw some_product (rw less (ap negsuc (omega arith)))

-- The remainder lies in `[0, m)`, and the quotient and the remainder give the number back.
pub floor_div-floor_mod :
    (x : ℤ) (m : ℕ)
    → 0 < m
    → (leb_ℤ (pos 0) (floor_mod x m) ≡ true)
      × (leb_ℤ (floor_mod x m) (pos (m - 1)) ≡ true)
      × (plus (times (floor_div x m) m) (floor_mod x m) ≡ x)
unfolding sub_ℕ floor_div floor_mod times plus leb_ℤ
floor_div-floor_mod (pos n) m h = (grind arith, grind arith, grind arith)
floor_div-floor_mod (negsuc n) m h =
    let product : suc (n / m) * m ≡ n / m * m + m = omega (arith, suc-mul (n / m) m) in
    (
      grind arith,
      grind arith,
      rw product (negative_back (n / m * m) m (n % m) n h (mod-lt n h) (div-add-mod' n m)),
    )

pub is_int64-pos : (n : ℕ) → n < int64_half → is_int64 (pos n) ≡ true
unfolding is_int64
is_int64-pos n h = ground arith

wrap64-pos : (n : ℕ) → n < int64_half → wrap64 (pos n) ≡ pos n
unfolding wrap64
wrap64-pos n h = ground arith

positive_combined :
    (t r n : ℕ) → t + r ≡ n → n < int64_half → wrap64 (plus (wrap64 (pos t)) (pos r)) ≡ pos n
unfolding plus
positive_combined t r n e h = rw (wrap64-pos t (omega arith)) (rw e (wrap64-pos n h))

-- The product may lie below the least value: the sum comes back.
negative_combined :
    (t m r n : ℕ)
    → 0 < m
    → m < int64_half
    → r < m
    → t + r ≡ n
    → n < int64_half
    → wrap64 (plus (wrap64 (sub_ℕ 0 (t + m))) (pos (m - 1 - r))) ≡ negsuc n
unfolding wrap64 sub_ℕ plus
negative_combined t m r n some_modulus small less e h = ground arith

-- With 64-bit integers the quotient and the remainder give back a number that they hold.
pub combine64-floor_div :
    (x : ℤ) (m : ℕ)
    → 0 < m
    → m < int64_half
    → is_int64 x ≡ true
    → combine64 m (floor_div x m) (floor_mod x m) ≡ x
unfolding combine64 floor_div floor_mod times is_int64
combine64-floor_div (pos n) m h small fits =
    positive_combined (n / m * m) (n % m) n (div-add-mod' n m) (ground arith)
combine64-floor_div (negsuc n) m h small fits =
    let product : suc (n / m) * m ≡ n / m * m + m = omega (arith, suc-mul (n / m) m) in
    rw product (
      negative_combined (n / m * m) m (n % m) n h small (mod-lt n h) (div-add-mod' n m)
        (ground arith))

-- The quotient and the remainder of such a number are such numbers.
pub floor_div-is_int64 :
    (x : ℤ) (m : ℕ)
    → 0 < m
    → m < int64_half
    → is_int64 x ≡ true
    → (is_int64 (floor_div x m) ≡ true) × (is_int64 (floor_mod x m) ≡ true)
unfolding floor_div floor_mod is_int64
floor_div-is_int64 (pos n) m h small fits = (grind arith, grind arith)
floor_div-is_int64 (negsuc n) m h small fits = (grind arith, grind arith)
