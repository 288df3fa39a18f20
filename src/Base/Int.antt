-- ===== src/Base/Int.antt =====
-- Integers over the native numbers, and Go's `int64`: times and durations count nanoseconds.
use Prim.Native.Nat.{ℕ, suc, ◌+◌, ◌-◌, ◌*◌, ◌%◌, ◌^◌, ◌≤◌, ◌<◌}
use mathlib.Core.Path.{◌≡◌, ap, ◌∙◌}
use mathlib.Core.Bool.{Bool}
use native.Mathlib.Omega.{arith}
use bouncer.Base.Tests.{ltb, leb, if◌then◌else◌}

-- `negsuc n` is -(n + 1).
pub data ℤ : Type 0 where
  pos : ℕ → ℤ
  negsuc : ℕ → ℤ

-- An integer is the difference of its two parts, of which one is 0.
abbrev pub above : ℤ → ℕ
above (pos n) = n
above (negsuc _) = 0

abbrev pub below : ℤ → ℕ
below (pos _) = 0
below (negsuc n) = suc n

abbrev pub difference : ℕ → ℕ → ℤ
difference m n = if leb n m then pos (m - n) else negsuc (n - m - 1)

infixl 65 ◌+ℤ◌ ◌-ℤ◌
unfoldable pub ◌+ℤ◌ : ℤ → ℤ → ℤ
x +ℤ y = difference (above x + above y) (below x + below y)

unfoldable pub ◌-ℤ◌ : ℤ → ℤ → ℤ
x -ℤ y = difference (above x + below y) (below x + above y)

infix 50 ◌≤ℤ◌ ◌<ℤ◌
abbrev pub ◌≤ℤ◌ : ℤ → ℤ → Type 0
x ≤ℤ y = above x + below y ≤ above y + below x

abbrev pub ◌<ℤ◌ : ℤ → ℤ → Type 0
x <ℤ y = above x + below y < above y + below x

-- The tests `x <= y` and `x < y`.
abbrev pub le_int : ℤ → ℤ → Bool
le_int x y = leb (above x + below y) (above y + below x)

abbrev pub lt_int : ℤ → ℤ → Bool
lt_int x y = ltb (above x + below y) (above y + below x)

pub +ℤ-parts :
    (x y : ℤ) → above (x +ℤ y) + (below x + below y) ≡ below (x +ℤ y) + (above x + above y)
unfolding ◌+ℤ◌
+ℤ-parts x y = ground arith

pub -ℤ-parts :
    (x y : ℤ) → above (x -ℤ y) + (below x + above y) ≡ below (x -ℤ y) + (above x + below y)
unfolding ◌-ℤ◌
-ℤ-parts x y = ground arith

-- The value that the bits of a 64-bit word stand for in two's complement.
abbrev pub signed : ℕ → ℤ
signed w = if ltb w (2 ^ 63) then pos w else negsuc (2 ^ 64 - w - 1)

-- The result of `int64` arithmetic: what fits in 64 bits.
unfoldable pub wrap : ℤ → ℤ
wrap (pos n) = signed (n % 2 ^ 64)
wrap (negsuc n) = signed (2 ^ 64 - 1 - n % 2 ^ 64)

-- `d * k` on `int64`, for a positive constant `k`
unfoldable pub scale : ℤ → ℕ → ℤ
unfolding wrap
scale (pos n) k = wrap (pos (n * k))
scale (negsuc n) k = wrap (difference 0 (suc n * k))

wrap-fits : (n : ℕ) → n < 2 ^ 63 → wrap (pos n) ≡ pos n
unfolding wrap
wrap-fits n h = ground arith

-- An integer that is not negative does not grow by wrapping.
pub wrap-le : (n : ℕ) → wrap (pos n) ≤ℤ pos n
unfolding wrap
wrap-le n = ground arith

pub scale-le : (n k : ℕ) → scale (pos n) k ≤ℤ pos (n * k)
unfolding scale
scale-le n k = wrap-le (n * k)

-- A product that fits, and one below the smallest `int64` but not by 2^64.
pub scale-fits : (n k : ℕ) → n * k < 2 ^ 63 → scale (pos n) k ≡ pos (n * k)
unfolding scale wrap
scale-fits n k h = wrap-fits (n * k) h

wrap-far : (m : ℕ) → 2 ^ 63 ≤ m → m < 2 ^ 64 → wrap (negsuc m) ≡ pos (2 ^ 64 - 1 - m)
unfolding wrap
wrap-far m low high = ground arith

difference-zero : (m : ℕ) → 0 < m → difference 0 m ≡ negsuc (m - 1)
difference-zero m h = ground arith

pub scale-wraps :
    (m k : ℕ)
    → 2 ^ 63 < suc m * k
    → suc m * k < 2 ^ 64
    → scale (negsuc m) k ≡ pos (2 ^ 64 - suc m * k)
unfolding scale
scale-wraps m k low high =
    ap wrap (difference-zero (suc m * k) (omega arith))
    ∙ wrap-far (suc m * k - 1) (omega arith) (omega arith)
    ∙ ap pos (omega arith)

pub pos-minus : (a b : ℕ) → b ≤ a → pos a -ℤ pos b ≡ pos (a - b)
unfolding ◌-ℤ◌
pos-minus a b h = ground arith

-- The largest and the smallest `int64`
abbrev pub max_int : ℤ
max_int = pos (2 ^ 63 - 1)

abbrev pub min_int : ℤ
min_int = negsuc (2 ^ 63 - 1)

-- `t.Sub(u)` on times, which saturates
unfoldable pub sub_time : ℤ → ℤ → ℤ
sub_time t u =
    let d = t -ℤ u in if lt_int max_int d then max_int else if lt_int d min_int then min_int else d

pub sub_time-le : (t u : ℤ) → pos 0 ≤ℤ sub_time t u → sub_time t u ≤ℤ (t -ℤ u)
unfolding sub_time
sub_time-le t u h = ground arith
