-- ===== src/Base/Floats.antt =====
-- The program's float64 arithmetic, as an interface: the checked code never looks into a float.
use Prim.Native.Nat.{ℕ}
use mathlib.Core.Path.{◌≡◌}
use mathlib.Core.Bool.{Bool, true, false}
use mathlib.Core.Logic.{inl, inr}
use native.Mathlib.Omega.{arith}
use proxycache.Base.Int.{ℤ}
use proxycache.Base.Tests.{Bool-cases}

pub record FloatOps (F : Type 0) : Type 0 where
  -- `of_int n` is float64(n), and `dec m k` the literal m * 10^-k.
  pub of_int : ℤ → F
  pub dec : ℕ → ℕ → F
  -- `int(x)`.
  pub to_int : F → ℤ
  pub add : F → F → F
  pub sub : F → F → F
  pub mul : F → F → F
  pub div : F → F → F
  -- `math.Min(a, b)`.
  pub min : F → F → F
  -- `a < b` and `a <= b`.
  pub lt : F → F → Bool
  pub le : F → F → Bool

-- What the code relies on in float64 comparison, on finite values.
pub record FloatLaws {F : Type 0} (fl : FloatOps F) : Type 0 where
  pub le_refl : (a : F) → fl.le a a ≡ true
  pub le_of_not-lt : (a b : F) → fl.lt a b ≡ false → fl.le b a ≡ true
  pub le_of_lt : (a b : F) → fl.lt a b ≡ true → fl.le a b ≡ true
  pub not-lt_of_le : (a b : F) → fl.le a b ≡ true → fl.lt b a ≡ false
  pub not-le_of_lt : (a b : F) → fl.lt a b ≡ true → fl.le b a ≡ false
  pub le_trans : (a b c : F) → fl.le a b ≡ true → fl.le b c ≡ true → fl.le a c ≡ true
  pub min-le_right : (a b : F) → fl.le (fl.min a b) b ≡ true

-- What is not below `a` is not below what `a` is below.
pub not-lt_of_lt :
    {F : Type 0} {fl : FloatOps F} (laws : FloatLaws fl) (a b c : F)
    → fl.lt a b ≡ true
    → fl.lt a c ≡ false
    → fl.lt b c ≡ false
not-lt_of_lt laws a b c h k =
    laws.not-lt_of_le c b (laws.le_trans c a b (laws.le_of_not-lt a c k) (laws.le_of_lt a b h))

pub lt_of_le_lt :
    {F : Type 0} {fl : FloatOps F} (laws : FloatLaws fl) (a b c : F)
    → fl.le a b ≡ true
    → fl.lt b c ≡ true
    → fl.lt a c ≡ true
lt_of_le_lt {fl = fl} laws a b c h k = elim (Bool-cases (fl.lt a c)) [
  | inl t ↦ t
  | inr f ↦ ground (arith, laws.le_of_not-lt a c, laws.le_trans c a b, laws.not-lt_of_le c b)
]
