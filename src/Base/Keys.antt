-- ===== src/Base/Keys.antt =====
-- Equality of keys, as an interface: texts, and slot ids, which are numbers.
use Prim.Native.Nat.{ℕ}
use Prim.Native.String.{String}
use mathlib.Core.Path.{◌≡◌, refl}
use mathlib.Core.Bool.{Bool, true, false}
use mathlib.Core.Logic.{◌↔◌, ◌≢◌}
use text.Mathlib.Text.{◌==◌ as str_eq}
use text.Mathlib.TextEquality.{eq_iff}
use proxycache.Base.Tests.{eqb, eqb_iff}

pub record KeyEq {ℓ} (K : Type ℓ) : Type ℓ where
  pub same : K → K → Bool
  pub same_iff : (k j : K) → (same k j ≡ true) ↔ (k ≡ j)

instance abbrev pub string_eq : KeyEq String
string_eq = record { same = str_eq; same_iff = eq_iff }

instance abbrev pub nat_eq : KeyEq ℕ
nat_eq = record { same = eqb; same_iff = eqb_iff }

module _ {ℓ} {K : Type ℓ} ⦃e : KeyEq K⦄ where
  infix 50 ◌==◌
  abbrev pub ◌==◌ : K → K → Bool
  k == j = e.same k j

  pub ==_refl : (k : K) → (k == k) ≡ true
  ==_refl k = (e.same_iff k k).1 refl

  pub ==_sound : (k j : K) → (k == j) ≡ true → k ≡ j
  ==_sound k j = (e.same_iff k j).0

  pub ==_ne : (k j : K) → k ≢ j → (k == j) ≡ false
  ==_ne k j h = go (k == j) (==_sound k j)
    where
      go : (t : Bool) → (t ≡ true → k ≡ j) → t ≡ false
      go true f = absurd (h (f refl))
      go false f = refl
