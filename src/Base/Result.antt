-- ===== src/Base/Result.antt =====
-- A call returns a value or throws one of the standard exceptions. `undefined` stands for a read or
-- write outside of an object, which C++ leaves undefined.
use mathlib.Core.Bool.{Bool, true, false}
use mathlib.Core.Path.{◌≡◌}
use mathlib.Core.Logic.{◌⊎◌, inl, inr}

pub data Exception : Type 0 where
  invalid_argument out_of_range overflow_error runtime_error length_error undefined : Exception

pub data Result {ℓ} (Value : Type ℓ) : Type ℓ where
  throws : Exception → Result Value
  ok : Value → Result Value

-- `if (test) throw e;`
abbrev pub throw_if : (test : Bool) (e : Exception) → Result (Unit {0})
throw_if test e = elim test [ true ↦ throws e | false ↦ ok tt ]

abbrev pub ◌>>=◌ {ℓ κ} :
    {First : Type ℓ} {Second : Type κ} → Result First → (First → Result Second) → Result Second
throws e >>= next = throws e
ok value >>= next = next value

abbrev pub ◌>>◌ {ℓ} : {Second : Type ℓ} → Result (Unit {0}) → Result Second → Result Second
throws e >> next = throws e
ok done >> next = next

infixl 5 ◌>>=◌ ◌>>◌
-- A result that a statement decides: one if it holds, the other if it does not.
pub data ByCases {A : Type 0} (P : Type 0) (good bad : Result A) : Result A → Type 0 where
  holds : P → ByCases P good bad good
  fails : ¬ P → ByCases P good bad bad

module _ {A : Type 0} {P : Type 0} {good bad : Result A} where
  pub ByCases-of :
      (r : Result A) → P ⊎ (¬ P) → (P → r ≡ good) → (¬ P → r ≡ bad) → ByCases P good bad r
  ByCases-of r (inl p) yes_is no_is = rw (yes_is p) (holds p)
  ByCases-of r (inr n) yes_is no_is = rw (no_is n) (fails n)
