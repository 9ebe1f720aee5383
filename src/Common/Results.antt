-- ===== src/Common/Results.antt =====
-- What a call of the C++ code can do: return a value, throw, or leave the defined behaviour.

use mathlib.Core.Path.{◌≡◌, refl}
use mathlib.Core.Bool.{Bool, true, false}
use enki_net.Common.Tests.{if◌then◌else◌}

-- One constructor for each `throw std::runtime_error(...)` of the library and for `.at` of a map.
pub data Exception : Type 0 where
  null_serialize read_past_end null_deserialize array_mismatch : Exception
  write_overflow read_overflow read_past_buffer out_of_range invalid_function : Exception

-- `fault` is undefined behaviour, such as an access outside of a vector.
pub data Outcome {ℓ} (A : Type ℓ) : Type ℓ where
  ok : A → Outcome A
  throws : Exception → Outcome A
  fault : Outcome A

infixl 5 ◌>>=◌
abbrev pub ◌>>=◌ {ℓ κ} : {A : Type ℓ} {B : Type κ} → Outcome A → (A → Outcome B) → Outcome B
ok a >>= f = f a
throws e >>= f = throws e
fault >>= f = fault

-- What a chain that returns went through.
pub bind-ok {ℓ κ} :
    {A : Type ℓ} {B : Type κ} (r : Outcome A) (f : A → Outcome B) (b : B)
    → r >>= f ≡ ok b
    → (a : A) × (r ≡ ok a) × (f a ≡ ok b)
bind-ok (ok a) f b e = (a, refl, e)
bind-ok (throws x) f b e = absurd (cc e)
bind-ok fault f b e = absurd (cc e)

-- What holds of both branches of a test.
pub if-both {ℓ κ} :
    {A : Type ℓ} (P : A → Type κ) (b : Bool) (x y : A) → P x → P y → P (if b then x else y)
if-both P true x y h g = h
if-both P false x y h g = g
