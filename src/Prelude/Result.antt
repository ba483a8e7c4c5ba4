-- ===== src/Prelude/Result.antt =====
-- `Result<T>` of src/core/include/core/Types.h, over the errors of a component.
use zircon_dumper.Prelude.{◌≡◌, refl}

pub data Result (E : Type 0) (T : Type 0) : Type 0 where
  ok : T → Result E T
  err : E → Result E T

infixl 5 ◌>>=◌
abbrev pub ◌>>=◌ : {E T U : Type 0} → Result E T → (T → Result E U) → Result E U
ok value >>= next = next value
err error >>= next = err error

-- A chain that ends well: its first step did, and so did the rest.
pub >>=-ok :
    {E T U : Type 0} (next : T → Result E U) (first : Result E T) {u : U}
    → first >>= next ≡ ok u
    → (value : T) × (first ≡ ok value) × (next value ≡ ok u)
>>=-ok next (err error) h = cc
>>=-ok next (ok value) h = (value, refl, h)
