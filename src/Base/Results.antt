-- ===== src/Base/Results.antt =====
-- What a Go call ends in: a panic that ends the process, an error that is returned, or a value.
use mathlib.Core.Path.{◌≡◌, refl}
use ugoku.Base.Strings.{Text}

-- The text of Go's `err.Error()`.
abbrev pub Error : Type 0
Error = Text

pub data Result {ℓ} (A : Type ℓ) : Type ℓ where
  panic : Result A
  err : Error → Result A
  ok : A → Result A

-- The lines after `if err != nil { return err }` run on a value only.
abbrev pub ◌>>=◌ {ℓ κ} : {A : Type ℓ} {B : Type κ} → Result A → (A → Result B) → Result B
panic >>= rest = panic
err message >>= rest = err message
ok value >>= rest = rest value

infixl 5 ◌>>=◌
-- Where a chain of calls gives a value, its first call gave one and the rest made it the result.
pub >>=-ok {ℓ κ} :
    {A : Type ℓ} {B : Type κ} (first : Result A) (rest : A → Result B) {result : B}
    → (first >>= rest) ≡ ok result
    → (value : A) × (first ≡ ok value) × (rest value ≡ ok result)
>>=-ok panic rest e = cc
>>=-ok (err message) rest e = cc
>>=-ok (ok value) rest e = (value, refl, e)
