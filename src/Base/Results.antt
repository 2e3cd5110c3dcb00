-- ===== src/Base/Results.antt =====
-- The status codes that the modelled functions return, and results that carry one on failure.
use mathlib.Core.Path.{◌≡◌, refl}

-- `fault` is no code of the program: an access outside the memory of an object.
pub data Code : Type 0 where
  enomem einval corrupted bad_valsize not_found incompatible problem bad_txn cursor_full map_full
        fault :
      Code

-- `ok` is `MDB_SUCCESS` with what the function stores through its out-parameters.
pub data Result {ℓ} (T : Type ℓ) : Type ℓ where
  err : Code → Result T
  ok : T → Result T

infixl 5 ◌>>=◌
abbrev pub ◌>>=◌ {ℓ κ} : {T : Type ℓ} {U : Type κ} → Result T → (T → Result U) → Result U
err code >>= next = err code
ok found >>= next = next found

-- The two steps of a chain that succeeds.
pub >>=-eq-ok {ℓ κ} :
    {T : Type ℓ} {U : Type κ} (first : Result T) (next : T → Result U) {u : U}
    → (first >>= next) ≡ ok u
    → (t : T) × (first ≡ ok t) × (next t ≡ ok u)
>>=-eq-ok (err code) next e = cc
>>=-eq-ok (ok t) next e = (t, refl, e)

-- A chain may be cut anywhere.
pub >>=-after {ℓ κ μ} :
    {A : Type ℓ} {B : Type κ} {C : Type μ} (m : Result A) (f : A → Result B) (g : B → Result C)
    {b : B}
    → (m >>= f) ≡ ok b
    → (m >>= λ a. f a >>= g) ≡ g b
>>=-after (err x) f g e = cc
>>=-after (ok a) f g e = rw e
