-- ===== src/Prelude/Results.antt =====
-- The sentinel errors of errors.go, and the results of the functions that return one.
use mathlib.Core.Bool.{Bool, true, false}
use mathlib.Core.Path.{◌≡◌, refl}

-- An error that wraps a sentinel by `%w` is that sentinel: the text is left out.
pub data Error : Type 0 where
  invalid_configuration : Error
  invalid_frame : Error
  frame_too_large : Error
  connection_closed : Error
  worker_queue_full : Error
  server_running : Error
  server_stopping : Error
  server_stopped : Error
  shutdown_timeout : Error

-- `panic` is a run-time panic (an index out of range); `stuck` is no Go value: it marks a loop
-- whose fuel ran out.
pub data Result {ℓ} (V : Type ℓ) : Type ℓ where
  panic stuck : Result V
  err : Error → Result V
  ok : V → Result V

infixl 5 ◌>>=◌ ◌>>◌
abbrev pub ◌>>=◌ {ℓ κ} : {V : Type ℓ} {W : Type κ} → Result V → (V → Result W) → Result W
panic >>= k = panic
stuck >>= k = stuck
err cause >>= k = err cause
ok v >>= k = k v

abbrev pub ◌>>◌ {ℓ} : {W : Type ℓ} → Result (Unit {0}) → Result W → Result W
check >> rest = check >>= λ _. rest

-- `if c { return e }`
abbrev pub fail_if : Bool → Error → Result (Unit {0})
fail_if true cause = err cause
fail_if false cause = ok tt

-- The call came back with a value or with an error.
abbrev pub Returned {ℓ} : {V : Type ℓ} → Result V → Type 0
Returned panic = ⊥
Returned stuck = ⊥
Returned (err _) = Unit
Returned (ok _) = Unit

-- A chain that succeeds has a first part that succeeds.
pub >>=-eq-ok {ℓ κ} :
    {V : Type ℓ} {W : Type κ} (first : Result V) (k : V → Result W) {w : W}
    → (first >>= k) ≡ ok w
    → (v : V) × (first ≡ ok v) × (k v ≡ ok w)
>>=-eq-ok panic k e = cc
>>=-eq-ok stuck k e = cc
>>=-eq-ok (err cause) k e = cc
>>=-eq-ok (ok v) k e = (v, refl, e)
