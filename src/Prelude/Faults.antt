-- ===== src/Prelude/Faults.antt =====
-- Code that can stop: a failed `assert`, an access outside an object, an exception of a container,
-- or a LOG_FATAL, which aborts. `Result` is a run of such code.
use mathlib.Core.Path.{◌≡◌, refl, ap}
use mathlib.Core.Bool.{Bool, true, false}
use simplev.Prelude.Tests.{if◌then◌else◌}

pub data Fault : Type 0 where
  assertion out_of_range length_error fatal : Fault

pub data Result {ℓ} (A : Type ℓ) : Type ℓ where
  err : Fault → Result A
  ok : A → Result A

-- What runs after a fault is not reached.
module _ {κ} {B : Type κ} where
  infixl 5 ◌>>=◌ ◌>>◌
  abbrev pub ◌>>=◌ {ℓ} : {A : Type ℓ} → Result A → (A → Result B) → Result B
  err fault >>= next = err fault
  ok value >>= next = next value

  abbrev pub ◌>>◌ : Result (Unit {0}) → Result B → Result B
  check >> next = check >>= (λ _. next)

  -- A run that ended well went through a value of its first part, whatever that part is.
  pub >>=-eq-ok {ℓ} :
      {A : Type ℓ} {result : B} (run : Result A) (next : A → Result B)
      → (run >>= next) ≡ ok result
      → (value : A) × (run ≡ ok value) × (next value ≡ ok result)
  >>=-eq-ok (err fault) next ended = cc
  >>=-eq-ok (ok value) next ended = (value, refl, ended)

-- A condition of the code, and what happens when it does not hold.
abbrev pub ensure : Bool → Fault → Result (Unit {0})
ensure holds fault = if holds then ok tt else err fault

-- `assert(b)`
abbrev pub assert : Bool → Result (Unit {0})
assert holds = ensure holds assertion

-- A check that holds changes nothing.
pub ensure-true {ℓ} :
    {B : Type ℓ} {b : Bool} (e : b ≡ true) (f : Fault) (m : Result B) → (ensure b f >> m) ≡ m
ensure-true e f m = ap (λ (t : Bool). ensure t f >> m) e

pub ensure-false {ℓ} :
    {B : Type ℓ} {b : Bool} (e : b ≡ false) (f : Fault) (m : Result B) → (ensure b f >> m) ≡ err f
ensure-false e f m = ap (λ (t : Bool). ensure t f >> m) e
