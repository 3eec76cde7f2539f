-- ===== src/Prelude/Errors.antt =====
-- What a call of the C program can do besides returning: each kind of undefined behaviour or
-- abort that the models distinguish is an error, and so is a loop that has used up its fuel.
use mathlib.Core.Path.{◌≡◌, refl}
use mathlib.Core.Bool.{Bool, true, false}
use mathlib.Core.Option.{Option, none, some}

-- `out_of_bounds`: an access outside a block; `uninitialized`: a read of a slot that nothing was
-- written to; `null_pointer`: a null pointer followed; `assertion`: a failed `assert`; `exited`: a
-- call of `exit`; `no_progress`: the fuel of a loop ran out.
pub data Fault : Type 0 where
  out_of_bounds uninitialized null_pointer assertion exited no_progress : Fault

pub data Result {ℓ} (A : Type ℓ) : Type ℓ where
  ok : A → Result A
  err : Fault → Result A

-- A null or missing value where the program goes on as if there were one.
abbrev pub from_option {ℓ} : {A : Type ℓ} → Option A → Fault → Result A
from_option none fault = err fault
from_option (some x) fault = ok x

infixl 5 ◌>>=◌ ◌>>◌
-- The next step runs on what the first one returned; a fault ends the program.
abbrev pub ◌>>=◌ {κ ℓ} : {X : Type κ} {Y : Type ℓ} → Result X → (X → Result Y) → Result Y
err fault >>= next = err fault
ok x >>= next = next x

-- `assert(b)`, and any other test that must hold for the next step to be defined.
abbrev pub guard : Bool → Fault → Result (Unit {0})
guard b fault = elim b [ false ↦ err fault | true ↦ ok tt ]

abbrev pub ◌>>◌ {κ} : {Y : Type κ} → Result (Unit {0}) → Result Y → Result Y
first >> second = first >>= λ _. second

-- Three steps may be read in either way.
pub >>=_assoc {κ ℓ ι} :
    {X : Type κ} {Y : Type ℓ} {Z : Type ι} (m : Result X) (f : X → Result Y) (g : Y → Result Z)
    → ((m >>= f) >>= g) ≡ (m >>= λ x. f x >>= g)
>>=_assoc (ok x) f g = refl
>>=_assoc (err fault) f g = refl

-- Steps that agree on every result may stand for one another.
pub >>=_cong {κ ℓ} :
    {X : Type κ} {Y : Type ℓ} (m : Result X) {f g : X → Result Y}
    → ((x : X) → f x ≡ g x)
    → (m >>= f) ≡ (m >>= g)
>>=_cong (ok x) h = h x
>>=_cong (err fault) h = refl
