-- ===== src/Prelude/Results.antt =====
-- The outcome of a fallible step: the C++ `bool` result with its `error` argument.
use Prim.Native.String.{String}
use mathlib.Core.Path.{◌≡◌, refl, subst}
use mathlib.Core.Option.{Option, none, some}
use mathlib.Core.Bool.{Bool, true, false}
use mcp_observatory.Prelude.Tests.{if◌then◌else◌}

-- `err` carries the text left in `error`; `out_of_fuel` has no counterpart in the program.
pub data Outcome {ℓ} (A : Type ℓ) : Type ℓ where
  ok : A → Outcome A
  err : String → Outcome A
  out_of_fuel : Outcome A

-- The C++ returns as soon as a step has failed.
infixl 5 ◌>>=◌ ◌>>◌
abbrev pub ◌>>=◌ {ℓ κ} : {A : Type ℓ} {B : Type κ} → Outcome A → (A → Outcome B) → Outcome B
out_of_fuel >>= next = out_of_fuel
err message >>= next = err message
ok value >>= next = next value

abbrev pub ◌>>◌ {ℓ} : {B : Type ℓ} → Outcome (Unit {0}) → Outcome B → Outcome B
out_of_fuel >> rest = out_of_fuel
err message >> rest = err message
ok tt >> rest = rest

-- `if (!test) return fail(error, message);`
abbrev pub require : Bool → String → Outcome (Unit {0})
require true e = ok tt
require false e = err e

pub require-eq-ok : (b : Bool) (e : String) {u : Unit {0}} → require b e ≡ ok u → b ≡ true
require-eq-ok true e h = refl
require-eq-ok false e h = cc

-- A chain that succeeds has a first step that succeeds.
pub >>=-eq-ok {ℓ κ} :
    {A : Type ℓ} {B : Type κ} (step : Outcome A) (next : A → Outcome B) {result : B}
    → (step >>= next) ≡ ok result
    → (value : A) × (step ≡ ok value) × (next value ≡ ok result)
>>=-eq-ok out_of_fuel next h = cc
>>=-eq-ok (err message) next h = cc
>>=-eq-ok (ok value) next h = (value, refl, h)

-- The run kept within its fuel, and `P` holds of its value if it has one.
pub data Ensures {ℓ κ} {A : Type ℓ} (P : A → Type κ) : Outcome A → Type (ℓ ⊔ κ) where
  holds : {a : A} → P a → Ensures P (ok a)
  rejected : {e : String} → Ensures P (err e)

module _ {ℓ κ} {A : Type ℓ} {P : A → Type κ} where
  pub Ensures-ok : {r : Outcome A} {a : A} → Ensures P r → r ≡ ok a → P a
  Ensures-ok (holds h) e = subst P (cc) h
  Ensures-ok rejected e = cc

  pub Ensures-ne-out_of_fuel : {r : Outcome A} → Ensures P r → r ≡ out_of_fuel → ⊥
  Ensures-ne-out_of_fuel (holds h) e = cc
  Ensures-ne-out_of_fuel rejected e = cc

  pub Ensures-bind {ℓ' κ'} :
      {B : Type ℓ'} {Q : B → Type κ'} {r : Outcome A} {f : A → Outcome B}
      → Ensures P r
      → ((a : A) → P a → Ensures Q (f a))
      → Ensures Q (r >>= f)
  Ensures-bind (holds {a} h) k = k a h
  Ensures-bind rejected k = rejected

  pub Ensures-weaken {κ'} :
      {Q : A → Type κ'} {r : Outcome A} → Ensures P r → ((a : A) → P a → Q a) → Ensures Q r
  Ensures-weaken (holds {a} h) k = holds (k a h)
  Ensures-weaken rejected k = rejected

  pub Ensures-if :
      (b : Bool) {x y : Outcome A} → Ensures P x → Ensures P y → Ensures P (if b then x else y)
  Ensures-if true hx hy = hx
  Ensures-if false hx hy = hy

  -- the rest of a chain may use that the test passed
  pub Ensures-require :
      (b : Bool) (e : String) {r : Outcome A}
      → (b ≡ true → Ensures P r)
      → Ensures P (require b e >> r)
  Ensures-require true e h = h refl
  Ensures-require false e h = rejected

  -- and each branch of a test, what the test says
  pub Ensures-branch :
      (b : Bool) {x y : Outcome A}
      → (b ≡ true → Ensures P x)
      → (b ≡ false → Ensures P y)
      → Ensures P (if b then x else y)
  Ensures-branch true hx hy = hx refl
  Ensures-branch false hx hy = hy refl

pub Ensures-both {ℓ κ κ'} :
    {A : Type ℓ} {P : A → Type κ} {Q : A → Type κ'} {r : Outcome A}
    → Ensures P r
    → Ensures Q r
    → Ensures (λ a. P a × Q a) r
Ensures-both (holds p) q = holds (p, Ensures-ok q refl)
Ensures-both rejected q = rejected

-- a test that ends a chain
pub Ensures-test {κ} :
    {P : Type κ} (b : Bool) (e : String)
    → (b ≡ true → P)
    → Ensures (λ (u : Unit {0}). P) (require b e)
Ensures-test true e h = holds (h refl)
Ensures-test false e h = rejected

pub Ensures-then {ℓ κ κ'} :
    {B : Type ℓ} {P : Unit {0} → Type κ} {Q : B → Type κ'} {step : Outcome (Unit {0})}
    {rest : Outcome B}
    → Ensures P step
    → (P tt → Ensures Q rest)
    → Ensures Q (step >> rest)
Ensures-then (holds {a} h) k = k h
Ensures-then rejected k = rejected

-- what follows a run may use which run it was
pub Ensures-eq {ℓ κ} :
    {A : Type ℓ} {P : A → Type κ} {r : Outcome A} → Ensures P r → Ensures (λ a. r ≡ ok a) r
Ensures-eq (holds h) = holds refl
Ensures-eq rejected = rejected

-- what `P` says of a result, if there is one
abbrev pub OnSome {ℓ κ} : {A : Type ℓ} → (A → Type κ) → Option A → Type κ
OnSome P none = Unit
OnSome P (some a) = P a

pub OnSome-weaken {ℓ κ κ'} :
    {A : Type ℓ} {P : A → Type κ} {Q : A → Type κ'} (o : Option A)
    → ((a : A) → P a → Q a)
    → OnSome P o
    → OnSome Q o
OnSome-weaken none f h = tt
OnSome-weaken (some a) f h = f a h
