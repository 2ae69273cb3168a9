-- ===== src/Prelude/Results.antt =====
-- How a call can end without a value. `abort` is NS_ABORT_* or NS_FATAL_ERROR, `verify` BOOST_VERIFY,
-- `assertion` NS_ASSERT or BOOST_ASSERT, `out_of_range` the exception of `at`, `malformed` that of a
-- decoder, `null_pointer` a call on one; `no_fuel` belongs to the model alone: a loop was given too little fuel.
use mathlib.Core.Path.{◌≡◌, refl, subst}
use mathlib.Core.Logic.{◌⊎◌, inl, inr}
use mathlib.Core.Option.{Option, none, some}
use mathlib.Core.Bool.{Bool, true, false}

pub data Error : Type 0 where
  abort verify assertion out_of_range malformed null_pointer no_fuel : Error

pub data Result {ℓ} (A : Type ℓ) : Type ℓ where
  ok : A → Result A
  err : Error → Result A

abbrev pub or_fail {ℓ} : {A : Type ℓ} → Option A → Error → Result A
or_fail none e = err e
or_fail (some a) e = ok a

-- The check of a condition, and the error if it fails.
abbrev pub guard : Bool → Error → Result (Unit {0})
guard false failure = err failure
guard true failure = ok tt

infixl 5 ◌>>=◌
abbrev pub ◌>>=◌ {ℓ κ} : {A : Type ℓ} {B : Type κ} → Result A → (A → Result B) → Result B
err failure >>= next = err failure
ok value >>= next = next value

infixl 5 ◌>>◌
abbrev pub ◌>>◌ {κ} : {B : Type κ} → Result (Unit {0}) → Result B → Result B
check >> next = check >>= λ _. next

-- A chain that returns has a first call that returns.
module _ {ℓ κ} {V : Type ℓ} {W : Type κ} where
  pub >>=-eq-ok :
      (call : Result V) (next : V → Result W) {b : W}
      → (call >>= next) ≡ ok b
      → (v : V) × (call ≡ ok v) × (next v ≡ ok b)
  >>=-eq-ok (err failure) next returned = cc
  >>=-eq-ok (ok v) next returned = (v, refl, returned)

pub guard-eq-ok : (b : Bool) (e : Error) {u : Unit {0}} → guard b e ≡ ok u → b ≡ true
guard-eq-ok true e h = refl
guard-eq-ok false e h = cc

pub Result-cases {ℓ} :
    {A : Type ℓ} (r : Result A) → ((a : A) × (r ≡ ok a)) ⊎ ((e : Error) × (r ≡ err e))
Result-cases (ok a) = inl (a, refl)
Result-cases (err e) = inr (e, refl)

-- `Ends r P`: the call does not run out of fuel, and a value that it returns satisfies `P`. It may
-- stop in a way that the source has.
abbrev pub IsStop : Error → Type 0
IsStop abort = Unit
IsStop verify = Unit
IsStop assertion = Unit
IsStop out_of_range = Unit
IsStop malformed = Unit
IsStop null_pointer = Unit
IsStop no_fuel = ⊥

pub data Ends {ℓ} {A : Type ℓ} (P : A → Type 0) : Result A → Type ℓ where
  returns : {a : A} → P a → Ends P (ok a)
  stops : {e : Error} → IsStop e → Ends P (err e)

pub Ends-bind {ℓ κ} :
    {A : Type ℓ} {B : Type κ} (Q : A → Type 0) {P : B → Type 0} {m : Result A} {f : A → Result B}
    → Ends Q m
    → ((a : A) → Q a → Ends P (f a))
    → Ends P (m >>= f)
Ends-bind Q (returns h) k = k _ h
Ends-bind Q (stops h) k = stops h

-- The same, with the equation of the first call.
pub Ends-bind_eq {ℓ κ} :
    {A : Type ℓ} {B : Type κ} {Q : A → Type 0} {P : B → Type 0} {m : Result A} {f : A → Result B}
    → Ends Q m
    → ((a : A) → m ≡ ok a → Ends P (f a))
    → Ends P (m >>= f)
Ends-bind_eq (returns h) k = k _ refl
Ends-bind_eq (stops h) k = stops h

pub Ends-guard {ℓ} :
    {B : Type ℓ} {P : B → Type 0} (b : Bool) (e : Error) {k : Result B}
    → IsStop e
    → (b ≡ true → Ends P k)
    → Ends P (guard b e >> k)
Ends-guard true e s h = h refl
Ends-guard false e s h = stops s

pub Ends-eq-ok {ℓ} :
    {A : Type ℓ} {P : A → Type 0} {r : Result A} {a : A} → Ends P r → r ≡ ok a → P a
Ends-eq-ok {P} (returns h) e = subst P (cc) h
Ends-eq-ok (stops h) e = cc

pub Ends-map {ℓ} :
    {A : Type ℓ} {Q P : A → Type 0} {r : Result A} → Ends Q r → ((a : A) → Q a → P a) → Ends P r
Ends-map (returns h) k = returns (k _ h)
Ends-map (stops h) k = stops h

pub Ends-or_fail {ℓ} :
    {A : Type ℓ} (o : Option A) (e : Error) → IsStop e → Ends (λ _. Unit {0}) (or_fail o e)
Ends-or_fail none e s = stops s
Ends-or_fail (some a) e s = returns tt

pub or_fail-some {ℓ} :
    {A : Type ℓ} (o : Option A) (e : Error) (a : A) → or_fail o e ≡ ok a → o ≡ some a
or_fail-some none e a h = cc
or_fail-some (some b) e a h = cc

-- What follows from the equation of a call, for a call that ends.
pub Ends-from_eq {ℓ} :
    {A : Type ℓ} {Q P : A → Type 0} {r : Result A}
    → Ends Q r
    → ((a : A) → r ≡ ok a → P a)
    → Ends P r
Ends-from_eq (returns h) k = returns (k _ refl)
Ends-from_eq (stops h) k = stops h

pub Ends-with_eq :
    {A : Type 0} {P : A → Type 0} {r : Result A} → Ends P r → Ends (λ a. (r ≡ ok a) × P a) r
Ends-with_eq (returns h) = returns (refl, h)
Ends-with_eq (stops h) = stops h

-- Chains with the same first call.
module _ {ℓ κ} {A : Type ℓ} {B : Type κ} where
  pub >>=_cong : (r : Result A) {f g : A → Result B} → ((a : A) → f a ≡ g a) → (r >>= f) ≡ (r >>= g)
  >>=_cong (ok a) h = h a
  >>=_cong (err e) h = refl

pub >>=_assoc {ℓ κ ι} :
    {A : Type ℓ} {B : Type κ} {C : Type ι} (r : Result A) (f : A → Result B) (g : B → Result C)
    → ((r >>= f) >>= g) ≡ (r >>= λ a. f a >>= g)
>>=_assoc (ok a) f g = refl
>>=_assoc (err e) f g = refl

pub >>=_one {ℓ} : {A : Type ℓ} (r : Result A) → r ≡ (r >>= λ a. ok a)
>>=_one (ok a) = refl
>>=_one (err e) = refl

-- The value, without the way in which a call failed.
abbrev pub returned {ℓ} : {A : Type ℓ} → Result A → Option A
returned (ok a) = some a
returned (err e) = none

-- A value that the call returns satisfies `P`, whether or not it returns one.
abbrev pub Returns {ℓ} : {A : Type ℓ} → (A → Type 0) → Result A → Type ℓ
Returns P r = (a : _) → r ≡ ok a → P a

pub Returns-bind {ℓ κ} :
    {A : Type ℓ} {B : Type κ} (Q : A → Type 0) {P : B → Type 0} (m : Result A) {f : A → Result B}
    → Returns Q m
    → ((a : A) → Q a → Returns P (f a))
    → Returns P (m >>= f)
Returns-bind Q (ok v) h k = k v (h v refl)
Returns-bind Q (err x) h k = λ b e. cc

pub Returns-guard {ℓ} :
    {B : Type ℓ} {P : B → Type 0} (b : Bool) (e : Error) {k : Result B}
    → Returns P k
    → Returns P (guard b e >> k)
Returns-guard true e h = h
Returns-guard false e h = λ b q. cc

pub Returns-ok {ℓ} : {A : Type ℓ} (P : A → Type 0) {a : A} → P a → Returns P (ok a)
Returns-ok P h b e = subst P (cc) h
