-- ===== src/Prelude/Running.antt =====
-- How a call of the C code ends: it returns a value, it ends the process by `log_fatal`, it makes
-- an access that C leaves undefined (a NULL function pointer, a NULL string, an index past an
-- allocation), or it recurs without end, which the model shows by running out of fuel.
use mathlib.Core.Path.{ap, ◌∙◌, ◌≡◌, refl}
use mathlib.Core.Option.{Option, none, some}

pub data Outcome {ℓ} (A : Type ℓ) : Type ℓ where
  ok : A → Outcome A
  fatal fault out_of_fuel : Outcome A

infixl 5 ◌>>=◌
abbrev pub ◌>>=◌ {ℓ κ} : {A : Type ℓ} {B : Type κ} → Outcome A → (A → Outcome B) → Outcome B
ok a >>= f = f a
fatal >>= f = fatal
fault >>= f = fault
out_of_fuel >>= f = out_of_fuel

-- A pointer that the code follows with no test for NULL.
abbrev pub deref {ℓ} : {A : Type ℓ} → Option A → Outcome A
deref none = fault
deref (some a) = ok a

-- A call that returned went through its first part: a rule with the intermediate value as a variable.
pub >>=-elim {ℓ κ μ} :
    {A : Type ℓ} {B : Type κ} {P : Type μ} (first : Outcome A) (next : A → Outcome B) {y : B}
    → (first >>= next) ≡ ok y
    → ((x : A) → first ≡ ok x → next x ≡ ok y → P)
    → P
>>=-elim (ok x) next e use_parts = use_parts x refl e
>>=-elim fatal next e use_parts = absurd (cc)
>>=-elim fault next e use_parts = absurd (cc)
>>=-elim out_of_fuel next e use_parts = absurd (cc)

-- The same parts as a tuple.
pub >>=-eq-ok {κ ℓ} :
    {A : Type κ} {B : Type ℓ} (first : Outcome A) (next : A → Outcome B) {y : B}
    → (first >>= next) ≡ ok y
    → (x : A) × (first ≡ ok x) × (next x ≡ ok y)
>>=-eq-ok first next e = >>=-elim first next e λ x ran rest. (x, ran, rest)

pub deref-eq-ok {ℓ} : {A : Type ℓ} (o : Option A) {a : A} → deref o ≡ ok a → o ≡ some a
deref-eq-ok none e = cc
deref-eq-ok (some a) e = cc

-- A call whose first part returns goes on with the value.
pub goes_on {ℓ κ} :
    {A : Type ℓ} {B : Type κ} {first : Outcome A} {x : A} {r : Outcome B} (next : A → Outcome B)
    → first ≡ ok x
    → next x ≡ r
    → (first >>= next) ≡ r
goes_on next ran rest = ap (λ o. o >>= next) ran ∙ rest

pub deref_there {ℓ} : {A : Type ℓ} {o : Option A} {a : A} → o ≡ some a → deref o ≡ ok a
deref_there there = ap deref there

pub stops {ℓ κ} :
    {A : Type ℓ} {B : Type κ} {first : Outcome A} (next : A → Outcome B)
    → first ≡ out_of_fuel
    → (first >>= next) ≡ out_of_fuel
stops next ended = ap (λ o. o >>= next) ended
