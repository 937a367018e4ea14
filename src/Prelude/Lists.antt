-- ===== src/Prelude/Lists.antt =====
-- Lists measured and indexed by native numbers, under the library's names.
use Prim.Native.Nat.{ℕ, zero, suc, ◌<◌}
use mathlib.Core.Path.{subst, sym, ap₂, ◌∙◌, ◌≡◌, refl, ap}
use mathlib.Core.Logic.{◌≢◌}
use mathlib.Core.List.{List, [], ◌∷◌, map}
use mathlib.Core.Option.{some-injective, Option, none, some}
use native.Mathlib.Omega.{arith}

module _ {ℓ} {A : Type ℓ} where
  abbrev pub length : List A → ℕ
  length [] = 0
  length (x ∷ xs) = suc (length xs)

  abbrev pub get_elem? : List A → ℕ → Option A
  get_elem? [] i = none
  get_elem? (x ∷ xs) zero = some x
  get_elem? (x ∷ xs) (suc i) = get_elem? xs i

  abbrev pub get_or : List A → ℕ → A → A
  get_or [] i d = d
  get_or (x ∷ xs) zero d = x
  get_or (x ∷ xs) (suc i) d = get_or xs i d

  -- A write out of bounds changes nothing.
  abbrev pub set : List A → ℕ → A → List A
  set [] i v = []
  set (x ∷ xs) zero v = v ∷ xs
  set (x ∷ xs) (suc i) v = x ∷ set xs i v

  abbrev pub take : ℕ → List A → List A
  take zero xs = []
  take (suc n) [] = []
  take (suc n) (x ∷ xs) = x ∷ take n xs

  abbrev pub drop : ℕ → List A → List A
  drop zero xs = xs
  drop (suc n) [] = []
  drop (suc n) (x ∷ xs) = drop n xs

  abbrev pub replicate : ℕ → A → List A
  replicate zero a = []
  replicate (suc n) a = a ∷ replicate n a

module _ {ℓ} {A : Type ℓ} where
  pub length-set : (xs : List A) (i : ℕ) (v : A) → length (set xs i v) ≡ length xs
  length-set [] i v = refl
  length-set (x ∷ xs) zero v = refl
  length-set (x ∷ xs) (suc i) v = ap suc (length-set xs i v)

  pub get_elem?-set_self :
      (xs : List A) (i : ℕ) (v : A) → i < length xs → get_elem? (set xs i v) i ≡ some v
  get_elem?-set_self [] i v h = elim h [ ]
  get_elem?-set_self (x ∷ xs) zero v h = refl
  get_elem?-set_self (x ∷ xs) (suc i) v h = get_elem?-set_self xs i v (omega arith)

  pub get_elem?-set_ne :
      (xs : List A) (i j : ℕ) (v : A) → i ≢ j → get_elem? (set xs i v) j ≡ get_elem? xs j
  get_elem?-set_ne [] i j v h = refl
  get_elem?-set_ne (x ∷ xs) zero zero v h = absurd (h refl)
  get_elem?-set_ne (x ∷ xs) zero (suc j) v h = refl
  get_elem?-set_ne (x ∷ xs) (suc i) zero v h = refl
  get_elem?-set_ne (x ∷ xs) (suc i) (suc j) v h = get_elem?-set_ne xs i j v (λ e. h (ap suc e))

  pub get_or-set_self :
      (xs : List A) (i : ℕ) (v d : A) → i < length xs → get_or (set xs i v) i d ≡ v
  get_or-set_self [] i v d h = elim h [ ]
  get_or-set_self (x ∷ xs) zero v d h = refl
  get_or-set_self (x ∷ xs) (suc i) v d h = get_or-set_self xs i v d (omega arith)

  pub get_or-set_ne :
      (xs : List A) (i j : ℕ) (v d : A) → i ≢ j → get_or (set xs i v) j d ≡ get_or xs j d
  get_or-set_ne [] i j v d h = refl
  get_or-set_ne (x ∷ xs) zero zero v d h = absurd (h refl)
  get_or-set_ne (x ∷ xs) zero (suc j) v d h = refl
  get_or-set_ne (x ∷ xs) (suc i) zero v d h = refl
  get_or-set_ne (x ∷ xs) (suc i) (suc j) v d h = get_or-set_ne xs i j v d (λ e. h (ap suc e))

  pub lt-length_of_get : (xs : List A) (i : ℕ) {a : A} → get_elem? xs i ≡ some a → i < length xs
  lt-length_of_get [] i e = cc
  lt-length_of_get (x ∷ xs) zero e = omega arith
  lt-length_of_get (x ∷ xs) (suc i) e = omega (arith, lt-length_of_get xs i e)

pub length-replicate {ℓ} : {A : Type ℓ} (n : ℕ) (a : A) → length (replicate n a) ≡ n
length-replicate zero a = refl
length-replicate (suc n) a = ap suc (length-replicate n a)

-- What a mapped list has at an index comes from the list.
pub get_elem?-map {ℓ κ} :
    {A : Type ℓ} {B : Type κ} (f : A → B) (xs : List A) (i : ℕ) {b : B}
    → get_elem? (map f xs) i ≡ some b
    → (a : A) × (get_elem? xs i ≡ some a) × (f a ≡ b)
get_elem?-map f [] i e = absurd (cc)
get_elem?-map f (x ∷ xs) zero e = (x, refl, some-injective _ _ e)
get_elem?-map f (x ∷ xs) (suc i) e = get_elem?-map f xs i e

pub map_at {ℓ κ} :
    {A : Type ℓ} {B : Type κ} (f : A → B) (xs : List A) (i : ℕ) {a : A}
    → get_elem? xs i ≡ some a
    → get_elem? (map f xs) i ≡ some (f a)
map_at f [] i e = absurd (cc)
map_at f (x ∷ xs) zero e = ap some (ap f (some-injective _ _ e))
map_at f (x ∷ xs) (suc i) e = map_at f xs i e

-- A write that the map does not see.
pub map-set {ℓ κ} :
    {A : Type ℓ} {B : Type κ} (f : A → B) (xs : List A) (i : ℕ) {a a' : A}
    → get_elem? xs i ≡ some a
    → f a' ≡ f a
    → map f (set xs i a') ≡ map f xs
map-set f [] i e r = refl
map-set f (x ∷ xs) zero e r = ap₂ ◌∷◌ (r ∙ ap f (sym (some-injective _ _ e))) refl
map-set f (x ∷ xs) (suc i) e r = ap (◌∷◌ (f x)) (map-set f xs i e r)

-- Lists that agree through `f` agree through what is computed from `f`.
map_through {ℓ κ μ} :
    {A : Type ℓ} {B : Type κ} {C : Type μ} (f : A → B) (g : B → C) (h : A → C) (xs : List A)
    → ((x : A) → h x ≡ g (f x))
    → map h xs ≡ map g (map f xs)
map_through f g h [] e = refl
map_through f g h (x ∷ xs) e = ap₂ ◌∷◌ (e x) (map_through f g h xs e)

pub map_agrees {ℓ κ μ} :
    {A : Type ℓ} {B : Type κ} {C : Type μ} (f : A → B) (g : B → C) (h : A → C) (xs ys : List A)
    → ((x : A) → h x ≡ g (f x))
    → map f xs ≡ map f ys
    → map h xs ≡ map h ys
map_agrees f g h xs ys e same =
    map_through f g h xs e ∙ ap (map g) same ∙ sym (map_through f g h ys e)

pub length-map {ℓ κ} :
    {A : Type ℓ} {B : Type κ} (f : A → B) (xs : List A) → length (map f xs) ≡ length xs
length-map f [] = refl
length-map f (x ∷ xs) = ap suc (length-map f xs)

-- An index below the length leads to an element.
pub get-lt_length {ℓ} :
    {A : Type ℓ} (xs : List A) (i : ℕ) → i < length xs → (a : A) × (get_elem? xs i ≡ some a)
get-lt_length [] i h = elim h [ ]
get-lt_length (x ∷ xs) zero h = (x, refl)
get-lt_length (x ∷ xs) (suc i) h = get-lt_length xs i (omega arith)

abbrev pub IsBytes : List ℕ → Type 0
IsBytes [] = Unit {0}
IsBytes (b ∷ bs) = (b < 256) × IsBytes bs

pub get_or-lt : (xs : List ℕ) (i : ℕ) → IsBytes xs → get_or xs i 0 < 256
get_or-lt [] i h = omega arith
get_or-lt (x ∷ xs) zero h = h.0
get_or-lt (x ∷ xs) (suc i) h = get_or-lt xs i h.1

pub set-IsBytes : (xs : List ℕ) (i v : ℕ) → v < 256 → IsBytes xs → IsBytes (set xs i v)
set-IsBytes [] i v p h = tt
set-IsBytes (x ∷ xs) zero v p h = (p, h.1)
set-IsBytes (x ∷ xs) (suc i) v p h = (h.0, set-IsBytes xs i v p h.1)

pub get_elem?-eq-get_or :
    (xs : List ℕ) (i : ℕ) → i < length xs → get_elem? xs i ≡ some (get_or xs i 0)
get_elem?-eq-get_or [] i h = elim h [ ]
get_elem?-eq-get_or (x ∷ xs) zero h = refl
get_elem?-eq-get_or (x ∷ xs) (suc i) h = get_elem?-eq-get_or xs i (omega arith)

abbrev pub All {ℓ κ} : {A : Type ℓ} → (A → Type κ) → List A → Type κ
All P [] = Unit
All P (x ∷ xs) = P x × All P xs

pub All-get {ℓ κ} :
    {A : Type ℓ} (P : A → Type κ) (xs : List A) (i : ℕ) {a : A}
    → All P xs
    → get_elem? xs i ≡ some a
    → P a
All-get P [] i h e = absurd (cc)
All-get P (x ∷ xs) zero h e = subst P (some-injective _ _ e) h.0
All-get P (x ∷ xs) (suc i) h e = All-get P xs i h.1 e

pub All-map {ℓ κ μ ν} :
    {A : Type ℓ} {B : Type κ} (P : A → Type μ) (Q : B → Type ν) (f : A → B) (xs : List A)
    → ((x : A) → P x → Q (f x))
    → All P xs
    → All Q (map f xs)
All-map P Q f [] h all = tt
All-map P Q f (x ∷ xs) h all = (h x all.0, All-map P Q f xs h all.1)

pub All-of_map {ℓ κ μ ν} :
    {A : Type ℓ} {B : Type κ} (P : A → Type μ) (Q : B → Type ν) (f : A → B) (xs : List A)
    → ((x : A) → Q (f x) → P x)
    → All Q (map f xs)
    → All P xs
All-of_map P Q f [] h all = tt
All-of_map P Q f (x ∷ xs) h all = (h x all.0, All-of_map P Q f xs h all.1)

pub All-of_get {ℓ κ} :
    {A : Type ℓ} (P : A → Type κ) (xs : List A)
    → ((k : ℕ) (x : A) → get_elem? xs k ≡ some x → P x)
    → All P xs
All-of_get P [] each = tt
All-of_get P (x ∷ xs) each = (each 0 x refl, All-of_get P xs λ k y there. each (suc k) y there)

-- A predicate on what `f` shows holds of lists that agree through `f`.
pub All-agree {ℓ κ μ} :
    {A : Type ℓ} {B : Type κ} (Q : B → Type μ) (f : A → B) (xs ys : List A)
    → map f ys ≡ map f xs
    → All (λ x. Q (f x)) xs
    → All (λ x. Q (f x)) ys
All-agree Q f xs ys same all =
    All-of_map (λ x. Q (f x)) Q f ys (λ x h. h)
      (subst (All Q) (sym same) (All-map (λ x. Q (f x)) Q f xs (λ x h. h) all))

pub All-set {ℓ κ} :
    {A : Type ℓ} (P : A → Type κ) (xs : List A) (i : ℕ) {a : A}
    → All P xs
    → P a
    → All P (set xs i a)
All-set P [] i all h = tt
All-set P (x ∷ xs) zero all h = (h, all.1)
All-set P (x ∷ xs) (suc i) all h = (all.0, All-set P xs i all.1 h)
