-- ===== src/Memory/Cells.antt =====
-- Reading back what was written, and leaving the rest of the buffer alone.
use native.Mathlib.Nat.{pow-suc}
use dse_network.Prelude.{
  ℕ, zero, suc, ◌+◌, ◌*◌, ◌/◌, ◌^◌, ◌≤◌, ◌<◌, ◌≡◌, refl, ap, ◌∙◌, ap₂, subst, ◌⊎◌, inl, inr, List,
  [], ◌∷◌, ok, arith, length, get_or, set, le→leb, length-set, get_or-set_self, get_or-set_ne,
}
use dse_network.Memory.{to_bytes, of_bytes, set_bytes, get_bytes, store, load}

length-to_bytes : (n x : ℕ) → length (to_bytes n x) ≡ n
unfolding to_bytes
length-to_bytes zero x = refl
length-to_bytes (suc n) x = ap suc (length-to_bytes n (x / 256))

pub length-set_bytes :
    (buf : List ℕ) (i : ℕ) (bs : List ℕ) → length (set_bytes buf i bs) ≡ length buf
unfolding set_bytes
length-set_bytes buf i [] = refl
length-set_bytes buf i (b ∷ bs) = length-set_bytes (set buf i b) (i + 1) bs ∙ length-set buf i b

get_or-set_bytes_below :
    (buf : List ℕ) (i j : ℕ) (bs : List ℕ)
    → j < i
    → get_or (set_bytes buf i bs) j 0 ≡ get_or buf j 0
unfolding set_bytes
get_or-set_bytes_below buf i j [] h = refl
get_or-set_bytes_below buf i j (b ∷ bs) h =
    get_or-set_bytes_below (set buf i b) (i + 1) j bs (omega arith)
    ∙ get_or-set_ne buf i j b 0 (omega arith)

get_or-set_bytes_above :
    (buf : List ℕ) (i j : ℕ) (bs : List ℕ)
    → i + length bs ≤ j
    → get_or (set_bytes buf i bs) j 0 ≡ get_or buf j 0
unfolding set_bytes
get_or-set_bytes_above buf i j [] h = refl
get_or-set_bytes_above buf i j (b ∷ bs) h =
    get_or-set_bytes_above (set buf i b) (i + 1) j bs (omega arith)
    ∙ get_or-set_ne buf i j b 0 (omega arith)

get_bytes-set_bytes :
    (buf : List ℕ) (i : ℕ) (bs : List ℕ)
    → i + length bs ≤ length buf
    → get_bytes (set_bytes buf i bs) i (length bs) ≡ bs
unfolding get_bytes set_bytes
get_bytes-set_bytes buf i [] h = refl
get_bytes-set_bytes buf i (b ∷ bs) h =
    ap₂ ◌∷◌
      (get_or-set_bytes_below (set buf i b) (i + 1) i bs (omega arith)
        ∙ get_or-set_self buf i b 0 (omega arith))
      (get_bytes-set_bytes (set buf i b) (i + 1) bs (omega (arith, length-set buf i b)))

-- Two stretches of memory have no byte in common.
abbrev pub Apart : ℕ → ℕ → ℕ → ℕ → Type 0
Apart i m j n = (i + m ≤ j) ⊎ (j + n ≤ i)

get_bytes-set_bytes-Apart :
    (buf : List ℕ) (i j n : ℕ) (bs : List ℕ)
    → Apart i (length bs) j n
    → get_bytes (set_bytes buf i bs) j n ≡ get_bytes buf j n
unfolding get_bytes
get_bytes-set_bytes-Apart buf i j zero bs h = refl
get_bytes-set_bytes-Apart buf i j (suc n) bs (inl h) =
    ap₂ ◌∷◌ (get_or-set_bytes_above buf i j bs h)
      (get_bytes-set_bytes-Apart buf i (j + 1) n bs (inl (omega arith)))
get_bytes-set_bytes-Apart buf i j (suc n) bs (inr h) =
    ap₂ ◌∷◌ (get_or-set_bytes_below buf i j bs (omega arith))
      (get_bytes-set_bytes-Apart buf i (j + 1) n bs (inr (omega arith)))

pub of_bytes-to_bytes : (n x : ℕ) → x < 256 ^ n → of_bytes (to_bytes n x) ≡ x
unfolding of_bytes to_bytes
of_bytes-to_bytes zero x h = omega arith
of_bytes-to_bytes (suc n) x h =
    let fits : x / 256 < 256 ^ n = omega (arith, pow-suc 256 n) in
    omega (arith, of_bytes-to_bytes n (x / 256) fits)

-- A value that was stored at an index in bounds is loaded back from there.
pub load-store :
    (n index x : ℕ) (buf : List ℕ)
    → x < 256 ^ n
    → index * n + n ≤ length buf
    → (store n index x buf ≡ ok (set_bytes buf (index * n) (to_bytes n x)))
      × (load n index (set_bytes buf (index * n) (to_bytes n x)) ≡ ok x)
unfolding store load
load-store n index x buf fits within = (
  rw (le→leb _ _ within),
  rw
      (
        length-set_bytes buf (index * n) (to_bytes n x),
        le→leb _ _ within,
        subst
            (λ m. get_bytes (set_bytes buf (index * n) (to_bytes n x)) (index * n) m ≡ to_bytes n x)
            (length-to_bytes n x) (get_bytes-set_bytes buf (index * n) (to_bytes n x) room),
        of_bytes-to_bytes n x fits,
      )
      refl,
)
  where
    room : index * n + length (to_bytes n x) ≤ length buf
    room = rw (length-to_bytes n x) within

-- A store into one cell changes no load from a cell that shares no byte with it.
pub load-store-Apart :
    (n i x m j : ℕ) (buf : List ℕ)
    → Apart (i * n) n (j * m) m
    → load m j (set_bytes buf (i * n) (to_bytes n x)) ≡ load m j buf
unfolding load
load-store-Apart n i x m j buf apart =
    rw
      (
        length-set_bytes buf (i * n) (to_bytes n x),
        get_bytes-set_bytes-Apart buf (i * n) (j * m) m (to_bytes n x)
            (rw (length-to_bytes n x) apart),
      )
      refl

-- What a store that ends normally leaves behind.
pub store-eq-ok :
    (n index x : ℕ) (buf : List ℕ) {buf' : List ℕ}
    → store n index x buf ≡ ok buf'
    → (index * n + n ≤ length buf) × (buf' ≡ set_bytes buf (index * n) (to_bytes n x))
unfolding store
store-eq-ok n index x buf e = ground arith
