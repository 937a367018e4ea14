-- ===== src/Memory.antt =====
-- The byte arrays that C code reads and writes through a cast pointer: the message buffers of
-- dse/network/engine.c and the payloads. A value of n bytes is its bit pattern, a number below
-- 256 ^ n, and lies in memory with its lowest byte first, as on the platforms of the project
-- (x86 and ARM Linux). A `float` or `double` is its pattern of 4 or 8 bytes.
pub mod Cells
use dse_network.Prelude.{
  ℕ, zero, suc, ◌+◌, ◌*◌, ◌/◌, ◌%◌, List, [], ◌∷◌, Outcome, ok, fault, ◌>>=◌, length, get_or, set,
  leb, if◌then◌else◌,
}

-- The bytes of a value, lowest first.
unfoldable pub to_bytes : ℕ → ℕ → List ℕ
to_bytes zero x = []
to_bytes (suc n) x = (x % 256) ∷ to_bytes n (x / 256)

unfoldable pub of_bytes : List ℕ → ℕ
of_bytes [] = 0
of_bytes (b ∷ bs) = b + 256 * of_bytes bs

unfoldable pub set_bytes : List ℕ → ℕ → List ℕ → List ℕ
set_bytes buf i [] = buf
set_bytes buf i (b ∷ bs) = set_bytes (set buf i b) (i + 1) bs

unfoldable pub get_bytes : List ℕ → ℕ → ℕ → List ℕ
get_bytes buf i zero = []
get_bytes buf i (suc n) = get_or buf i 0 ∷ get_bytes buf (i + 1) n

-- `((T*)buf)[index] = x` and the read of `((T*)buf)[index]`, with n = sizeof(T).
unfoldable pub store : ℕ → ℕ → ℕ → List ℕ → Outcome (List ℕ)
unfolding to_bytes set_bytes
store n index x buf =
    if leb (index * n + n) (length buf)
    then ok (set_bytes buf (index * n) (to_bytes n x))
    else fault

unfoldable pub load : ℕ → ℕ → List ℕ → Outcome ℕ
unfolding of_bytes get_bytes
load n index buf =
    if leb (index * n + n) (length buf) then ok (of_bytes (get_bytes buf (index * n) n)) else fault
