-- ===== src/Hash/Change.antt =====
-- A change of one byte always changes the hash: each round is injective in the running value and
-- in the byte.
use Prim.Native.Nat.{bit_xor}
use dse_network.Prelude.{
  ℕ, ◌-◌, ◌*◌, ◌%◌, ◌^◌, ◌<◌, ◌≡◌, ◌≢◌, refl, ap, List, [], ◌∷◌, ◌++◌, arith, IsBytes, length, take,
  suc, zero,
}
use dse_network.Hash.{hash_byte, hash_loop, simbus_generate_uid_hash}
use dse_network.Hash.Xor.{bit_xor_cancel_left, bit_xor_cancel_right, bit_xor-lt}

-- The FNV prime has an inverse modulo 2 ^ 32.
prime_inverse : (x : ℕ) → x < 2 ^ 32 → x * 16777619 % 2 ^ 32 * 899433627 % 2 ^ 32 ≡ x
prime_inverse x p = omega arith

prime_cancel :
    (x y : ℕ) → x < 2 ^ 32 → y < 2 ^ 32 → x * 16777619 % 2 ^ 32 ≡ y * 16777619 % 2 ^ 32 → x ≡ y
prime_cancel x y p q e =
    cc (prime_inverse x p, prime_inverse y q, ap (λ (t : ℕ). t * 899433627 % 2 ^ 32) e)

hash_byte-lt : (h b : ℕ) → hash_byte h b < 2 ^ 32
unfolding hash_byte
hash_byte-lt h b = omega arith

hash_byte_cancel_byte :
    (h a b : ℕ) → h < 2 ^ 32 → a < 256 → b < 256 → hash_byte h a ≡ hash_byte h b → a ≡ b
unfolding hash_byte
hash_byte_cancel_byte h a b p q r e = bit_xor_cancel_left h h a b (omega arith) (
    prime_cancel (bit_xor h a) (bit_xor h b) (bit_xor-lt 32 h a p (omega arith))
      (bit_xor-lt 32 h b p (omega arith)) e)

hash_byte_cancel_hash :
    (g h b : ℕ) → g < 2 ^ 32 → h < 2 ^ 32 → b < 256 → hash_byte g b ≡ hash_byte h b → g ≡ h
unfolding hash_byte
hash_byte_cancel_hash g h b p q r e =
    bit_xor_cancel_right (2 ^ 32) g h b (omega arith) (omega arith) (
      prime_cancel (bit_xor g b) (bit_xor h b) (bit_xor-lt 32 g b p (omega arith))
        (bit_xor-lt 32 h b q (omega arith)) e)

pub hash_loop-lt : (h : ℕ) (bs : List ℕ) → h < 2 ^ 32 → hash_loop h bs < 2 ^ 32
unfolding hash_loop
hash_loop-lt h [] p = p
hash_loop-lt h (b ∷ bs) p = hash_loop-lt (hash_byte h b) bs (hash_byte-lt h b)

hash_loop_cancel :
    (g h : ℕ) (bs : List ℕ)
    → g < 2 ^ 32
    → h < 2 ^ 32
    → IsBytes bs
    → hash_loop g bs ≡ hash_loop h bs
    → g ≡ h
unfolding hash_loop
hash_loop_cancel g h [] p q r e = e
hash_loop_cancel g h (b ∷ bs) p q r e = hash_byte_cancel_hash g h b p q r.0 (
    hash_loop_cancel (hash_byte g b) (hash_byte h b) bs (hash_byte-lt g b) (hash_byte-lt h b) r.1 e)

hash_loop_change :
    (h : ℕ) (xs : List ℕ) (a b : ℕ) (ys : List ℕ)
    → h < 2 ^ 32
    → a < 256
    → b < 256
    → IsBytes ys
    → hash_loop h (xs ++ a ∷ ys) ≡ hash_loop h (xs ++ b ∷ ys)
    → a ≡ b
unfolding hash_loop
hash_loop_change h [] a b ys p q r s e =
    hash_byte_cancel_byte h a b p q r (
      hash_loop_cancel (hash_byte h a) (hash_byte h b) ys (hash_byte-lt h a) (hash_byte-lt h b) s e)
hash_loop_change h (x ∷ xs) a b ys p q r s e =
    hash_loop_change (hash_byte h x) xs a b ys (hash_byte-lt h x) q r s e

take-append :
    (len : ℕ) (xs : List ℕ) (a : ℕ) (ys : List ℕ)
    → length xs < len
    → take len (xs ++ a ∷ ys) ≡ xs ++ a ∷ take (len - length xs - 1) ys
take-append zero xs a ys h = absurd (omega arith)
take-append (suc len) [] a ys h = let same : suc len - 0 - 1 ≡ len = omega arith in rw same refl
take-append (suc len) (x ∷ xs) a ys h =
    let same : suc len - suc (length xs) - 1 ≡ len - length xs - 1 = omega arith in
    rw same (ap (◌∷◌ x) (take-append len xs a ys (omega arith)))

take-IsBytes : (n : ℕ) (xs : List ℕ) → IsBytes xs → IsBytes (take n xs)
take-IsBytes zero xs h = tt
take-IsBytes (suc n) [] h = tt
take-IsBytes (suc n) (x ∷ xs) h = (h.0, take-IsBytes n xs h.1)

-- Two buffers of bytes that differ in exactly one byte, at an index below the hashed length, have
-- different hashes.
pub simbus_generate_uid_hash-ne :
    (xs : List ℕ) (a b : ℕ) (ys : List ℕ) (len : ℕ)
    → a < 256
    → b < 256
    → IsBytes ys
    → a ≢ b
    → length xs < len
    → simbus_generate_uid_hash (xs ++ a ∷ ys) len ≢ simbus_generate_uid_hash (xs ++ b ∷ ys) len
unfolding simbus_generate_uid_hash
simbus_generate_uid_hash-ne xs a b ys len p q r ne inside e = ne (
    hash_loop_change 2166136261 xs a b (take (len - length xs - 1) ys) (omega arith) p q
      (take-IsBytes _ ys r)
      (rw (← take-append len xs a ys inside, ← take-append len xs b ys inside) e))

-- The hash is a `uint32_t`.
pub simbus_generate_uid_hash-lt :
    (key : List ℕ) (len : ℕ) → simbus_generate_uid_hash key len < 2 ^ 32
unfolding simbus_generate_uid_hash
simbus_generate_uid_hash-lt key len = hash_loop-lt 2166136261 (take len key) (omega arith)
