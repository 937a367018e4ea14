-- ===== src/Hash.antt =====
-- `simbus_generate_uid_hash` of dse/network/encoder.c: the 32-bit FNV-1a hash by which the engine
-- notices that a message has changed.
pub mod Xor
pub mod Change
use Prim.Native.Nat.{bit_xor}
use dse_network.Prelude.{ℕ, ◌*◌, ◌%◌, ◌^◌, List, [], ◌∷◌, take}

-- One round of the loop: `h ^ key[i]`, times the FNV prime, cut to `uint32_t`.
unfoldable pub hash_byte : ℕ → ℕ → ℕ
hash_byte h b = bit_xor h b * 16777619 % 2 ^ 32

unfoldable pub hash_loop : ℕ → List ℕ → ℕ
hash_loop h [] = h
hash_loop h (b ∷ bs) = hash_loop (hash_byte h b) bs

-- The hash of the first `len` bytes at `key`, where there are as many: the parser allocates eight
-- times as many bytes as each length says.
unfoldable pub simbus_generate_uid_hash : List ℕ → ℕ → ℕ
unfolding hash_loop hash_byte
simbus_generate_uid_hash key len = hash_loop 2166136261 (take len key)
