-- ===== src/Engine/ToMessages/Store.antt =====
-- One signal through a message buffer: what was marshalled in comes back out, and no other cell is
-- touched.
use dse_network.Prelude.{
  ℕ, String, ◌+◌, ◌-◌, ◌*◌, ◌/◌, ◌^◌, ◌≤◌, ◌<◌, ◌≡◌, ◌≢◌, ◌↔◌, ◌⊎◌, ◌∙◌, sym, inl, inr, refl, true,
  some, List, ok, arith, length, set, lt→ltb,
}
use dse_network.Memory.{store, load, set_bytes, to_bytes}
use dse_network.Memory.Cells.{Apart, load-store, load-store-Apart}
use dse_network.Types.{Double, Codec, NetworkSignal, NetworkMessage}
use dse_network.Engine.Member.{
  Primitive, uint8, uint16, uint32, uint64, int8, int16, int32, int64, float, double, primitive,
  size_of, func_of, narrow,
}
use dse_network.Engine.ToMessages.{signal_to_message, store_encoded}
use dse_network.Engine.ToSignals.{message_to_signal, load_decoded}

-- A narrowed value fits its cell.
narrow-lt : (p : Primitive) (x : ℕ) → narrow p x < 256 ^ size_of p
unfolding narrow size_of
narrow-lt uint8 x = omega arith
narrow-lt uint16 x = omega arith
narrow-lt uint32 x = omega arith
narrow-lt uint64 x = omega arith
narrow-lt int8 x = omega arith
narrow-lt int16 x = omega arith
narrow-lt int32 x = omega arith
narrow-lt int64 x = ground arith
narrow-lt float x = omega arith
narrow-lt double x = omega arith

-- Every type but int64_t keeps a value that fits its cell.
pub narrow_keeps : (p : Primitive) (x : ℕ) → p ≢ int64 → x < 256 ^ size_of p → narrow p x ≡ x
unfolding narrow size_of
narrow_keeps uint8 x ne h = omega arith
narrow_keeps uint16 x ne h = omega arith
narrow_keeps uint32 x ne h = omega arith
narrow_keeps uint64 x ne h = omega arith
narrow_keeps int8 x ne h = omega arith
narrow_keeps int16 x ne h = omega arith
narrow_keeps int32 x ne h = omega arith
narrow_keeps int64 x ne h = absurd (ne refl)
narrow_keeps float x ne h = omega arith
narrow_keeps double x ne h = omega arith

-- An encoded int64_t survives exactly if it fits an int16_t: a pattern of a number from -2 ^ 15 up
-- to 2 ^ 15 - 1.
pub narrow_int64_iff :
    (x : ℕ) → x < 2 ^ 64 → (narrow int64 x ≡ x) ↔ ((x < 2 ^ 15) ⊎ (2 ^ 64 - 2 ^ 15 ≤ x))
unfolding narrow
narrow_int64_iff x h = ground arith

abbrev cell : Primitive → NetworkSignal → ℕ
cell p s = s.buffer_offset / size_of p

-- The struct member of a signal lies inside the buffer.
abbrev pub Inside : Primitive → NetworkSignal → NetworkMessage → Type 0
Inside p s m = cell p s * size_of p + size_of p ≤ length m.buffer

-- The message once the signal's cell was written.
abbrev written : Primitive → Codec → Double → NetworkSignal → NetworkMessage → NetworkMessage
written p codec v s m = record m {
  buffer =
      set_bytes m.buffer (cell p s * size_of p) (to_bytes (size_of p) (narrow p (codec.encode v)));
}

module _ (t : String) (p : Primitive) (codec : Codec) (v : Double) (s : NetworkSignal)
    (m : NetworkMessage) (typed : s.member_type ≡ some t) (known : primitive t ≡ some p)
    (loaded : func_of p s ≡ some codec) where
  signal_to_message-store_encoded : signal_to_message v s m ≡ store_encoded p v s m
  unfolding signal_to_message
  signal_to_message-store_encoded = ground arith

  message_to_signal-load_decoded :
      (m' : NetworkMessage) (index : ℕ) (vector : List Double)
      → message_to_signal s m' index vector ≡ load_decoded p s m' index vector
  unfolding message_to_signal
  message_to_signal-load_decoded m' index vector = ground arith

  module _ (inside : Inside p s m)
      (in_range : codec.is_in_range (narrow p (codec.encode v)) ≡ true) where
    store_encoded_lem : store_encoded p v s m ≡ ok (written p codec v s m)
    unfolding store_encoded
    store_encoded_lem =
        rw
          (
            loaded,
            in_range,
            (load-store (size_of p) (cell p s) (narrow p (codec.encode v)) m.buffer
                (narrow-lt p (codec.encode v)) inside).0,
          )
          refl

    load-written :
        load (size_of p) (cell p s) (written p codec v s m).buffer ≡ ok (narrow p (codec.encode v))
    load-written =
        (load-store (size_of p) (cell p s) (narrow p (codec.encode v)) m.buffer
          (narrow-lt p (codec.encode v)) inside).1

    load_decoded_lem :
        (index : ℕ) (vector : List Double)
        → index < length vector
        → load_decoded p s (written p codec v s m) index vector
          ≡ ok (set vector index (codec.decode (narrow p (codec.encode v))))
    unfolding load_decoded
    load_decoded_lem index vector h =
        rw (loaded, load-written, in_range, lt→ltb index (length vector) h) refl

-- A value out of range leaves the message, one in range writes its cell.
store_encoded_cases :
    (p : Primitive) (codec : Codec) (v : Double) (s : NetworkSignal) (m : NetworkMessage)
    {m' : NetworkMessage}
    → func_of p s ≡ some codec
    → store_encoded p v s m ≡ ok m'
    → (m' ≡ m) ⊎ (m' ≡ written p codec v s m)
unfolding store_encoded store
store_encoded_cases p codec v s m loaded e = ground arith

-- A signal of a known type, with its functions loaded and its struct member inside the buffer,
-- whose encoded value is in range: marshalling it into its message succeeds, and marshalling the
-- message back gives the signal the decoded value. The value encoded is the one decoded, as far as
-- the type of the local variable keeps it.
pub message_to_signal-signal_to_message :
    (t : String) (p : Primitive) (codec : Codec) (v : Double) (s : NetworkSignal)
    (m : NetworkMessage) (index : ℕ) (vector : List Double)
    → s.member_type ≡ some t
    → primitive t ≡ some p
    → func_of p s ≡ some codec
    → Inside p s m
    → codec.is_in_range (narrow p (codec.encode v)) ≡ true
    → index < length vector
    → (m' : NetworkMessage) × (signal_to_message v s m ≡ ok m')
      × (message_to_signal s m' index vector
          ≡ ok (set vector index (codec.decode (narrow p (codec.encode v)))))
message_to_signal-signal_to_message t p codec v s m index vector typed known loaded inside ranged
      h =
    (
      written p codec v s m,
      signal_to_message-store_encoded t p codec v s m typed known loaded
          ∙ store_encoded_lem t p codec v s m typed known loaded inside ranged,
      message_to_signal-load_decoded t p codec v s m typed known loaded _ index vector
          ∙ load_decoded_lem t p codec v s m typed known loaded inside ranged index vector h,
    )

-- Marshalling a signal into its message with success leaves what another signal of the message
-- reads, if both have a known type and their functions, and their struct members share no byte.
pub message_to_signal-Apart :
    (t t' : String) (p q : Primitive) (codec codec' : Codec) (v : Double) (s r : NetworkSignal)
    (m : NetworkMessage) {m' : NetworkMessage} (index : ℕ) (vector : List Double)
    → s.member_type ≡ some t
    → primitive t ≡ some p
    → func_of p s ≡ some codec
    → r.member_type ≡ some t'
    → primitive t' ≡ some q
    → func_of q r ≡ some codec'
    → Apart (cell p s * size_of p) (size_of p) (cell q r * size_of q) (size_of q)
    → signal_to_message v s m ≡ ok m'
    → message_to_signal r m' index vector ≡ message_to_signal r m index vector
unfolding load_decoded
message_to_signal-Apart t t' p q codec codec' v s r m {m'} index vector ts ks ls rt rk rl apart e =
    message_to_signal-load_decoded t' q codec' v r m rt rk rl m' index vector
    ∙ same_load
    ∙ sym (message_to_signal-load_decoded t' q codec' v r m rt rk rl m index vector)
  where
    stored : store_encoded p v s m ≡ ok m'
    stored = sym (signal_to_message-store_encoded t p codec v s m ts ks ls) ∙ e

    same_load : load_decoded q r m' index vector ≡ load_decoded q r m index vector
    same_load = elim (store_encoded_cases p codec v s m ls stored) [
      | inl same ↦ rw same refl
      | inr new ↦
          rw
            (
              new,
              load_decoded,
              load-store-Apart (size_of p) (cell p s) (narrow p (codec.encode v)) (size_of q)
                  (cell q r) m.buffer apart,
            )
            refl
    ]

-- An int64_t signal is stored wrongly whenever its encoded value does not fit an int16_t, that is
-- for every pattern from 2 ^ 15 up to 2 ^ 64 - 2 ^ 15 that passes the range function: the cell
-- does not hold it afterwards.
pub int64_value_lost :
    (codec : Codec) (v : Double) (s : NetworkSignal) (m : NetworkMessage)
    → s.member_type ≡ some "int64_t"
    → s.func_int64 ≡ some codec
    → Inside int64 s m
    → codec.is_in_range (narrow int64 (codec.encode v)) ≡ true
    → 2 ^ 15 ≤ codec.encode v
    → codec.encode v < 2 ^ 64 - 2 ^ 15
    → (m' : NetworkMessage) × (signal_to_message v s m ≡ ok m')
      × (load 8 (s.buffer_offset / 8) m'.buffer ≢ ok (codec.encode v))
unfolding size_of
int64_value_lost codec v s m typed loaded inside ranged above below = (
  written int64 codec v s m,
  signal_to_message-store_encoded "int64_t" int64 codec v s m typed known loaded'
      ∙ store_encoded_lem "int64_t" int64 codec v s m typed known loaded' inside ranged,
  λ e. lost (sym held ∙ e),
)
  where
    known : primitive "int64_t" ≡ some int64
    known = unfold primitive in refl

    loaded' : func_of int64 s ≡ some codec
    loaded' = unfold func_of in loaded

    held :
        load 8 (s.buffer_offset / 8) (written int64 codec v s m).buffer
        ≡ ok (narrow int64 (codec.encode v))
    held = load-written "int64_t" int64 codec v s m typed known loaded' inside ranged

    lost : ok (narrow int64 (codec.encode v)) ≢ ok (codec.encode v)
    lost e = ground (arith, narrow_int64_iff (codec.encode v))
