-- ===== src/Bus.antt =====
-- dse/network/encoder.c: frames that the codec delivers are unpacked into the messages, and
-- messages that are due are written to it. The codec is not part of the program: its reads are
-- the list of frames that `ncodec_read` returns before it fails, its writes are the list of
-- frames given to `ncodec_write`. `to_uint32` is the platform's conversion of a `double`, which C
-- leaves undefined outside the range of `uint32_t`.
pub mod Decode
pub mod Encode
use dse_network.Prelude.{
  ℕ, zero, suc, ◌+◌, ◌==◌, ◌&&◌, true, false, Option, none, some, List, [], ◌∷◌, Outcome, ok, fault,
  out_of_fuel, ◌>>=◌, deref, get_elem?, set, take, drop, if◌then◌else◌,
}
use dse_network.Types.{Double, NetworkMessage, Network}
use dse_network.Hash.{simbus_generate_uid_hash}
use dse_network.Engine.ToSignals.{network_marshal_messages_to_signals}

-- NCodecCanMessage; `len` is its own field, which the codec sets.
pub record CanMessage : Type 0 where
  pub frame_id : ℕ
  pub frame_type : ℕ
  pub buffer : List ℕ
  pub len : ℕ

-- The first message, from index `i` on, with this frame and mux id.
unfoldable pub find_mux : ℕ → List NetworkMessage → ℕ → ℕ → Option ℕ
find_mux i [] mux_id frame_id = none
find_mux i (m ∷ messages) mux_id frame_id =
    if m.frame_id == frame_id && m.mux_id == mux_id
    then some i
    else find_mux (i + 1) messages mux_id frame_id

unfoldable pub find_mux_message : Network → ℕ → ℕ → Option ℕ
find_mux_message n mux_id frame_id =
    if mux_id == 0 then none else find_mux 0 n.messages mux_id frame_id

-- `nm->mux_signal && nm->mux_signal->mux_mi`: the marshal item of the mux signal, if this is a
-- container message.
unfoldable pub mux_item : NetworkMessage → Outcome (Option ℕ)
mux_item m = elim m.mux_signal [
  | none ↦ ok none
  | some j ↦ (do s ← deref (get_elem? m.signals j); ok s.mux_mi)
]

-- The filter on reception: only a change of the buffer's hash updates the signals.
unfoldable pub filter_update : NetworkMessage → NetworkMessage
filter_update m =
    let payload_checksum = simbus_generate_uid_hash m.buffer m.buffer_len in
    if payload_checksum == m.buffer_checksum
    then record m { update_signals = false }
    else record m { buffer_checksum = payload_checksum; update_signals = true }

unfoldable pub set_message : Network → ℕ → NetworkMessage → Network
set_message n i m = record n { messages = set n.messages i m }

-- The search for the frame id ends at the first message whose own frame id is 0.
unfoldable pub find_frame : ℕ → List NetworkMessage → ℕ → Option ℕ
find_frame i [] frame_id = none
find_frame i (m ∷ messages) frame_id =
    let rest = find_frame (i + 1) messages frame_id in
    if m.frame_id == 0 then none else if m.frame_id == frame_id then some i else rest

-- `n->messages`, which is followed with no test for NULL.
unfoldable pub messages_array : Network → Outcome (List NetworkMessage)
messages_array n = if n.has_messages then ok n.messages else fault

module _ (to_uint32 : Double → ℕ) where
  -- The value of the mux signal, after its item alone was marshalled into the signal vector.
  unfoldable pub read_mux_id : Network → ℕ → Outcome (ℕ × Network)
  read_mux_id n k = do
    done ← network_marshal_messages_to_signals n (some (drop k n.marshal_list)) true
    mi ← deref (get_elem? n.marshal_list k)
    v ← deref (get_elem? done.1.signal_vector mi.signal_vector_index)
    ok (to_uint32 v, done.1)

  -- The contained message of a container is processed too, by `recurse`.
  unfoldable pub process_contained :
      (Network → ℕ → CanMessage → Outcome Network)
      → Network
      → Option ℕ
      → CanMessage
      → Outcome Network
  process_contained recurse n none msg = ok n
  process_contained recurse n (some k) msg = do
    mux ← read_mux_id n k
    elim (find_mux_message mux.1 mux.0 msg.frame_id) [
      | none ↦ ok mux.1
      | some j ↦ recurse mux.1 j msg
    ]

  -- `_process_message` for the message at index `i`; the fuel counts nested containers.
  unfoldable pub process_message : ℕ → Network → ℕ → CanMessage → Outcome Network
  process_message zero n i msg = out_of_fuel
  process_message (suc fuel) n i msg = do
    m ← deref (get_elem? n.messages i)
    unpack ← deref m.unpack_func
    let r = unpack m.buffer msg.buffer msg.len
    let n1 = set_message n i (record m { buffer = r.out })
    elim (r.rc == 0) [
      | false ↦ ok n1
      | true ↦ (do
        container ← mux_item m
        n2 ← process_contained (process_message fuel) n1 container msg
        m2 ← deref (get_elem? n2.messages i)
        ok (set_message n2 i (filter_update m2)))
    ]

  unfoldable pub process_can_frame : ℕ → Network → CanMessage → Outcome Network
  process_can_frame fuel n msg = do
    messages ← messages_array n
    elim (find_frame 0 messages msg.frame_id) [
      | none ↦ ok n
      | some i ↦ process_message fuel n i msg
    ]

  unfoldable pub network_decode_from_bus : ℕ → Network → List CanMessage → Outcome Network
  network_decode_from_bus fuel n [] = ok n
  network_decode_from_bus fuel n (msg ∷ frames) = do
    n' ← process_can_frame fuel n msg
    network_decode_from_bus fuel n' frames

-- The frame that a message is written as.
unfoldable pub frame_of : NetworkMessage → CanMessage
frame_of m = record {
  frame_id = m.frame_id;
  frame_type = m.frame_type;
  buffer = take m.payload_len m.payload;
  len = m.payload_len;
}

unfoldable pub encode_messages : List NetworkMessage → List CanMessage × List NetworkMessage
encode_messages [] = ([], [])
encode_messages (m ∷ messages) =
    let rest = encode_messages messages in
    if m.needs_tx
    then (frame_of m ∷ rest.0, record m { needs_tx = false } ∷ rest.1)
    else (rest.0, m ∷ rest.1)

-- The frames written, in order, and the network afterwards. A failed write is only logged.
unfoldable pub network_encode_to_bus : Network → Outcome (List CanMessage × Network)
network_encode_to_bus n = do
  messages ← messages_array n
  let done = encode_messages messages
  ok (done.0, record n { messages = done.1 })
