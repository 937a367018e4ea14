-- ===== src/Function.antt =====
-- dse/network/function.c: the functions of the function library, applied to the payloads of
-- messages that are sent or were received.
pub mod Apply
pub mod Contract
pub mod Total
use dse_network.Prelude.{
  ℕ, String, ◌==◌, ◌&&◌, ◌^◌, not, true, false, Bool, Option, none, some, List, [], ◌∷◌, Outcome,
  ok, fatal, ◌>>=◌, deref, if◌then◌else◌,
}
use dse_network.Types.{
  Annotations, Double, NetworkFunction, NetworkMessage, Network, FunctionResult,
}
use dse_network.Hash.{simbus_generate_uid_hash}

unfoldable pub network_function_annotation : Option Annotations → String → Option String
network_function_annotation none name = none
network_function_annotation (some annotations) name = annotations name

-- EBADMSG of errno.h on Linux.
abbrev pub ebadmsg : ℕ
ebadmsg = 74

-- `*(n->netoff_value) != 0.0`: a `double` equals 0.0 when its pattern is that of +0 or -0.
unfoldable pub net_off : Option Double → Bool
net_off none = false
net_off (some d) = not (d == 0) && not (d == 2 ^ 63)

-- One encode function on the payload. A return code that is not 0 ends the process.
unfoldable pub run_encode_function :
    NetworkFunction → List ℕ → ℕ → Outcome (NetworkFunction × List ℕ)
run_encode_function nf payload len = elim nf.function [
  | none ↦ ok (nf, payload)
  | some f ↦ (do
    r ← f nf.annotations nf.inst payload len
    if r.rc == 0 then ok (record nf { inst = r.inst }, r.payload) else fatal)
]

unfoldable pub run_encode_functions :
    List NetworkFunction → List ℕ → ℕ → Outcome (List NetworkFunction × List ℕ)
run_encode_functions [] payload len = ok ([], payload)
run_encode_functions (nf ∷ functions) payload len = do
  one ← run_encode_function nf payload len
  rest ← run_encode_functions functions one.1 len
  ok (one.0 ∷ rest.0, rest.1)

-- What follows a payload that the functions changed: the buffer is unpacked from it, and its hash
-- is set so that the change alone does not send the message again.
unfoldable pub adopt_payload : NetworkMessage → Outcome NetworkMessage
adopt_payload m = do
  unpack ← deref m.unpack_func
  let buffer = (unpack m.buffer m.payload m.payload_len).out
  ok (record m {
    update_signals = true;
    buffer = buffer;
    buffer_checksum = simbus_generate_uid_hash buffer m.buffer_len;
  })

-- The loop body of `network_function_apply_encode`, once `needs_tx` is known to be set.
unfoldable pub encode_message : NetworkMessage → Outcome NetworkMessage
encode_message m = do
  done ← run_encode_functions m.encode_functions m.payload m.payload_len
  let m' = record m { encode_functions = done.0; payload = done.1 }
  if simbus_generate_uid_hash done.1 m.payload_len
        == simbus_generate_uid_hash m.payload m.payload_len
      then ok m'
      else adopt_payload m'

unfoldable pub apply_encode : Bool → NetworkMessage → Outcome NetworkMessage
apply_encode off m =
    if off
    then ok (record m { needs_tx = false })
    else if m.needs_tx
    then encode_message m
    else ok m

abbrev pub map_messages :
    (NetworkMessage → Outcome NetworkMessage) → List NetworkMessage → Outcome (List NetworkMessage)
map_messages f [] = ok []
map_messages f (m ∷ messages) = do m' ← f m; rest ← map_messages f messages; ok (m' ∷ rest)

unfoldable pub network_function_apply_encode : Network → Outcome Network
network_function_apply_encode n = do
  messages ← map_messages (apply_encode (net_off n.netoff_value)) n.messages
  ok (record n { messages = messages })

-- One decode function. EBADMSG withdraws the update; any other error ends the process.
unfoldable pub run_decode_function :
    NetworkFunction → List ℕ → ℕ → Bool → Outcome (NetworkFunction × List ℕ × Bool)
run_decode_function nf payload len update = elim nf.function [
  | none ↦ ok (nf, payload, update)
  | some f ↦ (do
    r ← f nf.annotations nf.inst payload len
    if r.rc == 0
        then ok (record nf { inst = r.inst }, r.payload, update)
        else if r.rc == ebadmsg
        then ok (record nf { inst = r.inst }, r.payload, false)
        else fatal)
]

-- The decode functions, in order; the next one runs also after EBADMSG.
unfoldable pub run_decode_functions :
    List NetworkFunction → List ℕ → ℕ → Bool → Outcome (List NetworkFunction × List ℕ × Bool)
run_decode_functions [] payload len update = ok ([], payload, update)
run_decode_functions (nf ∷ functions) payload len update = do
  one ← run_decode_function nf payload len update
  rest ← run_decode_functions functions one.1 len one.2
  ok (one.0 ∷ rest.0, rest.1, rest.2)

unfoldable pub apply_decode : NetworkMessage → Outcome NetworkMessage
apply_decode m = if not m.update_signals then ok m else (do
  done ← run_decode_functions m.decode_functions m.payload m.payload_len true
  ok (record m { decode_functions = done.0; payload = done.1; update_signals = done.2 }))

unfoldable pub network_function_apply_decode : Network → Outcome Network
network_function_apply_decode n = do
  messages ← map_messages apply_decode n.messages
  ok (record n { messages = messages })
