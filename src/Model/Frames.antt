-- ===== src/Model/Frames.antt =====
-- Which frames a step writes.
pub mod Due
use dse_network.Prelude.{
  ℕ, zero, suc, ◌%◌, ◌==◌, ◌&&◌, ◌||◌, ◌<◌, ◌≡◌, ◌≢◌, refl, sym, ap, ap₂, ◌∙◌, subst, not, true,
  false, Bool, Option, none, some, List, [], ◌∷◌, map, Outcome, ok, ◌>>=◌, >>=-elim, get_elem?,
  map_at, arith, if◌then◌else◌, if_true, if_false, Bool-cases, Option-cases, inl, inr, map_agrees,
}
use dse_network.Types.{Double, NetworkMessage, Network, PackFunc}
use dse_network.Hash.{simbus_generate_uid_hash}
use dse_network.Engine.ToMessages.{network_marshal_signals_to_messages}
use dse_network.Engine.ToSignals.{network_marshal_messages_to_signals}
use dse_network.Engine.Pack.{update_checksum, pack_message, network_pack_messages}
use dse_network.Engine.Pack.Filter.{hash_of}
use dse_network.Function.{
  net_off, run_encode_functions, encode_message, adopt_payload, apply_encode, map_messages,
  network_function_apply_encode,
}
use dse_network.Bus.{CanMessage, frame_of, network_encode_to_bus}
use dse_network.Bus.Encode.{pending, network_encode_to_bus_inv}
use dse_network.Model.{transmit}

-- Frame id, frame type and length.
abbrev pub Heading : Type 0
Heading = ℕ × ℕ × ℕ

abbrev pub heading : NetworkMessage → Heading
heading m = (m.frame_id, m.frame_type, m.payload_len)

abbrev pub heading_of : CanMessage → Heading
heading_of frame = (frame.frame_id, frame.frame_type, frame.len)

-- Whether a message with this buffer is sent: its hash is not the one recorded, and it is sent on
-- change or the schedule marked it. With no pack function only the mark counts.
abbrev pub is_sent : NetworkMessage → Bool
is_sent m = elim m.pack_func [
  | none ↦ m.needs_tx
  | some pack ↦ not (hash_of m == m.buffer_checksum) && (m.cycle_time_ms == 0 || m.needs_tx)
]

abbrev pub sent_headings : List NetworkMessage → List Heading
sent_headings [] = []
sent_headings (m ∷ messages) =
    if is_sent m then heading m ∷ sent_headings messages else sent_headings messages

-- The heading and the mark.
abbrev Marked : Type 0
Marked = Heading × Bool

abbrev marked : NetworkMessage → Marked
marked m = (heading m, m.needs_tx)

abbrev headings_of_marked : List Marked → List Heading
headings_of_marked [] = []
headings_of_marked (x ∷ xs) = if x.1 then x.0 ∷ headings_of_marked xs else headings_of_marked xs

pending_headings :
    (messages : List NetworkMessage)
    → map heading_of (map frame_of (pending messages)) ≡ headings_of_marked (map marked messages)
unfolding frame_of
pending_headings [] = refl
pending_headings (m ∷ messages) = ground (arith, pending_headings messages)

marked-pack_message : (m : NetworkMessage) → marked (pack_message m) ≡ (heading m, is_sent m)
unfolding pack_message update_checksum
marked-pack_message m = ground arith

packed_headings :
    (messages : List NetworkMessage)
    → headings_of_marked (map marked (map pack_message messages)) ≡ sent_headings messages
packed_headings [] = refl
packed_headings (m ∷ messages) =
    ap (λ (x : Marked). if x.1 then x.0 ∷ headings_of_marked later else headings_of_marked later)
      (marked-pack_message m)
    ∙ ap (λ xs. if is_sent m then heading m ∷ xs else xs) (packed_headings messages)
  where
    later : List Marked
    later = map marked (map pack_message messages)

marked-encode_message :
    (m : NetworkMessage) {m' : NetworkMessage} → encode_message m ≡ ok m' → marked m' ≡ marked m
unfolding encode_message adopt_payload
marked-encode_message m {m'} e =
    >>=-elim (run_encode_functions m.encode_functions m.payload m.payload_len) _ e
      λ done ran rest. ground (arith, rest)

marked-apply_encode :
    (m : NetworkMessage) {m' : NetworkMessage} → apply_encode false m ≡ ok m' → marked m' ≡ marked m
unfolding apply_encode
marked-apply_encode m {m'} e = elim (Bool-cases m.needs_tx) [
  | inl due ↦ marked-encode_message m (sym (if_true m.needs_tx (ok m) due) ∙ e)
  | inr quiet ↦
      let same : ok m ≡ ok m' = sym (if_false m.needs_tx (encode_message m) quiet) ∙ e in
      let kept : m ≡ m' = cc in ap marked (sym kept)
]

marked-map_messages :
    (messages : List NetworkMessage) {messages' : List NetworkMessage}
    → map_messages (apply_encode false) messages ≡ ok messages'
    → map marked messages' ≡ map marked messages
marked-map_messages [] {messages'} e = let same : [] ≡ messages' = cc in ap (map marked) (sym same)
marked-map_messages (m ∷ messages) {messages'} e =
    >>=-elim (apply_encode false m) _ e λ m' ran rest.
      >>=-elim (map_messages (apply_encode false) messages) _ rest λ others ran' end.
        let same : m' ∷ others ≡ messages' = cc in
        ap (map marked) (sym same)
        ∙ ap₂ ◌∷◌ (marked-apply_encode m ran) (marked-map_messages messages ran')

marked-network_function_apply_encode :
    (n : Network) {n' : Network}
    → net_off n.netoff_value ≡ false
    → network_function_apply_encode n ≡ ok n'
    → map marked n'.messages ≡ map marked n.messages
unfolding network_function_apply_encode
marked-network_function_apply_encode n {n'} running e =
    >>=-elim (map_messages (apply_encode (net_off n.netoff_value)) n.messages) _ e
      λ messages ran end.
        let same : record n { messages = messages } ≡ n' = cc in
        ap (λ (x : Network). map marked x.messages) (sym same)
        ∙ marked-map_messages n.messages
            (sym (ap (λ off. map_messages (apply_encode off) n.messages) running) ∙ ran)

-- While the network is not off, a transmission that succeeds writes one frame, in the order of the
-- messages, for each marshalled message whose hash is not the one recorded and that is sent on
-- change or was marked by the schedule, or that has no pack function and was marked; and no other.
-- The frame has the message's frame id, frame type and length.
pub transmit-headings :
    (netoff : Option Double) (n : Network) {marshalled : ℕ × Network}
    {r : List CanMessage × Network}
    → net_off netoff ≡ false
    → network_marshal_signals_to_messages n (some n.marshal_list) ≡ ok marshalled
    → transmit netoff n ≡ ok r
    → map heading_of r.0 ≡ sent_headings marshalled.1.messages
unfolding transmit network_pack_messages
transmit-headings netoff n {marshalled} {r} running stored e =
    >>=-elim (network_marshal_signals_to_messages n (some n.marshal_list)) _ e λ stored' ran e1.
      let outcome : ok stored' ≡ ok marshalled = sym ran ∙ stored in
      let same : stored' ≡ marshalled = cc in
      let packed = record (network_pack_messages stored'.1) { netoff_value = netoff } in
      >>=-elim (network_function_apply_encode packed) _ e1 λ applied ran1 e2.
        >>=-elim (network_encode_to_bus applied) _ e2 λ sent wrote e3.
          >>=-elim (network_marshal_messages_to_signals sent.1 (some sent.1.marshal_list) false) _
            e3
            λ done ran2 e4.
              let result : (sent.0, done.1) ≡ r = cc in
              ap (λ (x : List CanMessage × Network). map heading_of x.0) (sym result)
              ∙ ap (λ (x : List CanMessage × Network). map heading_of x.0)
                  (sym (network_encode_to_bus_inv applied wrote))
              ∙ pending_headings applied.messages
              ∙ ap headings_of_marked (marked-network_function_apply_encode packed running ran1)
              ∙ packed_headings stored'.1.messages
              ∙ ap (λ (x : ℕ × Network). sent_headings x.1.messages) same
