-- ===== src/Engine/ToMessages/Total.antt =====
-- In a sound network the signal vector is marshalled with no fault.
use dse_network.Prelude.{
  All, ℕ, ◌+◌, ◌*◌, ◌/◌, ◌≤◌, ◌≡◌, refl, sym, ap, ap₂, ◌∙◌, subst, some, List, [], ◌∷◌, map,
  Outcome, ok, goes_on, deref_there, length, get_elem?, set, Bool-cases, Option-cases, inl, inr,
  get_elem?-map, map-set, get-lt_length, le→leb,
}
use dse_network.Memory.{store, set_bytes, to_bytes}
use dse_network.Memory.Cells.{length-set_bytes}
use dse_network.Types.{Codec, Double, MarshalItem, Network, NetworkMessage, NetworkSignal}
use dse_network.Engine.Member.{Primitive, primitive, size_of, func_of, narrow}
use dse_network.Engine.ToMessages.{
  store_encoded, signal_to_message, signal_value, item_to_message, signals_to_messages,
  network_marshal_signals_to_messages,
}
use dse_network.Shape.{Shape, shape, core, shapes-cores, IsSound, Leads}

store_total :
    (n index x : ℕ) (buf : List ℕ)
    → index * n + n ≤ length buf
    → (buf' : List ℕ) × (store n index x buf ≡ ok buf') × (length buf' ≡ length buf)
unfolding store
store_total n index x buf inside = (
  set_bytes buf (index * n) (to_bytes n x),
  rw (le→leb (index * n + n) (length buf) inside) refl,
  length-set_bytes buf (index * n) (to_bytes n x),
)

-- What a marshalling of one signal leaves as it was.
abbrev Done : NetworkMessage → Outcome NetworkMessage → Type 0
Done m r = (m' : NetworkMessage) × (r ≡ ok m') × (core m' ≡ core m)

store_encoded_total :
    (p : Primitive) (c : Codec) (v : Double) (s : NetworkSignal) (m : NetworkMessage)
    → func_of p s ≡ some c
    → s.buffer_offset / size_of p * size_of p + size_of p ≤ length m.buffer
    → Done m (store_encoded p v s m)
unfolding store_encoded
store_encoded_total p c v s m loaded inside =
    let value = narrow p (c.encode v) in
    elim (Bool-cases (c.is_in_range value)) [
      | inl ranged ↦
          let (buf, stored, same) =
            store_total (size_of p) (s.buffer_offset / size_of p) value m.buffer inside in
          (
            record m { buffer = buf },
            rw (loaded, ranged, stored, store_encoded) refl,
            ap₂ (λ x y. (x, y)) refl same,
          )
      | inr not_ranged ↦ (m, rw (loaded, not_ranged, store_encoded) refl, refl)
    ]

signal_to_message_total :
    (v : Double) (s : NetworkSignal) (m : NetworkMessage)
    → IsSound (length m.buffer) s
    → Done m (signal_to_message v s m)
unfolding signal_to_message
signal_to_message_total v s m sound = elim (Option-cases (primitive sound.type_name)) [
  | inl unknown ↦ (m, goes_on _ (deref_there sound.typed) (rw unknown refl), refl)
  | inr (p, known) ↦
      let (c, loaded) = sound.codec p known in
      let (m', runs, same) = store_encoded_total p c v s m loaded (sound.inside p known) in
      (m', goes_on _ (deref_there sound.typed) (rw known runs), same)
]

item_to_message_total :
    (vector : List Double) (mi : MarshalItem) (messages : List NetworkMessage)
    → Leads (map shape messages) (length vector) mi
    → (messages' : List NetworkMessage) × (item_to_message vector mi messages ≡ ok messages')
      × (map core messages' ≡ map core messages)
unfolding item_to_message
item_to_message_total vector mi messages leads =
    let (m, there, same) = get_elem?-map shape messages mi.message leads.message_there in
    let (v, value) = get-lt_length vector mi.signal_vector_index leads.value_there in
    let here : get_elem? m.signals mi.signal ≡ some leads.signal =
      ap (λ (x : Shape). get_elem? x.0.signals mi.signal) same ∙ leads.signal_there in
    let sound : IsSound (length m.buffer) leads.signal =
      subst (λ (x : Shape). IsSound x.1 leads.signal) (sym same) leads.sound in
    let (m', runs, kept) =
      signal_to_message_total (signal_value v leads.signal m) leads.signal m sound in
    (
      set messages mi.message m',
      goes_on _ (deref_there there)
          (goes_on _ (deref_there here) (goes_on _ (deref_there value) (goes_on _ runs refl))),
      map-set core messages mi.message there kept,
    )

signals_to_messages_total :
    (vector : List Double) (items : List MarshalItem) (messages : List NetworkMessage)
    → All (Leads (map shape messages) (length vector)) items
    → (messages' : List NetworkMessage) × (signals_to_messages vector items messages ≡ ok messages')
      × (map core messages' ≡ map core messages)
unfolding signals_to_messages
signals_to_messages_total vector [] messages all = (messages, refl, refl)
signals_to_messages_total vector (mi ∷ items) messages all =
    let (m1, runs, same) = item_to_message_total vector mi messages all.0 in
    let later : All (Leads (map shape m1) (length vector)) items =
      subst (λ x. All (Leads x (length vector)) items) (sym (shapes-cores m1 messages same))
        all.1 in
    let (m2, runs2, same2) = signals_to_messages_total vector items m1 later in
    (m2, goes_on _ runs runs2, same2 ∙ same)

-- In a network each of whose marshal items leads to a sound signal and to a value of the vector,
-- marshalling the signal vector succeeds. Of each message it changes at most the bytes of the buffer.
pub network_marshal_signals_to_messages_total :
    (n : Network)
    → All (Leads (map shape n.messages) (length n.signal_vector)) n.marshal_list
    → (messages : List NetworkMessage) × (network_marshal_signals_to_messages n
          (some n.marshal_list)
        ≡ ok (0, record n { messages = messages }))
      × (map core messages ≡ map core n.messages)
unfolding network_marshal_signals_to_messages
network_marshal_signals_to_messages_total n all =
    let (messages, runs, same) =
      signals_to_messages_total n.signal_vector n.marshal_list n.messages all in
    (messages, goes_on _ runs refl, same)
