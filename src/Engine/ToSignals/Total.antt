-- ===== src/Engine/ToSignals/Total.antt =====
-- In a sound network the messages are marshalled with no fault.
use dse_network.Prelude.{
  All, ℕ, ◌+◌, ◌*◌, ◌/◌, ◌<◌, ◌≤◌, ◌≡◌, refl, sym, ap, ◌∙◌, subst, not, ◌&&◌, true, false, Bool,
  some, List, [], ◌∷◌, map, Outcome, ok, goes_on, deref_there, length, get_elem?, set, Bool-cases,
  Option-cases, inl, inr, get_elem?-map, length-set, le→leb, lt→ltb,
}
use dse_network.Memory.{load, of_bytes, get_bytes}
use dse_network.Types.{Codec, Double, MarshalItem, Network, NetworkMessage, NetworkSignal}
use dse_network.Engine.Member.{Primitive, primitive, size_of, func_of}
use dse_network.Engine.ToSignals.{
  load_decoded, message_to_signal, item_to_signal, messages_to_signals, returns_early,
  clear_update_signals, network_marshal_messages_to_signals,
}
use dse_network.Shape.{Shape, shape, IsSound, Leads}

load_total :
    (n index : ℕ) (buf : List ℕ) → index * n + n ≤ length buf → (x : ℕ) × (load n index buf ≡ ok x)
unfolding load
load_total n index buf inside =
    (of_bytes (get_bytes buf (index * n) n), rw (le→leb (index * n + n) (length buf) inside) refl)

-- The vector afterwards has the length that it had.
abbrev Done : List Double → Outcome (List Double) → Type 0
Done vector r = (vector' : List Double) × (r ≡ ok vector') × (length vector' ≡ length vector)

load_decoded_total :
    (p : Primitive) (c : Codec) (s : NetworkSignal) (m : NetworkMessage) (index : ℕ)
    (vector : List Double)
    → func_of p s ≡ some c
    → s.buffer_offset / size_of p * size_of p + size_of p ≤ length m.buffer
    → index < length vector
    → Done vector (load_decoded p s m index vector)
unfolding load_decoded
load_decoded_total p c s m index vector loaded inside below =
    let (value, read) = load_total (size_of p) (s.buffer_offset / size_of p) m.buffer inside in
    elim (Bool-cases (c.is_in_range value)) [
      | inl ranged ↦ (
        set vector index (c.decode value),
        goes_on _ (deref_there loaded)
            (goes_on _ read (rw (ranged, lt→ltb index (length vector) below) refl)),
        length-set vector index (c.decode value),
      )
      | inr not_ranged ↦
          (vector, goes_on _ (deref_there loaded) (goes_on _ read (rw not_ranged refl)), refl)
    ]

message_to_signal_total :
    (s : NetworkSignal) (m : NetworkMessage) (index : ℕ) (vector : List Double)
    → IsSound (length m.buffer) s
    → index < length vector
    → Done vector (message_to_signal s m index vector)
unfolding message_to_signal
message_to_signal_total s m index vector sound below =
    elim (Option-cases (primitive sound.type_name)) [
      | inl unknown ↦ (vector, goes_on _ (deref_there sound.typed) (rw unknown refl), refl)
      | inr (p, known) ↦
          let (c, loaded) = sound.codec p known in
          let (v', runs, same) =
            load_decoded_total p c s m index vector loaded (sound.inside p known) below in
          (v', goes_on _ (deref_there sound.typed) (rw known runs), same)
    ]

item_to_signal_total :
    (single : Bool) (mi : MarshalItem) (messages : List NetworkMessage) (vector : List Double)
    → Leads (map shape messages) (length vector) mi
    → Done vector (item_to_signal single mi messages vector)
unfolding item_to_signal
item_to_signal_total single mi messages vector leads =
    let (m, there, same) = get_elem?-map shape messages mi.message leads.message_there in
    let here : get_elem? m.signals mi.signal ≡ some leads.signal =
      ap (λ (x : Shape). get_elem? x.0.signals mi.signal) same ∙ leads.signal_there in
    let sound : IsSound (length m.buffer) leads.signal =
      subst (λ (x : Shape). IsSound x.1 leads.signal) (sym same) leads.sound in
    elim (Bool-cases (not m.update_signals && not single)) [
      | inl skipped ↦ (vector, goes_on _ (deref_there there) (rw skipped refl), refl)
      | inr taken ↦
          let (v', runs, kept) =
            message_to_signal_total leads.signal m mi.signal_vector_index vector sound
              leads.value_there in
          (v', goes_on _ (deref_there there) (rw taken (goes_on _ (deref_there here) runs)), kept)
    ]

messages_to_signals_total :
    (items : List MarshalItem) (messages : List NetworkMessage) (vector : List Double)
    → All (Leads (map shape messages) (length vector)) items
    → Done vector (messages_to_signals false items messages vector)
unfolding messages_to_signals
messages_to_signals_total [] messages vector all = (vector, refl, refl)
messages_to_signals_total (mi ∷ items) messages vector all =
    let (v1, runs, same) = item_to_signal_total false mi messages vector all.0 in
    let later : All (Leads (map shape messages) (length v1)) items =
      subst (λ x. All (Leads (map shape messages) x) items) (sym same) all.1 in
    let (v2, runs2, same2) = messages_to_signals_total items messages v1 later in
    (v2, goes_on _ runs runs2, same2 ∙ same)

-- Marshalling the items with `single` set reads only the first.
pub messages_to_signals_single_total :
    (mi : MarshalItem) (items : List MarshalItem) (messages : List NetworkMessage)
    (vector : List Double)
    → Leads (map shape messages) (length vector) mi
    → Done vector (messages_to_signals true (mi ∷ items) messages vector)
unfolding messages_to_signals
messages_to_signals_single_total mi items messages vector leads =
    let (v1, runs, same) = item_to_signal_total true mi messages vector leads in
    (v1, goes_on _ runs refl, same)

pub returns_early-false : (items : List MarshalItem) → returns_early false items ≡ false
unfolding returns_early
returns_early-false [] = refl
returns_early-false (mi ∷ items) = refl

-- In a network each of whose marshal items leads to a sound signal and to a value of the vector,
-- marshalling the messages succeeds. The signal vector keeps its length, and of the messages at
-- most the update flags change.
pub network_marshal_messages_to_signals_total :
    (n : Network)
    → All (Leads (map shape n.messages) (length n.signal_vector)) n.marshal_list
    → (vector : List Double) × (network_marshal_messages_to_signals n (some n.marshal_list) false
        ≡ ok (
          0,
          record n { signal_vector = vector; messages = map clear_update_signals n.messages },
        ))
      × (length vector ≡ length n.signal_vector)
unfolding network_marshal_messages_to_signals
network_marshal_messages_to_signals_total n all =
    let (vector, runs, same) =
      messages_to_signals_total n.marshal_list n.messages n.signal_vector all in
    (vector, goes_on _ runs (rw (returns_early-false n.marshal_list) refl), same)
