-- ===== src/Bus/Decode/Ends.antt =====
-- The recursion over nested containers ends: two levels are enough where no contained message is a
-- container itself.
use dse_network.Prelude.{
  ℕ, zero, suc, ◌==◌, not, ◌&&◌, ◌≡◌, ◌≢◌, arith, refl, sym, ap, subst, ◌≤◌, ◌-◌, ◌+◌, ◌∙◌, true,
  false, Bool, Option, none, some, List, [], ◌∷◌, map, Outcome, ok, fatal, fault, out_of_fuel,
  ◌>>=◌, deref, get_elem?, drop, Option-cases, Bool-cases, inl, inr, deref-eq-ok, if◌then◌else◌,
}
use dse_network.Memory.{load}
use dse_network.Types.{Double, MarshalItem, NetworkMessage, NetworkSignal, Network}
use dse_network.Engine.Member.{Primitive, primitive, func_of}
use dse_network.Engine.ToSignals.{
  load_decoded, message_to_signal, item_to_signal, messages_to_signals,
  network_marshal_messages_to_signals,
}
use dse_network.Bus.{
  CanMessage, find_mux, find_mux_message, mux_item, set_message, read_mux_id, process_contained,
  process_message, messages_array, find_frame, process_can_frame, network_decode_from_bus,
}
use dse_network.Bus.Decode.{
  rest_of, KeepsRest, set_message-KeepsRest, messages-read_mux_id, process_can_frame-KeepsRest,
}

abbrev pub Ends {ℓ} : {A : Type ℓ} → Outcome A → Type ℓ
Ends r = r ≢ out_of_fuel

deref-Ends {ℓ} : {A : Type ℓ} (o : Option A) → Ends (deref o)
deref-Ends none e = cc
deref-Ends (some a) e = cc

>>=-Ends {ℓ κ} :
    {A : Type ℓ} {B : Type κ} (m : Outcome A) (f : A → Outcome B)
    → Ends m
    → ((a : A) → m ≡ ok a → Ends (f a))
    → Ends (m >>= f)
>>=-Ends (ok a) f h k e = k a refl e
>>=-Ends fatal f h k e = cc
>>=-Ends fault f h k e = cc
>>=-Ends out_of_fuel f h k e = absurd (h refl)

if-Ends {ℓ} :
    {A : Type ℓ} (b : Bool) (x y : Outcome A) → Ends x → Ends y → Ends (if b then x else y)
if-Ends true x y p q = p
if-Ends false x y p q = q

ok-Ends {ℓ} : {A : Type ℓ} (a : A) → Ends (ok a)
ok-Ends a e = cc

load_decoded-Ends :
    (p : Primitive) (s : NetworkSignal) (m : NetworkMessage) (index : ℕ) (vector : List Double)
    → Ends (load_decoded p s m index vector)
unfolding load_decoded load
load_decoded-Ends p s m index vector =
    >>=-Ends (deref (func_of p s)) _ (deref-Ends _) λ codec _ e. ground arith

message_to_signal-Ends :
    (s : NetworkSignal) (m : NetworkMessage) (index : ℕ) (vector : List Double)
    → Ends (message_to_signal s m index vector)
unfolding message_to_signal
message_to_signal-Ends s m index vector = >>=-Ends (deref s.member_type) _ (deref-Ends _) λ t _.
    elim (Option-cases (primitive t)) [
      | inl unknown ↦ λ e. ground arith
      | inr (p, known) ↦ λ e. load_decoded-Ends p s m index vector (ground arith)
    ]

item_to_signal-Ends :
    (single : Bool) (mi : MarshalItem) (messages : List NetworkMessage) (vector : List Double)
    → Ends (item_to_signal single mi messages vector)
unfolding item_to_signal
item_to_signal-Ends single mi messages vector =
    >>=-Ends (deref (get_elem? messages mi.message)) _ (deref-Ends _) λ m _.
      if-Ends (not m.update_signals && not single) _ _ (ok-Ends vector) (
        >>=-Ends (deref (get_elem? m.signals mi.signal)) _ (deref-Ends _)
          λ s _. message_to_signal-Ends s m mi.signal_vector_index vector)

messages_to_signals-Ends :
    (single : Bool) (items : List MarshalItem) (messages : List NetworkMessage)
    (vector : List Double)
    → Ends (messages_to_signals single items messages vector)
unfolding messages_to_signals
messages_to_signals-Ends single [] messages vector = ok-Ends vector
messages_to_signals-Ends single (mi ∷ items) messages vector =
    >>=-Ends (item_to_signal single mi messages vector) _
      (item_to_signal-Ends single mi messages vector)
      λ vector' _.
        if-Ends single _ _ (ok-Ends vector')
          (messages_to_signals-Ends single items messages vector')

read_mux_id-Ends : (to_uint32 : Double → ℕ) (n : Network) (k : ℕ) → Ends (read_mux_id to_uint32 n k)
unfolding read_mux_id network_marshal_messages_to_signals
read_mux_id-Ends to_uint32 n k =
    >>=-Ends (network_marshal_messages_to_signals n (some (drop k n.marshal_list)) true) _
      (>>=-Ends (messages_to_signals true (drop k n.marshal_list) n.messages n.signal_vector) _
        (messages_to_signals-Ends true (drop k n.marshal_list) n.messages n.signal_vector)
        (λ vector _. ok-Ends _))
      λ done _. >>=-Ends (deref (get_elem? n.marshal_list k)) _ (deref-Ends _) λ mi _.
        >>=-Ends (deref (get_elem? done.1.signal_vector mi.signal_vector_index)) _ (deref-Ends _)
          λ v _. ok-Ends _

mux_item-Ends : (m : NetworkMessage) → Ends (mux_item m)
unfolding mux_item
mux_item-Ends m = elim (Option-cases m.mux_signal) [
  | inl plain ↦ λ e. ground arith
  | inr (j, muxed) ↦
      rw (muxed, mux_item)
        (>>=-Ends (deref (get_elem? m.signals j)) _ (deref-Ends _) λ s _. ok-Ends s.mux_mi)
]

-- No contained message, that is none with a mux id, is a container.
abbrev pub IsFlat : List NetworkMessage → Type 0
IsFlat [] = Unit {0}
IsFlat (m ∷ messages) = (m.mux_id ≢ 0 → m.mux_signal ≡ none) × IsFlat messages

flat_at :
    (messages : List NetworkMessage) (i : ℕ) {m : NetworkMessage}
    → IsFlat messages
    → get_elem? messages i ≡ some m
    → m.mux_id ≢ 0
    → m.mux_signal ≡ none
flat_at [] i flat e ne = absurd (ground arith)
flat_at (x ∷ messages) zero flat e ne = ground arith
flat_at (x ∷ messages) (suc i) flat e ne = flat_at messages i flat.1 e ne

IsFlat-rest_of : (messages : List NetworkMessage) → IsFlat messages → IsFlat (map rest_of messages)
IsFlat-rest_of [] flat = tt
IsFlat-rest_of (m ∷ messages) flat = (flat.0, IsFlat-rest_of messages flat.1)

IsFlat-of_rest_of :
    (messages : List NetworkMessage) → IsFlat (map rest_of messages) → IsFlat messages
IsFlat-of_rest_of [] flat = tt
IsFlat-of_rest_of (m ∷ messages) flat = (flat.0, IsFlat-of_rest_of messages flat.1)

IsFlat-KeepsRest : (n n' : Network) → KeepsRest n n' → IsFlat n.messages → IsFlat n'.messages
IsFlat-KeepsRest n n' kept flat =
    IsFlat-of_rest_of n'.messages (subst IsFlat (sym kept) (IsFlat-rest_of n.messages flat))

find_mux_sound :
    (k : ℕ) (messages : List NetworkMessage) (mux_id frame_id j : ℕ)
    → find_mux k messages mux_id frame_id ≡ some j
    → (k ≤ j)
      × (m : NetworkMessage) × (get_elem? messages (j - k) ≡ some m)
      × (m.mux_id ≡ mux_id)
      × (m.frame_id ≡ frame_id)
unfolding find_mux
find_mux_sound k [] mux_id frame_id j e = absurd (ground arith)
find_mux_sound k (m ∷ messages) mux_id frame_id j e =
    elim (Bool-cases (m.frame_id == frame_id && m.mux_id == mux_id)) [
      | inl hit ↦
          let same : k ≡ j = ground arith in
          let at : j - k ≡ 0 = omega arith in
          (omega arith, m, rw at refl, ground arith, ground arith)
      | inr miss ↦
          let (above, m', there, id, frame) =
            find_mux_sound (k + 1) messages mux_id frame_id j (rw miss at e) in
          let at : j - k ≡ suc (j - (k + 1)) = omega arith in
          (omega arith, m', rw at there, id, frame)
    ]

-- A message that the mux id selects is there, and is a contained message.
pub find_mux_message_there :
    (n : Network) (mux_id frame_id j : ℕ)
    → find_mux_message n mux_id frame_id ≡ some j
    → (m : NetworkMessage) × (get_elem? n.messages j ≡ some m) × (m.mux_id ≢ 0)
unfolding find_mux_message
find_mux_message_there n mux_id frame_id j e = elim (Bool-cases (mux_id == 0)) [
  | inl none_selected ↦ absurd (ground arith)
  | inr selected ↦
      let (above, m, there, id, frame) =
        find_mux_sound 0 n.messages mux_id frame_id j (rw selected at e) in
      let at : j - 0 ≡ j = omega arith in (m, rw at at there, ground arith)
]

-- So it is no container, where no contained message is one.
find_mux_message_plain :
    (n : Network) (mux_id frame_id j : ℕ)
    → IsFlat n.messages
    → find_mux_message n mux_id frame_id ≡ some j
    → (m : NetworkMessage) × (get_elem? n.messages j ≡ some m) × (m.mux_signal ≡ none)
find_mux_message_plain n mux_id frame_id j flat e =
    let (m, there, contained) = find_mux_message_there n mux_id frame_id j e in
    (m, there, flat_at n.messages j flat there contained)

module _ (to_uint32 : Double → ℕ) where
  body-Ends :
      (fuel : ℕ) (n : Network) (i : ℕ) (msg : CanMessage)
      → ((m : NetworkMessage) (n1 : Network) (container : Option ℕ)
          → get_elem? n.messages i ≡ some m
          → KeepsRest n n1
          → mux_item m ≡ ok container
          → Ends (process_contained to_uint32 (process_message to_uint32 fuel) n1 container msg))
      → Ends (process_message to_uint32 (suc fuel) n i msg)
  unfolding process_message
  body-Ends fuel n i msg inner =
      >>=-Ends (deref (get_elem? n.messages i)) _ (deref-Ends _) λ m there.
        >>=-Ends (deref m.unpack_func) _ (deref-Ends _) λ unpack loaded.
          let r = unpack m.buffer msg.buffer msg.len in
          let m1 : NetworkMessage = record m { buffer = r.out } in
          let n1 : Network = set_message n i m1 in
          let kept : KeepsRest n n1 = set_message-KeepsRest n i m m1 (deref-eq-ok _ there) refl in
          elim (Bool-cases (r.rc == 0)) [
            | inl good ↦ rw good (
                >>=-Ends (mux_item m) _ (mux_item-Ends m) λ container looked.
                  >>=-Ends
                    (process_contained to_uint32 (process_message to_uint32 fuel) n1 container msg)
                    _ (inner m n1 container (deref-eq-ok _ there) kept looked)
                    λ n2 _.
                      >>=-Ends (deref (get_elem? n2.messages i)) _ (deref-Ends _) λ m2 _. ok-Ends _)
            | inr error ↦ rw error (ok-Ends n1)
          ]

  plain-Ends :
      (fuel : ℕ) (n : Network) (i : ℕ) (msg : CanMessage) (m : NetworkMessage)
      → get_elem? n.messages i ≡ some m
      → m.mux_signal ≡ none
      → Ends (process_message to_uint32 (suc fuel) n i msg)
  unfolding process_contained mux_item
  plain-Ends fuel n i msg m there plain =
      body-Ends fuel n i msg λ m' n1 container there' kept looked.
        let same : m' ≡ m = cc in
        let unmuxed : m'.mux_signal ≡ none =
          ap (λ (x : NetworkMessage). x.mux_signal) same ∙ plain in
        let outer : container ≡ none = ground arith in rw outer (ok-Ends n1)

  -- With no contained message that is a container, the recursion over contained messages
  -- ends: with fuel 2 or more a received frame is processed without running out of fuel.
  pub process_message-Ends :
      (fuel : ℕ) (n : Network) (i : ℕ) (msg : CanMessage)
      → IsFlat n.messages
      → process_message to_uint32 (suc (suc fuel)) n i msg ≢ out_of_fuel
  unfolding process_contained
  process_message-Ends fuel n i msg flat =
      body-Ends (suc fuel) n i msg
        λ m n1 container there kept looked. contained container n1 (IsFlat-KeepsRest n n1 kept flat)
    where
      contained :
          (container : Option ℕ) (n1 : Network)
          → IsFlat n1.messages
          → Ends
              (process_contained to_uint32 (process_message to_uint32 (suc fuel)) n1 container msg)
      contained none n1 flat1 = ok-Ends n1
      contained (some k) n1 flat1 =
          >>=-Ends (read_mux_id to_uint32 n1 k) _ (read_mux_id-Ends to_uint32 n1 k) λ mux ran.
            elim (Option-cases (find_mux_message mux.1 mux.0 msg.frame_id)) [
              | inl missing ↦ rw missing (ok-Ends mux.1)
              | inr (j, found) ↦
                  let flat2 : IsFlat mux.1.messages =
                    subst IsFlat (sym (messages-read_mux_id to_uint32 n1 k ran)) flat1 in
                  let (m, there, plain) =
                    find_mux_message_plain mux.1 mux.0 msg.frame_id j flat2 found in
                  rw found (plain-Ends fuel mux.1 j msg m there plain)
            ]

  messages_array-Ends : (n : Network) → Ends (messages_array n)
  unfolding messages_array
  messages_array-Ends n =
      if-Ends n.has_messages (ok n.messages) fault (ok-Ends n.messages) (λ e. cc)

  process_can_frame-Ends :
      (fuel : ℕ) (n : Network) (msg : CanMessage)
      → IsFlat n.messages
      → Ends (process_can_frame to_uint32 (suc (suc fuel)) n msg)
  unfolding process_can_frame
  process_can_frame-Ends fuel n msg flat =
      >>=-Ends (messages_array n) _ (messages_array-Ends n) λ messages _.
        elim (Option-cases (find_frame 0 messages msg.frame_id)) [
          | inl unknown ↦ rw unknown (ok-Ends n)
          | inr (i, found) ↦ rw found (process_message-Ends fuel n i msg flat)
        ]

  -- With no contained message that is itself a container, fuel 2 or more is enough for any list of
  -- received frames.
  pub network_decode_from_bus-Ends :
      (fuel : ℕ) (n : Network) (frames : List CanMessage)
      → IsFlat n.messages
      → network_decode_from_bus to_uint32 (suc (suc fuel)) n frames ≢ out_of_fuel
  unfolding network_decode_from_bus
  network_decode_from_bus-Ends fuel n [] flat = ok-Ends n
  network_decode_from_bus-Ends fuel n (msg ∷ frames) flat =
      >>=-Ends (process_can_frame to_uint32 (suc (suc fuel)) n msg) _
        (process_can_frame-Ends fuel n msg flat)
        λ n1 ran. network_decode_from_bus-Ends fuel n1 frames (
          IsFlat-KeepsRest n n1 (process_can_frame-KeepsRest to_uint32 (suc (suc fuel)) n msg ran)
            flat)
