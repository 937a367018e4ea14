-- ===== src/Bus/Decode.antt =====
-- What the reception of frames does, and does not do, to the messages.
pub mod Once
pub mod Ends
pub mod Total
use mathlib.Core.Option.{some-injective}
use dse_network.Prelude.{
  ℕ, zero, suc, ◌+◌, ◌-◌, ◌≤◌, ◌<◌, ◌==◌, ◌&&◌, ◌≡◌, ◌≢◌, ◌↔◌, ◌⊎◌, inl, inr, refl, sym, ap, ap₂,
  ◌∙◌, not, true, false, Bool, Option, none, some, List, [], ◌∷◌, map, Outcome, ok, fault,
  out_of_fuel, ◌>>=◌, deref, arith, get_elem?, set, length, drop, Bool-cases, Option-cases, map-set,
  >>=-eq-ok, >>=-elim, deref-eq-ok, if◌then◌else◌,
}
use dse_network.Types.{Double, NetworkMessage, MarshalItem, Network}
use dse_network.Engine.ToSignals.{
  network_marshal_messages_to_signals, messages_to_signals, returns_early,
}
use dse_network.Bus.{
  CanMessage, find_mux, find_mux_message, mux_item, filter_update, set_message, read_mux_id,
  process_contained, process_message, messages_array, find_frame, process_can_frame,
  network_decode_from_bus,
}

-- The search by frame id finds the first message with the id, before any message with frame id 0.
abbrev pub IsFirst : List NetworkMessage → ℕ → ℕ → Type 0
IsFirst [] frame_id i = ⊥
IsFirst (m ∷ messages) frame_id zero = (m.frame_id ≢ 0) × (m.frame_id ≡ frame_id)
IsFirst (m ∷ messages) frame_id (suc i) =
    (m.frame_id ≢ 0) × (m.frame_id ≢ frame_id) × IsFirst messages frame_id i

find_frame_sound :
    (k : ℕ) (messages : List NetworkMessage) (frame_id j : ℕ)
    → find_frame k messages frame_id ≡ some j
    → (k ≤ j) × IsFirst messages frame_id (j - k)
unfolding find_frame
find_frame_sound k [] frame_id j e = absurd (ground arith)
find_frame_sound k (m ∷ messages) frame_id j e = elim (Bool-cases (m.frame_id == 0)) [
  | inl last ↦ absurd (ground arith)
  | inr some_id ↦ elim (Bool-cases (m.frame_id == frame_id)) [
    | inl hit ↦
        let same : k ≡ j = ground arith in
        let at : j - k ≡ 0 = omega arith in (omega arith, rw at (ground arith))
    | inr miss ↦
        let (above, first) =
          find_frame_sound (k + 1) messages frame_id j (rw (some_id, miss) at e) in
        let at : j - k ≡ suc (j - (k + 1)) = omega arith in
        (omega arith, rw at (ground arith, ground arith, first))
  ]
]

find_frame_complete :
    (k : ℕ) (messages : List NetworkMessage) (frame_id i : ℕ)
    → IsFirst messages frame_id i
    → find_frame k messages frame_id ≡ some (k + i)
unfolding find_frame
find_frame_complete k [] frame_id i h = absurd h
find_frame_complete k (m ∷ messages) frame_id zero h = ground arith
find_frame_complete k (m ∷ messages) frame_id (suc i) h =
    ground (arith, find_frame_complete (k + 1) messages frame_id i h.2)

-- A received frame goes to the message at index `i` exactly if that is the first with the frame's
-- id and neither it nor any message before it has the frame id 0: messages behind one with frame
-- id 0 receive nothing.
pub find_frame_iff :
    (messages : List NetworkMessage) (frame_id i : ℕ)
    → (find_frame 0 messages frame_id ≡ some i) ↔ IsFirst messages frame_id i
find_frame_iff messages frame_id i = (
  λ e.
      let same : i - 0 ≡ i = omega arith in rw same at (find_frame_sound 0 messages frame_id i e).1,
  λ h.
      let same : 0 + i ≡ i = omega arith in
      rw same at (find_frame_complete 0 messages frame_id i h),
)

pub get-IsFirst :
    (messages : List NetworkMessage) (frame_id i : ℕ)
    → IsFirst messages frame_id i
    → (m : NetworkMessage) × (get_elem? messages i ≡ some m)
get-IsFirst [] frame_id i h = absurd h
get-IsFirst (m ∷ messages) frame_id zero h = (m, refl)
get-IsFirst (m ∷ messages) frame_id (suc i) h = get-IsFirst messages frame_id i h.2

-- What the bus can change of a message: its buffer, the recorded hash and the update flag.
abbrev pub rest_of : NetworkMessage → NetworkMessage
rest_of m = record m { buffer = []; buffer_checksum = 0; update_signals = false }

abbrev pub KeepsRest : Network → Network → Type 0
KeepsRest n n' = map rest_of n'.messages ≡ map rest_of n.messages

pub set_message-KeepsRest :
    (n : Network) (i : ℕ) (m m' : NetworkMessage)
    → get_elem? n.messages i ≡ some m
    → rest_of m' ≡ rest_of m
    → KeepsRest n (set_message n i m')
unfolding set_message
set_message-KeepsRest n i m m' e r = map-set rest_of n.messages i e r

-- Marshalling one item leaves the messages as they are.
messages-single :
    (n : Network) (items : List MarshalItem) (mi : MarshalItem) {rc : ℕ} {n' : Network}
    → network_marshal_messages_to_signals n (some (mi ∷ items)) true ≡ ok (rc, n')
    → n'.messages ≡ n.messages
unfolding network_marshal_messages_to_signals returns_early
messages-single n items mi e =
    let (vector, ran, rest) =
      >>=-eq-ok (messages_to_signals true (mi ∷ items) n.messages n.signal_vector) _ e in
    ground arith

pub drop_at :
    (items : List MarshalItem) (k : ℕ) {mi : MarshalItem}
    → deref (get_elem? items k) ≡ ok mi
    → (rest : List MarshalItem) × (drop k items ≡ mi ∷ rest)
drop_at [] k e = absurd (ground arith)
drop_at (x ∷ items) zero e = (items, ground arith)
drop_at (x ∷ items) (suc k) e = drop_at items k e

-- The reading of the mux signal leaves the messages as they are.
pub messages-read_mux_id :
    (to_uint32 : Double → ℕ) (n : Network) (k : ℕ) {mux : ℕ × Network}
    → read_mux_id to_uint32 n k ≡ ok mux
    → mux.1.messages ≡ n.messages
unfolding read_mux_id
messages-read_mux_id to_uint32 n k {mux} e =
    let (done, ran, rest) =
      >>=-eq-ok (network_marshal_messages_to_signals n (some (drop k n.marshal_list)) true) _ e in
    let (mi, item, last) = >>=-eq-ok (deref (get_elem? n.marshal_list k)) _ rest in
    let (tail, dropped) = drop_at n.marshal_list k item in
    let (v, read, value) =
      >>=-eq-ok (deref (get_elem? done.1.signal_vector mi.signal_vector_index)) _ last in
    let same : mux.1.messages ≡ done.1.messages = ground arith in
    same ∙ messages-single n tail mi (rw dropped at ran)

abbrev pub Keeps : (Network → ℕ → CanMessage → Outcome Network) → Type 0
Keeps process =
    (n : Network) (i : ℕ) (msg : CanMessage) (n' : Network)
    → process n i msg ≡ ok n'
    → KeepsRest n n'

rest_of-filter_update : (m : NetworkMessage) → rest_of (filter_update m) ≡ rest_of m
unfolding filter_update
rest_of-filter_update m = ground arith

set_back :
    (n n2 : Network) (i : ℕ) {n' : Network}
    → KeepsRest n n2
    → (deref (get_elem? n2.messages i) >>= λ m2. ok (set_message n2 i (filter_update m2))) ≡ ok n'
    → KeepsRest n n'
set_back n n2 i {n'} kept e = >>=-elim (deref (get_elem? n2.messages i)) _ e λ m2 there done.
    let end : n' ≡ set_message n2 i (filter_update m2) = cc in
    ap (λ (x : Network). map rest_of x.messages) end
    ∙ set_message-KeepsRest n2 i m2 (filter_update m2) (deref-eq-ok _ there)
        (rest_of-filter_update m2)
    ∙ kept

module _ (to_uint32 : Double → ℕ) where
  process_contained-KeepsRest :
      (recurse : Network → ℕ → CanMessage → Outcome Network)
      → Keeps recurse
      → (n : Network) (container : Option ℕ) (msg : CanMessage) {n' : Network}
      → process_contained to_uint32 recurse n container msg ≡ ok n'
      → KeepsRest n n'
  unfolding process_contained
  process_contained-KeepsRest recurse keeps n none msg e = ground arith
  process_contained-KeepsRest recurse keeps n (some k) msg {n'} e =
      >>=-elim (read_mux_id to_uint32 n k) _ e λ mux ran rest.
        let same : mux.1.messages ≡ n.messages = messages-read_mux_id to_uint32 n k ran in
        elim (Option-cases (find_mux_message mux.1 mux.0 msg.frame_id)) [
          | inl missing ↦
              let end : n'.messages ≡ mux.1.messages = ground arith in ap (map rest_of) (end ∙ same)
          | inr (j, found) ↦ keeps mux.1 j msg n' (ground arith) ∙ ap (map rest_of) same
        ]

  process_message-KeepsRest : (fuel : ℕ) → Keeps (process_message to_uint32 fuel)
  unfolding process_message
  process_message-KeepsRest zero n i msg n' e = absurd (ground arith)
  process_message-KeepsRest (suc fuel) n i msg n' e =
      >>=-elim (deref (get_elem? n.messages i)) _ e λ m there rest.
        >>=-elim (deref m.unpack_func) _ rest λ unpack loaded body.
          let r = unpack m.buffer msg.buffer msg.len in
          let n1 = set_message n i (record m { buffer = r.out }) in
          let kept : KeepsRest n n1 =
            set_message-KeepsRest n i m (record m { buffer = r.out }) (deref-eq-ok _ there) refl in
          elim (Bool-cases (r.rc == 0)) [
            | inl good ↦ >>=-elim (mux_item m) _ (rw good at body) λ container looked after.
                >>=-elim
                  (process_contained to_uint32 (process_message to_uint32 fuel) n1 container msg) _
                  after
                  λ n2 ran last.
                    set_back n n2 i
                      (process_contained-KeepsRest (process_message to_uint32 fuel)
                          (process_message-KeepsRest fuel) n1 container msg ran
                        ∙ kept)
                      last
            | inr error ↦
                let end : n' ≡ n1 = ground arith in
                ap (λ (x : Network). map rest_of x.messages) end ∙ kept
          ]

  pub process_can_frame-KeepsRest :
      (fuel : ℕ) (n : Network) (msg : CanMessage) {n' : Network}
      → process_can_frame to_uint32 fuel n msg ≡ ok n'
      → KeepsRest n n'
  unfolding process_can_frame
  process_can_frame-KeepsRest fuel n msg {n'} e =
      >>=-elim (messages_array n) _ e λ messages there rest.
        elim (Option-cases (find_frame 0 messages msg.frame_id)) [
          | inl unknown ↦
              let end : n' ≡ n = ground arith in ap (λ (x : Network). map rest_of x.messages) end
          | inr (i, found) ↦ process_message-KeepsRest fuel n i msg n' (ground arith)
        ]

  -- Receiving frames changes of each message at most the buffer, the recorded hash and the update
  -- flag. In particular the payload, which the decode functions are given, stays as it was before
  -- the frames.
  pub network_decode_from_bus_keeps :
      (fuel : ℕ) (n : Network) (frames : List CanMessage) {n' : Network}
      → network_decode_from_bus to_uint32 fuel n frames ≡ ok n'
      → map rest_of n'.messages ≡ map rest_of n.messages
  unfolding network_decode_from_bus
  network_decode_from_bus_keeps fuel n [] e = ground arith
  network_decode_from_bus_keeps fuel n (msg ∷ frames) {n'} e =
      >>=-elim (process_can_frame to_uint32 fuel n msg) _ e λ n1 ran rest.
        network_decode_from_bus_keeps fuel n1 frames rest
        ∙ process_can_frame-KeepsRest fuel n msg ran
