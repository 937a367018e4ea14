-- ===== src/Model/Frames/Due.antt =====
-- That a cyclic message is sent when it is due.
use dse_network.Prelude.{
  ℕ, zero, suc, ◌≡◌, ◌≢◌, sym, ap, ◌∙◌, subst, true, false, Option, some, List, [], ◌∷◌, map, ok,
  get_elem?, map_at, get_elem?-map, arith, Bool-cases, inl, inr, if_true, if_false,
}
use mathlib.Core.Option.{some-injective}
use dse_network.Types.{Double, NetworkMessage, Network, PackFunc}
use dse_network.Engine.ToMessages.{network_marshal_signals_to_messages}
use dse_network.Engine.ToMessages.Total.{network_marshal_signals_to_messages_total}
use dse_network.Engine.Pack.Filter.{hash_of}
use dse_network.Schedule.{network_schedule_tick}
use dse_network.Schedule.Alarm.{OnSchedule, is_due, send_due, network_schedule_tick_lem}
use dse_network.Function.{net_off}
use dse_network.Function.Contract.{Contract}
use dse_network.Bus.{CanMessage}
use dse_network.Shape.{Shape, core}
use dse_network.Model.{transmit}
use dse_network.Model.Total.{Runs, tick_total}
use dse_network.Model.Total.Send.{transmit_total}
use dse_network.Model.Frames.{heading, heading_of, is_sent, sent_headings, transmit-headings}

-- A message that is sent is among those sent.
sent_headings-get :
    (messages : List NetworkMessage) (i : ℕ) {m : NetworkMessage}
    → get_elem? messages i ≡ some m
    → is_sent m ≡ true
    → (k : ℕ) × (get_elem? (sent_headings messages) k ≡ some (heading m))
sent_headings-get [] i e sent = absurd (cc)
sent_headings-get (x ∷ messages) zero {m} e sent =
    let same : x ≡ m = some-injective _ _ e in
    let here : is_sent x ≡ true = ap is_sent same ∙ sent in
    (
      0,
      ap (λ xs. get_elem? xs 0) (if_true (is_sent x) (sent_headings messages) here)
          ∙ ap some (ap heading same),
    )
sent_headings-get (x ∷ messages) (suc i) e sent =
    let (k, there) = sent_headings-get messages i e sent in
    elim (Bool-cases (is_sent x)) [
      | inl taken ↦ (
        suc k,
        ap (λ xs. get_elem? xs (suc k)) (if_true (is_sent x) (sent_headings messages) taken)
            ∙ there,
      )
      | inr skipped ↦ (
        k,
        ap (λ xs. get_elem? xs k)
              (if_false (is_sent x) (heading x ∷ sent_headings messages) skipped)
            ∙ there,
      )
    ]

due :
    (tick : ℕ) (m : NetworkMessage)
    → is_due tick m ≡ true
    → send_due tick m ≡ record m { buffer_checksum = 0; needs_tx = true }
unfolding send_due
due tick m e = if_true (is_due tick m) m e

-- A message of which all but the buffer is that of a due message is sent, unless its hash is 0.
due_is_sent :
    (m m' : NetworkMessage) (pack : PackFunc)
    → m.pack_func ≡ some pack
    → core m' ≡ core (record m { buffer_checksum = 0; needs_tx = true })
    → hash_of m' ≢ 0
    → (is_sent m' ≡ true) × (heading m' ≡ heading m)
due_is_sent m m' pack packs same filled =
    let mark : m'.needs_tx ≡ true = ap (λ (x : Shape). x.0.needs_tx) same in
    let cleared : m'.buffer_checksum ≡ 0 = ap (λ (x : Shape). x.0.buffer_checksum) same in
    let packs' : m'.pack_func ≡ some pack = ap (λ (x : Shape). x.0.pack_func) same ∙ packs in
    (ground arith, ap (λ (x : Shape). heading x.0) same)

-- The frame of a due message, where the transmission writes one for each message that is sent.
framed :
    (n n1 : Network) (messages : List NetworkMessage) (frames : List CanMessage) (i : ℕ)
    {m : NetworkMessage} (pack : PackFunc)
    → get_elem? n.messages i ≡ some m
    → is_due n.tick m ≡ true
    → m.pack_func ≡ some pack
    → n1.messages ≡ map (send_due n.tick) n.messages
    → map core messages ≡ map core n1.messages
    → map heading_of frames ≡ sent_headings messages
    → ((m' : NetworkMessage) → get_elem? messages i ≡ some m' → hash_of m' ≢ 0)
    → (k : ℕ) × (frame : CanMessage) × (get_elem? frames k ≡ some frame)
      × (heading_of frame ≡ heading m)
framed n n1 messages frames i {m} pack there is_now packs marked cores headings filled =
    let at : get_elem? n1.messages i ≡ some (send_due n.tick m) =
      ap (λ xs. get_elem? xs i) marked ∙ map_at (send_due n.tick) n.messages i there in
    let (m', there', cored) =
      get_elem?-map core messages i
        (ap (λ xs. get_elem? xs i) cores ∙ map_at core n1.messages i at) in
    let (goes, headed) =
      due_is_sent m m' pack packs (cored ∙ ap core (due n.tick m is_now)) (filled m' there') in
    let (k, listed) = sent_headings-get messages i there' goes in
    let (frame, found, head) =
      get_elem?-map heading_of frames k (ap (λ xs. get_elem? xs k) headings ∙ listed) in
    (k, frame, found, head ∙ headed)

-- In a network that can run, is on schedule and is not off, a cyclic message that is due is marked
-- by the tick, and the transmission that follows writes a frame with its frame id, frame type and
-- length, if the message has a pack function and the hash of its marshalled buffer is not 0.
pub due_message_sent :
    (contract : Contract) (n : Network) (netoff : Option Double) (i : ℕ) {m : NetworkMessage}
    (pack : PackFunc)
    → Runs contract n
    → OnSchedule n
    → net_off netoff ≡ false
    → get_elem? n.messages i ≡ some m
    → is_due n.tick m ≡ true
    → m.pack_func ≡ some pack
    → ((n1 : Network) (marshalled : ℕ × Network) (m' : NetworkMessage)
        → network_schedule_tick n ≡ ok n1
        → network_marshal_signals_to_messages n1 (some n1.marshal_list) ≡ ok marshalled
        → get_elem? marshalled.1.messages i ≡ some m'
        → hash_of m' ≢ 0)
    → (n1 : Network) × (r : List CanMessage × Network) × (network_schedule_tick n ≡ ok n1)
      × (transmit netoff n1 ≡ ok r)
      × (k : ℕ) × (frame : CanMessage) × (get_elem? r.0 k ≡ some frame)
      × (heading_of frame ≡ heading m)
due_message_sent contract n netoff i pack runs schedule running there is_now packs filled =
    let (n1, ticked, _, runs1) = tick_total contract n runs in
    let (n1', ticked', marked, _) = network_schedule_tick_lem n schedule in
    let (r, sent, _, _) = transmit_total contract netoff n1 runs1 in
    let (messages, stored, cores) =
      network_marshal_signals_to_messages_total n1 runs1.0.ready.items in
    let outcome : ok n1' ≡ ok n1 = sym ticked' ∙ ticked in
    let same : n1' ≡ n1 = cc in
    let (k, frame, found, headed) =
      framed n n1 messages r.0 i pack there is_now packs
        (subst (λ (x : Network). x.messages ≡ map (send_due n.tick) n.messages) same marked) cores
        (transmit-headings netoff n1 running stored sent)
        λ m' there'. filled n1 _ m' ticked stored there' in
    (n1, r, ticked, sent, k, frame, found, headed)
