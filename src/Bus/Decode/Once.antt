-- ===== src/Bus/Decode/Once.antt =====
-- A frame that is received again: the filter on the buffer's hash.
use dse_network.Prelude.{
  ℕ, suc, ◌==◌, ◌<◌, ◌≡◌, refl, ap, ◌∙◌, not, false, none, some, List, [], ◌∷◌, ok, arith,
  get_elem?, set, length, get_elem?-set_self, lt-length_of_get,
}
use dse_network.Types.{Double, NetworkMessage, Network, PackFunc, PackResult}
use dse_network.Hash.{simbus_generate_uid_hash}
use dse_network.Bus.{
  CanMessage, mux_item, filter_update, set_message, process_contained, process_message,
}

set_twice :
    (messages : List NetworkMessage) (i : ℕ) (m m' : NetworkMessage)
    → set (set messages i m) i m' ≡ set messages i m'
set_twice [] i m m' = refl
set_twice (x ∷ messages) ℕ.zero m m' = refl
set_twice (x ∷ messages) (suc i) m m' = ap (◌∷◌ x) (set_twice messages i m m')

module _ (to_uint32 : Double → ℕ) (fuel : ℕ) (msg : CanMessage) (unpack : PackFunc) (i : ℕ) where
  -- The message once it was unpacked from the frame.
  abbrev unpacked : NetworkMessage → NetworkMessage
  unpacked m = record m { buffer = (unpack m.buffer msg.buffer msg.len).out }

  process_plain :
      (n : Network) (m : NetworkMessage)
      → get_elem? n.messages i ≡ some m
      → m.unpack_func ≡ some unpack
      → m.mux_signal ≡ none
      → (unpack m.buffer msg.buffer msg.len).rc ≡ 0
      → process_message to_uint32 (suc fuel) n i msg
        ≡ ok (set_message n i (filter_update (unpacked m)))
  unfolding process_message process_contained mux_item set_message
  process_plain n m there loaded plain good = ground (
    arith,
    get_elem?-set_self n.messages i (unpacked m) (lt-length_of_get n.messages i there),
    set_twice n.messages i (unpacked m) (filter_update (unpacked m)),
  )

  abbrev received : NetworkMessage → NetworkMessage
  received m = filter_update (unpacked m)

  -- The filter after the recorded hash was brought up to date finds no change.
  filter_again :
      (m : NetworkMessage) (out : List ℕ)
      → (filter_update (record m { buffer = out })).buffer ≡ out
        × ((filter_update
              (record (filter_update (record m { buffer = out })) { buffer = out })).update_signals
            ≡ false)
        × ((filter_update (record m { buffer = out })).update_signals
            ≡ not (simbus_generate_uid_hash out m.buffer_len == m.buffer_checksum))
        × ((filter_update (record m { buffer = out })).unpack_func ≡ m.unpack_func)
        × ((filter_update (record m { buffer = out })).mux_signal ≡ m.mux_signal)
  unfolding filter_update
  filter_again m out = ground arith

  -- A frame for a message that is no container, whose unpacking succeeds and, done again on its own
  -- result, changes nothing: receiving it succeeds and asks for an update of the signals exactly if
  -- the hash of the unpacked buffer is not the one recorded. Receiving the same frame right after
  -- that succeeds too, and asks for no update.
  pub process_message_twice :
      (n : Network) (m : NetworkMessage)
      → get_elem? n.messages i ≡ some m
      → m.unpack_func ≡ some unpack
      → m.mux_signal ≡ none
      → (unpack m.buffer msg.buffer msg.len).rc ≡ 0
      → unpack (unpacked m).buffer msg.buffer msg.len ≡ unpack m.buffer msg.buffer msg.len
      → (n1 : Network) × (n2 : Network) × (m1 : NetworkMessage) × (m2 : NetworkMessage)
        × (process_message to_uint32 (suc fuel) n i msg ≡ ok n1)
        × (get_elem? n1.messages i ≡ some m1)
        × (m1.update_signals
            ≡ not (simbus_generate_uid_hash (unpacked m).buffer m.buffer_len == m.buffer_checksum))
        × (process_message to_uint32 (suc fuel) n1 i msg ≡ ok n2)
        × (get_elem? n2.messages i ≡ some m2)
        × (m2.update_signals ≡ false)
  process_message_twice n m there loaded plain good again =
      let out = (unpacked m).buffer in
      let (kept, quiet, change, same_unpack, same_mux) = filter_again m out in
      let n1 = set_message n i (received m) in
      let inside : i < length n.messages = lt-length_of_get n.messages i there in
      let there1 : get_elem? n1.messages i ≡ some (received m) =
        unfold set_message in get_elem?-set_self n.messages i (received m) inside in
      let again1 : unpack (received m).buffer msg.buffer msg.len
          ≡ unpack m.buffer msg.buffer msg.len =
        ap (λ (b : List ℕ). unpack b msg.buffer msg.len) kept ∙ again in
      let inside1 : i < length n1.messages = lt-length_of_get n1.messages i there1 in
      (
        n1,
        set_message n1 i (received (received m)),
        received m,
        received (received m),
        process_plain n m there loaded plain good,
        there1,
        change,
        process_plain n1 (received m) there1 (same_unpack ∙ loaded) (same_mux ∙ plain)
            (ap (λ (r : PackResult). r.rc) again1 ∙ good),
        unfold set_message in get_elem?-set_self n1.messages i (received (received m)) inside1,
        ap (λ (b : List ℕ). (filter_update (record (received m) { buffer = b })).update_signals)
              (ap (λ (r : PackResult). r.out) again1)
            ∙ quiet,
      )
