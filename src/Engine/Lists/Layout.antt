-- ===== src/Engine/Lists/Layout.antt =====
-- What the marshal list contains, and where.
use mathlib.Core.List.{append-nil}
use dse_network.Prelude.{
  ℕ, zero, suc, ◌+◌, ◌==◌, ◌<◌, ◌≡◌, ◌≢◌, refl, ap, ap₂, sym, ◌∙◌, false, none, some, String, List,
  [], ◌∷◌, ◌++◌, ok, ◌>>=◌, get_elem?, length, arith, inl, inr, Option-cases,
}
use dse_network.Types.{NetworkSignal, NetworkMessage, MarshalItem}
use dse_network.Engine.Lists.{signal_items, message_items}

-- The signals of a message up to the first with no name.
unfoldable pub named : List NetworkSignal → ℕ
named [] = 0
named (s ∷ signals) = elim s.name [ none ↦ 0 | some _ ↦ suc (named signals) ]

-- The number of named signals in the messages before the message at index `k`.
unfoldable pub offset : List NetworkMessage → ℕ → ℕ
offset [] k = 0
offset (m ∷ messages) zero = 0
offset (m ∷ messages) (suc k) = named m.signals + offset messages k

-- Each message has a buffer.
unfoldable pub IsBuffered : List NetworkMessage → Type 0
IsBuffered [] = Unit {0}
IsBuffered (m ∷ messages) = (m.buffer_len ≢ 0) × IsBuffered messages

abbrev item : ℕ → ℕ → MarshalItem
item i j = record { signal = j; message = i; signal_vector_index = 0 }

named-missing :
    (s : NetworkSignal) (signals : List NetworkSignal) → s.name ≡ none → named (s ∷ signals) ≡ 0
unfolding named
named-missing s signals e = rw e refl

named-here :
    (s : NetworkSignal) (signals : List NetworkSignal) {name : String}
    → s.name ≡ some name
    → named (s ∷ signals) ≡ suc (named signals)
unfolding named
named-here s signals e = rw e refl

length-signal_items :
    (i j : ℕ) (signals : List NetworkSignal) → length (signal_items i j signals) ≡ named signals
unfolding signal_items named
length-signal_items i j [] = refl
length-signal_items i j (s ∷ signals) = elim (Option-cases s.name) [
  | inl none_here ↦ rw none_here refl
  | inr (name, here) ↦ rw here (ap suc (length-signal_items i (j + 1) signals))
]

get_elem?-signal_items :
    (i j k : ℕ) (signals : List NetworkSignal)
    → k < named signals
    → get_elem? (signal_items i j signals) k ≡ some (item i (j + k))
unfolding signal_items named
get_elem?-signal_items i j k [] h = elim h [ ]
get_elem?-signal_items i j zero (s ∷ signals) h = elim (Option-cases s.name) [
  | inl missing ↦ absurd (omega (arith, named-missing s signals missing))
  | inr (name, here) ↦ rw here (ap (λ x. some (item i x)) (omega arith))
]
get_elem?-signal_items i j (suc k) (s ∷ signals) h = elim (Option-cases s.name) [
  | inl missing ↦ absurd (omega (arith, named-missing s signals missing))
  | inr (name, here) ↦ rw here (
      get_elem?-signal_items i (j + 1) k signals (omega (arith, named-here s signals here))
      ∙ ap (λ x. some (item i x)) (omega arith))
]

-- An index into a concatenation.
get_elem?-append_left {ℓ} :
    {A : Type ℓ} (xs ys : List A) (k : ℕ) → k < length xs → get_elem? (xs ++ ys) k ≡ get_elem? xs k
get_elem?-append_left [] ys k h = elim h [ ]
get_elem?-append_left (x ∷ xs) ys zero h = refl
get_elem?-append_left (x ∷ xs) ys (suc k) h = get_elem?-append_left xs ys k (omega arith)

get_elem?-append_right {ℓ} :
    {A : Type ℓ} (xs ys : List A) (n k : ℕ)
    → n ≡ length xs + k
    → get_elem? (xs ++ ys) n ≡ get_elem? ys k
get_elem?-append_right [] ys n k e = ap (get_elem? ys) (omega arith)
get_elem?-append_right (x ∷ xs) ys zero k e = absurd (omega arith)
get_elem?-append_right (x ∷ xs) ys (suc n) k e = get_elem?-append_right xs ys n k (omega arith)

length-append {ℓ} : {A : Type ℓ} (xs ys : List A) → length (xs ++ ys) ≡ length xs + length ys
length-append [] ys = omega arith
length-append (x ∷ xs) ys = omega (arith, length-append xs ys)

-- The items of messages that all have a buffer, from index `i` on.
laid_out : ℕ → List NetworkMessage → List MarshalItem
laid_out i [] = []
laid_out i (m ∷ messages) = signal_items i 0 m.signals ++ laid_out (i + 1) messages

ne-eq-false : (a b : ℕ) → a ≢ b → (a == b) ≡ false
ne-eq-false a b h = ground arith

message_items-laid_out :
    (i : ℕ) (messages : List NetworkMessage)
    → IsBuffered messages
    → message_items i messages ≡ ok (laid_out i messages)
unfolding message_items IsBuffered laid_out
message_items-laid_out i [] h = refl
message_items-laid_out i (m ∷ []) h =
    rw (ne-eq-false m.buffer_len 0 h.0, message_items)
      (ap ok (sym (append-nil (signal_items i 0 m.signals))))
message_items-laid_out i (m ∷ next ∷ rest) h =
    rw (ne-eq-false m.buffer_len 0 h.0, message_items)
      (ap (λ o. o >>= λ items. ok (signal_items i 0 m.signals ++ items))
        (message_items-laid_out (i + 1) (next ∷ rest) h.1))

length-laid_out :
    (i : ℕ) (messages : List NetworkMessage)
    → length (laid_out i messages) ≡ offset messages (length messages)
unfolding laid_out offset
length-laid_out i [] = refl
length-laid_out i (m ∷ messages) = omega (
  arith,
  length-append (signal_items i 0 m.signals) (laid_out (i + 1) messages),
  length-signal_items i 0 m.signals,
  length-laid_out (i + 1) messages,
)

get_elem?-laid_out :
    (i k j : ℕ) (messages : List NetworkMessage) {m : NetworkMessage}
    → get_elem? messages k ≡ some m
    → j < named m.signals
    → get_elem? (laid_out i messages) (offset messages k + j) ≡ some (item (i + k) j)
unfolding laid_out offset
get_elem?-laid_out i k j [] there h = cc
get_elem?-laid_out i zero j (m' ∷ messages) {m} there h =
    let same : m' ≡ m = cc in
    let fits : j < named m'.signals = rw same h in
    get_elem?-append_left (signal_items i 0 m'.signals) (laid_out (i + 1) messages) (0 + j)
      (omega (arith, length-signal_items i 0 m'.signals))
    ∙ get_elem?-signal_items i 0 (0 + j) m'.signals (omega arith)
    ∙ ap₂ (λ x y. some (item x y)) (omega arith) (omega arith)
get_elem?-laid_out i (suc k) j (m' ∷ messages) there h =
    get_elem?-append_right (signal_items i 0 m'.signals) (laid_out (i + 1) messages) _
      (offset messages k + j) (omega (arith, length-signal_items i 0 m'.signals))
    ∙ get_elem?-laid_out (i + 1) k j messages there h
    ∙ ap (λ x. some (item x j)) (omega arith)

-- If each message has a buffer, the marshal list is built: it has as many items as the messages
-- have named signals, and named signal `j` of message `k` has the item at the number of named signals
-- in the messages before, plus `j`.
pub message_items_lem :
    (messages : List NetworkMessage) (k j : ℕ) (m : NetworkMessage)
    → IsBuffered messages
    → get_elem? messages k ≡ some m
    → j < named m.signals
    → (items : List MarshalItem) × (message_items 0 messages ≡ ok items)
      × (length items ≡ offset messages (length messages))
      × (get_elem? items (offset messages k + j)
          ≡ some (record { signal = j; message = k; signal_vector_index = 0 }))
message_items_lem messages k j m h there fits = (
  laid_out 0 messages,
  message_items-laid_out 0 messages h,
  length-laid_out 0 messages,
  get_elem?-laid_out 0 k j messages there fits ∙ ap (λ x. some (item x j)) (omega arith),
)
