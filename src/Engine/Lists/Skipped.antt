-- ===== src/Engine/Lists/Skipped.antt =====
-- What the loop over the messages passes over.
use dse_network.Prelude.{
  subst, ℕ, zero, suc, ◌+◌, ◌==◌, ◌≤◌, ◌≡◌, ◌≢◌, refl, sym, ◌∙◌, true, some, List, [], ◌∷◌, ◌++◌,
  ok, fault, get_elem?, arith, inl, inr, Bool-cases, Option-cases, >>=-elim,
}
use dse_network.Types.{NetworkSignal, NetworkMessage, MarshalItem}
use dse_network.Engine.Lists.{signal_items, message_items}

eq-true : (a b : ℕ) → a ≡ b → (a == b) ≡ true
eq-true a b h = ground arith

-- The messages that the items of a list point to start at `i`.
ItemsFrom : ℕ → List MarshalItem → Type 0
ItemsFrom i [] = Unit {0}
ItemsFrom i (mi ∷ items) = (i ≤ mi.message) × ItemsFrom i items

ItemsFrom-append :
    (i : ℕ) (xs ys : List MarshalItem) → ItemsFrom i xs → ItemsFrom i ys → ItemsFrom i (xs ++ ys)
unfolding ItemsFrom
ItemsFrom-append i [] ys h g = g
ItemsFrom-append i (x ∷ xs) ys h g = (h.0, ItemsFrom-append i xs ys h.1 g)

ItemsFrom-weaken : (i k : ℕ) (xs : List MarshalItem) → k ≤ i → ItemsFrom i xs → ItemsFrom k xs
unfolding ItemsFrom
ItemsFrom-weaken i k [] le h = tt
ItemsFrom-weaken i k (x ∷ xs) le h = (omega (arith, h.0), ItemsFrom-weaken i k xs le h.1)

ItemsFrom-signal_items :
    (i j : ℕ) (signals : List NetworkSignal) → ItemsFrom i (signal_items i j signals)
unfolding signal_items ItemsFrom
ItemsFrom-signal_items i j [] = tt
ItemsFrom-signal_items i j (s ∷ signals) = elim (Option-cases s.name) [
  | inl missing ↦ rw missing tt
  | inr (name, here) ↦ rw here (omega arith, ItemsFrom-signal_items i (j + 1) signals)
]

ok-ne-fault {ℓ} : {A : Type ℓ} {a : A} → ok a ≢ fault
ok-ne-fault e = cc

ItemsFrom-message_items :
    (i : ℕ) (messages : List NetworkMessage) {items : List MarshalItem}
    → message_items i messages ≡ ok items
    → ItemsFrom i items
unfolding message_items signal_items
ItemsFrom-message_items i [] e = subst (ItemsFrom i) (cc) (ItemsFrom-signal_items i 0 [])
ItemsFrom-message_items i (m ∷ []) {items} e = elim (Bool-cases (m.buffer_len == 0)) [
  | inl empty ↦ absurd (ok-ne-fault (sym e ∙ rw (empty, message_items) refl))
  | inr filled ↦
      let same : ok (signal_items i 0 m.signals) ≡ ok items =
        sym (rw (filled, message_items) refl) ∙ e in
      let here : signal_items i 0 m.signals ≡ items = cc in
      subst (ItemsFrom i) here (ItemsFrom-signal_items i 0 m.signals)
]
ItemsFrom-message_items i (m ∷ next ∷ rest) {items} e = elim (Bool-cases (m.buffer_len == 0)) [
  | inl empty ↦
      let skipped : message_items (i + 2) rest ≡ ok items =
        sym (rw (empty, message_items) refl) ∙ e in
      ItemsFrom-weaken (i + 2) i items (omega arith) (ItemsFrom-message_items (i + 2) rest skipped)
  | inr filled ↦
      >>=-elim (message_items (i + 1) (next ∷ rest)) (λ xs. ok (signal_items i 0 m.signals ++ xs))
        (sym (rw (filled, message_items) refl) ∙ e)
        λ xs built same.
          let here : signal_items i 0 m.signals ++ xs ≡ items = cc in
          subst (ItemsFrom i) here (
            ItemsFrom-append i _ xs (ItemsFrom-signal_items i 0 m.signals) (
              ItemsFrom-weaken (i + 1) i xs (omega arith)
                (ItemsFrom-message_items (i + 1) (next ∷ rest) built)))
]

ItemsFrom-get :
    (i k : ℕ) (xs : List MarshalItem) (mi : MarshalItem)
    → ItemsFrom i xs
    → get_elem? xs k ≡ some mi
    → i ≤ mi.message
unfolding ItemsFrom
ItemsFrom-get i k [] mi h e = cc
ItemsFrom-get i zero (x ∷ xs) mi h e = let same : x ≡ mi = cc in rw (sym same) h.0
ItemsFrom-get i (suc k) (x ∷ xs) mi h e = ItemsFrom-get i k xs mi h.1 e

-- If the first message has no buffer, the message after it is passed over too: where the loop ends
-- normally, every marshal item points to a message behind these two.
pub message_items_skips :
    (m next : NetworkMessage) (rest : List NetworkMessage) (k : ℕ) (mi : MarshalItem)
    {items : List MarshalItem}
    → m.buffer_len ≡ 0
    → message_items 0 (m ∷ next ∷ rest) ≡ ok items
    → get_elem? items k ≡ some mi
    → 2 ≤ mi.message
unfolding message_items
message_items_skips m next rest k mi {items} empty e there =
    let skipped : message_items 2 rest ≡ ok items =
      sym (rw (eq-true m.buffer_len 0 empty, message_items) refl) ∙ e in
    ItemsFrom-get 2 k items mi (ItemsFrom-message_items 2 rest skipped) there
