-- ===== src/Engine/Lists/Names.antt =====
-- The layout of the signal vector.
use dse_network.Prelude.{
  ℕ, zero, suc, ◌+◌, ◌≡◌, ap, ap₂, sym, ◌∙◌, some, String, List, [], ◌∷◌, ok, get_elem?, arith,
  >>=-elim, if◌then◌else◌,
}
use dse_network.Types.{NetworkSignal, NetworkMessage, MarshalItem}
use dse_network.Engine.Lists.{signal_of, signal_names}

-- Where the names are built, the item at place `k` is given the vector index `k` behind the first,
-- and changes in nothing else; the name at place `k` is that of its signal, or empty if it is
-- internal.
pub signal_names_lem :
    (i k : ℕ) (messages : List NetworkMessage) (items : List MarshalItem) (mi : MarshalItem)
    (s : NetworkSignal) {names : List String} {items' : List MarshalItem}
    → signal_names i messages items ≡ ok (names, items')
    → get_elem? items k ≡ some mi
    → signal_of messages mi ≡ ok s
    → (get_elem? items' k ≡ some (record mi { signal_vector_index = i + k }))
      × (get_elem? names k ≡ some (if s.internal then "" else s.signal_name))
unfolding signal_names
signal_names_lem i k messages [] mi s e there points = cc
signal_names_lem i zero messages (mi' ∷ items) mi s {names} {items'} e there points =
    >>=-elim (signal_of messages mi') _ e λ s' found e1.
      >>=-elim (signal_names (i + 1) messages items) _ e1 λ rest later e2.
        let same : mi' ≡ mi = cc in
        let looked : ok s' ≡ ok s = sym found ∙ ap (signal_of messages) same ∙ points in
        let signal : s' ≡ s = cc in
        let items_eq : record mi' { signal_vector_index = i } ∷ rest.1 ≡ items' = cc in
        let names_eq : (if s'.internal then "" else s'.signal_name) ∷ rest.0 ≡ names = cc in
        (
          ap (λ xs. get_elem? xs 0) (sym items_eq)
              ∙ ap₂ (λ (x : MarshalItem) y. some (record x { signal_vector_index = y })) same
                  (omega arith),
          ap (λ xs. get_elem? xs 0) (sym names_eq)
              ∙ ap (λ (x : NetworkSignal). some (if x.internal then "" else x.signal_name)) signal,
        )
signal_names_lem i (suc k) messages (mi' ∷ items) mi s {names} {items'} e there points =
    >>=-elim (signal_of messages mi') _ e λ s' found e1.
      >>=-elim (signal_names (i + 1) messages items) _ e1 λ rest later e2.
        let items_eq : record mi' { signal_vector_index = i } ∷ rest.1 ≡ items' = cc in
        let names_eq : (if s'.internal then "" else s'.signal_name) ∷ rest.0 ≡ names = cc in
        let tail = signal_names_lem (i + 1) k messages items mi s later there points in
        (
          ap (λ xs. get_elem? xs (suc k)) (sym items_eq)
              ∙ tail.0
              ∙ ap (λ y. some (record mi { signal_vector_index = y })) (omega arith),
          ap (λ xs. get_elem? xs (suc k)) (sym names_eq) ∙ tail.1,
        )
