-- ===== src/Load/Vector.antt =====
-- The signal vector of a loaded network.
use dse_network.Prelude.{
  ℕ, zero, suc, String, ◌+◌, ◌<◌, ◌≡◌, sym, ap, ◌∙◌, Option, Outcome, some, List, [], ◌∷◌, ok,
  get_elem?, length, length-replicate, replicate, arith, if◌then◌else◌, >>=-elim,
}
use dse_network.Types.{FunctionLib, MessageLib, MarshalItem, NetworkSignal, NetworkMessage, Network}
use dse_network.Engine.Lists.{
  signal_of, signal_names, network_load_marshal_lists, network_get_signal_names,
}
use dse_network.Loader.{
  network_load_message_funcs, network_load_signal_funcs, network_load_function_funcs,
}
use dse_network.Parser.{Yaml, network_parse}
use dse_network.Load.{load_lists, network_load, network_load_message_lib, network_load_function_lib}

abbrev name_of : NetworkSignal → String
name_of s = if s.internal then "" else s.signal_name

-- Where the names of the signals are built, an item's place is its vector index.
signal_names-index :
    (i k : ℕ) (messages : List NetworkMessage) (items : List MarshalItem) {mi : MarshalItem}
    {r : List String × List MarshalItem}
    → signal_names i messages items ≡ ok r
    → get_elem? r.1 k ≡ some mi
    → (mi.signal_vector_index ≡ i + k) × (k < length r.0)
unfolding signal_names
signal_names-index i k messages [] {mi} {r} e there =
    let result : ([], []) ≡ r = cc in
    let listed : get_elem? {A = MarshalItem} [] k ≡ some mi =
      ap (λ (y : List String × List MarshalItem). get_elem? y.1 k) result ∙ there in
    absurd (cc)
signal_names-index i zero messages (x ∷ items) {mi} {r} e there =
    >>=-elim (signal_of messages x) _ e λ s found e1.
      >>=-elim (signal_names (i + 1) messages items) _ e1 λ rest later e2.
        let result : (name_of s ∷ rest.0, record x { signal_vector_index = i } ∷ rest.1) ≡ r = cc in
        let listed : get_elem? (record x { signal_vector_index = i } ∷ rest.1) zero ≡ some mi =
          ap (λ (y : List String × List MarshalItem). get_elem? y.1 zero) result ∙ there in
        let size : suc (length rest.0) ≡ length r.0 =
          ap (λ (y : List String × List MarshalItem). length y.0) result in
        let same : record x { signal_vector_index = i } ≡ mi = cc in
        (omega (arith, ap (λ (y : MarshalItem). y.signal_vector_index) same), omega arith)
signal_names-index i (suc k) messages (x ∷ items) {mi} {r} e there =
    >>=-elim (signal_of messages x) _ e λ s found e1.
      >>=-elim (signal_names (i + 1) messages items) _ e1 λ rest later e2.
        let result : (name_of s ∷ rest.0, record x { signal_vector_index = i } ∷ rest.1) ≡ r = cc in
        let listed : get_elem? (record x { signal_vector_index = i } ∷ rest.1) (suc k) ≡ some mi =
          ap (λ (y : List String × List MarshalItem). get_elem? y.1 (suc k)) result ∙ there in
        let size : suc (length rest.0) ≡ length r.0 =
          ap (λ (y : List String × List MarshalItem). length y.0) result in
        let (index, below) = signal_names-index (i + 1) k messages items later listed in
        (omega (arith, index), omega arith)

pub load_lists_lem :
    (parsed : Network) (k : ℕ) (mi : MarshalItem) {n : Network}
    → load_lists parsed ≡ ok n
    → get_elem? n.marshal_list k ≡ some mi
    → (mi.signal_vector_index ≡ k) × (mi.signal_vector_index < length n.signal_vector)
unfolding load_lists network_get_signal_names
load_lists_lem parsed k mi {n} e there =
    >>=-elim (network_load_function_funcs parsed) _ e λ functions ran e1.
      >>=-elim (network_load_signal_funcs functions.1) _ e1 λ signals ran1 e2.
        >>=-elim (network_load_marshal_lists (network_load_message_funcs signals)) _ e2
          λ lists ran2 e3. >>=-elim (network_get_signal_names lists) _ e3 λ all ran3 e4.
            >>=-elim (signal_names 0 lists.messages lists.marshal_list) _ ran3 λ named ran4 e5.
              let listed : record lists { marshal_list = named.1; signal_name = named.0 } ≡ all =
                cc in
              let result : record all { signal_vector = replicate (length all.signal_name) 0 } ≡ n =
                cc in
              let items : n.marshal_list ≡ named.1 =
                ap (λ (x : Network). x.marshal_list) (sym result)
                ∙ ap (λ (x : Network). x.marshal_list) (sym listed) in
              let size : length n.signal_vector ≡ length named.0 =
                ap (λ (x : Network). length x.signal_vector) (sym result)
                ∙ length-replicate (length all.signal_name) 0
                ∙ ap (λ (x : Network). length x.signal_name) (sym listed) in
              let there1 : get_elem? named.1 k ≡ some mi =
                ap (λ x. get_elem? x k) (sym items) ∙ there in
              let (index, below) =
                signal_names-index 0 k lists.messages lists.marshal_list ran4 there1 in
              (omega (arith, index), omega (arith, index))

module _ (y : Yaml) (strtoul : String → ℕ)
    (search : String
      → String
      → (y.YamlNode → Network → Outcome (ℕ × Network))
      → Network
      → Outcome Network)
    (open_message_lib : Option String → Option MessageLib)
    (open_function_lib : Option String → Option FunctionLib) where
  -- In a network that was loaded the marshal item at place `k` has the vector index `k`, and the
  -- signal vector has a value there.
  pub network_load_lem :
      (fuel : ℕ) (empty : Network) (k : ℕ) (mi : MarshalItem) {n : Network}
      → network_load y strtoul search open_message_lib open_function_lib fuel empty ≡ ok n
      → get_elem? n.marshal_list k ≡ some mi
      → (mi.signal_vector_index ≡ k) × (mi.signal_vector_index < length n.signal_vector)
  unfolding network_load
  network_load_lem fuel empty k mi e there =
      >>=-elim (network_parse y strtoul search fuel empty) _ e λ parsed ran e1.
        >>=-elim (network_load_message_lib open_message_lib parsed) _ e1 λ messages ran1 e2.
          >>=-elim (network_load_function_lib open_function_lib messages) _ e2
            λ functions ran2 e3. load_lists_lem functions k mi e3 there
