-- ===== src/Load/References.antt =====
-- What the marshal list and the signal names make of the messages and the items.
use dse_network.Prelude.{
  ℕ, suc, String, ◌+◌, ◌≤◌, ◌<◌, ◌≡◌, ◌≢◌, refl, sym, ap, ◌∙◌, subst, false, Option, none, some,
  List, [], ◌∷◌, ok, >>=-elim, deref, deref-eq-ok, length, get_elem?, set, length-set, All, All-get,
  All-set, arith, if◌then◌else◌, inl, inr, Bool-cases, if_true, if_false, lt-length_of_get,
}
use mathlib.Core.Option.{some-injective}
use dse_network.Types.{MarshalItem, Network, NetworkMessage, NetworkSignal, PackFunc}
use dse_network.Engine.Member.{
  Primitive, uint8, uint16, uint32, uint64, int8, int16, int32, int64, float, double, func_of,
}
use dse_network.Engine.Lists.{signal_of, set_mux_reference, set_mux_references, signal_names}
use dse_network.Loader.{load_message_funcs}
use dse_network.Shape.{IsSound}
use dse_network.Load.Signals.{IsLoaded}
use dse_network.Load.Messages.{HasLoaded}

-- A loaded message, in a network with `total` marshal items.
pub record IsReferenced (total : ℕ) (m : NetworkMessage) : Type 0 where
  pub signals : All (IsSound (length m.buffer)) m.signals
  pub numbered : All (λ (s : NetworkSignal). (k : ℕ) → s.mux_mi ≡ some k → k < total) m.signals
  pub mux_there : (j : ℕ) → m.mux_signal ≡ some j → j < length m.signals
  pub plain :
      m.mux_id ≢ 0
      → (m.mux_signal ≡ none) × All (λ (s : NetworkSignal). s.mux_signal ≡ false) m.signals
  pub unpack : PackFunc
  pub unpack_there : m.unpack_func ≡ some unpack
  pub keeps_length :
      (buffer payload : List ℕ) (len : ℕ) → length (unpack buffer payload len).out ≡ length buffer

not_numbered :
    (total : ℕ) (size : ℕ) (signals : List NetworkSignal)
    → All (IsLoaded size) signals
    → All (λ (s : NetworkSignal). (k : ℕ) → s.mux_mi ≡ some k → k < total) signals
not_numbered total size [] all = tt
not_numbered total size (s ∷ signals) all =
    ((λ k e. let unmuxed = all.0.unmuxed in absurd (cc)), not_numbered total size signals all.1)

without_unmuxed :
    (size : ℕ) (signals : List NetworkSignal)
    → All (IsLoaded size) signals
    → All (IsSound size) signals
without_unmuxed size [] all = tt
without_unmuxed size (s ∷ signals) all = (all.0.sound, without_unmuxed size signals all.1)

pub load_message_funcs-IsReferenced :
    (total : ℕ) (n : Network) (m : NetworkMessage)
    → HasLoaded n.message_lib n.name m
    → IsReferenced total (load_message_funcs n m)
unfolding load_message_funcs
load_message_funcs-IsReferenced total n m h = record {
  signals = without_unmuxed (length m.buffer) m.signals h.signals;
  numbered = not_numbered total (length m.buffer) m.signals h.signals;
  mux_there = λ j e. let unmuxed = h.unmuxed in absurd (cc);
  plain = λ contained. (h.unmuxed, h.plain contained);
  unpack = h.unpacks.unpack;
  unpack_there = h.unpacks.found;
  keeps_length = h.unpacks.keeps_length;
}

func_of-mux :
    (p : Primitive) (s : NetworkSignal) (x : Option ℕ)
    → func_of p (record s { mux_mi = x }) ≡ func_of p s
unfolding func_of
func_of-mux uint8 s x = refl
func_of-mux uint16 s x = refl
func_of-mux uint32 s x = refl
func_of-mux uint64 s x = refl
func_of-mux int8 s x = refl
func_of-mux int16 s x = refl
func_of-mux int32 s x = refl
func_of-mux int64 s x = refl
func_of-mux float s x = refl
func_of-mux double s x = refl

IsSound-mux :
    (size : ℕ) (s : NetworkSignal) (x : Option ℕ)
    → IsSound size s
    → IsSound size (record s { mux_mi = x })
IsSound-mux size s x h = record {
  type_name = h.type_name;
  typed = h.typed;
  codec = λ p known. let (c, there) = h.codec p known in (c, func_of-mux p s x ∙ there);
  inside = h.inside;
}

set_mux_reference-IsReferenced :
    (total k : ℕ) (mi : MarshalItem) (messages : List NetworkMessage)
    {messages' : List NetworkMessage}
    → k < total
    → All (IsReferenced total) messages
    → set_mux_reference k mi messages ≡ ok messages'
    → All (IsReferenced total) messages'
unfolding set_mux_reference
set_mux_reference-IsReferenced total k mi messages {messages'} below all e =
    >>=-elim (deref (get_elem? messages mi.message)) _ e λ m there e1.
      >>=-elim (deref (get_elem? m.signals mi.signal)) _ e1 λ s here e2.
        let h : IsReferenced total m =
          All-get (IsReferenced total) messages mi.message all (deref-eq-ok _ there) in
        let at : get_elem? m.signals mi.signal ≡ some s = deref-eq-ok _ here in
        let m' = record m {
          signals = set m.signals mi.signal (record s { mux_mi = some k });
          mux_signal = some mi.signal;
        } in
        let chosen : (if s.mux_signal then set messages mi.message m' else messages) ≡ messages' =
          cc in
        elim (Bool-cases s.mux_signal) [
          | inl marked ↦
              let result : set messages mi.message m' ≡ messages' =
                sym (if_true s.mux_signal messages marked) ∙ chosen in
              let one : IsReferenced total m' = record {
                signals = All-set (IsSound (length m.buffer)) m.signals mi.signal h.signals (
                    IsSound-mux (length m.buffer) s (some k)
                      (All-get (IsSound (length m.buffer)) m.signals mi.signal h.signals at));
                numbered =
                    All-set (λ (x : NetworkSignal). (i : ℕ) → x.mux_mi ≡ some i → i < total)
                      m.signals mi.signal h.numbered
                      λ i same. subst (λ x. x < total) (some-injective k i same) below;
                mux_there = λ j same.
                    subst (λ x. x < length m'.signals) (some-injective mi.signal j same)
                      (omega (
                        arith,
                        lt-length_of_get m.signals mi.signal at,
                        length-set m.signals mi.signal (record s { mux_mi = some k }),
                      ));
                plain = λ contained.
                    let unmarked =
                      All-get (λ (x : NetworkSignal). x.mux_signal ≡ false) m.signals mi.signal
                        (h.plain contained).1 at in
                    absurd (cc);
                unpack = h.unpack;
                unpack_there = h.unpack_there;
                keeps_length = h.keeps_length;
              } in
              subst (All (IsReferenced total)) result
                (All-set (IsReferenced total) messages mi.message all one)
          | inr unmarked ↦
              subst (All (IsReferenced total))
                (sym (if_false s.mux_signal (set messages mi.message m') unmarked) ∙ chosen) all
        ]

pub set_mux_references-IsReferenced :
    (total k : ℕ) (items : List MarshalItem) (messages : List NetworkMessage)
    {messages' : List NetworkMessage}
    → k + length items ≤ total
    → All (IsReferenced total) messages
    → set_mux_references k items messages ≡ ok messages'
    → All (IsReferenced total) messages'
unfolding set_mux_references
set_mux_references-IsReferenced total k [] messages {messages'} fits all e =
    let same : messages ≡ messages' = cc in subst (All (IsReferenced total)) same all
set_mux_references-IsReferenced total k (mi ∷ items) messages fits all e =
    >>=-elim (set_mux_reference k mi messages) _ e λ messages1 ran e1.
      set_mux_references-IsReferenced total (k + 1) items messages1 (omega arith)
        (set_mux_reference-IsReferenced total k mi messages (omega arith) all ran) e1

-- The item leads to a signal.
pub record Points (messages : List NetworkMessage) (mi : MarshalItem) : Type 0 where
  pub message : NetworkMessage
  pub message_there : get_elem? messages mi.message ≡ some message
  pub signal : NetworkSignal
  pub signal_there : get_elem? message.signals mi.signal ≡ some signal

points :
    (messages : List NetworkMessage) (mi : MarshalItem) (i : ℕ) {s : NetworkSignal}
    → signal_of messages mi ≡ ok s
    → Points messages (record mi { signal_vector_index = i })
unfolding signal_of
points messages mi i {s} e = >>=-elim (deref (get_elem? messages mi.message)) _ e λ m there found.
    record {
      message = m;
      message_there = deref-eq-ok _ there;
      signal = s;
      signal_there = deref-eq-ok _ found;
    }

-- Where the names are built, each item leads to a signal, and there is a name at its vector index.
pub signal_names-Points :
    (i : ℕ) (messages : List NetworkMessage) (items : List MarshalItem)
    {r : List String × List MarshalItem}
    → signal_names i messages items ≡ ok r
    → All (Points messages) r.1 × (length r.1 ≡ length items)
unfolding signal_names
signal_names-Points i messages [] {r} e =
    let same : ([], []) ≡ r = cc in
    subst (λ (x : List String × List MarshalItem). All (Points messages) x.1 × (length x.1 ≡ 0))
      same (tt, refl)
signal_names-Points i messages (mi ∷ items) {r} e =
    >>=-elim (signal_of messages mi) _ e λ s found e1.
      >>=-elim (signal_names (i + 1) messages items) _ e1 λ rest later e2.
        let result : (
          (if s.internal then "" else s.signal_name) ∷ rest.0,
          record mi { signal_vector_index = i } ∷ rest.1,
        )
            ≡ r =
          cc in
        let (all, same) = signal_names-Points (i + 1) messages items later in
        subst
          (λ (x : List String × List MarshalItem).
            All (Points messages) x.1 × (length x.1 ≡ suc (length items)))
          result ((points messages mi i found, all), ap suc same)
