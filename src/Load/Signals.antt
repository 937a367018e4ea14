-- ===== src/Load/Signals.antt =====
-- What the loading of the functions makes of the signals.
use Prim.Native.String.{◌++◌}
use dse_network.Prelude.{
  ℕ, String, ◌+◌, ◌*◌, ◌/◌, ◌≤◌, ◌≡◌, refl, sym, ap, ◌∙◌, subst, Bool, true, false, Option, none,
  some, List, [], ◌∷◌, map, Outcome, ok, ◌>>=◌, >>=-elim, deref, All, ap₂, arith, str_eq,
  if◌then◌else◌, ◌||◌,
}
use dse_network.Types.{Codec, Network, NetworkMessage, NetworkSignal}
use dse_network.Engine.Member.{Primitive, primitive, size_of}
use dse_network.Loader.{
  symbol_owner, find_codec, assign_int8, assign_wider, load_network_funcs, load_signals,
}
use dse_network.Loader.Complete.{load_network_funcs_lem}
use dse_network.Shape.{IsSound}

-- A signal of a document that names its struct member and its type; the member lies inside a buffer
-- of this size.
pub record IsTyped (size : ℕ) (s : NetworkSignal) : Type 0 where
  pub name : String
  pub named : s.name ≡ some name
  pub type_name : String
  pub typed : s.member_type ≡ some type_name
  pub inside :
      (p : Primitive)
      → primitive type_name ≡ some p
      → s.buffer_offset / size_of p * size_of p + size_of p ≤ size
  pub unmuxed : s.mux_mi ≡ none

-- Of a signal what its loading keeps.
abbrev pub unloaded : NetworkSignal → NetworkSignal
unloaded s = record s {
  func_int8 = none;
  func_int16 = none;
  func_int32 = none;
  func_int64 = none;
  func_float = none;
  func_double = none;
}

either :
    (b : Bool) (x y s : NetworkSignal)
    → unloaded x ≡ unloaded s
    → unloaded y ≡ unloaded s
    → unloaded (if b then x else y) ≡ unloaded s
either true x y s e f = e
either false x y s e f = f

unloaded-assign_int8 :
    (t : String) (c : Codec) (s : NetworkSignal) → unloaded (assign_int8 t c s) ≡ unloaded s
unfolding assign_int8
unloaded-assign_int8 t c s =
    either (str_eq t "int8_t" || str_eq t "uint8_t") (record s { func_int8 = some c }) s s refl refl

unloaded-assign_wider :
    (t : String) (c : Codec) (s : NetworkSignal) → unloaded (assign_wider t c s) ≡ unloaded s
unfolding assign_wider
unloaded-assign_wider t c s = ground arith

unloaded-load_network_funcs :
    (n : Network) (m : NetworkMessage) (name : String) (s : NetworkSignal) {s' : NetworkSignal}
    → load_network_funcs n m name s ≡ ok s'
    → unloaded s' ≡ unloaded s
unfolding load_network_funcs
unloaded-load_network_funcs n m name s {s'} e =
    >>=-elim (find_codec n.message_lib (n.name ++ "_" ++ symbol_owner m ++ "_" ++ name)) _ e
      λ codec found e1. >>=-elim (deref s.member_type) _ e1 λ t typed e2.
        let result : assign_wider t codec (assign_int8 t codec s) ≡ s' = cc in
        ap unloaded (sym result)
        ∙ unloaded-assign_wider t codec (assign_int8 t codec s)
        ∙ unloaded-assign_int8 t codec s

-- What is known of a signal once its functions are loaded.
pub record IsLoaded (size : ℕ) (s : NetworkSignal) : Type 0 where
  pub sound : IsSound size s
  pub unmuxed : s.mux_mi ≡ none

loaded :
    (size : ℕ) (n : Network) (m : NetworkMessage) (name : String) (s : NetworkSignal)
    {s' : NetworkSignal}
    → IsTyped size s
    → load_network_funcs n m name s ≡ ok s'
    → IsLoaded size s'
loaded size n m name s {s'} typed e =
    let kept = unloaded-load_network_funcs n m name s e in
    record {
      sound = record {
        type_name = typed.type_name;
        typed = ap (λ (x : NetworkSignal). x.member_type) kept ∙ typed.typed;
        codec = λ p known.
            let (c, _, assigned, _) =
              load_network_funcs_lem n m name typed.type_name p s typed.typed known e in
            (c, assigned);
        inside = λ p known.
            subst
              (λ (x : NetworkSignal). x.buffer_offset / size_of p * size_of p + size_of p ≤ size)
              (sym kept) (typed.inside p known);
      };
      unmuxed = ap (λ (x : NetworkSignal). x.mux_mi) kept ∙ typed.unmuxed;
    }

-- The loading of the signals from one on, given its name.
abbrev loading :
    Network
    → NetworkMessage
    → NetworkSignal
    → List NetworkSignal
    → Option String
    → Outcome (List NetworkSignal)
loading n m s signals o = elim o [
  | none ↦ ok (s ∷ signals)
  | some name ↦
      load_network_funcs n m name s >>= λ s'. load_signals n m signals >>= λ rest. ok (s' ∷ rest)
]

pub load_signals-IsLoaded :
    (size : ℕ) (n : Network) (m : NetworkMessage) (signals : List NetworkSignal)
    {signals' : List NetworkSignal}
    → All (IsTyped size) signals
    → load_signals n m signals ≡ ok signals'
    → All (IsLoaded size) signals' × (map unloaded signals' ≡ map unloaded signals)
unfolding load_signals
load_signals-IsLoaded size n m [] {signals'} typed e =
    let same : [] ≡ signals' = cc in
    (subst (All (IsLoaded size)) same tt, ap (map unloaded) (sym same))
load_signals-IsLoaded size n m (s ∷ signals) {signals'} typed e =
    let named : s.name ≡ some typed.0.name = typed.0.named in
    let e' : (load_network_funcs n m typed.0.name s >>= λ s'.
    load_signals n m signals >>= λ rest. ok (s' ∷ rest))
        ≡ ok signals' =
      sym (ap (loading n m s signals) named) ∙ e in
    >>=-elim (load_network_funcs n m typed.0.name s) _ e' λ s' ran e1.
      >>=-elim (load_signals n m signals) _ e1 λ rest ran1 e2.
        let result : s' ∷ rest ≡ signals' = cc in
        let (all, kept) = load_signals-IsLoaded size n m signals typed.1 ran1 in
        (
          subst (All (IsLoaded size)) result (loaded size n m typed.0.name s typed.0 ran, all),
          ap (map unloaded) (sym result)
              ∙ ap₂ ◌∷◌ (unloaded-load_network_funcs n m typed.0.name s ran) kept,
        )
