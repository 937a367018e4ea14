-- ===== src/Loader/Complete.antt =====
-- What a load that ends normally guarantees to the engine.
use Prim.Native.String.{◌++◌}
use dse_network.Prelude.{
  true, String, ◌≡◌, refl, ap, sym, subst, eq_iff, ◌∙◌, true, Option, some, ok, deref, str_eq, inl,
  inr, Bool-cases, >>=-elim, deref-eq-ok, if◌then◌else◌,
}
use dse_network.Types.{Codec, NetworkMessage, NetworkSignal, Network}
use dse_network.Engine.Member.{
  Primitive, primitive, func_of, uint8, uint16, uint32, uint64, int8, int16, int32, int64, float,
  double,
}
use dse_network.Loader.{symbol_owner, find_codec, assign_int8, assign_wider, load_network_funcs}

-- The text that selects each branch.
abbrev spelled : Primitive → String
spelled uint8 = "uint8_t"
spelled uint16 = "uint16_t"
spelled uint32 = "uint32_t"
spelled uint64 = "uint64_t"
spelled int8 = "int8_t"
spelled int16 = "int16_t"
spelled int32 = "int32_t"
spelled int64 = "int64_t"
spelled float = "float"
spelled double = "double"

-- One test of the chain.
pick :
    (t : String) (x p : Primitive) (rest : Option Primitive)
    → (if str_eq t (spelled x) then some x else rest) ≡ some p
    → (rest ≡ some p → str_eq t (spelled p) ≡ true)
    → str_eq t (spelled p) ≡ true
pick t x p rest e otherwise = elim (Bool-cases (str_eq t (spelled x))) [
  | inl same ↦
      let chosen : some x ≡ some p = sym (rw same refl) ∙ e in
      let here : x ≡ p = cc in rw (sym here) same
  | inr other ↦ otherwise (sym (rw other refl) ∙ e)
]

primitive-spelled :
    (t : String) (p : Primitive) → primitive t ≡ some p → str_eq t (spelled p) ≡ true
unfolding primitive
primitive-spelled t p e = pick t uint8 p _ e λ e. pick t uint16 p _ e λ e. pick t uint32 p _ e λ e.
    pick t uint64 p _ e λ e. pick t int8 p _ e λ e. pick t int16 p _ e λ e.
      pick t int32 p _ e
        λ e. pick t int64 p _ e λ e. pick t float p _ e λ e. pick t double p _ e λ e. absurd (cc)

-- The chain of the loader sets the functions that the chain of the engine calls.
abbrev assigned : String → Codec → NetworkSignal → NetworkSignal
assigned t c s = assign_wider t c (assign_int8 t c s)

spelled-assigned :
    (p : Primitive) (c : Codec) (s : NetworkSignal)
    → (func_of p (assigned (spelled p) c s) ≡ some c)
      × ((assigned (spelled p) c s).member_type ≡ s.member_type)
unfolding func_of assign_int8 assign_wider
spelled-assigned uint8 c s = (refl, refl)
spelled-assigned uint16 c s = (refl, refl)
spelled-assigned uint32 c s = (refl, refl)
spelled-assigned uint64 c s = (refl, refl)
spelled-assigned int8 c s = (refl, refl)
spelled-assigned int16 c s = (refl, refl)
spelled-assigned int32 c s = (refl, refl)
spelled-assigned int64 c s = (refl, refl)
spelled-assigned float c s = (refl, refl)
spelled-assigned double c s = (refl, refl)

primitive-assigned :
    (t : String) (p : Primitive) (c : Codec) (s : NetworkSignal)
    → primitive t ≡ some p
    → (func_of p (assigned t c s) ≡ some c) × ((assigned t c s).member_type ≡ s.member_type)
primitive-assigned t p c s e =
    subst
      (λ x. (func_of p (assigned x c s) ≡ some c) × ((assigned x c s).member_type ≡ s.member_type))
      (sym ((eq_iff t (spelled p)).0 (primitive-spelled t p e))) (spelled-assigned p c s)

-- After the functions of a signal were loaded with success, the three that the marshalling calls
-- for its type are those found under the names of the network, the message (or its container)
-- and the signal; its type is the one it had.
pub load_network_funcs_lem :
    (n : Network) (m : NetworkMessage) (name t : String) (p : Primitive) (s : NetworkSignal)
    {s' : NetworkSignal}
    → s.member_type ≡ some t
    → primitive t ≡ some p
    → load_network_funcs n m name s ≡ ok s'
    → (codec : Codec) × (find_codec n.message_lib (n.name ++ "_" ++ symbol_owner m ++ "_" ++ name)
        ≡ ok codec)
      × (func_of p s' ≡ some codec)
      × (s'.member_type ≡ some t)
unfolding load_network_funcs
load_network_funcs_lem n m name t p s {s'} typed known e =
    >>=-elim (find_codec n.message_lib (n.name ++ "_" ++ symbol_owner m ++ "_" ++ name)) _ e
      λ codec found e1. >>=-elim (deref s.member_type) _ e1 λ t' typed' e2.
        let same : t' ≡ t = cc (deref-eq-ok s.member_type typed') in
        let result : assigned t codec s ≡ s' = cc in
        (
          codec,
          found,
          ap (func_of p) (sym result) ∙ (primitive-assigned t p codec s known).0,
          ap (λ (x : NetworkSignal). x.member_type) (sym result)
              ∙ (primitive-assigned t p codec s known).1
              ∙ typed,
        )
