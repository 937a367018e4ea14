-- ===== src/Function/Apply.antt =====
-- What the function library's functions do to the messages.
use dse_network.Prelude.{
  ℕ, ◌==◌, ◌≡◌, ◌⊎◌, inl, inr, refl, sym, ap, ◌↔◌, ◌∙◌, true, false, Bool, some, List, [], ◌∷◌, map,
  ok, arith, >>=-eq-ok, Bool-cases, Option-cases,
}
use dse_network.Types.{
  FunctionResult, NetworkFunction, NetworkFunctionFunc, NetworkMessage, Network,
}
use dse_network.Function.{
  ebadmsg, net_off, apply_encode, map_messages, network_function_apply_encode, run_decode_function,
  run_decode_functions, apply_decode,
}
use dse_network.Bus.{frame_of, encode_messages}
use dse_network.Bus.Encode.{encode_messages-frames, without_mark, pending-without_mark}

map_messages-off :
    (messages : List NetworkMessage)
    → map_messages (apply_encode true) messages ≡ ok (map without_mark messages)
unfolding apply_encode
map_messages-off [] = refl
map_messages-off (m ∷ messages) = rw (map_messages-off messages) refl

-- While the network is off, applying the encode functions succeeds and runs none of them: it only
-- takes the mark from every message, so that the messages give no frame to write.
pub network_function_apply_encode_off :
    (n : Network)
    → net_off n.netoff_value ≡ true
    → (n' : Network) × (network_function_apply_encode n ≡ ok n')
      × (n'.messages ≡ map without_mark n.messages)
      × ((encode_messages n'.messages).0 ≡ [])
unfolding network_function_apply_encode
network_function_apply_encode_off n off = (
  record n { messages = map without_mark n.messages },
  rw (off, map_messages-off n.messages) refl,
  refl,
  encode_messages-frames (map without_mark n.messages)
      ∙ ap (map frame_of) (pending-without_mark n.messages),
)

-- A decode function of the list, run on the payload as the functions before it left it, returns
-- EBADMSG.
pub data Refuses : List NetworkFunction → List ℕ → ℕ → Type 0 where
  here :
      {nf : NetworkFunction} {functions : List NetworkFunction} {payload : List ℕ} {len : ℕ}
      (f : NetworkFunctionFunc) (r : FunctionResult)
      → nf.function ≡ some f
      → f nf.annotations nf.inst payload len ≡ ok r
      → r.rc ≡ ebadmsg
      → Refuses (nf ∷ functions) payload len
  later :
      {nf : NetworkFunction} {functions : List NetworkFunction} {payload : List ℕ} {len : ℕ}
      (one : NetworkFunction × List ℕ × Bool)
      → run_decode_function nf payload len true ≡ ok one
      → Refuses functions one.1 len
      → Refuses (nf ∷ functions) payload len

-- What one function that ends normally makes of the flag: it keeps it, or returned EBADMSG.
one_flag :
    (nf : NetworkFunction) (payload : List ℕ) (len : ℕ) (update : Bool)
    {one : NetworkFunction × List ℕ × Bool}
    → run_decode_function nf payload len update ≡ ok one
    → (one.2 ≡ update)
      ⊎ ((f : NetworkFunctionFunc) × (r : FunctionResult) × (nf.function ≡ some f)
          × (f nf.annotations nf.inst payload len ≡ ok r)
          × (r.rc ≡ ebadmsg)
          × (one.2 ≡ false))
unfolding run_decode_function
one_flag nf payload len update {one} e = elim (Option-cases nf.function) [
  | inl absent ↦ inl (ground arith)
  | inr (f, present) ↦
      let (r, ran, rest) =
        >>=-eq-ok (f nf.annotations nf.inst payload len) _
          (rw (present, run_decode_function) at e) in
      elim (Bool-cases (r.rc == ebadmsg)) [
        | inl bad ↦ inr (f, r, present, ran, ground arith, ground arith)
        | inr good ↦ inl (ground arith)
      ]
]

one_withdrawn :
    (nf : NetworkFunction) (payload : List ℕ) (len : ℕ) {one : NetworkFunction × List ℕ × Bool}
    → run_decode_function nf payload len false ≡ ok one
    → one.2 ≡ false
one_withdrawn nf payload len e = elim (one_flag nf payload len false e) [
  | inl kept ↦ kept
  | inr (_, _, _, _, _, off) ↦ off
]

-- An update once withdrawn stays so.
update_withdrawn :
    (functions : List NetworkFunction) (payload : List ℕ) (len : ℕ)
    {done : List NetworkFunction × List ℕ × Bool}
    → run_decode_functions functions payload len false ≡ ok done
    → done.2 ≡ false
unfolding run_decode_functions
update_withdrawn [] payload len e = ground arith
update_withdrawn (nf ∷ functions) payload len e =
    let (one, ran, rest) = >>=-eq-ok (run_decode_function nf payload len false) _ e in
    let off : one.2 ≡ false = one_withdrawn nf payload len ran in
    let (others, ran', last) = >>=-eq-ok (run_decode_functions functions one.1 len one.2) _ rest in
    let end : others.2 ≡ false = update_withdrawn functions one.1 len (rw off at ran') in
    ground arith

-- The list after its first function.
after_first :
    (nf : NetworkFunction) (functions : List NetworkFunction) (payload : List ℕ) (len : ℕ)
    (update : Bool) {one : NetworkFunction × List ℕ × Bool}
    {all : List NetworkFunction × List ℕ × Bool}
    → run_decode_function nf payload len update ≡ ok one
    → run_decode_functions (nf ∷ functions) payload len update ≡ ok all
    → (others : List NetworkFunction × List ℕ × Bool) × (run_decode_functions functions one.1 len
          one.2
        ≡ ok others)
      × (all.2 ≡ others.2)
unfolding run_decode_functions
after_first nf functions payload len update {one} ran e =
    let (others, ran', last) =
      >>=-eq-ok (run_decode_functions functions one.1 len one.2) _ (rw ran at e) in
    (others, ran', ground arith)

refused :
    {functions : List NetworkFunction} {payload : List ℕ} {len : ℕ}
    {done : List NetworkFunction × List ℕ × Bool}
    → Refuses functions payload len
    → run_decode_functions functions payload len true ≡ ok done
    → done.2 ≡ false
refused (here {nf} {functions} {payload} {len} f r present ran bad) e =
    let stopped : run_decode_function nf payload len true
        ≡ ok (record nf { inst = r.inst }, r.payload, false) =
      unfold run_decode_function in rw (present, run_decode_function, ran) (ground arith) in
    let (others, ran', same) = after_first nf functions payload len true stopped e in
    same ∙ update_withdrawn functions r.payload len ran'
refused (later {nf} {functions} {payload} {len} one ran w) e =
    let (others, ran', same) = after_first nf functions payload len true ran e in
    elim (Bool-cases one.2) [
      | inl on ↦ same ∙ refused w (rw on at ran')
      | inr off ↦ same ∙ update_withdrawn functions one.1 len (rw off at ran')
    ]

Refuses-of_withdrawn :
    (functions : List NetworkFunction) (payload : List ℕ) (len : ℕ)
    {done : List NetworkFunction × List ℕ × Bool}
    → run_decode_functions functions payload len true ≡ ok done
    → done.2 ≡ false
    → Refuses functions payload len
unfolding run_decode_functions
Refuses-of_withdrawn [] payload len e off = absurd (ground arith)
Refuses-of_withdrawn (nf ∷ functions) payload len e off =
    let (one, ran, _) = >>=-eq-ok (run_decode_function nf payload len true) _ e in
    let (others, ran', same) = after_first nf functions payload len true ran e in
    elim (one_flag nf payload len true ran) [
      | inl on ↦
          later one ran (Refuses-of_withdrawn functions one.1 len (rw on at ran') (sym same ∙ off))
      | inr (f, r, present, called, bad, _) ↦ here f r present called bad
    ]

-- A received message, whose decode functions are run with success: its update is withdrawn exactly
-- if one of them refuses the payload with EBADMSG. Its buffer stays as it is.
pub apply_decode_iff :
    (m : NetworkMessage) {m' : NetworkMessage}
    → m.update_signals ≡ true
    → apply_decode m ≡ ok m'
    → ((m'.update_signals ≡ false) ↔ Refuses m.decode_functions m.payload m.payload_len)
      × (m'.buffer ≡ m.buffer)
unfolding apply_decode
apply_decode_iff m {m'} received e =
    let (done, ran, rest) =
      >>=-eq-ok (run_decode_functions m.decode_functions m.payload m.payload_len true) _
        (rw received at e) in
    let flag : m'.update_signals ≡ done.2 = ground arith in
    (
      (
        λ off. Refuses-of_withdrawn m.decode_functions m.payload m.payload_len ran (sym flag ∙ off),
        λ w. flag ∙ refused w ran,
      ),
      ground arith,
    )
