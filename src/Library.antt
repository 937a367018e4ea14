-- ===== src/Library.antt =====
-- The example function library, dse/network/examples/stub/functions: a counter and a checksum in
-- the payload of a message. `calloc` is taken to succeed; `strtoul` is the C library's reading of
-- a decimal number.
pub mod Crc
pub mod Works
use dse_network.Prelude.{
  ℕ, zero, suc, String, ◌+◌, ◌-◌, ◌%◌, ◌==◌, true, false, Option, none, some, List, [], ◌∷◌,
  Outcome, ok, ◌>>=◌, deref, get_elem?, get_or, set, if◌then◌else◌,
}
use dse_network.Types.{Annotations, FunctionResult}
use dse_network.Function.{network_function_annotation, ebadmsg}

-- EINVAL and EPROTO of errno.h on Linux.
abbrev pub einval : ℕ
einval = 22

abbrev pub eproto : ℕ
eproto = 71

-- `InstanceData` is a block of one byte, the position.
unfoldable pub position_of : List ℕ → ℕ
position_of inst = get_or inst 0 0

-- The call of `alloc_inst_data`: a block of zeros, once.
unfoldable pub alloc_inst_data : Option (List ℕ) → List ℕ
alloc_inst_data none = 0 ∷ []
alloc_inst_data (some inst) = inst

-- One step of the loop of `crc_generate`; the byte at the position is not read.
unfoldable pub crc_add : ℕ → List ℕ → ℕ → ℕ → Outcome ℕ
crc_add position payload i crc =
    if i == position then ok crc else (do b ← deref (get_elem? payload i); ok ((crc + b) % 256))

-- The loop from index `i` on, with `left` rounds to go.
unfoldable pub crc_sum : ℕ → List ℕ → ℕ → ℕ → ℕ → Outcome ℕ
unfolding crc_add
crc_sum position payload i zero crc = ok crc
crc_sum position payload i (suc left) crc = do
  crc' ← crc_add position payload i crc
  crc_sum position payload (i + 1) left crc'

unfoldable pub crc_subtract : ℕ → List ℕ → ℕ → ℕ → Outcome ℕ
crc_subtract position payload i crc =
    if i == position
    then ok crc
    else (do b ← deref (get_elem? payload i); ok ((crc + 256 - b) % 256))

-- The loop of `crc_validate`, from the last index down.
unfoldable pub crc_rest : ℕ → List ℕ → ℕ → ℕ → Outcome ℕ
unfolding crc_subtract
crc_rest position payload zero crc = ok crc
crc_rest position payload (suc idx) crc = do
  crc' ← crc_subtract position payload idx crc
  crc_rest position payload idx crc'

module _ (strtoul : String → ℕ) where
  -- The instance data of a call and the return code: EPROTO where the annotation is missing.
  unfoldable pub configure : Option Annotations → Option (List ℕ) → ℕ × List ℕ
  unfolding alloc_inst_data network_function_annotation
  configure annotations (some inst) = (0, inst)
  configure annotations none = elim (network_function_annotation annotations "position") [
    | none ↦ (eproto, alloc_inst_data none)
    | some value ↦ (0, strtoul value % 256 ∷ [])
  ]

  -- The guards and the configuration that the three functions begin with; `run` is the rest, on
  -- the position.
  unfoldable pub with_position :
      Option Annotations
      → Option (List ℕ)
      → List ℕ
      → (ℕ → Outcome (ℕ × List ℕ))
      → Outcome FunctionResult
  unfolding configure position_of
  with_position annotations inst [] run = ok (record { rc = einval; inst = inst; payload = [] })
  with_position annotations inst (b ∷ bs) run =
      let (rc, block) = configure annotations inst in
      elim (rc == 0) [
        | false ↦ ok (record { rc = rc; inst = some block; payload = b ∷ bs })
        | true ↦ (do
          done ← run (position_of block)
          ok (record { rc = done.0; inst = some block; payload = done.1 }))
      ]

  unfoldable pub counter_inc_uint8 :
      Option Annotations → Option (List ℕ) → List ℕ → ℕ → Outcome FunctionResult
  unfolding with_position
  counter_inc_uint8 annotations inst payload len =
      with_position annotations inst payload λ position. (do
        counter ← deref (get_elem? payload position)
        ok (0, set payload position ((counter + 1) % 256)))

  unfoldable pub crc_generate :
      Option Annotations → Option (List ℕ) → List ℕ → ℕ → Outcome FunctionResult
  unfolding with_position crc_sum
  crc_generate annotations inst payload len = with_position annotations inst payload λ position. (do
    crc ← crc_sum position payload 0 len 0
    _ ← deref (get_elem? payload position)
    ok (0, set payload position crc))

  unfoldable pub crc_validate :
      Option Annotations → Option (List ℕ) → List ℕ → ℕ → Outcome FunctionResult
  unfolding with_position crc_rest
  crc_validate annotations inst payload len = with_position annotations inst payload λ position. (do
    stored ← deref (get_elem? payload position)
    crc ← crc_rest position payload len stored
    ok (if crc == 0 then (0, payload) else (ebadmsg, payload)))
