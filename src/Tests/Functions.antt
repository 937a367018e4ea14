-- ===== src/Tests/Functions.antt =====
-- The functions that are loaded, and what they do to payloads.
use dse_network.Prelude.{
  String, ◌%◌, ◌≡◌, ◌↔◌, refl, true, false, none, some, [], ◌∷◌, map, ok, arith,
}
use dse_network.Types.{
  Codec, FunctionResult, Network, NetworkFunction, NetworkFunctionFunc, NetworkMessage,
}
use dse_network.Engine.Member.{uint8, primitive, func_of}
use dse_network.Function.{
  ebadmsg, net_off, network_function_apply_encode, apply_decode, run_decode_functions,
  run_decode_function, network_function_annotation,
}
use dse_network.Function.Apply.{Refuses, network_function_apply_encode_off, apply_decode_iff}
use dse_network.Bus.{encode_messages}
use dse_network.Bus.Encode.{without_mark}
use dse_network.Loader.{find_codec, load_network_funcs, assign_int8, assign_wider, symbol_owner}
use dse_network.Loader.Complete.{load_network_funcs_lem}
use dse_network.Library.{eproto, crc_generate, crc_validate}
use dse_network.Library.Crc.{
  sum_below, crc_validate-crc_generate, crc_validate-corrupt, crc_generate_after_eproto,
}
use dse_network.Tests.Data.{byte_signal, status, cyclic, network}

-- The pattern of 1.0.
abbrev switched_off : Network
switched_off = record network { netoff_value = some 4607182418800017408 }

network_function_apply_encode_off_example :
    (n' : Network) × (network_function_apply_encode switched_off ≡ ok n')
    × (n'.messages ≡ map without_mark (status ∷ cyclic ∷ []))
    × ((encode_messages n'.messages).0 ≡ [])
unfolding net_off
network_function_apply_encode_off_example = network_function_apply_encode_off switched_off refl

-- A function of a function library that refuses every payload.
abbrev refuse : NetworkFunctionFunc
refuse =
    λ annotations inst payload len. ok (record { rc = ebadmsg; inst = inst; payload = payload })

abbrev function : String → NetworkFunctionFunc → NetworkFunction
function name f = record { name = name; annotations = none; inst = none; function = some f }

abbrev guarded : NetworkMessage
guarded = record status { decode_functions = function "refuse" refuse ∷ []; update_signals = true }

abbrev guarded_after : NetworkMessage
guarded_after = record guarded { update_signals = false }

apply_decode_iff_example :
    ((guarded_after.update_signals ≡ false) ↔ Refuses guarded.decode_functions (0 ∷ 0 ∷ []) 2)
    × (guarded_after.buffer ≡ 5 ∷ 3 ∷ [])
unfolding apply_decode run_decode_functions run_decode_function
apply_decode_iff_example = apply_decode_iff guarded {m' = guarded_after} refl refl

load_network_funcs_lem_example :
    (codec : Codec) × (find_codec network.message_lib "can_status_speed" ≡ ok codec)
    × (func_of uint8 (byte_signal "speed" 0) ≡ some codec)
    × ((byte_signal "speed" 0).member_type ≡ some "uint8_t")
unfolding load_network_funcs primitive find_codec assign_int8 assign_wider symbol_owner
load_network_funcs_lem_example =
    load_network_funcs_lem network status "speed" "uint8_t" uint8 (byte_signal "speed" 0)
      {s' = byte_signal "speed" 0} refl refl refl

crc_validate-crc_generate_example :
    (r : FunctionResult) × (crc_generate (λ text. 0) none (some (1 ∷ [])) (200 ∷ 0 ∷ 100 ∷ []) 3
      ≡ ok r)
    × (r.rc ≡ 0)
    × (crc_validate (λ text. 0) none (some (1 ∷ [])) r.payload 3 ≡ ok r)
crc_validate-crc_generate_example =
    crc_validate-crc_generate (λ text. 0) none 1 (200 ∷ 0 ∷ 100 ∷ []) 3 (omega arith) (omega arith)
      (omega arith, (omega arith, (omega arith, tt)))

crc_validate-corrupt_example :
    crc_validate (λ text. 0) none (some (1 ∷ [])) (200 ∷ 44 ∷ 101 ∷ []) 3
    ≡ ok (record { rc = ebadmsg; inst = some (1 ∷ []); payload = 200 ∷ 44 ∷ 101 ∷ [] })
crc_validate-corrupt_example =
    crc_validate-corrupt (λ text. 0) none 1 (200 ∷ 44 ∷ 100 ∷ []) 3 2 101 (omega arith)
      (omega arith) (omega arith, (omega arith, (omega arith, tt))) refl (omega arith) (omega arith)
      (omega arith)

crc_generate_after_eproto_example :
    (crc_generate (λ text. 0) none none (7 ∷ 1 ∷ []) 2
      ≡ ok (record { rc = eproto; inst = some (0 ∷ []); payload = 7 ∷ 1 ∷ [] }))
    × (crc_generate (λ text. 0) none (some (0 ∷ [])) (7 ∷ 1 ∷ []) 2
        ≡ ok (record {
          rc = 0;
          inst = some (0 ∷ []);
          payload = (sum_below 0 (7 ∷ 1 ∷ []) 2 % 256) ∷ 1 ∷ [];
        }))
unfolding network_function_annotation
crc_generate_after_eproto_example =
    crc_generate_after_eproto (λ text. 0) none 7 (1 ∷ []) 2 refl (omega arith)
