-- ===== src/Engine/Member.antt =====
-- The primitive type of a signal's struct member, as dse/network/engine.c reads it: by the chain
-- of `strcmp` tests on `member_type` that the marshalling functions share. Each branch has the
-- width of its cell, its codec, and the C type of the local variable `_value`.
use dse_network.Prelude.{
  ℕ, String, ◌+◌, ◌-◌, ◌%◌, ◌^◌, Option, none, some, str_eq, ltb, if◌then◌else◌,
}
use dse_network.Types.{NetworkSignal, Codec}

pub data Primitive : Type 0 where
  uint8 uint16 uint32 uint64 int8 int16 int32 int64 float double : Primitive

unfoldable pub primitive : String → Option Primitive
primitive t =
    if str_eq t "uint8_t"
    then some uint8
    else if str_eq t "uint16_t"
    then some uint16
    else if str_eq t "uint32_t"
    then some uint32
    else if str_eq t "uint64_t"
    then some uint64
    else if str_eq t "int8_t"
    then some int8
    else if str_eq t "int16_t"
    then some int16
    else if str_eq t "int32_t"
    then some int32
    else if str_eq t "int64_t"
    then some int64
    else if str_eq t "float"
    then some float
    else if str_eq t "double"
    then some double
    else none

-- sizeof
unfoldable pub size_of : Primitive → ℕ
size_of uint8 = 1
size_of uint16 = 2
size_of uint32 = 4
size_of uint64 = 8
size_of int8 = 1
size_of int16 = 2
size_of int32 = 4
size_of int64 = 8
size_of float = 4
size_of double = 8

-- The functions that a branch calls: a signed and an unsigned type share them.
unfoldable pub func_of : Primitive → NetworkSignal → Option Codec
func_of uint8 s = s.func_int8
func_of uint16 s = s.func_int16
func_of uint32 s = s.func_int32
func_of uint64 s = s.func_int64
func_of int8 s = s.func_int8
func_of int16 s = s.func_int16
func_of int32 s = s.func_int32
func_of int64 s = s.func_int64
func_of float s = s.func_float
func_of double s = s.func_double

-- An `int16_t` converted to `int64_t`, on bit patterns.
unfoldable pub sign_extend_16_64 : ℕ → ℕ
sign_extend_16_64 x = if ltb x (2 ^ 15) then x else x + 2 ^ 64 - 2 ^ 16

-- What is left of an encoded value in `_value`, as the pattern that the range function is given
-- and that is stored. The branch for "int64_t" declares `int16_t _value`.
unfoldable pub narrow : Primitive → ℕ → ℕ
unfolding sign_extend_16_64
narrow uint8 x = x % 2 ^ 8
narrow uint16 x = x % 2 ^ 16
narrow uint32 x = x % 2 ^ 32
narrow uint64 x = x % 2 ^ 64
narrow int8 x = x % 2 ^ 8
narrow int16 x = x % 2 ^ 16
narrow int32 x = x % 2 ^ 32
narrow int64 x = sign_extend_16_64 (x % 2 ^ 16)
narrow float x = x % 2 ^ 32
narrow double x = x % 2 ^ 64
