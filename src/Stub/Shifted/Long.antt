-- ===== src/Stub/Shifted/Long.antt =====
-- Numbers of 32 and 64 bits that lie across bytes.
use dse_network.Prelude.{ℕ, ◌+◌, ◌*◌, ◌/◌, ◌%◌, ◌^◌, ◌<◌, ◌≡◌, [], ◌∷◌, arith}
use dse_network.Stub.{unpack_left_shift, unpack_right_shift}
use dse_network.Stub.Wide.{or_all}
use dse_network.Stub.Shifted.{
  top_at, bottom_at, byte_at, above, multiple_63, multiple_55, multiple_47, multiple_39,
  multiple_31, multiple_23, multiple_15, multiple_7, small_63, small_55, small_47, small_39,
  small_31, small_23, small_15, small_7,
}

pub across_32 :
    (a v u : ℕ)
    → v < 2 ^ 32
    → u < 2
    → or_all (unpack_left_shift 32 (a * 2 + v / 2 ^ 31 % 2) 31 1) (
        unpack_left_shift 32 (v / 2 ^ 23 % 256) 23 255
        ∷ unpack_left_shift 32 (v / 2 ^ 15 % 256) 15 255
        ∷ unpack_left_shift 32 (v / 2 ^ 7 % 256) 7 255
        ∷ unpack_right_shift (v % 128 * 2 + u) 1 254
        ∷ [])
      ≡ v
unfolding or_all
across_32 a v u h g =
    rw
      (
        top_at 32 (a * 2 + v / 2 ^ 31 % 2) 31 (v / 2 ^ 31 % 2 * 2 ^ 31) (omega arith),
        byte_at 32 v 23 23 (v / 2 ^ 23 % 256 * 2 ^ 23) (omega arith),
        byte_at 32 v 15 15 (v / 2 ^ 15 % 256 * 2 ^ 15) (omega arith),
        byte_at 32 v 7 7 (v / 2 ^ 7 % 256 * 2 ^ 7) (omega arith),
        bottom_at (v % 128 * 2 + u) (v % 128) (omega arith),
        above 31 ((v / 2 ^ 31 % 2 * 2 ^ 31) / 2 ^ 31) (v / 2 ^ 31 % 2 * 2 ^ 31)
            (v / 2 ^ 23 % 256 * 2 ^ 23)
            (multiple_31 ((v / 2 ^ 31 % 2 * 2 ^ 31) / 2 ^ 31) (v / 2 ^ 31 % 2 * 2 ^ 31)
              (omega arith))
            (small_31 (v / 2 ^ 23 % 256 * 2 ^ 23) (omega arith)),
        above 23 ((v / 2 ^ 31 % 2 * 2 ^ 31 + v / 2 ^ 23 % 256 * 2 ^ 23) / 2 ^ 23)
            (v / 2 ^ 31 % 2 * 2 ^ 31 + v / 2 ^ 23 % 256 * 2 ^ 23) (v / 2 ^ 15 % 256 * 2 ^ 15)
            (multiple_23 ((v / 2 ^ 31 % 2 * 2 ^ 31 + v / 2 ^ 23 % 256 * 2 ^ 23) / 2 ^ 23)
              (v / 2 ^ 31 % 2 * 2 ^ 31 + v / 2 ^ 23 % 256 * 2 ^ 23) (omega arith))
            (small_23 (v / 2 ^ 15 % 256 * 2 ^ 15) (omega arith)),
        above 15
            ((v / 2 ^ 31 % 2 * 2 ^ 31 + v / 2 ^ 23 % 256 * 2 ^ 23 + v / 2 ^ 15 % 256 * 2 ^ 15)
              / 2 ^ 15)
            (v / 2 ^ 31 % 2 * 2 ^ 31 + v / 2 ^ 23 % 256 * 2 ^ 23 + v / 2 ^ 15 % 256 * 2 ^ 15)
            (v / 2 ^ 7 % 256 * 2 ^ 7)
            (multiple_15
              ((v / 2 ^ 31 % 2 * 2 ^ 31 + v / 2 ^ 23 % 256 * 2 ^ 23 + v / 2 ^ 15 % 256 * 2 ^ 15)
                / 2 ^ 15)
              (v / 2 ^ 31 % 2 * 2 ^ 31 + v / 2 ^ 23 % 256 * 2 ^ 23 + v / 2 ^ 15 % 256 * 2 ^ 15)
              (omega arith))
            (small_15 (v / 2 ^ 7 % 256 * 2 ^ 7) (omega arith)),
        above 7
            ((v / 2 ^ 31 % 2 * 2 ^ 31
                + v / 2 ^ 23 % 256 * 2 ^ 23
                + v / 2 ^ 15 % 256 * 2 ^ 15
                + v / 2 ^ 7 % 256 * 2 ^ 7)
              / 2 ^ 7)
            (v / 2 ^ 31 % 2 * 2 ^ 31
              + v / 2 ^ 23 % 256 * 2 ^ 23
              + v / 2 ^ 15 % 256 * 2 ^ 15
              + v / 2 ^ 7 % 256 * 2 ^ 7)
            (v % 128)
            (multiple_7
              ((v / 2 ^ 31 % 2 * 2 ^ 31
                  + v / 2 ^ 23 % 256 * 2 ^ 23
                  + v / 2 ^ 15 % 256 * 2 ^ 15
                  + v / 2 ^ 7 % 256 * 2 ^ 7)
                / 2 ^ 7)
              (v / 2 ^ 31 % 2 * 2 ^ 31
                + v / 2 ^ 23 % 256 * 2 ^ 23
                + v / 2 ^ 15 % 256 * 2 ^ 15
                + v / 2 ^ 7 % 256 * 2 ^ 7)
              (omega arith))
            (small_7 (v % 128) (omega arith)),
      )
      (omega arith)

pub across_64 :
    (a v u : ℕ)
    → v < 2 ^ 64
    → u < 2
    → or_all (unpack_left_shift 64 (a * 2 + v / 2 ^ 63 % 2) 63 1) (
        unpack_left_shift 64 (v / 2 ^ 55 % 256) 55 255
        ∷ unpack_left_shift 64 (v / 2 ^ 47 % 256) 47 255
        ∷ unpack_left_shift 64 (v / 2 ^ 39 % 256) 39 255
        ∷ unpack_left_shift 64 (v / 2 ^ 31 % 256) 31 255
        ∷ unpack_left_shift 64 (v / 2 ^ 23 % 256) 23 255
        ∷ unpack_left_shift 64 (v / 2 ^ 15 % 256) 15 255
        ∷ unpack_left_shift 64 (v / 2 ^ 7 % 256) 7 255
        ∷ unpack_right_shift (v % 128 * 2 + u) 1 254
        ∷ [])
      ≡ v
unfolding or_all
across_64 a v u h g =
    rw
      (
        top_at 64 (a * 2 + v / 2 ^ 63 % 2) 63 (v / 2 ^ 63 % 2 * 2 ^ 63) (omega arith),
        byte_at 64 v 55 55 (v / 2 ^ 55 % 256 * 2 ^ 55) (omega arith),
        byte_at 64 v 47 47 (v / 2 ^ 47 % 256 * 2 ^ 47) (omega arith),
        byte_at 64 v 39 39 (v / 2 ^ 39 % 256 * 2 ^ 39) (omega arith),
        byte_at 64 v 31 31 (v / 2 ^ 31 % 256 * 2 ^ 31) (omega arith),
        byte_at 64 v 23 23 (v / 2 ^ 23 % 256 * 2 ^ 23) (omega arith),
        byte_at 64 v 15 15 (v / 2 ^ 15 % 256 * 2 ^ 15) (omega arith),
        byte_at 64 v 7 7 (v / 2 ^ 7 % 256 * 2 ^ 7) (omega arith),
        bottom_at (v % 128 * 2 + u) (v % 128) (omega arith),
        above 63 ((v / 2 ^ 63 % 2 * 2 ^ 63) / 2 ^ 63) (v / 2 ^ 63 % 2 * 2 ^ 63)
            (v / 2 ^ 55 % 256 * 2 ^ 55)
            (multiple_63 ((v / 2 ^ 63 % 2 * 2 ^ 63) / 2 ^ 63) (v / 2 ^ 63 % 2 * 2 ^ 63)
              (omega arith))
            (small_63 (v / 2 ^ 55 % 256 * 2 ^ 55) (omega arith)),
        above 55 ((v / 2 ^ 63 % 2 * 2 ^ 63 + v / 2 ^ 55 % 256 * 2 ^ 55) / 2 ^ 55)
            (v / 2 ^ 63 % 2 * 2 ^ 63 + v / 2 ^ 55 % 256 * 2 ^ 55) (v / 2 ^ 47 % 256 * 2 ^ 47)
            (multiple_55 ((v / 2 ^ 63 % 2 * 2 ^ 63 + v / 2 ^ 55 % 256 * 2 ^ 55) / 2 ^ 55)
              (v / 2 ^ 63 % 2 * 2 ^ 63 + v / 2 ^ 55 % 256 * 2 ^ 55) (omega arith))
            (small_55 (v / 2 ^ 47 % 256 * 2 ^ 47) (omega arith)),
        above 47
            ((v / 2 ^ 63 % 2 * 2 ^ 63 + v / 2 ^ 55 % 256 * 2 ^ 55 + v / 2 ^ 47 % 256 * 2 ^ 47)
              / 2 ^ 47)
            (v / 2 ^ 63 % 2 * 2 ^ 63 + v / 2 ^ 55 % 256 * 2 ^ 55 + v / 2 ^ 47 % 256 * 2 ^ 47)
            (v / 2 ^ 39 % 256 * 2 ^ 39)
            (multiple_47
              ((v / 2 ^ 63 % 2 * 2 ^ 63 + v / 2 ^ 55 % 256 * 2 ^ 55 + v / 2 ^ 47 % 256 * 2 ^ 47)
                / 2 ^ 47)
              (v / 2 ^ 63 % 2 * 2 ^ 63 + v / 2 ^ 55 % 256 * 2 ^ 55 + v / 2 ^ 47 % 256 * 2 ^ 47)
              (omega arith))
            (small_47 (v / 2 ^ 39 % 256 * 2 ^ 39) (omega arith)),
        above 39
            ((v / 2 ^ 63 % 2 * 2 ^ 63
                + v / 2 ^ 55 % 256 * 2 ^ 55
                + v / 2 ^ 47 % 256 * 2 ^ 47
                + v / 2 ^ 39 % 256 * 2 ^ 39)
              / 2 ^ 39)
            (v / 2 ^ 63 % 2 * 2 ^ 63
              + v / 2 ^ 55 % 256 * 2 ^ 55
              + v / 2 ^ 47 % 256 * 2 ^ 47
              + v / 2 ^ 39 % 256 * 2 ^ 39)
            (v / 2 ^ 31 % 256 * 2 ^ 31)
            (multiple_39
              ((v / 2 ^ 63 % 2 * 2 ^ 63
                  + v / 2 ^ 55 % 256 * 2 ^ 55
                  + v / 2 ^ 47 % 256 * 2 ^ 47
                  + v / 2 ^ 39 % 256 * 2 ^ 39)
                / 2 ^ 39)
              (v / 2 ^ 63 % 2 * 2 ^ 63
                + v / 2 ^ 55 % 256 * 2 ^ 55
                + v / 2 ^ 47 % 256 * 2 ^ 47
                + v / 2 ^ 39 % 256 * 2 ^ 39)
              (omega arith))
            (small_39 (v / 2 ^ 31 % 256 * 2 ^ 31) (omega arith)),
        above 31
            ((v / 2 ^ 63 % 2 * 2 ^ 63
                + v / 2 ^ 55 % 256 * 2 ^ 55
                + v / 2 ^ 47 % 256 * 2 ^ 47
                + v / 2 ^ 39 % 256 * 2 ^ 39
                + v / 2 ^ 31 % 256 * 2 ^ 31)
              / 2 ^ 31)
            (v / 2 ^ 63 % 2 * 2 ^ 63
              + v / 2 ^ 55 % 256 * 2 ^ 55
              + v / 2 ^ 47 % 256 * 2 ^ 47
              + v / 2 ^ 39 % 256 * 2 ^ 39
              + v / 2 ^ 31 % 256 * 2 ^ 31)
            (v / 2 ^ 23 % 256 * 2 ^ 23)
            (multiple_31
              ((v / 2 ^ 63 % 2 * 2 ^ 63
                  + v / 2 ^ 55 % 256 * 2 ^ 55
                  + v / 2 ^ 47 % 256 * 2 ^ 47
                  + v / 2 ^ 39 % 256 * 2 ^ 39
                  + v / 2 ^ 31 % 256 * 2 ^ 31)
                / 2 ^ 31)
              (v / 2 ^ 63 % 2 * 2 ^ 63
                + v / 2 ^ 55 % 256 * 2 ^ 55
                + v / 2 ^ 47 % 256 * 2 ^ 47
                + v / 2 ^ 39 % 256 * 2 ^ 39
                + v / 2 ^ 31 % 256 * 2 ^ 31)
              (omega arith))
            (small_31 (v / 2 ^ 23 % 256 * 2 ^ 23) (omega arith)),
        above 23
            ((v / 2 ^ 63 % 2 * 2 ^ 63
                + v / 2 ^ 55 % 256 * 2 ^ 55
                + v / 2 ^ 47 % 256 * 2 ^ 47
                + v / 2 ^ 39 % 256 * 2 ^ 39
                + v / 2 ^ 31 % 256 * 2 ^ 31
                + v / 2 ^ 23 % 256 * 2 ^ 23)
              / 2 ^ 23)
            (v / 2 ^ 63 % 2 * 2 ^ 63
              + v / 2 ^ 55 % 256 * 2 ^ 55
              + v / 2 ^ 47 % 256 * 2 ^ 47
              + v / 2 ^ 39 % 256 * 2 ^ 39
              + v / 2 ^ 31 % 256 * 2 ^ 31
              + v / 2 ^ 23 % 256 * 2 ^ 23)
            (v / 2 ^ 15 % 256 * 2 ^ 15)
            (multiple_23
              ((v / 2 ^ 63 % 2 * 2 ^ 63
                  + v / 2 ^ 55 % 256 * 2 ^ 55
                  + v / 2 ^ 47 % 256 * 2 ^ 47
                  + v / 2 ^ 39 % 256 * 2 ^ 39
                  + v / 2 ^ 31 % 256 * 2 ^ 31
                  + v / 2 ^ 23 % 256 * 2 ^ 23)
                / 2 ^ 23)
              (v / 2 ^ 63 % 2 * 2 ^ 63
                + v / 2 ^ 55 % 256 * 2 ^ 55
                + v / 2 ^ 47 % 256 * 2 ^ 47
                + v / 2 ^ 39 % 256 * 2 ^ 39
                + v / 2 ^ 31 % 256 * 2 ^ 31
                + v / 2 ^ 23 % 256 * 2 ^ 23)
              (omega arith))
            (small_23 (v / 2 ^ 15 % 256 * 2 ^ 15) (omega arith)),
        above 15
            ((v / 2 ^ 63 % 2 * 2 ^ 63
                + v / 2 ^ 55 % 256 * 2 ^ 55
                + v / 2 ^ 47 % 256 * 2 ^ 47
                + v / 2 ^ 39 % 256 * 2 ^ 39
                + v / 2 ^ 31 % 256 * 2 ^ 31
                + v / 2 ^ 23 % 256 * 2 ^ 23
                + v / 2 ^ 15 % 256 * 2 ^ 15)
              / 2 ^ 15)
            (v / 2 ^ 63 % 2 * 2 ^ 63
              + v / 2 ^ 55 % 256 * 2 ^ 55
              + v / 2 ^ 47 % 256 * 2 ^ 47
              + v / 2 ^ 39 % 256 * 2 ^ 39
              + v / 2 ^ 31 % 256 * 2 ^ 31
              + v / 2 ^ 23 % 256 * 2 ^ 23
              + v / 2 ^ 15 % 256 * 2 ^ 15)
            (v / 2 ^ 7 % 256 * 2 ^ 7)
            (multiple_15
              ((v / 2 ^ 63 % 2 * 2 ^ 63
                  + v / 2 ^ 55 % 256 * 2 ^ 55
                  + v / 2 ^ 47 % 256 * 2 ^ 47
                  + v / 2 ^ 39 % 256 * 2 ^ 39
                  + v / 2 ^ 31 % 256 * 2 ^ 31
                  + v / 2 ^ 23 % 256 * 2 ^ 23
                  + v / 2 ^ 15 % 256 * 2 ^ 15)
                / 2 ^ 15)
              (v / 2 ^ 63 % 2 * 2 ^ 63
                + v / 2 ^ 55 % 256 * 2 ^ 55
                + v / 2 ^ 47 % 256 * 2 ^ 47
                + v / 2 ^ 39 % 256 * 2 ^ 39
                + v / 2 ^ 31 % 256 * 2 ^ 31
                + v / 2 ^ 23 % 256 * 2 ^ 23
                + v / 2 ^ 15 % 256 * 2 ^ 15)
              (omega arith))
            (small_15 (v / 2 ^ 7 % 256 * 2 ^ 7) (omega arith)),
        above 7
            ((v / 2 ^ 63 % 2 * 2 ^ 63
                + v / 2 ^ 55 % 256 * 2 ^ 55
                + v / 2 ^ 47 % 256 * 2 ^ 47
                + v / 2 ^ 39 % 256 * 2 ^ 39
                + v / 2 ^ 31 % 256 * 2 ^ 31
                + v / 2 ^ 23 % 256 * 2 ^ 23
                + v / 2 ^ 15 % 256 * 2 ^ 15
                + v / 2 ^ 7 % 256 * 2 ^ 7)
              / 2 ^ 7)
            (v / 2 ^ 63 % 2 * 2 ^ 63
              + v / 2 ^ 55 % 256 * 2 ^ 55
              + v / 2 ^ 47 % 256 * 2 ^ 47
              + v / 2 ^ 39 % 256 * 2 ^ 39
              + v / 2 ^ 31 % 256 * 2 ^ 31
              + v / 2 ^ 23 % 256 * 2 ^ 23
              + v / 2 ^ 15 % 256 * 2 ^ 15
              + v / 2 ^ 7 % 256 * 2 ^ 7)
            (v % 128)
            (multiple_7
              ((v / 2 ^ 63 % 2 * 2 ^ 63
                  + v / 2 ^ 55 % 256 * 2 ^ 55
                  + v / 2 ^ 47 % 256 * 2 ^ 47
                  + v / 2 ^ 39 % 256 * 2 ^ 39
                  + v / 2 ^ 31 % 256 * 2 ^ 31
                  + v / 2 ^ 23 % 256 * 2 ^ 23
                  + v / 2 ^ 15 % 256 * 2 ^ 15
                  + v / 2 ^ 7 % 256 * 2 ^ 7)
                / 2 ^ 7)
              (v / 2 ^ 63 % 2 * 2 ^ 63
                + v / 2 ^ 55 % 256 * 2 ^ 55
                + v / 2 ^ 47 % 256 * 2 ^ 47
                + v / 2 ^ 39 % 256 * 2 ^ 39
                + v / 2 ^ 31 % 256 * 2 ^ 31
                + v / 2 ^ 23 % 256 * 2 ^ 23
                + v / 2 ^ 15 % 256 * 2 ^ 15
                + v / 2 ^ 7 % 256 * 2 ^ 7)
              (omega arith))
            (small_7 (v % 128) (omega arith)),
      )
      (omega arith)
