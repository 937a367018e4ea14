-- ===== src/Stub/Floats/Mux.antt =====
-- What is packed into a mux_message is unpacked again.
use dse_network.Prelude.{
  ℕ, ◌^◌, ◌==◌, ◌≤◌, ◌<◌, ◌≡◌, inl, inr, refl, ap, ap₂, ◌∙◌, List, [], ◌++◌, ltb, false, get_or,
  Bool-cases, if_true, if_false, sym, if◌then◌else◌, arith,
}
use dse_network.Stub.{or_byte, unpack_left_shift, unpack_right_shift}
use dse_network.Stub.Wide.{clear_first, or_bytes, or_all, MuxMessage}
use dse_network.Stub.Floats.{
  double_bytes, float_bytes, unpack_double, unpack_float, header_bytes, selected_bytes,
  unpack_header_id, unpack_selected, stub_mux_message_pack, stub_mux_message_unpack,
}
use dse_network.Stub.Members.{
  packed_low, packed_byte, one_byte, three_bytes, four_bytes, eight_bytes,
}

le-ltb_12 : (size : ℕ) → 12 ≤ size → ltb size 12 ≡ false
le-ltb_12 size h = ground arith

-- What a mux_message carries of a message: the header, and the member that the header id selects.
abbrev pub carried : MuxMessage → MuxMessage → MuxMessage
carried message old =
    if message.header_id == 601
    then record message { bar_float = old.bar_float }
    else if message.header_id == 602
    then record message { foo_double = old.foo_double }
    else record old { header_id = message.header_id; header_dlc = message.header_dlc }

-- The parts of a packed message, for each selection.
module _ (before : List ℕ) (src : MuxMessage) where
  abbrev out_double : List ℕ
  out_double = or_bytes (clear_first 12 before) (header_bytes src ++ double_bytes 4 src.foo_double)

  header_double : src.header_id < 2 ^ 24 → unpack_header_id out_double ≡ src.header_id
  unfolding clear_first or_bytes or_byte header_bytes double_bytes float_bytes unpack_header_id
      unpack_left_shift unpack_right_shift or_all
  header_double h =
      rw (packed_low src.header_id, packed_byte src.header_id 8, packed_byte src.header_id 16)
        (three_bytes src.header_id h)

  dlc_double :
      src.header_dlc < 2 ^ 8 → unpack_right_shift (get_or out_double 3 0) 0 255 ≡ src.header_dlc
  unfolding clear_first or_bytes or_byte header_bytes double_bytes float_bytes unpack_right_shift
  dlc_double h = rw (packed_low src.header_dlc) (one_byte src.header_dlc h)

  member_double : src.foo_double < 2 ^ 64 → unpack_double 4 out_double ≡ src.foo_double
  unfolding clear_first or_bytes or_byte header_bytes double_bytes float_bytes unpack_double
      unpack_float unpack_left_shift unpack_right_shift or_all
  member_double h =
      rw
        (
          packed_low src.foo_double,
          packed_byte src.foo_double 8,
          packed_byte src.foo_double 16,
          packed_byte src.foo_double 24,
          packed_byte src.foo_double 32,
          packed_byte src.foo_double 40,
          packed_byte src.foo_double 48,
          packed_byte src.foo_double 56,
        )
        (eight_bytes src.foo_double h)

  abbrev out_float : List ℕ
  out_float = or_bytes (clear_first 12 before) (header_bytes src ++ float_bytes 4 src.bar_float)

  header_float : src.header_id < 2 ^ 24 → unpack_header_id out_float ≡ src.header_id
  unfolding clear_first or_bytes or_byte header_bytes double_bytes float_bytes unpack_header_id
      unpack_left_shift unpack_right_shift or_all
  header_float h =
      rw (packed_low src.header_id, packed_byte src.header_id 8, packed_byte src.header_id 16)
        (three_bytes src.header_id h)

  dlc_float :
      src.header_dlc < 2 ^ 8 → unpack_right_shift (get_or out_float 3 0) 0 255 ≡ src.header_dlc
  unfolding clear_first or_bytes or_byte header_bytes double_bytes float_bytes unpack_right_shift
  dlc_float h = rw (packed_low src.header_dlc) (one_byte src.header_dlc h)

  member_float : src.bar_float < 2 ^ 32 → unpack_float 4 out_float ≡ src.bar_float
  unfolding clear_first or_bytes or_byte header_bytes double_bytes float_bytes unpack_double
      unpack_float unpack_left_shift unpack_right_shift or_all
  member_float h =
      rw
        (
          packed_low src.bar_float,
          packed_byte src.bar_float 8,
          packed_byte src.bar_float 16,
          packed_byte src.bar_float 24,
        )
        (four_bytes src.bar_float h)

  abbrev out_other : List ℕ
  out_other = or_bytes (clear_first 12 before) (header_bytes src ++ [])

  header_other : src.header_id < 2 ^ 24 → unpack_header_id out_other ≡ src.header_id
  unfolding clear_first or_bytes or_byte header_bytes double_bytes float_bytes unpack_header_id
      unpack_left_shift unpack_right_shift or_all
  header_other h =
      rw (packed_low src.header_id, packed_byte src.header_id 8, packed_byte src.header_id 16)
        (three_bytes src.header_id h)

  dlc_other :
      src.header_dlc < 2 ^ 8 → unpack_right_shift (get_or out_other 3 0) 0 255 ≡ src.header_dlc
  unfolding clear_first or_bytes or_byte header_bytes double_bytes float_bytes unpack_right_shift
  dlc_other h = rw (packed_low src.header_dlc) (one_byte src.header_dlc h)

-- What is unpacked from a list of bytes, given what its header reads as.
abbrev unpacked : List ℕ → MuxMessage → MuxMessage
unpacked src old = unpack_selected (unpack_header_id src) src (record old {
  header_id = unpack_header_id src;
  header_dlc = unpack_right_shift (get_or src 3 0) 0 255;
})

abbrev headed : MuxMessage → MuxMessage → MuxMessage
headed message old = record old { header_id = message.header_id; header_dlc = message.header_dlc }

read_header :
    (src : List ℕ) (message old : MuxMessage)
    → unpack_header_id src ≡ message.header_id
    → unpack_right_shift (get_or src 3 0) 0 255 ≡ message.header_dlc
    → unpacked src old ≡ unpack_selected message.header_id src (headed message old)
read_header src message old e f =
    ap₂ (λ x y. unpack_selected x src (record old { header_id = x; header_dlc = y })) e f

module _ (before : List ℕ) (message old : MuxMessage) (id : message.header_id < 2 ^ 24)
    (dlc : message.header_dlc < 2 ^ 8) (d : message.foo_double < 2 ^ 64)
    (f : message.bar_float < 2 ^ 32) where
  abbrev packed_with : List (ℕ × ℕ) → List ℕ
  packed_with xs = or_bytes (clear_first 12 before) (header_bytes message ++ xs)

  unpacked-packed : unpacked (packed_with (selected_bytes message)) old ≡ carried message old
  unfolding selected_bytes unpack_selected
  unpacked-packed = elim (Bool-cases (message.header_id == 601)) [
    | inl first ↦
        let src = out_double before message in
        ap (λ xs. unpacked (packed_with xs) old) (if_true (message.header_id == 601) _ first)
        ∙ read_header src message old (header_double before message id)
            (dlc_double before message dlc)
        ∙ if_true (message.header_id == 601) _ first
        ∙ ap (λ x. record message { bar_float = old.bar_float; foo_double = x })
            (member_double before message d)
        ∙ sym (if_true (message.header_id == 601) _ first)
    | inr other ↦ elim (Bool-cases (message.header_id == 602)) [
      | inl second ↦
          let src = out_float before message in
          ap (λ xs. unpacked (packed_with xs) old)
            (if_false (message.header_id == 601) _ other
              ∙ if_true (message.header_id == 602) _ second)
          ∙ read_header src message old (header_float before message id)
              (dlc_float before message dlc)
          ∙ if_false (message.header_id == 601) _ other
          ∙ if_true (message.header_id == 602) _ second
          ∙ ap (λ x. record message { bar_float = x; foo_double = old.foo_double })
              (member_float before message f)
          ∙ sym (
              if_false (message.header_id == 601) _ other
              ∙ if_true (message.header_id == 602) _ second)
      | inr neither ↦
          let src = out_other before message in
          ap (λ xs. unpacked (packed_with xs) old)
            (if_false (message.header_id == 601) _ other
              ∙ if_false (message.header_id == 602) _ neither)
          ∙ read_header src message old (header_other before message id)
              (dlc_other before message dlc)
          ∙ if_false (message.header_id == 601) _ other
          ∙ if_false (message.header_id == 602) _ neither
          ∙ sym (
              if_false (message.header_id == 601) _ other
              ∙ if_false (message.header_id == 602) _ neither)
    ]
  ]

  -- A mux_message with a header of 24 and 8 bits, packed into a payload of 12 bytes or more, whatever
  -- was there before, and unpacked over an old message, gives its header, and of its two members the
  -- one that the header id selects: foo_double for 601, bar_float for 602, else none. The rest is that
  -- of the old message. Packing returns 12 and unpacking 0.
  pub stub_mux_message_unpack-stub_mux_message_pack :
      (size : ℕ)
      → 12 ≤ size
      → let packed = stub_mux_message_pack before message size in
        (packed.rc ≡ 12) × (stub_mux_message_unpack old packed.out size ≡ (0, carried message old))
  unfolding stub_mux_message_pack stub_mux_message_unpack
  stub_mux_message_unpack-stub_mux_message_pack size fits =
      rw (le-ltb_12 size fits, stub_mux_message_pack, stub_mux_message_unpack)
        (refl, ap (λ x. (0, x)) unpacked-packed)
