-- ===== src/Library/Works.antt =====
-- The functions of the example library keep to the contract of a function library.
use dse_network.Prelude.{
  ℕ, zero, suc, String, ◌+◌, ◌-◌, ◌%◌, ◌==◌, ◌≤◌, ◌<◌, ◌≡◌, ◌⊎◌, inl, inr, refl, sym, ap, ◌∙◌,
  subst, true, false, Option, some, List, [], ◌∷◌, Outcome, ok, ◌>>=◌, deref, arith, length,
  get_elem?, length-set, get-lt_length, goes_on, deref_there, Bool-cases, if_true, if_false,
}
use dse_network.Types.{Annotations, FunctionResult, NetworkFunction, NetworkFunctionFunc}
use dse_network.Function.{ebadmsg}
use dse_network.Function.Contract.{Contract}
use dse_network.Library.{
  position_of, configure, with_position, crc_subtract, crc_sum, crc_rest, counter_inc_uint8,
  crc_generate, crc_validate,
}
use dse_network.Library.Crc.{crc_sum_lem, sum_from}

crc_subtract_total :
    (position : ℕ) (payload : List ℕ) (i crc : ℕ)
    → i < length payload
    → (x : ℕ) × (crc_subtract position payload i crc ≡ ok x)
unfolding crc_subtract
crc_subtract_total position payload i crc inside =
    let (b, there) = get-lt_length payload i inside in
    let read : (deref (get_elem? payload i) >>= λ b'. ok ((crc + 256 - b') % 256))
        ≡ ok ((crc + 256 - b) % 256) =
      goes_on _ (deref_there there) refl in
    elim (Bool-cases (i == position)) [
      | inl own ↦ (crc, if_true (i == position) _ own)
      | inr other ↦ ((crc + 256 - b) % 256, if_false (i == position) (ok crc) other ∙ read)
    ]

crc_rest_total :
    (position : ℕ) (payload : List ℕ) (k crc : ℕ)
    → k ≤ length payload
    → (x : ℕ) × (crc_rest position payload k crc ≡ ok x)
unfolding crc_rest
crc_rest_total position payload zero crc inside = (crc, refl)
crc_rest_total position payload (suc k) crc inside =
    let (one, runs) = crc_subtract_total position payload k crc (omega arith) in
    let (all, runs') = crc_rest_total position payload k one (omega arith) in
    (all, goes_on _ runs runs')

module _ (strtoul : String → ℕ) where
  -- The position is known, or the annotation gives it, and it is inside a payload of `size` bytes,
  -- of which the function is given `len`.
  pub record IsConfigured (size len : ℕ) (annotations : Option Annotations) (inst : Option (List ℕ))
      : Type 0 where
    pub position : ℕ
    pub configured : configure strtoul annotations inst ≡ (0, position ∷ [])
    pub inside : position < size
    pub fits : len ≤ size

  -- What a call with a configuration does, given what `configure` returned.
  abbrev configured_run : List ℕ → (ℕ → Outcome (ℕ × List ℕ)) → ℕ × List ℕ → Outcome FunctionResult
  configured_run payload run c = elim (c.0 == 0) [
    | false ↦ ok (record { rc = c.0; inst = some c.1; payload = payload })
    | true ↦ (do
      done ← run (position_of c.1)
      ok (record { rc = done.0; inst = some c.1; payload = done.1 }))
  ]

  with_position_run :
      {size len : ℕ} (annotations : Option Annotations) (inst : Option (List ℕ)) (payload : List ℕ)
      (run : ℕ → Outcome (ℕ × List ℕ)) {done : ℕ × List ℕ}
      (c : IsConfigured size len annotations inst)
      → length payload ≡ size
      → run c.position ≡ ok done
      → with_position strtoul annotations inst payload run
        ≡ ok (record { rc = done.0; inst = some (c.position ∷ []); payload = done.1 })
  unfolding with_position position_of
  with_position_run annotations inst [] run c same ran =
      let below : c.position < 0 = subst (λ k. c.position < k) (sym same) c.inside in elim below [ ]
  with_position_run annotations inst (b ∷ bs) run {done} c same ran =
      ap (configured_run (b ∷ bs) run) c.configured ∙ goes_on _ ran refl

  -- With the block that a call leaves, the function stays configured.
  stays :
      {size len : ℕ} {annotations : Option Annotations} {inst : Option (List ℕ)}
      (c : IsConfigured size len annotations inst)
      → IsConfigured size len annotations (some (c.position ∷ []))
  unfolding configure
  stays c = record { position = c.position; configured = refl; inside = c.inside; fits = c.fits }

  abbrev pub IsEncoder : NetworkFunctionFunc → Type 0
  IsEncoder f = (f ≡ counter_inc_uint8 strtoul) ⊎ (f ≡ crc_generate strtoul)

  -- A call of the contract that returns 0, or EBADMSG.
  abbrev pub Fulfils : ℕ → ℕ → (ℕ → Type 0) → Option Annotations → Outcome FunctionResult → Type 0
  Fulfils size len Good annotations o =
      (r : FunctionResult) × (o ≡ ok r)
      × Good r.rc
      × (length r.payload ≡ size)
      × IsConfigured size len annotations r.inst

  module _ {size len : ℕ} (annotations : Option Annotations) (inst : Option (List ℕ))
      (payload : List ℕ) (c : IsConfigured size len annotations inst)
      (same : length payload ≡ size) where
    below : c.position < length payload
    below = subst (λ k. c.position < k) (sym same) c.inside

    room : len ≤ length payload
    room = subst (λ k. len ≤ k) (sym same) c.fits

    pub counter_inc_uint8_called :
        Fulfils size len
          (λ rc. rc ≡ 0)
          annotations
          (counter_inc_uint8 strtoul annotations inst payload len)
    unfolding counter_inc_uint8
    counter_inc_uint8_called =
        let (counter, there) = get-lt_length payload c.position below in
        (
          _,
          with_position_run annotations inst payload _ c same (goes_on _ (deref_there there) refl),
          refl,
          length-set payload c.position ((counter + 1) % 256) ∙ same,
          stays c,
        )

    pub crc_generate_called :
        Fulfils size len
          (λ rc. rc ≡ 0)
          annotations
          (crc_generate strtoul annotations inst payload len)
    unfolding crc_generate
    crc_generate_called =
        let (old, there) = get-lt_length payload c.position below in
        let crc = (0 + sum_from c.position payload 0 len) % 256 in
        let summed : crc_sum c.position payload 0 len 0 ≡ ok crc =
          crc_sum_lem c.position payload len 0 0 (omega (arith, room)) (omega arith) in
        (
          _,
          with_position_run annotations inst payload _ c same
              (goes_on _ summed (goes_on _ (deref_there there) refl)),
          refl,
          length-set payload c.position crc ∙ same,
          stays c,
        )

    pub crc_validate_called :
        Fulfils size len
          (λ rc. (rc ≡ 0) ⊎ (rc ≡ ebadmsg))
          annotations
          (crc_validate strtoul annotations inst payload len)
    unfolding crc_validate
    crc_validate_called =
        let (stored, there) = get-lt_length payload c.position below in
        let (crc, rest) = crc_rest_total c.position payload len stored room in
        elim (Bool-cases (crc == 0)) [
          | inl good ↦ (
            _,
            with_position_run annotations inst payload _ c same (
                goes_on _ (deref_there there)
                  (goes_on _ rest (ap ok (if_true (crc == 0) (ebadmsg, payload) good)))),
            inl refl,
            same,
            stays c,
          )
          | inr bad ↦ (
            _,
            with_position_run annotations inst payload _ c same (
                goes_on _ (deref_there there)
                  (goes_on _ rest (ap ok (if_false (crc == 0) (0, payload) bad)))),
            inr refl,
            same,
            stays c,
          )
        ]

  -- A function of the library, and a function that encodes or decodes with its configuration.
  abbrev pub Configured : (NetworkFunctionFunc → Type 0) → ℕ → ℕ → NetworkFunction → Type 0
  Configured Is size len nf =
      ((f : NetworkFunctionFunc) → nf.function ≡ some f → Is f)
      × IsConfigured size len nf.annotations nf.inst

  abbrev pub Encoder : ℕ → ℕ → NetworkFunction → Type 0
  Encoder = Configured IsEncoder

  abbrev pub Decoder : ℕ → ℕ → NetworkFunction → Type 0
  Decoder = Configured λ f. f ≡ crc_validate strtoul

  -- A counter or a checksum that is configured with a position inside the payload keeps to the
  -- contract.
  abbrev pub example_library : Contract
  example_library = record {
    Encodes = Encoder;
    Decodes = Decoder;
    encode_runs = λ size len nf f payload holds there same. elim (holds.0 f there) [
      | inl counts ↦
          let (r, runs, good, kept, still) =
            counter_inc_uint8_called nf.annotations nf.inst payload holds.1 same in
          (
            r,
            ap (λ g. g nf.annotations nf.inst payload len) counts ∙ runs,
            good,
            kept,
            (holds.0, still),
          )
      | inr sums ↦
          let (r, runs, good, kept, still) =
            crc_generate_called nf.annotations nf.inst payload holds.1 same in
          (
            r,
            ap (λ g. g nf.annotations nf.inst payload len) sums ∙ runs,
            good,
            kept,
            (holds.0, still),
          )
    ];
    decode_runs = λ size len nf f payload holds there same.
        let (r, runs, good, kept, still) =
          crc_validate_called nf.annotations nf.inst payload holds.1 same in
        (
          r,
          ap (λ (g : NetworkFunctionFunc). g nf.annotations nf.inst payload len) (holds.0 f there)
              ∙ runs,
          good,
          kept,
          (holds.0, still),
        );
  }
