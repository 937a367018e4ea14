-- ===== src/Function/Contract.antt =====
-- What a function library promises, and the functions of a message under that promise.
use dse_network.Prelude.{
  ℕ, ◌==◌, ◌≡◌, ◌⊎◌, inl, inr, refl, sym, ap, ap₂, ◌∙◌, subst, true, false, Bool, Option, none,
  some, List, [], ◌∷◌, map, ok, fatal, ◌>>=◌, goes_on, length, arith, Option-cases, All, All-map,
  All-of_map, if_true, if_false, if◌then◌else◌,
}
use dse_network.Types.{
  FunctionResult, NetworkFunction, NetworkFunctionFunc, NetworkMessage, PackFunc,
}
use dse_network.Function.{
  ebadmsg, run_encode_function, run_encode_functions, run_decode_function, run_decode_functions,
}
use dse_network.Shape.{blank_function}

-- What a function library promises: of the functions of a message whose payload has `size` bytes and
-- whose `payload_len` is `len`, the predicates say what stays true from call to call.
pub record Contract : Type 1 where
  pub Encodes : ℕ → ℕ → NetworkFunction → Type 0
  pub Decodes : ℕ → ℕ → NetworkFunction → Type 0
  pub encode_runs :
      (size len : ℕ) (nf : NetworkFunction) (f : NetworkFunctionFunc) (payload : List ℕ)
      → Encodes size len nf
      → nf.function ≡ some f
      → length payload ≡ size
      → (r : FunctionResult) × (f nf.annotations nf.inst payload len ≡ ok r)
        × (r.rc ≡ 0)
        × (length r.payload ≡ size)
        × Encodes size len (record nf { inst = r.inst })
  pub decode_runs :
      (size len : ℕ) (nf : NetworkFunction) (f : NetworkFunctionFunc) (payload : List ℕ)
      → Decodes size len nf
      → nf.function ≡ some f
      → length payload ≡ size
      → (r : FunctionResult) × (f nf.annotations nf.inst payload len ≡ ok r)
        × ((r.rc ≡ 0) ⊎ (r.rc ≡ ebadmsg))
        × (length r.payload ≡ size)
        × Decodes size len (record nf { inst = r.inst })

-- What the functions of a message depend on.
pub record Vitals : Type 0 where
  pub size : ℕ
  pub len : ℕ
  pub encode_functions : List NetworkFunction
  pub decode_functions : List NetworkFunction
  pub pack : Option PackFunc

abbrev pub vitals : NetworkMessage → Vitals
vitals m = record {
  size = length m.payload;
  len = m.payload_len;
  encode_functions = m.encode_functions;
  decode_functions = m.decode_functions;
  pack = m.pack_func;
}

run_encode_function_present :
    (nf : NetworkFunction) (f : NetworkFunctionFunc) (payload : List ℕ) (len : ℕ)
    → nf.function ≡ some f
    → run_encode_function nf payload len
      ≡ f nf.annotations nf.inst payload len >>= λ r.
          if r.rc == 0 then ok (record nf { inst = r.inst }, r.payload) else fatal
unfolding run_encode_function
run_encode_function_present nf f payload len present =
    ap
      (λ o. elim o [
        | none ↦ ok (nf, payload)
        | some g ↦ g nf.annotations nf.inst payload len >>= λ r.
            if r.rc == 0 then ok (record nf { inst = r.inst }, r.payload) else fatal
      ])
      present

run_decode_function_present :
    (nf : NetworkFunction) (f : NetworkFunctionFunc) (payload : List ℕ) (len : ℕ) (update : Bool)
    → nf.function ≡ some f
    → run_decode_function nf payload len update
      ≡ f nf.annotations nf.inst payload len >>= λ r.
          if r.rc == 0
          then ok (record nf { inst = r.inst }, r.payload, update)
          else if r.rc == ebadmsg
          then ok (record nf { inst = r.inst }, r.payload, false)
          else fatal
unfolding run_decode_function
run_decode_function_present nf f payload len update present =
    ap
      (λ o. elim o [
        | none ↦ ok (nf, payload, update)
        | some g ↦ g nf.annotations nf.inst payload len >>= λ r.
            if r.rc == 0
            then ok (record nf { inst = r.inst }, r.payload, update)
            else if r.rc == ebadmsg
            then ok (record nf { inst = r.inst }, r.payload, false)
            else fatal
      ])
      present

module _ (contract : Contract) where
  open contract use {Encodes, Decodes, encode_runs, decode_runs}

  -- The functions keep to the contract, and the pack function keeps the payload's length.
  pub record WorksAt (v : Vitals) : Type 0 where
    pub encode : All (Encodes v.size v.len) v.encode_functions
    pub decode : All (Decodes v.size v.len) v.decode_functions
    pub keeps_length :
        (pack : PackFunc) (payload buffer : List ℕ) (len : ℕ)
        → v.pack ≡ some pack
        → length (pack payload buffer len).out ≡ length payload

  abbrev pub Works : NetworkMessage → Type 0
  Works m = WorksAt (vitals m)

  pub Works-agree :
      (xs ys : List NetworkMessage) → map vitals ys ≡ map vitals xs → All Works xs → All Works ys
  Works-agree xs ys same works =
      All-of_map Works WorksAt vitals ys (λ m w. w)
        (subst (All WorksAt) (sym same) (All-map Works WorksAt vitals xs (λ m w. w) works))

  run_encode_function_total :
      (size len : ℕ) (nf : NetworkFunction) (payload : List ℕ)
      → Encodes size len nf
      → length payload ≡ size
      → (r : NetworkFunction × List ℕ) × (run_encode_function nf payload len ≡ ok r)
        × Encodes size len r.0
        × (blank_function r.0 ≡ blank_function nf)
        × (length r.1 ≡ size)
  unfolding run_encode_function
  run_encode_function_total size len nf payload holds fits = elim (Option-cases nf.function) [
    | inl absent ↦ ((nf, payload), ground arith, holds, refl, fits)
    | inr (f, present) ↦
        let (r, runs, good, kept, still) = encode_runs size len nf f payload holds present fits in
        let zero_rc : (r.rc == 0) ≡ true = rw good refl in
        (
          (record nf { inst = r.inst }, r.payload),
          run_encode_function_present nf f payload len present
              ∙ goes_on _ runs (if_true (r.rc == 0) fatal zero_rc),
          still,
          refl,
          kept,
        )
  ]

  pub run_encode_functions_total :
      (size len : ℕ) (functions : List NetworkFunction) (payload : List ℕ)
      → All (Encodes size len) functions
      → length payload ≡ size
      → (r : List NetworkFunction × List ℕ) × (run_encode_functions functions payload len ≡ ok r)
        × All (Encodes size len) r.0
        × (map blank_function r.0 ≡ map blank_function functions)
        × (length r.1 ≡ size)
  unfolding run_encode_functions
  run_encode_functions_total size len [] payload all fits = (([], payload), refl, tt, refl, fits)
  run_encode_functions_total size len (nf ∷ functions) payload all fits =
      let (one, runs, holds, same, kept) =
        run_encode_function_total size len nf payload all.0 fits in
      let (rest, runs', holds', same', kept') =
        run_encode_functions_total size len functions one.1 all.1 kept in
      (
        (one.0 ∷ rest.0, rest.1),
        goes_on _ runs (goes_on _ runs' refl),
        (holds, holds'),
        ap₂ ◌∷◌ same same',
        kept',
      )

  run_decode_function_total :
      (size len : ℕ) (nf : NetworkFunction) (payload : List ℕ) (update : Bool)
      → Decodes size len nf
      → length payload ≡ size
      → (r : NetworkFunction × List ℕ × Bool) × (run_decode_function nf payload len update ≡ ok r)
        × Decodes size len r.0
        × (blank_function r.0 ≡ blank_function nf)
        × (length r.1 ≡ size)
  unfolding run_decode_function
  run_decode_function_total size len nf payload update holds fits =
      elim (Option-cases nf.function) [
        | inl absent ↦ ((nf, payload, update), ground arith, holds, refl, fits)
        | inr (f, present) ↦
            let (r, runs, good, kept, still) =
              decode_runs size len nf f payload holds present fits in
            elim good [
              | inl accepted ↦
                  let zero_rc : (r.rc == 0) ≡ true = rw accepted refl in
                  (
                    (record nf { inst = r.inst }, r.payload, update),
                    run_decode_function_present nf f payload len update present
                        ∙ goes_on _ runs (if_true (r.rc == 0) _ zero_rc),
                    still,
                    refl,
                    kept,
                  )
              | inr refused ↦
                  let other_rc : (r.rc == 0) ≡ false = rw refused refl in
                  let bad_rc : (r.rc == ebadmsg) ≡ true = rw refused refl in
                  (
                    (record nf { inst = r.inst }, r.payload, false),
                    run_decode_function_present nf f payload len update present
                        ∙ goes_on _ runs (
                            if_false (r.rc == 0) _ other_rc
                            ∙ if_true (r.rc == ebadmsg) fatal bad_rc),
                    still,
                    refl,
                    kept,
                  )
            ]
      ]

  pub run_decode_functions_total :
      (size len : ℕ) (functions : List NetworkFunction) (payload : List ℕ) (update : Bool)
      → All (Decodes size len) functions
      → length payload ≡ size
      → (r : List NetworkFunction × List ℕ × Bool) × (run_decode_functions functions payload len
            update
          ≡ ok r)
        × All (Decodes size len) r.0
        × (map blank_function r.0 ≡ map blank_function functions)
        × (length r.1 ≡ size)
  unfolding run_decode_functions
  run_decode_functions_total size len [] payload update all fits =
      (([], payload, update), refl, tt, refl, fits)
  run_decode_functions_total size len (nf ∷ functions) payload update all fits =
      let (one, runs, holds, same, kept) =
        run_decode_function_total size len nf payload update all.0 fits in
      let (rest, runs', holds', same', kept') =
        run_decode_functions_total size len functions one.1 one.2 all.1 kept in
      (
        (one.0 ∷ rest.0, rest.1, rest.2),
        goes_on _ runs (goes_on _ runs' refl),
        (holds, holds'),
        ap₂ ◌∷◌ same same',
        kept',
      )
