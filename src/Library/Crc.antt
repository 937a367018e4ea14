-- ===== src/Library/Crc.antt =====
-- The checksum functions against their description: the sum, modulo 256, of all payload bytes but
-- the one at the position.
use dse_network.Prelude.{
  ℕ, zero, suc, String, ◌+◌, ◌-◌, ◌%◌, ◌==◌, ◌≤◌, ◌<◌, ◌≡◌, ◌≢◌, refl, ◌∙◌, ap, ◌*◌, Option, none,
  some, List, [], ◌∷◌, Outcome, ok, ◌>>=◌, arith, length, get_or, set, if◌then◌else◌, IsBytes,
  get_or-lt, get_elem?-eq-get_or, get_or-set_ne, get_or-set_self, set-IsBytes, length-set, ==_refl,
}
use native.Mathlib.Decide.{ℕ_discrete}
use dse_network.Types.{Annotations, FunctionResult}
use dse_network.Function.{network_function_annotation, ebadmsg}
use dse_network.Library.{
  crc_add, crc_sum, crc_subtract, crc_rest, with_position, crc_generate, crc_validate, eproto,
}

-- What the byte at an index adds to the checksum: the one at the position does not count.
abbrev pub share : ℕ → List ℕ → ℕ → ℕ
share position payload i = if i == position then 0 else get_or payload i 0

-- The sum of the bytes below `k`, without the one at the position.
abbrev pub sum_below : ℕ → List ℕ → ℕ → ℕ
sum_below position payload zero = 0
sum_below position payload (suc k) = sum_below position payload k + share position payload k

abbrev pub sum_from : ℕ → List ℕ → ℕ → ℕ → ℕ
sum_from position payload i zero = 0
sum_from position payload i (suc left) =
    share position payload i + sum_from position payload (i + 1) left

module _ (position : ℕ) (payload : List ℕ) where
  sum_from-add-sum_below :
      (left i : ℕ)
      → sum_from position payload i left + sum_below position payload i
        ≡ sum_below position payload (i + left)
  sum_from-add-sum_below zero i = let same : i + 0 ≡ i = omega arith in rw same (omega arith)
  sum_from-add-sum_below (suc left) i =
      let same : i + suc left ≡ suc i + left = omega arith in
      let next : i + 1 ≡ suc i = omega arith in
      rw (same, next) (omega (arith, sum_from-add-sum_below left (suc i)))

  sum_from-sum_below : (len : ℕ) → sum_from position payload 0 len ≡ sum_below position payload len
  sum_from-sum_below len =
      let same : 0 + len ≡ len = omega arith in
      omega (arith, sum_from-add-sum_below len 0, ap (sum_below position payload) same)

  crc_add_lem :
      (i crc : ℕ)
      → i < length payload
      → crc < 256
      → crc_add position payload i crc ≡ ok ((crc + share position payload i) % 256)
  unfolding crc_add
  crc_add_lem i crc inside byte = ground (arith, get_elem?-eq-get_or payload i)

  pub crc_sum_lem :
      (left i crc : ℕ)
      → i + left ≤ length payload
      → crc < 256
      → crc_sum position payload i left crc ≡ ok ((crc + sum_from position payload i left) % 256)
  unfolding crc_sum
  crc_sum_lem zero i crc inside byte = ground arith
  crc_sum_lem (suc left) i crc inside byte = rw (crc_add_lem i crc (omega arith) byte) (
      crc_sum_lem left (i + 1) ((crc + share position payload i) % 256) (omega arith) (omega arith)
      ∙ ap ok (omega arith))

  share-lt : IsBytes payload → (i : ℕ) → share position payload i < 256
  share-lt bytes i = ground (arith, get_or-lt payload i)

  sum_below-le : IsBytes payload → (k : ℕ) → sum_below position payload k ≤ 256 * k
  sum_below-le bytes zero = omega arith
  sum_below-le bytes (suc k) = omega (arith, sum_below-le bytes k, share-lt bytes k)

  crc_subtract_lem :
      (i crc : ℕ)
      → i < length payload
      → crc < 256
      → crc_subtract position payload i crc ≡ ok ((crc + 256 - share position payload i) % 256)
  unfolding crc_subtract
  crc_subtract_lem i crc inside byte = ground (arith, get_elem?-eq-get_or payload i)

  crc_rest_lem :
      IsBytes payload
      → (k crc : ℕ) → k ≤ length payload
      → crc < 256
      → crc_rest position payload k crc ≡ ok ((crc + 256 * k - sum_below position payload k) % 256)
  unfolding crc_rest
  crc_rest_lem bytes zero crc inside byte = ap ok (omega arith)
  crc_rest_lem bytes (suc k) crc inside byte = rw (crc_subtract_lem k crc inside byte) (
      crc_rest_lem bytes k ((crc + 256 - share position payload k) % 256) (omega arith)
        (omega arith)
      ∙ ap ok (omega (arith, sum_below-le bytes k, share-lt bytes k)))

-- The byte at the position does not enter the sum.
sum_below-set :
    (position : ℕ) (payload : List ℕ) (c k : ℕ)
    → sum_below position (set payload position c) k ≡ sum_below position payload k
sum_below-set position payload c zero = refl
sum_below-set position payload c (suc k) =
    ground (arith, sum_below-set position payload c k, get_or-set_ne payload position k c 0)

-- With an instance in place the rest runs on the configured position.
with_position_lem :
    (strtoul : String → ℕ) (annotations : Option Annotations) (position : ℕ) (payload : List ℕ)
    (run : ℕ → Outcome (ℕ × List ℕ))
    → position < length payload
    → with_position strtoul annotations (some (position ∷ [])) payload run ≡ (
        run position >>= λ done.
        ok (record { rc = done.0; inst = some (position ∷ []); payload = done.1 }))
unfolding with_position
with_position_lem strtoul annotations position [] run h = elim h [ ]
with_position_lem strtoul annotations position (b ∷ bs) run h = refl

module _ (strtoul : String → ℕ) (annotations : Option Annotations) (position : ℕ) (payload : List ℕ)
    (len : ℕ) (inside : position < length payload) (fits : len ≤ length payload) where
  -- With its position configured and inside the payload, which has at least `len` bytes,
  -- `crc_generate` writes the sum of the other payload bytes modulo 256 at the position and
  -- changes nothing else.
  pub crc_generate_lem :
      crc_generate strtoul annotations (some (position ∷ [])) payload len
      ≡ ok (record {
        rc = 0;
        inst = some (position ∷ []);
        payload = set payload position (sum_below position payload len % 256);
      })
  crc_generate_lem =
      unfold crc_generate in
      rw
        (
          with_position_lem strtoul annotations position payload _ inside,
          crc_sum_lem position payload len 0 0 (omega arith) (omega arith),
          get_elem?-eq-get_or payload position inside,
          sum_from-sum_below position payload len,
        )
        (ground arith)

  -- With its position configured and inside the payload, which has at least `len` bytes,
  -- `crc_validate` changes nothing, and returns 0 exactly when the byte at the position is the sum
  -- of the other payload bytes modulo 256; else EBADMSG.
  pub crc_validate_lem :
      IsBytes payload
      → crc_validate strtoul annotations (some (position ∷ [])) payload len
        ≡ ok (record {
          rc =
              if get_or payload position 0 == sum_below position payload len % 256
              then 0
              else ebadmsg;
          inst = some (position ∷ []);
          payload = payload;
        })
  crc_validate_lem bytes =
      unfold crc_validate in
      rw
        (
          with_position_lem strtoul annotations position payload _ inside,
          get_elem?-eq-get_or payload position inside,
          crc_rest_lem position payload bytes len (get_or payload position 0) fits
              (get_or-lt payload position bytes),
        )
        (ground (arith, sum_below-le position payload bytes len, get_or-lt payload position bytes))

-- With its position configured and inside the payload, which has at least `len` bytes,
-- `crc_generate` succeeds, and `crc_validate` with the instance that it leaves accepts the payload
-- that it completed, and changes nothing.
pub crc_validate-crc_generate :
    (strtoul : String → ℕ) (annotations : Option Annotations) (position : ℕ) (payload : List ℕ)
    (len : ℕ)
    → position < length payload
    → len ≤ length payload
    → IsBytes payload
    → (r : FunctionResult) × (crc_generate strtoul annotations (some (position ∷ [])) payload len
        ≡ ok r)
      × (r.rc ≡ 0)
      × (crc_validate strtoul annotations (some (position ∷ [])) r.payload len ≡ ok r)
crc_validate-crc_generate strtoul annotations position payload len inside fits bytes =
    (sent, crc_generate_lem strtoul annotations position payload len inside fits, refl, received)
  where
    crc : ℕ
    crc = sum_below position payload len % 256

    sent : FunctionResult
    sent = record { rc = 0; inst = some (position ∷ []); payload = set payload position crc }

    received : crc_validate strtoul annotations (some (position ∷ [])) sent.payload len ≡ ok sent
    received =
        crc_validate_lem strtoul annotations position sent.payload len (rw length-set inside)
          (rw length-set fits) (set-IsBytes payload position crc (omega arith) bytes)
        ∙ rw
            (
              get_or-set_self payload position crc 0 inside,
              sum_below-set position payload crc len,
              ==_refl crc,
            )
            refl

module _ (position j b : ℕ) (payload : List ℕ) (elsewhere : j ≢ position) where
  sum_below-set_above :
      (k : ℕ) → k ≤ j → sum_below position (set payload j b) k ≡ sum_below position payload k
  sum_below-set_above zero h = refl
  sum_below-set_above (suc k) h =
      ground (arith, sum_below-set_above k (omega arith), get_or-set_ne payload j k b 0)

  sum_below-set_below :
      (k : ℕ)
      → j < k
      → j < length payload
      → sum_below position (set payload j b) k + get_or payload j 0
        ≡ sum_below position payload k + b
  sum_below-set_below zero h inside = absurd (omega arith)
  sum_below-set_below (suc k) h inside = ground (
    arith,
    sum_below-set_below k,
    sum_below-set_above k,
    get_or-set_ne payload j k b 0,
    get_or-set_self payload j b 0 inside,
  )

-- A payload of at least `len` bytes with a good checksum in it, in which one of the first `len`
-- bytes was replaced by another byte is refused with EBADMSG, whether that byte is the checksum
-- itself or one that it sums.
pub crc_validate-corrupt :
    (strtoul : String → ℕ) (annotations : Option Annotations) (position : ℕ) (payload : List ℕ)
    (len j b : ℕ)
    → position < length payload
    → len ≤ length payload
    → IsBytes payload
    → get_or payload position 0 ≡ sum_below position payload len % 256
    → j < len
    → b < 256
    → b ≢ get_or payload j 0
    → crc_validate strtoul annotations (some (position ∷ [])) (set payload j b) len
      ≡ ok (record { rc = ebadmsg; inst = some (position ∷ []); payload = set payload j b })
crc_validate-corrupt strtoul annotations position payload len j b inside fits bytes good below byte
      ne =
    crc_validate_lem strtoul annotations position (set payload j b) len (rw length-set inside)
      (rw length-set fits) (set-IsBytes payload j b byte bytes)
    ∙ elim (ℕ_discrete j position) [
      | yes here ↦
          rw
            (
              here,
              get_or-set_self payload position b 0 inside,
              sum_below-set position payload b len,
            )
            (ground (arith, ap (λ i. get_or payload i 0) here))
      | no elsewhere ↦ rw (get_or-set_ne payload j position b 0 elsewhere) (
          ground (
            arith,
            sum_below-set_below position j b payload elsewhere len below (omega arith),
            get_or-lt payload j bytes,
          ))
    ]

-- Where the annotation "position" is missing and the payload is not empty and has at least `len`
-- bytes, the first call of `crc_generate` ends with EPROTO and leaves an instance behind, by which
-- the next call takes 0 for the position and returns 0.
pub crc_generate_after_eproto :
    (strtoul : String → ℕ) (annotations : Option Annotations) (b : ℕ) (rest : List ℕ) (len : ℕ)
    → network_function_annotation annotations "position" ≡ none
    → len ≤ length (b ∷ rest)
    → (crc_generate strtoul annotations none (b ∷ rest) len
        ≡ ok (record { rc = eproto; inst = some (0 ∷ []); payload = b ∷ rest }))
      × (crc_generate strtoul annotations (some (0 ∷ [])) (b ∷ rest) len
          ≡ ok (record {
            rc = 0;
            inst = some (0 ∷ []);
            payload = (sum_below 0 (b ∷ rest) len % 256) ∷ rest;
          }))
unfolding crc_generate
crc_generate_after_eproto strtoul annotations b rest len missing fits =
    (ground arith, crc_generate_lem strtoul annotations 0 (b ∷ rest) len (omega arith) fits)
