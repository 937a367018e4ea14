-- ===== src/Model/Mapping.antt =====
-- The mapping between the signal channel and the signals of the network.
use dse_network.Prelude.{
  ℕ, zero, suc, String, ◌+◌, ◌-◌, ◌≤◌, ◌≡◌, ◌&&◌, not, inl, inr, refl, sym, ap, ◌∙◌, true, false,
  Bool, some, List, [], ◌∷◌, get_elem?, str_eq, eq_iff, arith, Bool-cases, Option-cases,
}
use dse_network.Model.{SrMap, find_signal, create_sr_map}

both : (a b : Bool) → (a && not b) ≡ true → (a ≡ true) × (b ≡ false)
both a b e = ground arith

find_signal_at :
    (k : ℕ) (name : String) (names : List String) (j : ℕ)
    → find_signal k name names ≡ some j
    → (k ≤ j) × (get_elem? names (j - k) ≡ some name) × (str_eq name "" ≡ false)
unfolding find_signal
find_signal_at k name [] j e = absurd (cc)
find_signal_at k name (s ∷ names) j e = elim (Bool-cases (str_eq name s && not (str_eq s ""))) [
  | inl hit ↦
      let (equal, filled) = both (str_eq name s) (str_eq s "") hit in
      let same : name ≡ s = (eq_iff name s).0 equal in
      let chosen : some k ≡ some j = sym (rw (hit, find_signal) refl) ∙ e in
      let here : k ≡ j = cc in
      let at : j - k ≡ 0 = omega arith in (omega arith, rw at (ap some (sym same)), rw same filled)
  | inr miss ↦
      let (above, found, filled) =
        find_signal_at (k + 1) name names j (sym (rw (miss, find_signal) refl) ∙ e) in
      let at : j - k ≡ suc (j - (k + 1)) = omega arith in (omega arith, rw at found, filled)
]

-- Each active entry of the mapping that is created joins a signal of the channel, the one at the
-- entry's place, to a signal of the network of the same name, which is not the empty name.
pub create_sr_map_lem :
    (k i : ℕ) (signals names : List String) {x : SrMap}
    → get_elem? (create_sr_map i signals names) k ≡ some x
    → x.active ≡ true
    → (name : String) × (get_elem? signals k ≡ some name)
      × (get_elem? names x.signal_index ≡ some name)
      × (x.vector_index ≡ i + k)
      × (str_eq name "" ≡ false)
unfolding create_sr_map
create_sr_map_lem k i [] names e on = absurd (cc)
create_sr_map_lem zero i (s ∷ signals) names {x} e on =
    elim (Option-cases (find_signal 0 s names)) [
      | inl missing ↦
          let entry : some (record { active = false; vector_index = 0; signal_index = 0 })
              ≡ some x =
            sym (rw (missing, create_sr_map) refl) ∙ e in
          let same : record { active = false; vector_index = 0; signal_index = 0 } ≡ x = cc in
          let off : false ≡ x.active = ap (λ (y : SrMap). y.active) same in absurd (cc)
      | inr (j, found) ↦
          let entry : some (record { active = true; vector_index = i; signal_index = j }) ≡ some x =
            sym (rw (found, create_sr_map) refl) ∙ e in
          let same : record { active = true; vector_index = i; signal_index = j } ≡ x = cc in
          let (_, named, filled) = find_signal_at 0 s names j found in
          let at : x.signal_index ≡ j - 0 =
            omega (arith, ap (λ (y : SrMap). y.signal_index) same) in
          (s, refl, rw at named, omega (arith, ap (λ (y : SrMap). y.vector_index) same), filled)
    ]
create_sr_map_lem (suc k) i (s ∷ signals) names {x} e on =
    let later : get_elem? (create_sr_map (i + 1) signals names) k ≡ some x =
      elim (Option-cases (find_signal 0 s names)) [
        | inl missing ↦ sym (rw (missing, create_sr_map) refl) ∙ e
        | inr (j, found) ↦ sym (rw (found, create_sr_map) refl) ∙ e
      ] in
    let (name, here, there, index, filled) = create_sr_map_lem k (i + 1) signals names later on in
    (name, here, there, omega (arith, index), filled)
