-- ===== src/Model/Total/Step.antt =====
-- A model that can run can take a step, and then still run.
use dse_network.Prelude.{
  ℕ, suc, ◌==◌, ◌≡◌, refl, sym, ap, ◌∙◌, subst, Option, none, some, List, ok, length, get-lt_length,
  deref_there, if◌then◌else◌, goes_on, All, ◌<◌,
}
use dse_network.Types.{Double, Network}
use dse_network.Function.Contract.{Contract}
use dse_network.Bus.{CanMessage}
use dse_network.Shape.{Form, form, form-vector}
use dse_network.Model.{NetworkModelDesc, StepResult, netoff_at, netoff_value_of, model_step}
use dse_network.Model.Total.{
  Joins, Runs, carry_over, read_signals_total, write_signals_total, receive_total,
  initial_tick_total, ticks_total,
}
use dse_network.Model.Total.Send.{transmit_total}

-- Where the signal that turns the network off is set, it is inside the channel.
abbrev pub IsInside : Option ℕ → ℕ → Type 0
IsInside none channel = Unit {0}
IsInside (some i) channel = i < channel

-- The network runs, and the mapping stays inside the channel and the signal vector.
pub record IsAlive (contract : Contract) (m : NetworkModelDesc) : Type 0 where
  pub runs : Runs contract m.network
  pub joined : All (Joins (length m.scalar) (length m.network.signal_vector)) m.sr_map
  pub switched : IsInside m.netoff_index (length m.scalar)

netoff_value_at :
    (index : Option ℕ) (scalar : List Double)
    → IsInside index (length scalar)
    → (netoff : Option Double) × (netoff_at scalar index ≡ ok netoff)
netoff_value_at none scalar inside = (none, refl)
netoff_value_at (some i) scalar inside =
    let (v, there) = get-lt_length scalar i inside in (some v, goes_on _ (deref_there there) refl)

netoff_value_of_total :
    (m : NetworkModelDesc)
    → IsInside m.netoff_index (length m.scalar)
    → (netoff : Option Double) × (netoff_value_of m ≡ ok netoff)
unfolding netoff_value_of
netoff_value_of_total m inside = netoff_value_at m.netoff_index m.scalar inside

module _ (contract : Contract) (to_uint32 : Double → ℕ) (tick_count : Double → Double → ℕ) where
  -- A step of a model that can run succeeds, with fuel 2 or more, whatever frames arrive and
  -- whatever the times are: there is no fault, no fatal error and no endless recursion. The new
  -- model can run too, with the same mapping and as many values in the channel.
  pub model_step_total :
      (fuel : ℕ) (frames : List CanMessage) (m : NetworkModelDesc) (model_time stop_time : Double)
      → IsAlive contract m
      → (r : StepResult) × (model_step to_uint32 tick_count
            (suc (suc fuel))
            frames
            m
            model_time
            stop_time
          ≡ ok r)
        × (length r.model.scalar ≡ length m.scalar)
        × IsAlive contract r.model
  unfolding model_step
  model_step_total fuel frames m model_time stop_time alive =
      let values = length m.network.signal_vector in
      let (vector, read, fits) =
        read_signals_total m.sr_map m.scalar m.network.signal_vector alive.joined in
      let n1 : Network = record m.network { signal_vector = vector } in
      let same1 : form n1 ≡ form m.network = form-vector m.network vector fits in
      let (n2, heard, same2, runs2) =
        receive_total contract to_uint32 fuel frames n1
          (carry_over contract m.network n1 same1 alive.runs alive.runs.1) in
      let (first, began, same3, runs3) =
        initial_tick_total contract model_time m.init_tick_done n2 runs2 in
      let (n4, ticked, same4, runs4) =
        ticks_total contract (tick_count model_time m.last_tick) first.1 runs3 in
      let (netoff, shown) = netoff_value_of_total m alive.switched in
      let (sent, went, same5, runs5) = transmit_total contract netoff n4 runs4 in
      let same : form sent.1 ≡ form m.network = same5 ∙ same4 ∙ same3 ∙ same2 ∙ same1 in
      let kept : length sent.1.signal_vector ≡ values = ap (λ (x : Form). x.values) same in
      let joined = subst (λ k. All (Joins (length m.scalar) k) m.sr_map) (sym kept) alive.joined in
      let (scalar, wrote, room) =
        write_signals_total m.sr_map sent.1.signal_vector m.scalar joined in
      (
        record {
          frames = sent.0;
          model = record m {
            network = sent.1;
            init_tick_done = first.0;
            last_tick = if tick_count model_time m.last_tick == 0 then m.last_tick else model_time;
            scalar = scalar;
          };
          model_time = stop_time;
        },
        goes_on _ read (
            goes_on _ heard (
              goes_on _ began
                (goes_on _ ticked (goes_on _ shown (goes_on _ went (goes_on _ wrote refl)))))),
        room,
        record {
          runs = runs5;
          joined =
              subst (λ k. All (Joins k (length sent.1.signal_vector)) m.sr_map) (sym room) joined;
          switched = subst (IsInside m.netoff_index) (sym room) alive.switched;
        },
      )
