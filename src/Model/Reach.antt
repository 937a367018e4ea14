-- ===== src/Model/Reach.antt =====
-- The states that a model reaches, and that none of them is stuck.
use dse_network.Prelude.{ℕ, suc, String, ◌≡◌, sym, ◌∙◌, subst, List, Option, ok, length, All}
use dse_network.Types.{Double, Network}
use dse_network.Function.Contract.{Contract}
use dse_network.Bus.{CanMessage}
use dse_network.Model.{NetworkModelDesc, StepResult, model_start, model_step}
use dse_network.Model.Total.{Joins, Runs}
use dse_network.Model.Total.Step.{IsInside, IsAlive, model_step_total}
use dse_network.Model.Create.{model_start_total}

module _ (to_uint32 : Double → ℕ) (tick_count : Double → Double → ℕ) where
  -- The model takes a step that succeeds, or the simulation writes new values into the channel.
  pub data Step : NetworkModelDesc → NetworkModelDesc → Type 0 where
    take :
        (fuel : ℕ) (frames : List CanMessage) (m : NetworkModelDesc) (model_time stop_time : Double)
        (r : StepResult)
        → model_step to_uint32 tick_count (suc (suc fuel)) frames m model_time stop_time ≡ ok r
        → Step m r.model
    write :
        (m : NetworkModelDesc) (scalar : List Double)
        → length scalar ≡ length m.scalar
        → Step m (record m { scalar = scalar })

  pub data Reach (from : NetworkModelDesc) : NetworkModelDesc → Type 0 where
    here : Reach from from
    next : {m m' : NetworkModelDesc} → Reach from m → Step m m' → Reach from m'

  Step-IsAlive :
      (contract : Contract) {m m' : NetworkModelDesc}
      → Step m m'
      → IsAlive contract m
      → IsAlive contract m'
  Step-IsAlive contract (take fuel frames m model_time stop_time r e) alive =
      let (r', e', _, alive') =
        model_step_total contract to_uint32 tick_count fuel frames m model_time stop_time alive in
      let outcome : ok r' ≡ ok r = sym e' ∙ e in
      let same : r' ≡ r = cc in subst (λ (x : StepResult). IsAlive contract x.model) same alive'
  Step-IsAlive contract (write m scalar same) alive = record {
    runs = alive.runs;
    joined =
        subst (λ k. All (Joins k (length m.network.signal_vector)) m.sr_map) (sym same)
          alive.joined;
    switched = subst (IsInside m.netoff_index) (sym same) alive.switched;
  }

  Reach-IsAlive :
      (contract : Contract) {from m : NetworkModelDesc}
      → Reach from m
      → IsAlive contract from
      → IsAlive contract m
  Reach-IsAlive contract here alive = alive
  Reach-IsAlive contract (next reached step) alive =
      Step-IsAlive contract step (Reach-IsAlive contract reached alive)

  -- A model that is created from a network that can run never gets stuck: from every state that it
  -- reaches by steps, whatever the simulation writes into its channel between them, a further step
  -- succeeds, whatever frames arrive and whatever the times are.
  pub model_start-Reach :
      (contract : Contract) (n : Network) (signal : List String) (scalar : List Double)
      (netoff_index : Option ℕ) {from m : NetworkModelDesc}
      → Runs contract n
      → length n.signal_name ≡ length n.signal_vector
      → length signal ≡ length scalar
      → IsInside netoff_index (length scalar)
      → model_start n signal scalar netoff_index ≡ ok from
      → Reach from m
      → (fuel : ℕ) (frames : List CanMessage) (model_time stop_time : Double)
      → (r : StepResult) × (model_step to_uint32 tick_count
            (suc (suc fuel))
            frames
            m
            model_time
            stop_time
          ≡ ok r)
        × Reach from r.model
  model_start-Reach contract n signal scalar netoff_index {from} {m} runs named valued inside
        created reached fuel frames model_time stop_time =
      let (from', created', _, alive') =
        model_start_total contract n signal scalar netoff_index runs named valued inside in
      let outcome : ok from' ≡ ok from = sym created' ∙ created in
      let same : from' ≡ from = cc in
      let alive = Reach-IsAlive contract reached (subst (IsAlive contract) same alive') in
      let (r, e, _, _) =
        model_step_total contract to_uint32 tick_count fuel frames m model_time stop_time alive in
      (r, e, next reached (take fuel frames m model_time stop_time r e))
