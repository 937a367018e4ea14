-- ===== src/Model/Open.antt =====
-- The whole of `model_create` of dse/network/model.c. The model's description comes from the
-- simulation: its signal vectors, the annotation that names the network, and where a signal stands in
-- the signal channel (`signal_index`).
use dse_network.Prelude.{
  ℕ, suc, String, ◌+◌, ◌≡◌, sym, ap, ◌∙◌, subst, Bool, true, false, Option, none, some, List, [],
  ◌∷◌, Outcome, ok, fatal, ◌>>=◌, >>=-elim, length, str_eq, if◌then◌else◌, All, ◌<◌, Option-cases,
  Bool-cases, inl, inr, if_true, if_false,
}
use dse_network.Types.{Double, FunctionLib, MessageLib, Network}
use dse_network.Parser.{Yaml, network_parse}
use dse_network.Load.{network_load}
use dse_network.Load.Messages.{IsServed}
use dse_network.Load.Runnable.{network_schedule_reset-network_load}
use dse_network.Schedule.{schedule_items, network_schedule_reset}
use dse_network.Function.Contract.{Contract, Works}
use dse_network.Bus.{CanMessage}
use dse_network.Model.{NetworkModelDesc, StepResult, model_start, model_step}
use dse_network.Model.Total.Step.{IsInside}
use dse_network.Model.Reach.{Reach, model_start-Reach}

-- What the code reads of a signal vector of the simulation: `annotation` has the value of the
-- annotation "network" of each signal, `codec` tells whether `signal_codec` finds one.
pub record SignalVector : Type 0 where
  pub alias : String
  pub is_binary : Bool
  pub signal : List String
  pub scalar : List Double
  pub annotation : List (Option String)
  pub codec : ℕ → Bool

-- The last signal vector with this alias.
unfoldable pub find_channel : String → List SignalVector → Option SignalVector
find_channel alias [] = none
find_channel alias (sv ∷ vectors) = elim (find_channel alias vectors) [
  | some found ↦ some found
  | none ↦ if str_eq sv.alias alias then some sv else none
]

-- The first signal, from index `i` on, whose annotation is the name of the network.
unfoldable pub find_network_signal : ℕ → String → List (Option String) → Option ℕ
find_network_signal i name [] = none
find_network_signal i name (none ∷ annotations) = find_network_signal (i + 1) name annotations
find_network_signal i name (some value ∷ annotations) =
    if str_eq value name then some i else find_network_signal (i + 1) name annotations

-- A pointer whose being NULL ends the process.
abbrev pub or_fatal {ℓ} : {A : Type ℓ} → Option A → Outcome A
or_fatal none = fatal
or_fatal (some a) = ok a

abbrev pub require : Bool → Outcome Bool
require false = fatal
require true = ok true

-- The network before it is loaded, which `calloc` clears, with its name. The library is not read
-- before it is opened.
abbrev pub cleared_network : MessageLib → String → Network
cleared_network unset name = record {
  name = name;
  has_messages = false;
  messages = [];
  message_lib = unset;
  function_lib = none;
  marshal_list = [];
  signal_name = [];
  signal_vector = [];
  schedule_list = none;
  tick = 0;
  netoff_value = none;
  message_lib_path = none;
  function_lib_path = none;
  netoff_signal = none;
  bus_id = 0;
  node_id = 0;
  interface_id = 0;
}

network_schedule_reset_keeps :
    (n : Network)
    → let n' = network_schedule_reset n in
      (n'.messages ≡ n.messages)
      × (n'.signal_name ≡ n.signal_name)
      × (n'.signal_vector ≡ n.signal_vector)
unfolding network_schedule_reset
network_schedule_reset_keeps n =
    let reset : Network = record n {
      schedule_list = some (schedule_items 0 n.messages);
      tick = 0;
    } in
    elim (Bool-cases n.has_messages) [
      | inl there ↦
          let e = if_true {x = reset} n.has_messages n there in
          (
            ap (λ (x : Network). x.messages) e,
            ap (λ (x : Network). x.signal_name) e,
            ap (λ (x : Network). x.signal_vector) e,
          )
      | inr missing ↦
          let e = if_false {y = n} n.has_messages reset missing in
          (
            ap (λ (x : Network). x.messages) e,
            ap (λ (x : Network). x.signal_name) e,
            ap (λ (x : Network). x.signal_vector) e,
          )
    ]

module _ (y : Yaml) (strtoul : String → ℕ)
    (search : String
      → String
      → (y.YamlNode → Network → Outcome (ℕ × Network))
      → Network
      → Outcome Network)
    (open_message_lib : Option String → Option MessageLib)
    (open_function_lib : Option String → Option FunctionLib)
    (signal_index : String → Option ℕ) where
  -- The place of the signal that the document names.
  abbrev pub netoff_place : Option String → Option ℕ
  netoff_place none = none
  netoff_place (some name) = signal_index name

  -- That the network has a name is an assertion of `network_parse`. The fuel is that of the parser.
  unfoldable pub model_create :
      ℕ → MessageLib → Option String → List SignalVector → Outcome NetworkModelDesc
  model_create fuel unset name vectors = do
    sv_signal ← or_fatal (find_channel "signal_channel" vectors)
    sv_network ← or_fatal (find_channel "network_channel" vectors)
    _ ← require sv_network.is_binary
    text ← or_fatal name
    loaded ←
        network_load y strtoul search open_message_lib open_function_lib fuel
          (cleared_network unset text)
    let n = network_schedule_reset loaded
    index ← or_fatal (find_network_signal 0 text sv_network.annotation)
    _ ← require (sv_network.codec index)
    model_start n sv_signal.signal sv_signal.scalar (netoff_place n.netoff_signal)

  -- What a creation that succeeds did.
  created :
      (fuel : ℕ) (unset : MessageLib) (text : String) (vectors : List SignalVector)
      {m : NetworkModelDesc}
      → model_create fuel unset (some text) vectors ≡ ok m
      → (sv_signal : SignalVector) × (loaded : Network) × (or_fatal
            (find_channel "signal_channel" vectors)
          ≡ ok sv_signal)
        × (network_load y strtoul search open_message_lib open_function_lib fuel
              (cleared_network unset text)
            ≡ ok loaded)
        × (model_start
              (network_schedule_reset loaded)
              sv_signal.signal
              sv_signal.scalar
              (netoff_place (network_schedule_reset loaded).netoff_signal)
            ≡ ok m)
  unfolding model_create
  created fuel unset text vectors e =
      >>=-elim (or_fatal (find_channel "signal_channel" vectors)) _ e λ sv_signal found e1.
        >>=-elim (or_fatal (find_channel "network_channel" vectors)) _ e1 λ sv_network found1 e2.
          >>=-elim (require sv_network.is_binary) _ e2 λ _ binary e3.
            >>=-elim
              (network_load y strtoul search open_message_lib open_function_lib fuel
                (cleared_network unset text))
              _ e3
              λ loaded ran e4.
                >>=-elim (or_fatal (find_network_signal 0 text sv_network.annotation)) _ e4
                  λ index found2 e5.
                    >>=-elim (require (sv_network.codec index)) _ e5
                      λ _ codec e6. (sv_signal, loaded, found, ran, e6)

  netoff_place-IsInside :
      (channel : ℕ)
      → ((name : String) (i : ℕ) → signal_index name ≡ some i → i < channel)
      → (name : Option String) → IsInside (netoff_place name) channel
  netoff_place-IsInside channel inside none = tt
  netoff_place-IsInside channel inside (some name) = elim (Option-cases (signal_index name)) [
    | inl missing ↦ subst (λ o. IsInside o channel) (sym missing) tt
    | inr (i, found) ↦ subst (λ o. IsInside o channel) (sym found) (inside name i found)
  ]

  module _ (contract : Contract) (to_uint32 : Double → ℕ) (tick_count : Double → Double → ℕ) where
    -- If parsing leaves an array of messages and the message library serves each message in it, and
    -- the functions that are loaded keep to their contract, then a model that is created never gets
    -- stuck: from every state that it reaches by steps, whatever the simulation writes into its
    -- channel between them, a further step succeeds, whatever frames arrive and whatever the times
    -- are. The signal channel has a value for each signal, and `signal_index` finds only signals of
    -- it.
    pub model_create-Reach :
        (parser_fuel : ℕ) (unset lib : MessageLib) (parsed loaded : Network) (text : String)
        (vectors : List SignalVector) (sv_signal : SignalVector) {from m : NetworkModelDesc}
        → network_parse y strtoul search parser_fuel (cleared_network unset text) ≡ ok parsed
        → parsed.has_messages ≡ true
        → open_message_lib parsed.message_lib_path ≡ some lib
        → All (IsServed lib parsed.name) parsed.messages
        → network_load y strtoul search open_message_lib open_function_lib parser_fuel
            (cleared_network unset text)
          ≡ ok loaded
        → All (Works contract) loaded.messages
        → find_channel "signal_channel" vectors ≡ some sv_signal
        → length sv_signal.signal ≡ length sv_signal.scalar
        → ((name : String) (i : ℕ) → signal_index name ≡ some i → i < length sv_signal.scalar)
        → model_create parser_fuel unset (some text) vectors ≡ ok from
        → Reach to_uint32 tick_count from m
        → (fuel : ℕ) (frames : List CanMessage) (model_time stop_time : Double)
        → (r : StepResult) × (model_step to_uint32 tick_count
              (suc (suc fuel))
              frames
              m
              model_time
              stop_time
            ≡ ok r)
          × Reach to_uint32 tick_count from r.model
    model_create-Reach parser_fuel unset lib parsed loaded text vectors sv_signal read allocated
          opened served load works channel valued inside made reached fuel frames model_time
          stop_time =
        let (sv, n, found, ran, started) = created parser_fuel unset text vectors made in
        let outcome : ok n ≡ ok loaded = sym ran ∙ load in
        let same : n ≡ loaded = cc in
        let looked : ok sv ≡ ok sv_signal = sym found ∙ ap or_fatal channel in
        let same_channel : sv ≡ sv_signal = cc in
        let (runnable, named) =
          network_schedule_reset-network_load y strtoul search open_message_lib open_function_lib
            parser_fuel (cleared_network unset text) parsed lib read allocated opened served ran in
        let (messages, names, values) = network_schedule_reset_keeps n in
        model_start-Reach to_uint32 tick_count contract (network_schedule_reset n) sv.signal
          sv.scalar (netoff_place (network_schedule_reset n).netoff_signal)
          (
            runnable,
            subst (All (Works contract)) (sym messages)
                (subst (λ (x : Network). All (Works contract) x.messages) (sym same) works),
          )
          (ap length names ∙ named ∙ ap length (sym values))
          (subst (λ (x : SignalVector). length x.signal ≡ length x.scalar) (sym same_channel)
            valued)
          (netoff_place-IsInside (length sv.scalar)
            (subst
              (λ (x : SignalVector).
                (name : String) (i : ℕ) → signal_index name ≡ some i → i < length x.scalar)
              (sym same_channel) inside)
            (network_schedule_reset n).netoff_signal)
          started reached fuel frames model_time stop_time
