-- ===== src/Load/Runnable.antt =====
-- A network that is loaded from documents that the message library serves can run.
use dse_network.Prelude.{
  ℕ, String, ◌+◌, ◌==◌, ◌<◌, ◌≤◌, ◌≡◌, refl, sym, ap, ◌∙◌, subst, Bool, true, false, Option, none,
  some, List, [], ◌∷◌, map, Outcome, ok, fatal, >>=-elim, length, replicate, length-replicate,
  length-map, map_at, All, All-get, All-map, All-of_get, arith, Option-cases, inl, inr,
  if◌then◌else◌, get-lt_length,
}
use dse_network.Types.{
  FunctionLib, MessageLib, MarshalItem, Network, NetworkMessage, NetworkScheduleItem, NetworkSignal,
}
use dse_network.Engine.Lists.{
  message_items, set_mux_references, signal_names, network_load_marshal_lists,
  network_get_signal_names,
}
use dse_network.Loader.{
  network_load_message_funcs, network_load_signal_funcs, network_load_function_funcs,
}
use dse_network.Schedule.{schedule_items, network_schedule_reset}
use dse_network.Schedule.Alarm.{network_schedule_reset_there}
use dse_network.Schedule.Total.{target}
use dse_network.Shape.{shape, IsSound, Leads, IsReceivable, form}
use dse_network.Model.Total.{IsPlain, IsRunnable}
use dse_network.Load.{load_lists}
use dse_network.Load.Vector.{load_lists_lem}
use dse_network.Load.Messages.{IsServed, HasLoaded}
use dse_network.Load.References.{
  IsReferenced, Points, set_mux_references-IsReferenced, signal_names-Points,
}
use dse_network.Parser.{Yaml, network_parse}
use dse_network.Load.{network_load, network_load_message_lib, network_load_function_lib}
use dse_network.Load.Served.{
  Serves, network_load_function_funcs-Serves, network_load_signal_funcs-Serves,
  network_load_message_funcs-IsReferenced,
}

IsReceivable-IsReferenced :
    (total : ℕ) (m : NetworkMessage) → IsReferenced total m → IsReceivable total (shape m)
IsReceivable-IsReferenced total m h = record {
  unpack = h.unpack;
  unpack_there = h.unpack_there;
  keeps_length = h.keeps_length;
  mux_there = λ j e. get-lt_length m.signals j (h.mux_there j e);
  item_there = λ j k s e there reference.
      All-get (λ (x : NetworkSignal). (i : ℕ) → x.mux_mi ≡ some i → i < total) m.signals j
        h.numbered there k reference;
}

leads :
    (total values : ℕ) (messages : List NetworkMessage) (mi : MarshalItem)
    → All (IsReferenced total) messages
    → Points messages mi
    → mi.signal_vector_index < values
    → Leads (map shape messages) values mi
leads total values messages mi all points below =
    let h = All-get (IsReferenced total) messages mi.message all points.message_there in
    record {
      message = shape points.message;
      message_there = map_at shape messages mi.message points.message_there;
      signal = points.signal;
      signal_there = points.signal_there;
      sound =
          All-get (IsSound (length points.message.buffer)) points.message.signals mi.signal
            h.signals points.signal_there;
      value_there = below;
    }

below_either :
    (total : ℕ) (b : Bool) (xs ys : List NetworkScheduleItem)
    → All (λ (k : ℕ). k < total) (map target xs)
    → All (λ (k : ℕ). k < total) (map target ys)
    → All (λ (k : ℕ). k < total) (map target (if b then xs else ys))
below_either total true xs ys h g = h
below_either total false xs ys h g = g

-- The items of the schedule lead to messages.
schedule_items-Scheduled :
    (i total : ℕ) (messages : List NetworkMessage)
    → i + length messages ≤ total
    → All (λ (k : ℕ). k < total) (map target (schedule_items i messages))
unfolding schedule_items
schedule_items-Scheduled i total [] fits = tt
schedule_items-Scheduled i total (m ∷ messages) fits =
    let rest = schedule_items-Scheduled (i + 1) total messages (omega arith) in
    below_either total (m.cycle_time_ms == 0) (schedule_items (i + 1) messages)
      (record { message = i; alarm = 0 } ∷ schedule_items (i + 1) messages) rest (omega arith, rest)

-- The marshal list and the names, from messages with their functions on.
lists-IsRunnable :
    (lib : MessageLib) (name : String) (signals lists all : Network)
    → Serves HasLoaded lib name signals
    → network_load_marshal_lists (network_load_message_funcs signals) ≡ ok lists
    → network_get_signal_names lists ≡ ok all
    → All (IsReferenced (length all.marshal_list)) all.messages
      × All (Points all.messages) all.marshal_list
      × (all.has_messages ≡ true)
unfolding network_load_marshal_lists network_get_signal_names network_load_message_funcs
lists-IsRunnable lib name signals lists all serves e e' =
    let loaded = network_load_message_funcs signals in
    >>=-elim (message_items 0 loaded.messages) _ e λ items ran e1.
      >>=-elim (set_mux_references 0 items loaded.messages) _ e1 λ messages ran1 e2.
        let listed : record loaded { marshal_list = items; messages = messages } ≡ lists = cc in
        >>=-elim (signal_names 0 lists.messages lists.marshal_list) _ e' λ named ran2 e3.
          let result : record lists { signal_name = named.0; marshal_list = named.1 } ≡ all = cc in
          let referenced =
            set_mux_references-IsReferenced (length items) 0 items loaded.messages (omega arith)
              (network_load_message_funcs-IsReferenced (length items) lib name signals serves)
              ran1 in
          let (pointing, same) = signal_names-Points 0 lists.messages lists.marshal_list ran2 in
          let count : length items ≡ length named.1 =
            ap (λ (x : Network). length x.marshal_list) listed ∙ sym same in
          subst
            (λ (x : Network).
              All (IsReferenced (length x.marshal_list)) x.messages
              × All (Points x.messages) x.marshal_list
              × (x.has_messages ≡ true))
            result
            (
              subst (λ k. All (IsReferenced k) lists.messages) count
                  (subst (λ (x : Network). All (IsReferenced (length items)) x.messages) listed
                    referenced),
              pointing,
              ap (λ (x : Network). x.has_messages) (sym listed) ∙ serves.allocated,
            )

-- What follows for the network with its signal vector.
load_lists-IsRunnable :
    (opened : Network) {n : Network}
    → All (IsServed opened.message_lib opened.name) opened.messages
    → opened.has_messages ≡ true
    → load_lists opened ≡ ok n
    → All (IsReferenced (length n.marshal_list)) n.messages
      × All (Points n.messages) n.marshal_list
      × (n.has_messages ≡ true)
      × (length n.signal_name ≡ length n.signal_vector)
unfolding load_lists
load_lists-IsRunnable opened {n} served allocated e =
    let start : Serves IsServed opened.message_lib opened.name opened = record {
      all = served;
      same_lib = refl;
      same_name = refl;
      allocated = allocated;
    } in
    >>=-elim (network_load_function_funcs opened) _ e λ functions ran e1.
      >>=-elim (network_load_signal_funcs functions.1) _ e1 λ signals ran1 e2.
        >>=-elim (network_load_marshal_lists (network_load_message_funcs signals)) _ e2
          λ lists ran2 e3. >>=-elim (network_get_signal_names lists) _ e3 λ all ran3 e4.
            let result : record all { signal_vector = replicate (length all.signal_name) 0 } ≡ n =
              cc in
            let serves =
              network_load_signal_funcs-Serves opened.message_lib opened.name functions.1
                (network_load_function_funcs-Serves opened.message_lib opened.name opened start ran)
                ran1 in
            let (referenced, pointing, there) =
              lists-IsRunnable opened.message_lib opened.name signals lists all serves ran2 ran3 in
            subst
              (λ (x : Network).
                All (IsReferenced (length x.marshal_list)) x.messages
                × All (Points x.messages) x.marshal_list
                × (x.has_messages ≡ true)
                × (length x.signal_name ≡ length x.signal_vector))
              result
              (referenced, pointing, there, sym (length-replicate (length all.signal_name) 0))

-- Where the message library serves each message of a document, the network that `load_lists` makes of
-- them, with its schedule reset, can run, and has a value for each name.
network_schedule_reset-load_lists :
    (opened : Network) {n : Network}
    → All (IsServed opened.message_lib opened.name) opened.messages
    → opened.has_messages ≡ true
    → load_lists opened ≡ ok n
    → IsRunnable (form (network_schedule_reset n)) × (length n.signal_name ≡ length n.signal_vector)
network_schedule_reset-load_lists opened {n} served allocated e =
    let (referenced, pointing, there, named) = load_lists-IsRunnable opened served allocated e in
    let total = length n.marshal_list in
    (
      subst (λ (x : Network). IsRunnable (form x)) (sym (network_schedule_reset_there n there))
          (record {
            ready = record {
              allocated = there;
              items =
                  All-of_get (Leads (map shape n.messages) (length n.signal_vector)) n.marshal_list
                    λ k mi there.
                      leads total (length n.signal_vector) n.messages mi referenced
                        (All-get (Points n.messages) n.marshal_list k pointing there)
                        (load_lists_lem opened k mi e there).1;
              messages =
                  All-map (IsReferenced total) (IsReceivable total) shape n.messages
                    (IsReceivable-IsReferenced total) referenced;
            };
            flat =
                All-map (IsReferenced total) IsPlain shape n.messages
                  (λ m h contained. (h.plain contained).0) referenced;
            leads =
                schedule_items-Scheduled 0 (length (map shape n.messages)) n.messages
                  (omega (arith, length-map shape n.messages));
          }),
      named,
    )

-- What is known of the messages after the libraries are opened.
abbrev message_lib_of : Network → Option MessageLib → Outcome Network
message_lib_of n o = elim o [
  | none ↦ fatal
  | some library ↦ ok (record n { message_lib = library })
]

opened_message_lib :
    (open_library : Option String → Option MessageLib) (n : Network) {lib : MessageLib}
    {n' : Network}
    → open_library n.message_lib_path ≡ some lib
    → network_load_message_lib open_library n ≡ ok n'
    → record n { message_lib = lib } ≡ n'
unfolding network_load_message_lib
opened_message_lib open_library n {lib} {n'} found e =
    let e1 : message_lib_of n (some lib) ≡ ok n' = sym (ap (message_lib_of n) found) ∙ e in cc

abbrev function_lib_of : Network → Option FunctionLib → Outcome Network
function_lib_of n o = elim o [
  | none ↦ fatal
  | some library ↦ ok (record n { function_lib = some library })
]

opened_function_lib :
    (open_library : Option String → Option FunctionLib) (n : Network) {n' : Network}
    → All (IsServed n.message_lib n.name) n.messages
    → n.has_messages ≡ true
    → network_load_function_lib open_library n ≡ ok n'
    → All (IsServed n'.message_lib n'.name) n'.messages × (n'.has_messages ≡ true)
unfolding network_load_function_lib
opened_function_lib open_library n {n'} served allocated e =
    elim (Option-cases (open_library n.function_lib_path)) [
      | inl missing ↦
          let e1 : function_lib_of n none ≡ ok n' = sym (ap (function_lib_of n) missing) ∙ e in
          absurd (cc)
      | inr (library, found) ↦
          let e1 : function_lib_of n (some library) ≡ ok n' =
            sym (ap (function_lib_of n) found) ∙ e in
          let same : record n { function_lib = some library } ≡ n' = cc in
          subst
            (λ (x : Network).
              All (IsServed x.message_lib x.name) x.messages × (x.has_messages ≡ true))
            same (served, allocated)
    ]

module _ (y : Yaml) (strtoul : String → ℕ)
    (search : String
      → String
      → (y.YamlNode → Network → Outcome (ℕ × Network))
      → Network
      → Outcome Network)
    (open_message_lib : Option String → Option MessageLib)
    (open_function_lib : Option String → Option FunctionLib) where
  -- If parsing leaves an array of messages and the message library serves each message in it (each
  -- signal names its struct member and has a type, a member of a type that the engine knows lies
  -- inside the buffer, an unpack function is found that keeps the length of the buffer, and a
  -- message with a mux id has no mux signal), then a network that is loaded can run once its
  -- schedule is reset, and has a value for each name.
  pub network_schedule_reset-network_load :
      (fuel : ℕ) (empty parsed : Network) (lib : MessageLib) {n : Network}
      → network_parse y strtoul search fuel empty ≡ ok parsed
      → parsed.has_messages ≡ true
      → open_message_lib parsed.message_lib_path ≡ some lib
      → All (IsServed lib parsed.name) parsed.messages
      → network_load y strtoul search open_message_lib open_function_lib fuel empty ≡ ok n
      → IsRunnable (form (network_schedule_reset n))
        × (length n.signal_name ≡ length n.signal_vector)
  unfolding network_load
  network_schedule_reset-network_load fuel empty parsed lib {n} read allocated found served e =
      >>=-elim (network_parse y strtoul search fuel empty) _ e λ parsed' ran e1.
        let outcome : ok parsed' ≡ ok parsed = sym ran ∙ read in
        let same : parsed' ≡ parsed = cc in
        >>=-elim (network_load_message_lib open_message_lib parsed') _ e1 λ messages ran1 e2.
          >>=-elim (network_load_function_lib open_function_lib messages) _ e2 λ functions ran2 e3.
            let opened : record parsed { message_lib = lib } ≡ messages =
              opened_message_lib open_message_lib parsed found (
                subst (λ (x : Network). network_load_message_lib open_message_lib x ≡ ok messages)
                  same ran1) in
            let (served', allocated') =
              opened_function_lib open_function_lib messages
                (subst (λ (x : Network). All (IsServed x.message_lib x.name) x.messages) opened
                  served)
                (ap (λ (x : Network). x.has_messages) (sym opened) ∙ allocated) ran2 in
            network_schedule_reset-load_lists functions served' allocated' e3
