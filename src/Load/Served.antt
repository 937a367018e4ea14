-- ===== src/Load/Served.antt =====
-- A network that the message library serves, while its functions are loaded.
use dse_network.Prelude.{
  true, ℕ, String, ◌≡◌, sym, ap, ◌∙◌, subst, Option, none, some, Outcome, ok, ◌>>=◌, >>=-elim, All,
  All-map, Option-cases, inl, inr,
}
use dse_network.Types.{FunctionLib, MessageLib, Network, NetworkMessage}
use dse_network.Loader.{
  load_message_funcs, network_load_message_funcs, load_messages_signals, network_load_signal_funcs,
  load_messages_functions, network_load_function_funcs,
}
use dse_network.Load.Messages.{
  IsServed, HasLoaded, load_messages_signals-HasLoaded, load_messages_functions-IsServed,
}
use dse_network.Load.References.{IsReferenced, load_message_funcs-IsReferenced}

-- The network served by this library under this name.
pub record Serves (Has : MessageLib → String → NetworkMessage → Type 0) (lib : MessageLib)
    (name : String) (n : Network) : Type 0 where
  pub all : All (Has lib name) n.messages
  pub same_lib : n.message_lib ≡ lib
  pub same_name : n.name ≡ name
  pub allocated : n.has_messages ≡ true

-- The loading of the functions of the function library.
abbrev functions_of : Network → Option FunctionLib → Outcome (ℕ × Network)
functions_of n o = elim o [
  | none ↦ ok (1, n)
  | some lib ↦ load_messages_functions lib n.messages >>= λ messages.
      ok (0, record n { messages = messages })
]

pub network_load_function_funcs-Serves :
    (lib : MessageLib) (name : String) (n : Network) {r : ℕ × Network}
    → Serves IsServed lib name n
    → network_load_function_funcs n ≡ ok r
    → Serves IsServed lib name r.1
unfolding network_load_function_funcs
network_load_function_funcs-Serves lib name n {r} serves e = elim (Option-cases n.function_lib) [
  | inl absent ↦
      let e1 : functions_of n none ≡ ok r = sym (ap (functions_of n) absent) ∙ e in
      let same : (1, n) ≡ r = cc in
      subst (λ (x : ℕ × Network). Serves IsServed lib name x.1) same serves
  | inr (functions, present) ↦
      let e1 : functions_of n (some functions) ≡ ok r = sym (ap (functions_of n) present) ∙ e in
      >>=-elim (load_messages_functions functions n.messages) _ e1 λ messages ran e2.
        let same : (0, record n { messages = messages }) ≡ r = cc in
        subst (λ (x : ℕ × Network). Serves IsServed lib name x.1) same
          (record {
            all = load_messages_functions-IsServed lib name functions n.messages serves.all ran;
            same_lib = serves.same_lib;
            same_name = serves.same_name;
            allocated = serves.allocated;
          })
]

pub network_load_signal_funcs-Serves :
    (lib : MessageLib) (name : String) (n : Network) {n' : Network}
    → Serves IsServed lib name n
    → network_load_signal_funcs n ≡ ok n'
    → Serves HasLoaded lib name n'
unfolding network_load_signal_funcs
network_load_signal_funcs-Serves lib name n {n'} serves e =
    >>=-elim (load_messages_signals n n.messages) _ e λ messages ran e1.
      let same : record n { messages = messages } ≡ n' = cc in
      subst (Serves HasLoaded lib name) same (record {
        all = load_messages_signals-HasLoaded lib name n n.messages serves.all ran;
        same_lib = serves.same_lib;
        same_name = serves.same_name;
        allocated = serves.allocated;
      })

pub network_load_message_funcs-IsReferenced :
    (total : ℕ) (lib : MessageLib) (name : String) (n : Network)
    → Serves HasLoaded lib name n
    → All (IsReferenced total) (network_load_message_funcs n).messages
unfolding network_load_message_funcs
network_load_message_funcs-IsReferenced total lib name n serves =
    All-map (HasLoaded lib name) (IsReferenced total) (load_message_funcs n) n.messages
      (λ m h. load_message_funcs-IsReferenced total n m (
        subst (λ x. HasLoaded n.message_lib x m) (sym serves.same_name)
          (subst (λ x. HasLoaded x name m) (sym serves.same_lib) h)))
      serves.all
