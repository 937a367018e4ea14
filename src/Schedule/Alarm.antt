-- ===== src/Schedule/Alarm.antt =====
-- The schedule against its description: after the first tick a cyclic message is due each time the
-- clock is a multiple of its cycle time.
use mathlib.Core.List.{append_assoc}
use native.Mathlib.Decide.{ℕ_discrete}
use native.Mathlib.Nat.{suc-mod, mod_self, mod-lt, mod-eq_of_lt}
use dse_network.Prelude.{
  ℕ, zero, suc, ◌+◌, ◌-◌, ◌%◌, ◌^◌, ◌<◌, ◌≡◌, ◌≢◌, ◌⊎◌, refl, subst, ap, sym, ◌∙◌, true, Bool, not,
  ◌&&◌, some, List, [], ◌∷◌, ◌++◌, map, ok, arith, ◌==◌, if◌then◌else◌, length, get_elem?, set,
  Bool-cases, >>=-eq-ok, inl, inr, if_true,
}
use dse_network.Types.{NetworkMessage, NetworkScheduleItem, Network}
use dse_network.Schedule.{
  schedule_items, network_schedule_reset, decrement_alarm, fire_alarm, tick_item, tick_items,
  network_schedule_tick, schedule_ticks,
}

-- The message is cyclic, and the clock is at a positive multiple of its cycle time.
abbrev pub is_due : ℕ → NetworkMessage → Bool
is_due tick m = not (m.cycle_time_ms == 0) && not (tick == 0) && (tick % m.cycle_time_ms == 0)

-- A due message is marked for sending and its recorded hash is cleared.
unfoldable pub send_due : ℕ → NetworkMessage → NetworkMessage
send_due tick m = if is_due tick m then record m { buffer_checksum = 0; needs_tx = true } else m

-- The alarm of a message with this cycle time just before the tick at this clock.
abbrev pub alarm_before : ℕ → ℕ → ℕ
alarm_before cycle zero = 0
alarm_before cycle (suc tick) = cycle - tick % cycle

-- The schedule just before a tick: an item with its alarm for each cyclic message, from `i` on.
unfoldable pub scheduled : ℕ → ℕ → List NetworkMessage → List NetworkScheduleItem
scheduled tick i [] = []
scheduled tick i (m ∷ messages) =
    let rest = scheduled tick (i + 1) messages in
    if m.cycle_time_ms == 0
    then rest
    else record { message = i; alarm = alarm_before m.cycle_time_ms tick } ∷ rest

mod_step :
    (t c : ℕ)
    → c ≢ 0
    → ((t % c + 1 ≡ c) × (suc t % c ≡ 0)) ⊎ ((t % c + 1 < c) × (suc t % c ≡ t % c + 1))
mod_step t c h = elim (ℕ_discrete (suc (t % c)) c) [
  | yes full ↦ inl (omega arith, suc-mod t c ∙ ap (λ x. x % c) full ∙ mod_self c)
  | no less ↦
      let below : suc (t % c) < c = omega (arith, mod-lt t {m = c} (omega arith)) in
      inr (omega arith, suc-mod t c ∙ mod-eq_of_lt below ∙ omega arith)
]

-- One item, at a clock that is not 0 or is.
tick_alarm :
    (tick : ℕ) (m : NetworkMessage)
    → m.cycle_time_ms ≢ 0
    → let stepped = decrement_alarm tick (alarm_before m.cycle_time_ms tick) in
      ((if stepped.0 == 0 then m.cycle_time_ms else stepped.0)
        ≡ alarm_before m.cycle_time_ms (suc tick))
      × (stepped.1 ≡ is_due tick m)
unfolding decrement_alarm
tick_alarm zero m h = ground arith
tick_alarm (suc tick) m h = ground (arith, mod_step tick m.cycle_time_ms h)

-- A message reached by its index, and replaced there.
at_end :
    (before : List NetworkMessage) (m m' : NetworkMessage) (messages : List NetworkMessage)
    → (get_elem? (before ++ m ∷ messages) (length before) ≡ some m)
      × (set (before ++ m ∷ messages) (length before) m' ≡ before ++ m' ∷ messages)
at_end [] m m' messages = (refl, refl)
at_end (x ∷ before) m m' messages =
    ((at_end before m m' messages).0, ap (◌∷◌ x) (at_end before m m' messages).1)

length-snoc :
    (before : List NetworkMessage) (m : NetworkMessage)
    → length (before ++ m ∷ []) ≡ length before + 1
length-snoc [] m = omega arith
length-snoc (x ∷ before) m = omega (arith, length-snoc before m)

fired_lem :
    (tick : ℕ) (m : NetworkMessage)
    → m.cycle_time_ms ≢ 0
    → (if (decrement_alarm tick (alarm_before m.cycle_time_ms tick)).1 then fire_alarm m else m)
      ≡ send_due tick m
unfolding fire_alarm send_due
fired_lem tick m cyclic = ground (arith, tick_alarm tick m cyclic)

send_due_acyclic :
    (tick : ℕ) (m : NetworkMessage) → (m.cycle_time_ms == 0) ≡ true → send_due tick m ≡ m
unfolding send_due
send_due_acyclic tick m h = ground arith

cycle_time_ms-send_due :
    (tick : ℕ) (m : NetworkMessage) → (send_due tick m).cycle_time_ms ≡ m.cycle_time_ms
unfolding send_due
cycle_time_ms-send_due tick m = ground arith

tick_item_lem :
    (tick : ℕ) (before : List NetworkMessage) (m : NetworkMessage) (messages : List NetworkMessage)
    → m.cycle_time_ms ≢ 0
    → tick_item tick
        (record { message = length before; alarm = alarm_before m.cycle_time_ms tick })
        (before ++ m ∷ messages)
      ≡ ok (
        record { message = length before; alarm = alarm_before m.cycle_time_ms (suc tick) },
        before ++ send_due tick m ∷ messages,
      )
unfolding tick_item
tick_item_lem tick before m messages cyclic =
    rw
      (
        (at_end before m m messages).0,
        (tick_alarm tick m cyclic).0,
        fired_lem tick m cyclic,
        (at_end before m (send_due tick m) messages).1,
      )
      refl

tick_items_lem :
    (tick : ℕ) (before messages : List NetworkMessage)
    → tick_items tick (scheduled tick (length before) messages) (before ++ messages)
      ≡ ok (scheduled (suc tick) (length before) messages, before ++ map (send_due tick) messages)
unfolding tick_items scheduled
tick_items_lem tick before [] = refl
tick_items_lem tick before (m ∷ messages) =
    let rest = tick_items_lem tick (before ++ send_due tick m ∷ []) messages in
    let shifted : tick_items tick (scheduled tick (length before + 1) messages)
          (before ++ send_due tick m ∷ messages)
        ≡ ok (
          scheduled (suc tick) (length before + 1) messages,
          before ++ send_due tick m ∷ map (send_due tick) messages,
        ) =
      rw
        (
          ← length-snoc before (send_due tick m),
          ← append_assoc before (send_due tick m ∷ []) messages,
          ← append_assoc before (send_due tick m ∷ []) (map (send_due tick) messages),
        )
        rest in
    elim (Bool-cases (m.cycle_time_ms == 0)) [
      | inl acyclic ↦
          rw (acyclic, send_due_acyclic tick m acyclic)
            (rw (send_due_acyclic tick m acyclic) at shifted)
      | inr cyclic ↦ rw (cyclic, tick_item_lem tick before m messages (ground arith), shifted) refl
    ]

schedule_items_lem :
    (i : ℕ) (messages : List NetworkMessage) → schedule_items i messages ≡ scheduled 0 i messages
unfolding schedule_items scheduled
schedule_items_lem i [] = refl
schedule_items_lem i (m ∷ messages) = ground (arith, schedule_items_lem (i + 1) messages)

scheduled-send_due :
    (tick t i : ℕ) (messages : List NetworkMessage)
    → scheduled t i (map (send_due tick) messages) ≡ scheduled t i messages
unfolding scheduled
scheduled-send_due tick t i [] = refl
scheduled-send_due tick t i (m ∷ messages) =
    rw (cycle_time_ms-send_due tick m, scheduled-send_due tick t (i + 1) messages) refl

tick_with_list :
    (n : Network) (items : List NetworkScheduleItem)
    {after : List NetworkScheduleItem × List NetworkMessage}
    → n.schedule_list ≡ some items
    → tick_items n.tick items n.messages ≡ ok after
    → network_schedule_tick n
      ≡ ok (record n {
        schedule_list = some after.0;
        messages = after.1;
        tick = (n.tick + 1) % 2 ^ 32;
      })
unfolding network_schedule_tick
tick_with_list n items listed e = ground arith

-- A network with its schedule as it is just before the tick of its clock.
pub record OnSchedule (n : Network) : Type 0 where
  pub list : n.schedule_list ≡ some (scheduled n.tick 0 n.messages)
  pub clock : n.tick < 2 ^ 32

pub network_schedule_reset_there :
    (n : Network)
    → n.has_messages ≡ true
    → network_schedule_reset n
      ≡ record n { schedule_list = some (schedule_items 0 n.messages); tick = 0 }
unfolding network_schedule_reset
network_schedule_reset_there n there = if_true n.has_messages n there

-- Resetting the schedule sets the clock to 0 and puts every cyclic message on schedule, where the
-- array of messages exists.
pub network_schedule_reset-OnSchedule :
    (n : Network) → n.has_messages ≡ true → OnSchedule (network_schedule_reset n)
network_schedule_reset-OnSchedule n there =
    subst OnSchedule (sym (network_schedule_reset_there n there))
      (record { list = ap some (schedule_items_lem 0 n.messages); clock = omega arith })

tick-OnSchedule :
    (n : Network)
    → OnSchedule n
    → (n' : Network) × (network_schedule_tick n ≡ ok n')
      × (n'.messages ≡ map (send_due n.tick) n.messages)
      × (n'.tick ≡ (n.tick + 1) % 2 ^ 32)
      × (n.tick + 1 < 2 ^ 32 → OnSchedule n')
tick-OnSchedule n v = (
  after,
  runs,
  refl,
  refl,
  λ fits. record {
    list = ap some (
        sym (scheduled-send_due n.tick (suc n.tick) 0 n.messages)
        ∙ ap (λ t. scheduled t 0 after.messages) (next fits));
    clock = omega arith;
  },
)
  where
    after : Network
    after = record n {
      schedule_list = some (scheduled (suc n.tick) 0 n.messages);
      messages = map (send_due n.tick) n.messages;
      tick = (n.tick + 1) % 2 ^ 32;
    }

    runs : network_schedule_tick n ≡ ok after
    runs =
        tick_with_list n (scheduled n.tick 0 n.messages) v.list
          (tick_items_lem n.tick [] n.messages)

    next : n.tick + 1 < 2 ^ 32 → suc n.tick ≡ (n.tick + 1) % 2 ^ 32
    next fits = omega arith

-- A tick of a network on schedule succeeds. It marks exactly the messages that are due, changes
-- nothing else of any message, and advances the 32-bit clock.
pub network_schedule_tick_lem :
    (n : Network)
    → OnSchedule n
    → (n' : Network) × (network_schedule_tick n ≡ ok n')
      × (n'.messages ≡ map (send_due n.tick) n.messages)
      × (n'.tick ≡ (n.tick + 1) % 2 ^ 32)
network_schedule_tick_lem n v =
    let (n', runs, sent, clock, still) = tick-OnSchedule n v in (n', runs, sent, clock)

-- A tick leaves a network on schedule, up to the last tick before the 32-bit clock wraps.
pub network_schedule_tick-OnSchedule :
    (n : Network) {n' : Network}
    → OnSchedule n
    → n.tick + 1 < 2 ^ 32
    → network_schedule_tick n ≡ ok n'
    → OnSchedule n'
network_schedule_tick-OnSchedule n {n'} v fits e =
    let (n1, runs, sent, clock, still) = tick-OnSchedule n v in
    let results : ok n1 ≡ ok n' = sym runs ∙ e in
    let same : n1 ≡ n' = cc in subst OnSchedule same (still fits)

-- What `k` ticks from clock 0 do to the messages: those due at each clock in turn are marked.
pub sent_through : ℕ → List NetworkMessage → List NetworkMessage
sent_through zero messages = messages
sent_through (suc k) messages = map (send_due k) (sent_through k messages)

schedule_ticks_snoc :
    (k : ℕ) (n : Network) {n' n'' : Network}
    → schedule_ticks k n ≡ ok n'
    → network_schedule_tick n' ≡ ok n''
    → schedule_ticks (suc k) n ≡ ok n''
unfolding schedule_ticks
schedule_ticks_snoc zero n e f = ground arith
schedule_ticks_snoc (suc k) n e f =
    let (n1, first, rest) = >>=-eq-ok (network_schedule_tick n) (schedule_ticks k) e in
    rw first (schedule_ticks_snoc k n1 rest f)

-- Where the array of messages exists, from a reset on, `k` ticks of the clock succeed, as long as it does not wrap, and have marked
-- each cyclic message at every positive clock value below `k` that is a multiple of its cycle time.
pub schedule_ticks_lem :
    (k : ℕ) (n : Network)
    → n.has_messages ≡ true
    → k < 2 ^ 32
    → (n' : Network) × (schedule_ticks k (network_schedule_reset n) ≡ ok n')
      × (n'.messages ≡ sent_through k n.messages)
      × (n'.tick ≡ k)
      × OnSchedule n'
unfolding sent_through schedule_ticks
schedule_ticks_lem zero n there h = (
  network_schedule_reset n,
  refl,
  ap (λ (x : Network). x.messages) (network_schedule_reset_there n there),
  ap (λ (x : Network). x.tick) (network_schedule_reset_there n there),
  network_schedule_reset-OnSchedule n there,
)
schedule_ticks_lem (suc k) n there h =
    let (before, runs, messages, clock, on) = schedule_ticks_lem k n there (omega arith) in
    let (after, ticks, sent, next, still) = tick-OnSchedule before on in
    (
      after,
      schedule_ticks_snoc k (network_schedule_reset n) runs ticks,
      sent ∙ ap (λ t. map (send_due t) before.messages) clock ∙ ap (map (send_due k)) messages,
      omega arith,
      still (omega arith),
    )
