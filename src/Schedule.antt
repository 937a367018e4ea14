-- ===== src/Schedule.antt =====
-- dse/network/schedule.c: the cyclic messages and their alarms, on a clock of 1 ms.
pub mod Alarm
pub mod Total
use dse_network.Prelude.{
  ℕ, suc, zero, ◌+◌, ◌-◌, ◌%◌, ◌^◌, ◌==◌, true, false, Bool, Option, none, some, List, [], ◌∷◌,
  Outcome, ok, ◌>>=◌, deref, get_elem?, set, if◌then◌else◌,
}
use dse_network.Types.{NetworkMessage, NetworkScheduleItem, Network}

-- One item for each message with a cycle time, from message `i` on; `calloc` clears the alarms.
unfoldable pub schedule_items : ℕ → List NetworkMessage → List NetworkScheduleItem
schedule_items i [] = []
schedule_items i (m ∷ messages) =
    let rest = schedule_items (i + 1) messages in
    if m.cycle_time_ms == 0 then rest else record { message = i; alarm = 0 } ∷ rest

-- Without an array of messages nothing is done.
unfoldable pub network_schedule_reset : Network → Network
unfolding schedule_items
network_schedule_reset n =
    if n.has_messages
    then record n { schedule_list = some (schedule_items 0 n.messages); tick = 0 }
    else n

-- `nsi->alarm--` where the alarm is set and the clock is not at 0, and whether it went to 0.
unfoldable pub decrement_alarm : ℕ → ℕ → ℕ × Bool
decrement_alarm tick alarm =
    if tick == 0
    then (alarm, false)
    else if alarm == 0
    then (alarm, false)
    else (alarm - 1, alarm - 1 == 0)

-- Alarm fired: reset the checksum and send.
unfoldable pub fire_alarm : NetworkMessage → NetworkMessage
fire_alarm m = if m.cycle_time_ms == 0 then m else record m { buffer_checksum = 0; needs_tx = true }

unfoldable pub tick_item :
    ℕ
    → NetworkScheduleItem
    → List NetworkMessage
    → Outcome (NetworkScheduleItem × List NetworkMessage)
tick_item tick item messages = do
  m ← deref (get_elem? messages item.message)
  let stepped = decrement_alarm tick item.alarm
  let m' = if stepped.1 then fire_alarm m else m
  let alarm = if stepped.0 == 0 then m.cycle_time_ms else stepped.0
  ok (record item { alarm = alarm }, set messages item.message m')

unfoldable pub tick_items :
    ℕ
    → List NetworkScheduleItem
    → List NetworkMessage
    → Outcome (List NetworkScheduleItem × List NetworkMessage)
tick_items tick [] messages = ok ([], messages)
tick_items tick (item ∷ items) messages = do
  one ← tick_item tick item messages
  rest ← tick_items tick items one.1
  ok (one.0 ∷ rest.0, rest.1)

-- The clock is a `uint32_t`. Without a schedule the clock still goes on.
unfoldable pub network_schedule_tick : Network → Outcome Network
network_schedule_tick n = elim n.schedule_list [
  | none ↦ ok (record n { tick = (n.tick + 1) % 2 ^ 32 })
  | some items ↦ (do
    after ← tick_items n.tick items n.messages
    ok (record n {
      schedule_list = some after.0;
      messages = after.1;
      tick = (n.tick + 1) % 2 ^ 32;
    }))
]

-- `for (t = 0; t < ticks; t++) network_schedule_tick(n);` as in dse/network/model.c
unfoldable pub schedule_ticks : ℕ → Network → Outcome Network
schedule_ticks zero n = ok n
schedule_ticks (suc left) n = do n' ← network_schedule_tick n; schedule_ticks left n'
