-- ===== src/Schedule/Total.antt =====
-- The schedule runs with no fault where its items lead to messages.
use dse_network.Prelude.{
  ℕ, zero, suc, ◌+◌, ◌%◌, ◌^◌, ◌==◌, ◌<◌, ◌≡◌, refl, sym, ap, ap₂, ◌∙◌, subst, false, Bool, Option,
  none, some, List, [], ◌∷◌, map, Outcome, ok, ◌>>=◌, set, length, if◌then◌else◌, goes_on,
  deref_there, All, arith, map-set, get-lt_length, map_agrees, length-map, Option-cases, inl, inr,
}
use dse_network.Types.{NetworkMessage, NetworkScheduleItem, Network}
use dse_network.Schedule.{
  decrement_alarm, fire_alarm, tick_item, tick_items, network_schedule_tick, schedule_ticks,
}
use dse_network.Shape.{shape, form, schedule_messages, Form}

-- What the schedule leaves as it was.
abbrev pub unscheduled : NetworkMessage → NetworkMessage
unscheduled m = record m { buffer_checksum = 0; needs_tx = false }

abbrev pub target : NetworkScheduleItem → ℕ
target item = item.message

-- The items lead to messages, of which there are `count`.
abbrev pub Scheduled : ℕ → Option (List ℕ) → Type 0
Scheduled count none = Unit {0}
Scheduled count (some targets) = All (λ (i : ℕ). i < count) targets

unscheduled-fire_alarm :
    (b : Bool) (m : NetworkMessage) → unscheduled (if b then fire_alarm m else m) ≡ unscheduled m
unfolding fire_alarm
unscheduled-fire_alarm b m = ground arith

tick_item_total :
    (tick : ℕ) (item : NetworkScheduleItem) (messages : List NetworkMessage)
    → item.message < length messages
    → (r : NetworkScheduleItem × List NetworkMessage) × (tick_item tick item messages ≡ ok r)
      × (r.0.message ≡ item.message)
      × (map unscheduled r.1 ≡ map unscheduled messages)
unfolding tick_item
tick_item_total tick item messages below =
    let (m, there) = get-lt_length messages item.message below in
    let stepped = decrement_alarm tick item.alarm in
    (
      (
        record item { alarm = if stepped.0 == 0 then m.cycle_time_ms else stepped.0 },
        set messages item.message (if stepped.1 then fire_alarm m else m),
      ),
      goes_on _ (deref_there there) refl,
      refl,
      map-set unscheduled messages item.message there (unscheduled-fire_alarm stepped.1 m),
    )

same_length :
    (xs ys : List NetworkMessage) → map unscheduled xs ≡ map unscheduled ys → length xs ≡ length ys
same_length xs ys same =
    sym (length-map unscheduled xs) ∙ ap length same ∙ length-map unscheduled ys

tick_items_total :
    (tick : ℕ) (items : List NetworkScheduleItem) (messages : List NetworkMessage)
    → All (λ (i : ℕ). i < length messages) (map target items)
    → (r : List NetworkScheduleItem × List NetworkMessage) × (tick_items tick items messages ≡ ok r)
      × (map target r.0 ≡ map target items)
      × (map unscheduled r.1 ≡ map unscheduled messages)
unfolding tick_items
tick_items_total tick [] messages all = (([], messages), refl, refl, refl)
tick_items_total tick (item ∷ items) messages all =
    let (one, runs, aim, kept) = tick_item_total tick item messages all.0 in
    let later : All (λ (i : ℕ). i < length one.1) (map target items) =
      subst (λ count. All (λ (i : ℕ). i < count) (map target items))
        (sym (same_length one.1 messages kept)) all.1 in
    let (rest, runs', aim', kept') = tick_items_total tick items one.1 later in
    (
      (one.0 ∷ rest.0, rest.1),
      goes_on _ runs (goes_on _ runs' refl),
      ap₂ ◌∷◌ aim aim',
      kept' ∙ kept,
    )

-- Of the network the form, and of each message all but the recorded hash and the mark.
abbrev pub Keeps : Network → Network → Type 0
Keeps n n' = (form n' ≡ form n) × (map unscheduled n'.messages ≡ map unscheduled n.messages)

shapes-unscheduled :
    (xs ys : List NetworkMessage)
    → map unscheduled xs ≡ map unscheduled ys
    → map shape xs ≡ map shape ys
shapes-unscheduled xs ys = map_agrees unscheduled shape shape xs ys (λ x. refl)

-- A tick, given what the schedule is.
abbrev tick_with : Network → Option (List NetworkScheduleItem) → Outcome Network
tick_with n none = ok (record n { tick = (n.tick + 1) % 2 ^ 32 })
tick_with n (some items) = tick_items n.tick items n.messages >>= λ after.
    ok (record n { schedule_list = some after.0; messages = after.1; tick = (n.tick + 1) % 2 ^ 32 })

network_schedule_tick_with :
    (n : Network) {schedule : Option (List NetworkScheduleItem)}
    → n.schedule_list ≡ schedule
    → network_schedule_tick n ≡ tick_with n schedule
unfolding network_schedule_tick
network_schedule_tick_with n e = of_cases n.schedule_list ∙ ap (tick_with n) e
  where
    of_cases :
        (o : Option (List NetworkScheduleItem))
        → (elim o [
          | none ↦ ok (record n { tick = (n.tick + 1) % 2 ^ 32 })
          | some items ↦ tick_items n.tick items n.messages >>= λ after. ok (record n {
            schedule_list = some after.0;
            messages = after.1;
            tick = (n.tick + 1) % 2 ^ 32;
          })
        ])
          ≡ tick_with n o
    of_cases none = refl
    of_cases (some items) = refl

-- A tick of a schedule each item of which leads to a message succeeds. It changes of the messages
-- at most the recorded hash and the mark for sending, and the items lead to the same messages.
pub network_schedule_tick_total :
    (n : Network)
    → Scheduled (length n.messages) (schedule_messages n.schedule_list)
    → (n' : Network) × (network_schedule_tick n ≡ ok n') × Keeps n n'
network_schedule_tick_total n leads = elim (Option-cases n.schedule_list) [
  | inl absent ↦
      (record n { tick = (n.tick + 1) % 2 ^ 32 }, network_schedule_tick_with n absent, (refl, refl))
  | inr (items, present) ↦
      let (after, runs, aim, kept) =
        tick_items_total n.tick items n.messages
          (subst (λ x. Scheduled (length n.messages) (schedule_messages x)) present leads) in
      (
        record n { schedule_list = some after.0; messages = after.1; tick = (n.tick + 1) % 2 ^ 32 },
        network_schedule_tick_with n present ∙ goes_on _ runs refl,
        (
          ap₂ (λ x y. record (form n) { shapes = x; scheduled = y })
              (shapes-unscheduled after.1 n.messages kept)
              (ap some aim ∙ sym (ap schedule_messages present)),
          kept,
        ),
      )
]

pub schedule_ticks_total :
    (ticks : ℕ) (n : Network)
    → Scheduled (length n.messages) (schedule_messages n.schedule_list)
    → (n' : Network) × (schedule_ticks ticks n ≡ ok n') × Keeps n n'
unfolding schedule_ticks
schedule_ticks_total zero n leads = (n, refl, (refl, refl))
schedule_ticks_total (suc left) n leads =
    let (n1, runs, (same, kept)) = network_schedule_tick_total n leads in
    let later : Scheduled (length n1.messages) (schedule_messages n1.schedule_list) =
      subst (λ count. Scheduled count (schedule_messages n1.schedule_list))
        (sym (same_length n1.messages n.messages kept))
        (subst (λ (x : Form). Scheduled (length n.messages) x.scheduled) (sym same) leads) in
    let (n2, runs2, (same2, kept2)) = schedule_ticks_total left n1 later in
    (n2, goes_on _ runs runs2, (same2 ∙ same, kept2 ∙ kept))
