-- ===== src/Alarm/Quiet.antt =====
-- `CallTimeoutAlarms` where no delegate touches an alarm, and where an alarm's own delegate arms it
-- again for a time that has passed.
use nginx_quic_stack.Base.{
  ℕ, ◌+◌, ◌<◌, ◌≡◌, refl, subst, List, [], ◌∷◌, if◌then◌else◌, false, some, suc, zero, arith,
  Bool-cases, inl, inr, length,
}
use nginx_quic_stack.Base.Int.{ℤ, pos, ltb_ℤ, leb_ℤ, ◌≤ℤ◌, ◌<ℤ◌}
use nginx_quic_stack.Alarm.Multimap.{
  Entry, insert, erase, find, begin, next, member, erase_key, insert_key, Sorted, Above,
}
use nginx_quic_stack.Alarm.Queue.{
  AlarmQueue, done, out_of_fuel, register_alarm, on_unregistration, apply_all, apply, Operation,
  set_impl, new_queue, next_alarm_time_in_us,
}
use nginx_quic_stack.Alarm.Timeout.{
  on_alarm, fire_entry, reregister_fired, loop, call_timeout_alarms,
}

-- The nodes that are due, and the others.
abbrev pub due_cbs : ℤ → List Entry → List ℕ
due_cbs now [] = []
due_cbs now (x ∷ xs) = if ltb_ℤ now x.timeout then [] else x.cb ∷ due_cbs now xs

abbrev pub not_due : ℤ → List Entry → List Entry
not_due now [] = []
not_due now (x ∷ xs) = if ltb_ℤ now x.timeout then x ∷ xs else not_due now xs

abbrev pub quiet : List ℕ → ℕ → List Operation
quiet h a = []

-- `fired` has the latest call first.
abbrev pub called_before : List ℕ → List ℕ → List ℕ
called_before [] fired = fired
called_before (a ∷ more) fired = called_before more (a ∷ fired)

abbrev quiet_after : Entry → AlarmQueue → AlarmQueue
quiet_after e q =
    record (on_unregistration
      (record q { all_alarms = erase_key e.cb q.all_alarms; fired = e.cb ∷ q.fired }) e.cb) {
        alarm_map = erase e.node q.alarm_map;
      }

quiet_fire :
    (now : ℤ) (e : Entry) (rest : List Entry) (q : AlarmQueue)
    → q.alarm_map ≡ e ∷ rest
    → (fire_entry (on_alarm quiet) now e q ≡ done (quiet_after e q, begin rest))
      × (find e.node q.alarm_map ≡ some e)
      × (erase e.node q.alarm_map ≡ rest)
unfolding find erase next fire_entry apply_all reregister_fired
quiet_fire now e rest q s =
    let found : find e.node q.alarm_map ≡ some e = rw s (ground arith) in
    let after : next e.node q.alarm_map ≡ begin rest = rw s (ground arith) in
    (rw (found, after), found, rw s (ground arith))

loop-quiet :
    (fuel : ℕ) (now : ℤ) (xs : List Entry) (q : AlarmQueue)
    → q.alarm_map ≡ xs
    → q.alarms_reregistered_and_should_be_skipped ≡ []
    → length xs < fuel
    → (q' : AlarmQueue) × (loop fuel (on_alarm quiet) now (begin xs) q ≡ done q')
      × (q'.fired ≡ called_before (due_cbs now xs) q.fired)
      × (q'.alarm_map ≡ not_due now xs)
unfolding loop begin member
loop-quiet zero now xs q s n f = absurd (omega arith)
loop-quiet (suc fuel) now [] q s n f = (q, refl, refl, s)
loop-quiet (suc fuel) now (e ∷ rest) q s n f =
    let (fires, found, left) = quiet_fire now e rest q s in
    let noskip : member e.cb q.alarms_reregistered_and_should_be_skipped ≡ false = rw n refl in
    elim (Bool-cases (ltb_ℤ now e.timeout)) [
      | inl later ↦ rw (found, later) (q, refl, refl, s)
      | inr reached ↦
          let (q', ran, fired, map) =
            loop-quiet fuel now rest (quiet_after e q) left n (omega arith) in
          rw (found, reached, noskip, fires) (q', ran, fired, map)
    ]

-- With nothing to skip, at a positive time, where no delegate touches an alarm: CallTimeoutAlarms
-- ends within one round more than the map has nodes, has called the alarms of the due nodes at the
-- front of the map, in the order of the map, and leaves exactly the nodes behind them.
pub call_timeout_alarms-quiet :
    (now : ℤ) (q : AlarmQueue)
    → q.alarms_reregistered_and_should_be_skipped ≡ []
    → pos 0 <ℤ now
    → (q' : AlarmQueue) × (call_timeout_alarms (length q.alarm_map + 1) (on_alarm quiet) now q
        ≡ done q')
      × (q'.fired ≡ called_before (due_cbs now q.alarm_map) q.fired)
      × (q'.alarm_map ≡ not_due now q.alarm_map)
unfolding call_timeout_alarms
call_timeout_alarms-quiet now q n h =
    let busy : leb_ℤ now (pos 0) ≡ false = ground arith in
    let (q', ran, fired, map) =
      loop-quiet (length q.alarm_map + 1) now q.alarm_map q refl n (omega arith) in
    (record q' { alarms_reregistered_and_should_be_skipped = [] }, rw (busy, ran), fired, map)

-- An alarm whose delegate sets it again, for a time that is not later than `now`.
abbrev pub rearm : ℤ → List ℕ → ℕ → List Operation
rearm t h a = set_impl a t ∷ []

abbrev rearmed : ℤ → ℕ → ℕ → AlarmQueue → AlarmQueue
rearmed t a n q =
    let set =
      register_alarm
        (on_unregistration (record q { all_alarms = erase_key a q.all_alarms; fired = a ∷ q.fired })
          a)
        t a in
    record set { alarm_map = erase n set.alarm_map }

-- The alarm stands alone in the map.
record Alone (t : ℤ) (a n : ℕ) (q : AlarmQueue) : Type 0 where
  single : q.alarm_map ≡ record { timeout = t; cb = a; node = n } ∷ []
  older : n < q.next_node
  known : q.all_alarms ≡ a ∷ []
  unskipped : q.alarms_reregistered_and_should_be_skipped ≡ []

-- Its round puts a new node for it behind the old one, which goes.
rearm_fire :
    (now t : ℤ) (a n : ℕ) (q : AlarmQueue)
    → Alone t a n q
    → (fire_entry (on_alarm (rearm t)) now (record { timeout = t; cb = a; node = n }) q
        ≡ done (rearmed t a n q, some q.next_node))
      × Alone t a q.next_node (rearmed t a n q)
unfolding find erase next begin fire_entry apply_all apply reregister_fired register_alarm insert
    member erase_key insert_key
rearm_fire now t a n q k =
    let e : Entry = record { timeout = t; cb = a; node = n } in
    let e' : Entry = record { timeout = t; cb = a; node = q.next_node } in
    let alone : erase_key a q.all_alarms ≡ [] = rw k.known (ground arith) in
    let both : insert e' q.alarm_map ≡ e ∷ e' ∷ [] = rw k.single (ground arith) in
    let found : find n (insert e' q.alarm_map) ≡ some e = rw both (ground arith) in
    let after : next n (insert e' q.alarm_map) ≡ some q.next_node = rw both (ground arith) in
    let left : erase n (insert e' q.alarm_map) ≡ e' ∷ [] = rw both (ground arith) in
    (
      rw (alone, found, after),
      rw alone
          (record { single = left; older = omega arith; known = refl; unskipped = k.unskipped }),
    )

loop-rearm :
    (fuel : ℕ) (now t : ℤ) (a n : ℕ) (q : AlarmQueue)
    → t ≤ℤ now
    → Alone t a n q
    → loop fuel (on_alarm (rearm t)) now (some n) q ≡ out_of_fuel
unfolding loop find member
loop-rearm zero now t a n q h k = refl
loop-rearm (suc fuel) now t a n q h k =
    let e : Entry = record { timeout = t; cb = a; node = n } in
    let found : find n q.alarm_map ≡ some e = rw k.single (ground arith) in
    let reached : ltb_ℤ now t ≡ false = ground arith in
    let noskip : member a q.alarms_reregistered_and_should_be_skipped ≡ false =
      rw k.unskipped refl in
    let (fires, k') = rearm_fire now t a n q k in
    rw (found, reached, noskip, fires) (loop-rearm fuel now t a q.next_node (rearmed t a n q) h k')

-- At a positive time, for an alarm alone in a new queue whose delegate sets it again for the same
-- time, which is not later than now: CallTimeoutAlarms does not end, since no fuel is enough; the
-- set of alarms to skip does not hold alarms that are set again during OnAlarm.
pub call_timeout_alarms-rearm :
    (fuel : ℕ) (now t : ℤ) (a : ℕ)
    → pos 0 <ℤ now
    → t ≤ℤ now
    → call_timeout_alarms fuel (on_alarm (rearm t)) now (register_alarm new_queue t a) ≡ out_of_fuel
unfolding call_timeout_alarms register_alarm insert member insert_key begin
call_timeout_alarms-rearm fuel now t a h k =
    let busy : leb_ℤ now (pos 0) ≡ false = ground arith in
    let alone : Alone t a 0 (register_alarm new_queue t a) = record {
      single = refl;
      older = omega arith;
      known = refl;
      unskipped = refl;
    } in
    rw (busy, loop-rearm fuel now t a 0 (register_alarm new_queue t a) k alone) refl

-- Where the map is sorted and has a first node, NextAlarmTimeInUs is the time of that node, and no
-- node of the map has an earlier one.
pub next_alarm_time_in_us_least :
    (q : AlarmQueue) (x : Entry) (xs : List Entry)
    → q.alarm_map ≡ x ∷ xs
    → Sorted q.alarm_map
    → (next_alarm_time_in_us q ≡ x.timeout) × Above (next_alarm_time_in_us q) q.alarm_map
unfolding next_alarm_time_in_us
next_alarm_time_in_us_least q x xs s o =
    let o' : Sorted (x ∷ xs) = subst Sorted s o in rw s (refl, (omega arith, o'.0))
