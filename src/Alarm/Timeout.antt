-- ===== src/Alarm/Timeout.antt =====
-- `tQuicAlarmEventQueue::CallTimeoutAlarms` and `CleanupTimeToAlarmCBMap`. What `OnAlarm` of an
-- alarm does is an argument: the operations that it makes on alarms, its own included, and the
-- time that it returns; it may depend on the calls made before.
use nginx_quic_stack.Base.{ℕ, List, [], ◌∷◌, if◌then◌else◌, false, Option, none, some, zero, suc}
use nginx_quic_stack.Base.Int.{ℤ, pos, leb_ℤ, ltb_ℤ}
use nginx_quic_stack.Alarm.{Event}
use nginx_quic_stack.Alarm.Multimap.{Entry, erase, find, begin, next, member, insert_key, erase_key}
use nginx_quic_stack.Alarm.Queue.{
  AlarmQueue, Outcome, done, out_of_fuel, ◌>>=◌, deref, update, on_unregistration, register_alarm,
  Operation, apply_all,
}

pub record Reaction : Type 0 where
  pub operations : List Operation
  pub new_timeout : ℤ

abbrev pub Reactions : Type 0
Reactions = List ℕ → ℕ → Reaction

-- `QuicAlarmImpl::OnAlarm`: the flag falls, the delegate runs, and the result is 0.
abbrev pub on_alarm : (List ℕ → ℕ → List Operation) → Reactions
on_alarm fire history cb = record { operations = fire history cb; new_timeout = pos 0 }

-- What follows `OnAlarm` when it returns a positive time.
unfoldable pub reregister_fired : ℤ → ℕ → ℤ → AlarmQueue → AlarmQueue
reregister_fired now cb new_timeout q =
    if ltb_ℤ (pos 0) new_timeout
    then register_alarm
        (record q {
          alarms_reregistered_and_should_be_skipped =
              if leb_ℤ new_timeout now
              then insert_key cb q.alarms_reregistered_and_should_be_skipped
              else q.alarms_reregistered_and_should_be_skipped;
        })
        new_timeout cb
    else q

-- The body of the loop for one alarm that is due: the new queue and the next iterator.
unfoldable pub fire_entry : Reactions → ℤ → Entry → AlarmQueue → Outcome (AlarmQueue × Option ℕ)
unfolding reregister_fired
fire_entry react now e q = do
  let r = react q.fired e.cb
  let called = record q { all_alarms = erase_key e.cb q.all_alarms; fired = e.cb ∷ q.fired }
  q' ← apply_all (on_unregistration called e.cb) r.operations
  i ← deref (find e.node q'.alarm_map)
  let erased = record q' { alarm_map = erase e.node q'.alarm_map }
  done (reregister_fired now e.cb r.new_timeout erased, next e.node q'.alarm_map)

unfoldable pub loop : ℕ → Reactions → ℤ → Option ℕ → AlarmQueue → Outcome AlarmQueue
loop zero react now i q = out_of_fuel
loop (suc fuel) react now none q = done q
loop (suc fuel) react now (some n) q = do
  e ← deref (find n q.alarm_map)
  let skip = loop fuel react now (next n q.alarm_map) q
  let fire = fire_entry react now e q >>= λ r. loop fuel react now r.1 r.0
  if ltb_ℤ now e.timeout
      then done q
      else if member e.cb q.alarms_reregistered_and_should_be_skipped
      then skip
      else fire

abbrev pub clear_skipped : AlarmQueue → Outcome AlarmQueue
clear_skipped q = done (record q { alarms_reregistered_and_should_be_skipped = [] })

unfoldable pub call_timeout_alarms : ℕ → Reactions → ℤ → AlarmQueue → Outcome AlarmQueue
unfolding loop fire_entry
call_timeout_alarms fuel react now_in_us q =
    if leb_ℤ now_in_us (pos 0)
    then done q
    else loop fuel react now_in_us (begin q.alarm_map) q >>= clear_skipped

-- `tQuicAlarmEvent::OnShutdown`.
abbrev on_shutdown : (ℕ → Event) → ℕ → ℕ → Event
on_shutdown events a =
    update events a (record { registered = false; token = (events a).token; attached = false })

shutdown_all : List Entry → AlarmQueue → AlarmQueue
shutdown_all [] q = q
shutdown_all (x ∷ xs) q =
    shutdown_all xs
      (record q { events = on_shutdown q.events x.cb; alarm_map = erase x.node q.alarm_map })

unfoldable pub cleanup_time_to_alarm_cb_map : AlarmQueue → AlarmQueue
unfolding shutdown_all
cleanup_time_to_alarm_cb_map q = shutdown_all q.alarm_map q
