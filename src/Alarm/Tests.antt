-- ===== src/Alarm/Tests.antt =====
-- The alarm queue at concrete inputs.
use nginx_quic_stack.Base.{ℕ, ◌+◌, ◌≡◌, refl, List, [], ◌∷◌, none, arith, length}
use nginx_quic_stack.Base.Int.{pos}
use nginx_quic_stack.Alarm.Multimap.{Entry, insert, member, insert_key}
use nginx_quic_stack.Alarm.Queue.{
  AlarmQueue, done, out_of_fuel, new_queue, register_alarm, apply_all, Operation, set_impl,
  update_impl, cancel_impl, next_alarm_time_in_us,
}
use nginx_quic_stack.Alarm.Timeout.{on_alarm, call_timeout_alarms}
use nginx_quic_stack.Alarm.Valid.{Valid, new_queue-Valid}
use nginx_quic_stack.Alarm.Operations.{register_alarm-Valid, apply_all-Valid}
use nginx_quic_stack.Alarm.Rounds.{Safe, call_timeout_alarms-Safe}
use nginx_quic_stack.Alarm.Progress.{Ends, due, call_timeout_alarms-Ends}
use nginx_quic_stack.Alarm.Quiet.{
  quiet, rearm, due_cbs, not_due, called_before, call_timeout_alarms-quiet,
  call_timeout_alarms-rearm,
}

abbrev two_alarms : AlarmQueue
two_alarms = register_alarm (register_alarm new_queue (pos 50) 1) (pos 20) 2

two_alarms-Valid : Valid none two_alarms
two_alarms-Valid =
    register_alarm-Valid none (register_alarm new_queue (pos 50) 1)
      (register_alarm-Valid none new_queue new_queue-Valid (pos 50) 1) (pos 20) 2

-- A delegate that arms alarm 3 later.
abbrev arms_later : List ℕ → ℕ → List Operation
arms_later h a = update_impl 3 (pos 90) ∷ []

run_order : next_alarm_time_in_us two_alarms ≡ pos 20
unfolding next_alarm_time_in_us register_alarm insert member insert_key
run_order = refl

apply_all-Valid_example :
    (q' : AlarmQueue) × (apply_all two_alarms
        (update_impl 1 (pos 5) ∷ cancel_impl 2 ∷ cancel_impl 7 ∷ [])
      ≡ done q')
    × Valid none q'
apply_all-Valid_example =
    apply_all-Valid none two_alarms (update_impl 1 (pos 5) ∷ cancel_impl 2 ∷ cancel_impl 7 ∷ [])
      two_alarms-Valid

-- An alarm that cancels the other one and sets itself for a time that has passed.
abbrev meddles : List ℕ → ℕ → List Operation
meddles h a = cancel_impl 1 ∷ set_impl a (pos 3) ∷ []

call_timeout_alarms-Safe_example :
    Safe (call_timeout_alarms 9 (on_alarm meddles) (pos 60) two_alarms)
call_timeout_alarms-Safe_example =
    call_timeout_alarms-Safe 9 (on_alarm meddles) (pos 60) two_alarms two_alarms-Valid

unskipped : two_alarms.alarms_reregistered_and_should_be_skipped ≡ []
unfolding register_alarm member insert_key
unskipped = refl

call_timeout_alarms-Ends_example :
    (q' : AlarmQueue) × (call_timeout_alarms
        (due (pos 30) two_alarms.alarm_map + 1)
        (on_alarm arms_later)
        (pos 30)
        two_alarms
      ≡ done q')
    × Ends (pos 30) two_alarms q'
call_timeout_alarms-Ends_example =
    call_timeout_alarms-Ends (pos 30) arms_later two_alarms (λ h a. omega arith) two_alarms-Valid
      unskipped (omega arith)

call_timeout_alarms-quiet_example :
    (q' : AlarmQueue) × (call_timeout_alarms
        (length two_alarms.alarm_map + 1)
        (on_alarm quiet)
        (pos 30)
        two_alarms
      ≡ done q')
    × (q'.fired ≡ called_before (due_cbs (pos 30) two_alarms.alarm_map) two_alarms.fired)
    × (q'.alarm_map ≡ not_due (pos 30) two_alarms.alarm_map)
call_timeout_alarms-quiet_example =
    call_timeout_alarms-quiet (pos 30) two_alarms unskipped (omega arith)

call_timeout_alarms-rearm_example :
    call_timeout_alarms 100
      (on_alarm (rearm (pos 40)))
      (pos 40)
      (register_alarm new_queue (pos 40) 6)
    ≡ out_of_fuel
call_timeout_alarms-rearm_example =
    call_timeout_alarms-rearm 100 (pos 40) (pos 40) 6 (omega arith) (omega arith)

first_entry : Entry
first_entry = record { timeout = pos 20; cb = 2; node = 1 }
