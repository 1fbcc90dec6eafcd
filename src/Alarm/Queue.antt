-- ===== src/Alarm/Queue.antt =====
-- The operations of src/tQuicAlarmFactory.cc on the queue and on the alarms that it holds.
use nginx_quic_stack.Base.{
  ℕ, List, [], ◌∷◌, if◌then◌else◌, true, false, ◌==◌, Option, none, some, suc,
}
use nginx_quic_stack.Base.Int.{ℤ, pos}
use nginx_quic_stack.Alarm.{Event}
use nginx_quic_stack.Alarm.Multimap.{Entry, insert, erase, find, member, insert_key, erase_key}

-- The queue's three containers, the alarms by address, and the number of the next node. `fired`
-- lists the calls of `OnAlarm`, the latest first.
pub record AlarmQueue : Type 0 where
  pub alarm_map : List Entry
  pub all_alarms : List ℕ
  pub alarms_reregistered_and_should_be_skipped : List ℕ
  pub events : ℕ → Event
  pub next_node : ℕ
  pub fired : List ℕ

-- A step either ends, or reads through an iterator whose node is gone.
pub data Outcome {ℓ} (A : Type ℓ) : Type ℓ where
  done : A → Outcome A
  fault : Outcome A
  out_of_fuel : Outcome A

infixl 5 ◌>>=◌
abbrev pub ◌>>=◌ {ℓ κ} : {A : Type ℓ} {B : Type κ} → Outcome A → (A → Outcome B) → Outcome B
done a >>= f = f a
fault >>= f = fault
out_of_fuel >>= f = out_of_fuel

abbrev pub deref : Option Entry → Outcome Entry
deref none = fault
deref (some e) = done e

abbrev pub new_event : Event
new_event = record { registered = false; token = 0; attached = false }

-- The constructors of the queue and of the alarms.
abbrev pub new_queue : AlarmQueue
new_queue = record {
  alarm_map = [];
  all_alarms = [];
  alarms_reregistered_and_should_be_skipped = [];
  events = λ a. new_event;
  next_node = 0;
  fired = [];
}

abbrev pub update : (ℕ → Event) → ℕ → Event → ℕ → Event
update events a v b = if a == b then v else events b

-- `tQuicAlarmEvent::OnRegistration`.
abbrev pub on_registration : AlarmQueue → ℕ → ℕ → AlarmQueue
on_registration q ac token = record q {
  events = update q.events ac (record { registered = true; token = token; attached = true });
}

-- `tQuicAlarmEvent::OnUnregistration`; `tQuicAlarmEvent::OnAlarm` does the same.
abbrev pub on_unregistration : AlarmQueue → ℕ → AlarmQueue
on_unregistration q ac = record q {
  events = update q.events ac (record {
    registered = false;
    token = (q.events ac).token;
    attached = (q.events ac).attached;
  });
}

unfoldable pub register_alarm : AlarmQueue → ℤ → ℕ → AlarmQueue
register_alarm q timeout_time_in_us ac =
    if member ac q.all_alarms
    then q
    else on_registration
        (record q {
          alarm_map =
              insert (record { timeout = timeout_time_in_us; cb = ac; node = q.next_node })
                q.alarm_map;
          all_alarms = insert_key ac q.all_alarms;
          next_node = suc q.next_node;
        })
        ac q.next_node

-- The queue without a node and its alarm.
abbrev pub unlink : AlarmQueue → ℕ → ℕ → AlarmQueue
unlink q token cb =
    on_unregistration
      (record q { alarm_map = erase token q.alarm_map; all_alarms = erase_key cb q.all_alarms }) cb

unfoldable pub unregister_alarm : AlarmQueue → ℕ → Outcome AlarmQueue
unregister_alarm q iterator_token = do
  e ← deref (find iterator_token q.alarm_map)
  done (unlink q iterator_token e.cb)

-- The queue with a node replaced by a new one for the same alarm.
abbrev pub relink : AlarmQueue → ℕ → ℕ → ℤ → AlarmQueue
relink q token cb timeout_time_in_us = record q {
  alarm_map =
      insert (record { timeout = timeout_time_in_us; cb = cb; node = q.next_node })
        (erase token q.alarm_map);
  next_node = suc q.next_node;
}

-- `tQuicAlarmEventQueue::ReregisterAlarm`; the new iterator comes with the queue.
unfoldable pub reregister : AlarmQueue → ℕ → ℤ → Outcome (AlarmQueue × ℕ)
reregister q iterator_token timeout_time_in_us = do
  e ← deref (find iterator_token q.alarm_map)
  done (relink q iterator_token e.cb timeout_time_in_us, q.next_node)

abbrev first_timeout : List Entry → ℤ
first_timeout [] = pos 0
first_timeout (x ∷ xs) = x.timeout

unfoldable pub next_alarm_time_in_us : AlarmQueue → ℤ
next_alarm_time_in_us q = first_timeout q.alarm_map

-- `tQuicAlarmEvent::UnregisterIfRegistered`.
unfoldable pub unregister_if_registered : AlarmQueue → ℕ → Outcome AlarmQueue
unregister_if_registered q a =
    if (q.events a).registered then unregister_alarm q (q.events a).token else done q

abbrev pub set_token : ℕ → AlarmQueue × ℕ → AlarmQueue
set_token a (q, token) = record q {
  events = update q.events a (record {
    registered = (q.events a).registered;
    token = token;
    attached = (q.events a).attached;
  });
}

-- `tQuicAlarmEvent::ReregisterAlarm`.
unfoldable pub reregister_alarm : AlarmQueue → ℕ → ℤ → Outcome AlarmQueue
reregister_alarm q a timeout_time_in_us = do
  r ← reregister q (q.events a).token timeout_time_in_us
  done (set_token a r)

-- What a caller does with an alarm of its own: `SetImpl`, `CancelImpl` and `UpdateImpl` of
-- `tQuicAlarm`, with the deadline in microseconds.
pub data Operation : Type 0 where
  set_impl : ℕ → ℤ → Operation
  cancel_impl : ℕ → Operation
  update_impl : ℕ → ℤ → Operation

unfoldable pub apply : AlarmQueue → Operation → Outcome AlarmQueue
apply q (set_impl a deadline) = done (register_alarm q deadline a)
apply q (cancel_impl a) = unregister_if_registered q a
apply q (update_impl a deadline) =
    if (q.events a).registered
    then reregister_alarm q a deadline
    else done (register_alarm q deadline a)

unfoldable pub apply_all : AlarmQueue → List Operation → Outcome AlarmQueue
apply_all q [] = done q
apply_all q (op ∷ ops) = do q' ← apply q op; apply_all q' ops
