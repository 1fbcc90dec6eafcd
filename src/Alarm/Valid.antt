-- ===== src/Alarm/Valid.antt =====
-- The invariant of the alarm queue. `current` is the node whose `OnAlarm` runs, if any: its alarm
-- is no longer registered, and the node is still there.
use nginx_quic_stack.Base.{ℕ, ◌<◌, ◌≡◌, refl, List, Bool, true, false, ◌==◌, Option, none, some}
use nginx_quic_stack.Alarm.Multimap.{Entry, find, member, Sorted, Distinct, Below, cb_at}
use nginx_quic_stack.Alarm.Queue.{AlarmQueue, new_queue}

abbrev pub hidden : Option Entry → ℕ → Bool
hidden none n = false
hidden (some c) n = c.node == n

abbrev pub Present : Option Entry → ℕ → List Entry → Type 0
Present none k xs = Unit {0}
Present (some c) k xs = (find c.node xs ≡ some c) × (c.node < k)

pub record Valid (current : Option Entry) (q : AlarmQueue) : Type 0 where
  pub sorted : Sorted q.alarm_map
  pub distinct : Distinct q.alarm_map
  pub fresh : Below q.next_node q.alarm_map
  pub present : Present current q.next_node q.alarm_map
  -- A node's alarm is registered, and its token is that node.
  pub linked :
      (n a : ℕ)
      → cb_at n q.alarm_map ≡ some a
      → hidden current n ≡ false
      → ((q.events a).registered ≡ true) × ((q.events a).token ≡ n)
  -- A registered alarm's token is a node that holds it.
  pub backed :
      (a : ℕ)
      → (q.events a).registered ≡ true
      → (cb_at (q.events a).token q.alarm_map ≡ some a)
        × (hidden current (q.events a).token ≡ false)
  pub members : (a : ℕ) → member a q.all_alarms ≡ (q.events a).registered

pub new_queue-Valid : Valid none new_queue
unfolding cb_at find member
new_queue-Valid = record {
  sorted = tt;
  distinct = tt;
  fresh = tt;
  present = tt;
  linked = λ n a h k. cc;
  backed = λ a h. cc;
  members = λ a. refl;
}
