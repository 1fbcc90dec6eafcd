-- ===== src/Alarm.antt =====
-- `tQuicAlarmEventQueue`, `tQuicAlarmEvent` and `tQuicAlarm` of src/tQuicAlarmFactory.hh and
-- src/tQuicAlarmFactory.cc. An alarm (an `AlarmCB*`) is its address, a number. The multimap is the
-- list of its nodes in order, a node keeps the number that it got when it was inserted, and an
-- iterator is that number. Reading through an iterator whose node is gone is a `fault`.
pub mod Multimap
pub mod Queue
pub mod Timeout
pub mod Valid
pub mod Operations
pub mod Rounds
pub mod Progress
pub mod Quiet
mod Tests
use nginx_quic_stack.Base.{ℕ, Bool}

-- `tQuicAlarmEvent`: `attached` says that `eq_` points at the queue.
pub record Event : Type 0 where
  pub registered : Bool
  pub token : ℕ
  pub attached : Bool
