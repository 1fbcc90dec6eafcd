-- ===== src/Stack.antt =====
-- The alarm interface of `tQuicStack` in src/tQuicStack.cc, which counts in milliseconds where the
-- queue counts in microseconds. `none` is a stack that has no queue yet.
pub mod Sessions
pub mod Requests
pub mod Responses
pub mod Isolated
pub mod Config
pub mod Versions
pub mod Dispatcher
pub mod Settings
pub mod Handles
pub mod Streams
mod Tests
use nginx_quic_stack.Base.{
  ℕ, ◌+◌, ◌-◌, ◌*◌, ◌/◌, ◌%◌, ◌<◌, ◌≡◌, ◌≢◌, refl, ap, ◌∙◌, List, [], ◌∷◌, Option, none, some,
  if◌then◌else◌, arith, zero, suc, ◌==◌, true, false, Bool-cases, inl, inr,
}
use nginx_quic_stack.Base.Int.{ℤ, pos, negsuc, leb_ℤ, ltb_ℤ, ◌≤ℤ◌, ◌<ℤ◌}
use nginx_quic_stack.Alarm.Multimap.{Entry, find, begin}
use nginx_quic_stack.Alarm.Queue.{
  AlarmQueue, Outcome, done, fault, out_of_fuel, next_alarm_time_in_us,
}
use nginx_quic_stack.Stream.Buffer.{quic_stack_parameter}
use nginx_quic_stack.Alarm.Timeout.{Reactions, loop, call_timeout_alarms}

-- `_ / 1000`, towards 0, and `_ * 1000`.
abbrev pub div_1000 : ℤ → ℤ
div_1000 (pos n) = pos (n / 1000)
div_1000 (negsuc n) = if (n + 1) / 1000 == 0 then pos 0 else negsuc ((n + 1) / 1000 - 1)

abbrev pub mul_1000 : ℤ → ℤ
mul_1000 (pos n) = pos (n * 1000)
mul_1000 (negsuc n) = negsuc (n * 1000 + 999)

unfoldable pub next_alarm_time : Option AlarmQueue → ℤ
next_alarm_time none = pos 0
next_alarm_time (some q) = div_1000 (next_alarm_time_in_us q)

abbrev with_queue : Outcome AlarmQueue → Outcome (Option AlarmQueue)
with_queue (done q) = done (some q)
with_queue fault = fault
with_queue out_of_fuel = out_of_fuel

unfoldable pub on_alarm_timeout :
    ℕ → Reactions → ℤ → Option AlarmQueue → Outcome (Option AlarmQueue)
on_alarm_timeout fuel react deadline_ms none = done none
on_alarm_timeout fuel react deadline_ms (some q) =
    with_queue (call_timeout_alarms fuel react (mul_1000 deadline_ms) q)

-- The C functions; a handler that is null is `none`.
unfoldable pub quic_stack_next_alarm_time : Option (Option AlarmQueue) → ℤ
unfolding next_alarm_time
quic_stack_next_alarm_time none = quic_stack_parameter
quic_stack_next_alarm_time (some queue) = next_alarm_time queue

abbrev handled : Outcome (Option AlarmQueue) → Outcome (Option (Option AlarmQueue))
handled (done queue) = done (some queue)
handled fault = fault
handled out_of_fuel = out_of_fuel

unfoldable pub quic_stack_on_alarm_timeout :
    ℕ → Reactions → ℤ → Option (Option AlarmQueue) → Outcome (Option (Option AlarmQueue))
unfolding on_alarm_timeout
quic_stack_on_alarm_timeout fuel react deadline_ms none = done none
quic_stack_on_alarm_timeout fuel react deadline_ms (some queue) =
    handled (on_alarm_timeout fuel react deadline_ms queue)

-- What a call leaves that has called no alarm.
pub record Idle {A : Type 0} (q : AlarmQueue) (r : Outcome A) (into : AlarmQueue → A) : Type 0 where
  pub left : AlarmQueue
  pub ended : r ≡ done (into left)
  pub map : left.alarm_map ≡ q.alarm_map
  pub fired : left.fired ≡ q.fired

early :
    (fuel : ℕ) (react : Reactions) (now : ℤ) (e : Entry) (rest : List Entry) (q : AlarmQueue)
    → q.alarm_map ≡ e ∷ rest
    → now <ℤ e.timeout
    → Idle q (call_timeout_alarms (suc fuel) react now q) (λ left. left)
unfolding call_timeout_alarms loop begin find
early fuel react now e rest q first h =
    let found : find e.node q.alarm_map ≡ some e = rw first (ground arith) in
    let begins : begin q.alarm_map ≡ some e.node = rw first refl in
    let waits : ltb_ℤ now e.timeout ≡ true = ground arith in
    elim (Bool-cases (leb_ℤ now (pos 0))) [
      | inl idle ↦ record { left = q; ended = rw idle refl; map = refl; fired = refl }
      | inr busy ↦ record {
        left = record q { alarms_reregistered_and_should_be_skipped = [] };
        ended = rw (busy, begins, found, waits) refl;
        map = refl;
        fired = refl;
      }
    ]

-- Where the first node of the map has a time of t microseconds and t is no multiple of 1000:
-- OnAlarmTimeout at the time that NextAlarmTime gives ends at once, calls no alarm, and leaves the
-- map as it was, since NextAlarmTime rounds down.
pub on_alarm_timeout-next_alarm_time :
    (fuel : ℕ) (react : Reactions) (e : Entry) (rest : List Entry) (t : ℕ) (q : AlarmQueue)
    → q.alarm_map ≡ e ∷ rest
    → e.timeout ≡ pos t
    → t % 1000 ≢ 0
    → Idle q (on_alarm_timeout (suc fuel) react (next_alarm_time (some q)) (some q)) some
unfolding on_alarm_timeout next_alarm_time next_alarm_time_in_us
on_alarm_timeout-next_alarm_time fuel react e rest t q first time part =
    let next : next_alarm_time_in_us q ≡ pos t = rw first time in
    let i =
      early fuel react (pos (t / 1000 * 1000)) e rest q first (rw time (omega (arith, part))) in
    record {
      left = i.left;
      ended =
          ap (λ n. with_queue (call_timeout_alarms (suc fuel) react (mul_1000 (div_1000 n)) q)) next
          ∙ ap with_queue i.ended;
      map = i.map;
      fired = i.fired;
    }
