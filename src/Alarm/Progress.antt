-- ===== src/Alarm/Progress.antt =====
-- `CallTimeoutAlarms` where the delegates arm alarms in the future only. The alarms are those of
-- `tQuicAlarm`, whose `OnAlarm` returns 0.
use nginx_quic_stack.Base.{
  ℕ, ◌+◌, ◌<◌, ◌≡◌, refl, sym, ◌∙◌, ap, List, [], ◌∷◌, ◌++◌, if◌then◌else◌, true, false, ◌==◌, none,
  some, suc, zero, arith, Bool-cases, inl, inr, ◌≤◌, length, subst, append_assoc, length-append,
}
use nginx_quic_stack.Base.Int.{ℤ, pos, ltb_ℤ, leb_ℤ, ◌≤ℤ◌, ◌<ℤ◌}
use nginx_quic_stack.Alarm.Multimap.{
  Entry, insert, erase, find, begin, next, member, erase_key, Sorted, Above, find-lt,
}
use nginx_quic_stack.Alarm.Queue.{
  AlarmQueue, done, register_alarm, unregister_if_registered, on_unregistration, apply, apply_all,
  Operation, set_impl, cancel_impl, update_impl, unlink, relink, set_token,
}
use nginx_quic_stack.Alarm.Timeout.{
  on_alarm, fire_entry, reregister_fired, loop, call_timeout_alarms,
}
use nginx_quic_stack.Alarm.Valid.{Valid}
use nginx_quic_stack.Alarm.Rounds.{called-Valid, erased-Valid, skipping-Valid}
use nginx_quic_stack.Alarm.Operations.{
  register_alarm-Valid, unregister-Valid, reregister_alarm-Valid,
}

abbrev pub Future : ℤ → List Operation → Type 0
Future now [] = Unit {0}
Future now (set_impl a d ∷ ops) = (now <ℤ d) × Future now ops
Future now (cancel_impl a ∷ ops) = Future now ops
Future now (update_impl a d ∷ ops) = (now <ℤ d) × Future now ops

-- How many nodes are due.
abbrev pub due : ℤ → List Entry → ℕ
due now [] = 0
due now (x ∷ xs) = (if leb_ℤ x.timeout now then 1 else 0) + due now xs

due-cons :
    (now : ℤ) (e : Entry) (xs : List Entry) → e.timeout ≤ℤ now → due now (e ∷ xs) ≡ suc (due now xs)
due-cons now e xs h = ground arith

due-insert :
    (now : ℤ) (e : Entry) (xs : List Entry) → now <ℤ e.timeout → due now (insert e xs) ≡ due now xs
unfolding insert
due-insert now e [] h = ground arith
due-insert now e (x ∷ xs) h = ground (arith, due-insert now e xs)

due-erase : (now : ℤ) (n : ℕ) (xs : List Entry) → due now (erase n xs) ≤ due now xs
unfolding erase
due-erase now n [] = omega arith
due-erase now n (x ∷ xs) = ground (arith, due-erase now n xs)

-- The node whose alarm runs stays at the front.
record Front (now : ℤ) (e : Entry) (q : AlarmQueue) : Type 0 where
  rest : List Entry
  split : q.alarm_map ≡ e ∷ rest

-- A state behind some operations: the front stays, and nothing more is due.
record Kept (now : ℤ) (e : Entry) (rest : List Entry) (q q' : AlarmQueue) : Type 0 where
  rest' : List Entry
  split : q'.alarm_map ≡ e ∷ rest'
  fewer : due now rest' ≤ due now rest
  skipped :
      q'.alarms_reregistered_and_should_be_skipped ≡ q.alarms_reregistered_and_should_be_skipped
  fired : q'.fired ≡ q.fired

insert-front :
    (now : ℤ) (e x : Entry) (rest : List Entry)
    → e.timeout ≤ℤ now
    → now <ℤ x.timeout
    → insert x (e ∷ rest) ≡ e ∷ insert x rest
unfolding insert
insert-front now e x rest h k = ground arith

erase-front :
    (n : ℕ) (e : Entry) (rest : List Entry)
    → (e.node == n) ≡ false
    → erase n (e ∷ rest) ≡ e ∷ erase n rest
unfolding erase
erase-front n e rest h = rw h

register_alarm-Kept :
    (now : ℤ) (e : Entry) (rest : List Entry) (q : AlarmQueue) (d : ℤ) (a : ℕ)
    → q.alarm_map ≡ e ∷ rest
    → e.timeout ≤ℤ now
    → now <ℤ d
    → Kept now e rest q (register_alarm q d a)
unfolding register_alarm
register_alarm-Kept now e rest q d a s h k = elim (Bool-cases (member a q.all_alarms)) [
  | inl there ↦
      rw there
        (record { rest' = rest; split = s; fewer = omega arith; skipped = refl; fired = refl })
  | inr new ↦
      let x : Entry = record { timeout = d; cb = a; node = q.next_node } in
      rw new (record {
        rest' = insert x rest;
        split = ap (insert x) s ∙ insert-front now e x rest h k;
        fewer = omega (arith, due-insert now x rest k);
        skipped = refl;
        fired = refl;
      })
]

module _ (now : ℤ) (e : Entry) (rest : List Entry) (q : AlarmQueue) (v : Valid (some e) q)
    (s : q.alarm_map ≡ e ∷ rest) where
  unlink-Kept :
      (a : ℕ) → (q.events a).registered ≡ true → Kept now e rest q (unlink q (q.events a).token a)
  unlink-Kept a r = record {
    rest' = erase (q.events a).token rest;
    split =
        ap (erase (q.events a).token) s ∙ erase-front (q.events a).token e rest (v.backed a r).1;
    fewer = due-erase now (q.events a).token rest;
    skipped = refl;
    fired = refl;
  }

  relink-Kept :
      (a : ℕ) (d : ℤ)
      → (q.events a).registered ≡ true
      → e.timeout ≤ℤ now
      → now <ℤ d
      → Kept now e rest q (set_token a (relink q (q.events a).token a d, q.next_node))
  relink-Kept a d r h k =
      let token = (q.events a).token in
      let x : Entry = record { timeout = d; cb = a; node = q.next_node } in
      record {
        rest' = insert x (erase token rest);
        split =
            ap (λ m. insert x (erase token m)) s
            ∙ ap (insert x) (erase-front token e rest (v.backed a r).1)
            ∙ insert-front now e x (erase token rest) h k;
        fewer = omega (arith, due-insert now x (erase token rest) k, due-erase now token rest);
        skipped = refl;
        fired = refl;
      }

-- One operation that arms nothing before `now`.
apply-Kept :
    (now : ℤ) (e : Entry) (rest : List Entry) (q : AlarmQueue) (op : Operation)
    → Valid (some e) q
    → q.alarm_map ≡ e ∷ rest
    → e.timeout ≤ℤ now
    → Future now (op ∷ [])
    → (q' : AlarmQueue) × (apply q op ≡ done q') × Valid (some e) q' × Kept now e rest q q'
unfolding apply unregister_if_registered
apply-Kept now e rest q (set_impl a d) v s h f = (
  register_alarm q d a,
  refl,
  register_alarm-Valid (some e) q v d a,
  register_alarm-Kept now e rest q d a s h f.0,
)
apply-Kept now e rest q (cancel_impl a) v s h f = elim (Bool-cases (q.events a).registered) [
  | inl r ↦
      let (ran, v') = unregister-Valid (some e) q v a r in
      rw r (unlink q (q.events a).token a, ran, v', unlink-Kept now e rest q v s a r)
  | inr r ↦ rw r (
    q,
    refl,
    v,
    record { rest' = rest; split = s; fewer = omega arith; skipped = refl; fired = refl },
  )
]
apply-Kept now e rest q (update_impl a d) v s h f = elim (Bool-cases (q.events a).registered) [
  | inl r ↦
      let (ran, v') = reregister_alarm-Valid (some e) q v a d r in
      rw r (
        set_token a (relink q (q.events a).token a d, q.next_node),
        ran,
        v',
        relink-Kept now e rest q v s a d r h f.0,
      )
  | inr r ↦ rw r (
    register_alarm q d a,
    refl,
    register_alarm-Valid (some e) q v d a,
    register_alarm-Kept now e rest q d a s h f.0,
  )
]

Kept-trans :
    (now : ℤ) (e : Entry) (rest : List Entry) (q m r : AlarmQueue) (k : Kept now e rest q m)
    → Kept now e k.rest' m r
    → Kept now e rest q r
Kept-trans now e rest q m r k l = record {
  rest' = l.rest';
  split = l.split;
  fewer = omega (arith, k.fewer, l.fewer);
  skipped = l.skipped ∙ k.skipped;
  fired = l.fired ∙ k.fired;
}

Future-cons :
    (now : ℤ) (op : Operation) (ops : List Operation)
    → Future now (op ∷ ops)
    → Future now (op ∷ []) × Future now ops
Future-cons now (set_impl a d) ops f = ((f.0, tt), f.1)
Future-cons now (cancel_impl a) ops f = (tt, f)
Future-cons now (update_impl a d) ops f = ((f.0, tt), f.1)

apply_all-Kept :
    (now : ℤ) (e : Entry) (ops : List Operation) (rest : List Entry) (q : AlarmQueue)
    → Valid (some e) q
    → q.alarm_map ≡ e ∷ rest
    → e.timeout ≤ℤ now
    → Future now ops
    → (q' : AlarmQueue) × (apply_all q ops ≡ done q') × Valid (some e) q' × Kept now e rest q q'
unfolding apply_all
apply_all-Kept now e [] rest q v s h f = (
  q,
  refl,
  v,
  record { rest' = rest; split = s; fewer = omega arith; skipped = refl; fired = refl },
)
apply_all-Kept now e (op ∷ ops) rest q v s h f =
    let (f', fs) = Future-cons now op ops f in
    let (m, ran, vm, k) = apply-Kept now e rest q op v s h f' in
    let (r, ran', vr, l) = apply_all-Kept now e ops k.rest' m vm k.split h fs in
    (r, rw ran ran', vr, Kept-trans now e rest q m r k l)

-- Nothing on the map is due.
abbrev pub Later : ℤ → List Entry → Type 0
Later now [] = Unit {0}
Later now (x ∷ xs) = (now <ℤ x.timeout) × Later now xs

Later-Above : (now t : ℤ) (xs : List Entry) → now <ℤ t → Above t xs → Later now xs
Later-Above now t [] h a = tt
Later-Above now t (x ∷ xs) h a = (omega arith, Later-Above now t xs h a.1)

next_front : (e : Entry) (rest : List Entry) → next e.node (e ∷ rest) ≡ begin rest
unfolding next
next_front e rest = ground arith

erase_front : (e : Entry) (rest : List Entry) → erase e.node (e ∷ rest) ≡ rest
unfolding erase
erase_front e rest = ground arith

record Fired (now : ℤ) (e : Entry) (rest : List Entry) (q q' : AlarmQueue) : Type 0 where
  valid : Valid none q'
  fewer : due now q'.alarm_map ≤ due now rest
  skipped :
      q'.alarms_reregistered_and_should_be_skipped ≡ q.alarms_reregistered_and_should_be_skipped
  fired : q'.fired ≡ e.cb ∷ q.fired

-- What a finished call of `CallTimeoutAlarms` leaves, and the alarms that it called.
pub record Ends (now : ℤ) (q q' : AlarmQueue) : Type 0 where
  pub valid : Valid none q'
  pub later : Later now q'.alarm_map
  pub called : List ℕ
  pub fired : q'.fired ≡ called ++ q.fired
  pub few : length called ≤ due now q.alarm_map

module _ (now : ℤ) (fire : List ℕ → ℕ → List Operation)
    (patient : (h : List ℕ) (a : ℕ) → Future now (fire h a)) where
  -- The first alarm of the map is due: it is called, and its node goes.
  fire_front :
      (e : Entry) (rest : List Entry) (q : AlarmQueue)
      → Valid none q
      → q.alarm_map ≡ e ∷ rest
      → e.timeout ≤ℤ now
      → (q' : AlarmQueue) × (fire_entry (on_alarm fire) now e q ≡ done (q', begin q'.alarm_map))
        × Fired now e rest q q'
  unfolding fire_entry reregister_fired find
  fire_front e rest q v s h =
      let called = record q { all_alarms = erase_key e.cb q.all_alarms; fired = e.cb ∷ q.fired } in
      let found : find e.node q.alarm_map ≡ some e = rw s (ground arith) in
      let calls =
        called-Valid q e (e.cb ∷ q.fired) v found
          (find-lt q.next_node e.node q.alarm_map e v.fresh found) in
      let (q', ran, v', k) =
        apply_all-Kept now e (fire q.fired e.cb) rest (on_unregistration called e.cb) calls s h
          (patient q.fired e.cb) in
      let left : erase e.node q'.alarm_map ≡ k.rest' =
        ap (erase e.node) k.split ∙ erase_front e k.rest' in
      let after : next e.node q'.alarm_map ≡ begin (erase e.node q'.alarm_map) =
        ap (next e.node) k.split ∙ next_front e k.rest' ∙ ap begin (sym left) in
      (
        record q' { alarm_map = erase e.node q'.alarm_map },
        rw (ran, v'.present.0, after),
        record {
          valid = erased-Valid q' e v';
          fewer = rw left k.fewer;
          skipped = k.skipped;
          fired = k.fired;
        },
      )

  Ends-stop : (q : AlarmQueue) → Valid none q → Later now q.alarm_map → Ends now q q
  Ends-stop q v l = record { valid = v; later = l; called = []; fired = refl; few = omega arith }

  Ends-cons :
      (e : Entry) (rest : List Entry) (q q' q'' : AlarmQueue)
      → q.alarm_map ≡ e ∷ rest
      → e.timeout ≤ℤ now
      → Fired now e rest q q'
      → Ends now q' q''
      → Ends now q q''
  Ends-cons e rest q q' q'' s h k z = record {
    valid = z.valid;
    later = z.later;
    called = z.called ++ e.cb ∷ [];
    fired = z.fired ∙ ap (◌++◌ z.called) k.fired ∙ sym (append_assoc z.called (e.cb ∷ []) q.fired);
    few = omega (
      arith,
      z.few,
      k.fewer,
      length-append z.called (e.cb ∷ []),
      ap (due now) s,
      due-cons now e rest h,
    );
  }

  -- The loop from the first node of the map.
  loop-Ends :
      (fuel : ℕ) (xs : List Entry) (q : AlarmQueue)
      → q.alarm_map ≡ xs
      → Valid none q
      → q.alarms_reregistered_and_should_be_skipped ≡ []
      → due now xs < fuel
      → (q' : AlarmQueue) × (loop fuel (on_alarm fire) now (begin xs) q ≡ done q') × Ends now q q'
  unfolding loop begin find member
  loop-Ends zero xs q s v n f = absurd (omega arith)
  loop-Ends (suc fuel) [] q s v n f = (q, refl, Ends-stop q v (rw s tt))
  loop-Ends (suc fuel) (e ∷ rest) q s v n f =
      let found : find e.node q.alarm_map ≡ some e = rw s (ground arith) in
      let sorted : Sorted (e ∷ rest) = subst Sorted s v.sorted in
      let noskip : member e.cb q.alarms_reregistered_and_should_be_skipped ≡ false = rw n refl in
      elim (Bool-cases (ltb_ℤ now e.timeout)) [
        | inl later ↦
            let l : now <ℤ e.timeout = ground arith in
            rw (found, later)
              (q, refl, Ends-stop q v (rw s (l, Later-Above now e.timeout rest l sorted.0)))
        | inr reached ↦
            let (q', ran, k) = fire_front e rest q v s (ground arith) in
            let (q'', ran', z) =
              loop-Ends fuel q'.alarm_map q' refl k.valid (k.skipped ∙ n)
                (ground (arith, k.fewer)) in
            rw (found, reached, noskip, ran)
              (q'', ran', Ends-cons e rest q q' q'' s (ground arith) k z)
      ]

-- From a valid queue with nothing to skip, at a positive time, where the delegates arm alarms only
-- for later than now: with one round more than alarms are due, CallTimeoutAlarms ends; behind it
-- the queue is valid, no alarm is due, and the alarms called are at most as many as were due.
pub call_timeout_alarms-Ends :
    (now : ℤ) (fire : List ℕ → ℕ → List Operation) (q : AlarmQueue)
    → ((h : List ℕ) (a : ℕ) → Future now (fire h a))
    → Valid none q
    → q.alarms_reregistered_and_should_be_skipped ≡ []
    → pos 0 <ℤ now
    → (q' : AlarmQueue) × (call_timeout_alarms (due now q.alarm_map + 1) (on_alarm fire) now q
        ≡ done q')
      × Ends now q q'
unfolding call_timeout_alarms
call_timeout_alarms-Ends now fire q patient v n h =
    let busy : leb_ℤ now (pos 0) ≡ false = ground arith in
    let (q', ran, z) =
      loop-Ends now fire patient (due now q.alarm_map + 1) q.alarm_map q refl v n (omega arith) in
    (
      record q' { alarms_reregistered_and_should_be_skipped = [] },
      rw (busy, ran),
      record {
        valid = skipping-Valid q' [] z.valid;
        later = z.later;
        called = z.called;
        fired = z.fired;
        few = z.few;
      },
    )
