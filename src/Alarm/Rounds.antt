-- ===== src/Alarm/Rounds.antt =====
-- The rounds of `CallTimeoutAlarms` against the invariant, where callbacks may do anything to the
-- queue.
use nginx_quic_stack.Base.{
  ℕ, ◌<◌, ◌≡◌, ◌≢◌, refl, ◌∙◌, ap, List, [], ◌∷◌, ◌==◌, Option, none, some, suc, zero, arith,
  Bool-cases, inl, inr,
}
use nginx_quic_stack.Base.Int.{ℤ, pos, ltb_ℤ, leb_ℤ}
use nginx_quic_stack.Alarm.Multimap.{
  Entry, insert, erase, find, begin, next, member, erase_key, Distinct, Sorted-erase, find_above,
  find_node, find-lt, Below-erase, find-insert, find-erase, Distinct-erase, cb_at-erase,
  member-erase_key, cb_at-some,
}
use nginx_quic_stack.Alarm.Queue.{
  AlarmQueue, Outcome, done, fault, out_of_fuel, ◌>>=◌, register_alarm, on_unregistration,
}
use nginx_quic_stack.Alarm.Timeout.{
  Reactions, fire_entry, reregister_fired, loop, call_timeout_alarms, clear_skipped,
}
use nginx_quic_stack.Alarm.Valid.{Valid}
use nginx_quic_stack.Alarm.Operations.{register_alarm-Valid, apply_all-Valid}

-- An iterator of the map: `end()`, or a node that is there.
abbrev pub In : Option ℕ → List Entry → Type 0
In none xs = Unit {0}
In (some n) xs = (e : Entry) × (find n xs ≡ some e)

pub begin-In : (xs : List Entry) → In (begin xs) xs
unfolding begin find
begin-In [] = tt
begin-In (x ∷ xs) = (x, ground arith)

find-next :
    (n m : ℕ) (xs : List Entry)
    → Distinct xs
    → next n xs ≡ some m
    → (e : Entry) × (find m xs ≡ some e) × (m ≢ n)
unfolding next begin find
find-next n m [] d h = absurd (cc)
find-next n m (x ∷ []) d h = absurd (ground (arith, h))
find-next n m (x ∷ y ∷ xs) d h = elim (Bool-cases (x.node == n)) [
  | inl here ↦ (y, ground (arith, here, h, d), ground (arith, here, h, d))
  | inr there ↦
      let (e, found, ne) = find-next n m (y ∷ xs) d.1 (rw there at h) in
      (e, ground (arith, found, d), ne)
]

-- The alarm's own call: its flag falls and it leaves the set, its node stays.
pub called-Valid :
    (q : AlarmQueue) (e : Entry) (fired : List ℕ)
    → Valid none q
    → find e.node q.alarm_map ≡ some e
    → e.node < q.next_node
    → Valid (some e) (
        on_unregistration
          (record q { all_alarms = erase_key e.cb q.all_alarms; fired = fired })
          e.cb)
called-Valid q e fired v found older =
    let own = v.linked e.node e.cb (cb_at-some e.node q.alarm_map e found) refl in
    record {
      sorted = v.sorted;
      distinct = v.distinct;
      fresh = v.fresh;
      present = (found, older);
      linked = λ n a h k. ground (arith, v.linked n a, own);
      backed = λ a h. ground (arith, v.backed a, own, cb_at-some e.node q.alarm_map e found);
      members = λ a. ground (arith, v.members a, member-erase_key a e.cb q.all_alarms);
    }

-- Behind the call the node is erased, and all is as between two calls.
pub erased-Valid :
    (q : AlarmQueue) (e : Entry)
    → Valid (some e) q
    → Valid none (record q { alarm_map = erase e.node q.alarm_map })
erased-Valid q e v = record {
  sorted = Sorted-erase e.node q.alarm_map v.sorted;
  distinct = Distinct-erase e.node q.alarm_map v.distinct;
  fresh = Below-erase q.next_node e.node q.alarm_map v.fresh;
  present = tt;
  linked = λ n a h k. ground (arith, cb_at-erase n e.node q.alarm_map v.distinct, v.linked n a);
  backed = λ a h.
      ground (arith, cb_at-erase (q.events a).token e.node q.alarm_map v.distinct, v.backed a);
  members = v.members;
}

In-erase : (n : ℕ) (xs : List Entry) → Distinct xs → In (next n xs) (erase n xs)
In-erase n xs d = go (next n xs) refl
  where
    go : (i : Option ℕ) → next n xs ≡ i → In i (erase n xs)
    go none e = tt
    go (some m) e =
        let (x, found, ne) = find-next n m xs d e in
        (x, rw (find-erase m n xs d) (ground (arith, found, ne)))

In-next : (n : ℕ) (xs : List Entry) → Distinct xs → In (next n xs) xs
In-next n xs d = go (next n xs) refl
  where
    go : (i : Option ℕ) → next n xs ≡ i → In i xs
    go none e = tt
    go (some m) e = let (x, found, ne) = find-next n m xs d e in (x, found)

In-insert :
    (i : Option ℕ) (e : Entry) (xs : List Entry)
    → find e.node xs ≡ none
    → In i xs
    → In i (insert e xs)
In-insert none e xs h k = tt
In-insert (some m) e xs h (x, found) = (x, rw (find-insert m e xs h) (ground (arith, found, h)))

abbrev Sound : Option ℕ → AlarmQueue → Type 0
Sound i q = Valid none q × In i q.alarm_map

register_alarm-In :
    (i : Option ℕ) (q : AlarmQueue) (t : ℤ) (a : ℕ)
    → Sound i q
    → In i (register_alarm q t a).alarm_map
unfolding register_alarm
register_alarm-In i q t a (v, s) = elim (Bool-cases (member a q.all_alarms)) [
  | inl there ↦ rw there s
  | inr new ↦ rw new (
      In-insert i (record { timeout = t; cb = a; node = q.next_node }) q.alarm_map
        (find_above q.next_node q.next_node q.alarm_map v.fresh (omega arith)) s)
]

-- The set of alarms to skip is no part of the invariant.
pub skipping-Valid :
    (q : AlarmQueue) (s : List ℕ)
    → Valid none q
    → Valid none (record q { alarms_reregistered_and_should_be_skipped = s })
skipping-Valid q s v = record {
  sorted = v.sorted;
  distinct = v.distinct;
  fresh = v.fresh;
  present = tt;
  linked = v.linked;
  backed = v.backed;
  members = v.members;
}

reregister_fired-Sound :
    (now : ℤ) (cb : ℕ) (t : ℤ) (i : Option ℕ) (q : AlarmQueue)
    → Sound i q
    → Sound i (reregister_fired now cb t q)
unfolding reregister_fired
reregister_fired-Sound now cb t i q (v, s) = elim (Bool-cases (ltb_ℤ (pos 0) t)) [
  | inl again ↦ rw again (
    register_alarm-Valid none _ (skipping-Valid q _ v) t cb,
    register_alarm-In i _ t cb (skipping-Valid q _ v, s),
  )
  | inr never ↦ rw never (v, s)
]

-- One alarm's round: the queue is sound behind it, with the next iterator.
fire_entry-Sound :
    (react : Reactions) (now : ℤ) (e : Entry) (q : AlarmQueue)
    → Valid none q
    → find e.node q.alarm_map ≡ some e
    → (r : AlarmQueue × Option ℕ) × (fire_entry react now e q ≡ done r) × Sound r.1 r.0
unfolding fire_entry
fire_entry-Sound react now e q v found =
    let called = record q { all_alarms = erase_key e.cb q.all_alarms; fired = e.cb ∷ q.fired } in
    let r = react q.fired e.cb in
    let calls =
      called-Valid q e (e.cb ∷ q.fired) v found
        (find-lt q.next_node e.node q.alarm_map e v.fresh found) in
    let (q', ran, v') =
      apply_all-Valid (some e) (on_unregistration called e.cb) r.operations calls in
    let erased = record q' { alarm_map = erase e.node q'.alarm_map } in
    let i = next e.node q'.alarm_map in
    (
      (reregister_fired now e.cb r.new_timeout erased, i),
      rw (ran, v'.present.0),
      reregister_fired-Sound now e.cb r.new_timeout i erased
          (erased-Valid q' e v', In-erase e.node q'.alarm_map v'.distinct),
    )

-- A run ends in a valid queue, or has used up its fuel.
abbrev pub Safe : Outcome AlarmQueue → Type 0
Safe (done q) = Valid none q
Safe fault = ⊥
Safe out_of_fuel = Unit {0}

pub loop-Safe :
    (fuel : ℕ) (react : Reactions) (now : ℤ) (i : Option ℕ) (q : AlarmQueue)
    → Sound i q
    → Safe (loop fuel react now i q)
unfolding loop
loop-Safe zero react now i q s = tt
loop-Safe (suc fuel) react now none q (v, s) = v
loop-Safe (suc fuel) react now (some n) q (v, (e, found)) =
    rw found (elim (Bool-cases (ltb_ℤ now e.timeout)) [
      | inl later ↦ rw later v
      | inr due ↦ elim (Bool-cases (member e.cb q.alarms_reregistered_and_should_be_skipped)) [
        | inl skip ↦
            rw (due, skip)
              (loop-Safe fuel react now (next n q.alarm_map) q
                (v, In-next n q.alarm_map v.distinct))
        | inr fire ↦
            let (r, ran, s') =
              fire_entry-Sound react now e q v
                (ap (λ k. find k q.alarm_map) (find_node n q.alarm_map e found) ∙ found) in
            rw (due, fire, ran) (loop-Safe fuel react now r.1 r.0 s')
      ]
    ])

-- From a valid queue, whatever operations the callbacks make on alarms, their own included, and
-- whatever times they return: CallTimeoutAlarms never goes on from an iterator whose node is gone,
-- and if it ends, the queue is valid: the map is sorted, the registered alarms are exactly those
-- of the set and of the map, and each one's token is its node.
pub call_timeout_alarms-Safe :
    (fuel : ℕ) (react : Reactions) (now : ℤ) (q : AlarmQueue)
    → Valid none q
    → Safe (call_timeout_alarms fuel react now q)
unfolding call_timeout_alarms
call_timeout_alarms-Safe fuel react now q v = elim (Bool-cases (leb_ℤ now (pos 0))) [
  | inl idle ↦ rw idle v
  | inr busy ↦ rw busy (
      cleared (loop fuel react now (begin q.alarm_map) q)
        (loop-Safe fuel react now (begin q.alarm_map) q (v, begin-In q.alarm_map)))
]
  where
    cleared : (o : Outcome AlarmQueue) → Safe o → Safe (o >>= clear_skipped)
    cleared (done q') v' = skipping-Valid q' [] v'
    cleared fault v' = v'
    cleared out_of_fuel v' = tt
