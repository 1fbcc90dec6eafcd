-- ===== src/Alarm/Operations.antt =====
-- The operations of the alarm queue against its invariant.
use nginx_quic_stack.Base.{
  ℕ, ◌+◌, ◌≡◌, refl, sym, List, [], ◌∷◌, true, false, Option, none, some, suc, arith, Bool-cases,
  inl, inr,
}
use native.Mathlib.Numerals.{add-one}
use nginx_quic_stack.Base.Int.{ℤ}
use nginx_quic_stack.Alarm.Multimap.{
  Entry, insert, erase, find, member, Sorted-insert, Sorted-erase, find_above, Below-mono,
  Below-insert, Below-erase, find-insert, find-erase, Distinct-insert, Distinct-erase, cb_at-none,
  cb_at-insert, cb_at-erase, cb_at-find, member-insert_key, member-erase_key,
}
use nginx_quic_stack.Alarm.Queue.{
  AlarmQueue, done, register_alarm, unregister_alarm, unregister_if_registered, reregister,
  reregister_alarm, Operation, set_impl, cancel_impl, update_impl, apply, apply_all, unlink, relink,
  set_token,
}
use nginx_quic_stack.Alarm.Valid.{Valid, hidden, Present}

module _ (current : Option Entry) (q : AlarmQueue) (v : Valid current q) where
  new_node : find q.next_node q.alarm_map ≡ none
  new_node = find_above q.next_node q.next_node q.alarm_map v.fresh (omega arith)

  Present-older : Present current q.next_node q.alarm_map → hidden current q.next_node ≡ false
  Present-older p = older current p
    where
      older : (c : Option Entry) → Present c q.next_node q.alarm_map → hidden c q.next_node ≡ false
      older none p = refl
      older (some c) p = ground arith

  Present-insert :
      (t : ℤ) (a : ℕ)
      → Present current
          (suc q.next_node)
          (insert (record { timeout = t; cb = a; node = q.next_node }) q.alarm_map)
  Present-insert t a = keeps current v.present
    where
      keeps :
          (c : Option Entry)
          → Present c q.next_node q.alarm_map
          → Present c
              (suc q.next_node)
              (insert (record { timeout = t; cb = a; node = q.next_node }) q.alarm_map)
      keeps none p = tt
      keeps (some c) p = (
        rw
            (find-insert c.node (record { timeout = t; cb = a; node = q.next_node }) q.alarm_map
              new_node)
            (ground arith),
        omega arith,
      )

  pub register_alarm-Valid : (t : ℤ) (a : ℕ) → Valid current (register_alarm q t a)
  unfolding register_alarm
  register_alarm-Valid t a = elim (Bool-cases (member a q.all_alarms)) [
    | inl there ↦ rw there v
    | inr new ↦ rw new (record {
      sorted = Sorted-insert e q.alarm_map v.sorted;
      distinct = Distinct-insert e q.alarm_map new_node v.distinct;
      fresh = rw (sym (add-one q.next_node)) (
          Below-insert (q.next_node + 1) e q.alarm_map (omega arith)
            (Below-mono q.next_node q.alarm_map v.fresh));
      present = Present-insert t a;
      linked = λ n b h k.
          ground (arith, cb_at-insert n e q.alarm_map new_node, v.linked n b, v.members a, new);
      backed = λ b h. ground (
        arith,
        cb_at-insert (q.events b).token e q.alarm_map new_node,
        cb_at-insert q.next_node e q.alarm_map new_node,
        Present-older v.present,
        v.backed b,
        cb_at-none q.next_node q.alarm_map new_node,
      );
      members = λ b. ground (arith, member-insert_key b a q.all_alarms, v.members b);
    })
  ]
    where
      e : Entry
      e = record { timeout = t; cb = a; node = q.next_node }

  -- The node of a registered alarm is there, and is not the current one.
  token_entry :
      (a : ℕ)
      → (q.events a).registered ≡ true
      → (e : Entry) × (find (q.events a).token q.alarm_map ≡ some e)
        × (e.cb ≡ a)
        × (e.node ≡ (q.events a).token)
  token_entry a r = cb_at-find (q.events a).token a q.alarm_map (v.backed a r).0

  Present-erase :
      (n : ℕ) → hidden current n ≡ false → Present current q.next_node (erase n q.alarm_map)
  Present-erase n h = keeps current v.present h
    where
      keeps :
          (c : Option Entry)
          → Present c q.next_node q.alarm_map
          → hidden c n ≡ false
          → Present c q.next_node (erase n q.alarm_map)
      keeps none p h = tt
      keeps (some c) p h = (rw (find-erase c.node n q.alarm_map v.distinct) (ground arith), p.1)

  pub unregister-Valid :
      (a : ℕ)
      → (q.events a).registered ≡ true
      → (unregister_alarm q (q.events a).token ≡ done (unlink q (q.events a).token a))
        × Valid current (unlink q (q.events a).token a)
  unfolding unregister_alarm
  unregister-Valid a r =
      let (e, found, cb, node) = token_entry a r in
      let token = (q.events a).token in
      let b = v.backed a r in
      (
        rw (found, cb),
        record {
          sorted = Sorted-erase token q.alarm_map v.sorted;
          distinct = Distinct-erase token q.alarm_map v.distinct;
          fresh = Below-erase q.next_node token q.alarm_map v.fresh;
          present = Present-erase token b.1;
          linked = λ n c h k.
              ground (arith, cb_at-erase n token q.alarm_map v.distinct, v.linked n c, b);
          backed = λ c h.
              ground
                (arith, cb_at-erase (q.events c).token token q.alarm_map v.distinct, v.backed c, b);
          members = λ c. ground (arith, member-erase_key c a q.all_alarms, v.members c);
        },
      )

  Present-relink :
      (token a : ℕ) (t : ℤ)
      → Present current q.next_node (erase token q.alarm_map)
      → find q.next_node (erase token q.alarm_map) ≡ none
      → Present current
          (suc q.next_node)
          (insert (record { timeout = t; cb = a; node = q.next_node }) (erase token q.alarm_map))
  Present-relink token a t p gone = keeps current p
    where
      keeps :
          (c : Option Entry)
          → Present c q.next_node (erase token q.alarm_map)
          → Present c (suc q.next_node) (
              insert (record { timeout = t; cb = a; node = q.next_node }) (erase token q.alarm_map))
      keeps none p = tt
      keeps (some c) p = (
        rw
            (find-insert c.node (record { timeout = t; cb = a; node = q.next_node })
              (erase token q.alarm_map) gone)
            (ground arith),
        omega arith,
      )

  pub reregister_alarm-Valid :
      (a : ℕ) (t : ℤ)
      → (q.events a).registered ≡ true
      → (reregister_alarm q a t ≡ done (set_token a (relink q (q.events a).token a t, q.next_node)))
        × Valid current (set_token a (relink q (q.events a).token a t, q.next_node))
  unfolding reregister_alarm reregister
  reregister_alarm-Valid a t r =
      let (e, found, cb, node) = token_entry a r in
      let token = (q.events a).token in
      let b = v.backed a r in
      let new : Entry = record { timeout = t; cb = a; node = q.next_node } in
      let left = erase token q.alarm_map in
      let gone : find q.next_node left ≡ none =
        rw (find-erase q.next_node token q.alarm_map v.distinct) (ground (arith, new_node)) in
      let kept = Distinct-erase token q.alarm_map v.distinct in
      (
        rw (found, cb),
        record {
          sorted = Sorted-insert new left (Sorted-erase token q.alarm_map v.sorted);
          distinct = Distinct-insert new left gone kept;
          fresh = rw (sym (add-one q.next_node)) (
              Below-insert (q.next_node + 1) new left (omega arith)
                (Below-mono q.next_node left (Below-erase q.next_node token q.alarm_map v.fresh)));
          present = Present-relink token a t (Present-erase token b.1) gone;
          linked = λ n c h k. ground (
            arith,
            cb_at-insert n new left gone,
            cb_at-erase n token q.alarm_map v.distinct,
            v.linked n c,
            b,
          );
          backed = λ c h. ground (
            arith,
            cb_at-insert q.next_node new left gone,
            cb_at-insert (q.events c).token new left gone,
            cb_at-erase (q.events c).token token q.alarm_map v.distinct,
            v.backed c,
            Present-older v.present,
            cb_at-none q.next_node q.alarm_map new_node,
            b,
          );
          members = λ c. ground (arith, v.members c);
        },
      )

-- Whatever operation comes, the queue stays valid, and no dead iterator is read.
pub apply-Valid :
    (current : Option Entry) (q : AlarmQueue) (op : Operation)
    → Valid current q
    → (q' : AlarmQueue) × (apply q op ≡ done q') × Valid current q'
unfolding apply unregister_if_registered
apply-Valid current q (set_impl a deadline) v =
    (register_alarm q deadline a, refl, register_alarm-Valid current q v deadline a)
apply-Valid current q (cancel_impl a) v = elim (Bool-cases (q.events a).registered) [
  | inl r ↦
      let (ran, v') = unregister-Valid current q v a r in
      rw r (unlink q (q.events a).token a, ran, v')
  | inr r ↦ rw r (q, refl, v)
]
apply-Valid current q (update_impl a deadline) v = elim (Bool-cases (q.events a).registered) [
  | inl r ↦
      let (ran, v') = reregister_alarm-Valid current q v a deadline r in
      rw r (set_token a (relink q (q.events a).token a deadline, q.next_node), ran, v')
  | inr r ↦ rw r (register_alarm q deadline a, refl, register_alarm-Valid current q v deadline a)
]

-- From a valid queue, also while one alarm's OnAlarm runs, every sequence of SetImpl, CancelImpl
-- and UpdateImpl on any alarms goes through without reading a dead iterator, and leaves a valid
-- queue in which the node of the running alarm is still there.
pub apply_all-Valid :
    (current : Option Entry) (q : AlarmQueue) (ops : List Operation)
    → Valid current q
    → (q' : AlarmQueue) × (apply_all q ops ≡ done q') × Valid current q'
unfolding apply_all
apply_all-Valid current q [] v = (q, refl, v)
apply_all-Valid current q (op ∷ ops) v =
    let (q', e, v') = apply-Valid current q op v in
    let (q'', e', v'') = apply_all-Valid current q' ops v' in (q'', rw e e', v'')
