-- ===== src/Clock.antt =====
-- src/tQuicClock.cc: a clock that does not go back, over a source of times of the program that may.
-- A `QuicTime` is its number of microseconds, an int64_t.
mod Tests
use nginx_quic_stack.Base.{
  ℕ, ◌-◌, ◌%◌, ◌^◌, ltb, true, ◌≡◌, refl, List, [], ◌∷◌, if◌then◌else◌, arith, ◌⊎◌, inl, inr,
  Bool-cases, subst,
}
use nginx_quic_stack.Base.Int.{ℤ, pos, negsuc, leb_ℤ, ◌≤ℤ◌}

-- `largest_time_`, which `Now` changes though it is const.
pub record Clock : Type 0 where
  pub largest_time : ℤ

abbrev pub new_clock : Clock
new_clock = record { largest_time = pos 0 }

-- `Now`, where the time generator gives `reading`.
unfoldable pub now : ℤ → Clock → Clock × ℤ
now reading c =
    if leb_ℤ reading c.largest_time
    then (c, c.largest_time)
    else (record { largest_time = reading }, reading)

unfoldable pub approximate_now : ℤ → ℤ
approximate_now reading = reading

-- An int64_t as a uint64_t, and back.
abbrev pub to_uint64 : ℤ → ℕ
to_uint64 (pos n) = n % 2 ^ 64
to_uint64 (negsuc n) = 2 ^ 64 - 1 - n % 2 ^ 64

abbrev pub to_int64 : ℕ → ℤ
to_int64 w = if ltb w (2 ^ 63) then pos w else negsuc (2 ^ 64 - 1 - w)

-- A `QuicWallTime` is its number of microseconds, a uint64_t.
unfoldable pub wall_now : ℤ → ℕ
wall_now reading = to_uint64 reading

unfoldable pub convert_wall_time_to_quic_time : ℕ → ℤ
convert_wall_time_to_quic_time walltime = to_int64 walltime

-- A reading, which is an int64_t, comes back from the wall time that it gives.
pub convert_wall_time_to_quic_time-wall_now :
    (reading : ℤ)
    → leb_ℤ (negsuc (2 ^ 63 - 1)) reading ≡ true
    → leb_ℤ reading (pos (2 ^ 63 - 1)) ≡ true
    → convert_wall_time_to_quic_time (wall_now reading) ≡ approximate_now reading
unfolding convert_wall_time_to_quic_time wall_now approximate_now
convert_wall_time_to_quic_time-wall_now (pos n) low high = ground arith
convert_wall_time_to_quic_time-wall_now (negsuc n) low high = ground arith

-- The results of `Now` at one reading after another.
pub nows : List ℤ → Clock → List ℤ
unfolding now
nows [] c = []
nows (r ∷ readings) c = (now r c).1 ∷ nows readings (now r c).0

-- What a clock promises: never before `t`, never back, never before the reading, and no time that
-- was not read or started with.
abbrev pub Keeps : ℤ → List ℤ → List ℤ → Type 0
Keeps t [] [] = Unit {0}
Keeps t [] (x ∷ xs) = ⊥
Keeps t (r ∷ readings) [] = ⊥
Keeps t (r ∷ readings) (x ∷ xs) =
    (t ≤ℤ x) × ((r ≤ℤ x) × (((x ≡ t) ⊎ (x ≡ r)) × Keeps x readings xs))

now_step :
    (r : ℤ) (c : Clock)
    → (c.largest_time ≤ℤ (now r c).1)
      × ((r ≤ℤ (now r c).1)
          × ((((now r c).1 ≡ c.largest_time) ⊎ ((now r c).1 ≡ r))
              × ((now r c).0.largest_time ≡ (now r c).1)))
unfolding now
now_step r c = elim (Bool-cases (leb_ℤ r c.largest_time)) [
  | inl late ↦ rw late (omega arith, (ground (arith, late), (inl refl, refl)))
  | inr fresh ↦ rw fresh (ground (arith, fresh), (omega arith, (inr refl, refl)))
]

-- For every clock and every sequence of readings of the time generator, which may go back: the
-- results of Now never go below the largest time so far, none is below its reading, and each is
-- the time before it or its reading.
pub nows-Keeps : (readings : List ℤ) (c : Clock) → Keeps c.largest_time readings (nows readings c)
unfolding nows
nows-Keeps [] c = tt
nows-Keeps (r ∷ readings) c =
    let (later, (reached, (source, stored))) = now_step r c in
    (
      later,
      (
        reached,
        (
          source,
          subst (λ t. Keeps t readings (nows readings (now r c).0)) stored
              (nows-Keeps readings (now r c).0),
        ),
      ),
    )
