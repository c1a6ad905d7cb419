-- ===== src/Clock/Window.antt =====
-- About `calculate_scheduled_at` of backend/app/scheduler/service.py: the allowed hours.
use qora.Base.{ℕ, ◌+◌, ◌*◌, ◌≤◌, ◌<◌, ◌≡◌, ◌⊎◌, arith}
use qora.Clock.{Zone, IsRegular, minute, hour_of, combine, calculate_scheduled_at}

-- `local.hour` lies in [start, end)
abbrev pub IsAllowed : Zone → ℕ → ℕ → ℕ → Type 0
IsAllowed z start end u = (start ≤ hour_of (z.to_local u)) × (hour_of (z.to_local u) < end)

pub hour_of-combine : (w k h : ℕ) → h < 24 → hour_of (combine w k h) ≡ h
unfolding hour_of combine
hour_of-combine w k h p = omega arith

later_same_day : (w h : ℕ) → hour_of w < h → w < combine w 0 h
unfolding hour_of combine
later_same_day w h p = omega arith

later_next_day : (w h : ℕ) → w < combine w 1 h
unfolding combine
later_next_day w h = omega arith

hour_of-lt : (w : ℕ) → hour_of w < 24
unfolding hour_of
hour_of-lt w = omega arith

-- between a wall clock and the start hour of its day, hours are below the start hour
before_start : (w v h : ℕ) → w ≤ v → v < combine w 0 h → h < 24 → hour_of v < h
unfolding hour_of combine
before_start w v h p q r = omega arith

-- between a wall clock past the window and the start hour of the next day, no hour is in the window
before_next_start :
    (w v h e : ℕ)
    → e ≤ hour_of w
    → h < e
    → w ≤ v
    → v < combine w 1 h
    → (hour_of v < h) ⊎ (e ≤ hour_of v)
unfolding hour_of combine
before_next_start w v h e p q r s = omega arith

zero_delay : (t : ℕ) → t + 0 * minute ≡ t
zero_delay t = omega arith

module _ (z : Zone) (start end : ℕ) (regular : IsRegular z start) where
  -- Whatever the clock and the cooldown, the scheduled time falls inside a well-formed window,
  -- where no offset change of the timezone skips or repeats the start hour.
  pub calculate_scheduled_at-IsAllowed :
      (now cooldown : ℕ)
      → start < end
      → end ≤ 24
      → IsAllowed z start end (calculate_scheduled_at now cooldown start end z)
  unfolding calculate_scheduled_at
  calculate_scheduled_at-IsAllowed now cooldown p q =
      let u : ℕ = now + cooldown * minute in
      let w : ℕ = z.to_local u in
      ground (
        arith,
        regular.to_local-of_local w 0,
        regular.to_local-of_local w 1,
        hour_of-combine w 0 start,
        hour_of-combine w 1 start,
      )

  -- Where the timezone is regular, the call is never placed before its cooldown has passed, and a
  -- candidate inside the window is kept as it is.
  calculate_scheduled_at-later :
      (now cooldown : ℕ)
      → let t = calculate_scheduled_at now cooldown start end z in
        let u = now + cooldown * minute in (u ≤ t) × (IsAllowed z start end u → t ≡ u)
  unfolding calculate_scheduled_at
  calculate_scheduled_at-later now cooldown =
      let u : ℕ = now + cooldown * minute in
      let w : ℕ = z.to_local u in
      ground (
        arith,
        regular.of_local_later u w 0,
        regular.of_local_later u w 1,
        later_same_day w start,
        later_next_day w start,
      )

  -- The clamp picks the first allowed wall clock: no earlier one from the candidate on is allowed,
  -- where the window is well-formed and no offset change of the timezone skips or repeats the start
  -- hour.
  pub calculate_scheduled_at_first :
      (now cooldown v : ℕ)
      → start < end
      → end ≤ 24
      → z.to_local (now + cooldown * minute) ≤ z.to_local v
      → z.to_local v < z.to_local (calculate_scheduled_at now cooldown start end z)
      → ¬ IsAllowed z start end v
  unfolding calculate_scheduled_at
  calculate_scheduled_at_first now cooldown v p q after before allowed =
      let w : ℕ = z.to_local (now + cooldown * minute) in
      let x : ℕ = z.to_local v in
      ground (
        arith,
        regular.to_local-of_local w 0,
        regular.to_local-of_local w 1,
        before_start w x start,
        before_next_start w x start end,
      )

  -- Clamped again at the time that it gave, the scheduled time is not deferred a second time, where
  -- the window is well-formed and the timezone is regular.
  pub calculate_scheduled_at_idem :
      (now cooldown : ℕ)
      → start < end
      → end ≤ 24
      → let t = calculate_scheduled_at now cooldown start end z in
        calculate_scheduled_at t 0 start end z ≡ t
  calculate_scheduled_at_idem now cooldown p q =
      let t : ℕ = calculate_scheduled_at now cooldown start end z in
      let kept : calculate_scheduled_at (t) 0 start end z ≡ t + 0 * minute =
        (calculate_scheduled_at-later t 0).1
          (rw (zero_delay t) (calculate_scheduled_at-IsAllowed now cooldown p q)) in
      omega (arith, kept)
