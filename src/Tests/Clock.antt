-- ===== src/Tests/Clock.antt =====
-- The clamp in Buenos Aires, and a call's states.
use qora.Base.{◌+◌, ◌*◌, ◌≡◌, refl, arith}
use qora.Clock.{hour, day, calculate_scheduled_at, hour_of, combine}
use qora.Clock.Window.{IsAllowed, calculate_scheduled_at-IsAllowed, calculate_scheduled_at_first}
use qora.Tests.Fixtures.{buenos_aires, buenos_aires-IsRegular, evening}

-- half past eight in the evening is moved to nine the next day
clamped : calculate_scheduled_at evening 0 9 20 buenos_aires ≡ 739001 * day + 12 * hour
unfolding calculate_scheduled_at hour_of combine
clamped = refl

calculate_scheduled_at-IsAllowed_example :
    IsAllowed buenos_aires 9 20 (calculate_scheduled_at evening 60 9 20 buenos_aires)
calculate_scheduled_at-IsAllowed_example =
    calculate_scheduled_at-IsAllowed buenos_aires 9 20 (buenos_aires-IsRegular 9) evening 60
      (omega arith) (omega arith)

-- midnight lies between the candidate and the time chosen
calculate_scheduled_at_first_example : ¬ IsAllowed buenos_aires 9 20 (739001 * day + 3 * hour)
unfolding calculate_scheduled_at hour_of combine
calculate_scheduled_at_first_example =
    calculate_scheduled_at_first buenos_aires 9 20 (buenos_aires-IsRegular 9) evening 0
      (739001 * day + 3 * hour) (omega arith) (omega arith) (omega arith) (omega arith)
