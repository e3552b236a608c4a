-- ===== src/Runs/Threads.antt =====
-- The clock of the worker thread, and a stop.
use efp.Prelude.{ℕ, ◌+◌, ◌-◌, ◌≤◌, ◌≡◌, ◌⊎◌, Bool, ltb}
use efp.Receiver.Threads.{turn, stop_receiver}
use efp.Receiver.Stopping.{FoundStopped, GaveUp, turn_lem, stop_receiver_lem}
use efp.Runs.{receiver50}

-- Both threads have ended before the fourth test.
abbrev three_tests : ℕ → Bool
three_tests k = ltb k 3

turn_lem_example :
    ((turn 5000 17000).time_now ≡ (turn 5000 17000).time_reference)
    × (17000 + (turn 5000 17000).sleeps ≡ (turn 5000 17000).time_now)
    × (5000 + 10000 ≤ (turn 5000 17000).time_now)
    × ((turn 5000 17000).is_overloaded ≡ ltb (5000 + 10000) 17000)
    × ((turn 5000 17000).sleeps ≤ 10000 + (5000 - 17000))
turn_lem_example = turn_lem 5000 17000

stop_receiver_lem_example :
    FoundStopped three_tests 0 1000 (stop_receiver receiver50 three_tests).0
    ⊎ GaveUp three_tests 0 1000 (stop_receiver receiver50 three_tests).0
stop_receiver_lem_example = stop_receiver_lem receiver50 three_tests
