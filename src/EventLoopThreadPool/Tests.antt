-- ===== src/EventLoopThreadPool/Tests.antt =====
-- Runs of EventLoopThreadPool.cc.
use simplev.Prelude.{◌≡◌, refl, true, [], ◌∷◌, ok}
use simplev.EventLoopThreadPool.{EventLoopThreadPool, get_next_loop}
use simplev.EventLoopThreadPool.Rounds.{IsStarted, get_next_loops, get_next_loops_lem, rounds}

-- Two threads, 11 and 12, under the base loop of thread 1.
abbrev two : EventLoopThreadPool
two = record { base_loop = 1; started = true; num_threads = 2; next = 0; loops = 11 ∷ 12 ∷ [] }

two-IsStarted : IsStarted two
two-IsStarted = record { on = refl; matches = refl; first = refl }

get_next_loops_lem_example : get_next_loops 1 4 two ≡ ok (11 ∷ 12 ∷ 11 ∷ 12 ∷ [], two)
unfolding rounds
get_next_loops_lem_example = get_next_loops_lem 2 two two-IsStarted

third : get_next_loops 1 3 two ≡ ok (11 ∷ 12 ∷ 11 ∷ [], record two { next = 1 })
unfolding get_next_loops get_next_loop
third = refl
