-- ===== src/Thread/Tests.antt =====
-- Runs of Thread.cc.
use simplev.Prelude.{◌+◌, ◌≡◌, refl, true, false, [], ◌∷◌, ok, err, assertion, fatal}
use simplev.Thread.{Thread, init, start, join, destroy, returns, throws_exception, run_in_thread}
use simplev.Thread.Once.{starts, joins, runs, call, run, run-destroy}

abbrev detached : Thread
detached = record init { started = true; created = 1; tid = 9 }

detached_run : run (starts true ∷ runs 9 [] returns ∷ []) init ≡ ok detached
unfolding run call start run_in_thread
detached_run = refl

run-destroy_example :
    ((destroy detached).created ≡ (destroy detached).joins + (destroy detached).detaches)
    × ((destroy detached).created ≡ 1)
    × (true ≡ true → start true detached ≡ err assertion)
    × (true ≡ false → join 0 detached ≡ err assertion)
    × (false ≡ true → join 0 detached ≡ err assertion)
unfolding destroy
run-destroy_example =
    run-destroy (starts true ∷ runs 9 [] returns ∷ []) detached true 0 detached_run

no_thread : start false init ≡ err fatal
unfolding start
no_thread = refl

crash : run (starts true ∷ runs 9 [] throws_exception ∷ joins 0 ∷ []) init ≡ err fatal
unfolding run call start run_in_thread
crash = refl
