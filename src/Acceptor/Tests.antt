-- ===== src/Acceptor/Tests.antt =====
-- Runs of Acceptor.cc.
use simplev.Prelude.{ℕ, ◌≡◌, refl, true, false, [], ◌∷◌, ◌++◌, some, ok, arith}
use simplev.Acceptor.{Acceptor, accepted, emfile, descriptors, init, handle_read}
use simplev.Acceptor.Descriptors.{IsBalanced, handle_read-IsBalanced}

-- Thread 1's acceptor on socket 3, with the idle descriptor 4.
abbrev ready : Acceptor
ready = record (init 1 3 (some 4)) { has_callback = true }

ready-IsBalanced : IsBalanced ready
unfolding IsBalanced init
ready-IsBalanced fd = omega arith

handle_read-IsBalanced_example :
    (a' : Acceptor) × (handle_read 1 emfile (some 4) (some 4) ready ≡ ok a')
    × IsBalanced a'
    × ((fd : ℕ)
        → emfile ≡ accepted fd
        → ready.has_callback ≡ true
        → a'.handed ≡ ready.handed ++ fd ∷ [])
    × ((fd : ℕ)
        → emfile ≡ accepted fd
        → ready.has_callback ≡ false
        → a'.closed ≡ ready.closed ++ fd ∷ [])
    × (emfile ≡ emfile
        → (a'.closed ≡ (ready.closed ++ descriptors ready.idle_fd) ++ descriptors (some 4))
          × (a'.idle_fd ≡ some 4))
unfolding init
handle_read-IsBalanced_example =
    handle_read-IsBalanced 1 emfile (some 4) (some 4) ready refl ready-IsBalanced
