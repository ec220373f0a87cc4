-- ===== src/Curl/Tests.antt =====
-- Runs of Curl.cc.
use simplev.Prelude.{
  ℕ, zero, suc, ◌≡◌, refl, true, false, [], ◌∷◌, ◌++◌, Option, none, some, ok, err, assertion,
}
use simplev.Curl.{
  Request, init, destroy, poll_in, poll_inout, socket_callback, set_channel, write_data,
  header_data, Curl, start, Answer, Message, timer_callback,
}
use simplev.Curl.Watching.{run_callbacks, Watches, run_callbacks_lem}
use simplev.Curl.Messages.{done_of}
use simplev.Curl.Finishing.{run_events, run_events_lem}

run_callbacks_lem_example :
    (r : Request × Option ℕ) × (run_callbacks 1 5 9 (poll_in ∷ poll_inout ∷ []) (init 1 5, none)
      ≡ ok r)
    × Watches 1 5 poll_inout r.0 r.1
    × (destroy r.0 ≡ err assertion)
run_callbacks_lem_example =
    run_callbacks_lem 1 5 9 (poll_in ∷ poll_inout ∷ []) (λ e. cc, (λ e. cc, tt))

-- A request has room for one descriptor at a time.
second_descriptor :
    (r : Request) × (socket_callback 1 5 9 poll_in none (init 1 5) ≡ ok (r, some 1))
    × (socket_callback 1 5 10 poll_in none r ≡ err assertion)
unfolding socket_callback set_channel
second_descriptor = (_, refl, refl)

-- libcurl calls back bytes only one by one in size.
bodies :
    (write_data 1 (b'a' ∷ []) (record (init 1 5) { has_data_cb = true }))
    ≡ ok (record (init 1 5) { has_data_cb = true; received = (b'a' ∷ []) ∷ [] })
unfolding write_data
bodies = refl

no_callback : header_data 1 (b'a' ∷ []) (init 1 5) ≡ ok (init 1 5)
unfolding header_data
no_callback = refl

abbrev over : ℕ → Message
over n = record { is_done = true; easy_handle = n; code = 0; owner = n }

-- The first call is to be made again, and the second ends transfer 5 while another goes on.
abbrev twice : ℕ → Answer
twice zero = record { call_again = true; running = 2; queues = [] }
twice (suc i) = record { call_again = false; running = 1; queues = over 5 ∷ [] }

abbrev once : ℕ → Answer
once i = record { call_again = false; running = 0; queues = over 6 ∷ [] }

run_events_lem_example :
    (c : Curl) × (run_events
        (record { answers = twice; again = 1 } ∷ record { answers = once; again = 0 } ∷ [])
        start
      ≡ ok c)
    × (c.dones ++ done_of c.messages ≡ over 5 ∷ over 6 ∷ [])
    × (c.running_handles ≡ 0 → c.dones ≡ over 5 ∷ over 6 ∷ [])
run_events_lem_example =
    run_events_lem
      (record { answers = twice; again = 1 } ∷ record { answers = once; again = 0 } ∷ [])
      ((refl, refl), (refl, tt), (refl, (refl, tt), tt))

timed : (timer_callback 20 start).timers ≡ 20 ∷ []
timed = refl
