-- ===== src/Connector/Tests.antt =====
-- Runs of Connector.cc.
use simplev.Prelude.{count, ◌+◌, ◌≡◌, refl, true, [], ◌∷◌, some, ok, err, assertion, arith, ◌>>=◌}
use simplev.Channel
use simplev.Connector.{
  Connector, init, einprogress, no_error, connecting, start, stop, start_in_loop, handle_error,
  retry, connect, connecting_socket, verdict, do_pending_functors,
}
use simplev.Connector.Sockets.{IsTidy, waits}
use simplev.Connector.Account.{held, Reach, here, next, starts, errors, Reach-Balanced}
use simplev.Connector.Stop.{IsWaiting, do_pending_functors-start}

-- Thread 1's connector while it waits for socket 5.
abbrev waiting : Connector
waiting = record (init 1) {
  connect = true;
  state = connecting;
  channel = some (Channel.enable_writing (Channel.init 1 5));
  created = 5 ∷ [];
}

started : start 1 5 einprogress (init 1) ≡ ok waiting
unfolding start start_in_loop connect connecting_socket verdict init
started = refl

-- Socket 5 is refused.
failed_attempt : (c : Connector) × (handle_error 1 waiting ≡ ok c)
unfolding handle_error retry init Channel.remove Channel.stop
failed_attempt = (_, refl)

failed_attempt-Reach : Reach (init 1) (failed_attempt.0)
unfolding init
failed_attempt-Reach = next (next here (starts 1 5 einprogress started)) (errors failed_attempt.1)

Reach-Balanced_example :
    count 5 failed_attempt.0.created
    ≡ count 5 (held failed_attempt.0)
      + (count 5 failed_attempt.0.closed + count 5 failed_attempt.0.handed)
Reach-Balanced_example = Reach-Balanced 1 failed_attempt-Reach 5

waiting-IsTidy : IsTidy waiting
unfolding init
waiting-IsTidy =
    waits (Channel.enable_writing (Channel.init 1 5)) refl refl refl refl (λ fd. omega arith)

waiting-IsWaiting : IsWaiting (Channel.enable_writing (Channel.init 1 5)) waiting
unfolding init
waiting-IsWaiting = record { up = refl; has = refl; in_loop = refl }

do_pending_functors-start_example :
    (start 2 0 einprogress (stop waiting) >>= λ d. do_pending_functors 1 (λ i. (6, no_error)) d)
    ≡ err assertion
unfolding init verdict
do_pending_functors-start_example =
    do_pending_functors-start (Channel.enable_writing (Channel.init 1 5)) waiting 2
      (λ i. (6, no_error)) waiting-IsWaiting refl refl refl
