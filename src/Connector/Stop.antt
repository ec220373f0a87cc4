-- ===== src/Connector/Stop.antt =====
-- `stop` and `stopInLoop` of Connector.cc while an attempt is under way, alone and followed by a
-- `start` in another thread.
use simplev.Prelude.{
  ℕ, ◌≡◌, refl, ap, Bool, true, false, [], ◌∷◌, ◌++◌, some, arith, ok, err, assertion, ◌>>=◌, ◌==◌,
}
use simplev.Channel.{Channel}
use simplev.Connector.{
  Connector, disconnected, connecting, is_connecting, Errno, einprogress, stop_functor,
  reset_functor, start, stop, stop_in_loop, start_in_loop, run_functor, retry, handle_write,
  connect, connecting_socket, verdict, go_on, do_pending_functors, run_functors,
}
use simplev.Connector.Sockets.{taken, remove_and_reset_channel-taken}

-- An attempt is under way, which the watcher's channel waits for in the connector's own loop.
pub record IsWaiting (channel : Channel) (c : Connector) : Type 0 where
  pub up : c.state ≡ connecting
  pub has : c.channel ≡ some channel
  pub in_loop : channel.loop_thread ≡ c.loop_thread

-- The attempt is given up: its socket is closed, and no timer will start another.
abbrev pub given_up : Channel → Connector → Connector
given_up channel c = record (taken channel c) {
  state = disconnected;
  connect = false;
  has_timer = false;
  closed = c.closed ++ channel.fd ∷ [];
  queued = (c.queued ++ stop_functor ∷ []) ++ reset_functor ∷ [];
}

-- `stop` during an attempt: when the loop has run what it queued, the connector is disconnected, the
-- attempt's socket is closed, once, and no timer was started. A write event of the channel that comes
-- after it changes nothing.
pub stop_in_loop-stop :
    (channel : Channel) (c : Connector) (error self : Bool)
    → IsWaiting channel c
    → (stop_in_loop c.loop_thread (stop c) ≡ ok (given_up channel c))
      × (handle_write c.loop_thread error self (given_up channel c) ≡ ok (given_up channel c))
unfolding stop stop_in_loop retry handle_write
stop_in_loop-stop channel c error self w =
    let run =
      remove_and_reset_channel-taken c.loop_thread (record (stop c) { state = disconnected })
        channel w.has w.in_loop in
    let here_ : (c.loop_thread == c.loop_thread) ≡ true = ground arith in
    let is_up : is_connecting c.state ≡ true = ap is_connecting w.up in
    (rw here_ (rw is_up (rw run refl)), refl)

-- `start` in another thread right after `stop`, during an attempt and before the loop runs a functor:
-- the connector tries again while its last channel is not deleted yet, and the assertion on the
-- channel in `connecting` fails, whenever the new `connect` call does not fail at once.
pub do_pending_functors-start :
    (channel : Channel) (c : Connector) (other : ℕ) (answers : ℕ → ℕ × Errno)
    → IsWaiting channel c
    → c.queued ≡ []
    → (c.loop_thread == other) ≡ false
    → verdict (answers 1).1 ≡ go_on
    → (start other 0 einprogress (stop c) >>= λ d. do_pending_functors c.loop_thread answers d)
      ≡ err assertion
unfolding stop start start_in_loop stop_in_loop retry connect connecting_socket do_pending_functors
    run_functors run_functor
do_pending_functors-start channel c other answers w empty elsewhere goes =
    let again = record (record c { connect = true; has_timer = false }) {
      queued = [];
      state = disconnected;
    } in
    let run = remove_and_reset_channel-taken c.loop_thread again channel w.has w.in_loop in
    let here_ : (c.loop_thread == c.loop_thread) ≡ true = ground arith in
    let is_up : is_connecting c.state ≡ true = ap is_connecting w.up in
    rw elsewhere (rw empty (rw here_ (rw is_up (rw run (rw here_ (rw goes refl))))))
