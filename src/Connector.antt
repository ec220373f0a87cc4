-- ===== src/Connector.antt =====
-- simplev/src/simplev/net/Connector.h and Connector.cc: a client's attempts to connect, with retries
-- that wait ever longer. The thread that calls a method is its first argument; the kernel's answers are
-- arguments too. What a method does outside the connector is kept in lists, the latest last: sockets
-- created, closed and handed to `newConnectionCallback_`, functors queued in the loop, and the
-- delays of the timers for `startInLoop`, in milliseconds.
pub mod Sockets
pub mod Delay
pub mod Events
pub mod History
pub mod Stop
pub mod Account
pub mod Handing
mod Tests
use simplev.Prelude.{
  ℕ, zero, suc, ◌+◌, ◌*◌, ◌≡◌, Bool, true, false, List, [], ◌∷◌, ◌++◌, Option, none, some, Result,
  ok, err, assert, ensure, fatal, out_of_range, ◌>>=◌, ◌>>◌, ◌==◌, if◌then◌else◌, min,
}
use simplev.Channel
use simplev.Channel.{Channel}

-- `States`
pub data State : Type 0 where
  disconnected connecting connected : State

pub data Functor : Type 0 where
  start_functor stop_functor reset_functor : Functor

pub record Connector : Type 0 where
  pub loop_thread : ℕ
  pub connect : Bool  -- `connect_`
  pub state : State
  pub channel : Option Channel
  pub retry_delay_ms : ℕ
  pub created : List ℕ
  pub closed : List ℕ
  pub handed : List ℕ
  pub queued : List Functor
  pub timers : List ℕ
  pub has_timer : Bool  -- `timerId_` names a timer that was not cancelled since

abbrev pub max_retry_delay_ms : ℕ
max_retry_delay_ms = 30 * 1000

abbrev pub init_retry_delay_ms : ℕ
init_retry_delay_ms = 500

-- The errno values of the switch in `connect`; `no_error` is the 0 of a call that succeeded.
pub data Errno : Type 0 where
  no_error einprogress eintr eisconn : Errno
  eagain eaddrinuse eaddrnotavail econnrefused enetunreach : Errno
  eacces eperm eafnosupport ealready ebadf efault enotsock : Errno
  unexpected : Errno

-- What the switch decides.
pub data Verdict : Type 0 where
  go_on try_again give_up : Verdict

unfoldable pub verdict : Errno → Verdict
verdict no_error = go_on
verdict einprogress = go_on
verdict eintr = go_on
verdict eisconn = go_on
verdict eagain = try_again
verdict eaddrinuse = try_again
verdict eaddrnotavail = try_again
verdict econnrefused = try_again
verdict enetunreach = try_again
verdict _ = give_up

unfoldable pub init : ℕ → Connector
init thread = record {
  loop_thread = thread;
  connect = false;
  state = disconnected;
  channel = none;
  retry_delay_ms = init_retry_delay_ms;
  created = [];
  closed = [];
  handed = [];
  queued = [];
  timers = [];
  has_timer = false;
}

abbrev pub is_disconnected : State → Bool
is_disconnected disconnected = true
is_disconnected _ = false

abbrev pub is_connecting : State → Bool
is_connecting connecting = true
is_connecting _ = false

abbrev pub in_loop_thread : ℕ → Connector → Bool
in_loop_thread thread c = c.loop_thread == thread

abbrev pub assert_in_loop_thread : ℕ → Connector → Result (Unit {0})
assert_in_loop_thread thread c = ensure (in_loop_thread thread c) fatal

abbrev pub queue_in_loop : Functor → Connector → Connector
queue_in_loop f c = record c { queued = c.queued ++ f ∷ [] }

-- `sockets::close`
abbrev pub close : ℕ → Connector → Connector
close sockfd c = record c { closed = c.closed ++ sockfd ∷ [] }

unfoldable pub retry : ℕ → Connector → Connector
retry sockfd c =
    let c' = record (close sockfd c) { state = disconnected } in
    if c.connect
    then record c' {
      timers = c.timers ++ c.retry_delay_ms ∷ [];
      has_timer = true;
      retry_delay_ms = min (c.retry_delay_ms * 2) max_retry_delay_ms;
    }
    else c'

-- `assert(!channel_)`
abbrev is_free : Option Channel → Bool
is_free none = true
is_free (some _) = false

unfoldable pub connecting_socket : ℕ → Connector → Result Connector
connecting_socket sockfd c = do
  assert (is_free c.channel)
  ok (record c {
    state = connecting;
    channel = some (Channel.enable_writing (Channel.init c.loop_thread sockfd));
  })

abbrev connect_verdict : Verdict → ℕ → Connector → Result Connector
connect_verdict go_on sockfd c = connecting_socket sockfd c
connect_verdict try_again sockfd c = ok (retry sockfd c)
connect_verdict give_up sockfd c = ok (close sockfd c)

-- `connect` gets a new socket, and the errno of `sockets::connect` on it.
unfoldable pub connect : ℕ → Errno → Connector → Result Connector
unfolding retry connecting_socket verdict
connect sockfd errno c =
    connect_verdict (verdict errno) sockfd (record c { created = c.created ++ sockfd ∷ [] })

unfoldable pub start_in_loop : ℕ → ℕ → Errno → Connector → Result Connector
unfolding connect
start_in_loop thread sockfd errno c = do
  assert_in_loop_thread thread c
  assert (is_disconnected c.state)
  if c.connect then connect sockfd errno c else ok c

unfoldable pub start : ℕ → ℕ → Errno → Connector → Result Connector
unfolding start_in_loop
start thread sockfd errno c =
    let c' = record c { connect = true } in
    if in_loop_thread thread c
    then start_in_loop thread sockfd errno c'
    else ok (queue_in_loop start_functor c')

unfoldable pub restart : ℕ → ℕ → Errno → Connector → Result Connector
unfolding start_in_loop
restart thread sockfd errno c = do
  assert_in_loop_thread thread c
  start_in_loop thread sockfd errno
      (record c { state = disconnected; retry_delay_ms = init_retry_delay_ms; connect = true })

-- The channel's descriptor, with the channel stopped and its deletion queued. Without a channel the
-- source dereferences null.
abbrev remove_channel : ℕ → Option Channel → Connector → Result (ℕ × Connector)
remove_channel thread none c = err out_of_range
remove_channel thread (some channel) c = do
  channel' ← Channel.remove thread (Channel.disable_all channel)
  ok (channel'.fd, queue_in_loop reset_functor (record c { channel = some channel' }))

unfoldable pub remove_and_reset_channel : ℕ → Connector → Result (ℕ × Connector)
remove_and_reset_channel thread c = remove_channel thread c.channel c

unfoldable pub reset_channel : Connector → Connector
reset_channel c = record c { channel = none }

-- `error` is the socket's SO_ERROR, and `self` what `isSelfConnect` says.
abbrev pub established : Bool → Bool → ℕ × Connector → Connector
established error self (sockfd, c) =
    if error
    then retry sockfd c
    else if self
    then retry sockfd c
    else let c' = record c { state = connected } in
      if c.connect then record c' { handed = c.handed ++ sockfd ∷ [] } else close sockfd c'

unfoldable pub handle_write : ℕ → Bool → Bool → Connector → Result Connector
unfolding remove_and_reset_channel retry
handle_write thread error self c =
    if is_connecting c.state
    then (remove_and_reset_channel thread c >>= λ r. ok (established error self r))
    else (assert (is_disconnected c.state) >> ok c)

abbrev pub try_again_with : ℕ × Connector → Connector
try_again_with (sockfd, c) = retry sockfd c

unfoldable pub handle_error : ℕ → Connector → Result Connector
unfolding remove_and_reset_channel retry
handle_error thread c =
    if is_connecting c.state
    then (remove_and_reset_channel thread c >>= λ r. ok (try_again_with r))
    else ok c

unfoldable pub stop : Connector → Connector
stop c = record (queue_in_loop stop_functor (record c { connect = false })) { has_timer = false }

unfoldable pub stop_in_loop : ℕ → Connector → Result Connector
unfolding remove_and_reset_channel retry
stop_in_loop thread c = do
  assert_in_loop_thread thread c
  if is_connecting c.state
      then (remove_and_reset_channel thread (record c { state = disconnected }) >>= λ r.
          ok (try_again_with r))
      else ok c

-- A functor that was queued, run by the loop.
unfoldable pub run_functor : ℕ → ℕ → Errno → Functor → Connector → Result Connector
unfolding start_in_loop stop_in_loop reset_channel
run_functor thread sockfd errno start_functor c = start_in_loop thread sockfd errno c
run_functor thread sockfd errno stop_functor c = stop_in_loop thread c
run_functor thread sockfd errno reset_functor c = ok (reset_channel c)

-- Functors of the loop, one after the other, with the new socket and errno for each place in the row.
unfoldable pub run_functors : ℕ → (ℕ → ℕ × Errno) → ℕ → List Functor → Connector → Result Connector
unfolding run_functor
run_functors thread answers i [] c = ok c
run_functors thread answers i (f ∷ fs) c = do
  c' ← run_functor thread (answers i).0 (answers i).1 f c
  run_functors thread answers (suc i) fs c'

-- The loop takes all functors out of its queue before it runs them.
unfoldable pub do_pending_functors : ℕ → (ℕ → ℕ × Errno) → Connector → Result Connector
unfolding run_functors
do_pending_functors thread answers c =
    run_functors thread answers 0 c.queued (record c { queued = [] })
