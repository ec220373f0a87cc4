-- ===== src/TcpConnection.antt =====
-- simplev/src/simplev/net/TcpConnection.h and TcpConnection.cc: one connection, with its channel, its
-- socket and its two buffers. The thread that calls a method is its first argument; the kernel's answer
-- to the one `write` or `readv` of a method, and the user's callbacks, are arguments too. Functors
-- that a method queues in the loop are listed in `queued`, oldest first.
pub mod Inv
pub mod Sending
pub mod Flushing
pub mod Life
pub mod Closing
pub mod Lifecycle
pub mod Quiet
pub mod Served
pub mod Phases
pub mod Sends
pub mod Whole
pub mod Callbacks
pub mod Living
mod Tests
use simplev.Prelude.{
  ℕ, ◌+◌, ◌-◌, ◌*◌, ◌^◌, ◌≡◌, Bool, true, false, not, ◌&&◌, ◌||◌, List, [], ◌∷◌, ◌++◌, length, take,
  drop, ltb, leb, ◌==◌, if◌then◌else◌, Result, ok, err, ensure, assert, fatal, ◌>>=◌, ◌>>◌,
  add_size, sub_size,
}
use simplev.Channel
use simplev.Channel.{Channel}
use simplev.Buffer
use simplev.Buffer.{Buffer, ReadReply, ReadResult, read_error, bytes_read}

-- `StateE`
pub data State : Type 0 where
  connecting connected disconnecting disconnected : State

abbrev pub is_connecting : State → Bool
is_connecting connecting = true
is_connecting _ = false

abbrev pub is_connected : State → Bool
is_connected connected = true
is_connected _ = false

abbrev pub is_disconnecting : State → Bool
is_disconnecting disconnecting = true
is_disconnecting _ = false

-- What the code has done to the socket: the bytes that the kernel took from it, and whether
-- `shutdownWrite` was called.
pub record Socket : Type 0 where
  pub written : List ℕ
  pub shut_down : Bool

-- What `queueInLoop` is given, by the connection or, for `connectDestroyed`, by its owner.
pub data Functor : Type 0 where
  write_complete_functor : Functor
  high_water_mark_functor : ℕ → Functor
  send_functor : List ℕ → Functor
  shutdown_functor : Functor
  destroy_functor : Functor

pub record TcpConnection : Type 0 where
  pub state : State
  pub socket : Socket
  pub channel : Channel
  pub has_write_complete : Bool  -- `writeCompleteCallback_` is set
  pub has_high_water_mark : Bool  -- `highWaterMarkCallback_` is set
  pub high_water_mark : ℕ
  pub input_buffer : Buffer
  pub output_buffer : Buffer
  pub queued : List Functor

-- The callbacks that a method calls at once. They may call methods of the connection.
pub record Handlers : Type 0 where
  pub connection : TcpConnection → Result TcpConnection
  pub message : ℕ → TcpConnection → Result TcpConnection
  pub close : TcpConnection → Result TcpConnection

-- The answer of `write`: a count, or the errno behind the answer -1.
pub data Errno : Type 0 where
  ewouldblock epipe econnreset other_errno : Errno

pub data WriteReply : Type 0 where
  wrote : ℕ → WriteReply
  write_failed : Errno → WriteReply

abbrev pub is_ewouldblock : Errno → Bool
is_ewouldblock ewouldblock = true
is_ewouldblock _ = false

-- `errno == EPIPE || errno == ECONNRESET`
abbrev pub is_broken : Errno → Bool
is_broken epipe = true
is_broken econnreset = true
is_broken _ = false

unfoldable pub init : ℕ → ℕ → TcpConnection
init thread fd = record {
  state = connecting;
  socket = record { written = []; shut_down = false };
  channel = Channel.init thread fd;
  has_write_complete = false;
  has_high_water_mark = false;
  high_water_mark = 64 * 1024 * 1024;
  input_buffer = Buffer.init;
  output_buffer = Buffer.init;
  queued = [];
}

abbrev pub in_loop_thread : ℕ → TcpConnection → Bool
in_loop_thread thread c = c.channel.loop_thread == thread

-- `loop_->assertInLoopThread()`
abbrev pub assert_in_loop_thread : ℕ → TcpConnection → Result (Unit {0})
assert_in_loop_thread thread c = ensure (in_loop_thread thread c) fatal

abbrev pub queue_in_loop : Functor → TcpConnection → TcpConnection
queue_in_loop f c = record c { queued = c.queued ++ f ∷ [] }

-- `sockets::write` took the first `n` bytes of `bytes`.
abbrev pub written : ℕ → List ℕ → TcpConnection → TcpConnection
written n bytes c = record c {
  socket = record c.socket { written = c.socket.written ++ take n bytes };
}

unfoldable pub shutdown_in_loop : ℕ → TcpConnection → Result TcpConnection
shutdown_in_loop thread c = do
  assert_in_loop_thread thread c
  ok (
      if not c.channel.writing
      then record c { socket = record c.socket { shut_down = true } }
      else c)

unfoldable pub shutdown : ℕ → TcpConnection → Result TcpConnection
unfolding shutdown_in_loop
shutdown thread c = if is_connected c.state then shut_down_now else ok c
  where
    leaving : TcpConnection
    leaving = record c { state = disconnecting }

    shut_down_now : Result TcpConnection
    shut_down_now =
        if in_loop_thread thread c
        then shutdown_in_loop thread leaving
        else ok (queue_in_loop shutdown_functor leaving)

-- The end of `sendInLoop`: what is left of the message goes to the output buffer.
unfoldable pub keep_rest : ℕ → ℕ → Bool → List ℕ → TcpConnection → Result TcpConnection
keep_rest num_write remaining fault_error message c =
    if not fault_error && ltb 0 remaining then keep else ok c
  where
    old_len : ℕ
    old_len = Buffer.readable_bytes c.output_buffer

    full : Bool
    full =
        leb c.high_water_mark (add_size old_len remaining)
        && (ltb old_len c.high_water_mark && c.has_high_water_mark)

    noted : TcpConnection
    noted =
        if full then queue_in_loop (high_water_mark_functor (add_size old_len remaining)) c else c

    keep : Result TcpConnection
    keep = do
      output ← Buffer.append (take remaining (drop num_write message)) noted.output_buffer
      let c' = record noted { output_buffer = output }
      ok (
          if not c'.channel.writing
          then record c' { channel = Channel.enable_writing c'.channel }
          else c')

-- The direct write of `sendInLoop`, with the kernel's answer.
unfoldable pub write_directly : WriteReply → List ℕ → TcpConnection → Result TcpConnection
write_directly (wrote n) message c =
    let remaining = sub_size (length message) n in
    let c' = written n message c in
    keep_rest n remaining false message (
      if remaining == 0 && c.has_write_complete
      then queue_in_loop write_complete_functor c'
      else c')
write_directly (write_failed e) message c =
    keep_rest 0 (length message) (not (is_ewouldblock e) && is_broken e) message c

unfoldable pub send_in_loop : ℕ → WriteReply → List ℕ → TcpConnection → Result TcpConnection
send_in_loop thread reply message c = do
  assert_in_loop_thread thread c
  if not c.channel.writing && Buffer.readable_bytes c.output_buffer == 0
      then write_directly reply message c
      else keep_rest 0 (length message) false message c

unfoldable pub send : ℕ → WriteReply → List ℕ → TcpConnection → Result TcpConnection
unfolding send_in_loop
send thread reply message c =
    if is_connected c.state
    then (if in_loop_thread thread c
        then send_in_loop thread reply message c
        else ok (queue_in_loop (send_functor message) c))
    else ok c

-- `outputBuffer_` was sent to its end.
abbrev drained : ℕ → TcpConnection → Result TcpConnection
drained thread c =
    let c' = record c { channel = Channel.disable_writing c.channel } in
    let c'' = if c.has_write_complete then queue_in_loop write_complete_functor c' else c' in
    if is_disconnecting c.state then shutdown_in_loop thread c'' else ok c''

-- `handleWrite` after a `write` that took `n` bytes, `n` positive.
write_some : ℕ → ℕ → TcpConnection → Result TcpConnection
write_some thread n c = do
  bytes ← Buffer.peek_all c.output_buffer
  output ← Buffer.retrieve n c.output_buffer
  let c' = record (written n bytes c) { output_buffer = output }
  if Buffer.readable_bytes output == 0 then drained thread c' else ok c'

-- `handleWrite` of a channel that is writing, with the kernel's answer.
write_output : ℕ → WriteReply → TcpConnection → Result TcpConnection
write_output thread (wrote n) c = if ltb 0 n then write_some thread n c else ok c
write_output thread (write_failed e) c = ok c

unfoldable pub handle_write : ℕ → WriteReply → TcpConnection → Result TcpConnection
unfolding shutdown_in_loop write_some write_output
handle_write thread reply c = do
  assert_in_loop_thread thread c
  if c.channel.writing then write_output thread reply c else ok c

-- `getSocketError` and a line in the log.
abbrev pub handle_error : TcpConnection → Result TcpConnection
handle_error c = ok c

module _ (handlers : Handlers) where
  unfoldable pub connect_established : ℕ → TcpConnection → Result TcpConnection
  connect_established thread c = do
    assert_in_loop_thread thread c
    assert (is_connecting c.state)
    handlers.connection (record c { state = connected; channel = Channel.enable_reading c.channel })

  unfoldable pub handle_close : ℕ → TcpConnection → Result TcpConnection
  handle_close thread c = do
    assert_in_loop_thread thread c
    assert (is_connected c.state || is_disconnecting c.state)
    handlers.close (record c { channel = Channel.disable_all c.channel })

  unfoldable pub handle_read : ℕ → ReadReply → ℕ → TcpConnection → Result TcpConnection
  unfolding handle_close
  handle_read thread reply receive_time c = do
    (n, input) ← Buffer.read_fd reply c.input_buffer
    answer n (record c { input_buffer = input })
    where
      answer : ReadResult → TcpConnection → Result TcpConnection
      answer (bytes_read n) c' =
          if ltb 0 n then handlers.message receive_time c' else handle_close thread c'
      answer (read_error e) c' = handle_error c'

  unfoldable pub connect_destroyed : ℕ → TcpConnection → Result TcpConnection
  connect_destroyed thread c = do
    assert_in_loop_thread thread c
    assert (is_connected c.state || is_disconnecting c.state)
    c' ←
        handlers.connection
          (record c { state = disconnected; channel = Channel.disable_all c.channel })
    channel ← Channel.remove thread c'.channel
    ok (record c' { channel = channel })
