-- ===== src/TcpConnection/Tests.antt =====
-- Runs of TcpConnection.cc.
use simplev.Prelude.{
  ℕ, ◌+◌, ◌≡◌, ◌≤◌, ◌⊎◌, not, ◌&&◌, refl, Bool, true, false, List, [], ◌∷◌, ◌++◌, length, replicate,
  arith, Result, ok, err, assertion, if◌then◌else◌, read_at, write_at,
}
use simplev.Channel
use simplev.Buffer
use simplev.Buffer.{Buffer, received, failed}
use simplev.Buffer.Contents.{contents}
use simplev.Buffer.Front.{retrieve_as_string_lem}
use simplev.TcpConnection.{
  TcpConnection, connected, disconnecting, disconnected, is_connecting, Handlers, wrote,
  destroy_functor, send_functor, init, connect_established, handle_read, handle_write, send,
  send_in_loop, keep_rest, shutdown,
}
use simplev.TcpConnection.Inv.{IsSound, stream, Ends}
use simplev.TcpConnection.Sending.{Sent, IsDropped, send_in_loop_lem}
use simplev.TcpConnection.Flushing.{Flushed, handle_write_lem}
use simplev.TcpConnection.Life.{IsOrderly, accepted_bytes, Reach, sends, here, next, writes, shuts}
use simplev.TcpConnection.Closing.{Reach-IsOrderly}
use simplev.TcpConnection.Lifecycle.{is_up, connect_established_lem}
use simplev.TcpConnection.Quiet.{destroys}
use simplev.TcpConnection.Served
use simplev.TcpConnection.Served.{handlers_of, act}
use simplev.TcpConnection.Callbacks.{IsCallback}
use simplev.TcpConnection.Living.{Reach-act}

abbrev small : List ℕ → Buffer
small xs = record {
  bytes = replicate 8 0 ++ (xs ++ replicate 8 0);
  reader_index = 8;
  writer_index = 8 + length xs;
}

-- A connection of thread 1 in which the bytes `xs` wait to be written.
abbrev waiting : Bool → List ℕ → TcpConnection
waiting watching xs = record {
  state = connected;
  socket = record { written = []; shut_down = false };
  channel = record (Channel.init 1 5) { reading = true; writing = watching };
  has_write_complete = true;
  has_high_water_mark = true;
  high_water_mark = 4;
  input_buffer = small [];
  output_buffer = small xs;
  queued = [];
}

abbrev quiet : TcpConnection
quiet = waiting false []

abbrev busy : TcpConnection
busy = waiting true (7 ∷ 8 ∷ [])

quiet-IsSound : IsSound quiet
quiet-IsSound = record { input = omega arith; output = omega arith; idle = λ _. refl }

busy-IsSound : IsSound busy
busy-IsSound = record { input = omega arith; output = omega arith; idle = λ h. cc }

busy-IsOrderly : IsOrderly busy
busy-IsOrderly = record { sound = busy-IsSound; closed = λ h. cc }

-- A user that does nothing.
abbrev silent : Handlers
silent = record { connection = λ c. ok c; message = λ now c. ok c; close = λ c. ok c }

-- The state after the shutdown and the two writes below.
shutdown_waits : shutdown 1 busy ≡ ok (record busy { state = disconnecting })
unfolding shutdown
shutdown_waits = refl

send_in_loop_lem_example :
    Ends
      (send_in_loop 1 (wrote 1) (3 ∷ 4 ∷ []) quiet)
      λ c'. Sent quiet (3 ∷ 4 ∷ []) c' ⊎ (IsDropped (wrote 1) quiet × (c' ≡ quiet))
send_in_loop_lem_example =
    send_in_loop_lem 1 (wrote 1) (3 ∷ 4 ∷ []) quiet quiet-IsSound refl (omega arith) (omega arith)

handle_write_lem_example : Ends (handle_write 1 (wrote 1) busy) (Flushed busy)
handle_write_lem_example = handle_write_lem 1 (wrote 1) busy busy-IsSound refl (omega arith)

-- A third byte is sent behind the two that wait; then `shutdown`, and all three are taken.
sending : (c : TcpConnection) × (send 1 (wrote 0) (9 ∷ []) busy ≡ ok c)
unfolding send send_in_loop keep_rest Buffer.append Buffer.ensure_writable_bytes Buffer.make_space
    write_at read_at
sending = (_, refl)

leaving : (c : TcpConnection) × (shutdown 1 sending.0 ≡ ok c)
unfolding sending shutdown send send_in_loop keep_rest Buffer.append Buffer.ensure_writable_bytes
    Buffer.make_space write_at read_at
leaving = (_, refl)

finished : (c : TcpConnection) × (handle_write 1 (wrote 3) leaving.0 ≡ ok c)
unfolding leaving sending shutdown send send_in_loop keep_rest Buffer.append
    Buffer.ensure_writable_bytes Buffer.make_space write_at read_at handle_write Buffer.peek_all
    Buffer.retrieve
finished = (_, refl)

leaving_waiting : 3 ≤ length (contents leaving.0.output_buffer)
unfolding leaving sending shutdown send send_in_loop keep_rest Buffer.append
    Buffer.ensure_writable_bytes Buffer.make_space write_at read_at
leaving_waiting = omega arith

finished-Reach : Reach 1 busy (9 ∷ []) finished.0
unfolding accepted_bytes
finished-Reach =
    next
      (next (next here (sends (wrote 0) (9 ∷ []) (omega arith) (omega arith) sending.1))
        (shuts leaving.1))
      (writes (wrote 3) leaving_waiting finished.1)

Reach-IsOrderly_example :
    IsOrderly finished.0
    × (stream finished.0 ≡ stream busy ++ 9 ∷ [])
    × (finished.0.socket.shut_down ≡ true
        → (finished.0.socket.written ≡ stream finished.0) × (finished.0.state ≡ disconnecting))
Reach-IsOrderly_example = Reach-IsOrderly busy-IsOrderly refl finished-Reach

connect_established_lem_example : connect_established silent 1 quiet ≡ (
    if is_connecting quiet.state
    then silent.connection
        (record quiet { state = connected; channel = Channel.enable_reading quiet.channel })
    else err assertion)
connect_established_lem_example = connect_established_lem silent 1 quiet refl

ok-channel : (d d' : TcpConnection) → silent.close d ≡ ok d' → d'.channel ≡ d.channel
ok-channel d d' e = ground arith

abbrev destroyed : TcpConnection
destroyed = record quiet {
  state = disconnected;
  channel = record (Channel.disable_all quiet.channel) { active = false };
}

-- A user that only throws the input away.
abbrev discard : ℕ → TcpConnection → Result TcpConnection
discard now c = ok (record c { input_buffer = Buffer.retrieve_all c.input_buffer })

discard-IsCallback : (thread now : ℕ) → IsCallback thread (discard now)
discard-IsCallback thread now c w = (
  record c { input_buffer = Buffer.retrieve_all c.input_buffer },
  refl,
  record { at = w.at; input = (retrieve_as_string_lem w.input).1; output = w.output },
  record {
    thread_kept = refl;
    reading_kept = refl;
    active_kept = refl;
    up_kept = refl;
    down_kept = λ e. e;
    queue_kept = refl;
  },
  λ _. refl,
)

log_only-IsCallback : (thread : ℕ) → IsCallback thread (λ c. ok c)
log_only-IsCallback thread c w = (
  c,
  refl,
  w,
  record {
    thread_kept = refl;
    reading_kept = refl;
    active_kept = refl;
    up_kept = refl;
    down_kept = λ e. e;
    queue_kept = refl;
  },
  λ _. refl,
)

abbrev discarding : Handlers
discarding = handlers_of (λ c. ok c) discard

abbrev serving : TcpConnection
serving = record (init 1 5) {
  state = connected;
  channel = record (Channel.init 1 5) { reading = true };
}

-- At the end of input, and then with a message that thread 2 wants to send.
abbrev ended : TcpConnection
ended = record serving { channel = Channel.init 1 5; queued = destroy_functor ∷ [] }

abbrev late : TcpConnection
late = record ended { queued = destroy_functor ∷ send_functor (7 ∷ []) ∷ [] }

late-Reach : Served.Reach discarding 1 5 late
unfolding act connect_established handle_read init Buffer.read_fd Buffer.init write_at send
late-Reach =
    Served.next {c = ended} (Served.sends 2 (wrote 0) (7 ∷ []))
      (Served.next {c = serving} (Served.reads (received []) 0) (Served.established refl)
        (omega arith) refl)
      (omega arith) refl

Reach-act_example :
    (c' : TcpConnection) × (act discarding 1 (Served.runs (wrote 0)) late ≡ ok c')
    × (is_up c'.state ≡ c'.channel.active)
    × (destroys c'.queued ≡ (if c'.channel.active && not c'.channel.reading then 1 else 0))
Reach-act_example =
    Reach-act (λ c. ok c) discard (Served.runs (wrote 0)) (log_only-IsCallback 1)
      (discard-IsCallback 1) late-Reach tt
