-- ===== src/TcpConnection/Served.antt =====
-- A connection of TcpConnection.cc from `connectEstablished` to `connectDestroyed`, under its owner
-- TcpServer.cc and its loop: what other threads, the kernel and the loop do to it, one call at a time,
-- with the close callback that queues `connectDestroyed`.
use simplev.Prelude.{ℕ, ◌+◌, ◌≡◌, ◌≤◌, ◌&&◌, List, [], ◌∷◌, length, Result, ok, if◌then◌else◌}
use simplev.Buffer.{ReadReply, received, failed, writable_bytes, extra_size, max_size}
use simplev.Buffer.Contents.{contents}
use simplev.TcpConnection.{
  TcpConnection, Functor, write_complete_functor, high_water_mark_functor, send_functor,
  shutdown_functor, destroy_functor, Handlers, WriteReply, init, queue_in_loop, send, send_in_loop,
  shutdown, shutdown_in_loop, connect_established, handle_read, handle_write, connect_destroyed,
}
use simplev.TcpConnection.Inv.{Takes}

-- `closeCallback_` of a connection in the map of a server whose loop is the connection's: it comes to
-- `removeConnectionInLoop`, which queues `connectDestroyed`. That it runs in the server's thread and that the
-- map had the connection, which `removeConnectionInLoop` asserts, are part of TcpServer.antt.
abbrev pub close_callback : TcpConnection → Result TcpConnection
close_callback c = ok (queue_in_loop destroy_functor c)

abbrev pub handlers_of :
    (TcpConnection → Result TcpConnection) → (ℕ → TcpConnection → Result TcpConnection) → Handlers
handlers_of on_connection on_message = record {
  connection = on_connection;
  message = on_message;
  close = close_callback;
}

-- What happens to a connection: a call of `send` or `shutdown` in the thread `caller`, an event of its
-- channel, or the next functor of the loop. The kernel's answer to a `write` of it is given.
pub data Act : Type 0 where
  sends : (caller : ℕ) → WriteReply → List ℕ → Act
  shuts : (caller : ℕ) → Act
  reads : ReadReply → (receive_time : ℕ) → Act
  writes : WriteReply → Act
  runs : WriteReply → Act

module _ (handlers : Handlers) where
  -- A functor in the thread of the loop. The callbacks for an output buffer that is empty, or too full,
  -- do nothing to the connection.
  unfoldable pub run_functor : ℕ → WriteReply → Functor → TcpConnection → Result TcpConnection
  run_functor thread reply write_complete_functor c = ok c
  run_functor thread reply (high_water_mark_functor size) c = ok c
  run_functor thread reply (send_functor message) c = send_in_loop thread reply message c
  run_functor thread reply shutdown_functor c = shutdown_in_loop thread c
  run_functor thread reply destroy_functor c = connect_destroyed handlers thread c

  abbrev pub run_next : ℕ → WriteReply → List Functor → TcpConnection → Result TcpConnection
  run_next thread reply [] c = ok c
  run_next thread reply (f ∷ fs) c = run_functor thread reply f (record c { queued = fs })

  -- A stopped channel has no event. The write callback may come behind a read callback that closed.
  unfoldable pub act : ℕ → Act → TcpConnection → Result TcpConnection
  unfolding run_functor
  act thread (sends caller reply message) c = send caller reply message c
  act thread (shuts caller) c = shutdown caller c
  act thread (reads reply receive_time) c =
      if c.channel.active && c.channel.reading
      then handle_read handlers thread reply receive_time c
      else ok c
  act thread (writes reply) c = if c.channel.active then handle_write thread reply c else ok c
  act thread (runs reply) c = run_next thread reply c.queued c

-- A message that the output buffer has place for, and a kernel that takes no more than it is given.
abbrev pub FitsMessage : WriteReply → List ℕ → TcpConnection → Type 0
FitsMessage reply message c =
    Takes reply (length message) × (c.output_buffer.writer_index + length message ≤ max_size)

abbrev pub FitsRead : ReadReply → TcpConnection → Type 0
FitsRead (received xs) c =
    (length xs ≤ writable_bytes c.input_buffer + extra_size)
    × (c.input_buffer.writer_index + length xs ≤ max_size)
FitsRead (failed errno) c = Unit {0}

abbrev pub FitsNext : WriteReply → List Functor → TcpConnection → Type 0
FitsNext reply [] c = Unit {0}
FitsNext reply (send_functor message ∷ fs) c = FitsMessage reply message c
FitsNext reply (f ∷ fs) c = Unit {0}

abbrev pub Fits : Act → TcpConnection → Type 0
Fits (sends caller reply message) c = FitsMessage reply message c
Fits (shuts caller) c = Unit {0}
Fits (reads reply receive_time) c = FitsRead reply c
Fits (writes reply) c = Takes reply (length (contents c.output_buffer))
Fits (runs reply) c = FitsNext reply c.queued c

-- What has happened since `connectEstablished`.
pub data Reach (handlers : Handlers) (thread fd : ℕ) : TcpConnection → Type 0 where
  established :
      {c : TcpConnection}
      → connect_established handlers thread (init thread fd) ≡ ok c
      → Reach handlers thread fd c
  next :
      {c c' : TcpConnection} (a : Act)
      → Reach handlers thread fd c
      → Fits a c
      → act handlers thread a c ≡ ok c'
      → Reach handlers thread fd c'
