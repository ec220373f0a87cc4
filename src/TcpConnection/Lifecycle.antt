-- ===== src/TcpConnection/Lifecycle.antt =====
-- `connectEstablished`, `handleRead`, `handleClose` and `connectDestroyed` of TcpConnection.cc: how a
-- connection comes up, is read from, goes down and is taken apart.
use simplev.Prelude.{
  ℕ, ◌+◌, ◌≤◌, ◌≡◌, refl, Bool, true, false, ◌||◌, List, ◌++◌, length, arith, ltb, ok, err,
  assertion, if◌then◌else◌,
}
use simplev.Channel
use simplev.Buffer
use simplev.Buffer.{Buffer, ReadReply, failed, received, writable_bytes, extra_size, max_size}
use simplev.Buffer.Contents.{contents}
use simplev.Buffer.Back.{read_fd_lem}
use simplev.TcpConnection.{
  TcpConnection, State, connected, disconnected, is_connecting, is_connected, is_disconnecting,
  Handlers, WriteReply, connect_established, handle_read, handle_close, connect_destroyed,
  handle_write,
}

-- Up, in state `connected` or `disconnecting`.
abbrev pub is_up : State → Bool
is_up s = is_connected s || is_disconnecting s

module _ (handlers : Handlers) where
  -- `connectEstablished` in the loop's thread hands the connection to the user in state `connected` and
  -- watching for input, if it was `connecting`; otherwise its assertion fails.
  pub connect_established_lem :
      (thread : ℕ) (c : TcpConnection)
      → c.channel.loop_thread ≡ thread
      → connect_established handlers thread c ≡ (
          if is_connecting c.state
          then handlers.connection
              (record c { state = connected; channel = Channel.enable_reading c.channel })
          else err assertion)
  unfolding connect_established
  connect_established_lem thread c here = ground arith

  -- `handleRead` in the loop's thread, at a connection that is up. Input: the message callback gets a
  -- connection whose input buffer is well-formed and has exactly the new bytes at its end. End of
  -- input: the close callback gets the connection with no event watched, its buffer unchanged in
  -- content. An error: nothing changes.
  pub handle_read_lem :
      (thread now : ℕ) (c : TcpConnection)
      → c.channel.loop_thread ≡ thread
      → is_up c.state ≡ true
      → Buffer.Contents.IsValid c.input_buffer
      → (xs : List ℕ) (errno : ℕ) → length xs ≤ writable_bytes c.input_buffer + extra_size
      → c.input_buffer.writer_index + length xs ≤ max_size
      → ((input : Buffer) × Buffer.Contents.IsValid input
          × (contents input ≡ contents c.input_buffer ++ xs)
          × (handle_read handlers thread (received xs) now c ≡ (
              if ltb 0 (length xs)
              then handlers.message now (record c { input_buffer = input })
              else handlers.close
                  (record c { input_buffer = input; channel = Channel.disable_all c.channel }))))
        × (handle_read handlers thread (failed errno) now c ≡ ok c)
  unfolding handle_read handle_close Buffer.read_fd
  handle_read_lem thread now c here up v xs errno room fits =
      let (input, run, v', bytes) = read_fd_lem {b = c.input_buffer} xs v room fits in
      ((input, v', bytes, ground (arith, run)), refl)

  -- The comment in `handleWrite`: after end of input, a write event of the same round does nothing, when
  -- the close callback leaves the channel as it is.
  pub handle_write-handle_close :
      (thread : ℕ) (reply : WriteReply) (c c' : TcpConnection)
      → ((d d' : TcpConnection) → handlers.close d ≡ ok d' → d'.channel ≡ d.channel)
      → handle_close handlers thread c ≡ ok c'
      → handle_write thread reply c' ≡ ok c'
  unfolding handle_close handle_write
  handle_write-handle_close thread reply c c' keeps e =
      ground (arith, keeps (record c { channel = Channel.disable_all c.channel }) c')

  -- `connectDestroyed` in the loop's thread, at a connection that is up and whose user keeps the channel
  -- and the state: it ends in state `disconnected` with a stopped watcher and no event, and a second call
  -- fails its assertion.
  pub connect_destroyed_lem :
      (thread : ℕ) (c d : TcpConnection)
      → c.channel.loop_thread ≡ thread
      → is_up c.state ≡ true
      → handlers.connection
          (record c { state = disconnected; channel = Channel.disable_all c.channel })
        ≡ ok d
      → d.state ≡ disconnected
      → d.channel ≡ Channel.disable_all c.channel
      → let c' = record d { channel = record (Channel.disable_all c.channel) { active = false } } in
        (connect_destroyed handlers thread c ≡ ok c')
        × (connect_destroyed handlers thread c' ≡ err assertion)
  unfolding connect_destroyed Channel.remove
  connect_destroyed_lem thread c d here up run down kept = (ground arith, ground arith)
