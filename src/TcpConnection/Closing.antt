-- ===== src/TcpConnection/Closing.antt =====
-- The steps of a connection of TcpConnection.cc in a row: which bytes it takes over, and when `shutdown`
-- shuts its socket down.
use simplev.Prelude.{
  ℕ, ◌+◌, ◌≤◌, ◌≡◌, ◌⊎◌, inl, inr, refl, sym, ap, ◌∙◌, Bool, true, false, not, List, [], ◌++◌,
  length, arith, append-nil, append_assoc, ◌==◌, Bool-cases, ok,
}
use simplev.Buffer
use simplev.Buffer.{max_size}
use simplev.Buffer.Contents.{contents, readable_bytes-contents}
use simplev.TcpConnection.{
  TcpConnection, State, connected, disconnecting, is_connected, WriteReply, wrote, write_failed,
  epipe, econnreset, send_in_loop, write_directly, keep_rest, send, shutdown,
}
use simplev.TcpConnection.Inv.{IsSound, stream, Takes, Ends}
use simplev.TcpConnection.Sending.{Sent, IsDropped, send_in_loop_lem}
use simplev.TcpConnection.Flushing.{handle_write_lem}
use simplev.TcpConnection.Life.{
  IsOrderly, is_lost, accepted_bytes, Step, sends, writes, shuts, Reach, here, next, Kept,
  same-Kept, Sent-Kept, Flushed-Kept, connected_open, ok-injective,
}

-- The connection that `shutdown` leaves in state `disconnecting`.
left_Kept :
    (closes : Bool) (c : TcpConnection)
    → (closes ≡ true → contents c.output_buffer ≡ [])
    → (c.socket.shut_down ≡ true → ⊥)
    → IsOrderly c
    → Kept c []
        (record c { state = disconnecting; socket = record c.socket { shut_down = closes } })
left_Kept true c why open_ o = record {
  orderly = record {
    sound = record { input = o.sound.input; output = o.sound.output; idle = o.sound.idle };
    closed = λ _. (refl, why refl);
  };
  thread_kept = refl;
  grows = sym (append-nil (stream c));
}
left_Kept false c why open_ o = record {
  orderly = record {
    sound = record { input = o.sound.input; output = o.sound.output; idle = o.sound.idle };
    closed = λ h. cc;
  };
  thread_kept = refl;
  grows = sym (append-nil (stream c));
}

shutdown-left :
    (thread : ℕ) (c : TcpConnection)
    → c.channel.loop_thread ≡ thread
    → c.state ≡ connected
    → c.socket.shut_down ≡ false
    → shutdown thread c
      ≡ ok (record c {
        state = disconnecting;
        socket = record c.socket { shut_down = not c.channel.writing };
      })
unfolding shutdown
shutdown-left thread c at up unshut = ground arith

shutdown_elsewhere :
    (thread : ℕ) (c : TcpConnection) → is_connected c.state ≡ false → shutdown thread c ≡ ok c
unfolding shutdown
shutdown_elsewhere thread c e = rw e

state-connected : (s : State) → is_connected s ≡ true → s ≡ connected
state-connected s e = ground arith

shutdown-Kept :
    (thread : ℕ) (c : TcpConnection)
    → IsOrderly c
    → c.channel.loop_thread ≡ thread
    → Ends (shutdown thread c) (Kept c [])
shutdown-Kept thread c o at = elim (Bool-cases (is_connected c.state)) [
  | inr t ↦ (c, shutdown_elsewhere thread c t, same-Kept c o)
  | inl t ↦
      let up = state-connected c.state t in
      let is_open = connected_open c up o in
      (
        _,
        shutdown-left thread c at up (ground (arith, is_open)),
        left_Kept (not c.channel.writing) c (λ e. o.sound.idle (ground arith)) is_open o,
      )
]

-- A message that is given up changes nothing.
send_in_loop_lost :
    (thread : ℕ) (reply : WriteReply) (message : List ℕ) (c : TcpConnection)
    → c.channel.loop_thread ≡ thread
    → is_lost reply c ≡ true
    → send_in_loop thread reply message c ≡ ok c
unfolding send_in_loop write_directly
send_in_loop_lost thread (wrote n) message c at lost = absurd cc
send_in_loop_lost thread (write_failed epipe) message c at lost =
    let t : (c.channel.loop_thread == thread) ≡ true = ground arith in
    rw (t, lost) (unfold keep_rest in refl)
send_in_loop_lost thread (write_failed econnreset) message c at lost =
    let t : (c.channel.loop_thread == thread) ≡ true = ground arith in
    rw (t, lost) (unfold keep_rest in refl)
send_in_loop_lost thread (write_failed e) message c at lost = absurd cc

IsDropped-is_lost :
    (reply : WriteReply) (c : TcpConnection)
    → IsSound c
    → IsDropped reply c
    → is_lost reply c ≡ true
IsDropped-is_lost (wrote n) c sound d = absurd d
IsDropped-is_lost (write_failed e) c sound (broken, quiet, empty) =
    let waiting : Buffer.readable_bytes c.output_buffer ≡ 0 =
      readable_bytes-contents sound.output ∙ ap length empty in
    ground (arith, broken, quiet, waiting)

send-Kept :
    (thread : ℕ) (reply : WriteReply) (message : List ℕ) (c : TcpConnection)
    → IsOrderly c
    → c.channel.loop_thread ≡ thread
    → Takes reply (length message)
    → c.output_buffer.writer_index + length message ≤ max_size
    → Ends (send thread reply message c) (Kept c (accepted_bytes reply message c))
unfolding send accepted_bytes
send-Kept thread reply message c o at takes fits = elim (Bool-cases (is_connected c.state)) [
  | inr t ↦ (c, rw t, rw t (same-Kept c o))
  | inl t ↦
      let here_ : (c.channel.loop_thread == thread) ≡ true = ground arith in
      elim (Bool-cases (is_lost reply c)) [
        | inl lost ↦
            let run = send_in_loop_lost thread reply message c at lost in
            (c, ground (arith, run), rw (t, lost) (same-Kept c o))
        | inr kept ↦
            let (c', run, r) = send_in_loop_lem thread reply message c o.sound at takes fits in
            (c', ground (arith, run), rw (t, kept) (sent (state-connected c.state t) kept r))
      ]
]
  where
    sent :
        {c' : TcpConnection}
        → c.state ≡ connected
        → is_lost reply c ≡ false
        → (Sent c message c' ⊎ (IsDropped reply c × (c' ≡ c)))
        → Kept c message c'
    sent {c'} up kept (inl s) = Sent-Kept c c' message up o s
    sent {c'} up kept (inr (d, _)) = absurd (cc (sym kept ∙ IsDropped-is_lost reply c o.sound d))

Step-Kept :
    {thread : ℕ} {c c' : TcpConnection} {more : List ℕ}
    → Step thread c more c'
    → IsOrderly c
    → c.channel.loop_thread ≡ thread
    → Kept c more c'
Step-Kept {thread} {c} {c'} (sends reply message takes fits e) o at =
    let (d, run, k) = send-Kept thread reply message c o at takes fits in
    let p : d ≡ c' = ok-injective (sym run ∙ e) in rw (← p) k
Step-Kept {thread} {c} {c'} (writes reply takes e) o at =
    let (d, run, f) = handle_write_lem thread reply c o.sound at takes in
    let p : d ≡ c' = ok-injective (sym run ∙ e) in rw (← p) (Flushed-Kept c d o f)
Step-Kept {thread} {c} {c'} (shuts e) o at =
    let (d, run, k) = shutdown-Kept thread c o at in
    let p : d ≡ c' = ok-injective (sym run ∙ e) in rw (← p) k

Reach-Kept :
    {thread : ℕ} {c c' : TcpConnection} {more : List ℕ}
    → IsOrderly c
    → c.channel.loop_thread ≡ thread
    → Reach thread c more c'
    → Kept c more c'
Reach-Kept {thread} {c} o at here = same-Kept c o
Reach-Kept {thread} {c} o at (next {more} {more'} r st) =
    let k = Reach-Kept o at r in
    let k' = Step-Kept st k.orderly (k.thread_kept ∙ at) in
    record {
      orderly = k'.orderly;
      thread_kept = k'.thread_kept ∙ k.thread_kept;
      grows =
          k'.grows ∙ (ap (λ (t : List ℕ). t ++ more') k.grows ∙ append_assoc (stream c) more more');
    }

-- Whatever a connection that starts out orderly does in its loop's thread: its stream, the bytes that
-- the kernel took and those that wait, becomes the stream before and then the messages that were sent,
-- in order, each of them whole. Left out are only the messages of a connection that is not `connected`, and
-- those whose direct write, with nothing waiting, failed with EPIPE or ECONNRESET. And once its
-- socket is shut down, every byte of the stream has been handed to the kernel, and the connection has
-- left `connected`.
pub Reach-IsOrderly :
    {thread : ℕ} {c c' : TcpConnection} {more : List ℕ}
    → IsOrderly c
    → c.channel.loop_thread ≡ thread
    → Reach thread c more c'
    → IsOrderly c'
      × (stream c' ≡ stream c ++ more)
      × (c'.socket.shut_down ≡ true → (c'.socket.written ≡ stream c') × (c'.state ≡ disconnecting))
Reach-IsOrderly {c'} o at r =
    let k = Reach-Kept o at r in
    (
      k.orderly,
      k.grows,
      λ h.
          let (left, empty) = k.orderly.closed h in
          (sym (ap (◌++◌ c'.socket.written) empty ∙ append-nil c'.socket.written), left),
    )
