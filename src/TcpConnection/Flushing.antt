-- ===== src/TcpConnection/Flushing.antt =====
-- `handleWrite`, `shutdown` and `shutdownInLoop` of TcpConnection.cc: the buffered bytes go out in
-- order, and the socket is shut down only behind the last of them.
use simplev.Prelude.{
  ℕ, ◌≤◌, ◌≡◌, ◌⊎◌, inl, inr, refl, ap, ◌∙◌, Bool, true, false, [], ◌++◌, length, take, drop,
  nil_of_length, arith, append_assoc, take-append-drop, ltb, ◌==◌, Bool-cases, ok, ◌>>=◌,
  if◌then◌else◌,
}
use simplev.Channel
use simplev.Buffer
use simplev.Buffer.{Buffer}
use simplev.Buffer.Contents.{contents, readable_bytes-contents}
use simplev.Buffer.Front.{retrieve_lem}
use simplev.Buffer.Space.{peek_all-contents}
use simplev.TcpConnection.{
  TcpConnection, State, disconnecting, is_disconnecting, WriteReply, wrote, write_failed,
  handle_write, write_some, write_output, shutdown_in_loop, drained, written, queue_in_loop,
  write_complete_functor,
}
use simplev.TcpConnection.Inv.{IsSound, stream, Takes, Ends}

-- `c'` is `c` with a part of its buffered bytes, maybe none, handed to the kernel.
pub record Flushed (c c' : TcpConnection) : Type 0 where
  pub sound : IsSound c'
  pub bytes : stream c' ≡ stream c
  pub rest : (n : ℕ) × (contents c'.output_buffer ≡ drop n (contents c.output_buffer))
  pub state_kept : c'.state ≡ c.state
  pub thread_kept : c'.channel.loop_thread ≡ c.channel.loop_thread
  pub half_closed :
      c'.socket.shut_down ≡ true
      → (c.socket.shut_down ≡ true) ⊎ ((c.state ≡ disconnecting) × (contents c'.output_buffer ≡ []))

nothing-Flushed : (c : TcpConnection) → IsSound c → Flushed c c
nothing-Flushed c sound = record {
  sound = sound;
  bytes = refl;
  rest = (0, refl);
  state_kept = refl;
  thread_kept = refl;
  half_closed = λ h. inl h;
}

-- The connection after `write` took `n` bytes of its output, which is now `output`.
sent_off : ℕ → Buffer → TcpConnection → TcpConnection
sent_off n output c = record (written n (contents c.output_buffer) c) { output_buffer = output }

stream-sent_off :
    (n : ℕ) (output : Buffer) (c : TcpConnection)
    → contents output ≡ drop n (contents c.output_buffer)
    → stream (sent_off n output c) ≡ stream c
unfolding sent_off
stream-sent_off n output c e =
    append_assoc c.socket.written (take n (contents c.output_buffer)) (contents output)
    ∙ ap (◌++◌ c.socket.written) (
        ap (◌++◌ (take n (contents c.output_buffer))) e
        ∙ take-append-drop n (contents c.output_buffer))

state-disconnecting : (s : State) → is_disconnecting s ≡ true → s ≡ disconnecting
state-disconnecting s e = ground arith

-- The connection behind `drained`: a functor queued, the socket shut down, or not.
after_drain : Bool → Bool → TcpConnection → TcpConnection
after_drain completes closes c =
    let c' = record c { channel = Channel.disable_writing c.channel } in
    let c'' = if completes then queue_in_loop write_complete_functor c' else c' in
    if closes then record c'' { socket = record c''.socket { shut_down = true } } else c''

drained-ok :
    (thread : ℕ) (c : TcpConnection)
    → c.channel.loop_thread ≡ thread
    → drained thread c ≡ ok (after_drain c.has_write_complete (is_disconnecting c.state) c)
unfolding shutdown_in_loop after_drain
drained-ok thread c here = ground arith

after_drain-Flushed :
    (completes closes : Bool) (n : ℕ) (output : Buffer) (c : TcpConnection)
    → (closes ≡ true → c.state ≡ disconnecting)
    → IsSound c
    → Buffer.Contents.IsValid output
    → contents output ≡ drop n (contents c.output_buffer)
    → contents output ≡ []
    → Flushed c (after_drain completes closes (sent_off n output c))
unfolding after_drain sent_off
after_drain-Flushed true true n output c why sound v e empty = record {
  sound = record { input = sound.input; output = v; idle = λ _. empty };
  bytes = stream-sent_off n output c e;
  rest = (n, e);
  state_kept = refl;
  thread_kept = refl;
  half_closed = λ h. inr (why refl, empty);
}
after_drain-Flushed true false n output c why sound v e empty = record {
  sound = record { input = sound.input; output = v; idle = λ _. empty };
  bytes = stream-sent_off n output c e;
  rest = (n, e);
  state_kept = refl;
  thread_kept = refl;
  half_closed = λ h. inl h;
}
after_drain-Flushed false true n output c why sound v e empty = record {
  sound = record { input = sound.input; output = v; idle = λ _. empty };
  bytes = stream-sent_off n output c e;
  rest = (n, e);
  state_kept = refl;
  thread_kept = refl;
  half_closed = λ h. inr (why refl, empty);
}
after_drain-Flushed false false n output c why sound v e empty = record {
  sound = record { input = sound.input; output = v; idle = λ _. empty };
  bytes = stream-sent_off n output c e;
  rest = (n, e);
  state_kept = refl;
  thread_kept = refl;
  half_closed = λ h. inl h;
}

write_some_lem :
    (thread n : ℕ) (c : TcpConnection)
    → IsSound c
    → c.channel.loop_thread ≡ thread
    → c.channel.writing ≡ true
    → n ≤ length (contents c.output_buffer)
    → Ends (write_some thread n c) (Flushed c)
unfolding write_some sent_off
write_some_lem thread n c sound here watching le = elim (retrieve_lem n sound.output) [
  | inr (lt, _) ↦ absurd (omega arith)
  | inl (_, (output, run, v, e)) ↦ elim (Bool-cases (Buffer.readable_bytes output == 0)) [
    | inl t ↦ (
      after_drain c.has_write_complete (is_disconnecting c.state) (sent_off n output c),
      rw (peek_all-contents sound.output, run, ◌>>=◌, t)
          (drained-ok thread (sent_off n output c) here),
      after_drain-Flushed c.has_write_complete (is_disconnecting c.state) n output c
          (state-disconnecting c.state) sound v e
          (nil_of_length (contents output) (ground (arith, readable_bytes-contents v))),
    )
    | inr t ↦ (
      sent_off n output c,
      rw (peek_all-contents sound.output, run, ◌>>=◌, t),
      record {
        sound = record { input = sound.input; output = v; idle = λ h. cc };
        bytes = stream-sent_off n output c e;
        rest = (n, e);
        state_kept = refl;
        thread_kept = refl;
        half_closed = λ h. inl h;
      },
    )
  ]
]

write_output_lem :
    (thread : ℕ) (reply : WriteReply) (c : TcpConnection)
    → IsSound c
    → c.channel.loop_thread ≡ thread
    → c.channel.writing ≡ true
    → Takes reply (length (contents c.output_buffer))
    → Ends (write_output thread reply c) (Flushed c)
unfolding write_output
write_output_lem thread (write_failed e) c sound here on takes = (c, refl, nothing-Flushed c sound)
write_output_lem thread (wrote n) c sound here on takes = elim (Bool-cases (ltb 0 n)) [
  | inl t ↦ rw t (write_some_lem thread n c sound here on takes)
  | inr t ↦ (c, rw t, nothing-Flushed c sound)
]

-- `handleWrite` in the loop's thread never fails. It keeps the stream of bytes, whatever the kernel
-- takes, and shuts the socket down only in state `disconnecting` and with nothing left to write.
pub handle_write_lem :
    (thread : ℕ) (reply : WriteReply) (c : TcpConnection)
    → IsSound c
    → c.channel.loop_thread ≡ thread
    → Takes reply (length (contents c.output_buffer))
    → Ends (handle_write thread reply c) (Flushed c)
unfolding handle_write
handle_write_lem thread reply c sound here takes = elim (Bool-cases c.channel.writing) [
  | inr off ↦ (c, ground arith, nothing-Flushed c sound)
  | inl on ↦
      let (c', run, f) = write_output_lem thread reply c sound here on takes in
      (c', ground (arith, run), f)
]
