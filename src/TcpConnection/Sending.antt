-- ===== src/TcpConnection/Sending.antt =====
-- `sendInLoop`, `send` and `handleWrite` of TcpConnection.cc: what reaches the peer, and in which order.
use simplev.Prelude.{
  ℕ, zero, suc, ◌+◌, ◌-◌, ◌≤◌, ◌<◌, ◌≡◌, ◌⊎◌, inl, inr, refl, sym, ap, ◌∙◌, Bool, true, false, not,
  ◌&&◌, List, [], ◌∷◌, ◌++◌, length, take, drop, arith, append-nil, append_assoc, take-append-drop,
  take_all, length-drop, length-take, ltb, leb, ◌==◌, if◌then◌else◌, ltb→lt, not-ltb→le, Bool-cases,
  add_size, sub_size,
}
use simplev.Channel
use simplev.Buffer
use simplev.Buffer.{Buffer, max_size}
use simplev.Buffer.Contents.{contents, readable_bytes-contents}
use simplev.Buffer.Back.{append_lem}
use simplev.TcpConnection.{
  TcpConnection, WriteReply, wrote, write_failed, epipe, econnreset, is_broken, keep_rest,
  write_directly, send_in_loop, queue_in_loop, written, high_water_mark_functor,
  write_complete_functor,
}
use simplev.TcpConnection.Inv.{IsSound, stream, Takes, Ends}

-- `c'` is `c` with `message` put at the end of its stream.
pub record Sent (c : TcpConnection) (message : List ℕ) (c' : TcpConnection) : Type 0 where
  pub sound : IsSound c'
  pub bytes : stream c' ≡ stream c ++ message
  pub state_kept : c'.state ≡ c.state
  pub shut_kept : c'.socket.shut_down ≡ c.socket.shut_down
  pub thread_kept : c'.channel.loop_thread ≡ c.channel.loop_thread

-- The connection after the rest of a message went to the output buffer `output`.
rest_kept : Bool → ℕ → Buffer → TcpConnection → TcpConnection
rest_kept full size output c =
    record (if full then queue_in_loop (high_water_mark_functor size) c else c) {
      output_buffer = output;
      channel = Channel.enable_writing c.channel;
    }

rest_kept-Sent :
    (full : Bool) (size : ℕ) (output : Buffer) (c : TcpConnection) (rest : List ℕ)
    → Buffer.Contents.IsValid c.input_buffer
    → Buffer.Contents.IsValid output
    → contents output ≡ contents c.output_buffer ++ rest
    → Sent c rest (rest_kept full size output c)
unfolding rest_kept
rest_kept-Sent true size output c rest vi v e = record {
  sound = record { input = vi; output = v; idle = λ h. cc };
  bytes =
      ap (◌++◌ c.socket.written) e
      ∙ sym (append_assoc c.socket.written (contents c.output_buffer) rest);
  state_kept = refl;
  shut_kept = refl;
  thread_kept = refl;
}
rest_kept-Sent false size output c rest vi v e = record {
  sound = record { input = vi; output = v; idle = λ h. cc };
  bytes =
      ap (◌++◌ c.socket.written) e
      ∙ sym (append_assoc c.socket.written (contents c.output_buffer) rest);
  state_kept = refl;
  shut_kept = refl;
  thread_kept = refl;
}

keep_rest_lem :
    (c : TcpConnection) (n remaining : ℕ) (message : List ℕ)
    → Buffer.Contents.IsValid c.input_buffer
    → Buffer.Contents.IsValid c.output_buffer
    → remaining ≡ length message - n
    → n ≤ length message
    → c.output_buffer.writer_index + length message ≤ max_size
    → 0 < remaining
    → Ends (keep_rest n remaining false message c) λ c'. Sent c (drop n message) c'
unfolding keep_rest rest_kept
keep_rest_lem c n remaining message vi vo e le fits pos =
    let d = length-drop n message in
    let (output, run, v, bytes) =
      append_lem {b = c.output_buffer} (take remaining (drop n message)) vo
        (omega (arith, length-take remaining (drop n message))) in
    let r : take remaining (drop n message) ≡ drop n message =
      take_all remaining (drop n message) (omega arith) in
    let old_len = Buffer.readable_bytes c.output_buffer in
    let full =
      leb c.high_water_mark (add_size old_len remaining)
      && (ltb old_len c.high_water_mark && c.has_high_water_mark) in
    let some_left : ltb 0 remaining ≡ true = ground arith in
    (
      rest_kept full (add_size old_len remaining) output c,
      ground (arith, run),
      rest_kept-Sent full (add_size old_len remaining) output c (drop n message) vi v
          (bytes ∙ ap (◌++◌ (contents c.output_buffer)) r),
    )

drop_all : (n : ℕ) (xs : List ℕ) → length xs ≤ n → drop n xs ≡ []
drop_all zero [] h = refl
drop_all zero (x ∷ xs) h = absurd (omega arith)
drop_all (suc n) [] h = refl
drop_all (suc n) (x ∷ xs) h = drop_all n xs (omega arith)

-- The end of `sendInLoop` puts what the direct write left of the message at the end of the stream.
keep_rest-Sent :
    (c : TcpConnection) (n remaining : ℕ) (message : List ℕ)
    → IsSound c
    → remaining ≡ length message - n
    → n ≤ length message
    → c.output_buffer.writer_index + length message ≤ max_size
    → Ends (keep_rest n remaining false message c) λ c'. Sent c (drop n message) c'
unfolding keep_rest
keep_rest-Sent c n remaining message sound e le fits = elim (Bool-cases (ltb 0 remaining)) [
  | inl t ↦
      keep_rest_lem c n remaining message sound.input sound.output e le fits (ltb→lt 0 remaining t)
  | inr t ↦
      let nothing : drop n message ≡ [] =
        drop_all n message (omega (arith, not-ltb→le 0 remaining t)) in
      (
        c,
        rw t,
        record {
          sound = sound;
          bytes = sym (ap (◌++◌ (stream c)) nothing ∙ append-nil (stream c));
          state_kept = refl;
          shut_kept = refl;
          thread_kept = refl;
        },
      )
]

-- A direct write that the peer has made pointless: the message is dropped and nothing else happens.
abbrev pub IsDropped : WriteReply → TcpConnection → Type 0
IsDropped (wrote n) c = ⊥
IsDropped (write_failed e) c =
    (is_broken e ≡ true) × (c.channel.writing ≡ false) × (contents c.output_buffer ≡ [])

stream-written :
    (c : TcpConnection) (n : ℕ) (message : List ℕ)
    → contents c.output_buffer ≡ []
    → stream (written n message c) ++ drop n message ≡ stream c ++ message
stream-written c n message e =
    simp (e, append-nil, append_assoc) (ap (◌++◌ c.socket.written) (take-append-drop n message))

written_noted : ℕ → List ℕ → TcpConnection → Bool → TcpConnection
written_noted n message c complete =
    if complete
    then queue_in_loop write_complete_functor (written n message c)
    else written n message c

written-Sent :
    (c : TcpConnection) (n : ℕ) (message : List ℕ) (complete : Bool)
    → IsSound c
    → contents c.output_buffer ≡ []
    → n ≤ length message
    → c.output_buffer.writer_index + length message ≤ max_size
    → Ends
        (keep_rest n (length message - n) false message (written_noted n message c complete))
        λ c'. Sent c message c'
unfolding written_noted
written-Sent c n message true sound empty le fits =
    let (c', run, s) =
      keep_rest-Sent (queue_in_loop write_complete_functor (written n message c)) n
        (length message - n) message
        (record { input = sound.input; output = sound.output; idle = sound.idle }) refl le fits in
    (
      c',
      run,
      record {
        sound = s.sound;
        bytes = s.bytes ∙ stream-written c n message empty;
        state_kept = s.state_kept;
        shut_kept = s.shut_kept;
        thread_kept = s.thread_kept;
      },
    )
written-Sent c n message false sound empty le fits =
    let (c', run, s) =
      keep_rest-Sent (written n message c) n (length message - n) message
        (record { input = sound.input; output = sound.output; idle = sound.idle }) refl le fits in
    (
      c',
      run,
      record {
        sound = s.sound;
        bytes = s.bytes ∙ stream-written c n message empty;
        state_kept = s.state_kept;
        shut_kept = s.shut_kept;
        thread_kept = s.thread_kept;
      },
    )

write_directly_lem :
    (reply : WriteReply) (message : List ℕ) (c : TcpConnection)
    → IsSound c
    → c.channel.writing ≡ false
    → Takes reply (length message)
    → c.output_buffer.writer_index + length message ≤ max_size
    → Ends (write_directly reply message c) λ c'. Sent c message c' ⊎ (IsDropped reply c × (c' ≡ c))
unfolding write_directly
write_directly_lem (wrote n) message c sound quiet le fits =
    let r : sub_size (length message) n ≡ length message - n = omega arith in
    let (c', run, s) =
      written-Sent c n message (length message - n == 0 && c.has_write_complete) sound
        (sound.idle quiet) le fits in
    (c', rw r (unfold written_noted in run), inl s)
write_directly_lem (write_failed epipe) message c sound quiet le fits =
    (c, unfold keep_rest in refl, inr ((refl, quiet, sound.idle quiet), refl))
write_directly_lem (write_failed econnreset) message c sound quiet le fits =
    (c, unfold keep_rest in refl, inr ((refl, quiet, sound.idle quiet), refl))
write_directly_lem (write_failed e) message c sound quiet le fits =
    let (c', run, s) =
      keep_rest-Sent c 0 (length message) message sound (omega arith) (omega arith) fits in
    (c', run, inl s)

-- `sendInLoop` in the loop's thread never fails while its buffer fits into a vector. It puts the
-- message at the end of the stream of bytes that the peer has got or will get, and changes nothing
-- before it; or the direct write met EPIPE or ECONNRESET with nothing waiting, and the connection is
-- as it was.
pub send_in_loop_lem :
    (thread : ℕ) (reply : WriteReply) (message : List ℕ) (c : TcpConnection)
    → IsSound c
    → c.channel.loop_thread ≡ thread
    → Takes reply (length message)
    → c.output_buffer.writer_index + length message ≤ max_size
    → Ends
        (send_in_loop thread reply message c)
        λ c'. Sent c message c' ⊎ (IsDropped reply c × (c' ≡ c))
unfolding send_in_loop
send_in_loop_lem thread reply message c sound here takes fits =
    let t : (c.channel.loop_thread == thread) ≡ true = ground arith in
    let waiting = readable_bytes-contents sound.output in
    elim (Bool-cases (not c.channel.writing && Buffer.readable_bytes c.output_buffer == 0)) [
      | inl direct ↦
          rw (t, direct) (write_directly_lem reply message c sound (ground arith) takes fits)
      | inr later ↦
          let (c', run, s) =
            keep_rest-Sent c 0 (length message) message sound (omega arith) (omega arith) fits in
          (c', rw (t, later) run, inl s)
    ]
