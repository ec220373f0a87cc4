-- ===== src/TcpConnection/Quiet.antt =====
-- What `sendInLoop`, `send`, `shutdown` and `handleWrite` of TcpConnection.cc do to the state, the reading
-- side, the input, and `connectDestroyed` in the queue.
use simplev.Prelude.{
  ℕ, suc, ◌+◌, ◌≡◌, refl, subst, ◌∙◌, Bool, true, false, not, ◌&&◌, List, [], ◌∷◌, ◌++◌, length,
  take, drop, arith, Result, ok, ensure, fatal, ◌>>=◌, ◌>>◌, >>=-eq-ok, if◌then◌else◌, ltb, ◌==◌,
}
use simplev.Channel
use simplev.Buffer
use simplev.Buffer.{Buffer}
use simplev.TcpConnection.{
  TcpConnection, Functor, write_complete_functor, high_water_mark_functor, send_functor,
  shutdown_functor, destroy_functor, WriteReply, wrote, write_failed, is_disconnecting,
  is_ewouldblock, is_broken, queue_in_loop, written, keep_rest, write_directly, send_in_loop,
  shutdown_in_loop, drained, write_some, write_output, handle_write, in_loop_thread,
}
use simplev.TcpConnection.Life.{ok-injective}

-- How often `connectDestroyed` is queued.
abbrev pub destroys : List Functor → ℕ
destroys [] = 0
destroys (destroy_functor ∷ fs) = suc (destroys fs)
destroys (f ∷ fs) = destroys fs

pub destroys-++ : (fs gs : List Functor) → destroys (fs ++ gs) ≡ destroys fs + destroys gs
destroys-++ [] gs = omega arith
destroys-++ (write_complete_functor ∷ fs) gs = destroys-++ fs gs
destroys-++ (high_water_mark_functor n ∷ fs) gs = destroys-++ fs gs
destroys-++ (send_functor m ∷ fs) gs = destroys-++ fs gs
destroys-++ (shutdown_functor ∷ fs) gs = destroys-++ fs gs
destroys-++ (destroy_functor ∷ fs) gs = omega (arith, destroys-++ fs gs)

pub record IsQuiet (c c' : TcpConnection) : Type 0 where
  pub thread_kept : c'.channel.loop_thread ≡ c.channel.loop_thread
  pub reading_kept : c'.channel.reading ≡ c.channel.reading
  pub active_kept : c'.channel.active ≡ c.channel.active
  pub state_kept : c'.state ≡ c.state
  pub input_kept : c'.input_buffer ≡ c.input_buffer
  pub queue_kept : destroys c'.queued ≡ destroys c.queued

pub same-IsQuiet : (c : TcpConnection) → IsQuiet c c
same-IsQuiet c = record {
  thread_kept = refl;
  reading_kept = refl;
  active_kept = refl;
  state_kept = refl;
  input_kept = refl;
  queue_kept = refl;
}

pub IsQuiet-trans : {c d e : TcpConnection} → IsQuiet c d → IsQuiet d e → IsQuiet c e
IsQuiet-trans p q = record {
  thread_kept = q.thread_kept ∙ p.thread_kept;
  reading_kept = q.reading_kept ∙ p.reading_kept;
  active_kept = q.active_kept ∙ p.active_kept;
  state_kept = q.state_kept ∙ p.state_kept;
  input_kept = q.input_kept ∙ p.input_kept;
  queue_kept = q.queue_kept ∙ p.queue_kept;
}

-- The run keeps all that, if it ends.
abbrev pub Quiets : TcpConnection → Result TcpConnection → Type 0
Quiets c run = (c' : TcpConnection) → run ≡ ok c' → IsQuiet c c'

ok-Quiets : (c d : TcpConnection) → IsQuiet c d → Quiets c (ok d)
ok-Quiets c d q c' h = subst (IsQuiet c) (ok-injective h) q

if-Quiets :
    (b : Bool) (c : TcpConnection) {m n : Result TcpConnection}
    → Quiets c m
    → Quiets c n
    → Quiets c (if b then m else n)
if-Quiets true c m n = m
if-Quiets false c m n = n

if-IsQuiet :
    (b : Bool) {c d e : TcpConnection} → IsQuiet c d → IsQuiet c e → IsQuiet c (if b then d else e)
if-IsQuiet true p q = p
if-IsQuiet false p q = q

-- A quiet run after a quiet change.
after-Quiets :
    {c d : TcpConnection} {m : Result TcpConnection} → IsQuiet c d → Quiets d m → Quiets c m
after-Quiets p q c' h = IsQuiet-trans p (q c' h)

>>-Quiets :
    (check : Result (Unit {0})) (c : TcpConnection) {m : Result TcpConnection}
    → Quiets c m
    → Quiets c (check >> m)
>>-Quiets check c {m} q c' h = let (_, _, e) = >>=-eq-ok check (λ _. m) h in q c' e

pub queue_in_loop-IsQuiet :
    (f : Functor) (c : TcpConnection) → destroys (f ∷ []) ≡ 0 → IsQuiet c (queue_in_loop f c)
queue_in_loop-IsQuiet f c none_ = record {
  thread_kept = refl;
  reading_kept = refl;
  active_kept = refl;
  state_kept = refl;
  input_kept = refl;
  queue_kept = omega (arith, destroys-++ c.queued (f ∷ []), none_);
}

written-IsQuiet : (n : ℕ) (bytes : List ℕ) (c : TcpConnection) → IsQuiet c (written n bytes c)
written-IsQuiet n bytes c = record {
  thread_kept = refl;
  reading_kept = refl;
  active_kept = refl;
  state_kept = refl;
  input_kept = refl;
  queue_kept = refl;
}

buffered-IsQuiet :
    (output : Buffer) (c : TcpConnection) → IsQuiet c (record c { output_buffer = output })
buffered-IsQuiet output c = record {
  thread_kept = refl;
  reading_kept = refl;
  active_kept = refl;
  state_kept = refl;
  input_kept = refl;
  queue_kept = refl;
}

watched-IsQuiet :
    (c : TcpConnection) → IsQuiet c (record c { channel = Channel.enable_writing c.channel })
watched-IsQuiet c = record {
  thread_kept = refl;
  reading_kept = refl;
  active_kept = refl;
  state_kept = refl;
  input_kept = refl;
  queue_kept = refl;
}

append-Quiets :
    (xs : List ℕ) (c d : TcpConnection)
    → IsQuiet c d
    → Quiets c (
        Buffer.append xs d.output_buffer >>= λ output.
        let c' = record d { output_buffer = output } in
        ok (
          if not c'.channel.writing
          then record c' { channel = Channel.enable_writing c'.channel }
          else c'))
append-Quiets xs c d q c' h =
    let (output, _, e) = >>=-eq-ok (Buffer.append xs d.output_buffer) _ h in
    after-Quiets (IsQuiet-trans q (buffered-IsQuiet output d))
      (ok-Quiets _ _ (if-IsQuiet (not d.channel.writing) (watched-IsQuiet _) (same-IsQuiet _))) c' e

noted-IsQuiet :
    (full : Bool) (size : ℕ) (c : TcpConnection)
    → IsQuiet c (if full then queue_in_loop (high_water_mark_functor size) c else c)
noted-IsQuiet full size c =
    if-IsQuiet full (queue_in_loop-IsQuiet (high_water_mark_functor size) c refl) (same-IsQuiet c)

keep_rest-Quiets :
    (n remaining : ℕ) (fault_error : Bool) (message : List ℕ) (c : TcpConnection)
    → Quiets c (keep_rest n remaining fault_error message c)
unfolding keep_rest
keep_rest-Quiets n remaining fault_error message c =
    if-Quiets (not fault_error && ltb 0 remaining) c
      (append-Quiets (take remaining (drop n message)) c _ (noted-IsQuiet _ _ c))
      (ok-Quiets c c (same-IsQuiet c))

write_directly-Quiets :
    (reply : WriteReply) (message : List ℕ) (c : TcpConnection)
    → Quiets c (write_directly reply message c)
unfolding write_directly
write_directly-Quiets (wrote n) message c =
    after-Quiets
      (if-IsQuiet (_ && c.has_write_complete)
        (IsQuiet-trans (written-IsQuiet n message c)
          (queue_in_loop-IsQuiet write_complete_functor _ refl))
        (written-IsQuiet n message c))
      (keep_rest-Quiets n _ false message _)
write_directly-Quiets (write_failed e) message c =
    keep_rest-Quiets 0 (length message) (not (is_ewouldblock e) && is_broken e) message c

pub send_in_loop-Quiets :
    (thread : ℕ) (reply : WriteReply) (message : List ℕ) (c : TcpConnection)
    → Quiets c (send_in_loop thread reply message c)
unfolding send_in_loop
send_in_loop-Quiets thread reply message c = >>-Quiets (ensure (in_loop_thread thread c) fatal) c (
    if-Quiets (not c.channel.writing && Buffer.readable_bytes c.output_buffer == 0) c
      (write_directly-Quiets reply message c) (keep_rest-Quiets 0 (length message) false message c))

pub shutdown_in_loop-Quiets :
    (thread : ℕ) (c : TcpConnection) → Quiets c (shutdown_in_loop thread c)
unfolding shutdown_in_loop
shutdown_in_loop-Quiets thread c = >>-Quiets (ensure (in_loop_thread thread c) fatal) c (
    ok-Quiets c _ (
      if-IsQuiet (not c.channel.writing)
        (record {
          thread_kept = refl;
          reading_kept = refl;
          active_kept = refl;
          state_kept = refl;
          input_kept = refl;
          queue_kept = refl;
        })
        (same-IsQuiet c)))

unwatched-IsQuiet :
    (c : TcpConnection) → IsQuiet c (record c { channel = Channel.disable_writing c.channel })
unwatched-IsQuiet c = record {
  thread_kept = refl;
  reading_kept = refl;
  active_kept = refl;
  state_kept = refl;
  input_kept = refl;
  queue_kept = refl;
}

drained-Quiets : (thread : ℕ) (c : TcpConnection) → Quiets c (drained thread c)
drained-Quiets thread c =
    let c' = record c { channel = Channel.disable_writing c.channel } in
    let q : IsQuiet c
        (if c.has_write_complete then queue_in_loop write_complete_functor c' else c') =
      if-IsQuiet c.has_write_complete
        (IsQuiet-trans (unwatched-IsQuiet c) (queue_in_loop-IsQuiet write_complete_functor c' refl))
        (unwatched-IsQuiet c) in
    if-Quiets (is_disconnecting c.state) c (after-Quiets q (shutdown_in_loop-Quiets thread _))
      (ok-Quiets c _ q)

write_some-Quiets : (thread n : ℕ) (c : TcpConnection) → Quiets c (write_some thread n c)
unfolding write_some
write_some-Quiets thread n c c' h =
    let (bytes, _, h₁) = >>=-eq-ok (Buffer.peek_all c.output_buffer) _ h in
    let (output, _, h₂) = >>=-eq-ok (Buffer.retrieve n c.output_buffer) _ h₁ in
    let d = record (written n bytes c) { output_buffer = output } in
    let q : IsQuiet c d = IsQuiet-trans (written-IsQuiet n bytes c) (buffered-IsQuiet output _) in
    after-Quiets q
      (if-Quiets (Buffer.readable_bytes output == 0) d (drained-Quiets thread d)
        (ok-Quiets d d (same-IsQuiet d)))
      c' h₂

write_output-Quiets :
    (thread : ℕ) (reply : WriteReply) (c : TcpConnection) → Quiets c (write_output thread reply c)
unfolding write_output
write_output-Quiets thread (wrote n) c =
    if-Quiets (ltb 0 n) c (write_some-Quiets thread n c) (ok-Quiets c c (same-IsQuiet c))
write_output-Quiets thread (write_failed e) c = ok-Quiets c c (same-IsQuiet c)

pub handle_write-Quiets :
    (thread : ℕ) (reply : WriteReply) (c : TcpConnection) → Quiets c (handle_write thread reply c)
unfolding handle_write
handle_write-Quiets thread reply c = >>-Quiets (ensure (in_loop_thread thread c) fatal) c (
    if-Quiets c.channel.writing c (write_output-Quiets thread reply c)
      (ok-Quiets c c (same-IsQuiet c)))
