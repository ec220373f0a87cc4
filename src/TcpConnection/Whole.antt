-- ===== src/TcpConnection/Whole.antt =====
-- `shutdown` and `handleWrite` of TcpConnection.cc in the phases of a connection.
use simplev.Prelude.{
  ℕ, ◌≡◌, refl, sym, ap, subst, ◌∙◌, inl, inr, Bool, true, false, ◌||◌, length, arith, Result, ok,
  if◌then◌else◌, Bool-cases,
}
use simplev.Buffer
use simplev.Buffer.{Buffer, ReadReply, received, failed, max_size}
use simplev.Buffer.Contents.{contents, readable_bytes-contents}
use simplev.TcpConnection.{
  TcpConnection, disconnecting, shutdown_functor, WriteReply, queue_in_loop, shutdown,
  shutdown_in_loop, is_connected, is_disconnecting, in_loop_thread, handle_write,
}
use simplev.TcpConnection.Inv.{Takes}
use simplev.TcpConnection.Flushing.{handle_write_lem}
use simplev.TcpConnection.Quiet.{shutdown_in_loop-Quiets, handle_write-Quiets}
use simplev.TcpConnection.Phases.{IsWhole, Keeps, Goes, quiet-Goes}
use simplev.TcpConnection.Sends.{same-Goes, queued-Goes}

half_closed :
    (thread : ℕ) (c : TcpConnection)
    → c.channel.loop_thread ≡ thread
    → (c' : TcpConnection) × (shutdown_in_loop thread c ≡ ok c')
      × (c'.output_buffer ≡ c.output_buffer)
unfolding shutdown_in_loop
half_closed thread c at = elim (Bool-cases c.channel.writing) [
  | inl busy ↦ (c, ground (arith, at, busy), refl)
  | inr idle ↦
      (record c { socket = record c.socket { shut_down = true } }, ground (arith, at, idle), refl)
]

pub shutdown_in_loop-Goes :
    (thread : ℕ) (c : TcpConnection) → IsWhole thread c → Goes thread c (shutdown_in_loop thread c)
shutdown_in_loop-Goes thread c w =
    let (c', ran, out) = half_closed thread c w.at in
    quiet-Goes thread c c' w (shutdown_in_loop-Quiets thread c) ran
      (subst Buffer.Contents.IsValid (sym out) w.output)

-- The connection that `shutdown` leaves.
abbrev leaving : TcpConnection → TcpConnection
leaving c = record c { state = disconnecting }

leaving-Keeps : (c : TcpConnection) → is_connected c.state ≡ true → Keeps c (leaving c)
leaving-Keeps c up = record {
  thread_kept = refl;
  reading_kept = refl;
  active_kept = refl;
  up_kept = sym (ap (λ b. b || is_disconnecting c.state) up);
  down_kept = λ e. absurd (contradicts (sym up ∙ ap is_connected e));
  queue_kept = refl;
}
  where
    contradicts : true ≡ false → ⊥
    contradicts e = cc

pub Keeps-trans : {c d e : TcpConnection} → Keeps c d → Keeps d e → Keeps c e
Keeps-trans p q = record {
  thread_kept = q.thread_kept ∙ p.thread_kept;
  reading_kept = q.reading_kept ∙ p.reading_kept;
  active_kept = q.active_kept ∙ p.active_kept;
  up_kept = q.up_kept ∙ p.up_kept;
  down_kept = λ e. q.down_kept (p.down_kept e);
  queue_kept = q.queue_kept ∙ p.queue_kept;
}

after-Goes :
    {thread : ℕ} {c d : TcpConnection} {run : Result TcpConnection}
    → Keeps c d
    → Goes thread d run
    → Goes thread c run
after-Goes k (c', ran, (w, k')) = (c', ran, (w, Keeps-trans k k'))

shutdown_up :
    (caller : ℕ) (c : TcpConnection)
    → is_connected c.state ≡ true
    → shutdown caller c ≡ (
        if in_loop_thread caller c
        then shutdown_in_loop caller (leaving c)
        else ok (queue_in_loop shutdown_functor (leaving c)))
unfolding shutdown
shutdown_up caller c up =
    ap
      (λ b.
        if b
        then (if in_loop_thread caller c
            then shutdown_in_loop caller (leaving c)
            else ok (queue_in_loop shutdown_functor (leaving c)))
        else ok c)
      up

shutdown_down :
    (caller : ℕ) (c : TcpConnection) → is_connected c.state ≡ false → shutdown caller c ≡ ok c
unfolding shutdown
shutdown_down caller c down = rw down refl

if-Goes :
    (b : Bool) {thread : ℕ} {c : TcpConnection} {m n : Result TcpConnection}
    → (b ≡ true → Goes thread c m)
    → (b ≡ false → Goes thread c n)
    → Goes thread c (if b then m else n)
if-Goes true m n = m refl
if-Goes false m n = n refl

pub shutdown-Goes :
    (thread caller : ℕ) (c : TcpConnection) → IsWhole thread c → Goes thread c (shutdown caller c)
shutdown-Goes thread caller c w = elim (Bool-cases (is_connected c.state)) [
  | inr down ↦ rw (shutdown_down caller c down) (same-Goes thread c w)
  | inl up ↦
      let w' : IsWhole thread (leaving c) = record {
        at = w.at;
        input = w.input;
        output = w.output;
      } in
      let k = leaving-Keeps c up in
      rw (shutdown_up caller c up) (
        if-Goes (in_loop_thread caller c)
          (λ near.
            let same_thread : thread ≡ caller = ground (arith, w.at, near) in
            after-Goes k (
              subst (λ t. Goes thread (leaving c) (shutdown_in_loop t (leaving c))) same_thread
                (shutdown_in_loop-Goes thread (leaving c) w')))
          (λ away. after-Goes k (queued-Goes thread shutdown_functor (leaving c) refl w')))
]

handle_write_idle :
    (thread : ℕ) (reply : WriteReply) (c : TcpConnection)
    → c.channel.loop_thread ≡ thread
    → c.channel.writing ≡ false
    → handle_write thread reply c ≡ ok c
unfolding handle_write
handle_write_idle thread reply c at idle = ground (arith, at, idle)

pub handle_write-Goes :
    (thread : ℕ) (reply : WriteReply) (c : TcpConnection)
    → IsWhole thread c
    → Takes reply (length (contents c.output_buffer))
    → Goes thread c (handle_write thread reply c)
handle_write-Goes thread reply c w takes = elim (Bool-cases c.channel.writing) [
  | inr idle ↦ rw (handle_write_idle thread reply c w.at idle) (same-Goes thread c w)
  | inl busy ↦
      let (c', ran, f) =
        handle_write_lem thread reply c
          (record { input = w.input; output = w.output; idle = λ e. cc }) w.at takes in
      quiet-Goes thread c c' w (handle_write-Quiets thread reply c) ran f.sound.output
]
