-- ===== src/Connector/Events.antt =====
-- The handlers and functors of Connector.cc in its loop's thread: each keeps the account of sockets,
-- whatever the kernel answers and in whatever state the connector is.
use simplev.Prelude.{ℕ, ◌≡◌, refl, ap, ◌∙◌, Bool, true, none, arith, ◌==◌}
use simplev.Connector.{
  Connector, disconnected, connected, is_connecting, is_disconnected, Errno, retry, start_in_loop,
  handle_write, handle_error, stop_in_loop, established,
}
use simplev.Connector.Sockets.{
  IsTidy, waits, rests, Ends, if-Ends, lingering, taken, remove_and_reset_channel-taken,
  retry-taken, established-IsTidy, connect-IsTidy,
}

-- `startInLoop` in the loop's thread, when the connector is idle and its last channel is deleted:
-- no assertion fails.
pub start_in_loop-IsTidy :
    (thread sockfd : ℕ) (errno : Errno) (c : Connector)
    → IsTidy c
    → c.loop_thread ≡ thread
    → c.state ≡ disconnected
    → c.channel ≡ none
    → Ends (start_in_loop thread sockfd errno c) IsTidy
unfolding start_in_loop
start_in_loop-IsTidy thread sockfd errno c (waits ch up _ _ _ _) at idle free = cc
start_in_loop-IsTidy thread sockfd errno c (rests out left b) at idle free =
    let here_ : (c.loop_thread == thread) ≡ true = ground arith in
    let is_idle : is_disconnected c.state ≡ true = ap is_disconnected idle in
    rw here_ (
      rw is_idle (
        if-Ends c.connect (connect-IsTidy sockfd errno c out (left ∙ ap lingering free) free b)
          (c, refl, rests out left b)))

-- `handleWrite` in the loop's thread, on a connector that is not connected and whose channel and sockets
-- are accounted for: whatever the socket's error and its peer, it ends without a fault and leaves them
-- accounted for.
pub handle_write-IsTidy :
    (thread : ℕ) (error self : Bool) (c : Connector)
    → IsTidy c
    → c.loop_thread ≡ thread
    → (c.state ≡ connected → ⊥)
    → Ends (handle_write thread error self c) IsTidy
unfolding handle_write
handle_write-IsTidy thread error self c (waits ch up has in_loop none_yet b) at early =
    let run = remove_and_reset_channel-taken thread c ch has (in_loop ∙ at) in
    let is_up : is_connecting c.state ≡ true = ap is_connecting up in
    rw is_up (
      rw run (
        established error self (ch.fd, taken ch c),
        refl,
        established-IsTidy error self ch c none_yet b,
      ))
handle_write-IsTidy thread error self c (rests out left b) at early =
    let is_idle : is_disconnected c.state ≡ true = ground arith in
    rw out (rw is_idle (c, refl, rests out left b))

pub handle_error-IsTidy :
    (thread : ℕ) (c : Connector)
    → IsTidy c
    → c.loop_thread ≡ thread
    → Ends (handle_error thread c) IsTidy
unfolding handle_error
handle_error-IsTidy thread c (waits ch up has in_loop none_yet b) at =
    let run = remove_and_reset_channel-taken thread c ch has (in_loop ∙ at) in
    let is_up : is_connecting c.state ≡ true = ap is_connecting up in
    rw is_up (rw run (retry ch.fd (taken ch c), refl, retry-taken ch c none_yet b))
handle_error-IsTidy thread c (rests out left b) at = rw out (c, refl, rests out left b)

pub stop_in_loop-IsTidy :
    (thread : ℕ) (c : Connector)
    → IsTidy c
    → c.loop_thread ≡ thread
    → Ends (stop_in_loop thread c) IsTidy
unfolding stop_in_loop
stop_in_loop-IsTidy thread c (waits ch up has in_loop none_yet b) at =
    let here_ : (c.loop_thread == thread) ≡ true = ground arith in
    let c₁ = record c { state = disconnected } in
    let run = remove_and_reset_channel-taken thread c₁ ch has (in_loop ∙ at) in
    let is_up : is_connecting c.state ≡ true = ap is_connecting up in
    rw here_ (rw is_up (rw run (retry ch.fd (taken ch c₁), refl, retry-taken ch c₁ none_yet b)))
stop_in_loop-IsTidy thread c (rests out left b) at =
    let here_ : (c.loop_thread == thread) ≡ true = ground arith in
    rw here_ (rw out (c, refl, rests out left b))
