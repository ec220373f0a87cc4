-- ===== src/Connector/History.antt =====
-- The life of a connector of Connector.cc: calls from any thread, timers, functors and events of its
-- channel in any order, with any answers of the kernel.
use simplev.Prelude.{
  ℕ, ◌≡◌, refl, sym, ap, subst, ◌∙◌, Bool, true, false, List, [], ◌∷◌, ◌++◌, arith, Result, ok,
  Fault, assertion, fatal, ensure, ◌>>◌, ◌==◌, if◌then◌else◌, Option-cases, ◌⊎◌, inl, inr,
}
use simplev.Connector.{
  Connector, init_retry_delay_ms, State, disconnected, connecting, connected, is_connecting,
  is_disconnected, Errno, Functor, start_functor, stop_functor, verdict, connecting_socket, connect,
  close, retry, start, restart, start_in_loop, handle_write, stop,
}
use simplev.Connector.Sockets.{
  IsTidy, waits, rests, Ends, Balanced, resets, resets-++, lingering, watching,
  connecting_socket-watching, Verdict-cases, with_socket, create-Balanced, close-Balanced,
  retry-rests,
}
use simplev.Connector.Events.{handle_write-IsTidy}

-- What holds after a run that does not fail.
abbrev pub Keeps : Result Connector → Type 0
Keeps m = (c' : Connector) → m ≡ ok c' → IsTidy c'

pub ok-injective : {c c' : Connector} → ◌≡◌ {A = Result Connector} (ok c) (ok c') → c ≡ c'
ok-injective h = cc

ok-Keeps : (c : Connector) → IsTidy c → Keeps (ok c)
ok-Keeps c tidy c' h = subst IsTidy (ok-injective h) tidy

pub Ends-Keeps : (m : Result Connector) → Ends m IsTidy → Keeps m
Ends-Keeps m (c, run, tidy) c' h = subst IsTidy (ok-injective (sym run ∙ h)) tidy

ensure-Keeps : (b : Bool) (f : Fault) {m : Result Connector} → Keeps m → Keeps (ensure b f >> m)
ensure-Keeps true f m = m
ensure-Keeps false f m = λ c' h. cc

if-Keeps : (b : Bool) {m n : Result Connector} → Keeps m → Keeps n → Keeps (if b then m else n)
if-Keeps true m n = m
if-Keeps false m n = n

connecting_socket-Keeps :
    (sockfd : ℕ) (c : Connector)
    → resets c.queued ≡ lingering c.channel
    → Balanced (sockfd ∷ []) c
    → Keeps (connecting_socket sockfd c)
unfolding connecting_socket
connecting_socket-Keeps sockfd c left b = elim (Option-cases c.channel) [
  | inl free ↦ Ends-Keeps (connecting_socket sockfd c) (
    watching sockfd c,
    connecting_socket-watching sockfd c free,
    waits _ refl refl refl (left ∙ ap lingering free) b,
  )
  | inr (_, has) ↦ rw has (λ c' h. cc)
]

connect-Keeps :
    (sockfd : ℕ) (errno : Errno) (c : Connector)
    → is_connecting c.state ≡ false
    → resets c.queued ≡ lingering c.channel
    → Balanced [] c
    → Keeps (connect sockfd errno c)
unfolding connect
connect-Keeps sockfd errno c out left b =
    let c₁ = with_socket sockfd c in
    let b' = create-Balanced sockfd c b in
    elim (Verdict-cases (verdict errno)) [
      | inl e ↦ rw e (connecting_socket-Keeps sockfd c₁ left b')
      | inr (inl e) ↦ rw e (ok-Keeps (retry sockfd c₁) (retry-rests sockfd c₁ left b'))
      | inr (inr e) ↦
          rw e (ok-Keeps (close sockfd c₁) (rests out left (close-Balanced sockfd c₁ b')))
    ]

pub start_in_loop-Keeps :
    (thread sockfd : ℕ) (errno : Errno) (c : Connector)
    → IsTidy c
    → Keeps (start_in_loop thread sockfd errno c)
unfolding start_in_loop
start_in_loop-Keeps thread sockfd errno c (waits ch up _ _ _ _) =
    let busy : is_disconnected c.state ≡ false = ap is_disconnected up in
    ensure-Keeps (c.loop_thread == thread) fatal (rw busy (λ c' h. cc))
start_in_loop-Keeps thread sockfd errno c (rests out left b) =
    ensure-Keeps (c.loop_thread == thread) fatal (
      ensure-Keeps (is_disconnected c.state) assertion (
        if-Keeps c.connect (connect-Keeps sockfd errno c out left b)
          (ok-Keeps c (rests out left b))))

-- What only sets `connect_` keeps the account.
set_connect : (connect : Bool) (c : Connector) → IsTidy c → IsTidy (record c { connect = connect })
set_connect connect c (waits ch up has in_loop none_yet b) = waits ch up has in_loop none_yet b
set_connect connect c (rests out left b) = rests out left b

-- So does queueing a functor that does not delete the channel, and taking one out.
pub set_queued :
    (fs : List Functor) (c : Connector)
    → resets fs ≡ resets c.queued
    → IsTidy c
    → IsTidy (record c { queued = fs })
set_queued fs c e (waits ch up has in_loop none_yet b) = waits ch up has in_loop (e ∙ none_yet) b
set_queued fs c e (rests out left b) = rests out (e ∙ left) b

pub start-Keeps :
    (thread sockfd : ℕ) (errno : Errno) (c : Connector)
    → IsTidy c
    → Keeps (start thread sockfd errno c)
unfolding start
start-Keeps thread sockfd errno c tidy =
    let c₁ = record c { connect = true } in
    let e = resets-++ c.queued (start_functor ∷ []) in
    if-Keeps (c.loop_thread == thread)
      (start_in_loop-Keeps thread sockfd errno c₁ (set_connect true c tidy))
      (ok-Keeps (record c₁ { queued = c.queued ++ start_functor ∷ [] })
        (set_queued _ c₁ (omega (arith, e)) (set_connect true c tidy)))

pub restart-Keeps :
    (thread sockfd : ℕ) (errno : Errno) (c : Connector)
    → is_connecting c.state ≡ false
    → IsTidy c
    → Keeps (restart thread sockfd errno c)
unfolding restart
restart-Keeps thread sockfd errno c out (waits ch up _ _ _ _) = cc
restart-Keeps thread sockfd errno c out (rests _ left b) =
    ensure-Keeps (c.loop_thread == thread) fatal (
      start_in_loop-Keeps thread sockfd errno
        (record c { state = disconnected; retry_delay_ms = init_retry_delay_ms; connect = true })
        (rests refl left b))

pub stop-IsTidy : (c : Connector) → IsTidy c → IsTidy (stop c)
unfolding stop
stop-IsTidy c tidy =
    let c₁ = record c { connect = false } in
    let e = resets-++ c.queued (stop_functor ∷ []) in
    unset_timer _
      (set_queued (c.queued ++ stop_functor ∷ []) c₁ (omega (arith, e)) (set_connect false c tidy))
  where
    unset_timer : (d : Connector) → IsTidy d → IsTidy (record d { has_timer = false })
    unset_timer d (waits ch up has in_loop none_yet b) = waits ch up has in_loop none_yet b
    unset_timer d (rests out left b) = rests out left b

pub handle_write-Keeps :
    (error self : Bool) (c : Connector) → IsTidy c → Keeps (handle_write c.loop_thread error self c)
unfolding handle_write
handle_write-Keeps error self c tidy = elim (State-cases c.state) [
  | inl early ↦
      Ends-Keeps (handle_write c.loop_thread error self c)
        (handle_write-IsTidy c.loop_thread error self c tidy refl early)
  | inr up ↦ late up
]
  where
    State-cases : (s : State) → (s ≡ connected → ⊥) ⊎ (s ≡ connected)
    State-cases connected = inr refl
    State-cases connecting = inl (λ h. cc)
    State-cases disconnected = inl (λ h. cc)

    late : c.state ≡ connected → Keeps (handle_write c.loop_thread error self c)
    late up =
        let out : is_connecting c.state ≡ false = ap is_connecting up in
        let busy : is_disconnected c.state ≡ false = ap is_disconnected up in
        rw out (rw busy (λ c' h. cc))
