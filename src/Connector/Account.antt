-- ===== src/Connector/Account.antt =====
-- Any life of a connector of Connector.cc: no socket is lost and none is closed twice.
use simplev.Prelude.{
  count, ℕ, ◌+◌, ◌≡◌, refl, sym, ap, subst, ◌∙◌, Bool, true, false, List, [], ◌∷◌, Option, none,
  some, arith, ok, if◌then◌else◌,
}
use simplev.Channel.{Channel}
use simplev.Connector.{
  Connector, is_connecting, Errno, Functor, start_functor, stop_functor, reset_functor, start,
  restart, start_in_loop, handle_write, handle_error, stop, stop_in_loop, reset_channel,
  run_functor, init,
}
use simplev.Connector.Sockets.{IsTidy, waits, rests, Balanced, resets, lingering}
use simplev.Connector.Events.{handle_error-IsTidy, stop_in_loop-IsTidy}
use simplev.Connector.History.{
  Keeps, Ends-Keeps, ok-injective, start_in_loop-Keeps, start-Keeps, restart-Keeps, stop-IsTidy,
  handle_write-Keeps, set_queued,
}

-- One step that does not fail: a call of `start` or `stop` in any thread, a call of `restart` while no
-- attempt is under way, a timer, the first queued functor, or an event of the channel.
pub data Step (c : Connector) : Connector → Type 0 where
  starts :
      {c' : Connector} (thread sockfd : ℕ) (errno : Errno)
      → start thread sockfd errno c ≡ ok c'
      → Step c c'
  stops : Step c (stop c)
  restarts :
      {c' : Connector} (sockfd : ℕ) (errno : Errno)
      → is_connecting c.state ≡ false
      → restart c.loop_thread sockfd errno c ≡ ok c'
      → Step c c'
  fires :
      {c' : Connector} (sockfd : ℕ) (errno : Errno)
      → start_in_loop c.loop_thread sockfd errno c ≡ ok c'
      → Step c c'
  runs :
      {c' : Connector} (sockfd : ℕ) (errno : Errno) (f : Functor) (rest : List Functor)
      → c.queued ≡ f ∷ rest
      → run_functor c.loop_thread sockfd errno f (record c { queued = rest }) ≡ ok c'
      → Step c c'
  writes :
      {c' : Connector} (error self : Bool)
      → handle_write c.loop_thread error self c ≡ ok c'
      → Step c c'
  errors : {c' : Connector} → handle_error c.loop_thread c ≡ ok c' → Step c c'

pub data Reach (c : Connector) : Connector → Type 0 where
  here : Reach c c
  next : {c' c'' : Connector} → Reach c c' → Step c' c'' → Reach c c''

-- The socket of an attempt that is under way.
abbrev pub descriptor : Option Channel → List ℕ
descriptor none = []
descriptor (some channel) = channel.fd ∷ []

abbrev pub held : Connector → List ℕ
held c = if is_connecting c.state then descriptor c.channel else []

reset_channel-IsTidy :
    (rest : List Functor) (c : Connector)
    → c.queued ≡ reset_functor ∷ rest
    → IsTidy c
    → IsTidy (reset_channel (record c { queued = rest }))
unfolding reset_channel
reset_channel-IsTidy rest c first (waits ch up has in_loop none_yet b) =
    absurd (let e = ap resets first in omega (arith, e, none_yet))
reset_channel-IsTidy rest c first (rests out left b) =
    rests out (lingering_last c.channel (sym (ap resets first) ∙ left)) b
  where
    lingering_last : (o : Option Channel) → 1 + resets rest ≡ lingering o → resets rest ≡ 0
    lingering_last none e = omega arith
    lingering_last (some _) e = omega arith

run_functor-Keeps :
    (sockfd : ℕ) (errno : Errno) (f : Functor) (rest : List Functor) (c : Connector)
    → c.queued ≡ f ∷ rest
    → IsTidy c
    → Keeps (run_functor c.loop_thread sockfd errno f (record c { queued = rest }))
unfolding run_functor
run_functor-Keeps sockfd errno start_functor rest c first tidy =
    start_in_loop-Keeps c.loop_thread sockfd errno (record c { queued = rest })
      (set_queued rest c (sym (ap resets first)) tidy)
run_functor-Keeps sockfd errno stop_functor rest c first tidy =
    let c₁ = record c { queued = rest } in
    Ends-Keeps (stop_in_loop c.loop_thread c₁)
      (stop_in_loop-IsTidy c.loop_thread c₁ (set_queued rest c (sym (ap resets first)) tidy) refl)
run_functor-Keeps sockfd errno reset_functor rest c first tidy =
    λ c' h. subst IsTidy (ok-injective h) (reset_channel-IsTidy rest c first tidy)

Step-IsTidy : {c c' : Connector} → IsTidy c → Step c c' → IsTidy c'
Step-IsTidy {c} {c'} tidy (starts thread sockfd errno e) =
    start-Keeps thread sockfd errno c tidy c' e
Step-IsTidy {c} tidy stops = stop-IsTidy c tidy
Step-IsTidy {c} {c'} tidy (restarts sockfd errno out e) =
    restart-Keeps c.loop_thread sockfd errno c out tidy c' e
Step-IsTidy {c} {c'} tidy (fires sockfd errno e) =
    start_in_loop-Keeps c.loop_thread sockfd errno c tidy c' e
Step-IsTidy {c} {c'} tidy (runs sockfd errno f rest first e) =
    run_functor-Keeps sockfd errno f rest c first tidy c' e
Step-IsTidy {c} {c'} tidy (writes error self e) = handle_write-Keeps error self c tidy c' e
Step-IsTidy {c} {c'} tidy (errors e) =
    Ends-Keeps (handle_error c.loop_thread c) (handle_error-IsTidy c.loop_thread c tidy refl) c' e

IsTidy-held : (c : Connector) → IsTidy c → Balanced (held c) c
IsTidy-held c (waits ch up has in_loop none_yet b) =
    let is_up : is_connecting c.state ≡ true = ap is_connecting up in
    let e : held c ≡ ch.fd ∷ [] =
      ap (λ (t : Bool). if t then descriptor c.channel else []) is_up ∙ ap descriptor has in
    subst (λ (h : List ℕ). Balanced h c) (sym e) b
IsTidy-held c (rests out left b) =
    let e : held c ≡ [] = ap (λ (t : Bool). if t then descriptor c.channel else []) out in
    subst (λ (h : List ℕ). Balanced h c) (sym e) b

Reach-keeps : {c c' : Connector} → IsTidy c → Reach c c' → IsTidy c'
Reach-keeps tidy here = tidy
Reach-keeps tidy (next r s) = Step-IsTidy (Reach-keeps tidy r) s

pub init-IsTidy : (thread : ℕ) → IsTidy (init thread)
unfolding init
init-IsTidy thread = rests refl refl (λ fd. refl)

-- Whatever happens to a new connector, in any order and with any answers of the kernel, where
-- `restart` is only called while no attempt is under way, as `TcpClient::removeConnection` does: a socket
-- descriptor was created as often as it is held by the attempt under way, was closed, and was handed to
-- `newConnectionCallback_` together. So a
-- socket that was created once is in exactly one of the three places.
pub Reach-Balanced :
    (thread : ℕ) {c : Connector}
    → Reach (init thread) c
    → (fd : ℕ) → count fd c.created ≡ count fd (held c) + (count fd c.closed + count fd c.handed)
Reach-Balanced thread {c} r = IsTidy-held c (Reach-keeps (init-IsTidy thread) r)
