-- ===== src/Connector/Handing.antt =====
-- When the connector of Connector.cc hands a socket over.
use simplev.Prelude.{
  ℕ, ◌≡◌, refl, ap, ◌∙◌, subst, Bool, true, false, [], ◌∷◌, ◌++◌, arith, Result, ok, ◌>>=◌, ◌⊎◌,
  inl, inr, >>=-eq-ok, ensure, assert, fatal, if◌then◌else◌, ◌==◌, some, none, Option, Bool-cases,
}
use simplev.Channel
use simplev.Channel.{Channel}
use simplev.Connector.{
  Connector, init_retry_delay_ms, State, disconnected, connecting, connected, is_connecting,
  is_disconnected, Errno, Functor, start_functor, stop_functor, reset_functor, verdict,
  connecting_socket, connect, close, retry, start, restart, start_in_loop, handle_write,
  handle_error, stop_in_loop, run_functor, reset_channel, connect_verdict, go_on, try_again,
  give_up, Verdict, remove_and_reset_channel, remove_channel, established, in_loop_thread, is_free,
  try_again_with,
}
use simplev.Connector.History.{ok-injective}

-- Nothing is handed over, and a connector that is connected stays so.
pub record IsQuiet (k k' : Connector) : Type 0 where
  pub kept : k'.handed ≡ k.handed
  pub stays : k.state ≡ connected → k'.state ≡ connected

pub record Hands (k k' : Connector) : Type 0 where
  pub sockfd : ℕ
  pub more : k'.handed ≡ k.handed ++ sockfd ∷ []
  pub before : k.state ≡ connecting
  pub after : k'.state ≡ connected

retry-handed : (sockfd : ℕ) (k : Connector) → (retry sockfd k).handed ≡ k.handed
unfolding retry
retry-handed sockfd k = ground arith

abbrev SameHanded : Connector → Result Connector → Type 0
SameHanded k run = (k' : Connector) → run ≡ ok k' → k'.handed ≡ k.handed

ok-SameHanded : (k d : Connector) → d.handed ≡ k.handed → SameHanded k (ok d)
ok-SameHanded k d e k' h = subst (λ (t : Connector). t.handed ≡ k.handed) (ok-injective h) e

connecting_socket-SameHanded :
    (sockfd : ℕ) (k : Connector) → SameHanded k (connecting_socket sockfd k)
unfolding connecting_socket
connecting_socket-SameHanded sockfd k k' h =
    let (_, _, e) = >>=-eq-ok (assert (is_free k.channel)) _ h in ok-SameHanded k _ refl k' e

connect_verdict-SameHanded :
    (v : Verdict) (sockfd : ℕ) (k : Connector) → SameHanded k (connect_verdict v sockfd k)
connect_verdict-SameHanded go_on sockfd k = connecting_socket-SameHanded sockfd k
connect_verdict-SameHanded try_again sockfd k = ok-SameHanded k _ (retry-handed sockfd k)
connect_verdict-SameHanded give_up sockfd k = ok-SameHanded k _ refl

connect-SameHanded :
    (sockfd : ℕ) (errno : Errno) (k : Connector) → SameHanded k (connect sockfd errno k)
unfolding connect
connect-SameHanded sockfd errno k = connect_verdict-SameHanded (verdict errno) sockfd _

if-SameHanded :
    (b : Bool) (k : Connector) {m n : Result Connector}
    → SameHanded k m
    → SameHanded k n
    → SameHanded k (if b then m else n)
if-SameHanded true k m n = m
if-SameHanded false k m n = n

abbrev pub Quiets : Connector → Result Connector → Type 0
Quiets k run = (k' : Connector) → run ≡ ok k' → IsQuiet k k'

pub ok-Quiets : (k d : Connector) → IsQuiet k d → Quiets k (ok d)
ok-Quiets k d q k' h = subst (IsQuiet k) (ok-injective h) q

pub start_in_loop-Quiets :
    (thread sockfd : ℕ) (errno : Errno) (k : Connector)
    → Quiets k (start_in_loop thread sockfd errno k)
unfolding start_in_loop
start_in_loop-Quiets thread sockfd errno k k' h =
    let (_, _, h₁) = >>=-eq-ok (ensure (k.loop_thread == thread) fatal) _ h in
    let (_, idle, h₂) = >>=-eq-ok (assert (is_disconnected k.state)) _ h₁ in
    record {
      kept =
          if-SameHanded k.connect k (connect-SameHanded sockfd errno k) (ok-SameHanded k k refl) k'
            h₂;
      stays = λ up. absurd (cc (idle, ap (λ s. assert (is_disconnected s)) up));
    }

pub start-Quiets :
    (thread sockfd : ℕ) (errno : Errno) (k : Connector) → Quiets k (start thread sockfd errno k)
unfolding start
start-Quiets thread sockfd errno k = by_thread (in_loop_thread thread k)
  where
    k₁ : Connector
    k₁ = record k { connect = true }

    by_thread :
        (own : Bool)
        → Quiets k (
            if own
            then start_in_loop thread sockfd errno k₁
            else ok (record k₁ { queued = k.queued ++ start_functor ∷ [] }))
    by_thread true k' h =
        let q = start_in_loop-Quiets thread sockfd errno k₁ k' h in
        record { kept = q.kept; stays = q.stays }
    by_thread false k' h = ok-Quiets k _ (record { kept = refl; stays = λ up. up }) k' h

pub restart-SameHanded :
    (thread sockfd : ℕ) (errno : Errno) (k : Connector)
    → SameHanded k (restart thread sockfd errno k)
unfolding restart
restart-SameHanded thread sockfd errno k k' h =
    let (_, _, h₁) = >>=-eq-ok (ensure (k.loop_thread == thread) fatal) _ h in
    (start_in_loop-Quiets thread sockfd errno
      (record k { state = disconnected; retry_delay_ms = init_retry_delay_ms; connect = true }) k'
      h₁).kept

-- Taking the channel away hands nothing over.
taken-injective : {r r' : ℕ × Connector} → ◌≡◌ {A = Result (ℕ × Connector)} (ok r) (ok r') → r ≡ r'
taken-injective h = cc

remove_channel-handed :
    (thread : ℕ) (channel : Option Channel) (k : Connector) (r : ℕ × Connector)
    → remove_channel thread channel k ≡ ok r
    → r.1.handed ≡ k.handed
remove_channel-handed thread none k r h = cc
remove_channel-handed thread (some channel) k r h =
    let (channel', _, e) = >>=-eq-ok (Channel.remove thread (Channel.disable_all channel)) _ h in
    subst (λ (t : ℕ × Connector). t.1.handed ≡ k.handed) (taken-injective e) refl

abbrev pub QuietOrHands : Connector → Connector → Type 0
QuietOrHands k k' = IsQuiet k k' ⊎ Hands k k'

is_connecting-connecting : (s : State) → is_connecting s ≡ true → s ≡ connecting
is_connecting-connecting connecting h = refl
is_connecting-connecting connected h = cc
is_connecting-connecting disconnected h = cc

-- A connector that is not connected is quiet if it hands nothing over.
trying : (k d : Connector) → k.state ≡ connecting → d.handed ≡ k.handed → IsQuiet k d
trying k d up e = record { kept = e; stays = λ h. cc }

established-QuietOrHands :
    (error self : Bool) (fd : ℕ) (k d : Connector)
    → k.state ≡ connecting
    → d.handed ≡ k.handed
    → QuietOrHands k (established error self (fd, d))
established-QuietOrHands true self fd k d up e = inl (trying k _ up (retry-handed fd d ∙ e))
established-QuietOrHands false true fd k d up e = inl (trying k _ up (retry-handed fd d ∙ e))
established-QuietOrHands false false fd k d up e = by_wish d.connect
  where
    by_wish :
        (b : Bool)
        → QuietOrHands k (
            if b
            then record d { state = connected; handed = d.handed ++ fd ∷ [] }
            else close fd (record d { state = connected }))
    by_wish true =
        inr (record { sockfd = fd; more = ap (λ t. t ++ fd ∷ []) e; before = up; after = refl })
    by_wish false = inl (trying k _ up e)

abbrev pub QuietsOrHands : Connector → Result Connector → Type 0
QuietsOrHands k run = (k' : Connector) → run ≡ ok k' → QuietOrHands k k'

pub handle_write-QuietsOrHands :
    (thread : ℕ) (error self : Bool) (k : Connector)
    → QuietsOrHands k (handle_write thread error self k)
unfolding handle_write remove_and_reset_channel
handle_write-QuietsOrHands thread error self k = elim (Bool-cases (is_connecting k.state)) [
  | inl up ↦ rw up (λ k' h.
      let (r, took, e) = >>=-eq-ok (remove_channel thread k.channel k) _ h in
      subst (QuietOrHands k) (ok-injective e) (
        established-QuietOrHands error self r.0 k r.1 (is_connecting-connecting k.state up)
          (remove_channel-handed thread k.channel k r took)))
  | inr out ↦ rw out (λ k' h.
      let (_, _, e) = >>=-eq-ok (assert (is_disconnected k.state)) _ h in
      subst (QuietOrHands k) (ok-injective e) (inl (record { kept = refl; stays = λ up. up })))
]

-- While connecting, to take the channel away and to try again.
give_up-Quiets :
    (thread : ℕ) (k d : Connector)
    → k.state ≡ connecting
    → d.handed ≡ k.handed
    → Quiets k (remove_channel thread d.channel d >>= λ r. ok (try_again_with r))
give_up-Quiets thread k d up same k' h =
    let (r, took, e) = >>=-eq-ok (remove_channel thread d.channel d) _ h in
    subst (IsQuiet k) (ok-injective e) (
      trying k _ up
        (retry-handed r.0 r.1 ∙ (remove_channel-handed thread d.channel d r took ∙ same)))

pub handle_error-Quiets : (thread : ℕ) (k : Connector) → Quiets k (handle_error thread k)
unfolding handle_error remove_and_reset_channel
handle_error-Quiets thread k = elim (Bool-cases (is_connecting k.state)) [
  | inl up ↦ rw up (give_up-Quiets thread k k (is_connecting-connecting k.state up) refl)
  | inr out ↦ rw out (ok-Quiets k k (record { kept = refl; stays = λ up. up }))
]

stop_in_loop-Quiets : (thread : ℕ) (k : Connector) → Quiets k (stop_in_loop thread k)
unfolding stop_in_loop remove_and_reset_channel
stop_in_loop-Quiets thread k k' h =
    let (_, _, h₁) = >>=-eq-ok (ensure (k.loop_thread == thread) fatal) _ h in by_state k' h₁
  where
    d : Connector
    d = record k { state = disconnected }

    by_state : Quiets k (
        if is_connecting k.state
        then (remove_channel thread d.channel d >>= λ r. ok (try_again_with r))
        else ok k)
    by_state = elim (Bool-cases (is_connecting k.state)) [
      | inl up ↦ rw up (give_up-Quiets thread k d (is_connecting-connecting k.state up) refl)
      | inr out ↦ rw out (ok-Quiets k k (record { kept = refl; stays = λ up. up }))
    ]

pub run_functor-Quiets :
    (thread sockfd : ℕ) (errno : Errno) (f : Functor) (k : Connector)
    → Quiets k (run_functor thread sockfd errno f k)
unfolding run_functor reset_channel
run_functor-Quiets thread sockfd errno start_functor k = start_in_loop-Quiets thread sockfd errno k
run_functor-Quiets thread sockfd errno stop_functor k = stop_in_loop-Quiets thread k
run_functor-Quiets thread sockfd errno reset_functor k =
    ok-Quiets k _ (record { kept = refl; stays = λ up. up })
