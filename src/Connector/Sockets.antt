-- ===== src/Connector/Sockets.antt =====
-- Connector.cc: where each socket that a connector created is, the state of its channel, and what
-- the methods that change them keep.
use simplev.Prelude.{
  count, count-++, ℕ, ◌+◌, ◌≡◌, refl, sym, ap, ◌∙◌, Bool, true, false, List, [], ◌∷◌, ◌++◌, Option,
  none, some, arith, Result, ok, ◌==◌, if◌then◌else◌, Bool-cases, ◌⊎◌, inl, inr,
}
use simplev.Channel
use simplev.Channel.{Channel}
use simplev.Connector.{
  Connector, connecting, Functor, start_functor, stop_functor, reset_functor, is_connecting, Errno,
  retry, close, connecting_socket, connect, established, verdict, Verdict, go_on, try_again,
  give_up, remove_and_reset_channel,
}

-- How many deletions of the channel wait in the loop.
abbrev pub resets : List Functor → ℕ
resets [] = 0
resets (start_functor ∷ fs) = resets fs
resets (stop_functor ∷ fs) = resets fs
resets (reset_functor ∷ fs) = 1 + resets fs

pub resets-++ : (fs gs : List Functor) → resets (fs ++ gs) ≡ resets fs + resets gs
resets-++ [] gs = omega arith
resets-++ (start_functor ∷ fs) gs = resets-++ fs gs
resets-++ (stop_functor ∷ fs) gs = resets-++ fs gs
resets-++ (reset_functor ∷ fs) gs = let ih = resets-++ fs gs in omega (arith, ih)

-- Every socket created is held by the connector, closed, or handed on, exactly once.
abbrev pub Balanced : List ℕ → Connector → Type 0
Balanced holding c =
    (fd : ℕ) → count fd c.created ≡ count fd holding + (count fd c.closed + count fd c.handed)

-- A channel that was not deleted yet.
abbrev pub lingering : Option Channel → ℕ
lingering none = 0
lingering (some _) = 1

-- A connector either waits for its channel's socket, which it holds, or holds no socket, and then the
-- deletion of a channel that it still has is queued, once.
pub data IsTidy (c : Connector) : Type 0 where
  waits :
      (channel : Channel)
      → c.state ≡ connecting
      → c.channel ≡ some channel
      → channel.loop_thread ≡ c.loop_thread
      → resets c.queued ≡ 0
      → Balanced (channel.fd ∷ []) c
      → IsTidy c
  rests :
      is_connecting c.state ≡ false
      → resets c.queued ≡ lingering c.channel
      → Balanced [] c
      → IsTidy c

-- A run that ends in a connector with the property `P`.
abbrev pub Ends : Result Connector → (Connector → Type 0) → Type 0
Ends m P = (c : Connector) × (m ≡ ok c) × P c

pub if-Ends :
    {P : Connector → Type 0} (b : Bool) {m n : Result Connector}
    → Ends m P
    → Ends n P
    → Ends (if b then m else n) P
if-Ends true m n = m
if-Ends false m n = n

pub close-Balanced :
    (sockfd : ℕ) (c : Connector) → Balanced (sockfd ∷ []) c → Balanced [] (close sockfd c)
close-Balanced sockfd c b fd =
    let e = count-++ fd c.closed (sockfd ∷ []) in let b' = b fd in omega (arith, e, b')

-- `retry` closes the socket and does not touch the channel, the queue or the other sockets.
pub retry-rests :
    (sockfd : ℕ) (c : Connector)
    → resets c.queued ≡ lingering c.channel
    → Balanced (sockfd ∷ []) c
    → IsTidy (retry sockfd c)
unfolding retry
retry-rests sockfd c left b = elim (Bool-cases c.connect) [
  | inl t ↦ rw t (rests refl left (close-Balanced sockfd c b))
  | inr t ↦ rw t (rests refl left (close-Balanced sockfd c b))
]

-- The connector once the socket is taken out of its channel, whose deletion is then queued.
abbrev pub taken : Channel → Connector → Connector
taken channel c = record c {
  channel = some (record channel { reading = false; writing = false; active = false });
  queued = c.queued ++ reset_functor ∷ [];
}

pub remove_and_reset_channel-taken :
    (thread : ℕ) (c : Connector) (channel : Channel)
    → c.channel ≡ some channel
    → channel.loop_thread ≡ thread
    → remove_and_reset_channel thread c ≡ ok (channel.fd, taken channel c)
unfolding remove_and_reset_channel Channel.remove Channel.stop
remove_and_reset_channel-taken thread c channel has at =
    let here_ : (channel.loop_thread == thread) ≡ true = ground arith in rw has (rw here_ refl)

taken-resets : (c : Connector) → resets c.queued ≡ 0 → resets (c.queued ++ reset_functor ∷ []) ≡ 1
taken-resets c none_yet =
    let e = resets-++ c.queued (reset_functor ∷ []) in omega (arith, e, none_yet)

-- Taking the socket out and trying again, as `handleError` and `stopInLoop` do.
pub retry-taken :
    (channel : Channel) (c : Connector)
    → resets c.queued ≡ 0
    → Balanced (channel.fd ∷ []) c
    → IsTidy (retry channel.fd (taken channel c))
retry-taken channel c none_yet b =
    retry-rests channel.fd (taken channel c) (taken-resets c none_yet) b

-- What `newConnectionCallback_` is given is no longer the connector's.
pub hand-Balanced :
    (sockfd : ℕ) (c : Connector)
    → Balanced (sockfd ∷ []) c
    → Balanced [] (record c { handed = c.handed ++ sockfd ∷ [] })
hand-Balanced sockfd c b fd =
    let e = count-++ fd c.handed (sockfd ∷ []) in let b' = b fd in omega (arith, e, b')

-- The connector with a new socket.
abbrev pub with_socket : ℕ → Connector → Connector
with_socket sockfd c = record c { created = c.created ++ sockfd ∷ [] }

pub create-Balanced :
    (sockfd : ℕ) (c : Connector) → Balanced [] c → Balanced (sockfd ∷ []) (with_socket sockfd c)
create-Balanced sockfd c b fd =
    let e = count-++ fd c.created (sockfd ∷ []) in let b' = b fd in omega (arith, e, b')

pub established-IsTidy :
    (error self : Bool) (channel : Channel) (c : Connector)
    → resets c.queued ≡ 0
    → Balanced (channel.fd ∷ []) c
    → IsTidy (established error self (channel.fd, taken channel c))
established-IsTidy true self channel c none_yet b = retry-taken channel c none_yet b
established-IsTidy false true channel c none_yet b = retry-taken channel c none_yet b
established-IsTidy false false channel c none_yet b = elim (Bool-cases c.connect) [
  | inl t ↦ rw t (rests refl (taken-resets c none_yet) (hand-Balanced channel.fd c b))
  | inr t ↦ rw t (rests refl (taken-resets c none_yet) (close-Balanced channel.fd c b))
]

-- The channel on which `connecting` waits.
abbrev pub watching : ℕ → Connector → Connector
watching sockfd c = record c {
  state = connecting;
  channel = some (Channel.enable_writing (Channel.init c.loop_thread sockfd));
}

pub connecting_socket-watching :
    (sockfd : ℕ) (c : Connector)
    → c.channel ≡ none
    → connecting_socket sockfd c ≡ ok (watching sockfd c)
unfolding connecting_socket
connecting_socket-watching sockfd c free = rw free refl

pub Verdict-cases : (v : Verdict) → (v ≡ go_on) ⊎ ((v ≡ try_again) ⊎ (v ≡ give_up))
Verdict-cases go_on = inl refl
Verdict-cases try_again = inr (inl refl)
Verdict-cases give_up = inr (inr refl)

-- `connect` by a connector that holds nothing and has no channel.
pub connect-IsTidy :
    (sockfd : ℕ) (errno : Errno) (c : Connector)
    → is_connecting c.state ≡ false
    → resets c.queued ≡ 0
    → c.channel ≡ none
    → Balanced [] c
    → Ends (connect sockfd errno c) IsTidy
unfolding connect
connect-IsTidy sockfd errno c out none_yet free b =
    let b' = create-Balanced sockfd c b in
    let left : resets c.queued ≡ lingering c.channel = none_yet ∙ sym (ap lingering free) in
    elim (Verdict-cases (verdict errno)) [
      | inl e ↦ rw e (
        _,
        connecting_socket-watching sockfd (with_socket sockfd c) free,
        waits _ refl refl refl none_yet b',
      )
      | inr (inl e) ↦ rw e (_, refl, retry-rests sockfd (with_socket sockfd c) left b')
      | inr (inr e) ↦
          rw e (_, refl, rests out left (close-Balanced sockfd (with_socket sockfd c) b'))
    ]
