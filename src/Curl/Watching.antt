-- ===== src/Curl/Watching.antt =====
-- The channel of a request of Curl.cc, and what libcurl wants to know of its descriptor.
use simplev.Prelude.{
  ℕ, ◌+◌, ◌≡◌, refl, sym, ap, subst, ◌∙◌, Bool, true, false, not, ◌&&◌, List, [], ◌∷◌, ◌++◌, Option,
  none, some, arith, Result, ok, assert, ◌>>=◌, ◌==◌,
}
use simplev.Channel
use simplev.Channel.{Channel}
use simplev.Curl.{
  Held, Request, init, destroy, no_events, set_channel, remove_channel, What, poll_none, poll_in,
  poll_out, poll_inout, poll_remove, wants_out, is_remove, update, socket_callback,
}

-- Calls of `socketCallback` for one descriptor, with the pointer that the last one left.
unfoldable pub run_callbacks :
    ℕ → ℕ → ℕ → List What → Request × Option ℕ → Result (Request × Option ℕ)
unfolding socket_callback
run_callbacks thread c fd [] r = ok r
run_callbacks thread c fd (w ∷ ws) r = do
  r' ← socket_callback thread c fd w r.1 r.0
  run_callbacks thread c fd ws r'

-- libcurl removes only descriptors that it told of since.
abbrev pub IsProper : What → List What → Type 0
IsProper last [] = Unit {0}
IsProper last (w ∷ ws) = (is_remove w ≡ true → is_remove last ≡ false) × IsProper w ws

abbrev pub last_of : What → List What → What
last_of last [] = last
last_of last (w ∷ ws) = last_of w ws

-- What the request watches after libcurl said `last`.
pub data Watches (thread : ℕ) (c : ℕ) (last : What) (r : Request) (socketp : Option ℕ)
    : Type 0 where
  unwatched :
      r.curl ≡ c
      → r.loop_thread ≡ thread
      → is_remove last ≡ true
      → r.channel ≡ none
      → socketp ≡ none
      → Watches thread c last r socketp
  watched :
      r.curl ≡ c
      → r.loop_thread ≡ thread
      → (held : Held) → is_remove last ≡ false
      → r.channel ≡ some held
      → socketp ≡ some held.address
      → held.channel.reading ≡ true
      → held.channel.writing ≡ wants_out last
      → held.channel.active ≡ true
      → held.channel.loop_thread ≡ thread
      → Watches thread c last r socketp

abbrev Ends : ℕ → ℕ → What → Result (Request × Option ℕ) → Type 0
Ends thread c w run = (r : Request × Option ℕ) × (run ≡ ok r) × Watches thread c w r.0 r.1

-- The request with a channel that watches for writing, or does not.
abbrev watching : Bool → Held → Request → Request
watching out held r = record r {
  channel = some (record held { channel = record held.channel { writing = out } });
}

update-watching :
    (out : Bool) (held : Held) (r : Request) → update out (some held) r ≡ ok (watching out held r)
update-watching true held r = refl
update-watching false held r = refl

abbrev new_held : ℕ → Request → Held
new_held fd r = record {
  address = r.next_address;
  channel = Channel.enable_reading (Channel.tie (Channel.init r.loop_thread fd));
}

-- A descriptor that libcurl has no pointer for gets a channel.
callback_new :
    (thread c fd : ℕ) (w : What) (r : Request)
    → r.curl ≡ c
    → is_remove w ≡ false
    → socket_callback thread c fd w none (record r { channel = none })
      ≡ ok (
        watching (wants_out w) (new_held fd r) (record r { next_address = 1 + r.next_address }),
        some r.next_address,
      )
unfolding socket_callback set_channel
callback_new thread c fd w r own more =
    let own_ : (r.curl == c) ≡ true = ground (arith, own) in
    let self : (r.next_address == r.next_address) ≡ true = ground arith in
    let set =
      update-watching (wants_out w) (new_held fd r)
        (record r { channel = some (new_held fd r); next_address = 1 + r.next_address }) in
    rw (own_, more, self) (ap (λ u. u >>= λ r₂. ok (r₂, some r.next_address)) set)

callback_again :
    (thread c fd : ℕ) (w : What) (held : Held) (r : Request)
    → r.curl ≡ c
    → is_remove w ≡ false
    → socket_callback thread c fd w (some held.address) (record r { channel = some held })
      ≡ ok (watching (wants_out w) held r, some held.address)
unfolding socket_callback
callback_again thread c fd w held r own more =
    let own_ : (r.curl == c) ≡ true = ground (arith, own) in
    let self : (held.address == held.address) ≡ true = ground arith in
    let set = update-watching (wants_out w) held (record r { channel = some held }) in
    rw (own_, more, self) (ap (λ u. u >>= λ r₂. ok (r₂, some held.address)) set)

-- The request without its channel, which the loop deletes.
abbrev unwatching : Held → Request → Request
unwatching held r = record r {
  channel = none;
  queued =
      r.queued
      ++ record held { channel = record (Channel.disable_all held.channel) { active = false } }
        ∷ [];
}

callback_remove :
    (thread c fd : ℕ) (held : Held) (r : Request)
    → r.curl ≡ c
    → held.channel.loop_thread ≡ thread
    → socket_callback thread c fd poll_remove (some held.address) (record r { channel = some held })
      ≡ ok (unwatching held r, none)
unfolding socket_callback remove_channel Channel.remove Channel.stop
callback_remove thread c fd held r own at =
    let own_ : (r.curl == c) ≡ true = ground (arith, own) in
    let at_ : (held.channel.loop_thread == thread) ≡ true = ground (arith, at) in
    let self : (held.address == held.address) ≡ true = ground arith in rw (own_, self, at_) refl

-- A request with its channel and libcurl's pointer as they were found.
at_channel :
    (thread c fd : ℕ) (w : What) (r : Request) (ch : Option Held) (p : Option ℕ)
    → r.channel ≡ ch
    → {socketp : Option ℕ} → socketp ≡ p
    → Ends thread c w (socket_callback thread c fd w p (record r { channel = ch }))
    → Ends thread c w (socket_callback thread c fd w socketp r)
at_channel thread c fd w r ch p has {socketp} known e =
    subst (λ o. Ends thread c w (socket_callback thread c fd w o r)) (sym known)
      (subst (λ o. Ends thread c w (socket_callback thread c fd w p (record r { channel = o })))
        (sym has) e)

-- A call with a descriptor that is not to be removed.
callback_more :
    (thread c fd : ℕ) (last w : What) (r : Request) (socketp : Option ℕ)
    → is_remove w ≡ false
    → Watches thread c last r socketp
    → Ends thread c w (socket_callback thread c fd w socketp r)
callback_more thread c fd last w r socketp more (unwatched own at _ free known) =
    at_channel thread c fd w r none none free known (
      _,
      callback_new thread c fd w r own more,
      watched own at
          (record (new_held fd r) {
            channel = record (new_held fd r).channel { writing = wants_out w };
          })
          more refl refl refl refl refl at,
    )
callback_more thread c fd last w r socketp more
      (watched own at held _ has known reads writes active at_) =
    at_channel thread c fd w r (some held) (some held.address) has known (
      _,
      callback_again thread c fd w held r own more,
      watched own at (record held { channel = record held.channel { writing = wants_out w } }) more
          refl refl reads refl active at_,
    )

callback_last :
    (thread c fd : ℕ) (last : What) (r : Request) (socketp : Option ℕ)
    → is_remove last ≡ false
    → Watches thread c last r socketp
    → Ends thread c poll_remove (socket_callback thread c fd poll_remove socketp r)
callback_last thread c fd last r socketp more (unwatched own at gone free known) = cc (more, gone)
callback_last thread c fd last r socketp more
      (watched own at held _ has known reads writes active at_) =
    at_channel thread c fd poll_remove r (some held) (some held.address) has known
      (_, callback_remove thread c fd held r own at_, unwatched own at refl refl refl)

callback_any :
    (thread c fd : ℕ) (last w : What) (r : Request) (socketp : Option ℕ)
    → (is_remove w ≡ true → is_remove last ≡ false)
    → Watches thread c last r socketp
    → Ends thread c w (socket_callback thread c fd w socketp r)
callback_any thread c fd last poll_none r socketp h =
    callback_more thread c fd last _ r socketp refl
callback_any thread c fd last poll_in r socketp h = callback_more thread c fd last _ r socketp refl
callback_any thread c fd last poll_out r socketp h = callback_more thread c fd last _ r socketp refl
callback_any thread c fd last poll_inout r socketp h =
    callback_more thread c fd last _ r socketp refl
callback_any thread c fd last poll_remove r socketp h =
    callback_last thread c fd last r socketp (h refl)

run-Watches :
    (thread c fd : ℕ) (last : What) (ws : List What) (r : Request × Option ℕ)
    → IsProper last ws
    → Watches thread c last r.0 r.1
    → Ends thread c (last_of last ws) (run_callbacks thread c fd ws r)
unfolding run_callbacks
run-Watches thread c fd last [] r proper watches = (r, refl, watches)
run-Watches thread c fd last (w ∷ ws) r proper watches =
    let (r₁, ran, watches₁) = callback_any thread c fd last w r.0 r.1 proper.0 watches in
    let (r₂, rest, watches₂) = run-Watches thread c fd w ws r₁ proper.1 watches₁ in
    (r₂, ap (λ u. u >>= run_callbacks thread c fd ws) ran ∙ rest, watches₂)

no_events-watched : (reading writing : Bool) → reading ≡ true → (not reading && not writing) ≡ false
no_events-watched true writing e = refl
no_events-watched false writing e = cc

destroy-Watches :
    (thread c : ℕ) (last : What) (r : Request) (socketp : Option ℕ)
    → Watches thread c last r socketp
    → destroy r ≡ assert (is_remove last)
unfolding destroy
destroy-Watches thread c last r socketp (unwatched own at gone free known) =
    rw gone (ap (λ ch. assert (no_events ch)) free)
destroy-Watches thread c last r socketp
      (watched own at held more has known reads writes active at_) =
    rw more (
      ap (λ ch. assert (no_events ch)) has
      ∙ ap assert (no_events-watched held.channel.reading held.channel.writing reads))

-- A new request and any calls of `socketCallback` for its descriptor in the loop's thread, in which a
-- removal follows a call that was none: no assertion fails. After a call that was no removal the
-- request has an active channel that reads, and that writes exactly if the call asked for it;
-- libcurl's pointer is to that channel, and the destructor of the request fails its assertion. After
-- a removal there is neither channel nor pointer, and the destructor may run.
pub run_callbacks_lem :
    (thread c fd : ℕ) (ws : List What)
    → IsProper poll_remove ws
    → (r : Request × Option ℕ) × (run_callbacks thread c fd ws (init thread c, none) ≡ ok r)
      × Watches thread c (last_of poll_remove ws) r.0 r.1
      × (destroy r.0 ≡ assert (is_remove (last_of poll_remove ws)))
run_callbacks_lem thread c fd ws proper =
    let (r, ran, watches) =
      run-Watches thread c fd poll_remove ws (init thread c, none) proper
        (unwatched refl refl refl refl refl) in
    (r, ran, watches, destroy-Watches thread c (last_of poll_remove ws) r.0 r.1 watches)
