-- ===== src/TcpConnection/Sends.antt =====
-- `send` of TcpConnection.cc in the phases of a connection, also behind the end of input.
use simplev.Prelude.{
  ℕ, ◌≡◌, refl, sym, ap, subst, ◌∙◌, ◌⊎◌, inl, inr, true, false, not, ◌&&◌, List, [], ◌∷◌, length,
  arith, Result, ok, if◌then◌else◌, ◌==◌, Bool-cases, nil_of_length, ltb, leb, add_size,
}
use simplev.Channel
use simplev.Buffer
use simplev.Buffer.{Buffer, ReadReply, received, failed, max_size}
use simplev.Buffer.Contents.{contents, readable_bytes-contents}
use simplev.TcpConnection.{
  TcpConnection, Functor, send_functor, WriteReply, queue_in_loop, keep_rest, send, send_in_loop,
  is_connected, in_loop_thread,
}
use simplev.TcpConnection.Sending.{Sent, IsDropped, send_in_loop_lem}
use simplev.TcpConnection.Quiet.{destroys, same-IsQuiet, queue_in_loop-IsQuiet, send_in_loop-Quiets}
use simplev.TcpConnection.Served.{FitsMessage}
use simplev.TcpConnection.Phases.{IsWhole, IsQuiet-Keeps, Goes, quiet-Goes}

-- With a channel that does not write, bytes may wait after the end of input only. Then `sendInLoop` does
-- what it does with a channel that writes.
abbrev watching : TcpConnection → TcpConnection
watching c = record c { channel = Channel.enable_writing c.channel }

keep_rest-watching :
    (remaining : ℕ) (message : List ℕ) (c : TcpConnection)
    → ltb 0 remaining ≡ true
    → c.channel.writing ≡ false
    → keep_rest 0 remaining false message c ≡ keep_rest 0 remaining false message (watching c)
unfolding keep_rest
keep_rest-watching remaining message c some_left idle =
    let old_len = Buffer.readable_bytes c.output_buffer in
    let full =
      leb c.high_water_mark (add_size old_len remaining)
      && (ltb old_len c.high_water_mark && c.has_high_water_mark) in
    elim (Bool-cases full) [
      | inl t ↦ rw (some_left, t, idle) refl
      | inr t ↦ rw (some_left, t, idle) refl
    ]

keep_rest_none :
    (message : List ℕ) (c : TcpConnection)
    → ltb 0 (length message) ≡ false
    → keep_rest 0 (length message) false message c ≡ ok c
unfolding keep_rest
keep_rest_none message c none_left = rw none_left refl

send_in_loop_later :
    (thread : ℕ) (reply : WriteReply) (message : List ℕ) (c : TcpConnection)
    → c.channel.loop_thread ≡ thread
    → (not c.channel.writing && Buffer.readable_bytes c.output_buffer == 0) ≡ false
    → send_in_loop thread reply message c ≡ keep_rest 0 (length message) false message c
unfolding send_in_loop
send_in_loop_later thread reply message c at later =
    let here_ : (c.channel.loop_thread == thread) ≡ true = ground (arith, at) in
    rw (here_, later) refl

Sent-output :
    (reply : WriteReply) (message : List ℕ) (c c' : TcpConnection)
    → Buffer.Contents.IsValid c.output_buffer
    → (Sent c message c' ⊎ (IsDropped reply c × (c' ≡ c)))
    → Buffer.Contents.IsValid c'.output_buffer
Sent-output reply message c c' v (inl s) = s.sound.output
Sent-output reply message c c' v (inr (_, e)) =
    subst (λ (d : TcpConnection). Buffer.Contents.IsValid d.output_buffer) (sym e) v

-- A connection that is idle with nothing to write, or that writes.
settled-Goes :
    (thread : ℕ) (reply : WriteReply) (message : List ℕ) (c : TcpConnection)
    → IsWhole thread c
    → (c.channel.writing ≡ false → contents c.output_buffer ≡ [])
    → FitsMessage reply message c
    → (c' : TcpConnection) × (send_in_loop thread reply message c ≡ ok c')
      × Buffer.Contents.IsValid c'.output_buffer
settled-Goes thread reply message c w idle fits =
    let (c', ran, how) =
      send_in_loop_lem thread reply message c
        (record { input = w.input; output = w.output; idle = idle }) w.at fits.0 fits.1 in
    (c', ran, Sent-output reply message c c' w.output how)

-- One that closed with bytes left.
left_over-Goes :
    (thread : ℕ) (reply : WriteReply) (message : List ℕ) (c : TcpConnection)
    → IsWhole thread c
    → c.channel.writing ≡ false
    → (Buffer.readable_bytes c.output_buffer == 0) ≡ false
    → FitsMessage reply message c
    → (c' : TcpConnection) × (send_in_loop thread reply message c ≡ ok c')
      × Buffer.Contents.IsValid c'.output_buffer
left_over-Goes thread reply message c w idle some_ fits =
    let later = send_in_loop_later thread reply message c w.at (ground (arith, idle, some_)) in
    elim (Bool-cases (ltb 0 (length message))) [
      | inr none_left ↦ (c, later ∙ keep_rest_none message c none_left, w.output)
      | inl some_left ↦
          let (c', ran, v) =
            settled-Goes thread reply message (watching c)
              (record { at = w.at; input = w.input; output = w.output }) (λ e. cc) fits in
          (
            c',
            later
                ∙ (keep_rest-watching (length message) message c some_left idle
                    ∙ (sym (send_in_loop_later thread reply message (watching c) w.at refl) ∙ ran)),
            v,
          )
    ]

pub send_in_loop-Goes :
    (thread : ℕ) (reply : WriteReply) (message : List ℕ) (c : TcpConnection)
    → IsWhole thread c
    → FitsMessage reply message c
    → Goes thread c (send_in_loop thread reply message c)
send_in_loop-Goes thread reply message c w fits =
    let finish : ((c' : TcpConnection) × (send_in_loop thread reply message c ≡ ok c')
          × Buffer.Contents.IsValid c'.output_buffer)
        → Goes thread c (send_in_loop thread reply message c) =
      λ (c', ran, v). quiet-Goes thread c c' w (send_in_loop-Quiets thread reply message c) ran v in
    elim (Bool-cases c.channel.writing) [
      | inl busy ↦ finish (settled-Goes thread reply message c w (λ e. cc) fits)
      | inr idle ↦ elim (Bool-cases (Buffer.readable_bytes c.output_buffer == 0)) [
        | inl empty ↦ finish (
            settled-Goes thread reply message c w
              (λ _.
                nil_of_length (contents c.output_buffer)
                  (ground (arith, readable_bytes-contents w.output)))
              fits)
        | inr some_ ↦ finish (left_over-Goes thread reply message c w idle some_ fits)
      ]
    ]

pub same-Goes : (thread : ℕ) (c : TcpConnection) → IsWhole thread c → Goes thread c (ok c)
same-Goes thread c w = (c, refl, (w, IsQuiet-Keeps (same-IsQuiet c)))

pub queued-Goes :
    (thread : ℕ) (f : Functor) (c : TcpConnection)
    → destroys (f ∷ []) ≡ 0
    → IsWhole thread c
    → Goes thread c (ok (queue_in_loop f c))
queued-Goes thread f c none_ w = (
  queue_in_loop f c,
  refl,
  (
    record { at = w.at; input = w.input; output = w.output },
    IsQuiet-Keeps (queue_in_loop-IsQuiet f c none_),
  ),
)

send_near :
    (caller : ℕ) (reply : WriteReply) (message : List ℕ) (c : TcpConnection)
    → is_connected c.state ≡ true
    → in_loop_thread caller c ≡ true
    → send caller reply message c ≡ send_in_loop caller reply message c
unfolding send
send_near caller reply message c up near =
    let now = send_in_loop caller reply message c in
    let later : Result TcpConnection = ok (queue_in_loop (send_functor message) c) in
    ap (λ b. if b then (if in_loop_thread caller c then now else later) else ok c) up
    ∙ ap (λ b. if b then now else later) near

send_away :
    (caller : ℕ) (reply : WriteReply) (message : List ℕ) (c : TcpConnection)
    → in_loop_thread caller c ≡ false
    → send caller reply message c
      ≡ (if is_connected c.state then ok (queue_in_loop (send_functor message) c) else ok c)
unfolding send
send_away caller reply message c away =
    let now = send_in_loop caller reply message c in
    let later : Result TcpConnection = ok (queue_in_loop (send_functor message) c) in
    ap (λ b. if is_connected c.state then (if b then now else later) else ok c) away

send_down :
    (caller : ℕ) (reply : WriteReply) (message : List ℕ) (c : TcpConnection)
    → is_connected c.state ≡ false
    → send caller reply message c ≡ ok c
unfolding send
send_down caller reply message c down = rw down refl

pub send-Goes :
    (thread caller : ℕ) (reply : WriteReply) (message : List ℕ) (c : TcpConnection)
    → IsWhole thread c
    → FitsMessage reply message c
    → Goes thread c (send caller reply message c)
send-Goes thread caller reply message c w fits = elim (Bool-cases (is_connected c.state)) [
  | inr down ↦ rw (send_down caller reply message c down) (same-Goes thread c w)
  | inl up ↦ elim (Bool-cases (in_loop_thread caller c)) [
    | inr away ↦
        rw (send_away caller reply message c away, up)
          (queued-Goes thread (send_functor message) c refl w)
    | inl near ↦
        let same_thread : thread ≡ caller = ground (arith, w.at, near) in
        rw (send_near caller reply message c up near) (
          subst (λ t. Goes thread c (send_in_loop t reply message c)) same_thread
            (send_in_loop-Goes thread reply message c w fits))
  ]
]
