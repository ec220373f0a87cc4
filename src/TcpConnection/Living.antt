-- ===== src/TcpConnection/Living.antt =====
-- The life of a connection of TcpConnection.cc under its owner and its loop, one step after another.
use simplev.Prelude.{
  ℕ, ◌≡◌, refl, sym, subst, ◌∙◌, true, false, not, ◌&&◌, List, [], ◌∷◌, length, arith, Result, ok,
  if◌then◌else◌, ltb, inl, inr, Bool-cases,
}
use simplev.Channel
use simplev.Channel.{Channel}
use simplev.Buffer.{ReadReply, received, failed}
use simplev.TcpConnection.{
  TcpConnection, connected, disconnected, Functor, write_complete_functor, high_water_mark_functor,
  send_functor, shutdown_functor, destroy_functor, WriteReply, init, queue_in_loop,
  connect_established, handle_read, connect_destroyed,
}
use simplev.TcpConnection.Life.{ok-injective}
use simplev.TcpConnection.Inv.{init-IsSound}
use simplev.TcpConnection.Lifecycle.{
  is_up, handle_read_lem, connect_established_lem, connect_destroyed_lem,
}
use simplev.TcpConnection.Quiet.{destroys, destroys-++}
use simplev.TcpConnection.Served.{
  handlers_of, Act, sends, shuts, reads, writes, runs, run_functor, run_next, act, FitsRead,
  FitsNext, Fits, Reach, established, next,
}
use simplev.TcpConnection.Phases.{IsWhole, Phase, serving, closed, destroyed}
use simplev.TcpConnection.Sends.{same-Goes, send-Goes, send_in_loop-Goes}
use simplev.TcpConnection.Whole.{shutdown-Goes, shutdown_in_loop-Goes, handle_write-Goes}
use simplev.TcpConnection.Callbacks.{
  IsCallback, Lives, Goes-Lives, if-Lives, callback-Lives, filled-Phase, popped-Phase, requeued,
  Phase-active, Phase-destroys,
}

module _ (on_connection : TcpConnection → Result TcpConnection)
    (on_message : ℕ → TcpConnection → Result TcpConnection) where
  received-Lives :
      (thread now : ℕ) (xs : List ℕ) (c : TcpConnection)
      → IsCallback thread (on_message now)
      → IsWhole thread c
      → is_up c.state ≡ true
      → c.channel.active ≡ true
      → c.channel.reading ≡ true
      → destroys c.queued ≡ 0
      → FitsRead (received xs) c
      → Lives thread (handle_read (handlers_of on_connection on_message) thread (received xs) now c)
  received-Lives thread now xs c cb w up on read_ none_ fits =
      let ((input, v, _, ran), _) =
        handle_read_lem (handlers_of on_connection on_message) thread now c w.at up w.input xs 0
          fits.0 fits.1 in
      elim (Bool-cases (ltb 0 (length xs))) [
        | inl some_ ↦
            let (c', run, lives) =
              callback-Lives (record c { input_buffer = input }) cb
                (record { at = w.at; input = v; output = w.output })
                (filled-Phase c input (serving up on read_ none_)) in
            (c', ran ∙ (rw some_ run), lives)
        | inr end ↦ (
          queue_in_loop destroy_functor
              (record c { input_buffer = input; channel = Channel.disable_all c.channel }),
          ran ∙ (rw end refl),
          (
            record { at = w.at; input = v; output = w.output },
            closed up on refl (omega (arith, destroys-++ c.queued (destroy_functor ∷ []), none_)),
          ),
        )
      ]

  -- `connectDestroyed` of a connection that closed, behind its functor.
  connect_destroyed-Lives :
      (thread : ℕ) (c : TcpConnection)
      → IsCallback thread on_connection
      → IsWhole thread c
      → is_up c.state ≡ true
      → destroys c.queued ≡ 0
      → Lives thread (connect_destroyed (handlers_of on_connection on_message) thread c)
  connect_destroyed-Lives thread c cb w up none_ =
      let d = record c { state = disconnected; channel = Channel.disable_all c.channel } in
      let (c', ran, w', k, still) =
        cb d (record { at = w.at; input = w.input; output = w.output }) in
      let same_channel : c'.channel ≡ Channel.disable_all c.channel = still refl in
      (
        record c' { channel = record (Channel.disable_all c.channel) { active = false } },
        (connect_destroyed_lem (handlers_of on_connection on_message) thread c c' w.at up ran
            (k.down_kept refl) same_channel).0,
        (
          record { at = w.at; input = w'.input; output = w'.output },
          destroyed (k.down_kept refl) refl refl (k.queue_kept ∙ none_),
        ),
      )

  -- The next functor, off the queue.
  run_functor-Lives :
      (thread : ℕ) (reply : WriteReply) (f : Functor) (fs : List Functor) (c : TcpConnection)
      → IsCallback thread on_connection
      → IsWhole thread (record c { queued = fs })
      → Phase (record c { queued = f ∷ fs })
      → FitsNext reply (f ∷ fs) c
      → Lives thread (
          run_functor
            (handlers_of on_connection on_message)
            thread
            reply
            f
            (record c { queued = fs }))
  unfolding run_functor
  run_functor-Lives thread reply write_complete_functor fs c cb w p fits =
      Goes-Lives (popped-Phase write_complete_functor fs c refl p) (same-Goes thread _ w)
  run_functor-Lives thread reply (high_water_mark_functor size) fs c cb w p fits =
      Goes-Lives (popped-Phase (high_water_mark_functor size) fs c refl p) (same-Goes thread _ w)
  run_functor-Lives thread reply (send_functor message) fs c cb w p fits =
      Goes-Lives (popped-Phase (send_functor message) fs c refl p)
        (send_in_loop-Goes thread reply message _ w fits)
  run_functor-Lives thread reply shutdown_functor fs c cb w p fits =
      Goes-Lives (popped-Phase shutdown_functor fs c refl p) (shutdown_in_loop-Goes thread _ w)
  run_functor-Lives thread reply destroy_functor fs c cb w (serving up on read_ queue) fits =
      absurd (omega (arith, queue))
  run_functor-Lives thread reply destroy_functor fs c cb w (closed up on read_ queue) fits =
      connect_destroyed-Lives thread (record c { queued = fs }) cb w up (omega (arith, queue))
  run_functor-Lives thread reply destroy_functor fs c cb w (destroyed down on read_ queue) fits =
      absurd (omega (arith, queue))

  run_next-Lives :
      (thread : ℕ) (reply : WriteReply) (fs : List Functor) (c : TcpConnection)
      → IsCallback thread on_connection
      → IsWhole thread c
      → Phase (record c { queued = fs })
      → FitsNext reply fs c
      → c.queued ≡ fs
      → Lives thread (run_next (handlers_of on_connection on_message) thread reply fs c)
  run_next-Lives thread reply [] c cb w p fits e =
      (c, refl, (w, subst (λ fs. Phase (record c { queued = fs })) (sym e) p))
  run_next-Lives thread reply (f ∷ fs) c cb w p fits e =
      run_functor-Lives thread reply f fs c cb
        (record { at = w.at; input = w.input; output = w.output }) p fits

  reads-Lives :
      (thread now : ℕ) (reply : ReadReply) (c : TcpConnection)
      → IsCallback thread (on_message now)
      → IsWhole thread c
      → Phase c
      → FitsRead reply c
      → (c.channel.active && c.channel.reading) ≡ true
      → Lives thread (handle_read (handlers_of on_connection on_message) thread reply now c)
  reads-Lives thread now (received xs) c cb w (serving up on read_ queue) fits event =
      received-Lives thread now xs c cb w up on read_ queue fits
  reads-Lives thread now (failed errno) c cb w (serving up on read_ queue) fits event = (
    c,
    (handle_read_lem (handlers_of on_connection on_message) thread now c w.at up w.input [] errno
        (omega arith) (omega (arith, w.input.in_bounds, w.input.small))).1,
    (w, serving up on read_ queue),
  )
  reads-Lives thread now reply c cb w (closed up on read_ queue) fits event =
      absurd (ground (arith, read_, event))
  reads-Lives thread now reply c cb w (destroyed down on read_ queue) fits event =
      absurd (ground (arith, read_, event))

  act-Lives :
      (thread : ℕ) (a : Act) (c : TcpConnection)
      → IsCallback thread on_connection
      → ((now : ℕ) → IsCallback thread (on_message now))
      → IsWhole thread c
      → Phase c
      → Fits a c
      → Lives thread (act (handlers_of on_connection on_message) thread a c)
  unfolding act
  act-Lives thread (sends caller reply message) c con mes w p fits =
      Goes-Lives p (send-Goes thread caller reply message c w fits)
  act-Lives thread (shuts caller) c con mes w p fits =
      Goes-Lives p (shutdown-Goes thread caller c w)
  act-Lives thread (reads reply now) c con mes w p fits =
      if-Lives (c.channel.active && c.channel.reading)
        (λ event. reads-Lives thread now reply c (mes now) w p fits event) (c, refl, (w, p))
  act-Lives thread (writes reply) c con mes w p fits =
      if-Lives c.channel.active (λ _. Goes-Lives p (handle_write-Goes thread reply c w fits))
        (c, refl, (w, p))
  act-Lives thread (runs reply) c con mes w p fits =
      run_next-Lives thread reply c.queued c con w (requeued c p) fits refl

  -- `connectEstablished` of a new connection.
  established-Lives :
      (thread fd : ℕ)
      → IsCallback thread on_connection
      → Lives thread
          (connect_established (handlers_of on_connection on_message) thread (init thread fd))
  unfolding init
  established-Lives thread fd cb =
      let new = init-IsSound thread fd in
      let c = record (init thread fd) {
        state = connected;
        channel = Channel.enable_reading (init thread fd).channel;
      } in
      let (c', ran, lives) =
        callback-Lives c cb (record { at = refl; input = new.input; output = new.output })
          (serving refl refl refl refl) in
      (
        c',
        connect_established_lem (handlers_of on_connection on_message) thread (init thread fd) refl
            ∙ ran,
        lives,
      )

  Reach-Lives :
      {thread fd : ℕ} {c : TcpConnection}
      → IsCallback thread on_connection
      → ((now : ℕ) → IsCallback thread (on_message now))
      → Reach (handlers_of on_connection on_message) thread fd c
      → IsWhole thread c × Phase c
  Reach-Lives {thread} {fd} {c} con mes (established e) =
      let (c', ran, lives) = established-Lives thread fd con in
      subst (λ d. IsWhole thread d × Phase d) (ok-injective (sym ran ∙ e)) lives
  Reach-Lives {thread} {c} con mes (next {c = d} a r fits e) =
      let (w, p) = Reach-Lives con mes r in
      let (c', ran, lives) = act-Lives thread a d con mes w p fits in
      subst (λ t. IsWhole thread t × Phase t) (ok-injective (sym ran ∙ e)) lives

  -- A connection from `connectEstablished` on, in a server whose loop is its own, with callbacks that end
  -- and keep it well-formed. Whatever comes next after any history of calls of `send` and `shutdown` in
  -- any thread, of events with any answers of the kernel, and of functors that the loop runs, where
  -- the kernel takes and gives no more than it is offered and the buffers have place for the bytes: no
  -- assertion fails and nothing else faults. The channel is active exactly while the connection is
  -- up, and `connectDestroyed` is queued, once, exactly while the channel is active and does not read.
  pub Reach-act :
      {thread fd : ℕ} {c : TcpConnection} (a : Act)
      → IsCallback thread on_connection
      → ((now : ℕ) → IsCallback thread (on_message now))
      → Reach (handlers_of on_connection on_message) thread fd c
      → Fits a c
      → (c' : TcpConnection) × (act (handlers_of on_connection on_message) thread a c ≡ ok c')
        × (is_up c'.state ≡ c'.channel.active)
        × (destroys c'.queued ≡ (if c'.channel.active && not c'.channel.reading then 1 else 0))
  Reach-act {thread} {c} a con mes r fits =
      let (w, p) = Reach-Lives con mes r in
      let (c', ran, (w', p')) = act-Lives thread a c con mes w p fits in
      (c', ran, Phase-active c' p', Phase-destroys c' p')
