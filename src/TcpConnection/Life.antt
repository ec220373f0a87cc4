-- ===== src/TcpConnection/Life.antt =====
-- The life of a connection of TcpConnection.cc in its loop's thread, as steps: `send`, `handleWrite`
-- and `shutdown` in any order and with any answers of the kernel.
use simplev.Prelude.{
  Bool, false, not, ◌&&◌, ◌==◌, if◌then◌else◌, ℕ, zero, suc, ◌+◌, ◌≤◌, ◌≡◌, inl, inr, refl, sym, ap,
  ◌∙◌, true, List, [], ◌++◌, length, drop, append-nil, Result, ok,
}
use simplev.Buffer
use simplev.Buffer.{max_size}
use simplev.Buffer.Contents.{contents}
use simplev.TcpConnection.{
  TcpConnection, connected, disconnecting, is_connected, WriteReply, wrote, write_failed, is_broken,
  send, handle_write, shutdown,
}
use simplev.TcpConnection.Inv.{IsSound, stream, Takes}
use simplev.TcpConnection.Sending.{Sent}
use simplev.TcpConnection.Flushing.{Flushed}

-- Sound, and once the socket is shut down the connection is leaving and has nothing to write.
pub record IsOrderly (c : TcpConnection) : Type 0 where
  pub sound : IsSound c
  pub closed :
      c.socket.shut_down ≡ true → (c.state ≡ disconnecting) × (contents c.output_buffer ≡ [])

-- A message that `sendInLoop` gives up: nothing waits, and the write that it tries at once fails for a
-- peer that is gone.
abbrev pub is_lost : WriteReply → TcpConnection → Bool
is_lost (wrote n) c = false
is_lost (write_failed e) c =
    is_broken e && (not c.channel.writing && Buffer.readable_bytes c.output_buffer == 0)

-- The bytes that `send` adds to the stream.
unfoldable pub accepted_bytes : WriteReply → List ℕ → TcpConnection → List ℕ
accepted_bytes reply message c =
    if is_connected c.state && not (is_lost reply c) then message else []

-- One step, with the bytes that it is to add. The kernel takes no more than it is given, and a message
-- fits into the buffer.
pub data Step (thread : ℕ) (c : TcpConnection) : List ℕ → TcpConnection → Type 0 where
  sends :
      {c' : TcpConnection} (reply : WriteReply) (message : List ℕ)
      → Takes reply (length message)
      → c.output_buffer.writer_index + length message ≤ max_size
      → send thread reply message c ≡ ok c'
      → Step thread c (accepted_bytes reply message c) c'
  writes :
      {c' : TcpConnection} (reply : WriteReply)
      → Takes reply (length (contents c.output_buffer))
      → handle_write thread reply c ≡ ok c'
      → Step thread c [] c'
  shuts : {c' : TcpConnection} → shutdown thread c ≡ ok c' → Step thread c [] c'

pub data Reach (thread : ℕ) (c : TcpConnection) : List ℕ → TcpConnection → Type 0 where
  here : Reach thread c [] c
  next :
      {more more' : List ℕ} {c' c'' : TcpConnection}
      → Reach thread c more c'
      → Step thread c' more' c''
      → Reach thread c (more ++ more') c''

-- What a step keeps, and that the stream grows by `more`.
pub record Kept (c : TcpConnection) (more : List ℕ) (c' : TcpConnection) : Type 0 where
  pub orderly : IsOrderly c'
  pub thread_kept : c'.channel.loop_thread ≡ c.channel.loop_thread
  pub grows : stream c' ≡ stream c ++ more

pub ok-injective : {c c' : TcpConnection} → ◌≡◌ {A = Result TcpConnection} (ok c) (ok c') → c ≡ c'
ok-injective h = cc

pub same-Kept : (c : TcpConnection) → IsOrderly c → Kept c [] c
same-Kept c o = record { orderly = o; thread_kept = refl; grows = sym (append-nil (stream c)) }

pub connected_open :
    (c : TcpConnection) → c.state ≡ connected → IsOrderly c → c.socket.shut_down ≡ true → ⊥
connected_open c up o h = let (left, _) = o.closed h in cc

pub Sent-Kept :
    (c c' : TcpConnection) (message : List ℕ)
    → c.state ≡ connected
    → IsOrderly c
    → Sent c message c'
    → Kept c message c'
Sent-Kept c c' message up o s = record {
  orderly = record {
    sound = s.sound;
    closed = λ h. absurd (connected_open c up o (sym s.shut_kept ∙ h));
  };
  thread_kept = s.thread_kept;
  grows = s.bytes;
}

drop-nil : (n : ℕ) → drop {A = ℕ} n [] ≡ []
drop-nil zero = refl
drop-nil (suc n) = refl

Flushed-closed :
    (c c' : TcpConnection)
    → IsOrderly c
    → Flushed c c'
    → c'.socket.shut_down ≡ true
    → (c'.state ≡ disconnecting) × (contents c'.output_buffer ≡ [])
Flushed-closed c c' o f h = elim (f.half_closed h) [
  | inl before ↦
      let (left, empty) = o.closed before in
      let (n, e) = f.rest in (f.state_kept ∙ left, e ∙ (ap (drop n) empty ∙ drop-nil n))
  | inr (left, empty) ↦ (f.state_kept ∙ left, empty)
]

pub Flushed-Kept : (c c' : TcpConnection) → IsOrderly c → Flushed c c' → Kept c [] c'
Flushed-Kept c c' o f = record {
  orderly = record { sound = f.sound; closed = λ h. Flushed-closed c c' o f h };
  thread_kept = f.thread_kept;
  grows = f.bytes ∙ sym (append-nil (stream c));
}
