-- ===== src/TcpConnection/Phases.antt =====
-- The phases of a connection of TcpConnection.cc between `connectEstablished` and `connectDestroyed`.
use simplev.Prelude.{ℕ, ◌≡◌, sym, ap, subst, ◌∙◌, true, false, Result, ok}
use simplev.Buffer
use simplev.Buffer.{Buffer, ReadReply, received, failed, max_size}
use simplev.Buffer.Contents.{contents, readable_bytes-contents}
use simplev.TcpConnection.{TcpConnection, disconnected}
use simplev.TcpConnection.Inv.{Ends}
use simplev.TcpConnection.Lifecycle.{is_up}
use simplev.TcpConnection.Quiet.{destroys, IsQuiet, Quiets}

-- Both buffers are well-formed, and the connection belongs to the loop of the thread.
pub record IsWhole (thread : ℕ) (c : TcpConnection) : Type 0 where
  pub at : c.channel.loop_thread ≡ thread
  pub input : Buffer.Contents.IsValid c.input_buffer
  pub output : Buffer.Contents.IsValid c.output_buffer

-- Open; closed, with `connectDestroyed` on its way; or destroyed.
pub data Phase (c : TcpConnection) : Type 0 where
  serving :
      is_up c.state ≡ true
      → c.channel.active ≡ true
      → c.channel.reading ≡ true
      → destroys c.queued ≡ 0
      → Phase c
  closed :
      is_up c.state ≡ true
      → c.channel.active ≡ true
      → c.channel.reading ≡ false
      → destroys c.queued ≡ 1
      → Phase c
  destroyed :
      c.state ≡ disconnected
      → c.channel.active ≡ false
      → c.channel.reading ≡ false
      → destroys c.queued ≡ 0
      → Phase c

-- What a call keeps; `shutdown` may take the state from `connected` to `disconnecting`.
pub record Keeps (c c' : TcpConnection) : Type 0 where
  pub thread_kept : c'.channel.loop_thread ≡ c.channel.loop_thread
  pub reading_kept : c'.channel.reading ≡ c.channel.reading
  pub active_kept : c'.channel.active ≡ c.channel.active
  pub up_kept : is_up c'.state ≡ is_up c.state
  pub down_kept : c.state ≡ disconnected → c'.state ≡ disconnected
  pub queue_kept : destroys c'.queued ≡ destroys c.queued

pub IsQuiet-Keeps : {c c' : TcpConnection} → IsQuiet c c' → Keeps c c'
IsQuiet-Keeps q = record {
  thread_kept = q.thread_kept;
  reading_kept = q.reading_kept;
  active_kept = q.active_kept;
  up_kept = ap is_up q.state_kept;
  down_kept = λ e. q.state_kept ∙ e;
  queue_kept = q.queue_kept;
}

pub Keeps-Phase : {c c' : TcpConnection} → Keeps c c' → Phase c → Phase c'
Keeps-Phase k (serving up act_ read_ queue) =
    serving (k.up_kept ∙ up) (k.active_kept ∙ act_) (k.reading_kept ∙ read_) (k.queue_kept ∙ queue)
Keeps-Phase k (closed up act_ read_ queue) =
    closed (k.up_kept ∙ up) (k.active_kept ∙ act_) (k.reading_kept ∙ read_) (k.queue_kept ∙ queue)
Keeps-Phase k (destroyed down act_ read_ queue) =
    destroyed (k.down_kept down) (k.active_kept ∙ act_) (k.reading_kept ∙ read_)
      (k.queue_kept ∙ queue)

-- A run that ends with a well-formed connection which kept its phase.
abbrev pub Goes : ℕ → TcpConnection → Result TcpConnection → Type 0
Goes thread c run = Ends run λ c'. IsWhole thread c' × Keeps c c'

pub quiet-Goes :
    (thread : ℕ) (c c' : TcpConnection) {run : Result TcpConnection}
    → IsWhole thread c
    → Quiets c run
    → run ≡ ok c'
    → Buffer.Contents.IsValid c'.output_buffer
    → Goes thread c run
quiet-Goes thread c c' w q e v =
    let k = q c' e in
    (
      c',
      e,
      (
        record {
          at = k.thread_kept ∙ w.at;
          input = subst Buffer.Contents.IsValid (sym k.input_kept) w.input;
          output = v;
        },
        IsQuiet-Keeps k,
      ),
    )
