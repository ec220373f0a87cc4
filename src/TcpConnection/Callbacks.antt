-- ===== src/TcpConnection/Callbacks.antt =====
-- The callbacks of a connection of TcpConnection.cc, and what the phases of its life say of it.
use simplev.Prelude.{
  ℕ, ◌≡◌, refl, sym, ap, ◌∙◌, Bool, true, false, not, ◌&&◌, List, ◌∷◌, Result, ok, if◌then◌else◌,
}
use simplev.Buffer.{Buffer}
use simplev.TcpConnection.{TcpConnection, disconnected, Functor}
use simplev.TcpConnection.Inv.{Ends}
use simplev.TcpConnection.Lifecycle.{is_up}
use simplev.TcpConnection.Quiet.{destroys}
use simplev.TcpConnection.Phases.{
  IsWhole, Phase, serving, closed, destroyed, Keeps, Keeps-Phase, Goes,
}

-- A callback of the user that ends, keeps the connection well-formed and its phase, and does nothing to
-- the channel of a connection that is down. It may call `send` and `shutdown`, which do.
abbrev pub IsCallback : ℕ → (TcpConnection → Result TcpConnection) → Type 0
IsCallback thread f =
    (c : TcpConnection)
    → IsWhole thread c
    → (c' : TcpConnection) × (f c ≡ ok c')
      × IsWhole thread c'
      × Keeps c c'
      × (c.state ≡ disconnected → c'.channel ≡ c.channel)

abbrev pub Lives : ℕ → Result TcpConnection → Type 0
Lives thread run = Ends run λ c'. IsWhole thread c' × Phase c'

pub Goes-Lives :
    {thread : ℕ} {c : TcpConnection} {run : Result TcpConnection}
    → Phase c
    → Goes thread c run
    → Lives thread run
Goes-Lives p (c', ran, (w, k)) = (c', ran, (w, Keeps-Phase k p))

pub if-Lives :
    (b : Bool) {thread : ℕ} {m n : Result TcpConnection}
    → (b ≡ true → Lives thread m)
    → Lives thread n
    → Lives thread (if b then m else n)
if-Lives true m n = m refl
if-Lives false m n = n

-- A callback on a connection that keeps its phase.
pub callback-Lives :
    {thread : ℕ} {f : TcpConnection → Result TcpConnection} (c : TcpConnection)
    → IsCallback thread f
    → IsWhole thread c
    → Phase c
    → Lives thread (f c)
callback-Lives c cb w p = let (c', ran, w', k, _) = cb c w in (c', ran, (w', Keeps-Phase k p))

pub filled-Phase :
    (c : TcpConnection) (input : Buffer) → Phase c → Phase (record c { input_buffer = input })
filled-Phase c input (serving up on read_ queue) = serving up on read_ queue
filled-Phase c input (closed up on read_ queue) = closed up on read_ queue
filled-Phase c input (destroyed down on read_ queue) = destroyed down on read_ queue

-- Without a first functor that is not `connectDestroyed`.
pub popped-Phase :
    (f : Functor) (fs : List Functor) (c : TcpConnection)
    → destroys (f ∷ fs) ≡ destroys fs
    → Phase (record c { queued = f ∷ fs })
    → Phase (record c { queued = fs })
popped-Phase f fs c e (serving up on read_ queue) = serving up on read_ (sym e ∙ queue)
popped-Phase f fs c e (closed up on read_ queue) = closed up on read_ (sym e ∙ queue)
popped-Phase f fs c e (destroyed down on read_ queue) = destroyed down on read_ (sym e ∙ queue)

pub requeued : (c : TcpConnection) → Phase c → Phase (record c { queued = c.queued })
requeued c (serving up on read_ queue) = serving up on read_ queue
requeued c (closed up on read_ queue) = closed up on read_ queue
requeued c (destroyed down on read_ queue) = destroyed down on read_ queue

pub Phase-active : (c : TcpConnection) → Phase c → is_up c.state ≡ c.channel.active
Phase-active c (serving up on read_ queue) = up ∙ sym on
Phase-active c (closed up on read_ queue) = up ∙ sym on
Phase-active c (destroyed down on read_ queue) = ap is_up down ∙ sym on

pub Phase-destroys :
    (c : TcpConnection)
    → Phase c
    → destroys c.queued ≡ (if c.channel.active && not c.channel.reading then 1 else 0)
Phase-destroys c (serving up on read_ queue) = rw (on, read_) queue
Phase-destroys c (closed up on read_ queue) = rw (on, read_) queue
Phase-destroys c (destroyed down on read_ queue) = rw on queue
