-- ===== src/Acceptor.antt =====
-- simplev/src/simplev/net/Acceptor.h and Acceptor.cc: the listening socket of a server. What `accept`
-- and `open` answer is an argument. Descriptors that the process got, that were closed and that were
-- handed to `newConnectionCallback_` are kept, the latest last. `idle_fd` is none where the source has -1.
pub mod Descriptors
mod Tests
use simplev.Prelude.{
  ℕ, zero, suc, ◌+◌, Bool, true, false, List, [], ◌∷◌, ◌++◌, Option, none, some, Result, ok, ensure,
  fatal, ◌>>=◌, ◌>>◌, ◌==◌, if◌then◌else◌,
}
use simplev.Channel
use simplev.Channel.{Channel}

pub record Acceptor : Type 0 where
  pub loop_thread : ℕ
  pub accept_channel : Channel
  pub has_callback : Bool
  pub listening : Bool
  pub listens : ℕ  -- calls of `listen` on the socket
  pub idle_fd : Option ℕ
  pub opened : List ℕ
  pub closed : List ℕ
  pub handed : List ℕ

pub data AcceptReply : Type 0 where
  accepted : ℕ → AcceptReply
  emfile : AcceptReply
  other_errno : AcceptReply

abbrev pub descriptors : Option ℕ → List ℕ
descriptors none = []
descriptors (some fd) = fd ∷ []

-- The process gets a descriptor, or the call fails.
abbrev pub got : Option ℕ → Acceptor → Acceptor
got fd a = record a { opened = a.opened ++ descriptors fd }

-- Closing -1 does nothing.
abbrev pub close : Option ℕ → Acceptor → Acceptor
close fd a = record a { closed = a.closed ++ descriptors fd }

-- `fd` is the socket, and `idle` what `open` of /dev/null answers.
unfoldable pub init : ℕ → ℕ → Option ℕ → Acceptor
init thread fd idle = record {
  loop_thread = thread;
  accept_channel = Channel.init thread fd;
  has_callback = false;
  listening = false;
  listens = 0;
  idle_fd = idle;
  opened = descriptors idle;
  closed = [];
  handed = [];
}

-- `listening_` is not set.
unfoldable pub listen : ℕ → Acceptor → Result Acceptor
listen thread a = do
  ensure (a.loop_thread == thread) fatal
  ok (record a {
    accept_channel = Channel.enable_reading a.accept_channel;
    listens = 1 + a.listens;
  })

-- A connection from `accept`.
abbrev pub take_connection : ℕ → Acceptor → Acceptor
take_connection fd a =
    let a' = got (some fd) a in
    if a.has_callback then record a' { handed = a.handed ++ fd ∷ [] } else close (some fd) a'

-- The process has no descriptor left: the idle one makes room for a connection, which is closed.
abbrev pub drop_connection : Option ℕ → Option ℕ → Acceptor → Acceptor
drop_connection second reopened a =
    let a₁ = got second (close a.idle_fd a) in
    record (got reopened (close second a₁)) { idle_fd = reopened }

abbrev pub accept_reply : AcceptReply → Option ℕ → Option ℕ → Acceptor → Acceptor
accept_reply (accepted fd) second reopened a = take_connection fd a
accept_reply emfile second reopened a = drop_connection second reopened a
accept_reply other_errno second reopened a = a

-- `second` is what the second `accept` answers, and `reopened` what `open` does.
unfoldable pub handle_read : ℕ → AcceptReply → Option ℕ → Option ℕ → Acceptor → Result Acceptor
handle_read thread reply second reopened a = do
  ensure (a.loop_thread == thread) fatal
  ok (accept_reply reply second reopened a)

-- The destructor.
unfoldable pub destroy : ℕ → Acceptor → Result Acceptor
destroy thread a = do
  channel ← Channel.remove thread (Channel.disable_all a.accept_channel)
  ok (close a.idle_fd (record a { accept_channel = channel; idle_fd = none }))
