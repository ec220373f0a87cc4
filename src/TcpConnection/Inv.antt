-- ===== src/TcpConnection/Inv.antt =====
-- What holds of a connection of TcpConnection.cc while its channel is in use, and the bytes that it
-- owes its peer.
use simplev.Prelude.{ℕ, ◌≡◌, ◌≤◌, false, List, [], ◌++◌, Result, ok}
use simplev.Buffer
use simplev.Buffer.Contents
use simplev.TcpConnection.{TcpConnection, WriteReply, wrote, write_failed, init}

-- Both buffers are well-formed, and a channel that does not watch for writing has nothing to write.
pub record IsSound (c : TcpConnection) : Type 0 where
  pub input : Buffer.Contents.IsValid c.input_buffer
  pub output : Buffer.Contents.IsValid c.output_buffer
  pub idle : c.channel.writing ≡ false → Buffer.Contents.contents c.output_buffer ≡ []

-- The bytes that the kernel took, followed by those that still wait.
abbrev pub stream : TcpConnection → List ℕ
stream c = c.socket.written ++ Buffer.Contents.contents c.output_buffer

-- A `write` takes no more than it is given.
abbrev pub Takes : WriteReply → ℕ → Type 0
Takes (wrote n) size = n ≤ size
Takes (write_failed e) size = Unit {0}

-- A run that ends in a connection with the property `P`.
abbrev pub Ends : Result TcpConnection → (TcpConnection → Type 0) → Type 0
Ends m P = (c : TcpConnection) × (m ≡ ok c) × P c

pub init-IsSound : (thread fd : ℕ) → IsSound (init thread fd)
unfolding init
init-IsSound thread fd = record {
  input = Buffer.Contents.init-IsValid;
  output = Buffer.Contents.init-IsValid;
  idle = λ _. Buffer.Contents.contents-init;
}
