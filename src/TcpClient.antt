-- ===== src/TcpClient.antt =====
-- simplev/src/simplev/net/TcpClient.h and TcpClient.cc: a client, which owns a Connector and the one
-- connection that comes of it. A connection is named by its number, which is in its name. Calls on
-- connections are kept in lists, the latest last: `connectEstablished`, `shutdown`, and
-- `connectDestroyed`, which is queued in the loop. The calling thread is the first argument of a
-- method; the socket and the errno are those of an attempt that the method makes at once.
pub mod Single
pub mod History
mod Tests
use simplev.Prelude.{
  ℕ, ◌+◌, ◌%◌, ◌^◌, Bool, true, false, ◌&&◌, List, [], ◌∷◌, ◌++◌, length, drop, Option, none, some,
  Result, ok, err, assert, ensure, fatal, out_of_range, ◌>>=◌, ◌>>◌, ◌==◌, if◌then◌else◌,
}
use simplev.Connector
use simplev.Connector.{Connector, Errno, Functor}

pub record TcpClient : Type 0 where
  pub loop_thread : ℕ
  pub connector : Connector
  pub retry : Bool
  pub connect : Bool  -- `connect_`
  pub next_conn_id : ℕ  -- the 32 bits of an int
  pub connection : Option ℕ
  pub established : List ℕ
  pub shut_down : List ℕ
  pub destroyed : List ℕ
  pub detached : List ℕ  -- connections whose close callback is `detail::removeConnection`
  pub queued : List ℕ  -- connections for which a `setCloseCallback` waits in the loop

unfoldable pub init : ℕ → TcpClient
init thread = record {
  loop_thread = thread;
  connector = Connector.init thread;
  retry = false;
  connect = true;
  next_conn_id = 1;
  connection = none;
  established = [];
  shut_down = [];
  destroyed = [];
  detached = [];
  queued = [];
}

abbrev pub enable_retry : TcpClient → TcpClient
enable_retry c = record c { retry = true }

unfoldable pub connect : ℕ → ℕ → Errno → TcpClient → Result TcpClient
connect thread sockfd errno c = do
  connector ← Connector.start thread sockfd errno c.connector
  ok (record c { connect = true; connector = connector })

abbrev pub connections : Option ℕ → List ℕ
connections none = []
connections (some id) = id ∷ []

unfoldable pub disconnect : TcpClient → TcpClient
disconnect c = record c { connect = false; shut_down = c.shut_down ++ connections c.connection }

unfoldable pub stop : TcpClient → TcpClient
stop c = record c { connect = false; connector = Connector.stop c.connector }

-- The callback of the connector.
unfoldable pub new_connection : ℕ → ℕ → TcpClient → Result TcpClient
new_connection thread sockfd c = do
  ensure (c.loop_thread == thread) fatal
  ok (record c {
    next_conn_id = (1 + c.next_conn_id) % 2 ^ 32;
    connection = some c.next_conn_id;
    established = c.established ++ c.next_conn_id ∷ [];
  })

-- `connection_ == conn`
abbrev pub is_connection : Option ℕ → ℕ → Bool
is_connection none id = false
is_connection (some id') id = id' == id

-- The connector tries again, if the client still wants it to.
abbrev pub reconnect : ℕ → ℕ → Errno → TcpClient → Result TcpClient
reconnect thread sockfd errno c =
    if c.connect && c.retry
    then (Connector.restart thread sockfd errno c.connector >>= λ connector.
        ok (record c { connector = connector }))
    else ok c

-- The close callback of the connection `id`.
unfoldable pub remove_connection : ℕ → ℕ → Errno → ℕ → TcpClient → Result TcpClient
remove_connection thread sockfd errno id c = do
  ensure (c.loop_thread == thread) fatal
  assert (is_connection c.connection id)
  reconnect thread sockfd errno (record c { connection = none; destroyed = c.destroyed ++ id ∷ [] })

-- What comes to the connector from its loop: a timer, its next functor, or an event of its channel.
pub data Event : Type 0 where
  timer : ℕ → Errno → Event
  functor : ℕ → Errno → Event
  write : Bool → Bool → Event
  error : Event

abbrev pub run_first : ℕ → ℕ → Errno → List Functor → Connector → Result Connector
run_first thread sockfd errno [] k = ok k
run_first thread sockfd errno (f ∷ rest) k =
    Connector.run_functor thread sockfd errno f (record k { queued = rest })

abbrev pub connector_event : ℕ → Event → Connector → Result Connector
connector_event thread (timer sockfd errno) k = Connector.start_in_loop thread sockfd errno k
connector_event thread (functor sockfd errno) k = run_first thread sockfd errno k.queued k
connector_event thread (write failed self) k = Connector.handle_write thread failed self k
connector_event thread error k = Connector.handle_error thread k

-- The sockets that the connector handed over.
unfoldable pub deliver : ℕ → List ℕ → TcpClient → Result TcpClient
unfolding new_connection
deliver thread [] c = ok c
deliver thread (sockfd ∷ rest) c = do c' ← new_connection thread sockfd c; deliver thread rest c'

-- An event of the connector, which calls back at once.
unfoldable pub handle_event : ℕ → Event → TcpClient → Result TcpClient
unfolding deliver
handle_event thread event c = do
  connector ← connector_event thread event c.connector
  deliver thread (drop (length c.connector.handed) connector.handed)
      (record c { connector = connector })

-- The destructor: a connection closes without the client from now on, and an attempt is given up.
abbrev pub leave : ℕ → Option ℕ → TcpClient → TcpClient
leave thread none c = record c { connector = Connector.stop c.connector }
leave thread (some id) c =
    if c.loop_thread == thread
    then record c { detached = c.detached ++ id ∷ [] }
    else record c { queued = c.queued ++ id ∷ [] }

unfoldable pub destroy : ℕ → TcpClient → TcpClient
destroy thread c = leave thread c.connection c

-- `detail::removeConnection`, the close callback of a connection that outlived its client.
abbrev pub remove_detached : ℕ → TcpClient → TcpClient
remove_detached id c = record c { destroyed = c.destroyed ++ id ∷ [] }
