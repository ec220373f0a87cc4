-- ===== src/Curl.antt =====
-- simplev/src/simplev/cases/curl/Curl.h and Curl.cc: requests of libcurl in an event loop. libcurl is
-- outside: what `curl_multi_socket_action` answers, the messages that it queues and the pointer that it
-- keeps for a descriptor are arguments. A channel has an address, and a request is named by its easy
-- handle. Calls of the user's callbacks and of the loop are kept in lists, the latest last.
pub mod Watching
pub mod Messages
pub mod Finishing
mod Tests
use simplev.Prelude.{
  ℕ, zero, suc, ◌+◌, Bool, true, false, not, ◌&&◌, ◌||◌, List, [], ◌∷◌, ◌++◌, Option, none, some,
  Result, ok, err, assert, out_of_range, ◌>>=◌, ◌>>◌, ltb, ◌==◌, if◌then◌else◌,
}
use simplev.Channel
use simplev.Channel.{Channel}

-- `channel_`: a pointer to a channel.
pub record Held : Type 0 where
  pub address : ℕ
  pub channel : Channel

pub record Request : Type 0 where
  pub loop_thread : ℕ  -- the thread of `owner_->getLoop()`
  pub curl : ℕ
  pub channel : Option Held
  pub next_address : ℕ
  pub queued : List Held  -- channels that `queueInLoop` keeps alive
  pub has_data_cb : Bool
  pub has_header_cb : Bool
  pub received : List (List ℕ)
  pub headers : List (List ℕ)
  pub header_only : Bool

abbrev pub init : ℕ → ℕ → Request
init thread curl = record {
  loop_thread = thread;
  curl = curl;
  channel = none;
  next_address = 1;
  queued = [];
  has_data_cb = false;
  has_header_cb = false;
  received = [];
  headers = [];
  header_only = false;
}

abbrev pub no_events : Option Held → Bool
no_events none = true
no_events (some held) = Channel.is_none_event held.channel

-- The destructor.
unfoldable pub destroy : Request → Result (Unit {0})
destroy r = assert (no_events r.channel)

-- `getChannel`, as an address.
abbrev pub pointer : Option Held → Option ℕ
pointer none = none
pointer (some held) = some held.address

abbrev pub is_null : Option Held → Bool
is_null none = true
is_null (some held) = false

abbrev pub same_pointer : Option ℕ → Option ℕ → Bool
same_pointer none none = true
same_pointer (some a) (some b) = a == b
same_pointer _ _ = false

unfoldable pub set_channel : ℕ → Request → Result Request
set_channel fd r = do
  assert (is_null r.channel)
  ok (record r {
    channel = some (record {
      address = r.next_address;
      channel = Channel.tie (Channel.init r.loop_thread fd);
    });
    next_address = 1 + r.next_address;
  })

-- Without a channel the source dereferences null.
abbrev pub drop_channel : ℕ → Option Held → Request → Result Request
drop_channel thread none r = err out_of_range
drop_channel thread (some held) r = do
  channel ← Channel.remove thread (Channel.disable_all held.channel)
  ok (record r { channel = none; queued = r.queued ++ record held { channel = channel } ∷ [] })

unfoldable pub remove_channel : ℕ → Request → Result Request
remove_channel thread r = drop_channel thread r.channel r

-- `dataCallback` and `headerCallback`
abbrev pub data_callback : List ℕ → Request → Request
data_callback buffer r =
    if r.has_data_cb then record r { received = r.received ++ buffer ∷ [] } else r

abbrev pub header_callback : List ℕ → Request → Request
header_callback buffer r =
    if r.has_header_cb then record r { headers = r.headers ++ buffer ∷ [] } else r

-- `buffer` is the `nmemb` bytes; all of them are taken.
unfoldable pub write_data : ℕ → List ℕ → Request → Result Request
write_data size buffer r = do assert (size == 1); ok (data_callback buffer r)

unfoldable pub header_data : ℕ → List ℕ → Request → Result Request
header_data size buffer r = do assert (size == 1); ok (header_callback buffer r)

-- CURL_POLL_NONE and so on.
pub data What : Type 0 where
  poll_none poll_in poll_out poll_inout poll_remove : What

-- `what & CURL_POLL_OUT`
abbrev pub wants_out : What → Bool
wants_out poll_out = true
wants_out poll_inout = true
wants_out _ = false

abbrev pub is_remove : What → Bool
is_remove poll_remove = true
is_remove _ = false

-- Enable or disable writing of the request's channel.
abbrev pub update : Bool → Option Held → Request → Result Request
update out none r = err out_of_range
update out (some held) r = ok (record r {
  channel = some (record held {
    channel =
        if out then Channel.enable_writing held.channel else Channel.disable_writing held.channel;
  });
})

abbrev pub enable_reading : Option Held → Option Held
enable_reading none = none
enable_reading (some held) = some (record held { channel = Channel.enable_reading held.channel })

-- The request with a channel for the descriptor, which is new if libcurl has none for it.
abbrev pub find_channel : ℕ → Option ℕ → Request → Result (Request × Option ℕ)
find_channel fd (some address) r = ok (r, some address)
find_channel fd none r = do
  r' ← set_channel fd r
  ok (record r' { channel = enable_reading r'.channel }, pointer r'.channel)

-- `socketCallback` for the request of the handle `c`. `socketp` is libcurl's pointer for the descriptor,
-- and the result has the pointer that `curl_multi_assign` leaves.
unfoldable pub socket_callback : ℕ → ℕ → ℕ → What → Option ℕ → Request → Result (Request × Option ℕ)
unfolding set_channel remove_channel
socket_callback thread c fd what socketp r = do
  assert (r.curl == c)
  if is_remove what
      then (assert (same_pointer (pointer r.channel) socketp)
          >> (remove_channel thread r >>= λ r'. ok (r', none)))
      else (find_channel fd socketp r >>= λ (r₁, ch).
          assert (same_pointer (pointer r₁.channel) ch)
          >> (update (wants_out what) r₁.channel r₁ >>= λ r₂. ok (r₂, ch)))

-- What `curl_multi_info_read` gives: CURLMSG_DONE or another message, with its easy handle, the code of
-- the transfer, and the handle of the request that CURLINFO_PRIVATE names.
pub record Message : Type 0 where
  pub is_done : Bool
  pub easy_handle : ℕ
  pub code : ℕ
  pub owner : ℕ

pub record Curl : Type 0 where
  pub running_handles : ℕ
  pub prev_running_handles : ℕ
  pub messages : List Message  -- queued in libcurl
  pub dones : List Message  -- for which `Request::done` was called
  pub timers : List ℕ  -- milliseconds that `timerCallback` gave to `runAfter`

abbrev pub start : Curl
start = record {
  running_handles = 0;
  prev_running_handles = 0;
  messages = [];
  dones = [];
  timers = [];
}

-- `timerCallback`
abbrev pub timer_callback : ℕ → Curl → Curl
timer_callback ms c = record c { timers = c.timers ++ ms ∷ [] }

-- An answer of `curl_multi_socket_action`: CURLM_CALL_MULTI_PERFORM or not, the number of running
-- handles, and the messages that the call queued.
pub record Answer : Type 0 where
  pub call_again : Bool
  pub running : ℕ
  pub queues : List Message

-- The loop of `onTimer`, `onRead` and `onWrite`, from the call `i` on; `none` is fuel that ran out.
unfoldable pub perform : ℕ → (ℕ → Answer) → ℕ → Curl → Option Curl
perform zero answers i c = none
perform (suc fuel) answers i c =
    let c' = record c {
      running_handles = (answers i).running;
      messages = c.messages ++ (answers i).queues;
    } in
    let rest = perform fuel answers (suc i) c' in if (answers i).call_again then rest else some c'

-- The loop of `checkFinish`.
unfoldable pub read_messages : List Message → Curl → Result Curl
read_messages [] c = ok (record c { messages = [] })
read_messages (m ∷ ms) c =
    let rest = read_messages ms (record c { dones = c.dones ++ m ∷ [] }) in
    let other = read_messages ms c in
    if m.is_done then (assert (m.owner == m.easy_handle) >> rest) else other

unfoldable pub check_finish : Curl → Result Curl
unfolding read_messages
check_finish c = do
  c' ←
      (if ltb c.running_handles c.prev_running_handles || c.running_handles == 0
        then read_messages c.messages c
        else ok c)
  ok (record c' { prev_running_handles = c'.running_handles })

abbrev pub finished : Option Curl → Result Curl
finished none = err out_of_range
finished (some c) = check_finish c

-- `onTimer`, `onRead` and `onWrite`, which differ in what they tell libcurl.
unfoldable pub on_event : ℕ → (ℕ → Answer) → Curl → Result Curl
unfolding perform check_finish
on_event fuel answers c = finished (perform fuel answers 0 c)
