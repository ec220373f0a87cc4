-- ===== src/Channel.antt =====
-- simplev/src/simplev/net/Channel.h and Channel.cc: the events of one descriptor that a loop watches,
-- and how an event is handed to the owner's callbacks. The bits `ev::READ` and `ev::WRITE` of a mask
-- are fields of a record; libev's watcher itself is `active` or stopped.
pub mod Dispatch
use simplev.Prelude.{
  ℕ, ◌≡◌, Bool, true, false, not, ◌&&◌, if◌then◌else◌, Option, none, some, Result, ok, err, assert,
  ensure, fatal, ◌==◌, ◌>>=◌, ◌>>◌,
}

pub record Channel : Type 0 where
  pub loop_thread : ℕ  -- the thread of `loop_`
  pub fd : ℕ
  pub reading : Bool
  pub writing : Bool
  pub active : Bool
  pub event_handling : Bool
  pub tied : Bool

-- The watcher is started with no event.
abbrev pub init : ℕ → ℕ → Channel
init thread fd = record {
  loop_thread = thread;
  fd = fd;
  reading = false;
  writing = false;
  active = true;
  event_handling = false;
  tied = false;
}

abbrev pub enable_reading : Channel → Channel
enable_reading c = record c { reading = true }

abbrev pub disable_reading : Channel → Channel
disable_reading c = record c { reading = false }

abbrev pub enable_writing : Channel → Channel
enable_writing c = record c { writing = true }

abbrev pub disable_writing : Channel → Channel
disable_writing c = record c { writing = false }

abbrev pub disable_all : Channel → Channel
disable_all c = record c { reading = false; writing = false }

abbrev pub is_none_event : Channel → Bool
is_none_event c = not c.reading && not c.writing

abbrev pub tie : Channel → Channel
tie c = record c { tied = true }

-- The calling thread is the first argument. `assertInLoopThread` ends in LOG_FATAL elsewhere.
unfoldable pub stop : ℕ → Channel → Result Channel
stop thread c = do ensure (c.loop_thread == thread) fatal; ok (record c { active = false })

-- Through `EventLoop::removeChannel`, whose own assertion compares the channel's loop with itself.
unfoldable pub remove : ℕ → Channel → Result Channel
unfolding stop
remove thread c = do assert (is_none_event c); stop thread c

-- The bits of `revents` that the code looks at.
pub record Revents : Type 0 where
  pub error : Bool
  pub read : Bool
  pub write : Bool

-- The callbacks over the state of the owner, each of which may be empty.
pub record Callbacks (S : Type 0) : Type 0 where
  pub on_error : Option (S → Result S)
  pub on_read : Option (S → Result S)
  pub on_write : Option (S → Result S)

abbrev pub call : {S : Type 0} → Bool → Option (S → Result S) → S → Result S
call false f s = ok s
call true none s = ok s
call true (some f) s = f s

module _ {S : Type 0} (mark : Bool → S → S) (callbacks : Callbacks S) where
  -- `mark` sets `eventHandling_` of the owner's channel.
  unfoldable pub handle_event_with_guard : Revents → S → Result S
  handle_event_with_guard revents s = do
    s ← call revents.error callbacks.on_error (mark true s)
    s ← call revents.read callbacks.on_read s
    s ← call revents.write callbacks.on_write s
    ok (mark false s)

  -- `alive` says whether `tie_.lock()` still finds the owner.
  unfoldable pub handle_event : Bool → Bool → Revents → S → Result S
  unfolding handle_event_with_guard
  handle_event tied alive revents s =
      if tied
      then (if alive then handle_event_with_guard revents s else ok s)
      else handle_event_with_guard revents s
