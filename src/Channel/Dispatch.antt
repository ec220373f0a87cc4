-- ===== src/Channel/Dispatch.antt =====
-- `remove` and `handleEvent` of Channel.cc.
use simplev.Prelude.{
  ℕ, ◌≡◌, ◌⊎◌, inl, inr, refl, Bool, true, false, ok, err, assertion, arith, ◌>>=◌,
}
use simplev.Channel.{
  Channel, remove, is_none_event, disable_all, Revents, Callbacks, call, handle_event,
}

-- `remove` right after `disableAll`, in the loop's thread, stops the watcher and never fails.
pub remove-disable_all :
    (thread : ℕ) (c : Channel)
    → c.loop_thread ≡ thread
    → remove thread (disable_all c) ≡ ok (record (disable_all c) { active = false })
unfolding remove
remove-disable_all thread c e = ground arith

-- `remove` with an event left enabled fails its assertion.
pub remove_enabled :
    (thread : ℕ) (c : Channel) → is_none_event c ≡ false → remove thread c ≡ err assertion
unfolding remove
remove_enabled thread c e = ground arith

-- An event that a tied channel gets after its owner is gone calls nothing and changes nothing; one
-- that reaches a live owner or an untied channel runs the error, read and write callbacks, those whose
-- bit is set, in this order, and ends with the handling mark cleared.
pub handle_event_lem :
    {S : Type 0} (mark : Bool → S → S) (callbacks : Callbacks S) (tied alive : Bool)
    (revents : Revents) (s : S)
    → ((tied ≡ true) × (alive ≡ false) × (handle_event mark callbacks tied alive revents s ≡ ok s))
      ⊎ (handle_event mark callbacks tied alive revents s ≡ (
          call revents.error callbacks.on_error (mark true s) >>= λ s₁.
          call revents.read callbacks.on_read s₁ >>= λ s₂.
          call revents.write callbacks.on_write s₂ >>= λ s₃. ok (mark false s₃)))
unfolding handle_event
handle_event_lem mark callbacks true false revents s = inl (refl, refl, refl)
handle_event_lem mark callbacks true true revents s = inr refl
handle_event_lem mark callbacks false alive revents s = inr refl
