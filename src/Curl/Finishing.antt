-- ===== src/Curl/Finishing.antt =====
-- What an event of Curl.cc leads to: calls of libcurl until it is content, and `done` for the transfers
-- that are over.
use simplev.Prelude.{
  ℕ, suc, ◌≡◌, ◌<◌, refl, sym, ap, subst, ◌∙◌, Bool, true, false, List, [], ◌∷◌, ◌++◌, append-nil,
  append_assoc, arith, Result, ok, ◌>>=◌, if◌then◌else◌,
}
use simplev.Curl.{Curl, start, Answer, Message, finished, on_event}
use simplev.Curl.Messages.{
  Stops, last_running, gather, performed, perform_lem, done_of, done_of-++, AllOwn, AllOwn-++,
  looks, check_finish_lem,
}

-- `onTimer`, `onRead` and `onWrite`, where libcurl wants to be called again `n` times and then not, and
-- its messages name their own requests: they return, after `n + 1` calls. If fewer handles run
-- than at the last event, or none, then `done` was called once for each transfer among the messages
-- that wait, in their order, and none waits any more. Otherwise all messages wait on.
on_event_lem :
    (fuel n : ℕ) (answers : ℕ → Answer) (c : Curl)
    → n < fuel
    → Stops answers 0 n
    → AllOwn c.messages
    → AllOwn (gather answers 0 n)
    → let ms = c.messages ++ gather answers 0 n in
      let running = last_running answers 0 n in
      on_event fuel answers c
      ≡ ok (
          if looks running c.prev_running_handles
          then record c {
            running_handles = running;
            prev_running_handles = running;
            messages = [];
            dones = c.dones ++ done_of ms;
          }
          else record c {
            running_handles = running;
            prev_running_handles = running;
            messages = ms;
          })
unfolding on_event
on_event_lem fuel n answers c enough stops old new =
    ap finished (perform_lem fuel n 0 answers c enough stops)
    ∙ check_finish_lem (performed answers 0 n c) (AllOwn-++ c.messages (gather answers 0 n) old new)

-- An event, with the number of times that libcurl wants to be called again.
pub record Occasion : Type 0 where
  pub answers : ℕ → Answer
  pub again : ℕ

unfoldable pub run_events : List Occasion → Curl → Result Curl
unfolding on_event
run_events [] c = ok c
run_events (o ∷ os) c = do c' ← on_event (suc o.again) o.answers c; run_events os c'

abbrev pub AllProper : List Occasion → Type 0
AllProper [] = Unit {0}
AllProper (o ∷ os) = Stops o.answers 0 o.again × AllOwn (gather o.answers 0 o.again) × AllProper os

abbrev pub all_messages : List Occasion → List Message
all_messages [] = []
all_messages (o ∷ os) = gather o.answers 0 o.again ++ all_messages os

-- What was done and what waits are the transfers of `ms`, in their order.
record Accounts (c : Curl) (ms : List Message) : Type 0 where
  own : AllOwn c.messages
  kept : c.dones ++ done_of c.messages ≡ done_of ms
  clear : c.running_handles ≡ 0 → c.messages ≡ []

joined :
    (c : Curl) (ms new : List Message)
    → Accounts c ms
    → c.dones ++ done_of (c.messages ++ new) ≡ done_of (ms ++ new)
joined c ms new a =
    ap (λ t. c.dones ++ t) (done_of-++ c.messages new)
    ∙ (sym (append_assoc c.dones (done_of c.messages) (done_of new))
        ∙ (ap (λ t. t ++ done_of new) a.kept ∙ sym (done_of-++ ms new)))

event-Accounts :
    (b : Bool) (running : ℕ) (c : Curl) (ms new : List Message)
    → looks running c.prev_running_handles ≡ b
    → AllOwn new
    → Accounts c ms
    → Accounts
        (if b
          then record c {
            running_handles = running;
            prev_running_handles = running;
            messages = [];
            dones = c.dones ++ done_of (c.messages ++ new);
          }
          else record c {
            running_handles = running;
            prev_running_handles = running;
            messages = c.messages ++ new;
          })
        (ms ++ new)
event-Accounts true running c ms new looked own a = record {
  own = tt;
  kept = append-nil _ ∙ joined c ms new a;
  clear = λ e. refl;
}
event-Accounts false running c ms new looked own a = record {
  own = AllOwn-++ c.messages new a.own own;
  kept = joined c ms new a;
  clear = λ e. absurd (ground (arith, looked, e));
}

run-Accounts :
    (os : List Occasion) (c : Curl) (ms : List Message)
    → AllProper os
    → Accounts c ms
    → (c' : Curl) × (run_events os c ≡ ok c') × Accounts c' (ms ++ all_messages os)
unfolding run_events
run-Accounts [] c ms proper a = (
  c,
  refl,
  record { own = a.own; kept = a.kept ∙ ap done_of (sym (append-nil ms)); clear = a.clear },
)
run-Accounts (o ∷ os) c ms proper a =
    let new = gather o.answers 0 o.again in
    let running = last_running o.answers 0 o.again in
    let ran =
      on_event_lem (suc o.again) o.again o.answers c (omega arith) proper.0 a.own proper.1 in
    let a₁ =
      event-Accounts (looks running c.prev_running_handles) running c ms new refl proper.1 a in
    let (c₂, rest, a₂) = run-Accounts os _ (ms ++ new) proper.2 a₁ in
    (
      c₂,
      ap (λ u. u >>= run_events os) ran ∙ rest,
      subst (Accounts c₂) (append_assoc ms new (all_messages os)) a₂,
    )

-- Any events of a new Curl, each of which libcurl is content with after some calls, and whose messages
-- name their own requests: all of them return. The transfers for which `done` was called, followed by
-- those whose messages wait, are the transfers that libcurl reported, once each and in their order.
-- When no handle runs, none waits: `done` was called for each.
pub run_events_lem :
    (os : List Occasion)
    → AllProper os
    → (c : Curl) × (run_events os start ≡ ok c)
      × (c.dones ++ done_of c.messages ≡ done_of (all_messages os))
      × (c.running_handles ≡ 0 → c.dones ≡ done_of (all_messages os))
run_events_lem os proper =
    let (c, ran, a) =
      run-Accounts os start [] proper (record { own = tt; kept = refl; clear = λ e. refl }) in
    (
      c,
      ran,
      a.kept,
      λ idle.
          sym (append-nil c.dones) ∙ (ap (λ t. c.dones ++ done_of t) (sym (a.clear idle)) ∙ a.kept),
    )
