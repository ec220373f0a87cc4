-- ===== src/Curl/Messages.antt =====
-- What the loops of Curl::onTimer, onRead, onWrite and checkFinish do with the messages of libcurl.
use simplev.Prelude.{
  ℕ, zero, suc, ◌≡◌, ◌<◌, refl, sym, ap, ◌∙◌, Bool, true, false, ◌||◌, List, [], ◌∷◌, ◌++◌,
  append-nil, append_assoc, some, arith, ok, assert, ensure-true, assertion, ltb, ◌>>=◌, ◌>>◌, ◌==◌,
  if◌then◌else◌, Bool-cases, inl, inr,
}
use simplev.Curl.{Curl, Answer, Message, perform, read_messages, check_finish}

-- The call `n` after the call `i` is the first that libcurl does not want again.
abbrev pub Stops : (ℕ → Answer) → ℕ → ℕ → Type 0
Stops answers i zero = (answers i).call_again ≡ false
Stops answers i (suc n) = ((answers i).call_again ≡ true) × Stops answers (suc i) n

-- What these calls say of running handles at last, and the messages that they queue.
abbrev pub last_running : (ℕ → Answer) → ℕ → ℕ → ℕ
last_running answers i zero = (answers i).running
last_running answers i (suc n) = last_running answers (suc i) n

abbrev pub gather : (ℕ → Answer) → ℕ → ℕ → List Message
gather answers i zero = (answers i).queues
gather answers i (suc n) = (answers i).queues ++ gather answers (suc i) n

abbrev pub performed : (ℕ → Answer) → ℕ → ℕ → Curl → Curl
performed answers i n c = record c {
  running_handles = last_running answers i n;
  messages = c.messages ++ gather answers i n;
}

pub perform_lem :
    (fuel n i : ℕ) (answers : ℕ → Answer) (c : Curl)
    → n < fuel
    → Stops answers i n
    → perform fuel answers i c ≡ some (performed answers i n c)
unfolding perform
perform_lem zero n i answers c h stops = absurd (omega (arith, h))
perform_lem (suc fuel) zero i answers c h stops = rw stops refl
perform_lem (suc fuel) (suc n) i answers c h stops =
    let c₁ = record c {
      running_handles = (answers i).running;
      messages = c.messages ++ (answers i).queues;
    } in
    rw stops.0 (
      perform_lem fuel n (suc i) answers c₁ (omega (arith, h)) stops.1
      ∙ ap (λ ms. some (record (performed answers i (suc n) c) { messages = ms }))
          (append_assoc c.messages (answers i).queues (gather answers (suc i) n)))

-- The messages of transfers that are over.
abbrev pub done_of : List Message → List Message
done_of [] = []
done_of (m ∷ ms) = let rest = done_of ms in if m.is_done then m ∷ rest else rest

keep_if-++ :
    (b : Bool) (m : Message) (rest all ys : List Message)
    → all ≡ rest ++ ys
    → (if b then m ∷ all else all) ≡ (if b then m ∷ rest else rest) ++ ys
keep_if-++ true m rest all ys e = ap (◌∷◌ m) e
keep_if-++ false m rest all ys e = e

pub done_of-++ : (xs ys : List Message) → done_of (xs ++ ys) ≡ done_of xs ++ done_of ys
done_of-++ [] ys = refl
done_of-++ (m ∷ ms) ys =
    keep_if-++ m.is_done m (done_of ms) (done_of (ms ++ ys)) (done_of ys) (done_of-++ ms ys)

-- CURLINFO_PRIVATE names the request of the message's handle.
abbrev pub AllOwn : List Message → Type 0
AllOwn [] = Unit {0}
AllOwn (m ∷ ms) = (m.owner ≡ m.easy_handle) × AllOwn ms

pub AllOwn-++ : (xs ys : List Message) → AllOwn xs → AllOwn ys → AllOwn (xs ++ ys)
AllOwn-++ [] ys p q = q
AllOwn-++ (x ∷ xs) ys p q = (p.0, AllOwn-++ xs ys p.1 q)

abbrev pub emptied : List Message → Curl → Curl
emptied ms c = record c { messages = []; dones = c.dones ++ done_of ms }

-- One message, by its kind.
read_message :
    (b : Bool) (m : Message) (ms : List Message) (c : Curl)
    → m.owner ≡ m.easy_handle
    → ((d : Curl) → read_messages ms d ≡ ok (emptied ms d))
    → (if b
        then (assert (m.owner == m.easy_handle)
            >> read_messages ms (record c { dones = c.dones ++ m ∷ [] }))
        else read_messages ms c)
      ≡ ok (record c {
        messages = [];
        dones = c.dones ++ (if b then m ∷ done_of ms else done_of ms);
      })
read_message true m ms c own ih =
    let is_own : (m.owner == m.easy_handle) ≡ true = ground (arith, own) in
    ensure-true is_own assertion _
    ∙ (ih (record c { dones = c.dones ++ m ∷ [] })
        ∙ ap (λ ds. ok (record c { messages = []; dones = ds }))
            (append_assoc c.dones (m ∷ []) (done_of ms)))
read_message false m ms c own ih = ih c

read_messages_lem :
    (ms : List Message) (c : Curl) → AllOwn ms → read_messages ms c ≡ ok (emptied ms c)
unfolding read_messages
read_messages_lem [] c own =
    ap (λ ds. ok (record c { messages = []; dones = ds })) (sym (append-nil c.dones))
read_messages_lem (m ∷ ms) c own =
    read_message m.is_done m ms c own.0 (λ d. read_messages_lem ms d own.1)

-- `checkFinish` looks only when fewer handles run than before, or none.
abbrev pub looks : ℕ → ℕ → Bool
looks running prev = ltb running prev || running == 0

abbrev pub checked : Curl → Curl
checked c =
    if looks c.running_handles c.prev_running_handles
    then record (emptied c.messages c) { prev_running_handles = c.running_handles }
    else record c { prev_running_handles = c.running_handles }

pub check_finish_lem : (c : Curl) → AllOwn c.messages → check_finish c ≡ ok (checked c)
unfolding check_finish
check_finish_lem c own = elim (Bool-cases (looks c.running_handles c.prev_running_handles)) [
  | inl t ↦ rw t (
      ap (λ u. u >>= λ (c' : Curl). ok (record c' { prev_running_handles = c'.running_handles }))
        (read_messages_lem c.messages c own))
  | inr t ↦ rw t refl
]
