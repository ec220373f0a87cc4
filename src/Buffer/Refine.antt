-- ===== src/Buffer/Refine.antt =====
-- A buffer of Buffer.h is a queue of bytes: any calls of its methods behave as on a list.
use simplev.Prelude.{
  ℕ, ◌+◌, ◌≡◌, ◌≤◌, refl, sym, ap, subst, ◌∙◌, true, false, List, [], ◌∷◌, ◌++◌, length, drop,
  arith, Result, ok, err, assert, assertion, ◌>>=◌, ◌>>◌, leb, inl, inr, ensure-true, ensure-false,
  ap₂,
}
use simplev.Buffer.{
  Buffer, init, max_size, cheap_prepend, ensure_writable_bytes, append, retrieve, retrieve_all,
  retrieve_as_string,
}
use simplev.Buffer.Contents.{IsValid, contents, init-IsValid, contents-init}
use simplev.Buffer.Front.{retrieve_lem, retrieve_as_string_lem}
use simplev.Buffer.Space.{ensure_writable_bytes_lem}
use simplev.Buffer.Back.{append_lem}
use simplev.Buffer.Writer.{ensure-writer, append-writer, retrieve-writer, init-writer}

-- A call of a method, and what the calls so far returned.
pub data Op : Type 0 where
  appends : List ℕ → Op
  makes_room : ℕ → Op
  retrieves : ℕ → Op
  retrieves_all : Op
  takes : Op

pub record Run {ℓ} (A : Type ℓ) : Type ℓ where
  pub state : A
  pub strings : List (List ℕ)

unfoldable pub call : Op → Run Buffer → Result (Run Buffer)
unfolding append ensure_writable_bytes retrieve retrieve_all retrieve_as_string
call (appends str) r = append str r.state >>= λ b. ok (record r { state = b })
call (makes_room len) r = ensure_writable_bytes len r.state >>= λ b. ok (record r { state = b })
call (retrieves len) r = retrieve len r.state >>= λ b. ok (record r { state = b })
call retrieves_all r = ok (record r { state = retrieve_all r.state })
call takes r = retrieve_as_string r.state >>= λ (str, b).
    ok (record { state = b; strings = r.strings ++ str ∷ [] })

unfoldable pub calls : List Op → Run Buffer → Result (Run Buffer)
unfolding call
calls [] r = ok r
calls (o ∷ os) r = do r' ← call o r; calls os r'

-- The same on a list of bytes.
abbrev pub list_call : Op → Run (List ℕ) → Result (Run (List ℕ))
list_call (appends str) r = ok (record r { state = r.state ++ str })
list_call (makes_room len) r = ok r
list_call (retrieves len) r = do
  assert (leb len (length r.state))
  ok (record r { state = drop len r.state })
list_call retrieves_all r = ok (record r { state = [] })
list_call takes r = ok (record { state = []; strings = r.strings ++ r.state ∷ [] })

abbrev pub list_calls : List Op → Run (List ℕ) → Result (Run (List ℕ))
list_calls [] r = ok r
list_calls (o ∷ os) r = list_call o r >>= list_calls os

-- The bytes for which the calls want room, all together.
abbrev need : Op → ℕ
need (appends str) = length str
need (makes_room len) = len
need _ = 0

abbrev pub demand : List Op → ℕ
demand [] = 0
demand (o ∷ os) = need o + demand os

-- The buffer holds the list and has returned the same strings.
record Holds (r : Run Buffer) (l : Run (List ℕ)) : Type 0 where
  valid : IsValid r.state
  same : contents r.state ≡ l.state
  returned : r.strings ≡ l.strings

-- Both fail with the same fault, or both end.
abbrev Agrees : ℕ → Result (Run Buffer) → Result (Run (List ℕ)) → Type 0
Agrees room m (err fault) = m ≡ err fault
Agrees room m (ok l) = (r : Run Buffer) × (m ≡ ok r) × Holds r l × (r.state.writer_index ≤ room)

bind-Agrees :
    (room room' : ℕ) (m : Result (Run Buffer)) (x : Result (Run (List ℕ)))
    (k : Run Buffer → Result (Run Buffer)) (k' : Run (List ℕ) → Result (Run (List ℕ)))
    → Agrees room m x
    → ((r : Run Buffer) (l : Run (List ℕ))
        → Holds r l
        → r.state.writer_index ≤ room
        → Agrees room' (k r) (k' l))
    → Agrees room' (m >>= k) (x >>= k')
bind-Agrees room room' m (err fault) k k' failed next = ap (λ n. n >>= k) failed
bind-Agrees room room' m (ok l) k k' (r, ran, holds, up) next =
    subst (λ n. Agrees room' (n >>= k) (k' l)) (sym ran) (next r l holds up)

retrieve-Agrees :
    (len room : ℕ) (r : Run Buffer) (l : Run (List ℕ))
    → Holds r l
    → r.state.writer_index ≤ room
    → Agrees room (call (retrieves len) r) (list_call (retrieves len) l)
unfolding call
retrieve-Agrees len room r l h up =
    let size : length (contents r.state) ≡ length l.state = ap length h.same in
    elim (retrieve_lem len h.valid) [
      | inl (few, (b, ran, valid, c)) ↦
          let enough : leb len (length l.state) ≡ true = ground (arith, few, size) in
          subst (Agrees room (call (retrieves len) r)) (sym (ensure-true enough assertion _)) (
            record r { state = b },
            ap (λ n. n >>= λ b. ok (record r { state = b })) ran,
            record { valid = valid; same = c ∙ ap (drop len) h.same; returned = h.returned },
            omega (arith, retrieve-writer len r.state ran, up),
          )
      | inr (many, failed) ↦
          let short : leb len (length l.state) ≡ false = ground (arith, many, size) in
          subst (Agrees room (call (retrieves len) r)) (sym (ensure-false short assertion _))
            (ap (λ n. n >>= λ b. ok (record r { state = b })) failed)
    ]

call-Agrees :
    (o : Op) (room : ℕ) (r : Run Buffer) (l : Run (List ℕ))
    → Holds r l
    → r.state.writer_index ≤ room
    → cheap_prepend ≤ room
    → room + need o ≤ max_size
    → Agrees (room + need o) (call o r) (list_call o l)
unfolding call
call-Agrees (appends str) room r l h up low fits =
    let (b, ran, valid, c) = append_lem str h.valid (omega (arith, up, fits)) in
    (
      record r { state = b },
      ap (λ n. n >>= λ b. ok (record r { state = b })) ran,
      record { valid = valid; same = c ∙ ap (λ t. t ++ str) h.same; returned = h.returned },
      omega (arith, append-writer str h.valid ran, up),
    )
call-Agrees (makes_room len) room r l h up low fits =
    let (b, ran, valid, c, _) = ensure_writable_bytes_lem len h.valid (omega (arith, up, fits)) in
    (
      record r { state = b },
      ap (λ n. n >>= λ b. ok (record r { state = b })) ran,
      record { valid = valid; same = c ∙ h.same; returned = h.returned },
      omega (arith, ensure-writer len h.valid ran, up),
    )
call-Agrees (retrieves len) room r l h up low fits =
    retrieve-Agrees len (room + 0) r l h (omega (arith, up))
call-Agrees retrieves_all room r l h up low fits =
    let (_, valid, c) = retrieve_as_string_lem h.valid in
    (
      record r { state = retrieve_all r.state },
      refl,
      record { valid = valid; same = c; returned = h.returned },
      omega (arith, low),
    )
call-Agrees takes room r l h up low fits =
    let (ran, valid, c) = retrieve_as_string_lem h.valid in
    (
      record { state = retrieve_all r.state; strings = r.strings ++ contents r.state ∷ [] },
      ap (λ n. n >>= λ (str, b). ok (record { state = b; strings = r.strings ++ str ∷ [] })) ran,
      record { valid = valid; same = c; returned = ap₂ (λ x y. x ++ y ∷ []) h.returned h.same },
      omega (arith, low),
    )

calls-Agrees :
    (os : List Op) (room : ℕ) (r : Run Buffer) (l : Run (List ℕ))
    → Holds r l
    → r.state.writer_index ≤ room
    → cheap_prepend ≤ room
    → room + demand os ≤ max_size
    → Agrees (room + demand os) (calls os r) (list_calls os l)
unfolding calls
calls-Agrees [] room r l h up low fits = (r, refl, h, omega (arith, up))
calls-Agrees (o ∷ os) room r l h up low fits =
    bind-Agrees (room + need o) (room + demand (o ∷ os)) (call o r) (list_call o l) (calls os)
      (list_calls os) (call-Agrees o room r l h up low (omega (arith, fits)))
      λ r' l' h' up'.
        let e : (room + need o) + demand os ≡ room + demand (o ∷ os) = omega arith in
        subst (λ n. Agrees n (calls os r') (list_calls os l')) e
          (calls-Agrees os (room + need o) r' l' h' up' (omega (arith, low)) (omega (arith, fits)))

-- What a run on a buffer has to do with the run on a list.
abbrev pub Refines : Result (Run Buffer) → Result (Run (List ℕ)) → Type 0
Refines m (err fault) = m ≡ err fault
Refines m (ok l) =
    (r : Run Buffer) × (m ≡ ok r) × (contents r.state ≡ l.state) × (r.strings ≡ l.strings)

Agrees-Refines :
    (room : ℕ) (m : Result (Run Buffer)) (x : Result (Run (List ℕ))) → Agrees room m x → Refines m x
Agrees-Refines room m (err fault) a = a
Agrees-Refines room m (ok l) (r, ran, h, up) = (r, ran, h.same, h.returned)

-- Any calls of `append`, `ensureWritableBytes`, `retrieve`, `retrieveAll` and `retrieveAsString` on a new
-- buffer, which together ask for no more room than a vector can have: they end where the same
-- calls on a list of bytes end, with the list as the readable bytes and the same strings returned; and
-- where the list has too few bytes for a `retrieve`, the assertion of the buffer fails likewise.
pub calls-list_calls :
    (os : List Op)
    → 8 + demand os ≤ max_size
    → Refines
        (calls os (record { state = init; strings = [] }))
        (list_calls os (record { state = []; strings = [] }))
calls-list_calls os fits = Agrees-Refines (8 + demand os) _ _ (
    calls-Agrees os 8 (record { state = init; strings = [] }) (record { state = []; strings = [] })
      (record { valid = init-IsValid; same = contents-init; returned = refl }) init-writer
      (omega arith) fits)
