-- ===== src/Buffer/Tests.antt =====
-- Runs of net/Buffer.h and net/Buffer.cc at small buffers.
use simplev.Prelude.{
  List, ◌+◌, ◌≤◌, ◌≡◌, ◌↔◌, refl, [], ◌∷◌, ◌++◌, replicate, arith, ok, err, assertion, read_at,
  write_at,
}
use simplev.Buffer.{
  Buffer, init, append, retrieve, shrink, read_fd, received, bytes_read, make_space,
  ensure_writable_bytes,
}
use simplev.Buffer.Contents.{IsValid, contents, init-IsValid}
use simplev.Buffer.Back.{read_fd_lem}
use simplev.Buffer.Refine.{Op, appends, retrieves, takes, Run, calls, calls-list_calls}
use simplev.Buffer.Shrink.{shrink_lem, shrunk}

-- Three readable bytes at the end of a vector of fifteen.
abbrev late : Buffer
late = record { bytes = replicate 12 0 ++ (7 ∷ 8 ∷ 9 ∷ []); reader_index = 12; writer_index = 15 }

late-IsValid : IsValid late
late-IsValid = omega arith

contents-late : contents late ≡ 7 ∷ 8 ∷ 9 ∷ []
contents-late = refl

-- Four bytes fit once the readable ones are moved to the front.
append_moves :
    append (1 ∷ 2 ∷ 3 ∷ 4 ∷ []) late
    ≡ ok (record {
      bytes = replicate 8 0 ++ (7 ∷ 8 ∷ 9 ∷ 1 ∷ 2 ∷ 3 ∷ 4 ∷ []);
      reader_index = 8;
      writer_index = 15;
    })
unfolding append ensure_writable_bytes make_space read_at write_at
append_moves = refl

retrieve_too_much : retrieve 4 late ≡ err assertion
unfolding retrieve
retrieve_too_much = refl

init-IsValid_example : IsValid init
init-IsValid_example = init-IsValid

read_fd_lem_example :
    (b' : Buffer) × (read_fd (received (1 ∷ 2 ∷ [])) late ≡ ok (bytes_read 2, b'))
    × IsValid b'
    × (contents b' ≡ 7 ∷ 8 ∷ 9 ∷ 1 ∷ 2 ∷ [])
read_fd_lem_example = read_fd_lem (1 ∷ 2 ∷ []) late-IsValid (omega arith) (omega arith)

-- Four bytes past the cheap prepend, no reserve: the result is not well-formed.
shrink_lem_example :
    let b' = record late { bytes = shrunk late 0 } in
    (shrink 0 late ≡ ok b') × (contents b' ≡ []) × (IsValid b' ↔ (12 ≤ 8 + 0))
shrink_lem_example = shrink_lem 0 late-IsValid (omega arith) (omega arith)

-- A run of calls that asks for more than there is at its end.
abbrev served : List Op
served = appends (1 ∷ 2 ∷ 3 ∷ []) ∷ retrieves 1 ∷ takes ∷ []

calls-list_calls_example :
    (r : Run Buffer) × (calls served (record { state = init; strings = [] }) ≡ ok r)
    × (contents r.state ≡ [])
    × (r.strings ≡ (2 ∷ 3 ∷ []) ∷ [])
calls-list_calls_example = calls-list_calls served (omega arith)

refused :
    calls (appends (1 ∷ []) ∷ retrieves 2 ∷ []) (record { state = init; strings = [] })
    ≡ err assertion
refused = calls-list_calls (appends (1 ∷ []) ∷ retrieves 2 ∷ []) (omega arith)
