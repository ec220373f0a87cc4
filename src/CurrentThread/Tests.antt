-- ===== src/CurrentThread/Tests.antt =====
-- Threads of Linux that ask for their numbers.
use simplev.Prelude.{◌≡◌, ◌≤◌, ◌<◌, refl, length, ok, err, assertion, arith, true}
use simplev.CurrentThread.{CurrentThread, init, cache_tid, tid, is_main_thread}
use simplev.CurrentThread.Tid.{tid_lem}
use simplev.LogStream
use simplev.LogStream.Printf.{padded, decimal_text}

tid_lem_example :
    (1234 < 100000
      → (t : CurrentThread) × (tid 1234 init ≡ ok (1234, t))
        × (length t.tid_string ≡ 6)
        × (tid 5 t ≡ ok (1234, t)))
    × (100000 ≤ 1234 → tid 1234 init ≡ err assertion)
tid_lem_example = tid_lem 1234 5 (omega arith)

too_many_threads : tid 100000 init ≡ err assertion
too_many_threads = (tid_lem 100000 0 (omega arith)).1 (omega arith)

main_thread : (t : CurrentThread) × (is_main_thread 12 12 init ≡ ok (true, t))
unfolding is_main_thread tid cache_tid padded decimal_text LogStream.Digits.emit LogStream.zero_at
main_thread = (_, refl)
