-- ===== src/Connector/Delay.antt =====
-- `retry` of Connector.cc: the delays of a row of attempts that fail.
use simplev.Prelude.{
  ℕ, zero, suc, ◌+◌, ◌*◌, ◌^◌, ◌≡◌, refl, sym, ap, ◌∙◌, true, List, [], ◌∷◌, ◌++◌, length, arith,
  min, append-nil, append_assoc,
}
use native.Mathlib.Nat.{pow-suc}
use simplev.Connector.{Connector, retry, init_retry_delay_ms, max_retry_delay_ms}

-- The attempts on the sockets fail one after the other.
unfoldable pub retry_all : List ℕ → Connector → Connector
retry_all [] c = c
retry_all (sockfd ∷ sockfds) c = retry_all sockfds (retry sockfd c)

-- Half a second, doubled `n` times, and no more than half a minute.
abbrev pub backoff : ℕ → ℕ
backoff n = min (init_retry_delay_ms * 2 ^ n) max_retry_delay_ms

-- The delays after `n` failures for the next `k`.
abbrev pub backoffs : ℕ → ℕ → List ℕ
backoffs n zero = []
backoffs n (suc k) = backoff n ∷ backoffs (suc n) k

backoff-suc : (n : ℕ) → min (backoff n * 2) max_retry_delay_ms ≡ backoff (suc n)
backoff-suc n =
    clip (500 * 2 ^ n) 30000
    ∙ ap (λ (d : ℕ). min d 30000) (double (2 ^ n) (2 ^ suc n) (pow-suc 2 n))
  where
    clip : (a m : ℕ) → min (min a m * 2) m ≡ min (a * 2) m
    clip a m = omega arith

    double : (p q : ℕ) → q ≡ p * 2 → 500 * p * 2 ≡ 500 * q
    double p q e = omega arith

retry-delay :
    (sockfd : ℕ) (c : Connector)
    → c.connect ≡ true
    → ((retry sockfd c).connect ≡ true)
      × ((retry sockfd c).timers ≡ c.timers ++ c.retry_delay_ms ∷ [])
      × ((retry sockfd c).retry_delay_ms ≡ min (c.retry_delay_ms * 2) max_retry_delay_ms)
unfolding retry
retry-delay sockfd c on = rw on (refl, refl, refl)

-- While the connector wants a connection, `k` attempts that fail after `n` failures since the last
-- `restart` start `k` timers, whose delays double from half a second on up to half a minute, and leave
-- the delay for the failure after them.
pub retry_all_lem :
    (sockfds : List ℕ) (n : ℕ) (c : Connector)
    → c.connect ≡ true
    → c.retry_delay_ms ≡ backoff n
    → ((retry_all sockfds c).timers ≡ c.timers ++ backoffs n (length sockfds))
      × ((retry_all sockfds c).retry_delay_ms ≡ backoff (length sockfds + n))
unfolding retry_all
retry_all_lem [] n c on delay = (sym (append-nil c.timers), delay ∙ ap backoff (omega arith))
retry_all_lem (sockfd ∷ sockfds) n c on delay =
    let (on', timers, delay') = retry-delay sockfd c on in
    let next : (retry sockfd c).retry_delay_ms ≡ backoff (suc n) =
      delay' ∙ (ap (λ (d : ℕ). min (d * 2) max_retry_delay_ms) delay ∙ backoff-suc n) in
    let rest = backoffs (suc n) (length sockfds) in
    let (all_timers, last) = retry_all_lem sockfds (suc n) (retry sockfd c) on' next in
    (
      all_timers
          ∙ (ap (λ (t : List ℕ). t ++ rest) timers
              ∙ (append_assoc c.timers (c.retry_delay_ms ∷ []) rest
                  ∙ ap (λ (d : ℕ). c.timers ++ (d ∷ rest)) delay)),
      last ∙ ap backoff (omega arith),
    )
