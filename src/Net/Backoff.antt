-- ===== src/Net/Backoff.antt =====
-- How long the reconnect loop waits.
use ircord_client.Base.{
  ℕ, zero, suc, ◌+◌, ◌-◌, ◌*◌, ◌^◌, ◌≤◌, min, ◌≡◌, refl, ap, ◌∙◌, false, leb, if◌then◌else◌, arith,
}
use ircord_client.Net.{Reconnect, connects, retries}

-- The loop after `n` rounds that end without a connection.
abbrev pub retries_times : ℕ → Reconnect → Reconnect
retries_times zero r = r
retries_times (suc n) r = retries (retries_times n r)

-- The seconds waited in `n` rounds: 1, 2, 4, 8, 16, 32, then 60 each.
abbrev pub total_wait : ℕ → ℕ
total_wait n = if leb n 6 then 2 ^ n - 1 else 63 + 60 * (n - 6)

pow_bound : (n : ℕ) → 64 ≤ 2 ^ suc (suc (suc (suc (suc (suc n)))))
pow_bound zero = omega arith
pow_bound (suc n) = omega (arith, pow_bound n)

late_rounds :
    (n : ℕ) (r : Reconnect)
    → retries_times (suc (suc (suc (suc (suc (suc n)))))) (connects r)
      ≡ record { delay = 60; attempt = 7 + n; waited = 63 + 60 * n; connected = false }
unfolding retries connects
late_rounds zero r = refl
late_rounds (suc n) r =
    ap retries (late_rounds n r)
    ∙ ap (λ x. record { delay = 60; attempt = x; waited = 63 + 60 * n + 60; connected = false })
        (omega arith)
    ∙ ap (λ x. record { delay = 60; attempt = 7 + suc n; waited = x; connected = false })
        (omega arith)

-- After a connection, and `n` rounds without one, the next delay is 2^n seconds and at most 60, the
-- attempts are counted from 1, and the loop has waited 1, 2, 4, 8, 16, 32 and then 60 seconds each
-- time; whatever the loop had counted before the connection.
pub retries_times-connects :
    (n : ℕ) (r : Reconnect)
    → let s = retries_times n (connects r) in
      (s.delay ≡ min (2 ^ n) 60) × (s.attempt ≡ n + 1) × (s.waited ≡ total_wait n)
unfolding retries connects
retries_times-connects zero r = (omega arith, omega arith, omega arith)
retries_times-connects (suc zero) r = (omega arith, omega arith, omega arith)
retries_times-connects (suc (suc zero)) r = (omega arith, omega arith, omega arith)
retries_times-connects (suc (suc (suc zero))) r = (omega arith, omega arith, omega arith)
retries_times-connects (suc (suc (suc (suc zero)))) r = (omega arith, omega arith, omega arith)
retries_times-connects (suc (suc (suc (suc (suc zero))))) r =
    (omega arith, omega arith, omega arith)
retries_times-connects (suc (suc (suc (suc (suc (suc n)))))) r =
    let late = late_rounds n r in
    (
      ap (λ s. s.delay) late ∙ omega (arith, pow_bound n),
      ap (λ s. s.attempt) late ∙ omega arith,
      ap (λ s. s.waited) late ∙ ground arith,
    )
