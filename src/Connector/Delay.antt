-- ===== src/Connector/Delay.antt =====
-- netlib/net/Connector.cc: how long `retry` waits.
use netlib.Base.{ℕ, zero, suc, ◌*◌, ◌^◌, ◌≡◌, refl, ◌∙◌, min, arith}
use netlib.Connector.{next_delay}

-- The delay after `n` retries that follow a start with delay `d`.
abbrev pub delay_after : ℕ → ℕ → ℕ
unfolding next_delay
delay_after zero d = d
delay_after (suc n) d = next_delay (delay_after n d)

doubled : (x : ℕ) → min (min x 30000 * 2) 30000 ≡ min (x * 2) 30000
doubled x = omega arith

-- The delays double from 500 ms up to 30 s, where they stay.
delay_after_lem : (n : ℕ) → delay_after n 500 ≡ min (500 * 2 ^ n) 30000
unfolding delay_after next_delay
delay_after_lem zero = refl
delay_after_lem (suc n) = rw (delay_after_lem n) (doubled (500 * 2 ^ n) ∙ omega arith)
