-- ===== src/Dispatcher/Tests.antt =====
-- A queue that counts its frames: those to be flushed, and those that the worker answers at once.
use knitting.Base.{ℕ, zero, suc, ◌+◌, ◌<◌, Bool, true, false, ◌&&◌, ◌≡◌, ◌⊎◌, refl, some, ltb, ◌==◌}
use knitting.Dispatcher.{Dispatcher, host_dispatcher_loop, dispatch_send}
use knitting.Dispatcher.Wake.{start, next, sent, check_comes}

abbrev complete_one : ℕ × ℕ → Bool × ℕ × (ℕ × ℕ)
complete_one (p, zero) = (false, 0, (p, 0))
complete_one (p, suc f) = (true, 1, (p, f))

abbrev pending : ℕ × ℕ → Bool
pending (p, f) = ltb 0 p

abbrev flush_one : ℕ × ℕ → Bool × (ℕ × ℕ)
flush_one (zero, f) = (false, (0, f))
flush_one (suc p, f) = (true, (p, f + 1))

abbrev idle : ℕ × ℕ → Bool
idle (p, f) = (p == 0) && (f == 0)

abbrev new : Dispatcher (ℕ × ℕ)
new = host_dispatcher_loop complete_one pending flush_one idle 0 10 (0, 0)

abbrev two_sent : Dispatcher (ℕ × ℕ)
two_sent = dispatch_send complete_one pending flush_one idle 0 10 (record new { queue = (2, 0) })

check_comes_example :
    (idle two_sent.queue ≡ false
      → (0 < two_sent.micros + two_sent.messages)
        ⊎ ((delay : ℕ) × (two_sent.backoff_timer ≡ some delay)))
    × (two_sent.is_running ≡ true → 0 < two_sent.micros + two_sent.messages)
    × (two_sent.in_flight ≡ false)
check_comes_example =
    check_comes complete_one pending flush_one idle 0 10 (next (start (0, 0) refl) (sent (2, 0)))
