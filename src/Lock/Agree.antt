-- ===== src/Lock/Agree.antt =====
-- `lock2`: what `decode` leaves of the words, as the steps and as the function write them.
use knitting.Base.{ℕ, ◌<◌, ◌≡◌, refl, ap, List, [], ◌∷◌, arith, Bool-cases, inl, inr}
use knitting.Base.Lanes.{Word, xor, is_zero, is_zero-lane}
use knitting.Header.{Task}
use knitting.Lock.{Lock, store_worker}
use knitting.Lock.Receive.{acknowledged}

-- The shared words and headers of two locks, and the owners' copies, agree.
pub record Agree (l l' : Lock) : Type 0 where
  pub host_bits : (i : ℕ) → i < 32 → l.host_bits i ≡ l'.host_bits i
  pub worker_bits : (i : ℕ) → i < 32 → l.worker_bits i ≡ l'.worker_bits i
  pub last_local : (i : ℕ) → i < 32 → l.last_local i ≡ l'.last_local i
  pub last_worker : (i : ℕ) → i < 32 → l.last_worker i ≡ l'.last_worker i
  pub headers : l.headers ≡ l'.headers

-- The headers of the lanes, put before a list in the order in which they are taken.
abbrev pub took : (ℕ → Task) → List ℕ → List Task → List Task
took h [] got = got
took h (at ∷ lanes) got = took h lanes (h at ∷ got)

-- The words of a lock after an acknowledgement: one store, or none where nothing was consumed.
pub record Stored (l : Lock) (consumed : Word) (a : Lock) : Type 0 where
  pub host_bits : a.host_bits ≡ l.host_bits
  pub last_local : a.last_local ≡ l.last_local
  pub headers : a.headers ≡ l.headers
  pub resolved : a.resolved ≡ l.resolved
  pub worker_bits : (i : ℕ) → i < 32 → a.worker_bits i ≡ xor (l.last_worker i) (consumed i)
  pub last_worker : (i : ℕ) → i < 32 → a.last_worker i ≡ xor (l.last_worker i) (consumed i)

pub acknowledged-Stored :
    (l : Lock) (consumed : Word)
    → l.worker_bits ≡ l.last_worker
    → Stored l consumed (acknowledged l consumed)
unfolding acknowledged store_worker
acknowledged-Stored l consumed w = elim (Bool-cases (is_zero consumed)) [
  | inl z ↦ rw z (record {
    host_bits = refl;
    last_local = refl;
    headers = refl;
    resolved = refl;
    worker_bits = λ i lt. ground (arith, is_zero-lane consumed i z lt, ap (λ f. f i) w);
    last_worker = λ i lt. ground (arith, is_zero-lane consumed i z lt);
  })
  | inr z ↦ rw z (record {
    host_bits = refl;
    last_local = refl;
    headers = refl;
    resolved = refl;
    worker_bits = λ i lt. ground arith;
    last_worker = λ i lt. ground arith;
  })
]
