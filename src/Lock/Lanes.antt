-- ===== src/Lock/Lanes.antt =====
-- src/memory/lock.ts: the invariant of the lanes of `lock2`.
use knitting.Base.{ℕ, ◌<◌, true, false, ◌≡◌, refl, ap, subst, List, some, arith, ◌==◌}
use knitting.Base.Lanes.{Word, xor, zeros, bit, not_w, ◌^w◌, lead, highest-IsHighest}
use knitting.Header.{Task}
use knitting.Lock.{put_header, store_host, store_worker}
use knitting.Lock.Queue.{
  Sending, ready, written, idle, taking, Queue, initial, Step, Reach, begin, later, refresh, write,
  post, load, take, acknowledge, leave, pending, consumed_of, diff_of,
}

-- The lane that is written but not published.
abbrev pub writing : Sending → Word
writing ready i = false
writing (written at) i = i == at

-- Each word is the owner's copy; a lane that the sender sees as free is free, so what it does not
-- yet know of errs on the safe side; what the receiver has in hand is pending, and never the lane
-- that the sender is writing.
pub record Inv (q : Queue) : Type 0 where
  pub host : q.lock.host_bits ≡ q.lock.last_local
  pub worker : q.lock.worker_bits ≡ q.lock.last_worker
  pub stale :
      (i : ℕ)
      → xor (q.lock.last_local i) (q.lock.worker_shadow i) ≡ false
      → pending q.lock i ≡ false
  pub spare :
      (i : ℕ)
      → writing q.sender i ≡ true
      → (xor (q.lock.last_local i) (q.lock.worker_shadow i) ≡ false) × (i < 32)
  pub in_hand :
      (i : ℕ)
      → diff_of q.receiver i ≡ true
      → (pending q.lock i ≡ true) × (consumed_of q.receiver i ≡ false)
  pub taken : (i : ℕ) → consumed_of q.receiver i ≡ true → pending q.lock i ≡ true

pub lead_lem : (w : Word) {i : ℕ} → lead w ≡ some i → (i < 32) × (w i ≡ true)
unfolding lead
lead_lem w {i} h = let r = highest-IsHighest 32 w {i = i} h in (r.below, r.set)

pub initial-Inv : (headers : ℕ → Task) → Inv (initial headers)
initial-Inv headers = record {
  host = refl;
  worker = refl;
  stale = λ i h. refl;
  spare = λ i h. absurd (cc);
  in_hand = λ i h. absurd (cc);
  taken = λ i h. absurd (cc);
}

module _ {q : Queue} (v : Inv q) where
  refresh-Inv :
      q.sender ≡ ready
      → Inv (record q { lock = record q.lock { worker_shadow = q.lock.worker_bits } })
  refresh-Inv r = record {
    host = v.host;
    worker = v.worker;
    stale = λ i h. ground (arith, ap (λ f. f i) v.worker);
    spare = λ i h. absurd (ground (arith, ap (λ s. writing s i) r));
    in_hand = v.in_hand;
    taken = v.taken;
  }

  write-Inv :
      (task : Task) (at : ℕ)
      → lead (not_w (q.lock.last_local ^w q.lock.worker_shadow)) ≡ some at
      → Inv (record q {
        lock = record q.lock { headers = put_header q.lock.headers at task };
        sender = written at;
      })
  write-Inv task at h = record {
    host = v.host;
    worker = v.worker;
    stale = v.stale;
    spare = λ i e.
        let l = lead_lem (not_w (q.lock.last_local ^w q.lock.worker_shadow)) {i = at} h in
        let same : at ≡ i = ground arith in
        subst (λ x. (xor (q.lock.last_local x) (q.lock.worker_shadow x) ≡ false) × (x < 32)) same
          (ground arith, l.0);
    in_hand = v.in_hand;
    taken = v.taken;
  }

  post-Inv :
      (at : ℕ) (sent : List Task)
      → q.sender ≡ written at
      → Inv (record q { lock = store_host q.lock (bit at); sender = ready; sent = sent })
  unfolding store_host
  post-Inv at sent r =
      let here = λ (i : ℕ). ap (λ s. writing s i) r in
      record {
        host = refl;
        worker = v.worker;
        stale = λ i h. ground (arith, here i, v.spare i, v.stale i);
        spare = λ i h. absurd (cc);
        in_hand = λ i h. ground (arith, here i, v.spare i, v.stale i, v.in_hand i);
        taken = λ i h. ground (arith, here i, v.spare i, v.stale i, v.taken i);
      }

  load-Inv : Inv (record q { receiver = taking (q.lock.host_bits ^w q.lock.last_worker) zeros })
  load-Inv = record {
    host = v.host;
    worker = v.worker;
    stale = v.stale;
    spare = v.spare;
    in_hand = λ i h. (ground (arith, ap (λ f. f i) v.host), refl);
    taken = λ i h. absurd (cc);
  }

  module _ {diff consumed : Word} (r : q.receiver ≡ taking diff consumed) where
    hand : (i : ℕ) → diff_of q.receiver i ≡ diff i
    hand i = ap (λ s. diff_of s i) r

    used : (i : ℕ) → consumed_of q.receiver i ≡ consumed i
    used i = ap (λ s. consumed_of s i) r

    take-Inv :
        (at : ℕ) (got : List Task)
        → diff at ≡ true
        → Inv (record q { receiver = taking (diff ^w bit at) (consumed ^w bit at); got = got })
    take-Inv at got d =
        let at_i = λ (i : ℕ) (e : (i == at) ≡ true).
          let same : at ≡ i = ground arith in subst (λ x. diff x ≡ true) same d in
        record {
          host = v.host;
          worker = v.worker;
          stale = v.stale;
          spare = v.spare;
          in_hand = λ i h. ground (arith, at_i i, v.in_hand i, hand i, used i);
          taken = λ i h. ground (arith, at_i i, v.in_hand i, v.taken i, hand i, used i);
        }

    acknowledge-Inv :
        Inv (record q { lock = store_worker q.lock consumed; receiver = taking diff zeros })
    unfolding store_worker
    acknowledge-Inv = record {
      host = v.host;
      worker = refl;
      stale = λ i h. ground (arith, v.stale i, v.taken i, used i);
      spare = v.spare;
      in_hand = λ i h. ground (arith, v.in_hand i, hand i, used i);
      taken = λ i h. absurd (cc);
    }

    leave-Inv : Inv (record q { lock = store_worker q.lock consumed; receiver = idle })
    unfolding store_worker
    leave-Inv = record {
      host = v.host;
      worker = refl;
      stale = λ i h. ground (arith, v.stale i, v.taken i, used i);
      spare = v.spare;
      in_hand = λ i h. absurd (cc);
      taken = λ i h. absurd (cc);
    }

pub Step-Inv : {q q' : Queue} → Step q q' → Inv q → Inv q'
Step-Inv (refresh r) v = refresh-Inv v r
Step-Inv (write task at r h) v = write-Inv v task at h
Step-Inv (post at r) v = post-Inv v at _ r
Step-Inv (load r) v = load-Inv v
Step-Inv (take at r lt d) v = take-Inv v r at _ d
Step-Inv (acknowledge r) v = acknowledge-Inv v r
Step-Inv (leave r) v = leave-Inv v r

pub Reach-Inv : {headers : ℕ → Task} {q : Queue} → Reach headers q → Inv q
Reach-Inv {headers} begin = initial-Inv headers
Reach-Inv (later run s) = Step-Inv s (Reach-Inv run)
