-- ===== src/Lock/Taken.antt =====
-- src/memory/lock.ts: `decode` and the steps of the receiver.
use knitting.Base.{
  ℕ, zero, suc, ◌<◌, Bool, true, false, ◌≡◌, refl, sym, ◌∙◌, ap, subst, List, [], ◌∷◌, ◌++◌, Option,
  some, arith, Bool-cases, Option-cases, inl, inr, ◌⊎◌,
}
use knitting.Base.Count.{count-le}
use knitting.Base.Lanes.{Word, xor, zeros, bit, ◌^w◌, is_zero, lead, is_zero-lane}
use knitting.Header.{Task, fill_from}
use knitting.Lock.{Lock, store_worker}
use knitting.Lock.Receive.{
  pick, Drained, Answer, decoded, failed, decode_at, drain, acknowledged, decode,
}
use knitting.Lock.Queue.{idle, taking, Queue, load, take, leave}
use knitting.Lock.Drain.{pick-some, drain-empties, drain-consumed}
use knitting.Lock.Runs.{Run, stop, more, before}
use knitting.Lock.Agree.{Agree, took, acknowledged-Stored}

module _ (decode_task : Task → ℕ → Option Task) where
  -- The decoded tasks of the lanes, appended to a list.
  abbrev Delivered : (ℕ → Task) → List ℕ → List Task → List Task → Type 0
  Delivered h [] from to = from ≡ to
  Delivered h (at ∷ lanes) from to =
      (t : Task) × (decode_task (fill_from (h at)) at ≡ some t)
      × Delivered h lanes (from ++ t ∷ []) to

  -- What the loop leaves of a queue whose receiver has the snapshot in hand.
  pub record Loop (q : Queue) (l : Lock) (d : Drained) : Type 0 where
    pub after : Queue
    pub lanes : List ℕ
    pub run : Run q after
    pub receiver : after.receiver ≡ taking d.diff d.consumed
    pub lock : after.lock ≡ q.lock
    pub sender : after.sender ≡ q.sender
    pub sent : after.sent ≡ q.sent
    pub got : after.got ≡ took l.headers lanes q.got
    delivered : Delivered l.headers lanes l.resolved d.lock.resolved
    pub same : d.lock ≡ record l { resolved = d.lock.resolved }

  done-Loop :
      (q : Queue) (l : Lock) (diff consumed : Word) (last : ℕ) (threw : Bool)
      → q.receiver ≡ taking diff consumed
      → Loop q l (record { lock = l; diff = diff; last = last; consumed = consumed; threw = threw })
  done-Loop q l diff consumed last threw r = record {
    after = q;
    lanes = [];
    run = stop;
    receiver = r;
    lock = refl;
    sender = refl;
    sent = refl;
    got = refl;
    delivered = refl;
    same = refl;
  }

  drain-Loop :
      (n : ℕ) (q : Queue) (l : Lock) (diff : Word) (last : ℕ) (consumed : Word)
      → q.receiver ≡ taking diff consumed
      → q.lock.headers ≡ l.headers
      → Loop q l (drain decode_task n l diff last consumed)
  unfolding drain decode_at
  drain-Loop zero q l diff last consumed r h = done-Loop q l diff consumed last false r
  drain-Loop (suc n) q l diff last consumed r h = elim (Option-cases (lead (pick last diff))) [
    | inl e ↦ rw (e, drain) (done-Loop q l diff consumed last false r)
    | inr (at, e) ↦ elim (Option-cases (decode_task (fill_from (l.headers at)) at)) [
      | inl f ↦ rw (e, f, drain, decode_at) (done-Loop q l diff consumed last true r)
      | inr (t, f) ↦
          let (lt, s) = pick-some last diff {at = at} e in
          let q' : Queue = record q {
            receiver = taking (diff ^w bit at) (consumed ^w bit at);
            got = q.lock.headers at ∷ q.got;
          } in
          let l' : Lock = record l { resolved = l.resolved ++ t ∷ [] } in
          let rest = drain-Loop n q' l' (diff ^w bit at) at (consumed ^w bit at) refl h in
          rw (e, f, drain, decode_at)
            (record {
              after = rest.after;
              lanes = at ∷ rest.lanes;
              run = before (take at r lt s) rest.run;
              receiver = rest.receiver;
              lock = rest.lock;
              sender = rest.sender;
              sent = rest.sent;
              got = rest.got ∙ ap (λ x. took l.headers rest.lanes (x at ∷ q.got)) h;
              delivered = (t, f, rest.delivered);
              same = rest.same;
            })
    ]
  ]

  -- What a call of `decode` leaves.
  pub record Taken (q : Queue) (answer : Answer) (l : Lock) : Type 0 where
    pub after : Queue
    pub lanes : List ℕ
    pub run : Run q after
    pub receiver : after.receiver ≡ idle
    pub agree : Agree after.lock l
    pub sender : after.sender ≡ q.sender
    pub sent : after.sent ≡ q.sent
    pub got : after.got ≡ took q.lock.headers lanes q.got
    delivered : Delivered q.lock.headers lanes q.lock.resolved l.resolved
    -- Unless decoding threw, nothing that the sender had published is left.
    emptied : (answer ≡ failed) ⊎ ((i : ℕ) → i < 32 → xor (l.host_bits i) (l.last_worker i) ≡ false)

  left-Taken :
      (q : Queue) (answer : Answer) (d : Drained) (last : ℕ)
      → q.lock.worker_bits ≡ q.lock.last_worker
      → q.receiver ≡ idle
      → (loop : Loop
          (record q { receiver = taking (q.lock.host_bits ^w q.lock.last_worker) zeros })
          q.lock
          d)
      → (answer ≡ failed) ⊎ ((i : ℕ) → i < 32 → d.diff i ≡ false)
      → ((i : ℕ) → xor (d.diff i) (d.consumed i) ≡ xor (q.lock.host_bits i) (q.lock.last_worker i))
      → Taken q answer (record (acknowledged d.lock d.consumed) { last_take = last })
  unfolding store_worker
  left-Taken q answer d last w r loop none_left total =
      let st =
        acknowledged-Stored d.lock d.consumed
          (ap (λ x. x.worker_bits) loop.same ∙ w ∙ sym (ap (λ x. x.last_worker) loop.same)) in
      let final : Queue = record loop.after {
        lock = store_worker loop.after.lock d.consumed;
        receiver = idle;
      } in
      let lw = ap (λ (x : Lock). x.last_worker) loop.lock in
      let dw = ap (λ (x : Lock). x.last_worker) loop.same in
      let dh = ap (λ (x : Lock). x.host_bits) loop.same in
      record {
        after = final;
        lanes = loop.lanes;
        run = before (load r) (more loop.run (leave loop.receiver));
        receiver = refl;
        agree = record {
          host_bits = λ i lt.
              ap (λ (x : Lock). x.host_bits i) loop.lock ∙ sym (ap (λ f. f i) (st.host_bits ∙ dh));
          worker_bits =
              λ i lt. ground (arith, st.worker_bits i lt, ap (λ f. f i) lw, ap (λ f. f i) dw);
          last_local = λ i lt.
              ap (λ (x : Lock). x.last_local i) loop.lock
              ∙ sym (ap (λ f. f i) (st.last_local ∙ ap (λ (x : Lock). x.last_local) loop.same));
          last_worker =
              λ i lt. ground (arith, st.last_worker i lt, ap (λ f. f i) lw, ap (λ f. f i) dw);
          headers =
              ap (λ (x : Lock). x.headers) loop.lock
              ∙ sym (st.headers ∙ ap (λ (x : Lock). x.headers) loop.same);
        };
        sender = loop.sender;
        sent = loop.sent;
        got = loop.got;
        delivered =
            subst (λ x. Delivered q.lock.headers loop.lanes q.lock.resolved x) (sym st.resolved)
              loop.delivered;
        emptied = elim none_left [
          | inl threw ↦ inl threw
          | inr clear ↦ inr (λ i lt. ground (
            arith,
            clear i lt,
            total i,
            st.last_worker i lt,
            ap (λ f. f i) dw,
            ap (λ f. f i) (st.host_bits ∙ dh),
          ))
        ];
      }

  -- For an idle receiver whose word in memory is its own copy: a call of `decode` is a run of the
  -- receiver's steps. It hands the header of each lane that it took to the codec and delivers the
  -- result; unless the codec threw, no lane is left pending.
  pub decode-Taken :
      (q : Queue)
      → q.lock.worker_bits ≡ q.lock.last_worker
      → q.receiver ≡ idle
      → let (answer, l) = decode decode_task q.lock in Taken q answer l
  unfolding decode
  decode-Taken q w r =
      let diff = q.lock.host_bits ^w q.lock.last_worker in
      let q1 : Queue = record q { receiver = taking diff zeros } in
      let d = drain decode_task 32 q.lock diff q.lock.last_take zeros in
      let loop = drain-Loop 32 q1 q.lock diff q.lock.last_take zeros refl refl in
      let total = λ (i : ℕ).
        drain-consumed decode_task 32 q.lock diff q.lock.last_take zeros i ∙ ground arith in
      elim (Bool-cases (is_zero diff)) [
        | inl z ↦ rw z (record {
          after = q;
          lanes = [];
          run = stop;
          receiver = r;
          agree = record {
            host_bits = λ i lt. refl;
            worker_bits = λ i lt. refl;
            last_local = λ i lt. refl;
            last_worker = λ i lt. refl;
            headers = refl;
          };
          sender = refl;
          sent = refl;
          got = refl;
          delivered = refl;
          emptied = inr (λ i lt. is_zero-lane diff i z lt);
        })
        | inr z ↦ elim (Bool-cases d.threw) [
          | inl t ↦
              rw (z, t)
                (left-Taken q failed d (acknowledged d.lock d.consumed).last_take w r loop
                  (inl refl) total)
          | inr t ↦
              rw (z, t)
                (left-Taken q decoded d d.last w r loop
                  (inr (λ i lt.
                    drain-empties decode_task 32 q.lock diff q.lock.last_take zeros
                      (count-le 32 diff) t i lt))
                  total)
        ]
      ]
