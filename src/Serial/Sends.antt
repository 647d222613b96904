-- ===== src/Serial/Sends.antt =====
-- src/api.ts: what calls to `send`, and a lane that leaves, keep of the active lanes.
use knitting.Base.{
  ℕ, zero, suc, ◌+◌, ◌<◌, true, false, ◌≡◌, ◌⊎◌, refl, ap, sym, ◌∙◌, subst, List, [], ◌∷◌, ◌++◌,
  some, arith, ltb, ◌==◌, if◌then◌else◌, length, get_elem?, set, Bool-cases, inl, inr,
}
use knitting.Base.Maps.{occurs, occurs-append, one_if}
use knitting.Serial.{Serial, pop, mark_active, schedule_serial_check, send, sends}

pop-cons : (x : ℕ) (xs : List ℕ) → (pop (x ∷ xs)).1 ++ (pop (x ∷ xs)).0 ∷ [] ≡ x ∷ xs
pop-cons x [] = refl
pop-cons x (y ∷ ys) = ap (λ l. x ∷ l) (pop-cons y ys)

occurs-set :
    (x : ℕ) (xs : List ℕ) (i lane last : ℕ)
    → get_elem? xs i ≡ some lane
    → occurs x (set xs i last) + one_if (lane == x) ≡ occurs x xs + one_if (last == x)
occurs-set x [] i lane last h = absurd (cc)
occurs-set x (y ∷ ys) zero lane last h = let same : y ≡ lane = cc in rw same (omega arith)
occurs-set x (y ∷ ys) (suc i) lane last h = omega (arith, occurs-set x ys i lane last h)

pub get-occurs : (xs : List ℕ) (i lane : ℕ) → get_elem? xs i ≡ some lane → 0 < occurs lane xs
get-occurs [] i lane h = absurd (cc)
get-occurs (x ∷ xs) zero lane h = let same : x ≡ lane = cc in ground arith
get-occurs (x ∷ xs) (suc i) lane h = omega (arith, get-occurs xs i lane h)

get-append :
    (xs ys : List ℕ) (i lane : ℕ) → get_elem? xs i ≡ some lane → get_elem? (xs ++ ys) i ≡ some lane
get-append [] ys i lane h = absurd (cc)
get-append (x ∷ xs) ys zero lane h = h
get-append (x ∷ xs) ys (suc i) lane h = get-append xs ys i lane h

get-init :
    (xs : List ℕ) (last i lane : ℕ)
    → get_elem? (xs ++ last ∷ []) i ≡ some lane
    → ((ltb i (length xs) ≡ true) × (get_elem? xs i ≡ some lane))
      ⊎ ((ltb i (length xs) ≡ false) × (lane ≡ last))
get-init [] last zero lane h = inr (refl, cc)
get-init [] last (suc i) lane h = absurd (cc)
get-init (x ∷ xs) last zero lane h = inl (ground arith, h)
get-init (x ∷ xs) last (suc i) lane h = ground (arith, get-init xs last i lane h)

-- What leaves is the lane at the index, once.
pub leave-occurs :
    (x : ℕ) (xs : List ℕ) (i lane : ℕ)
    → get_elem? xs i ≡ some lane
    → occurs x (if ltb i (length (pop xs).1) then set (pop xs).1 i (pop xs).0 else (pop xs).1)
        + one_if (lane == x)
      ≡ occurs x xs
leave-occurs x [] i lane h = absurd (cc)
leave-occurs x (y ∷ ys) i lane h =
    let rest = (pop (y ∷ ys)).1 in
    let last = (pop (y ∷ ys)).0 in
    let whole = pop-cons y ys in
    let total = ap (occurs x) (sym whole) ∙ occurs-append x rest (last ∷ []) in
    elim (get-init rest last i lane (ap (λ l. get_elem? l i) whole ∙ h)) [
      | inl (inside, g) ↦ rw inside (omega (arith, total, occurs-set x rest i lane last g))
      | inr (out, same) ↦ rw (out, same) (omega (arith, total))
    ]

-- Each lane is in `active` as its flag says.
abbrev pub Once : {S : Type 0} → Serial S → Type 0
Once d = (x : ℕ) → occurs x d.active ≡ one_if (d.is_active x)

module _ {S : Type 0} where
  -- What calls to `send` keep.
  pub record Sent (d d' : Serial S) : Type 0 where
    pub state : d'.state ≡ d.state
    pub in_flight : d'.in_flight ≡ d.in_flight
    pub more : (x : ℕ) → d.is_active x ≡ true → d'.is_active x ≡ true
    pub once : Once d → Once d'
    pub stays : (i lane : ℕ) → get_elem? d.active i ≡ some lane → get_elem? d'.active i ≡ some lane
    pub queued : (d.scheduled ≡ true → 0 < d.micros) → d'.scheduled ≡ true → 0 < d'.micros

  Sent-refl : (d : Serial S) → Sent d d
  Sent-refl d = record {
    state = refl;
    in_flight = refl;
    more = λ x h. h;
    once = λ h. h;
    stays = λ i lane h. h;
    queued = λ h. h;
  }

  Sent-trans : {a b c : Serial S} → Sent a b → Sent b c → Sent a c
  Sent-trans p q = record {
    state = q.state ∙ p.state;
    in_flight = q.in_flight ∙ p.in_flight;
    more = λ x h. q.more x (p.more x h);
    once = λ h. q.once (p.once h);
    stays = λ i lane h. q.stays i lane (p.stays i lane h);
    queued = λ h. q.queued (p.queued h);
  }

  mark_active-Sent : (d : Serial S) (lane : ℕ) → Sent d (mark_active d lane)
  unfolding mark_active
  mark_active-Sent d lane = elim (Bool-cases (d.is_active lane)) [
    | inl a ↦ rw a (Sent-refl d)
    | inr a ↦ rw a (record {
      state = refl;
      in_flight = refl;
      more = λ x h. ground arith;
      once = λ h x. ground (arith, h x, occurs-append x d.active (lane ∷ []));
      stays = λ i l h. get-append d.active (lane ∷ []) i l h;
      queued = λ h. h;
    })
  ]

  schedule-Sent : (d : Serial S) → Sent d (schedule_serial_check d)
  unfolding schedule_serial_check
  schedule-Sent d = elim (Bool-cases d.in_flight) [
    | inl f ↦ rw f (record {
      state = refl;
      in_flight = refl;
      more = λ x h. h;
      once = λ h. h;
      stays = λ i l h. h;
      queued = λ h. h;
    })
    | inr f ↦ elim (Bool-cases d.scheduled) [
      | inl s ↦ rw (f, s) (Sent-refl _)
      | inr s ↦
          rw (f, s)
            (record {
              state = refl;
              in_flight = refl;
              more = λ x h. h;
              once = λ h. h;
              stays = λ i l h. h;
              queued = λ h _. omega arith;
            })
    ]
  ]

  pub send-Sent : (d : Serial S) (lane : ℕ) → Sent d (send d lane)
  unfolding send
  send-Sent d lane =
      let s = Sent-trans (mark_active-Sent d lane) (schedule-Sent (mark_active d lane)) in
      record {
        state = s.state;
        in_flight = s.in_flight;
        more = s.more;
        once = s.once;
        stays = s.stays;
        queued = s.queued;
      }

  mark_active-marks : (d : Serial S) (lane : ℕ) → (mark_active d lane).is_active lane ≡ true
  unfolding mark_active
  mark_active-marks d lane = elim (Bool-cases (d.is_active lane)) [
    | inl a ↦ rw a a
    | inr a ↦ rw a (ground arith)
  ]

  pub send-marks : (d : Serial S) (lane : ℕ) → (send d lane).is_active lane ≡ true
  unfolding send
  send-marks d lane = Sent.more (schedule-Sent (mark_active d lane)) lane (mark_active-marks d lane)

  pub send-schedules :
      (d : Serial S) (lane : ℕ) → d.in_flight ≡ false → (send d lane).scheduled ≡ true
  unfolding send schedule_serial_check
  send-schedules d lane f =
      let d1 : Serial S = mark_active d lane in
      let f1 : d1.in_flight ≡ false = Sent.in_flight (mark_active-Sent d lane) ∙ f in
      elim (Bool-cases d1.scheduled) [ inl s ↦ rw (f1, s) refl | inr s ↦ rw (f1, s) refl ]

  pub sends-Sent : (lanes : List ℕ) (d : Serial S) → Sent d (sends d lanes)
  sends-Sent [] d = Sent-refl d
  sends-Sent (lane ∷ lanes) d = Sent-trans (send-Sent d lane) (sends-Sent lanes (send d lane))

  pub sends-mark :
      (lanes : List ℕ) (d : Serial S) (x : ℕ)
      → 0 < occurs x lanes
      → (sends d lanes).is_active x ≡ true
  sends-mark [] d x h = absurd (omega arith)
  sends-mark (lane ∷ lanes) d x h = elim (Bool-cases (lane == x)) [
    | inl e ↦
        let at : lane ≡ x = ground arith in
        Sent.more (sends-Sent lanes (send d lane)) x
          (subst (λ y. (send d lane).is_active y ≡ true) at (send-marks d lane))
    | inr e ↦ sends-mark lanes (send d lane) x (ground arith)
  ]
