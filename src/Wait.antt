-- ===== src/Wait.antt =====
-- `WaitUntil` of utils/utils.go, and the same loop in `Perform` of monitor/checks.go.
-- Time runs from the start of the wait. `cb` is what the callback says at each moment, and a call
-- takes no time. If both timers are due at once, Go picks either; `tick_first` is its choice.
use gonit.Base.{
  ℕ, zero, suc, ◌+◌, ◌*◌, ◌≤◌, ◌<◌, ◌≡◌, refl, sym, ◌∙◌, Bool, true, false, Option, none, some,
  arith, ltb, if◌then◌else◌, inl, inr, Bool-cases,
}

-- The answer, and the moment at which it is given. `none`: out of fuel.
unfoldable pub wait_from : (ℕ → Bool) → (ℕ → Bool) → ℕ → ℕ → ℕ → ℕ → Option (Bool × ℕ)
wait_from cb tick_first timeout interval zero now = none
wait_from cb tick_first timeout interval (suc fuel) now =
    let next = now + interval in
    let later = wait_from cb tick_first timeout interval fuel next in
    if cb now
    then some (true, now)
    else if ltb next timeout
    then later
    else if ltb timeout next
    then some (false, timeout)
    else if tick_first next
    then later
    else some (false, timeout)

-- `timeout + 1` rounds, and one for the start, are enough: the clock moves in each.
unfoldable pub wait_until : (ℕ → Bool) → (ℕ → Bool) → ℕ → ℕ → Option (Bool × ℕ)
wait_until cb tick_first timeout interval = wait_from cb tick_first timeout interval (timeout + 2) 0

module _ (cb tick_first : ℕ → Bool) (timeout interval : ℕ) where
  -- What the answer says, for a wait that goes on at `now`.
  abbrev pub Answer : ℕ → Bool × ℕ → Type 0
  Answer now (true, t) = (cb t ≡ true) × (t ≤ timeout) × ((k : ℕ) × (t ≡ now + k * interval))
  Answer now (false, t) =
      (t ≡ timeout) × ((k : ℕ) → now + k * interval < timeout → cb (now + k * interval) ≡ false)

  at_later : (now k : ℕ) → now + suc k * interval ≡ now + interval + k * interval
  at_later now k = omega arith

  at_now : (now : ℕ) → now + zero * interval ≡ now
  at_now now = omega arith

  Answer-earlier :
      (now : ℕ) (r : Bool × ℕ) → cb now ≡ false → Answer (now + interval) r → Answer now r
  Answer-earlier now (true, t) e (on, within, (k, at)) =
      (on, within, (suc k, at ∙ sym (at_later now k)))
  Answer-earlier now (false, t) e (at, off) = (at, each)
    where
      each : (k : ℕ) → now + k * interval < timeout → cb (now + k * interval) ≡ false
      each zero h = rw (at_now now) e
      each (suc k) h = rw (at_later now k) (off k (rw (at_later now k) at h))

  Answer-over : (now : ℕ) → cb now ≡ false → timeout ≤ now + interval → Answer now (false, timeout)
  Answer-over now e over = (refl, each)
    where
      each : (k : ℕ) → now + k * interval < timeout → cb (now + k * interval) ≡ false
      each zero h = rw (at_now now) e
      each (suc k) h = absurd (omega (arith, at_later now k, h, over))

  wait_from_lem :
      (fuel now : ℕ)
      → 0 < interval
      → now ≤ timeout
      → timeout + 2 ≤ fuel + now
      → (r : Bool × ℕ) × (wait_from cb tick_first timeout interval fuel now ≡ some r) × Answer now r
  unfolding wait_from
  wait_from_lem zero now i h f = absurd (omega arith)
  wait_from_lem (suc fuel) now i h f = elim (Bool-cases (cb now)) [
    | inl on ↦ ((true, now), rw on refl, (on, h, (zero, sym (at_now now))))
    | inr off ↦ rw off (elim (Bool-cases (ltb (now + interval) timeout)) [
      | inl more ↦
          let (r, done, a) = wait_from_lem fuel (now + interval) i (ground arith) (omega arith) in
          (r, rw more done, Answer-earlier now r off a)
      | inr last ↦ rw last (elim (Bool-cases (ltb timeout (now + interval))) [
        | inl over ↦ ((false, timeout), rw over refl, Answer-over now off (ground arith))
        | inr tie ↦ rw tie (elim (Bool-cases (tick_first (now + interval))) [
          | inl tick ↦
              let (r, done, a) =
                wait_from_lem fuel (now + interval) i (ground arith) (omega arith) in
              (r, rw tick done, Answer-earlier now r off a)
          | inr stop ↦ ((false, timeout), rw stop refl, Answer-over now off (ground arith))
        ])
      ])
    ])
  ]

  -- With a positive interval the wait ends. It answers yes only at a poll, no later than the
  -- timeout, at which the callback says yes; it answers no at the timeout, and then the callback
  -- said no at every poll before it, so a yes at a poll before the timeout is never missed.
  pub wait_until_lem :
      0 < interval
      → (r : Bool × ℕ) × (wait_until cb tick_first timeout interval ≡ some r) × Answer 0 r
  unfolding wait_until
  wait_until_lem i = wait_from_lem (timeout + 2) 0 i (omega arith) (omega arith)
