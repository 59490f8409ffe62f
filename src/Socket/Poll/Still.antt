-- ===== src/Socket/Poll/Still.antt =====
-- The loop of the poll build while no byte moves: it times out, or never ends.
use netclass.Common.{
  ℕ, zero, suc, ℤ, pos, word_mod, ◌+◌, ◌-◌, ◌*◌, ◌/◌, ap, ap₂, ltb, ◌%◌, ◌≤◌, ◌<◌, ◌≡◌, refl, ◌∙◌,
  inl, inr, leb, true, false, Option, none, some, arith, Bool-cases,
}
use native.Mathlib.Nat.{mod-eq-sub-mul-div, mul-sub, mul_comm, mul-le-mul_right}
use netclass.Consts.{RetCode}
use netclass.Socket.Poll.Os.{PollOs}
use netclass.Socket.Poll.Loop.{Transfer, Direction, next, goes_on, round, checked, transfer}
use netclass.Socket.Poll.Outcome.{actual}

sub_unit : (a size q unit : ℕ) → a * unit - size * unit * q ≡ (a - size * q) * unit
sub_unit a size q unit =
    rw (mul_comm (a - size * q) unit, mul-sub unit a (size * q))
      (ap₂ ◌-◌ (grind arith) (grind arith))

-- A remainder by a multiple of `unit` of a multiple of it is one.
mod_unit : (a unit size : ℕ) → (k : ℕ) × ((a * unit) % (size * unit) ≡ k * unit)
mod_unit a unit size = (
  a - size * (a * unit / (size * unit)),
  mod-eq-sub-mul-div (a * unit) (size * unit) ∙ sub_unit a size (a * unit / (size * unit)) unit,
)

below_unit : (k size unit : ℕ) → k * unit < size * unit → k * unit + unit ≤ size * unit
below_unit k size unit h = elim (Bool-cases (ltb k size)) [
  | inl below ↦
      (let next_one : (k + 1) * unit ≤ size * unit = mul-le-mul_right unit (ground arith) in
        grind arith)
  | inr above ↦
      (let over : size * unit ≤ k * unit = mul-le-mul_right unit (ground arith) in
        absurd (omega arith))
]

module _ {W : Type 0} (os : PollOs W) (dir : Direction W) (buf_len : ℤ) (num : Option ℤ)
    (limit poll n : ℕ) where
  -- Bytes are asked for, and none has moved.
  pub record Still (t : Transfer W) : Type 0 where
    pub left : t.remaining ≡ pos (suc n)
    pub unmoved : t.off ≡ 0
    pub counted : t.num_actual ≡ actual num 0
    pub untimed : t.timedout ≡ 0
    pub limit_kept : t.sock.timeout ≡ limit
    pub poll_kept : t.sock.polltime ≡ poll

  -- The call is over and reports a time-out with no byte moved.
  pub record TimedOut (t : Transfer W) : Type 0 where
    pub over : goes_on os dir buf_len t ≡ false
    pub code : t.code ≡ RetCode.timedout
    pub unmoved : t.off ≡ 0
    pub counted : t.num_actual ≡ actual num 0

  pub checked-TimedOut :
      (t : Transfer W)
      → Still t
      → leb limit ((t.clock + poll) % word_mod) ≡ true
      → TimedOut (checked buf_len t)
  unfolding checked
  checked-TimedOut t s late = ground arith

  -- The round comes to checkTimeout and nothing has moved before it: below the limit the loop goes on
  -- in the state that checkTimeout leaves, at the limit the call is over.
  pub record Waits (t : Transfer W) : Type 0 where
    pub after : Transfer W
    pub still : Still after
    pub same_clock : after.clock ≡ t.clock
    pub goes :
        leb limit ((after.clock + poll) % word_mod) ≡ false
        → round os dir buf_len t ≡ next (checked buf_len after)
    pub ends :
        leb limit ((after.clock + poll) % word_mod) ≡ true
        → (u : Transfer W) × (round os dir buf_len t ≡ next u) × TimedOut u

  -- A round that comes to checkTimeout and does no more.
  pub plain-Waits :
      (t after : Transfer W)
      → round os dir buf_len t ≡ next (checked buf_len after)
      → Still after
      → after.clock ≡ t.clock
      → Waits t
  plain-Waits t after e s same = record {
    after = after;
    still = s;
    same_clock = same;
    goes = λ early. e;
    ends = λ late. (checked buf_len after, e, checked-TimedOut after s late);
  }

  checked-Still :
      (t : Transfer W)
      → Still t
      → leb limit ((t.clock + poll) % word_mod) ≡ false
      → Still (checked buf_len t)
  unfolding checked
  checked-Still t s early = ground arith

  checked-clock :
      (t : Transfer W) → Still t → (checked buf_len t).clock ≡ (t.clock + poll) % word_mod
  unfolding checked
  checked-clock t s = ground arith

  Still-goes_on : (t : Transfer W) → Still t → goes_on os dir buf_len t ≡ true
  Still-goes_on t s = ground arith

  transfer-next :
      (fuel : ℕ) (t u : Transfer W)
      → Still t
      → round os dir buf_len t ≡ next u
      → transfer os dir buf_len (suc fuel) t ≡ transfer os dir buf_len fuel u
  unfolding transfer
  transfer-next fuel t u s e = rw (Still-goes_on t s, e, transfer)

  transfer-over :
      (fuel : ℕ) (t : Transfer W)
      → 0 < fuel
      → TimedOut t
      → transfer os dir buf_len fuel t ≡ some (RetCode.timedout, t)
  unfolding transfer
  transfer-over zero t h d = absurd (omega arith)
  transfer-over (suc fuel) t h d = rw (d.over, transfer) (rw d.code)

  -- A round that is not the last leaves one round less to go.
  one_less :
      (f clock clock' : ℕ)
      → limit ≤ clock + f * poll
      → clock + poll < word_mod
      → clock' ≡ clock
      → leb limit ((clock' + poll) % word_mod) ≡ false
      → (f' : ℕ) × (f ≡ suc f') × (limit ≤ clock + poll + f' * poll) × (clock + poll < limit)
  one_less zero clock clock' reach nowrap e early = absurd (ground arith)
  one_less (suc f) clock clock' reach nowrap e early = (f, refl, omega arith, ground arith)

  -- A tick of a clock that goes in units.
  aligned_tick :
      (unit steps size clock : ℕ)
      → poll ≡ steps * unit
      → word_mod ≡ size * unit
      → word_mod < limit + unit
      → (next_clock : ℕ) × ((clock * unit + poll) % word_mod ≡ next_clock * unit)
        × ((clock * unit + poll) % word_mod < limit)
  aligned_tick unit steps size clock p m above =
      let sum : clock * unit + poll ≡ (clock + steps) * unit = grind arith in
      let (next_clock, left) = mod_unit (clock + steps) unit size in
      let small : ((clock + steps) * unit) % word_mod < word_mod = omega arith in
      let now : ((clock + steps) * unit) % word_mod ≡ next_clock * unit =
        ap (λ k. ((clock + steps) * unit) % k) m ∙ left in
      let whole : next_clock * unit + unit ≤ word_mod =
        rw m (below_unit next_clock size unit (omega arith)) in
      rw sum (next_clock, now, omega arith)

  module _ (waits : (t : Transfer W) → Still t → Waits t) where
    -- Enough rounds bring the time-out.
    pub transfer-TimedOut :
        (fuel f : ℕ) (t : Transfer W)
        → f + 2 ≤ fuel
        → limit + poll < word_mod
        → limit ≤ t.clock + f * poll
        → t.clock + poll < word_mod
        → Still t
        → (t' : Transfer W) × (transfer os dir buf_len fuel t ≡ some (RetCode.timedout, t'))
          × TimedOut t'
    transfer-TimedOut zero f t enough room reach nowrap s = absurd (omega arith)
    transfer-TimedOut (suc fuel) f t enough room reach nowrap s =
        elim (Bool-cases (leb limit ((w.after.clock + poll) % word_mod))) [
          | inl late ↦
              let (u, e, d) = w.ends late in
              (u, transfer-next fuel t u s e ∙ transfer-over fuel u (omega arith) d, d)
          | inr early ↦
              let (f', e, reach', below) =
                one_less f t.clock (w.after.clock) reach nowrap w.same_clock early in
              let tick = checked-clock w.after w.still in
              let (t', r, d) =
                transfer-TimedOut fuel f' (checked buf_len w.after) (omega arith) room
                  (omega (arith, w.same_clock)) (omega (arith, w.same_clock))
                  (checked-Still w.after w.still early) in
              (t', transfer-next fuel t _ s (w.goes early) ∙ r, d)
        ]
      where
        w : Waits t
        w = waits t s

    -- Where the polling time and 2 ^ 32 are multiples of `unit`, so is the clock, also when it wraps; with
    -- a limit above its last value the loop never ends.
    pub transfer-hangs :
        (unit steps size : ℕ)
        → poll ≡ steps * unit
        → word_mod ≡ size * unit
        → word_mod < limit + unit
        → (fuel clock : ℕ) (t : Transfer W) → t.clock ≡ clock * unit
        → Still t
        → transfer os dir buf_len fuel t ≡ none
    unfolding transfer
    transfer-hangs unit steps size p m above zero clock t c s = refl
    transfer-hangs unit steps size p m above (suc fuel) clock t c s =
        let w = waits t s in
        let (next_clock, now, below) = aligned_tick unit steps size clock p m above in
        let same : w.after.clock + poll ≡ clock * unit + poll = omega (arith, w.same_clock) in
        let early : leb limit ((w.after.clock + poll) % word_mod) ≡ false =
          rw same (ground (arith, below)) in
        transfer-next fuel t _ s (w.goes early)
        ∙ transfer-hangs unit steps size p m above fuel next_clock (checked buf_len w.after)
            (checked-clock w.after w.still ∙ rw same now) (checked-Still w.after w.still early)
