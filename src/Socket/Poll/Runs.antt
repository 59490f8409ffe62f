-- ===== src/Socket/Poll/Runs.antt =====
-- The whole loop of the poll build: what it returns, and that it returns.
use netclass.Common.{
  ℕ, zero, suc, ℤ, pos, negsuc, ◌/◌, word_mod, ◌+◌, ◌*◌, ◌%◌, ◌≤◌, ◌<◌, ◌≡◌, refl, sym, ◌∙◌, ◌⊎◌,
  inl, inr, true, false, List, Option, some, arith, Bool-cases,
}
use netclass.Consts.{RetCode}
use netclass.Socket.State.{NcSocket}
use netclass.Socket.Poll.Calls.{begin}
use netclass.Socket.Poll.Os.{PollOs}
use netclass.Socket.Poll.Loop.{Transfer, Direction, Round, return, next, goes_on, round, transfer}
use netclass.Socket.Poll.Outcome.{Laws, Outcome, Running, Leaving, Advance, GoodRound}
use netclass.Socket.Poll.Rounds.{round-GoodRound}

module _ {W : Type 0} (os : PollOs W) (dir : Direction W) (P : ℕ → List ℕ → W → Type 0)
    (laws : Laws os dir P) (buf_len : ℤ) (num : Option ℤ) (limit poll : ℕ) where
  -- Where the loop stands before its test.
  abbrev pub Inside : Transfer W → Type 0
  Inside t =
      ((r : ℕ) × Running os dir P buf_len num limit poll r t)
      ⊎ Leaving os dir P buf_len num limit poll t

  Advance-Inside :
      (clock : ℕ) (t : Transfer W) → Advance os dir P buf_len num limit poll clock t → Inside t
  Advance-Inside clock t (inl (r, run, _, _)) = inl (r, run)
  Advance-Inside clock t (inr out) = inr out

  -- With nothing left to move, the loop is over and its code is true.
  Running-Outcome :
      {r : ℕ} {t : Transfer W}
      → Running os dir P buf_len num limit poll r t
      → goes_on os dir buf_len t ≡ false
      → Outcome os dir P buf_len num t.code t
  Running-Outcome run over = ground arith

  Inside-Outcome :
      {t : Transfer W}
      → Inside t
      → goes_on os dir buf_len t ≡ false
      → Outcome os dir P buf_len num t.code t
  Inside-Outcome (inl (r, run)) over = Running-Outcome run over
  Inside-Outcome (inr out) over = out.outcome

  Inside-Running :
      {t : Transfer W}
      → Inside t
      → goes_on os dir buf_len t ≡ true
      → (r : ℕ) × Running os dir P buf_len num limit poll r t
  Inside-Running (inl run) more = run
  Inside-Running (inr out) more = absurd (ground (arith, out.over))

  abbrev finish : ℕ → Round W → Option (RetCode × Transfer W)
  finish fuel rd = elim rd [
    | return code t' ↦ some (code, t')
    | next t' ↦ transfer os dir buf_len fuel t'
  ]

  transfer-step :
      (fuel : ℕ) (t : Transfer W)
      → goes_on os dir buf_len t ≡ true
      → transfer os dir buf_len (suc fuel) t ≡ finish fuel (round os dir buf_len t)
  unfolding transfer
  transfer-step fuel t more = rw (more, transfer)

  transfer-stop :
      (fuel : ℕ) (t : Transfer W)
      → goes_on os dir buf_len t ≡ false
      → transfer os dir buf_len (suc fuel) t ≡ some (t.code, t)
  unfolding transfer
  transfer-stop fuel t over = rw (over, transfer)

  finish-Outcome :
      (fuel clock : ℕ) (rd : Round W) (code : RetCode) (t' : Transfer W)
      → ((t : Transfer W)
          → Inside t
          → transfer os dir buf_len fuel t ≡ some (code, t')
          → Outcome os dir P buf_len num code t')
      → GoodRound os dir P buf_len num limit poll clock rd
      → finish fuel rd ≡ some (code, t')
      → Outcome os dir P buf_len num code t'
  finish-Outcome fuel clock (return c u) code t' ih good e = ground arith
  finish-Outcome fuel clock (next u) code t' ih good e = ih u (Advance-Inside clock u good) e

  -- Whatever the fuel and the clock, a result of the loop keeps the promise.
  pub transfer-Outcome :
      (fuel : ℕ) (t : Transfer W) (code : RetCode) (t' : Transfer W)
      → Inside t
      → transfer os dir buf_len fuel t ≡ some (code, t')
      → Outcome os dir P buf_len num code t'
  unfolding transfer
  transfer-Outcome zero t code t' inside e = cc
  transfer-Outcome (suc fuel) t code t' inside e = elim (Bool-cases (goes_on os dir buf_len t)) [
    | inl more ↦
        let (r, run) = Inside-Running inside more in
        finish-Outcome fuel t.clock (round os dir buf_len t) code t'
          (λ u. transfer-Outcome fuel u code t')
          (round-GoodRound os dir P laws buf_len num limit poll r t run)
          (sym (transfer-step fuel t more) ∙ e)
    | inr over ↦
        finish-Outcome fuel 0 (return t.code t) code t' (λ u. transfer-Outcome fuel u code t')
          (Inside-Outcome inside over) (sym (transfer-stop fuel t over) ∙ e)
  ]

  -- The loop returns.
  abbrev pub Returns : ℕ → Transfer W → Type 0
  Returns fuel t =
      (code : RetCode) × (t' : Transfer W) × (transfer os dir buf_len fuel t ≡ some (code, t'))

  transfer-Leaving :
      (fuel : ℕ) (t : Transfer W)
      → 0 < fuel
      → Leaving os dir P buf_len num limit poll t
      → Returns fuel t
  transfer-Leaving zero t h out = absurd (omega arith)
  transfer-Leaving (suc fuel) t h out = (t.code, t, transfer-stop fuel t out.over)

  -- A state from which `f` more rounds reach the limit.
  pub record InReach (f r : ℕ) (t : Transfer W) : Type 0 where
    pub run : Running os dir P buf_len num limit poll r t
    pub reach : limit ≤ t.clock + f * poll
    pub nowrap : t.clock + poll < word_mod

  -- A round that goes on moves the clock by the polling time.
  InReach-later :
      (f r r' : ℕ) (t u : Transfer W)
      → limit + poll ≤ word_mod
      → InReach f r t
      → u.clock ≡ (t.clock + poll) % word_mod
      → u.clock < limit
      → Running os dir P buf_len num limit poll r' u
      → (f' : ℕ) × (f ≡ suc f') × InReach f' r' u
  InReach-later zero r r' t u room i tick below run' = absurd (omega (arith, i.reach, i.nowrap))
  InReach-later (suc f) r r' t u room i tick below run' = (
    f,
    refl,
    record { run = run'; reach = omega (arith, i.reach, i.nowrap); nowrap = omega arith },
  )

  finish-Returns :
      (fuel f r : ℕ) (t : Transfer W) (rd : Round W)
      → ((f' r' : ℕ) (u : Transfer W) → f' + 2 ≤ fuel → InReach f' r' u → Returns fuel u)
      → f + 2 ≤ suc fuel
      → limit + poll ≤ word_mod
      → InReach f r t
      → GoodRound os dir P buf_len num limit poll t.clock rd
      → (c : RetCode) × (u : Transfer W) × (finish fuel rd ≡ some (c, u))
  finish-Returns fuel f r t (return c u) ih enough room i good = (c, u, refl)
  finish-Returns fuel f r t (next u) ih enough room i (inl (r', run', tick, below)) =
      let (f', e, i') = InReach-later f r r' t u room i tick below run' in
      ih f' r' u (omega arith) i'
  finish-Returns fuel f r t (next u) ih enough room i (inr out) =
      transfer-Leaving fuel u (omega arith) out

  -- So with two rounds more than those that reach the limit the loop returns.
  pub transfer-Returns :
      (fuel f r : ℕ) (t : Transfer W)
      → f + 2 ≤ fuel
      → limit + poll ≤ word_mod
      → InReach f r t
      → Returns fuel t
  transfer-Returns zero f r t enough room i = absurd (omega arith)
  transfer-Returns (suc fuel) f r t enough room i = elim (Bool-cases (goes_on os dir buf_len t)) [
    | inl more ↦
        let (c, u, e) =
          finish-Returns fuel f r t (round os dir buf_len t)
            (λ f' r' u. λ enough'. λ i'. transfer-Returns fuel f' r' u enough' room i') enough room
            i (round-GoodRound os dir P laws buf_len num limit poll r t i.run) in
        (c, u, transfer-step fuel t more ∙ e)
    | inr over ↦ (t.code, t, transfer-stop fuel t over)
  ]

-- The tests of the loop that a call needs at most.
abbrev pub rounds : NcSocket → ℕ
rounds s = s.timeout / s.polltime + 3

pub div-reach : (a b : ℕ) → 0 < b → a ≤ 0 + (a / b + 1) * b
div-reach a b h = grind arith

module _ {W : Type 0} (os : PollOs W) (dir : Direction W) (P : ℕ → List ℕ → W → Type 0)
    (s : NcSocket) (buf : List ℕ) (num : Option ℤ) (w : W) where
  begin-Running :
      (n : ℕ)
      → P 0 buf w
      → Running os dir P (pos n) num s.timeout s.polltime n (begin os s buf (pos n) num w)
  begin-Running n start = ground arith

  begin-Leaving :
      (n : ℕ)
      → P 0 buf w
      → Leaving os dir P (negsuc n) num s.timeout s.polltime (begin os s buf (negsuc n) num w)
  begin-Leaving n start = ground arith

  pub begin-Inside :
      (buf_len : ℤ)
      → P 0 buf w
      → (laws : Laws os dir P)
      → Inside os dir P laws buf_len num s.timeout s.polltime (begin os s buf buf_len num w)
  begin-Inside (pos n) start laws = inl (n, begin-Running n start)
  begin-Inside (negsuc n) start laws = inr (begin-Leaving n start)

  pub begin-Returns :
      (laws : Laws os dir P) (buf_len : ℤ) (fuel : ℕ)
      → P 0 buf w
      → 0 < s.polltime
      → s.timeout + s.polltime < word_mod
      → rounds s ≤ fuel
      → Returns os dir P laws buf_len num s.timeout s.polltime fuel (begin os s buf buf_len num w)
  begin-Returns laws (pos n) fuel start ticks room enough =
      transfer-Returns os dir P laws (pos n) num s.timeout s.polltime fuel
        (s.timeout / s.polltime + 1) n _ (omega arith) (omega arith)
        (record {
          run = begin-Running n start;
          reach = div-reach s.timeout s.polltime ticks;
          nowrap = omega arith;
        })
  begin-Returns laws (negsuc n) fuel start ticks room enough =
      transfer-Leaving os dir P laws (negsuc n) num s.timeout s.polltime fuel _ (omega arith)
        (begin-Leaving n start)
