-- ===== src/Socket/Select/Runs.antt =====
-- The whole loop of the select build: it returns, and what it returns keeps the promise.
use netclass.Common.{
  ℕ, zero, suc, ℤ, pos, negsuc, ◌/◌, word_mod, ◌+◌, ◌*◌, ◌≤◌, ◌<◌, ◌≡◌, refl, ◌∙◌, inl, inr, true,
  false, Option, some, arith, Bool-cases,
}
use netclass.Consts.{RetCode}
use netclass.Socket.State.{NcSocket}
use netclass.Socket.Poll.Runs.{rounds, div-reach}
use netclass.Socket.Select.Memory.{Memory}
use netclass.Socket.Select.Os.{SelectOs}
use netclass.Socket.Select.Loop.{Locals, Way, Pass, leave, again, keeps_on, pass, passes}
use netclass.Socket.Select.Calls.{entry}
use netclass.Socket.Select.Outcome.{Laws, Outcome, Completes, Running, Leaving, GoodPass}
use netclass.Socket.Select.Passes.{pass-GoodPass}

module _ {W : Type 0} (os : SelectOs W) (way : Way W) (P : ℕ → Memory → W → Type 0)
    (laws : Laws os way P) (buf_len : ℤ) (num : Option ℤ) (limit poll : ℕ) where
  abbrev finish : ℕ → Pass W → Option (RetCode × Locals W)
  finish fuel rd = elim rd [
    | leave code t' ↦ some (code, t')
    | again t' ↦ passes os way buf_len fuel t'
  ]

  passes-step :
      (fuel : ℕ) (t : Locals W)
      → keeps_on os way buf_len t ≡ true
      → passes os way buf_len (suc fuel) t ≡ finish fuel (pass os way buf_len t)
  unfolding passes
  passes-step fuel t more = rw (more, passes)

  passes-stop :
      (fuel : ℕ) (t : Locals W)
      → keeps_on os way buf_len t ≡ false
      → passes os way buf_len (suc fuel) t ≡ some (t.code, t)
  unfolding passes
  passes-stop fuel t over = rw (over, passes)

  Leaving-Completes :
      (fuel : ℕ) (t : Locals W)
      → 0 < fuel
      → Leaving os way P buf_len num limit poll t
      → Completes os way P buf_len num (passes os way buf_len fuel t)
  Leaving-Completes zero t h out = absurd (omega arith)
  Leaving-Completes (suc fuel) t h out = (t.code, t, passes-stop fuel t out.over, out.outcome)

  -- With nothing left to move, the loop is over and its code is true.
  Running-Outcome :
      (n r : ℕ) (t : Locals W)
      → Running os way P buf_len num limit poll n r t
      → keeps_on os way buf_len t ≡ false
      → Outcome os way P buf_len num t.code t
  Running-Outcome n r t run over = record {
    moved = n;
    pointer = run.pointer;
    fits = omega (arith, run.sum);
    counted = run.counted;
    verdict = ground arith;
    cause = ground (arith, run.fine);
    progress = run.progress;
  }

  -- A state from which `f` more passes reach the limit.
  record InReach (f n r : ℕ) (t : Locals W) : Type 0 where
    run : Running os way P buf_len num limit poll n r t
    reach : limit ≤ t.clock + f * poll
    nowrap : t.clock + poll < word_mod

  finish-Completes :
      (fuel f n r : ℕ) (t : Locals W) (rd : Pass W)
      → ((f' n' r' : ℕ) (u : Locals W)
          → f' + 2 ≤ fuel
          → InReach f' n' r' u
          → Completes os way P buf_len num (passes os way buf_len fuel u))
      → f + 2 ≤ suc fuel
      → limit + poll ≤ word_mod
      → InReach f n r t
      → GoodPass os way P buf_len num limit poll t.clock rd
      → Completes os way P buf_len num (finish fuel rd)
  finish-Completes fuel f n r t (leave c u) ih enough room i good = (c, u, refl, good)
  finish-Completes fuel zero n r t (again u) ih enough room i (inl (n', r', run', tick, below)) =
      absurd (omega (arith, i.reach, i.nowrap))
  finish-Completes fuel (suc f) n r t (again u) ih enough room i (inl (n', r', run', tick, below)) =
      ih f n' r' u (omega arith)
        (record { run = run'; reach = omega (arith, i.reach, i.nowrap); nowrap = omega arith })
  finish-Completes fuel f n r t (again u) ih enough room i (inr out) =
      Leaving-Completes fuel u (omega arith) out

  passes-Completes :
      (fuel f n r : ℕ) (t : Locals W)
      → f + 2 ≤ fuel
      → limit + poll ≤ word_mod
      → InReach f n r t
      → Completes os way P buf_len num (passes os way buf_len fuel t)
  passes-Completes zero f n r t enough room i = absurd (omega arith)
  passes-Completes (suc fuel) f n r t enough room i =
      elim (Bool-cases (keeps_on os way buf_len t)) [
        | inl more ↦
            let (c, u, e, good) =
              finish-Completes fuel f n r t (pass os way buf_len t)
                (λ f' n' r' u enough' i'. passes-Completes fuel f' n' r' u enough' room i') enough
                room i (pass-GoodPass os way P laws buf_len num limit poll n r t i.run) in
            (c, u, passes-step fuel t more ∙ e, good)
        | inr over ↦ (t.code, t, passes-stop fuel t over, Running-Outcome n r t i.run over)
      ]

module _ {W : Type 0} (os : SelectOs W) (way : Way W) (P : ℕ → Memory → W → Type 0)
    (laws : Laws os way P) (s : NcSocket) (mem : Memory) (num : Option ℤ) (w : W) where
  -- So a call returns within timeout / polltime + 3 tests of its loop, and keeps the promise.
  pub entry-Completes :
      (buf_len : ℤ) (fuel : ℕ)
      → P 0 mem w
      → 0 < s.polltime
      → s.timeout + s.polltime < word_mod
      → rounds s ≤ fuel
      → Completes os way P buf_len num (passes os way buf_len fuel (entry os s mem buf_len num w))
  entry-Completes (pos n) fuel start ticks room enough =
      passes-Completes os way P laws (pos n) num s.timeout s.polltime fuel
        (s.timeout / s.polltime + 1) 0 n _ (omega arith) (omega arith)
        (record {
          run = ground arith;
          reach = div-reach s.timeout s.polltime ticks;
          nowrap = omega arith;
        })
  entry-Completes (negsuc n) fuel start ticks room enough =
      Leaving-Completes os way P laws (negsuc n) num s.timeout s.polltime fuel _ (omega arith)
        (record {
          over = ground arith;
          outcome = record {
            moved = 0;
            pointer = refl;
            fits = omega arith;
            counted = ground arith;
            verdict = refl;
            cause = tt;
            progress = start;
          };
        })
