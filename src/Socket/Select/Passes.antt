-- ===== src/Socket/Select/Passes.antt =====
-- One pass of the loop of the select build, on every branch.
use netclass.Common.{
  ℕ, zero, suc, ℤ, pos, negsuc, pos_part, minus_one, word_mod, ◌%◌, ◌+◌, ◌-◌, ◌≤◌, ◌≡◌, refl, sym,
  inl, ltb_ℤ, ◌+ℤ◌, if◌then◌else◌, [], ◌∷◌, none, some, inr, ◌&&◌, subst, add-zero, Option, arith,
  Bool-cases, leb, eqb_ℤ, true, false,
}
use netclass.Consts.{RetCode}
use netclass.Socket.Poll.Outcome.{Verdict, actual}
use netclass.Socket.Select.Memory.{Memory}
use netclass.Socket.State.{fd_set}
use netclass.Socket.Select.Os.{SelectOs, Selected}
use netclass.Socket.Select.Loop.{
  Locals, Way, timed, timeout_seconds, timeout_useconds, moved_by, asked, closing, on_result,
  on_set, is_set, pass,
}
use netclass.Socket.Select.Outcome.{
  Laws, IsReady, Cause, is_reset, Outcome, Running, Leaving, Advance, GoodPass,
}

module _ {W : Type 0} (os : SelectOs W) (way : Way W) (P : ℕ → Memory → W → Type 0)
    (laws : Laws os way P) (buf_len : ℤ) (num : Option ℤ) (limit poll : ℕ) where
  -- The locals after `n` bytes with `r` to go, whatever the code.
  record Counted (n r : ℕ) (t : Locals W) : Type 0 where
    pointer : t.off ≡ pos n
    left : t.remaining ≡ pos r
    sum : n + r ≡ pos_part buf_len
    counted : t.num_actual ≡ actual num n
    untimed : t.timedout ≡ 0
    limit_kept : t.sock.timeout ≡ limit
    poll_kept : t.sock.polltime ≡ poll

  -- The promise, whatever ended the call, as far as the locals go.
  Counted-Outcome :
      (n r : ℕ) (t : Locals W) (code : RetCode)
      → Counted n r t
      → Verdict code num n (pos_part buf_len)
      → Cause os way P buf_len num code t
      → P n t.memory t.world
      → Outcome os way P buf_len num code t
  Counted-Outcome n r t code c verdict cause progress = record {
    moved = n;
    pointer = c.pointer;
    fits = omega (arith, c.sum);
    counted = c.counted;
    verdict = verdict;
    cause = cause;
    progress = progress;
  }

  -- checkTimeout: below the limit the loop goes on, at the limit the code is a true verdict.
  timed-Advance :
      (n r : ℕ) (t : Locals W)
      → Counted n r t
      → P n t.memory t.world
      → Advance os way P buf_len num limit poll t.clock (timed buf_len t)
  unfolding timed
  timed-Advance n r t c progress = elim (Bool-cases (leb limit ((t.clock + poll) % word_mod))) [
    | inl late ↦ inr (record {
      over = ground arith;
      outcome = record {
        moved = n;
        pointer = c.pointer;
        fits = omega (arith, c.sum);
        counted = c.counted;
        verdict = ground arith;
        cause = ground arith;
        progress = progress;
      };
    })
    | inr early ↦ inl (n, r, ground arith, ground arith, ground arith)
  ]

  closing-Leaving :
      (n r : ℕ) (t : Locals W) (code : RetCode)
      → Counted n r t
      → Verdict code num n (pos_part buf_len)
      → Cause os way P buf_len num code (closing os way buf_len code t)
      → P n t.memory t.world
      → Leaving os way P buf_len num limit poll (closing os way buf_len code t)
  closing-Leaving n r t code c verdict cause progress = record {
    over = refl;
    outcome = record {
      moved = n;
      pointer = c.pointer;
      fits = omega (arith, c.sum);
      counted = c.counted;
      verdict = verdict;
      cause = cause;
      progress = laws.shutdown_keeps _ _ _ _ _ progress;
    };
  }

  moved_by-Counted :
      (n r k : ℕ) (t : Locals W)
      → Counted n r t
      → k ≤ r
      → Counted (n + k) (r - k) (moved_by (pos k) t)
  moved_by-Counted n r k t c le = record {
    pointer = ground (arith, c.pointer);
    left = ground (arith, c.left);
    sum = omega (arith, c.sum);
    counted = ground (arith, c.counted);
    untimed = c.untimed;
    limit_kept = c.limit_kept;
    poll_kept = c.poll_kept;
  }

  -- The locals after the transferring call.
  abbrev carried : Locals W → Locals W
  carried t =
      let c = way.carry t in
      record t { memory = c.memory; sock = record t.sock { to = c.to }; world = c.world }

  -- A transfer that is not counted ends the loop, with one of two codes.
  on_result_failed-GoodPass :
      (n r : ℕ) (t : Locals W)
      → ltb_ℤ (pos 0) (way.carry t).count ≡ false
      → Counted n r (carried t)
      → P n (carried t).memory (carried t).world
      → way.counts (way.carry t).count (os.last_error (way.carry t).world) ≡ false
      → GoodPass os way P buf_len num limit poll t.clock (
          on_result os way buf_len
            (way.carry t).count
            (os.last_error (way.carry t).world)
            (carried t))
  unfolding on_result
  on_result_failed-GoodPass n r t nothing c progress not_so =
      elim (Bool-cases (is_reset os way P buf_len num t)) [
        | inl reset ↦ rw reset (
            inr (
              closing-Leaving n r (carried t) RetCode.clientdisconnect c tt
                (t, record { nothing = nothing; shut = refl }, reset) progress))
        | inr other ↦
            rw (other, not_so)
              (inr (
                closing-Leaving n r (carried t) RetCode.failed c tt
                  (inr (t, record { nothing = nothing; shut = refl }, other)) progress))
      ]

  on_result_moved-GoodPass :
      (n r k err : ℕ) (t : Locals W)
      → Counted n r t
      → k ≤ r
      → P (n + k) t.memory t.world
      → way.counts (pos k) err ≡ true
      → GoodPass os way P buf_len num limit poll t.clock (on_result os way buf_len (pos k) err t)
  unfolding on_result
  on_result_moved-GoodPass n r k err t c le progress counts =
      let other : (eqb_ℤ (pos k) minus_one && os.arch.socket_reset err) ≡ false = ground arith in
      rw (other, counts)
        (timed-Advance (n + k) (r - k) (moved_by (pos k) t) (moved_by-Counted n r k t c le)
          progress)

  -- A result of 0 may count or not, by the direction and the error.
  on_result_none-GoodPass :
      (n r : ℕ) (t : Locals W)
      → (way.carry t).count ≡ pos 0
      → Counted n r (carried t)
      → P n (carried t).memory (carried t).world
      → GoodPass os way P buf_len num limit poll t.clock (
          on_result os way buf_len
            (way.carry t).count
            (os.last_error (way.carry t).world)
            (carried t))
  on_result_none-GoodPass n r t is c progress =
      let err = os.last_error (way.carry t).world in
      elim (Bool-cases (way.counts (way.carry t).count err)) [
        | inl counts ↦ rw is (
            on_result_moved-GoodPass n r 0 err (carried t) c (omega arith)
              (subst (λ m. P m (carried t).memory (carried t).world) (sym (add-zero n)) progress)
              (rw is at counts))
        | inr not_so ↦ on_result_failed-GoodPass n r t (ground arith) c progress not_so
      ]

  on_result-GoodPass :
      (n r : ℕ) (k : ℤ) (t : Locals W)
      → IsReady os
          (if way.for_reading then some (t.sock.sockfd ∷ []) else none)
          (if way.for_reading then none else some (t.sock.sockfd ∷ []))
          t.sock.sockfd
          t.world
      → (way.carry t).count ≡ k
      → Counted n r t
      → P n t.memory t.world
      → Counted n r (carried t)
      → GoodPass os way P buf_len num limit poll t.clock (
          on_result os way buf_len
            (way.carry t).count
            (os.last_error (way.carry t).world)
            (carried t))
  on_result-GoodPass n r (negsuc e) t ready is c progress c' =
      on_result_failed-GoodPass n r t (ground arith) c'
        (laws.carry_error t n e c.pointer is progress) (rw is (laws.error_uncounted t e ready is))
  on_result-GoodPass n r (pos zero) t ready is c progress c' = on_result_none-GoodPass n r t is c' (
      subst (λ m. P m (carried t).memory (carried t).world) (add-zero n)
        (laws.carry_ok t n 0 c.pointer is progress))
  on_result-GoodPass n r (pos (suc k)) t ready is c progress c' = rw is (
      on_result_moved-GoodPass n r (suc k) _ (carried t) c' (laws.carry_le t r (suc k) c.left is)
        (laws.carry_ok t n (suc k) c.pointer is progress) (laws.positive_counts k _))

  -- The locals when select has answered.
  abbrev answered : Locals W → Locals W
  answered t =
      let p = asked os way buf_len t in
      record t { sock = record t.sock { listener = fd_set p.set }; world = p.world }

  on_set-GoodPass :
      (n r : ℕ) (t : Locals W)
      → eqb_ℤ (asked os way buf_len t).result minus_one ≡ false
      → eqb_ℤ (asked os way buf_len t).result (pos 0) ≡ false
      → Counted n r (answered t)
      → P n t.memory (answered t).world
      → GoodPass os way P buf_len num limit poll t.clock
          (on_set os way buf_len (asked os way buf_len t).set (answered t))
  unfolding on_set
  on_set-GoodPass n r t fine some_ready c progress =
      elim (Bool-cases (is_set t.sock.sockfd (asked os way buf_len t).set)) [
        | inl in_set ↦ rw in_set (
            on_result-GoodPass n r (way.carry (answered t)).count (answered t)
              (record {
                nfds = t.sock.sockfd +ℤ pos 1;
                sec = timeout_seconds t.sock.polltime;
                usec = timeout_useconds t.sock.polltime;
                before = t.world;
                fine = fine;
                some_ready = some_ready;
                in_set = in_set;
                after = refl;
              })
              refl c progress
              (record {
                pointer = c.pointer;
                left = c.left;
                sum = c.sum;
                counted = c.counted;
                untimed = c.untimed;
                limit_kept = c.limit_kept;
                poll_kept = c.poll_kept;
              }))
        | inr not_so ↦ rw not_so (
            Counted-Outcome n r (answered t) RetCode.failed c tt
              (inl (t, refl, inr (some_ready, not_so))) progress)
      ]

  pub pass-GoodPass :
      (n r : ℕ) (t : Locals W)
      → Running os way P buf_len num limit poll n r t
      → GoodPass os way P buf_len num limit poll t.clock (pass os way buf_len t)
  unfolding pass
  pass-GoodPass n r t run = elim (Bool-cases (eqb_ℤ p.result minus_one)) [
    | inl bad ↦
        rw bad (Counted-Outcome n r t' RetCode.failed c tt (inl (t, refl, inl bad)) progress)
    | inr fine ↦ elim (Bool-cases (eqb_ℤ p.result (pos 0))) [
      | inl idle ↦ rw (fine, idle) (timed-Advance n r t' c progress)
      | inr ready ↦ rw (fine, ready) (on_set-GoodPass n r t fine ready c progress)
    ]
  ]
    where
      p : Selected W
      p = asked os way buf_len t

      t' : Locals W
      t' = answered t

      c : Counted n r t'
      c = record {
        pointer = run.pointer;
        left = run.left;
        sum = run.sum;
        counted = run.counted;
        untimed = run.untimed;
        limit_kept = run.limit_kept;
        poll_kept = run.poll_kept;
      }

      progress : P n t'.memory t'.world
      progress = laws.select_keeps _ _ _ _ _ _ _ _ run.progress
