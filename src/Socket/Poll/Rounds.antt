-- ===== src/Socket/Poll/Rounds.antt =====
-- One round of the loop of the poll build, on every branch.
use netclass.Common.{
  ℕ, zero, suc, ℤ, pos, negsuc, pos_part, minus_one, word_mod, ◌%◌, ◌+◌, ◌-◌, ◌≤◌, ◌≡◌, refl, inl,
  inr, ◌⊎◌, List, Option, arith, Bool-cases, leb, int_of_uint, has_bit,
}
use netclass.Consts.{RetCode}
use netclass.Socket.Poll.Os.{PollOs, Polled}
use netclass.Socket.Poll.Loop.{
  Transfer, give_up, advanced, with_moved, with_polled, Direction, checked, on_error, on_count,
  on_moved, on_ready, on_poll, round,
}
use netclass.Socket.Poll.Outcome.{
  Verdict, Outcome, Refused, IsBad, Cause, Leaving, actual, Laws, Running, Advance, GoodRound,
}

module _ {W : Type 0} (os : PollOs W) (dir : Direction W) (P : ℕ → List ℕ → W → Type 0)
    (laws : Laws os dir P) (buf_len : ℤ) (num : Option ℤ) (limit poll : ℕ) where
  -- A state with `r` bytes left, whatever its code: what checkTimeout is called in.
  record Counted (r : ℕ) (t : Transfer W) : Type 0 where
    left : t.remaining ≡ pos r
    sum : t.off + r ≡ pos_part buf_len
    counted : t.num_actual ≡ actual num t.off
    untimed : t.timedout ≡ 0
    limit_kept : t.sock.timeout ≡ limit
    poll_kept : t.sock.polltime ≡ poll
    progress : P t.off t.buf t.world

  -- checkTimeout: below the limit the loop goes on, at the limit the code is a true verdict.
  checked-Advance :
      (r : ℕ) (t : Transfer W)
      → Counted r t
      → Advance os dir P buf_len num limit poll t.clock (checked buf_len t)
  unfolding checked
  checked-Advance r t c = elim (Bool-cases (leb limit ((t.clock + poll) % word_mod))) [
    | inl late ↦ inr (ground arith)
    | inr early ↦ inl (r, ground arith, ground arith, ground arith)
  ]

  on_count-GoodRound :
      (r n : ℕ) (t : Transfer W)
      → t.remaining ≡ pos r
      → t.off + r ≡ pos_part buf_len
      → n ≤ r
      → t.num_actual ≡ actual num t.off
      → t.timedout ≡ 0
      → t.sock.timeout ≡ limit
      → t.sock.polltime ≡ poll
      → P (t.off + n) t.buf t.world
      → GoodRound os dir P buf_len num limit poll t.clock (on_count os dir buf_len n t)
  unfolding on_count
  on_count-GoodRound r n t left sum le counted untimed lim pol progress =
      checked-Advance (r - n) (advanced n t) (ground arith)

  -- nRemaining = 0, the side shut down, and the code.
  abbrev shut : RetCode → Transfer W → Transfer W
  shut code t = record (give_up code t) { world = os.shutdown t.sock.sockfd dir.how t.world }

  -- An error that ends the loop, with the code that its kind gives.
  stopped-Leaving :
      (r : ℕ) (t : Transfer W) (code : RetCode)
      → Counted r t
      → Verdict code num t.off (pos_part buf_len)
      → Cause os dir P buf_len num code (shut code t)
      → Leaving os dir P buf_len num limit poll (shut code t)
  stopped-Leaving r t code c verdict cause = record {
    over = refl;
    outcome = record {
      fits = omega (arith, c.sum);
      counted = c.counted;
      verdict = verdict;
      cause = cause;
      progress = laws.shutdown_keeps _ _ _ _ _ c.progress;
    };
  }

  on_error-GoodRound :
      (r : ℕ) (u : Transfer W) (e : ℕ)
      → (dir.move u).count ≡ negsuc e
      → Counted r (with_moved (dir.move u) u)
      → GoodRound os dir P buf_len num limit poll u.clock
          (on_error os dir buf_len (os.last_error (dir.move u).world) (with_moved (dir.move u) u))
  unfolding on_error
  on_error-GoodRound r u e neg c = elim (Bool-cases (os.arch.socket_reset err)) [
    | inl reset ↦
        rw reset (inr (stopped-Leaving r t RetCode.clientdisconnect c tt (u, refused, reset, refl)))
    | inr other ↦ elim (Bool-cases (os.arch.is_blocking_error err)) [
      | inl again ↦ rw (other, again) (ground (arith, checked-Advance r t c))
      | inr fatal ↦
          rw (other, fatal)
            (inr (stopped-Leaving r t RetCode.failed c tt (inr (u, refused, (other, fatal), refl))))
    ]
  ]
    where
      t : Transfer W
      t = with_moved (dir.move u) u

      err : ℕ
      err = os.last_error (dir.move u).world

      refused : Refused os dir P buf_len num u
      refused = record { errno = err; said = refl; negative = (e, neg) }

  -- After the transferring call, whose count is `k`.
  on_moved-GoodRound :
      (r : ℕ) (t : Transfer W) (k : ℤ)
      → (dir.move t).count ≡ k
      → Counted r t
      → GoodRound os dir P buf_len num limit poll t.clock
          (on_moved os dir buf_len k (with_moved (dir.move t) t))
  unfolding on_moved
  on_moved-GoodRound r t (pos n) e c =
      on_count-GoodRound r n (with_moved (dir.move t) t) c.left c.sum
        (ground (arith, laws.move_le t n e)) c.counted c.untimed c.limit_kept c.poll_kept
        (laws.move_ok t n e c.progress)
  on_moved-GoodRound r t (negsuc n) e c = on_error-GoodRound r t n e (record {
    left = c.left;
    sum = c.sum;
    counted = c.counted;
    untimed = c.untimed;
    limit_kept = c.limit_kept;
    poll_kept = c.poll_kept;
    progress = laws.move_error t n e c.progress;
  })

  -- The state in which poll has answered `p`, asked in the state `w`.
  record Answered (t : Transfer W) (w : W) (p : Polled W) : Type 0 where
    from : p ≡ os.poll t.sock.sockfd dir.event (int_of_uint t.sock.polltime) w
    now : t.world ≡ p.world

  bad-Outcome :
      (r : ℕ) (t : Transfer W) (w : W) (p : Polled W)
      → Counted r t
      → Answered t w p
      → IsBad os dir P buf_len num p
      → Outcome os dir P buf_len num RetCode.failed t
  bad-Outcome r t w p c a bad = record {
    fits = omega (arith, c.sum);
    counted = c.counted;
    verdict = tt;
    cause = inl (w, rw (← a.from) a.now, rw (← a.from) bad);
    progress = c.progress;
  }

  on_ready-GoodRound :
      (r : ℕ) (t : Transfer W) (w : W) (p : Polled W)
      → Counted r t
      → Answered t w p
      → p.result ≡ pos 1
      → GoodRound os dir P buf_len num limit poll t.clock (on_ready os dir buf_len p.revents t)
  unfolding on_ready
  on_ready-GoodRound r t w p c a one = elim (Bool-cases (has_bit p.revents os.pollerr)) [
    | inl bad ↦ rw bad (bad-Outcome r t w p c a (inr (one, inl bad)))
    | inr fine ↦ elim (Bool-cases (has_bit p.revents dir.event)) [
      | inl ready ↦ rw (fine, ready) (on_moved-GoodRound r t (dir.move t).count refl c)
      | inr other ↦ rw (fine, other) (bad-Outcome r t w p c a (inr (one, inr other)))
    ]
  ]

  on_poll-GoodRound :
      (k : ℤ) (r : ℕ) (t : Transfer W) (w : W) (p : Polled W)
      → p.result ≡ k
      → (k ≡ minus_one) ⊎ (k ≡ pos 0) ⊎ (k ≡ pos 1)
      → Counted r t
      → Answered t w p
      → GoodRound os dir P buf_len num limit poll t.clock (on_poll os dir buf_len k p.revents t)
  unfolding on_poll
  on_poll-GoodRound (negsuc zero) r t w p e range c a = bad-Outcome r t w p c a (inl e)
  on_poll-GoodRound (negsuc (suc n)) r t w p e range c a = absurd (ground arith)
  on_poll-GoodRound (pos zero) r t w p e range c a = checked-Advance r t c
  on_poll-GoodRound (pos (suc zero)) r t w p e range c a = on_ready-GoodRound r t w p c a e
  on_poll-GoodRound (pos (suc (suc n))) r t w p e range c a = absurd (ground arith)

  pub round-GoodRound :
      (r : ℕ) (t : Transfer W)
      → Running os dir P buf_len num limit poll r t
      → GoodRound os dir P buf_len num limit poll t.clock (round os dir buf_len t)
  unfolding round
  round-GoodRound r t run =
      on_poll-GoodRound p.result r (with_polled dir.event p t) t.world p refl
        (laws.poll_range _ _ _ _)
        (record {
          left = run.left;
          sum = run.sum;
          counted = run.counted;
          untimed = run.untimed;
          limit_kept = run.limit_kept;
          poll_kept = run.poll_kept;
          progress = laws.poll_keeps _ _ _ _ _ _ run.progress;
        })
        (record { from = refl; now = refl })
    where
      p : Polled W
      p = os.poll t.sock.sockfd dir.event (int_of_uint t.sock.polltime) t.world
