-- ===== src/Socket/Poll/Waiting.antt =====
-- Rounds of `readData` in the poll build in which no byte comes.
use netclass.Common.{
  ℕ, suc, ℤ, pos, minus_one, word_mod, ◌+◌, ◌%◌, ◌≡◌, ◌∙◌, refl, true, false, leb, Option, arith,
  has_bit, int_of_uint,
}
use netclass.Socket.Poll.Os.{PollOs, Polled}
use netclass.Socket.Poll.Loop.{
  Transfer, Direction, next, checked, is_ok, round, advanced, with_polled, with_moved, on_poll,
  on_moved, on_error,
}
use netclass.Socket.Poll.Calls.{reading, recv_call}
use netclass.Socket.Poll.Still.{Still, Waits, TimedOut, plain-Waits, checked-TimedOut}

module _ {W : Type 0} (os : PollOs W) where
  module _ (t : Transfer W) where
    -- poll's answer in the state `t`, and the state with it.
    abbrev pub answer : Polled W
    answer = os.poll t.sock.sockfd os.pollin (int_of_uint t.sock.polltime) t.world

    abbrev pub answered : Transfer W
    answered = with_polled os.pollin answer t

    -- A descriptor that is ready to read.
    pub record Readable : Type 0 where
      pub one : answer.result ≡ pos 1
      pub fine : has_bit answer.revents os.pollerr ≡ false
      pub event : has_bit answer.revents os.pollin ≡ true

    -- The state after the receive.
    abbrev received : Transfer W
    received = with_moved ((reading os).move answered) answered

    round-on_moved :
        (buf_len : ℤ)
        → Readable
        → round os (reading os) buf_len t
          ≡ on_moved os (reading os) buf_len (recv_call os answered).result received
    unfolding round reading
    round-on_moved buf_len r = rw (r.one, on_poll, r.fine, r.event) refl

  module _ (num : Option ℤ) (limit poll n : ℕ) where
    -- What Still looks at has not changed.
    pub Still-same :
        (dir : Direction W) (t u : Transfer W)
        → Still os dir (pos (suc n)) num limit poll n t
        → u.remaining ≡ t.remaining
        → u.off ≡ t.off
        → u.num_actual ≡ t.num_actual
        → u.timedout ≡ t.timedout
        → u.sock.timeout ≡ t.sock.timeout
        → u.sock.polltime ≡ t.sock.polltime
        → Still os dir (pos (suc n)) num limit poll n u
    Still-same dir t u s r o c d l p = record {
      left = r ∙ s.left;
      unmoved = o ∙ s.unmoved;
      counted = c ∙ s.counted;
      untimed = d ∙ s.untimed;
      limit_kept = l ∙ s.limit_kept;
      poll_kept = p ∙ s.poll_kept;
    }

    -- A receive that gives no byte and no error.
    pub empty-Waits :
        (t : Transfer W)
        → Readable t
        → (recv_call os (answered t)).result ≡ pos 0
        → Still os (reading os) (pos (suc n)) num limit poll n t
        → Waits os (reading os) (pos (suc n)) num limit poll n t
    unfolding reading on_moved
    empty-Waits t r none_came s =
        plain-Waits os (reading os) _ num limit poll n t (advanced 0 (received t))
          (round-on_moved t _ r ∙ rw none_came refl)
          (record {
            left = ground (arith, s.left);
            unmoved = omega (arith, s.unmoved);
            counted = ground (arith, s.counted);
            untimed = s.untimed;
            limit_kept = s.limit_kept;
            poll_kept = s.poll_kept;
          })
          refl

    -- What is done after an error that asks to try again.
    module _ (err : ℕ) (t : Transfer W) (s : Still os (reading os) (pos (suc n)) num limit poll n t)
        (blocks : os.arch.is_blocking_error err ≡ true)
        (kept : os.arch.socket_reset err ≡ false) where
      blocked-goes :
          leb limit ((t.clock + poll) % word_mod) ≡ false
          → on_error os (reading os) (pos (suc n)) err t ≡ next (checked (pos (suc n)) t)
      unfolding on_error checked
      blocked-goes early =
          let good : is_ok (checked (pos (suc n)) t).code ≡ true =
            ground (arith, s.limit_kept, s.poll_kept) in
          rw (kept, blocks, good) refl

      blocked-ends :
          leb limit ((t.clock + poll) % word_mod) ≡ true
          → (u : Transfer W) × (on_error os (reading os) (pos (suc n)) err t ≡ next u)
            × TimedOut os (reading os) (pos (suc n)) num limit poll n u
      unfolding on_error
      blocked-ends late =
          let d = checked-TimedOut os (reading os) _ num limit poll n t s late in
          (
            record (checked (pos (suc n)) t) { remaining = pos 0 },
            rw (kept, blocks, d.code) refl,
            record { over = refl; code = d.code; unmoved = d.unmoved; counted = d.counted },
          )

    -- A receive that asks to try again.
    pub blocked-Waits :
        (t : Transfer W)
        → Readable t
        → (recv_call os (answered t)).result ≡ minus_one
        → let err = os.last_error (recv_call os (answered t)).world in
          os.arch.is_blocking_error err ≡ true
          → os.arch.socket_reset err ≡ false
          → Still os (reading os) (pos (suc n)) num limit poll n t
          → Waits os (reading os) (pos (suc n)) num limit poll n t
    unfolding reading on_moved
    blocked-Waits t r failed blocks kept s =
        let err = os.last_error (recv_call os (answered t)).world in
        let still = Still-same (reading os) t (received t) s refl refl refl refl refl refl in
        let step : round os (reading os) (pos (suc n)) t
            ≡ on_error os (reading os) (pos (suc n)) err (received t) =
          round-on_moved t _ r ∙ rw failed refl in
        record {
          after = received t;
          still = still;
          same_clock = refl;
          goes = λ early. step ∙ blocked-goes err (received t) still blocks kept early;
          ends = λ late.
              let (u, e, d) = blocked-ends err (received t) still blocks kept late in
              (u, step ∙ e, d);
        }
