-- ===== src/Socket/Builds/Step.antt =====
-- One pass of the select loop and one round of the poll loop, after the same answers.
use netclass.Common.{
  ℕ, zero, suc, ℤ, pos, negsuc, pos_part, minus_one, ◌+◌, ◌+ℤ◌, ◌≤◌, ◌≡◌, refl, sym, ap, inl, inr,
  true, false, List, [], ◌∷◌, some, none, arith, eqb_ℤ, ltb_ℤ, has_bit, int_of_uint, Bool-cases,
  if◌then◌else◌,
}
use netclass.Consts.{RetCode}
use netclass.Socket.State.{PollObject, fd_set}
use netclass.Socket.Poll.Os.{PollOs, Polled}
use netclass.Socket.Poll.Loop.{
  Transfer, Direction, next, checked, advanced, give_up, with_polled, with_moved, on_error,
  on_count, on_moved, on_ready, on_poll, round,
}
use netclass.Socket.Select.Memory.{Memory, bytes_at}
use netclass.Socket.Select.Os.{Selected}
use netclass.Socket.Select.Loop.{
  Locals, Way, Pass, leave, again, timed, closing, on_result, on_set, pass, is_set,
}
use netclass.Socket.Builds.System.{
  Select, with_select, SameAnswer, IsReady, both_fail, both_wait, both_ready, MovesOrFails,
}
use netclass.Socket.Builds.Agreement.{locals_of, Matched, Agree, both_leave, both_again}

module _ {W : Type 0} (p : PollOs W) (select : Select W) (room : ℕ) (dir : Direction W)
    (way : Way W) where
  -- The transferring call of the two builds.
  pub record SameCall (l : PollObject) (memory : Memory) (t : Transfer W) : Type 0 where
    pub memory_after : Memory
    pub same_result : way.carry (locals_of l memory t) ≡ record {
      count = (dir.move t).count;
      memory = memory_after;
      to = (dir.move t).to;
      world = (dir.move t).world;
    }
    pub same_bytes : bytes_at memory_after (pos 0) room ≡ (dir.move t).buf
    pub moves : MovesOrFails p (pos_part t.remaining) (dir.move t).count (dir.move t).world

  pub record SameWay : Type 0 where
    pub same_how : way.how ≡ dir.how
    pub counts_moved : (k err : ℕ) → way.counts (pos (suc k)) err ≡ true
    pub counts_failed :
        (err : ℕ) → p.arch.is_blocking_error err ≡ false → way.counts minus_one err ≡ false
    pub answers :
        (fd ms : ℤ) (sec usec : ℕ) (w : W)
        → SameAnswer p dir.event fd (p.poll fd dir.event ms w) (
            select
              (fd +ℤ pos 1)
              (if way.for_reading then some (fd ∷ []) else none)
              (if way.for_reading then none else some (fd ∷ []))
              sec
              usec
              w)
    pub call :
        (l : PollObject) (memory : Memory) (t : Transfer W)
        → Matched room memory t
        → ltb_ℤ (pos 0) t.remaining ≡ true
        → IsReady p dir.event t.sock.sockfd t.world
        → SameCall l memory t

  module _ (same : SameWay) (n : ℤ) where
    -- checkTimeout.
    timed-Agree :
        (l : PollObject) (memory : Memory) (t : Transfer W)
        → Matched room memory t
        → Agree room (again (timed n (locals_of l memory t))) (next (checked n t))
    unfolding timed checked
    timed-Agree l memory t m =
        both_again l memory (checked n t) (record { holds = m.holds; fits = m.fits })

    advanced-Matched :
        (k : ℕ) (memory : Memory) (t : Transfer W)
        → Matched room memory t
        → k ≤ pos_part t.remaining
        → Matched room memory (advanced k t)
    advanced-Matched k memory t m le = record { holds = m.holds; fits = ground (arith, m.fits) }

    -- nRemaining = 0, the side shut down, and the code.
    closed-Agree :
        (code : RetCode) (l : PollObject) (memory : Memory) (t : Transfer W)
        → Matched room memory t
        → Agree room
            (again (closing (with_select p select) way n code (locals_of l memory t)))
            (next (record (give_up code t) { world = p.shutdown t.sock.sockfd dir.how t.world }))
    closed-Agree code l memory t m = rw same.same_how (
        both_again l memory
          (record (give_up code t) { world = p.shutdown t.sock.sockfd dir.how t.world })
          (record { holds = m.holds; fits = omega (arith, m.fits) }))

    -- An error that does not block.
    error-Agree :
        (err : ℕ) (l : PollObject) (memory : Memory) (t : Transfer W)
        → Matched room memory t
        → p.arch.is_blocking_error err ≡ false
        → Agree room
            (on_result (with_select p select) way n minus_one err (locals_of l memory t))
            (on_error p dir n err t)
    unfolding on_result on_error
    error-Agree err l memory t m fatal = elim (Bool-cases (p.arch.socket_reset err)) [
      | inl reset ↦ rw reset (closed-Agree RetCode.clientdisconnect l memory t m)
      | inr other ↦
          rw (other, fatal, same.counts_failed err fatal) (closed-Agree RetCode.failed l memory t m)
    ]

    -- After the transferring call.
    moved-Agree :
        (k : ℤ) (l : PollObject) (memory : Memory) (t : Transfer W)
        → Matched room memory t
        → MovesOrFails p (pos_part t.remaining) k t.world
        → Agree room
            (on_result (with_select p select) way n k (p.last_error t.world) (locals_of l memory t))
            (on_moved p dir n k t)
    unfolding on_result on_moved on_count
    moved-Agree (pos zero) l memory t m h = absurd (ground arith)
    moved-Agree (pos (suc j)) l memory t m h =
        let counted : eqb_ℤ (pos (suc j)) minus_one ≡ false = ground arith in
        let moved : pos t.off +ℤ pos (suc j) ≡ pos (t.off + suc j) = ground arith in
        rw (counted, same.counts_moved j (p.last_error t.world), moved)
          (timed-Agree l memory (advanced (suc j) t)
            (advanced-Matched (suc j) memory t m (ground arith)))
    moved-Agree (negsuc zero) l memory t m h =
        error-Agree (p.last_error t.world) l memory t m (ground arith)
    moved-Agree (negsuc (suc j)) l memory t m h = absurd (ground arith)

    called-Agree :
        (l : PollObject) (memory : Memory) (t : Transfer W)
        → Matched room memory t
        → SameCall l memory t
        → let c = way.carry (locals_of l memory t) in
          Agree room
            (on_result
              (with_select p select)
              way
              n
              c.count
              (p.last_error c.world)
              (record (locals_of l memory t) {
                memory = c.memory;
                sock = record t.sock { listener = l; to = c.to };
                world = c.world;
              }))
            (on_moved p dir n (dir.move t).count (with_moved (dir.move t) t))
    called-Agree l memory t m call = rw call.same_result (
        moved-Agree (dir.move t).count l call.memory_after (with_moved (dir.move t) t)
          (record { holds = call.same_bytes; fits = m.fits }) call.moves)

    ready-Agree :
        (revents : ℕ) (set : List ℤ) (l : PollObject) (memory : Memory) (t : Transfer W)
        → Matched room memory t
        → ltb_ℤ (pos 0) t.remaining ≡ true
        → has_bit revents p.pollerr ≡ false
        → has_bit revents dir.event ≡ true
        → is_set t.sock.sockfd set ≡ true
        → IsReady p dir.event t.sock.sockfd t.world
        → Agree room
            (on_set (with_select p select) way n set (locals_of l memory t))
            (on_ready p dir n revents t)
    unfolding on_set on_ready
    ready-Agree revents set l memory t m more fine ready there found =
        rw (fine, ready, there) (called-Agree l memory t m (same.call l memory t m more found))

    -- A select that has answered `b`: the switch on its result.
    abbrev answered : Selected W → Locals W → Pass W
    answered b t =
        let t' = record t { sock = record t.sock { listener = fd_set b.set }; world = b.world } in
        if eqb_ℤ b.result minus_one
        then leave RetCode.failed t'
        else if eqb_ℤ b.result (pos 0)
        then again (timed n t')
        else on_set (with_select p select) way n b.set t'

    answer-Agree :
        (a : Polled W) (b : Selected W) (l : PollObject) (memory : Memory) (t : Transfer W)
        → Matched room memory t
        → ltb_ℤ (pos 0) t.remaining ≡ true
        → SameAnswer p dir.event t.sock.sockfd a b
        → (ms : ℤ) (before : W) → a ≡ p.poll t.sock.sockfd dir.event ms before
        → Agree room
            (answered b (locals_of l memory t))
            (on_poll p dir n a.result a.revents (with_polled dir.event a t))
    unfolding on_poll
    answer-Agree a b l memory t m more (both_fail revents set w) ms before e =
        both_leave RetCode.failed (fd_set set) memory (with_polled dir.event a t) m.holds
    answer-Agree a b l memory t m more (both_wait revents set w) ms before e =
        timed-Agree (fd_set set) memory (with_polled dir.event a t)
          (record { holds = m.holds; fits = m.fits })
    answer-Agree a b l memory t m more (both_ready revents set w fine ready there) ms before e =
        ready-Agree revents set (fd_set set) memory (with_polled dir.event a t)
          (record { holds = m.holds; fits = m.fits }) more fine ready there
          (record {
            ms = ms;
            before = before;
            found = ap (λ r. r.result) (sym e);
            after = ap (λ r. r.world) e;
          })

    pub pass-Agree :
        (l : PollObject) (memory : Memory) (t : Transfer W)
        → Matched room memory t
        → ltb_ℤ (pos 0) t.remaining ≡ true
        → Agree room (pass (with_select p select) way n (locals_of l memory t)) (round p dir n t)
    unfolding pass round
    pass-Agree l memory t m more =
        answer-Agree _ _ l memory t m more
          (same.answers t.sock.sockfd (int_of_uint t.sock.polltime) _ _ t.world) _ _ refl
