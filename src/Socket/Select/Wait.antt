-- ===== src/Socket/Select/Wait.antt =====
-- src/ncsocket.cpp, lines 297 to 313 and 397 to 412: how long the select build waits, in microseconds.
use netclass.Common.{
  ℕ, zero, suc, ℤ, pos, word_mod, ◌+◌, ◌*◌, ◌/◌, ◌≤◌, ◌<◌, ◌≡◌, ◌⊎◌, refl, ap, ◌∙◌, true, false,
  List, Option, none, some, arith,
}
use netclass.Consts.{RetCode}
use netclass.Socket.State.{NcSocket, fd_set}
use netclass.Socket.Select.Memory.{Memory}
use netclass.Socket.Select.Os.{SelectOs}
use netclass.Socket.Select.Loop.{
  Locals, Way, again, keeps_on, asked, timed, pass, passes, timeout_seconds, timeout_useconds,
}
use netclass.Socket.Select.Calls.{entry, writing, reading, write_by_select, read_by_select}

-- The time that one select is given.
abbrev pub wait : ℕ → ℕ
wait polltime = timeout_seconds polltime * 1000000 + timeout_useconds polltime

-- For a polling time whose microseconds fit in an unsigned int: the time given to select is valid, and it
-- is the polling time, in milliseconds, and 900 milliseconds more for each 100 of it.
pub wait_lem :
    (polltime : ℕ)
    → polltime * 1000 < word_mod
    → (timeout_useconds polltime < 1000000)
      × (wait polltime ≡ polltime * 1000 + polltime / 100 * 900000)
wait_lem polltime small = (omega arith, omega arith)

module _ {W : Type 0} (os : SelectOs W) (now : W → ℕ) where
  -- Nothing is ever ready, and select takes the time that it was given.
  pub record IsIdle : Type 0 where
    pub never :
        (nfds : ℤ) (reads writes : Option (List ℤ)) (sec usec : ℕ) (w : W)
        → (os.select nfds reads writes sec usec w).result ≡ pos 0
    pub takes :
        (nfds : ℤ) (reads writes : Option (List ℤ)) (sec usec : ℕ) (w : W)
        → now (os.select nfds reads writes sec usec w).world ≡ now w + (sec * 1000000 + usec)

  module _ (way : Way W) (buf_len : ℤ) (limit poll n : ℕ) where
    -- Bytes are asked for, and none has moved.
    record Still (t : Locals W) : Type 0 where
      left : t.remaining ≡ pos (suc n)
      untimed : t.timedout ≡ 0
      counted : (t.num_actual ≡ none) ⊎ (t.num_actual ≡ some (pos 0))
      limit_kept : t.sock.timeout ≡ limit
      poll_kept : t.sock.polltime ≡ poll

    abbrev idle_pass : Locals W → Locals W
    idle_pass t =
        let p = asked os way buf_len t in
        timed buf_len
          (record t { sock = record t.sock { listener = fd_set p.set }; world = p.world })

    pass-idle : (t : Locals W) → IsIdle → pass os way buf_len t ≡ again (idle_pass t)
    unfolding pass
    pass-idle t i = rw (i.never _ _ _ _ _ t.world) refl

    idle_pass-now :
        (t : Locals W) → IsIdle → Still t → now (idle_pass t).world ≡ now t.world + wait poll
    unfolding timed
    idle_pass-now t i s = i.takes _ _ _ _ _ t.world ∙ ap (λ p. now t.world + wait p) s.poll_kept

    -- Below the limit the loop goes on; at the limit it has timed out.
    idle_pass-early :
        (t : Locals W)
        → Still t
        → t.clock + poll < limit
        → limit < word_mod
        → Still (idle_pass t) × ((idle_pass t).clock ≡ t.clock + poll)
    unfolding timed
    idle_pass-early t s early room = (ground arith, ground arith)

    idle_pass-late :
        (t : Locals W)
        → Still t
        → limit ≤ t.clock + poll
        → t.clock + poll < word_mod
        → (keeps_on os way buf_len (idle_pass t) ≡ false) × ((idle_pass t).code ≡ RetCode.timedout)
    unfolding timed
    idle_pass-late t s late room = (ground arith, ground arith)

    Still-keeps_on : (t : Locals W) → Still t → keeps_on os way buf_len t ≡ true
    Still-keeps_on t s = ground arith

    passes-idle_step :
        (fuel : ℕ) (t : Locals W)
        → IsIdle
        → Still t
        → passes os way buf_len (suc fuel) t ≡ passes os way buf_len fuel (idle_pass t)
    unfolding passes
    passes-idle_step fuel t i s = rw (Still-keeps_on t s, pass-idle t i, passes) refl

    passes-over :
        (fuel : ℕ) (t : Locals W)
        → 0 < fuel
        → keeps_on os way buf_len t ≡ false
        → t.code ≡ RetCode.timedout
        → passes os way buf_len fuel t ≡ some (RetCode.timedout, t)
    unfolding passes
    passes-over zero t h over late = absurd (omega arith)
    passes-over (suc fuel) t h over late = rw (over, passes) (rw late)

    -- The call times out after `k` waits.
    abbrev pub TimesOut : ℕ → W → Option (RetCode × Locals W) → Type 0
    TimesOut k w result =
        (t : Locals W) × (result ≡ some (RetCode.timedout, t))
        × (now t.world ≡ now w + k * wait poll)

    passes-TimesOut :
        (k fuel : ℕ) (t : Locals W)
        → IsIdle
        → Still t
        → t.clock + k * poll < limit
        → limit ≤ t.clock + suc k * poll
        → limit + poll < word_mod
        → k + 2 ≤ fuel
        → TimesOut (suc k) t.world (passes os way buf_len fuel t)
    passes-TimesOut k zero t i s early late room enough = absurd (omega arith)
    passes-TimesOut zero (suc fuel) t i s early late room enough =
        let (over, code) = idle_pass-late t s (omega arith) (omega arith) in
        (
          idle_pass t,
          passes-idle_step fuel t i s ∙ passes-over fuel (idle_pass t) (omega arith) over code,
          omega (arith, idle_pass-now t i s),
        )
    passes-TimesOut (suc k) (suc fuel) t i s early late room enough =
        let (s', tick) = idle_pass-early t s (omega arith) (omega arith) in
        let (t', e, took) =
          passes-TimesOut k fuel (idle_pass t) i s' (omega (arith, tick)) (omega (arith, tick)) room
            (omega arith) in
        (t', passes-idle_step fuel t i s ∙ e, omega (arith, took, idle_pass-now t i s))

  module _ (s : NcSocket) (mem : Memory) (n : ℕ) (num : Option ℤ) (w : W) where
    entry-Still :
        (way : Way W)
        → Still way (pos (suc n)) s.timeout s.polltime n (entry os s mem (pos (suc n)) num w)
    entry-Still way = ground arith

    -- On a line that is never ready, when the timeout is more than k and at most k + 1 polling times: a
    -- call for at least one byte ends with NC_TIMEDOUT in both directions, after k + 1 waits; for each
    -- 100 milliseconds of the polling time each of these is 900 milliseconds longer than the polling
    -- time.
    pub idle-Overruns :
        (k fuel : ℕ)
        → IsIdle
        → k * s.polltime < s.timeout
        → s.timeout ≤ suc k * s.polltime
        → s.timeout + s.polltime < word_mod
        → s.polltime * 1000 < word_mod
        → k + 2 ≤ fuel
        → (t u : Locals W) × (write_by_select os fuel s mem (pos (suc n)) num w
            ≡ some (RetCode.timedout, t))
          × (now t.world ≡ now w + suc k * (s.polltime * 1000 + s.polltime / 100 * 900000))
          × (read_by_select os fuel s mem (pos (suc n)) num w ≡ some (RetCode.timedout, u))
          × (now u.world ≡ now w + suc k * (s.polltime * 1000 + s.polltime / 100 * 900000))
    unfolding write_by_select read_by_select
    idle-Overruns k fuel i early late room small enough =
        let waited = (wait_lem s.polltime small).1 in
        let (t, e, took) =
          passes-TimesOut (writing os) (pos (suc n)) s.timeout s.polltime n k fuel _ i
            (entry-Still (writing os)) (omega arith) (omega arith) room enough in
        let (u, e', took') =
          passes-TimesOut (reading os) (pos (suc n)) s.timeout s.polltime n k fuel _ i
            (entry-Still (reading os)) (omega arith) (omega arith) room enough in
        (
          t,
          u,
          e,
          took ∙ ap (λ p. now w + suc k * p) waited,
          e',
          took' ∙ ap (λ p. now w + suc k * p) waited,
        )
