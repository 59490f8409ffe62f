-- ===== src/Socket/Poll/Outcome.antt =====
-- What a call of `writeData` or `readData` promises, as a predicate on its result, and the states
-- in the loop that lead to it.
use netclass.Common.{
  ℕ, ℤ, pos, pos_part, minus_one, word_mod, ◌%◌, ◌+◌, ◌≤◌, ◌<◌, ◌≡◌, ◌⊎◌, true, false, has_bit,
  int_of_uint, List, Option, none, some,
}
use netclass.Consts.{RetCode}
use netclass.Socket.Poll.Os.{PollOs, Polled}
use netclass.Socket.Poll.Loop.{Transfer, Direction, Round, return, next, goes_on}

-- *numActualBytes when `n` bytes have been moved.
abbrev pub actual : Option ℤ → ℕ → Option ℤ
actual none n = none
actual (some _) n = some (pos n)

-- What each code says of the `n` bytes moved out of `len`, by whether there is a count to report.
abbrev pub Verdict : RetCode → Option ℤ → (n len : ℕ) → Type 0
Verdict RetCode.ok num n len = n ≡ len
Verdict RetCode.timedout none n len = Unit
Verdict RetCode.timedout (some _) n len = n ≡ 0
Verdict RetCode.moredata none n len = ⊥
Verdict RetCode.moredata (some _) n len = (0 < n) × (n < len)
Verdict RetCode.failed num n len = Unit
Verdict RetCode.clientdisconnect num n len = Unit
Verdict RetCode.badargs num n len = ⊥
Verdict RetCode.notsupported num n len = ⊥

-- `P n buf w` says what the buffer and the system look like after `n` bytes.
module _ {W : Type 0} (os : PollOs W) (dir : Direction W) (P : ℕ → List ℕ → W → Type 0) where
  -- What the calls are documented to do: poll on one descriptor returns -1, 0 or 1; the transfer
  -- moves at most what it was asked to; nothing else moves bytes.
  pub record Laws : Type 0 where
    pub poll_range :
        (fd : ℤ) (events : ℕ) (millisecs : ℤ) (w : W)
        → let r = (os.poll fd events millisecs w).result in
          (r ≡ minus_one) ⊎ (r ≡ pos 0) ⊎ (r ≡ pos 1)
    pub poll_keeps :
        (fd : ℤ) (events : ℕ) (millisecs : ℤ) (n : ℕ) (buf : List ℕ) (w : W)
        → P n buf w
        → P n buf (os.poll fd events millisecs w).world
    pub move_le : (t : Transfer W) (k : ℕ) → (dir.move t).count ≡ pos k → k ≤ pos_part t.remaining
    pub move_ok :
        (t : Transfer W) (k : ℕ)
        → (dir.move t).count ≡ pos k
        → P t.off t.buf t.world
        → P (t.off + k) (dir.move t).buf (dir.move t).world
    pub move_error :
        (t : Transfer W) (e : ℕ)
        → (dir.move t).count ≡ ℤ.negsuc e
        → P t.off t.buf t.world
        → P t.off (dir.move t).buf (dir.move t).world
    pub shutdown_keeps :
        (fd : ℤ) (how n : ℕ) (buf : List ℕ) (w : W) → P n buf w → P n buf (os.shutdown fd how w)

-- A call for `buf_len` bytes, with *numActualBytes `num`.
module _ {W : Type 0} (os : PollOs W) (dir : Direction W) (P : ℕ → List ℕ → W → Type 0)
    (buf_len : ℤ) (num : Option ℤ) where
  -- poll's answer when it was asked in the state `w`.
  abbrev pub asked : Transfer W → W → Polled W
  asked t w = os.poll t.sock.sockfd dir.event (int_of_uint t.sock.polltime) w

  -- poll failed, or reported an error, or something else than the event.
  abbrev pub IsBad : Polled W → Type 0
  IsBad p =
      (p.result ≡ minus_one)
      ⊎ ((p.result ≡ pos 1)
          × ((has_bit p.revents os.pollerr ≡ true) ⊎ (has_bit p.revents dir.event ≡ false)))

  -- The transferring call failed, and what the system said of it.
  pub record Refused (u : Transfer W) : Type 0 where
    pub errno : ℕ
    pub said : errno ≡ os.last_error (dir.move u).world
    pub negative : (e : ℕ) × ((dir.move u).count ≡ ℤ.negsuc e)

  -- An error that is no reset and no reason to try again.
  abbrev pub IsFatal : ℕ → Type 0
  IsFatal err = (os.arch.socket_reset err ≡ false) × (os.arch.is_blocking_error err ≡ false)

  -- What ended the call: NC_CLIENTDISCONNECT comes of a transfer that the system refused with a
  -- reset, NC_FAILED of poll or of a transfer refused with a fatal error; after a refusal one side
  -- is shut down.
  abbrev pub Cause : RetCode → Transfer W → Type 0
  Cause RetCode.clientdisconnect t =
      (u : Transfer W) × (r : Refused u) × (os.arch.socket_reset r.errno ≡ true)
      × (t.world ≡ os.shutdown t.sock.sockfd dir.how (dir.move u).world)
  Cause RetCode.failed t =
      ((w : W) × (t.world ≡ (asked t w).world) × IsBad (asked t w))
      ⊎ ((u : Transfer W) × (r : Refused u) × IsFatal r.errno
          × (t.world ≡ os.shutdown t.sock.sockfd dir.how (dir.move u).world))
  Cause _ t = Unit

  pub record Outcome (code : RetCode) (t : Transfer W) : Type 0 where
    pub fits : t.off ≤ pos_part buf_len
    pub counted : t.num_actual ≡ actual num t.off
    pub verdict : Verdict code num t.off (pos_part buf_len)
    pub cause : Cause code t
    pub progress : P t.off t.buf t.world

-- The same, on a socket whose limit and polling time are `limit` and `poll`.
module _ {W : Type 0} (os : PollOs W) (dir : Direction W) (P : ℕ → List ℕ → W → Type 0)
    (buf_len : ℤ) (num : Option ℤ) (limit poll : ℕ) where
  -- Inside the loop, while nothing has stopped it.
  pub record Running (r : ℕ) (t : Transfer W) : Type 0 where
    pub left : t.remaining ≡ pos r
    pub sum : t.off + r ≡ pos_part buf_len
    pub counted : t.num_actual ≡ actual num t.off
    pub untimed : t.timedout ≡ 0
    pub fine : t.code ≡ RetCode.ok
    pub limit_kept : t.sock.timeout ≡ limit
    pub poll_kept : t.sock.polltime ≡ poll
    pub progress : P t.off t.buf t.world

  -- The test of the loop fails next.
  pub record Leaving (t : Transfer W) : Type 0 where
    pub over : goes_on os dir buf_len t ≡ false
    pub outcome : Outcome os dir P buf_len num t.code t

  -- After a transfer that `clock` preceded: time is left, or the loop ends.
  abbrev pub Advance : (clock : ℕ) → Transfer W → Type 0
  Advance clock t =
      ((r : ℕ) × Running r t × (t.clock ≡ (clock + poll) % word_mod) × (t.clock < limit))
      ⊎ Leaving t

  abbrev pub GoodRound : (clock : ℕ) → Round W → Type 0
  GoodRound clock (return code t) = Outcome os dir P buf_len num code t
  GoodRound clock (next t) = Advance clock t
