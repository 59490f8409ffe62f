-- ===== src/Socket/Select/Outcome.antt =====
-- What a call of the select build promises, and the states of the loop that lead to it.
use netclass.Common.{
  ℕ, suc, ℤ, pos, negsuc, pos_part, minus_one, word_mod, ◌%◌, ◌+◌, ◌≤◌, ◌<◌, ◌≡◌, ◌⊎◌, eqb_ℤ, ltb_ℤ,
  ◌&&◌, if◌then◌else◌, Bool, true, false, List, [], ◌∷◌, Option, some, none,
}
use netclass.Consts.{RetCode}
use netclass.Socket.Poll.Outcome.{actual, Verdict}
use netclass.Socket.Select.Memory.{Memory}
use netclass.Socket.Select.Os.{SelectOs}
use netclass.Socket.Select.Loop.{Locals, Way, Pass, leave, again, keeps_on, asked, is_set}

module _ {W : Type 0} (os : SelectOs W) where
  -- The system as a select with these sets has left it, when it has found the descriptor ready.
  pub record IsReady (reads writes : Option (List ℤ)) (fd : ℤ) (w : W) : Type 0 where
    pub nfds : ℤ
    pub sec : ℕ
    pub usec : ℕ
    pub before : W
    pub fine : eqb_ℤ (os.select nfds reads writes sec usec before).result minus_one ≡ false
    pub some_ready : eqb_ℤ (os.select nfds reads writes sec usec before).result (pos 0) ≡ false
    pub in_set : is_set fd (os.select nfds reads writes sec usec before).set ≡ true
    pub after : w ≡ (os.select nfds reads writes sec usec before).world

-- `P n memory w` says what the memory and the system look like after `n` bytes.
module _ {W : Type 0} (os : SelectOs W) (way : Way W) (P : ℕ → Memory → W → Type 0) where
  -- What the calls are documented to do: the transfer moves at most what it was asked to, and one that
  -- fails moves nothing and does not count; nothing else moves bytes.
  pub record Laws : Type 0 where
    pub select_keeps :
        (nfds : ℤ) (reads writes : Option (List ℤ)) (sec usec n : ℕ) (mem : Memory) (w : W)
        → P n mem w
        → P n mem (os.select nfds reads writes sec usec w).world
    pub carry_le :
        (t : Locals W) (r k : ℕ) → t.remaining ≡ pos r → (way.carry t).count ≡ pos k → k ≤ r
    pub carry_ok :
        (t : Locals W) (n k : ℕ)
        → t.off ≡ pos n
        → (way.carry t).count ≡ pos k
        → P n t.memory t.world
        → P (n + k) (way.carry t).memory (way.carry t).world
    pub carry_error :
        (t : Locals W) (n e : ℕ)
        → t.off ≡ pos n
        → (way.carry t).count ≡ negsuc e
        → P n t.memory t.world
        → P n (way.carry t).memory (way.carry t).world
    pub positive_counts : (k err : ℕ) → way.counts (pos (suc k)) err ≡ true
    pub error_uncounted :
        (t : Locals W) (e : ℕ)
        → let set : List ℤ = t.sock.sockfd ∷ [] in
          IsReady os
            (if way.for_reading then some set else none)
            (if way.for_reading then none else some set)
            t.sock.sockfd
            t.world
          → (way.carry t).count ≡ negsuc e
          → way.counts (negsuc e) (os.last_error (way.carry t).world) ≡ false
    pub shutdown_keeps :
        (fd : ℤ) (how n : ℕ) (mem : Memory) (w : W) → P n mem w → P n mem (os.shutdown fd how w)

  -- A call for `buf_len` bytes with *numActualBytes `num`.
  module _ (buf_len : ℤ) (num : Option ℤ) where
    -- select failed, or did not leave the descriptor in its set.
    abbrev pub IsBad : Locals W → Type 0
    IsBad u =
        (eqb_ℤ (asked os way buf_len u).result minus_one ≡ true)
        ⊎ ((eqb_ℤ (asked os way buf_len u).result (pos 0) ≡ false)
            × (is_set u.sock.sockfd (asked os way buf_len u).set ≡ false))

    -- The transferring call in the state `u` moved no byte, and the side was shut down behind it.
    pub record Refused (u t : Locals W) : Type 0 where
      pub nothing : ltb_ℤ (pos 0) (way.carry u).count ≡ false
      pub shut : t.world ≡ os.shutdown t.sock.sockfd way.how (way.carry u).world

    -- It failed, and the system said that the connection had been reset.
    abbrev pub is_reset : Locals W → Bool
    is_reset u =
        eqb_ℤ (way.carry u).count minus_one
        && os.arch.socket_reset (os.last_error (way.carry u).world)

    -- What ended the call: NC_CLIENTDISCONNECT comes of a transfer that was refused with a reset,
    -- NC_FAILED of select or of a transfer that moved nothing and was refused otherwise.
    abbrev pub Cause : RetCode → Locals W → Type 0
    Cause RetCode.clientdisconnect t = (u : Locals W) × Refused u t × (is_reset u ≡ true)
    Cause RetCode.failed t =
        ((u : Locals W) × (t.world ≡ (asked os way buf_len u).world) × IsBad u)
        ⊎ ((u : Locals W) × Refused u t × (is_reset u ≡ false))
    Cause _ t = Unit

    -- The call ended with `code` after `moved` bytes.
    pub record Outcome (code : RetCode) (t : Locals W) : Type 0 where
      pub moved : ℕ
      pub pointer : t.off ≡ pos moved
      pub fits : moved ≤ pos_part buf_len
      pub counted : t.num_actual ≡ actual num moved
      pub verdict : Verdict code num moved (pos_part buf_len)
      pub cause : Cause code t
      pub progress : P moved t.memory t.world

    -- The call returns, and keeps the promise.
    abbrev pub Completes : Option (RetCode × Locals W) → Type 0
    Completes result =
        (code : RetCode) × (t : Locals W) × (result ≡ some (code, t)) × Outcome code t

  -- The same, on a socket whose limit and polling time are `limit` and `poll`.
  module _ (buf_len : ℤ) (num : Option ℤ) (limit poll : ℕ) where
    -- In the loop after `n` bytes, with `r` to go, while nothing has stopped it.
    pub record Running (n r : ℕ) (t : Locals W) : Type 0 where
      pub pointer : t.off ≡ pos n
      pub left : t.remaining ≡ pos r
      pub sum : n + r ≡ pos_part buf_len
      pub counted : t.num_actual ≡ actual num n
      pub untimed : t.timedout ≡ 0
      pub fine : t.code ≡ RetCode.ok
      pub limit_kept : t.sock.timeout ≡ limit
      pub poll_kept : t.sock.polltime ≡ poll
      pub progress : P n t.memory t.world

    -- The test of the loop fails next.
    pub record Leaving (t : Locals W) : Type 0 where
      pub over : keeps_on os way buf_len t ≡ false
      pub outcome : Outcome buf_len num t.code t

    -- After a pass that `clock` preceded: time is left, or the loop ends.
    abbrev pub Advance : (clock : ℕ) → Locals W → Type 0
    Advance clock t =
        ((n r : ℕ) × Running n r t × (t.clock ≡ (clock + poll) % word_mod) × (t.clock < limit))
        ⊎ Leaving t

    abbrev pub GoodPass : (clock : ℕ) → Pass W → Type 0
    GoodPass clock (leave code t) = Outcome buf_len num code t
    GoodPass clock (again t) = Advance clock t
