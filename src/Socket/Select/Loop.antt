-- ===== src/Socket/Select/Loop.antt =====
-- src/ncsocket.cpp, the select build: the loop that `writeData` and `readData` share, with the
-- direction (the set, the transferring call and which of its results count, the side shut down) as an
-- argument.
use netclass.Common.{
  ℕ, zero, suc, ℤ, pos, minus_one, word_mod, ◌*◌, ◌/◌, ◌%◌, ◌+ℤ◌, ◌-ℤ◌, ltb_ℤ, eqb_ℤ, ◌==◌,
  if◌then◌else◌, Bool, true, false, not, ◌&&◌, ◌||◌, List, [], ◌∷◌, Option, none, some,
}
use netclass.Consts.{RetCode}
use netclass.Socket.State.{NcSocket, fd_set, SockAddrIn}
use netclass.Socket.Timeout.{check_timeout}
use netclass.Socket.Poll.Loop.{have_all_data, add_actual}
use netclass.Socket.Select.Memory.{Memory}
use netclass.Socket.Select.Os.{SelectOs, Selected}

module _ (W : Type 0) where
  -- The locals of the function, the memory round the buffer, *numActualBytes (`none` if the pointer is
  -- null), the object and the system. The pointer pPtr stands `off` bytes from the buffer's start.
  pub record Locals : Type 0 where
    pub memory : Memory
    pub off : ℤ
    pub remaining : ℤ
    pub num_actual : Option ℤ
    pub clock : ℕ
    pub timedout : ℕ
    pub code : RetCode
    pub sock : NcSocket
    pub world : W

  -- The result of the transferring call, and what it leaves.
  pub record Carried : Type 0 where
    pub count : ℤ
    pub memory : Memory
    pub to : SockAddrIn
    pub world : W

module _ (W : Type 0) where
  -- A pass of the loop ends with a return, or goes on to the test of the loop.
  pub data Pass : Type 0 where
    leave : RetCode → Locals W → Pass
    again : Locals W → Pass

  -- `counts` is the condition on the result and the error under which a transfer is counted.
  pub record Way : Type 0 where
    pub for_reading : Bool
    pub how : ℕ
    pub carry : Locals W → Carried W
    pub counts : ℤ → ℕ → Bool

-- timeoutSeconds and timeoutUSeconds; the product is an unsigned int.
abbrev pub timeout_seconds : ℕ → ℕ
timeout_seconds polltime = (polltime * 1000) % word_mod / 100000

abbrev pub timeout_useconds : ℕ → ℕ
timeout_useconds polltime = (polltime * 1000) % word_mod % 100000

-- FD_ISSET.
unfoldable pub is_set : ℤ → List ℤ → Bool
is_set fd [] = false
is_set fd (x ∷ xs) = eqb_ℤ fd x || is_set fd xs

module _ {W : Type 0} where
  -- ret = checkTimeout(&timeout,&timedout,haveAllData), haveAllData from -1.
  unfoldable pub timed : ℤ → Locals W → Locals W
  unfolding check_timeout have_all_data
  timed buf_len t =
      let c = check_timeout t.sock t.clock t.timedout (have_all_data buf_len t.num_actual) in
      record t { code = c.code; clock = c.timeout; timedout = c.timedout }

  -- nRemaining, pPtr and *numActualBytes after a transfer that counted as `n`, of any sign.
  abbrev pub moved_by : ℤ → Locals W → Locals W
  moved_by n t = record t {
    remaining = t.remaining -ℤ n;
    off = t.off +ℤ n;
    num_actual = add_actual t.num_actual n;
  }

  module _ (os : SelectOs W) (way : Way W) (buf_len : ℤ) where
    -- select on the one descriptor, in the set of the direction.
    abbrev pub asked : Locals W → Selected W
    asked t =
        let set : List ℤ = t.sock.sockfd ∷ [] in
        os.select (t.sock.sockfd +ℤ pos 1) (if way.for_reading then some set else none)
          (if way.for_reading then none else some set) (timeout_seconds t.sock.polltime)
          (timeout_useconds t.sock.polltime) t.world

    -- nRemaining = 0, the side shut down, and `ret`.
    abbrev pub closing : RetCode → Locals W → Locals W
    closing code t = record t {
      remaining = pos 0;
      code = code;
      world = os.shutdown t.sock.sockfd way.how t.world;
    }

    -- After the transferring call, whose result is `n`; `err` is ncGetLastError().
    unfoldable pub on_result : ℤ → ℕ → Locals W → Pass W
    unfolding timed
    on_result n err t =
        if eqb_ℤ n minus_one && os.arch.socket_reset err
        then again (closing RetCode.clientdisconnect t)
        else if way.counts n err
        then again (timed buf_len (moved_by n t))
        else again (closing RetCode.failed t)

    -- The default of the switch.
    unfoldable pub on_set : List ℤ → Locals W → Pass W
    unfolding on_result is_set
    on_set set t =
        if not (is_set t.sock.sockfd set)
        then leave RetCode.failed t
        else (let c = way.carry t in
            on_result c.count (os.last_error c.world)
              (record t { memory = c.memory; sock = record t.sock { to = c.to }; world = c.world }))

    -- The body of the loop: FD_ZERO, FD_SET, select and the switch on its result.
    unfoldable pub pass : Locals W → Pass W
    unfolding on_set timed
    pass t =
        let p = asked t in
        let t' = record t { sock = record t.sock { listener = fd_set p.set }; world = p.world } in
        if eqb_ℤ p.result minus_one
        then leave RetCode.failed t'
        else if eqb_ℤ p.result (pos 0)
        then again (timed buf_len t')
        else on_set p.set t'

    -- (nRemaining > 0) && (!timedout).
    abbrev pub keeps_on : Locals W → Bool
    keeps_on t = ltb_ℤ (pos 0) t.remaining && t.timedout == 0

    -- The loop on fuel: `none` means that the fuel ran out.
    unfoldable pub passes : ℕ → Locals W → Option (RetCode × Locals W)
    unfolding pass
    passes zero t = none
    passes (suc fuel) t = elim (keeps_on t) [
      | true ↦ elim (pass t) [ leave code t' ↦ some (code, t') | again t' ↦ passes fuel t' ]
      | false ↦ some (t.code, t)
    ]
