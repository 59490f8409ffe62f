-- ===== src/Socket/Select/Again.antt =====
-- src/ncsocket.cpp, line 353: writeData of the select build when the sends ask to try again on a
-- descriptor that select finds ready.
use netclass.Common.{
  ℕ, suc, ℤ, pos, pos_part, minus_one, ◌+ℤ◌, ◌-ℤ◌, ◌≡◌, refl, ap, ◌∙◌, ◌+◌, ◌*◌, ◌<◌, ◌≤◌, ◌++◌,
  zero, inl, inr, word_mod, eqb_ℤ, append_assoc, append-nil, sym, Bool-cases, List, [], Option,
  none, some, true, false, ◌∷◌, arith,
}
use netclass.Consts.{RetCode, socktype_tcpip}
use netclass.Socket.State.{NcSocket, fd_set, SockAddrIn}
use netclass.Socket.Poll.Os.{Sent}
use netclass.Socket.Select.Memory.{Memory, bytes_at}
use netclass.Socket.Select.Os.{SelectOs}
use netclass.Socket.Select.Loop.{
  Locals, again, asked, timed, moved_by, is_set, pass, passes, keeps_on, timeout_seconds,
  timeout_useconds,
}
use netclass.Socket.Select.Calls.{entry, send_call, writing, write_by_select}

module _ {W : Type 0} (os : SelectOs W) where
  -- The locals when select has answered.
  abbrev pub answered : ℤ → Locals W → Locals W
  answered buf_len t =
      let p = asked os (writing os) buf_len t in
      record t { sock = record t.sock { listener = fd_set p.set }; world = p.world }

  -- In the state `t` select finds the descriptor ready, and the send that follows fails with an error
  -- that is no reset and asks to try again.
  pub record IsBlocked (buf_len : ℤ) (t : Locals W) : Type 0 where
    pub selected : (asked os (writing os) buf_len t).result ≡ pos 1
    pub in_set : is_set t.sock.sockfd (asked os (writing os) buf_len t).set ≡ true
    pub failed : (send_call os (answered buf_len t)).result ≡ minus_one
    pub no_reset :
        os.arch.socket_reset (os.last_error (send_call os (answered buf_len t)).world) ≡ false
    pub blocks :
        os.arch.is_blocking_error (os.last_error (send_call os (answered buf_len t)).world) ≡ true

  -- The locals when the send has failed, and those that the next pass begins with.
  abbrev refused : ℤ → Locals W → Locals W
  refused buf_len t =
      let u = answered buf_len t in
      record u { sock = record u.sock { to = u.sock.to }; world = (send_call os u).world }

  abbrev pub stepped_back : ℤ → Locals W → Locals W
  stepped_back buf_len t = timed buf_len (moved_by minus_one (refused buf_len t))

  blocked-pass :
      (buf_len : ℤ) (t : Locals W)
      → IsBlocked buf_len t
      → pass os (writing os) buf_len t ≡ again (stepped_back buf_len t)
  unfolding pass writing
  blocked-pass buf_len t b = rw (b.selected, b.in_set, b.failed, b.no_reset, b.blocks) refl

  -- Select finds every descriptor ready to be written to, and every send fails with an error that is no
  -- reset and asks to try again; `offered` are the bytes that the sends have been given.
  module _ (offered : W → List (List ℕ)) where
    pub record IsRefused (bytes : List ℕ) (w : W) (r : Sent W) : Type 0 where
      pub failed : r.result ≡ minus_one
      pub no_reset : os.arch.socket_reset (os.last_error r.world) ≡ false
      pub blocks : os.arch.is_blocking_error (os.last_error r.world) ≡ true
      pub seen : offered r.world ≡ offered w ++ bytes ∷ []

    pub record IsFull : Type 0 where
      pub selects :
          (nfds fd : ℤ) (sec usec : ℕ) (w : W)
          → let p = os.select nfds none (some (fd ∷ [])) sec usec w in
            (p.result ≡ pos 1) × (is_set fd p.set ≡ true) × (offered p.world ≡ offered w)
      pub sends :
          (fd : ℤ) (bytes : List ℕ) (flags : ℕ) (w : W)
          → IsRefused bytes w (os.send fd bytes flags w)
      pub sends_to :
          (fd : ℤ) (bytes : List ℕ) (flags : ℕ) (to : SockAddrIn) (w : W)
          → IsRefused bytes w (os.sendto fd bytes flags to w)

    send_call-IsRefused :
        (t : Locals W)
        → IsFull
        → IsRefused (bytes_at t.memory t.off (pos_part t.remaining)) t.world (send_call os t)
    unfolding send_call
    send_call-IsRefused t f = elim (Bool-cases (eqb_ℤ t.sock.socktype socktype_tcpip)) [
      | inl tcp ↦ rw tcp (f.sends _ _ _ _)
      | inr udp ↦ rw udp (f.sends_to _ _ _ _ _)
    ]

    full-IsBlocked : (buf_len : ℤ) (t : Locals W) → IsFull → IsBlocked buf_len t
    unfolding writing
    full-IsBlocked buf_len t f =
        let (ready, in_set, same) = f.selects _ t.sock.sockfd _ _ t.world in
        let r = send_call-IsRefused (answered buf_len t) f in
        record {
          selected = ready;
          in_set = in_set;
          failed = r.failed;
          no_reset = r.no_reset;
          blocks = r.blocks;
        }

    module _ (mem : Memory) (n : ℕ) (num : Option ℤ) (limit poll : ℕ) (before : List (List ℕ)) where
      -- What the first `j` sends are given for the `n + 1` bytes of the buffer: each one byte more, from
      -- one byte further in front of it.
      abbrev pub growing : ℕ → List (List ℕ)
      growing zero = []
      growing (suc j) = growing j ++ bytes_at mem (pos 0 -ℤ pos j) (suc n + j) ∷ []

      -- *numActualBytes after `j` sends.
      abbrev pub negative : ℕ → Option ℤ
      negative j = elim num [ none ↦ none | some _ ↦ some (pos 0 -ℤ pos j) ]

      -- The locals and the system after `j` sends.
      pub record Backed (j : ℕ) (t : Locals W) : Type 0 where
        pub pointer : t.off ≡ pos 0 -ℤ pos j
        pub left : t.remaining ≡ pos (suc n + j)
        pub counted : t.num_actual ≡ negative j
        pub same_memory : t.memory ≡ mem
        pub seen : offered t.world ≡ before ++ growing j

      -- The same while the limit is not reached.
      record Backing (j : ℕ) (t : Locals W) : Type 0 where
        backed : Backed j t
        clock : t.clock ≡ j * poll
        untimed : t.timedout ≡ 0
        limit_kept : t.sock.timeout ≡ limit
        poll_kept : t.sock.polltime ≡ poll

      stepped_back-Backed :
          (j : ℕ) (t : Locals W)
          → IsFull
          → Backed j t
          → Backed (suc j) (stepped_back (pos (suc n)) t)
      unfolding timed writing
      stepped_back-Backed j t f b =
          let (ready, in_set, same) =
            f.selects (t.sock.sockfd +ℤ pos 1) t.sock.sockfd (timeout_seconds t.sock.polltime)
              (timeout_useconds t.sock.polltime) t.world in
          let r = send_call-IsRefused (answered (pos (suc n)) t) f in
          record {
            pointer = ground (arith, b.pointer);
            left = ground (arith, b.left);
            counted = ground (arith, b.counted);
            same_memory = b.same_memory;
            seen =
                r.seen
                ∙ rw (same, b.seen, b.same_memory, b.pointer, b.left)
                    (append_assoc before (growing j) _);
          }

      Backing-keeps_on :
          (j : ℕ) (t : Locals W) → Backing j t → keeps_on os (writing os) (pos (suc n)) t ≡ true
      Backing-keeps_on j t b = ground (arith, b.backed.left, b.untimed)

      passes-backed :
          (j fuel : ℕ) (t : Locals W)
          → IsFull
          → Backing j t
          → passes os (writing os) (pos (suc n)) (suc fuel) t
            ≡ passes os (writing os) (pos (suc n)) fuel (stepped_back (pos (suc n)) t)
      unfolding passes
      passes-backed j fuel t f b =
          rw
            (
              Backing-keeps_on j t b,
              blocked-pass (pos (suc n)) t (full-IsBlocked (pos (suc n)) t f),
              passes,
            )
            refl

      -- Below the limit the loop goes on; at the limit it has timed out.
      stepped_back-early :
          (j : ℕ) (t : Locals W)
          → IsFull
          → Backing j t
          → suc j * poll < limit
          → limit < word_mod
          → Backing (suc j) (stepped_back (pos (suc n)) t)
      unfolding timed
      stepped_back-early j t f b early room = record {
        backed = stepped_back-Backed j t f b.backed;
        clock = ground (arith, b.clock, b.limit_kept, b.poll_kept);
        untimed = ground (arith, b.clock, b.limit_kept, b.poll_kept, b.untimed);
        limit_kept = b.limit_kept;
        poll_kept = b.poll_kept;
      }

      stepped_back-late :
          (j : ℕ) (t : Locals W)
          → Backing j t
          → limit ≤ suc j * poll
          → suc j * poll < word_mod
          → (keeps_on os (writing os) (pos (suc n)) (stepped_back (pos (suc n)) t) ≡ false)
            × ((stepped_back (pos (suc n)) t).code ≡ RetCode.timedout)
      unfolding timed
      stepped_back-late j t b late room = (
        ground (arith, b.clock, b.limit_kept, b.poll_kept),
        ground (arith, b.clock, b.limit_kept, b.poll_kept, b.backed.counted),
      )

      -- The call times out after `j` sends.
      abbrev pub TimesOut : ℕ → Option (RetCode × Locals W) → Type 0
      TimesOut j result = (t : Locals W) × (result ≡ some (RetCode.timedout, t)) × Backed j t

      passes-over :
          (fuel : ℕ) (t : Locals W)
          → 0 < fuel
          → keeps_on os (writing os) (pos (suc n)) t ≡ false
          → t.code ≡ RetCode.timedout
          → passes os (writing os) (pos (suc n)) fuel t ≡ some (RetCode.timedout, t)
      unfolding passes
      passes-over zero t h over late = absurd (omega arith)
      passes-over (suc fuel) t h over late = rw (over, passes) (rw late)

      passes-TimesOut :
          (k j fuel : ℕ) (t : Locals W)
          → IsFull
          → Backing j t
          → j * poll + k * poll < limit
          → limit ≤ j * poll + suc k * poll
          → limit + poll < word_mod
          → k + 2 ≤ fuel
          → TimesOut (suc (j + k)) (passes os (writing os) (pos (suc n)) fuel t)
      passes-TimesOut k j zero t f b early late room enough = absurd (omega arith)
      passes-TimesOut zero j (suc fuel) t f b early late room enough =
          let t' = stepped_back (pos (suc n)) t in
          let here : j + zero ≡ j = omega arith in
          let (over, code) = stepped_back-late j t b (omega arith) (omega arith) in
          (
            t',
            passes-backed j fuel t f b ∙ passes-over fuel t' (omega arith) over code,
            rw here (stepped_back-Backed j t f b.backed),
          )
      passes-TimesOut (suc k) j (suc fuel) t f b early late room enough =
          let on : j + suc k ≡ suc j + k = omega arith in
          let b' = stepped_back-early j t f b (omega arith) (omega arith) in
          let (u, e, out) =
            passes-TimesOut k (suc j) fuel (stepped_back (pos (suc n)) t) f b' (omega arith)
              (omega arith) room (omega arith) in
          (u, passes-backed j fuel t f b ∙ e, rw on out)

    -- When select finds the descriptor ready at every time and every send fails with an error that is no
    -- reset and asks to try again, and the timeout is more than k and at most k + 1 polling times: a call
    -- of writeData for at least one byte ends with NC_TIMEDOUT after k + 1 sends. Each send after the first
    -- one is given one byte more, from one byte further in front of the buffer; at the end pPtr stands
    -- k + 1 bytes in front of it, and *numActualBytes, if given, is -(k + 1).
    pub full-TimesOut :
        (s : NcSocket) (mem : Memory) (n : ℕ) (num : Option ℤ) (w : W) (k fuel : ℕ)
        → IsFull
        → k * s.polltime < s.timeout
        → s.timeout ≤ suc k * s.polltime
        → s.timeout + s.polltime < word_mod
        → k + 2 ≤ fuel
        → TimesOut mem n num s.timeout s.polltime
            (offered w)
            (suc k)
            (write_by_select os fuel s mem (pos (suc n)) num w)
    unfolding write_by_select
    full-TimesOut s mem n num w k fuel f early late room enough =
        let none_before : 0 + k ≡ k = omega arith in
        let done =
          passes-TimesOut mem n num s.timeout s.polltime (offered w) k 0 fuel
            (entry os s mem (pos (suc n)) num w) f
            (record {
              backed = record {
                pointer = refl;
                left = ap pos (omega arith);
                counted = refl;
                same_memory = refl;
                seen = sym (append-nil (offered w));
              };
              clock = omega arith;
              untimed = refl;
              limit_kept = refl;
              poll_kept = refl;
            })
            (omega arith) (omega arith) room enough in
        rw none_before at done
