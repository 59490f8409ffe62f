-- ===== src/Socket/Select/Read.antt =====
-- src/ncsocket.cpp: what a call of `ncSocket::readData` in the select build does.
use netclass.Common.{
  ℕ, ℤ, pos, negsuc, pos_part, eqb_ℤ, word_mod, ◌+◌, ◌≤◌, ◌<◌, ◌≡◌, refl, sym, ap, ap₂, subst, ◌∙◌,
  inl, inr, List, ◌++◌, length, Option, append-nil, append_assoc, arith, Bool-cases,
}
use netclass.Consts.{socktype_tcpip}
use netclass.Socket.State.{NcSocket, SockAddrIn}
use netclass.Socket.Poll.Contracts.{Delivers}
use netclass.Socket.Poll.Runs.{rounds}
use netclass.Socket.Select.Memory.{
  Memory, bytes_at, store, bytes_at-add, bytes_at-agree, bytes_at-store, store-outside,
  store-before,
}
use netclass.Socket.Select.Os.{SelectOs}
use netclass.Socket.Select.Loop.{Locals}
use netclass.Socket.Select.Calls.{recv_call, reading, read_by_select}
use netclass.Socket.Select.Outcome.{Laws, Completes}
use netclass.Socket.Select.Runs.{entry-Completes}

module _ {W : Type 0} (os : SelectOs W) (handed : W → List ℕ) where
  -- What the calls are documented to do: a receive gives at most what it was asked for, and nothing else
  -- gives bytes to the program.
  pub record RecvContract : Type 0 where
    pub select_keeps :
        (nfds : ℤ) (reads writes : Option (List ℤ)) (sec usec : ℕ) (w : W)
        → handed (os.select nfds reads writes sec usec w).world ≡ handed w
    pub shutdown_keeps : (fd : ℤ) (how : ℕ) (w : W) → handed (os.shutdown fd how w) ≡ handed w
    pub recv : (fd : ℤ) (len flags : ℕ) (w : W) → Delivers handed len w (os.recv fd len flags w)
    pub recvfrom :
        (fd : ℤ) (len flags : ℕ) (to : SockAddrIn) (w : W)
        → Delivers handed len w (os.recvfrom fd len flags to w)

  module _ (c : RecvContract) (before : List ℕ) (mem : Memory) where
    -- After `n` bytes: they stand at the start of the buffer as they were handed over, and the memory
    -- behind them and in front of the buffer is as it was.
    pub record Stored (n : ℕ) (mem' : Memory) (w : W) : Type 0 where
      pub received : handed w ≡ before ++ bytes_at mem' (pos 0) n
      pub behind : (i : ℕ) → n ≤ i → mem' (pos i) ≡ mem (pos i)
      pub in_front : (i : ℕ) → mem' (negsuc i) ≡ mem (negsuc i)

    -- The bytes of the buffer up to `n + k`, when `k` bytes have been stored at `n`.
    bytes_at-store_end :
        (mem' : Memory) (n k : ℕ) (bs : List ℕ)
        → length bs ≡ k
        → bytes_at (store mem' (pos n) bs) (pos 0) (n + k) ≡ bytes_at mem' (pos 0) n ++ bs
    bytes_at-store_end mem' n k bs len =
        bytes_at-add (store mem' (pos n) bs) 0 n k
        ∙ ap₂ ◌++◌
            (bytes_at-agree (store mem' (pos n) bs) mem' 0 n
              (λ i lo hi. store-outside mem' n i bs (inl (omega arith))))
            (ap₂ (λ a m. bytes_at (store mem' (pos n) bs) (pos a) m) (omega arith) (sym len)
              ∙ bytes_at-store mem' n bs)

    Stored-extend :
        (n k : ℕ) (bs : List ℕ) (w w' : W) (mem' : Memory)
        → length bs ≡ k
        → handed w' ≡ handed w ++ bs
        → Stored n mem' w
        → Stored (n + k) (store mem' (pos n) bs) w'
    Stored-extend n k bs w w' mem' len given v = record {
      received =
          given
          ∙ rw (v.received, bytes_at-store_end mem' n k bs len)
              (append_assoc before (bytes_at mem' (pos 0) n) bs);
      behind =
          λ i le. store-outside mem' n i bs (inr (omega (arith, len))) ∙ v.behind i (omega arith);
      in_front = λ i. store-before mem' n i bs ∙ v.in_front i;
    }

    recv_call-Delivers :
        (t : Locals W) → Delivers handed (pos_part t.remaining) t.world (recv_call os t)
    unfolding recv_call
    recv_call-Delivers t = elim (Bool-cases (eqb_ℤ t.sock.socktype socktype_tcpip)) [
      | inl tcp ↦ rw tcp (c.recv _ _ _ _)
      | inr udp ↦ rw udp (c.recvfrom _ _ _ _ _)
    ]

    -- A receive that fails stores nothing.
    recv_error-Stored :
        (t : Locals W) (n e : ℕ)
        → (recv_call os t).result ≡ negsuc e
        → Stored n t.memory t.world
        → Stored n (store t.memory t.off (recv_call os t).bytes) (recv_call os t).world
    unfolding store
    recv_error-Stored t n e h v =
        let (nothing, same) = (recv_call-Delivers t).refuses e h in
        rw nothing
          (record { received = same ∙ v.received; behind = v.behind; in_front = v.in_front })

    recv_ok-Stored :
        (t : Locals W) (n k : ℕ)
        → t.off ≡ pos n
        → (recv_call os t).result ≡ pos k
        → Stored n t.memory t.world
        → Stored (n + k) (store t.memory t.off (recv_call os t).bytes) (recv_call os t).world
    recv_ok-Stored t n k at e v =
        subst (λ o. Stored (n + k) (store t.memory o (recv_call os t).bytes) (recv_call os t).world)
          (sym at)
          (Stored-extend n k (recv_call os t).bytes t.world (recv_call os t).world t.memory
            ((recv_call-Delivers t).stores k e) ((recv_call-Delivers t).gives k e) v)

    -- Reading keeps `Stored`.
    reading-Laws : Laws os (reading os) Stored
    unfolding reading
    reading-Laws = record {
      select_keeps = λ nfds reads writes sec usec n m w v. record {
        received = c.select_keeps nfds reads writes sec usec w ∙ v.received;
        behind = v.behind;
        in_front = v.in_front;
      };
      carry_le =
          λ t r k left e. omega (arith, (recv_call-Delivers t).count_le k e, ap pos_part left);
      carry_ok = λ t n k at e v. recv_ok-Stored t n k at e v;
      carry_error = λ t n e at h v. recv_error-Stored t n e h v;
      positive_counts = λ k err. ground arith;
      error_uncounted = λ t e ready h. ground arith;
      shutdown_keeps = λ fd how n m w v. record {
        received = c.shutdown_keeps fd how w ∙ v.received;
        behind = v.behind;
        in_front = v.in_front;
      };
    }

  -- With a positive polling time and a timeout that does not wrap, readData of the select build
  -- returns within timeout / polltime + 3 tests of its loop. The buffer then begins with the bytes
  -- received since the call, in order, and the memory behind them and in front of the buffer is as it
  -- was; *numActualBytes, if given, is their number; NC_OK means that all were received, NC_MOREDATA
  -- that the count was asked for and is strictly between, NC_TIMEDOUT with a count that nothing was
  -- received, NC_CLIENTDISCONNECT that a receive failed with a reset and the side was shut down, and
  -- NC_FAILED that select failed or did not leave the descriptor in its set, or that a receive gave
  -- nothing, without a reset, and the side was shut down.
  pub read_by_select-Completes :
      (c : RecvContract) (s : NcSocket) (mem : Memory) (buf_len : ℤ) (num : Option ℤ) (w : W)
      (fuel : ℕ)
      → 0 < s.polltime
      → s.timeout + s.polltime < word_mod
      → rounds s ≤ fuel
      → Completes os
          (reading os)
          (Stored c (handed w) mem)
          buf_len
          num
          (read_by_select os fuel s mem buf_len num w)
  unfolding read_by_select bytes_at
  read_by_select-Completes c s mem buf_len num w fuel =
      entry-Completes os (reading os) (Stored c (handed w) mem) (reading-Laws c (handed w) mem) s
        mem num w buf_len fuel
        (record {
          received = sym (append-nil (handed w));
          behind = λ i le. refl;
          in_front = λ i. refl;
        })
