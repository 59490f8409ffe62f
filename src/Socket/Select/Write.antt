-- ===== src/Socket/Select/Write.antt =====
-- src/ncsocket.cpp: what a call of `ncSocket::writeData` in the select build does.
use netclass.Common.{
  ℕ, ℤ, pos, negsuc, pos_part, eqb_ℤ, word_mod, ◌+◌, ◌≤◌, ◌<◌, ◌≡◌, refl, sym, ap, subst, ◌∙◌, inl,
  inr, false, List, ◌++◌, [], ◌∷◌, none, some, Option, append-nil, append_assoc, arith, Bool-cases,
}
use netclass.Consts.{socktype_tcpip}
use netclass.Socket.State.{NcSocket, SockAddrIn}
use netclass.Socket.Poll.Os.{Sent}
use netclass.Socket.Poll.Contracts.{SendsPrefix}
use netclass.Socket.Poll.Runs.{rounds}
use netclass.Socket.Select.Memory.{Memory, bytes_at, take-bytes_at, length-bytes_at, bytes_at-add}
use netclass.Socket.Select.Os.{SelectOs}
use netclass.Socket.Select.Loop.{Locals}
use netclass.Socket.Select.Calls.{send_call, writing, write_by_select}
use netclass.Socket.Select.Outcome.{Laws, IsReady, Completes}
use netclass.Socket.Select.Runs.{entry-Completes}

module _ {W : Type 0} (os : SelectOs W) (wire : W → List ℕ) where
  -- What the calls are documented to do: a send takes bytes from the first on; and one that fails right
  -- after select has found the descriptor ready does not fail with an error that asks to try again.
  pub record SendContract : Type 0 where
    pub select_keeps :
        (nfds : ℤ) (reads writes : Option (List ℤ)) (sec usec : ℕ) (w : W)
        → wire (os.select nfds reads writes sec usec w).world ≡ wire w
    pub shutdown_keeps : (fd : ℤ) (how : ℕ) (w : W) → wire (os.shutdown fd how w) ≡ wire w
    pub send :
        (fd : ℤ) (bytes : List ℕ) (flags : ℕ) (w : W)
        → SendsPrefix wire bytes w (os.send fd bytes flags w)
    pub sendto :
        (fd : ℤ) (bytes : List ℕ) (flags : ℕ) (to : SockAddrIn) (w : W)
        → SendsPrefix wire bytes w (os.sendto fd bytes flags to w)
    pub send_ready :
        (fd : ℤ) (bytes : List ℕ) (flags : ℕ) (w : W) (e : ℕ)
        → IsReady os none (some (fd ∷ [])) fd w
        → (os.send fd bytes flags w).result ≡ negsuc e
        → os.arch.is_blocking_error (os.last_error (os.send fd bytes flags w).world) ≡ false
    pub sendto_ready :
        (fd : ℤ) (bytes : List ℕ) (flags : ℕ) (to : SockAddrIn) (w : W) (e : ℕ)
        → IsReady os none (some (fd ∷ [])) fd w
        → (os.sendto fd bytes flags to w).result ≡ negsuc e
        → os.arch.is_blocking_error (os.last_error (os.sendto fd bytes flags to w).world) ≡ false

  module _ (c : SendContract) (before : List ℕ) (mem : Memory) where
    -- After `n` bytes: they are on the wire behind what was there, and the memory is as it was.
    pub record Written (n : ℕ) (mem' : Memory) (w : W) : Type 0 where
      pub on_wire : wire w ≡ before ++ bytes_at mem (pos 0) n
      pub same_memory : mem' ≡ mem

    send_call-SendsPrefix :
        (t : Locals W)
        → SendsPrefix wire (bytes_at t.memory t.off (pos_part t.remaining)) t.world (send_call os t)
    unfolding send_call
    send_call-SendsPrefix t = elim (Bool-cases (eqb_ℤ t.sock.socktype socktype_tcpip)) [
      | inl tcp ↦ rw tcp (c.send _ _ _ _)
      | inr udp ↦ rw udp (c.sendto _ _ _ _ _)
    ]

    send_call-ready :
        (t : Locals W) (e : ℕ)
        → IsReady os none (some (t.sock.sockfd ∷ [])) t.sock.sockfd t.world
        → (send_call os t).result ≡ negsuc e
        → os.arch.is_blocking_error (os.last_error (send_call os t).world) ≡ false
    unfolding send_call
    send_call-ready t e ready h = elim (Bool-cases (eqb_ℤ t.sock.socktype socktype_tcpip)) [
      | inl tcp ↦ rw tcp (c.send_ready _ _ _ _ e ready (rw tcp at h))
      | inr udp ↦ rw udp (c.sendto_ready _ _ _ _ _ e ready (rw udp at h))
    ]

    Written-extend :
        (n k m : ℕ) (w : W) (r : Sent W) (mem' : Memory)
        → SendsPrefix wire (bytes_at mem' (pos n) m) w r
        → r.result ≡ pos k
        → Written n mem' w
        → Written (n + k) mem' r.world
    Written-extend n k m w r mem' sends e v = record {
      on_wire =
          sends.takes k e
          ∙ ap (λ l. wire w ++ l)
              (take-bytes_at mem' (pos n) k m
                (omega (arith, sends.count_le k e, length-bytes_at mem' (pos n) m)))
          ∙ rw (v.on_wire, v.same_memory, bytes_at-add mem 0 n k)
              (append_assoc before (bytes_at mem (pos 0) n) (bytes_at mem (pos n) k)
                ∙ ap (λ j. before ++ (bytes_at mem (pos 0) n ++ bytes_at mem (pos j) k))
                    (omega arith));
      same_memory = v.same_memory;
    }

    -- Writing keeps `Written`.
    writing-Laws : Laws os (writing os) Written
    unfolding writing
    writing-Laws = record {
      select_keeps = λ nfds reads writes sec usec n m w v. record {
        on_wire = c.select_keeps nfds reads writes sec usec w ∙ v.on_wire;
        same_memory = v.same_memory;
      };
      carry_le = λ t r k left e. omega (
        arith,
        (send_call-SendsPrefix t).count_le k e,
        length-bytes_at t.memory t.off (pos_part t.remaining),
        ap pos_part left,
      );
      carry_ok = λ t n k at e v.
          Written-extend n k (pos_part t.remaining) t.world (send_call os t) t.memory
            (subst
              (λ o.
                SendsPrefix wire (bytes_at t.memory o (pos_part t.remaining)) t.world
                  (send_call os t))
              at (send_call-SendsPrefix t))
            e v;
      carry_error = λ t n e at h v. record {
        on_wire = (send_call-SendsPrefix t).refuses e h ∙ v.on_wire;
        same_memory = v.same_memory;
      };
      positive_counts = λ k err. ground arith;
      error_uncounted = λ t e ready h. ground (arith, send_call-ready t e ready h);
      shutdown_keeps = λ fd how n m w v. record {
        on_wire = c.shutdown_keeps fd how w ∙ v.on_wire;
        same_memory = v.same_memory;
      };
    }

  -- With a positive polling time and a timeout that does not wrap, when no send right after a select
  -- that has found the descriptor ready asks to try again: writeData of the select build returns
  -- within timeout / polltime + 3 tests of its loop. The bytes that have left are then the first ones
  -- of the buffer, in order and once each, and no more than were asked for; *numActualBytes, if
  -- given, is their number; NC_OK means that all were sent, NC_MOREDATA that the count was asked for
  -- and is strictly between, NC_TIMEDOUT with a count that nothing was sent, NC_CLIENTDISCONNECT that
  -- a send failed with a reset and the side was shut down, and NC_FAILED that select failed or did
  -- not leave the descriptor in its set, or that a send took nothing, without a reset, and the side
  -- was shut down.
  pub write_by_select-Completes :
      (c : SendContract) (s : NcSocket) (mem : Memory) (buf_len : ℤ) (num : Option ℤ) (w : W)
      (fuel : ℕ)
      → 0 < s.polltime
      → s.timeout + s.polltime < word_mod
      → rounds s ≤ fuel
      → Completes os
          (writing os)
          (Written c (wire w) mem)
          buf_len
          num
          (write_by_select os fuel s mem buf_len num w)
  unfolding write_by_select bytes_at
  write_by_select-Completes c s mem buf_len num w fuel =
      entry-Completes os (writing os) (Written c (wire w) mem) (writing-Laws c (wire w) mem) s mem
        num w buf_len fuel (record { on_wire = sym (append-nil (wire w)); same_memory = refl })
