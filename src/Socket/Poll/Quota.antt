-- ===== src/Socket/Poll/Quota.antt =====
-- src/ncsocket.cpp: what `writeData` and `readData` of the poll build move at most before they time out.
use netclass.Common.{
  ℕ, suc, ℤ, pos, pos_part, word_mod, ◌+◌, ◌*◌, ◌≤◌, ◌<◌, ◌≡◌, refl, ap, subst, ◌⊎◌, inl, inr, true,
  false, List, Option, some, length, drop, length-take, length-drop, arith, has_bit, eqb_ℤ,
  Bool-cases,
}
use netclass.Consts.{RetCode, socktype_tcpip}
use netclass.Socket.State.{NcSocket, SockAddrIn}
use netclass.Socket.Poll.Os.{PollOs}
use netclass.Socket.Poll.Loop.{Transfer, Direction, transfer}
use netclass.Socket.Poll.Calls.{
  begin, chunk, send_call, recv_call, writing, reading, write_data, read_data,
}
use netclass.Socket.Poll.Outcome.{actual}
use netclass.Socket.Poll.Steady.{code_after, IsSteady, Moving, transfer-Steady}

module _ {W : Type 0} (os : PollOs W) where
  pub record IsReady (event : ℕ) : Type 0 where
    pub ready : (fd ms : ℤ) (w : W) → (os.poll fd event ms w).result ≡ pos 1
    pub no_error : (fd ms : ℤ) (w : W) → has_bit (os.poll fd event ms w).revents os.pollerr ≡ false
    pub marked : (fd ms : ℤ) (w : W) → has_bit (os.poll fd event ms w).revents event ≡ true

  -- A line that is always ready and moves `k` bytes a time, when it is asked for so many.
  pub record SteadyLine (k : ℕ) : Type 0 where
    pub write_ready : IsReady os.pollout
    pub read_ready : IsReady os.pollin
    pub send :
        (fd : ℤ) (bytes : List ℕ) (flags : ℕ) (w : W)
        → k ≤ length bytes
        → (os.send fd bytes flags w).result ≡ pos k
    pub sendto :
        (fd : ℤ) (bytes : List ℕ) (flags : ℕ) (to : SockAddrIn) (w : W)
        → k ≤ length bytes
        → (os.sendto fd bytes flags to w).result ≡ pos k
    pub recv : (fd : ℤ) (len flags : ℕ) (w : W) → k ≤ len → (os.recv fd len flags w).result ≡ pos k
    pub recvfrom :
        (fd : ℤ) (len flags : ℕ) (to : SockAddrIn) (w : W)
        → k ≤ len
        → (os.recvfrom fd len flags to w).result ≡ pos k

  module _ (k : ℕ) (l : SteadyLine k) where
    send_call-steady : (t : Transfer W) → k ≤ length (chunk os t) → (send_call os t).result ≡ pos k
    unfolding send_call
    send_call-steady t room = elim (Bool-cases (eqb_ℤ t.sock.socktype socktype_tcpip)) [
      | inl tcp ↦ rw tcp (l.send _ _ _ _ room)
      | inr udp ↦ rw udp (l.sendto _ _ _ _ _ room)
    ]

    recv_call-steady : (t : Transfer W) → k ≤ pos_part t.remaining → (recv_call os t).result ≡ pos k
    unfolding recv_call
    recv_call-steady t room = elim (Bool-cases (eqb_ℤ t.sock.socktype socktype_tcpip)) [
      | inl tcp ↦ rw tcp (l.recv _ _ _ _ room)
      | inr udp ↦ rw udp (l.recvfrom _ _ _ _ _ room)
    ]

    module _ (s : NcSocket) (buf : List ℕ) (n : ℕ) (num : Option ℤ) (w : W) where
      writing-IsSteady :
          n ≤ length buf → IsSteady os (writing os) n num s.timeout s.polltime k (λ b. b ≡ buf)
      unfolding writing
      writing-IsSteady fits = record {
        ready = l.write_ready.ready;
        no_error = l.write_ready.no_error;
        event = l.write_ready.marked;
        takes = λ t same room sum. (
          send_call-steady t (
              omega (
                arith,
                length-take (pos_part t.remaining) (drop t.off t.buf),
                length-drop t.off t.buf,
                ap length same,
              )),
          same,
        );
      }

      reading-IsSteady : IsSteady os (reading os) n num s.timeout s.polltime k (λ b. Unit)
      unfolding reading
      reading-IsSteady = record {
        ready = l.read_ready.ready;
        no_error = l.read_ready.no_error;
        event = l.read_ready.marked;
        takes = λ t same room sum. (recv_call-steady t room, tt);
      }

      -- The call has returned after `a` bytes.
      abbrev pub Rationed : (a : ℕ) → Option (RetCode × Transfer W) → Type 0
      Rationed a result =
          (t : Transfer W) × (result ≡ some (code_after num a n, t))
          × (t.off ≡ a)
          × (t.num_actual ≡ actual num a)

      begin-Rationed :
          (dir : Direction W) (whole : List ℕ → Type 0) (r fuel : ℕ)
          → IsSteady os dir n num s.timeout s.polltime k whole
          → whole buf
          → 0 < k
          → suc r * k ≤ n
          → (r ≡ 0) ⊎ (r * s.polltime < s.timeout)
          → s.timeout ≤ suc r * s.polltime
          → suc r * s.polltime < word_mod
          → r + 2 ≤ fuel
          → Rationed (suc r * k) (transfer os dir (pos n) fuel (begin os s buf (pos n) num w))
      begin-Rationed dir whole r fuel steady good moves room early late nowrap enough =
          let start : Moving os dir n num s.timeout s.polltime k whole 0 0
              (begin os s buf (pos n) num w) =
            record {
              rest = n;
              left = refl;
              sum = omega arith;
              moved = refl;
              counted = ground arith;
              untimed = refl;
              time = refl;
              limit_kept = refl;
              poll_kept = refl;
              good = good;
            } in
          let (t, e, d) =
            transfer-Steady os dir n num s.timeout s.polltime k whole r fuel 0 0
              (begin os s buf (pos n) num w) steady moves (omega arith)
              (elim early [ inl one ↦ inl one | inr more ↦ inr (omega arith) ]) (omega arith)
              (omega arith) enough start in
          subst (λ a. Rationed a (transfer os dir (pos n) fuel (begin os s buf (pos n) num w)))
            (omega arith) (t, e, d.moved, d.counted)

      -- On a line that is always ready and moves k bytes a time, without any wait, a call for n bytes
      -- ends after r + 1 rounds, the least number whose time reaches the timeout: it has moved
      -- (r + 1) * k bytes, however many n is, and says NC_MOREDATA if these are fewer than n and the
      -- count was asked for, NC_OK if these are all and the count was asked for, and NC_TIMEDOUT
      -- whenever it was not.
      pub steady-Rationed :
          (r fuel : ℕ)
          → 0 < k
          → suc r * k ≤ n
          → n ≤ length buf
          → (r ≡ 0) ⊎ (r * s.polltime < s.timeout)
          → s.timeout ≤ suc r * s.polltime
          → suc r * s.polltime < word_mod
          → r + 2 ≤ fuel
          → Rationed (suc r * k) (write_data os fuel s buf (pos n) num w)
            × Rationed (suc r * k) (read_data os fuel s buf (pos n) num w)
      unfolding write_data read_data
      steady-Rationed r fuel moves room fits early late nowrap enough = (
        begin-Rationed (writing os) (λ b. b ≡ buf) r fuel (writing-IsSteady fits) refl moves room
            early late nowrap enough,
        begin-Rationed (reading os) (λ b. Unit) r fuel reading-IsSteady tt moves room early late
            nowrap enough,
      )
