-- ===== src/Socket/Poll/Stream.antt =====
-- src/ncsocket.cpp: two ncSockets at the ends of one connection, of which one writes and one reads.
use netclass.Common.{
  ℕ, ℤ, pos, ◌≡◌, refl, sym, ap, ap₂, ◌∙◌, List, [], ◌++◌, take, Option, some, append_assoc,
  append_cancel_left, append-nil, arith, eqb_ℤ, Bool-cases, inl, inr,
}
use netclass.Consts.{RetCode, socktype_tcpip}
use netclass.Socket.State.{NcSocket, SockAddrIn}
use netclass.Socket.Poll.Os.{PollOs}
use netclass.Socket.Poll.Loop.{Transfer}
use netclass.Socket.Poll.Calls.{
  begin, writing, reading, write_data, read_data, send_call, recv_call,
}
use netclass.Socket.Poll.Contracts.{PollContract, SendContract, RecvContract}
use netclass.Socket.Poll.Kept.{transfer-Keeps}
use netclass.Socket.Poll.Write.{write_data-Outcome}
use netclass.Socket.Poll.Read.{read_data-Outcome}

-- A log that has grown before grows again.
longer :
    (log before more xs ys : List ℕ)
    → log ≡ before ++ more
    → xs ≡ ys
    → log ++ xs ≡ before ++ (more ++ ys)
longer log before more xs ys e b = ap₂ ◌++◌ e b ∙ append_assoc before more ys

module _ {W A : Type 0} (os : PollOs W) (seen : W → A) where
  pub send_call-handed :
      ((fd : ℤ) (bytes : List ℕ) (flags : ℕ) (w : W)
        → seen (os.send fd bytes flags w).world ≡ seen w)
      → ((fd : ℤ) (bytes : List ℕ) (flags : ℕ) (to : SockAddrIn) (w : W)
          → seen (os.sendto fd bytes flags to w).world ≡ seen w)
      → (t : Transfer W) → seen ((writing os).move t).world ≡ seen t.world
  unfolding writing send_call
  send_call-handed tcp udp t = elim (Bool-cases (eqb_ℤ t.sock.socktype socktype_tcpip)) [
    | inl yes_tcp ↦ rw yes_tcp (tcp _ _ _ _)
    | inr no_tcp ↦ rw no_tcp (udp _ _ _ _ _)
  ]

  pub recv_call-wire :
      ((fd : ℤ) (len flags : ℕ) (w : W) → seen (os.recv fd len flags w).world ≡ seen w)
      → ((fd : ℤ) (len flags : ℕ) (to : SockAddrIn) (w : W)
          → seen (os.recvfrom fd len flags to w).world ≡ seen w)
      → (t : Transfer W) → seen ((reading os).move t).world ≡ seen t.world
  unfolding reading recv_call
  recv_call-wire tcp udp t = elim (Bool-cases (eqb_ℤ t.sock.socktype socktype_tcpip)) [
    | inl yes_tcp ↦ rw yes_tcp (tcp _ _ _ _)
    | inr no_tcp ↦ rw no_tcp (udp _ _ _ _ _)
  ]

module _ {W : Type 0} (writer reader : PollOs W) (wire handed : W → List ℕ) where
  -- What has happened on the connection, as the two programs see it: the bytes that the writing one was
  -- told have been sent, and the bytes that the reading one found in its buffers. Every call may use
  -- another buffer, another count, and another state of the socket.
  pub data Talk (w : W) : List ℕ → List ℕ → W → Type 0 where
    quiet : Talk w [] [] w
    wrote :
        {ws rs : List ℕ} {w₁ : W}
        → Talk w ws rs w₁
        → (fuel : ℕ) (s : NcSocket) (buf : List ℕ) (len old : ℤ) (code : RetCode) (t : Transfer W)
          (n : ℕ)
        → write_data writer fuel s buf len (some old) w₁ ≡ some (code, t)
        → t.num_actual ≡ some (pos n)
        → Talk w (ws ++ take n buf) rs t.world
    read :
        {ws rs : List ℕ} {w₁ : W}
        → Talk w ws rs w₁
        → (fuel : ℕ) (s : NcSocket) (buf : List ℕ) (len old : ℤ) (code : RetCode) (t : Transfer W)
          (n : ℕ)
        → read_data reader fuel s buf len (some old) w₁ ≡ some (code, t)
        → t.num_actual ≡ some (pos n)
        → Talk w ws (rs ++ take n t.buf) t.world

  -- A stream of bytes: besides what the calls of each end are documented to do, the calls of one end
  -- move no byte at the other, and what has been handed over is the beginning of what has been sent.
  pub record StreamContract : Type 0 where
    pub sends : SendContract writer wire
    pub receives : RecvContract reader handed
    pub writer_waits : PollContract writer handed
    pub reader_waits : PollContract reader wire
    pub send_keeps :
        (fd : ℤ) (bytes : List ℕ) (flags : ℕ) (w : W)
        → handed (writer.send fd bytes flags w).world ≡ handed w
    pub sendto_keeps :
        (fd : ℤ) (bytes : List ℕ) (flags : ℕ) (to : SockAddrIn) (w : W)
        → handed (writer.sendto fd bytes flags to w).world ≡ handed w
    pub recv_keeps :
        (fd : ℤ) (len flags : ℕ) (w : W) → wire (reader.recv fd len flags w).world ≡ wire w
    pub recvfrom_keeps :
        (fd : ℤ) (len flags : ℕ) (to : SockAddrIn) (w : W)
        → wire (reader.recvfrom fd len flags to w).world ≡ wire w
    pub in_order : (w : W) → (flying : List ℕ) × (wire w ≡ handed w ++ flying)

  module _ (c : StreamContract) where
    write_data-handed :
        (fuel : ℕ) (s : NcSocket) (buf : List ℕ) (len : ℤ) (num : Option ℤ) (w : W) (code : RetCode)
        (t : Transfer W)
        → write_data writer fuel s buf len num w ≡ some (code, t)
        → handed t.world ≡ handed w
    unfolding write_data
    write_data-handed fuel s buf len num w code t e =
        transfer-Keeps writer (writing writer) len (λ _ v. handed v ≡ handed w) fuel
          (begin writer s buf len num w) code t
          (record {
            polls = λ s v ms h. c.writer_waits.poll_keeps _ _ _ v ∙ h;
            moves = λ u h. send_call-handed writer handed c.send_keeps c.sendto_keeps u ∙ h;
            shuts = λ s fd v h. c.writer_waits.shutdown_keeps _ _ v ∙ h;
          })
          refl e

    read_data-wire :
        (fuel : ℕ) (s : NcSocket) (buf : List ℕ) (len : ℤ) (num : Option ℤ) (w : W) (code : RetCode)
        (t : Transfer W)
        → read_data reader fuel s buf len num w ≡ some (code, t)
        → wire t.world ≡ wire w
    unfolding read_data
    read_data-wire fuel s buf len num w code t e =
        transfer-Keeps reader (reading reader) len (λ _ v. wire v ≡ wire w) fuel
          (begin reader s buf len num w) code t
          (record {
            polls = λ s v ms h. c.reader_waits.poll_keeps _ _ _ v ∙ h;
            moves = λ u h. recv_call-wire reader wire c.recv_keeps c.recvfrom_keeps u ∙ h;
            shuts = λ s fd v h. c.reader_waits.shutdown_keeps _ _ v ∙ h;
          })
          refl e

    -- The logs of the two ends grow by what the programs were told.
    Talk-logs :
        {w : W} {ws rs : List ℕ} {w' : W}
        → Talk w ws rs w'
        → (wire w' ≡ wire w ++ ws) × (handed w' ≡ handed w ++ rs)
    Talk-logs quiet = (sym (append-nil _), sym (append-nil _))
    Talk-logs (wrote talk fuel s buf len old code t n e reported) =
        let (on_wire, given) = Talk-logs talk in
        let o = write_data-Outcome writer wire c.sends s buf len (some old) _ fuel code t e in
        let same : t.off ≡ n = ground (arith, o.counted, reported) in
        (
          o.progress.on_wire ∙ longer _ _ _ _ _ on_wire (ap (λ k. take k buf) same),
          write_data-handed fuel s buf len (some old) _ code t e ∙ given,
        )
    Talk-logs (read talk fuel s buf len old code t n e reported) =
        let (on_wire, given) = Talk-logs talk in
        let o = read_data-Outcome reader handed c.receives s buf len (some old) _ fuel code t e in
        let same : t.off ≡ n = ground (arith, o.counted, reported) in
        (
          read_data-wire fuel s buf len (some old) _ code t e ∙ on_wire,
          o.progress.received ∙ longer _ _ _ _ _ given (ap (λ k. take k t.buf) same),
        )

    -- However the calls of writeData at one end and of readData at the other follow each other, each with
    -- a count to report, and with whatever buffers, timeouts, errors and codes, on a connection that had
    -- nothing under way and keeps the order of its bytes: the bytes that the readers found in their
    -- buffers are the beginning of those that the writers were told have been sent, in order and once
    -- each.
    pub Talk-Fifo :
        {w : W} {ws rs : List ℕ} {w' : W}
        → wire w ≡ handed w
        → Talk w ws rs w'
        → (flying : List ℕ) × (ws ≡ rs ++ flying)
    Talk-Fifo {w} {ws} {rs} {w'} nothing talk =
        let (on_wire, given) = Talk-logs talk in
        let (flying, order) = c.in_order w' in
        (
          flying,
          append_cancel_left (handed w) ws (rs ++ flying) (
              ap (λ k. k ++ ws) (sym nothing)
              ∙ sym on_wire
              ∙ order
              ∙ longer _ _ _ flying flying given refl),
        )
