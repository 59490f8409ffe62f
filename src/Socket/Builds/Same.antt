-- ===== src/Socket/Builds/Same.antt =====
-- src/ncsocket.cpp: what the two builds of `ncSocket::writeData` and of `ncSocket::readData` have in
-- common.
use netclass.Common.{
  ℕ, ℤ, pos, pos_part, ◌≤◌, ◌≡◌, refl, ap, subst, ◌∙◌, inl, inr, true, length, arith, Option, eqb_ℤ,
  ltb_ℤ, Bool-cases,
}
use netclass.Consts.{socktype_tcpip}
use netclass.Socket.State.{NcSocket, overwrite, PollObject}
use netclass.Socket.Poll.Os.{PollOs}
use netclass.Socket.Poll.Loop.{Transfer}
use netclass.Socket.Poll.Calls as PollCalls
use netclass.Socket.Poll.Calls.{chunk, begin, write_data, read_data}
use netclass.Socket.Select.Memory.{Memory, bytes_at, store, length-bytes_at}
use netclass.Socket.Select.Calls as SelectCalls
use netclass.Socket.Select.Calls.{write_by_select, read_by_select}
use netclass.Socket.Builds.System.{
  Select, with_select, MovesOrFails, IsReady, SameWrites, SameReads, Fills,
}
use netclass.Socket.Builds.Bytes.{take-drop-bytes_at, bytes_at-overwrite}
use netclass.Socket.Builds.Agreement.{locals_of, Matched}
use netclass.Socket.Builds.Step.{SameCall, SameWay}
use netclass.Socket.Builds.Loops.{selected, polled, passes-transfer}

module _ {W : Type 0} (p : PollOs W) (select : Select W) where
  module _ (room : ℕ) (memory : Memory) (t : Transfer W) (m : Matched room memory t)
      (more : ltb_ℤ (pos 0) t.remaining ≡ true) where
    -- Both builds hand over the same bytes.
    chunk-bytes_at : chunk p t ≡ bytes_at memory (pos t.off) (pos_part t.remaining)
    chunk-bytes_at =
        rw (← m.holds) (take-drop-bytes_at memory room t.off (pos_part t.remaining) m.fits)

    send_call-same :
        (l : PollObject)
        → SelectCalls.send_call (with_select p select) (locals_of l memory t)
          ≡ PollCalls.send_call p t
    unfolding SelectCalls.send_call PollCalls.send_call
    send_call-same l = rw chunk-bytes_at refl

    send_call-MovesOrFails :
        SameWrites p select
        → IsReady p p.pollout t.sock.sockfd t.world
        → let r = PollCalls.send_call p t in MovesOrFails p (pos_part t.remaining) r.result r.world
    unfolding PollCalls.send_call
    send_call-MovesOrFails same found =
        let size : length (chunk p t) ≡ pos_part t.remaining =
          ap length chunk-bytes_at ∙ length-bytes_at memory (pos t.off) (pos_part t.remaining) in
        let r = PollCalls.send_call p t in
        subst (λ k. MovesOrFails p k r.result r.world) size
          (elim (Bool-cases (eqb_ℤ t.sock.socktype socktype_tcpip)) [
            | inl stream ↦ rw stream (same.sends _ _ _ _ found (ground (arith, size)))
            | inr packet ↦ rw packet (same.sends_to _ _ _ _ _ found (ground (arith, size)))
          ])

    recv_call-Fills :
        SameReads p select
        → IsReady p p.pollin t.sock.sockfd t.world
        → Fills p (pos_part t.remaining) (PollCalls.recv_call p t)
    unfolding PollCalls.recv_call
    recv_call-Fills same found = elim (Bool-cases (eqb_ℤ t.sock.socktype socktype_tcpip)) [
      | inl stream ↦ rw stream (same.receives _ _ _ _ found (ground (arith, more)))
      | inr packet ↦ rw packet (same.receives_from _ _ _ _ _ found (ground (arith, more)))
    ]

    writing-SameCall :
        SameWrites p select
        → IsReady p p.pollout t.sock.sockfd t.world
        → (l : PollObject)
        → SameCall p select room
            (PollCalls.writing p)
            (SelectCalls.writing (with_select p select))
            l
            memory
            t
    unfolding PollCalls.writing SelectCalls.writing
    writing-SameCall same found l = record {
      memory_after = memory;
      same_result = rw (send_call-same l) refl;
      same_bytes = m.holds;
      moves = send_call-MovesOrFails same found;
    }

    reading-SameCall :
        SameReads p select
        → IsReady p p.pollin t.sock.sockfd t.world
        → (l : PollObject)
        → SameCall p select room
            (PollCalls.reading p)
            (SelectCalls.reading (with_select p select))
            l
            memory
            t
    unfolding PollCalls.reading SelectCalls.reading PollCalls.recv_call SelectCalls.recv_call
    reading-SameCall same found l = record {
      memory_after = store memory (pos t.off) (PollCalls.recv_call p t).bytes;
      same_result = refl;
      same_bytes =
          bytes_at-overwrite memory room t.off (PollCalls.recv_call p t).bytes
            (ground (arith, (recv_call-Fills same found).stores, m.fits))
          ∙ ap (λ b. overwrite b t.off (PollCalls.recv_call p t).bytes) m.holds;
      moves = (recv_call-Fills same found).moves;
    }

  writing-SameWay :
      (room : ℕ)
      → SameWrites p select
      → SameWay p select room (PollCalls.writing p) (SelectCalls.writing (with_select p select))
  unfolding PollCalls.writing SelectCalls.writing
  writing-SameWay room same = record {
    same_how = refl;
    counts_moved = λ k err. ground arith;
    counts_failed = λ err fatal. ground arith;
    answers = same.answers;
    call = λ l memory t m more found. writing-SameCall room memory t m more same found l;
  }

  reading-SameWay :
      (room : ℕ)
      → SameReads p select
      → SameWay p select room (PollCalls.reading p) (SelectCalls.reading (with_select p select))
  unfolding PollCalls.reading SelectCalls.reading
  reading-SameWay room same = record {
    same_how = refl;
    counts_moved = λ k err. ground arith;
    counts_failed = λ err fatal. ground arith;
    answers = same.answers;
    call = λ l memory t m more found. reading-SameCall room memory t m more same found l;
  }

  module _ (s : NcSocket) (memory : Memory) (room : ℕ) (buf_len : ℤ) (num : Option ℤ) (w : W)
      (fits : pos_part buf_len ≤ room) where
    start : Matched room memory (begin p s (bytes_at memory (pos 0) room) buf_len num w)
    start = record { holds = refl; fits = omega arith }

    -- Where poll and select answer alike (an error, nothing yet, or the event without POLLERR), and a
    -- send right after poll has found the descriptor ready takes at least one byte or fails with an
    -- error that does not block: writeData of the select build, on a buffer in memory that has room
    -- for what is asked for, comes with the same fuel to the same result as writeData of the poll
    -- build: the code, the buffer, the pointer, the counts, the clock, the object but for its
    -- listener, and the system; or both run out of fuel.
    pub write_by_select-write_data :
        SameWrites p select
        → (fuel : ℕ)
        → selected room (write_by_select (with_select p select) fuel s memory buf_len num w)
          ≡ polled (write_data p fuel s (bytes_at memory (pos 0) room) buf_len num w)
    unfolding write_by_select write_data
    write_by_select-write_data same fuel =
        passes-transfer p select room _ _ (writing-SameWay room same) buf_len fuel s.listener memory
          (begin p s (bytes_at memory (pos 0) room) buf_len num w) start

    -- Where poll and select answer alike, and a receive right after poll has found the descriptor ready gives at least one
    -- byte or fails with an error that does not block, and never stores more bytes than were asked for:
    -- readData of the select build, on a buffer in memory that has room for what is asked for, comes with
    -- the same fuel to the same result as readData of the poll build, but for the listener.
    pub read_by_select-read_data :
        SameReads p select
        → (fuel : ℕ)
        → selected room (read_by_select (with_select p select) fuel s memory buf_len num w)
          ≡ polled (read_data p fuel s (bytes_at memory (pos 0) room) buf_len num w)
    unfolding read_by_select read_data
    read_by_select-read_data same fuel =
        passes-transfer p select room _ _ (reading-SameWay room same) buf_len fuel s.listener memory
          (begin p s (bytes_at memory (pos 0) room) buf_len num w) start
