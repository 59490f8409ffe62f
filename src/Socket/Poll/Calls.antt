-- ===== src/Socket/Poll/Calls.antt =====
-- src/ncsocket.cpp, the poll build: `ncSocket::writeData` and `ncSocket::readData`.
use netclass.Common.{
  ℕ, ℤ, pos, pos_part, eqb_ℤ, if◌then◌else◌, List, Option, none, some, take, drop,
}
use netclass.Consts.{RetCode, socktype_tcpip}
use netclass.Socket.State.{NcSocket, overwrite}
use netclass.Socket.Poll.Os.{PollOs, Sent, Received}
use netclass.Socket.Poll.Loop.{Transfer, Moved, Direction, transfer}

module _ {W : Type 0} (os : PollOs W) where
  -- The nRemaining bytes at pPtr.
  abbrev pub chunk : Transfer W → List ℕ
  chunk t = take (pos_part t.remaining) (drop t.off t.buf)

  unfoldable pub send_call : Transfer W → Sent W
  send_call t =
      if eqb_ℤ t.sock.socktype socktype_tcpip
      then os.send t.sock.sockfd (chunk t) os.arch.recv_flag t.world
      else os.sendto t.sock.sockfd (chunk t) 0 t.sock.to t.world

  -- nSent = send(…) or sendto(…).
  abbrev pub send_move : Transfer W → Moved W
  send_move t =
      let r = send_call t in
      record { count = r.result; buf = t.buf; to = t.sock.to; world = r.world }

  unfoldable pub recv_call : Transfer W → Received W
  recv_call t =
      if eqb_ℤ t.sock.socktype socktype_tcpip
      then os.recv t.sock.sockfd (pos_part t.remaining) os.arch.recv_flag t.world
      else os.recvfrom t.sock.sockfd (pos_part t.remaining) 0 t.sock.to t.world

  -- nRead = recv(…) or recvfrom(…), which fill the buffer at pPtr; recvfrom stores the sender in m_to.
  abbrev pub recv_move : Transfer W → Moved W
  recv_move t =
      let r = recv_call t in
      record {
        count = r.result;
        buf = overwrite t.buf t.off r.bytes;
        to = if eqb_ℤ t.sock.socktype socktype_tcpip then t.sock.to else r.from;
        world = r.world;
      }

  unfoldable pub writing : Direction W
  unfolding send_call
  writing = record { event = os.pollout; how = os.arch.sd_send; move = send_move }

  unfoldable pub reading : Direction W
  unfolding recv_call
  reading = record { event = os.pollin; how = os.arch.sd_read; move = recv_move }

  -- *numActualBytes = 0, if the pointer is not null.
  abbrev pub cleared : Option ℤ → Option ℤ
  cleared none = none
  cleared (some _) = some (pos 0)

  -- The locals before the loop.
  abbrev pub begin : NcSocket → List ℕ → ℤ → Option ℤ → W → Transfer W
  begin s buf buf_len num_actual w = record {
    buf = buf;
    off = 0;
    remaining = buf_len;
    num_actual = cleared num_actual;
    clock = 0;
    timedout = 0;
    code = RetCode.ok;
    sock = s;
    world = w;
  }

  unfoldable pub write_data :
      ℕ → NcSocket → List ℕ → ℤ → Option ℤ → W → Option (RetCode × Transfer W)
  unfolding transfer writing
  write_data fuel s buf buf_len num_actual w =
      transfer os writing buf_len fuel (begin s buf buf_len num_actual w)

  unfoldable pub read_data :
      ℕ → NcSocket → List ℕ → ℤ → Option ℤ → W → Option (RetCode × Transfer W)
  unfolding transfer reading
  read_data fuel s buf buf_len num_actual w =
      transfer os reading buf_len fuel (begin s buf buf_len num_actual w)
