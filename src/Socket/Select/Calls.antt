-- ===== src/Socket/Select/Calls.antt =====
-- src/ncsocket.cpp, the select build: `ncSocket::writeData` and `ncSocket::readData`.
use netclass.Common.{
  ℕ, ℤ, pos, pos_part, eqb_ℤ, ltb_ℤ, ◌||◌, ◌&&◌, if◌then◌else◌, true, false, Option, none, some,
}
use netclass.Consts.{RetCode, socktype_tcpip}
use netclass.Socket.State.{NcSocket}
use netclass.Socket.Poll.Os.{Sent, Received}
use netclass.Socket.Select.Memory.{Memory, bytes_at, store}
use netclass.Socket.Select.Os.{SelectOs}
use netclass.Socket.Select.Loop.{Locals, Way, passes}

module _ {W : Type 0} (os : SelectOs W) where
  -- send(…) or sendto(…) of the nRemaining bytes at pPtr.
  unfoldable pub send_call : Locals W → Sent W
  send_call t =
      let chunk = bytes_at t.memory t.off (pos_part t.remaining) in
      if eqb_ℤ t.sock.socktype socktype_tcpip
      then os.send t.sock.sockfd chunk os.arch.recv_flag t.world
      else os.sendto t.sock.sockfd chunk 0 t.sock.to t.world

  unfoldable pub recv_call : Locals W → Received W
  recv_call t =
      if eqb_ℤ t.sock.socktype socktype_tcpip
      then os.recv t.sock.sockfd (pos_part t.remaining) os.arch.recv_flag t.world
      else os.recvfrom t.sock.sockfd (pos_part t.remaining) 0 t.sock.to t.world

  -- nSent > 0, or any result if the error is one that blocks.
  unfoldable pub writing : Way W
  unfolding send_call
  writing = record {
    for_reading = false;
    how = os.arch.sd_send;
    carry = λ t.
        let r = send_call t in
        record { count = r.result; memory = t.memory; to = t.sock.to; world = r.world };
    counts = λ n err. ltb_ℤ (pos 0) n || os.arch.is_blocking_error err;
  }

  -- nRead > 0, or 0 if the error is one that blocks. The bytes are stored at pPtr, and recvfrom stores
  -- the sender in m_to.
  unfoldable pub reading : Way W
  unfolding recv_call
  reading = record {
    for_reading = true;
    how = os.arch.sd_read;
    carry = λ t.
        let r = recv_call t in
        record {
          count = r.result;
          memory = store t.memory t.off r.bytes;
          to = if eqb_ℤ t.sock.socktype socktype_tcpip then t.sock.to else r.from;
          world = r.world;
        };
    counts = λ n err. ltb_ℤ (pos 0) n || (eqb_ℤ n (pos 0) && os.arch.is_blocking_error err);
  }

  -- The locals before the loop, and *numActualBytes = 0.
  abbrev pub entry : NcSocket → Memory → ℤ → Option ℤ → W → Locals W
  entry s memory buf_len num_actual w = record {
    memory = memory;
    off = pos 0;
    remaining = buf_len;
    num_actual = elim num_actual [ none ↦ none | some _ ↦ some (pos 0) ];
    clock = 0;
    timedout = 0;
    code = RetCode.ok;
    sock = s;
    world = w;
  }

  unfoldable pub write_by_select :
      ℕ → NcSocket → Memory → ℤ → Option ℤ → W → Option (RetCode × Locals W)
  unfolding passes writing
  write_by_select fuel s memory buf_len num_actual w =
      passes os writing buf_len fuel (entry s memory buf_len num_actual w)

  unfoldable pub read_by_select :
      ℕ → NcSocket → Memory → ℤ → Option ℤ → W → Option (RetCode × Locals W)
  unfolding passes reading
  read_by_select fuel s memory buf_len num_actual w =
      passes os reading buf_len fuel (entry s memory buf_len num_actual w)
