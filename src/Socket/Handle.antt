-- ===== src/Socket/Handle.antt =====
-- src/ncsocket.cpp: `close`, `flush` and the destructor of ncSocket, on the descriptor and the stream.
use netclass.Common.{ℕ, ℤ, pos, minus_one, eqb_ℤ, ltb_ℤ, if◌then◌else◌, not, Option, none, some}
use netclass.Consts.{RetCode}
use netclass.Socket.State.{NcSocket}

-- The calls on descriptors and streams, over the state W of the system. `fdopen` is for writing.
module _ (W : Type 0) where
  pub record FileOs : Type 0 where
    pub close : (fd : ℤ) → W → W
    pub fclose : (file : ℕ) → W → W
    pub fdopen : (fd : ℤ) → W → Option ℕ × W
    pub fflush : (file : ℕ) → W → ℤ × W

module _ {W : Type 0} (os : FileOs W) where
  -- void ncSocket::close().
  unfoldable pub close : NcSocket → W → NcSocket × W
  close s w =
      if not (eqb_ℤ s.sockfd minus_one)
      then (record s { sockfd = minus_one }, os.close s.sockfd w)
      else (s, w)

  -- ncSocket::~ncSocket().
  unfoldable pub destroy : NcSocket → W → NcSocket × W
  destroy s w = elim s.stdiofd [
    | some file ↦ (record s { sockfd = minus_one; stdiofd = none }, os.fclose file w)
    | none ↦
        if ltb_ℤ (pos 0) s.sockfd
        then (record s { sockfd = minus_one }, os.close s.sockfd w)
        else (s, w)
  ]

  -- fflush of the stream that `flush` has, if it has one.
  unfoldable pub flush_stream : NcSocket → W → RetCode × NcSocket × W
  flush_stream s w = elim s.stdiofd [
    | none ↦ (RetCode.failed, s, w)
    | some file ↦
        let (result, w') = os.fflush file w in
        (if eqb_ℤ result (pos 0) then RetCode.ok else RetCode.failed, s, w')
  ]

  -- RetCode ncSocket::flush().
  unfoldable pub flush : NcSocket → W → RetCode × NcSocket × W
  unfolding flush_stream
  flush s w = elim s.stdiofd [
    | none ↦ let (file, w') = os.fdopen s.sockfd w in flush_stream (record s { stdiofd = file }) w'
    | some file ↦ flush_stream s w
  ]
