-- ===== src/Socket/Connect/Defs.antt =====
-- src/ncsocket.cpp: the two methods `ncSocket::connect`, and the calls that they make.
use netclass.Common.{
  ℕ, zero, suc, ℤ, pos, ◌+◌, ◌%◌, ◌^◌, eqb_ℤ, ltb_ℤ, ltb, ◌==◌, if◌then◌else◌, List, [], ◌∷◌,
  Option, none, some, Bool, true, false, word_mod,
}
use netclass.Consts.{RetCode, socktype_tcpip}
use netclass.Arch.Defs.{Arch, InetCalls, ModeCalls, set_nonblocking}
use netclass.Socket.State.{NcSocket, SockAddrIn, copy_hostname}

module _ (W : Type 0) where
  -- The host name is given as a C string; `get_host_by_name` gives the unsigned long at the start of
  -- the address list.
  pub record ConnectOs : Type 0 where
    pub arch : Arch
    pub htons : ℕ → ℕ
    pub socket : (domain type protocol : ℕ) → W → ℤ × W
    pub inet : InetCalls
    pub get_host_by_name : (host : List ℕ) → W → Option ℕ × W
    pub modes : ModeCalls W
    pub connect : (fd : ℤ) → SockAddrIn → W → ℤ × W
    pub last_error : W → ℕ
    pub sleep : (millisecs : ℕ) → W → W

module _ (W : Type 0) where
  -- Whether an address was found, and what stands in *servaddr.
  pub record Resolved : Type 0 where
    pub found : Bool
    pub servaddr : SockAddrIn
    pub world : W

-- The bytes before the first zero.
unfoldable pub c_string : List ℕ → List ℕ
c_string [] = []
c_string (b ∷ bs) = if b == 0 then [] else b ∷ c_string bs

-- unsigned long is the machine word of a 64-bit system.
abbrev pub long_mod : ℕ
long_mod = 2 ^ 64

-- memset(servaddr,0,sizeof(servaddr)): the size is that of a pointer, which covers sin_family,
-- sin_port and sin_addr on a 64-bit system, and not sin_zero.
abbrev pub zero_head : SockAddrIn → SockAddrIn
zero_head a = record a { sin_family = 0; sin_port = 0; sin_addr = 0 }

-- timeout += 100.
abbrev pub later : ℕ → ℕ
later timeout = (timeout + 100) % long_mod

-- servaddr points to m_to unless the socket is a TCP socket.
abbrev pub store_addr : SockAddrIn → NcSocket → NcSocket
store_addr servaddr s = if eqb_ℤ s.socktype socktype_tcpip then s else record s { to = servaddr }

-- The members that connect(host,port,sockType) sets before it connects.
unfoldable pub retarget : NcSocket → List ℕ → ℕ → ℤ → NcSocket
unfolding copy_hostname
retarget s host port sock_type = record s {
  port = port;
  socktype = sock_type;
  hostname = copy_hostname host;
}

module _ {W : Type 0} (os : ConnectOs W) where
  -- What ::connect returned, the error then, and the time-out after it: the code that the loop ends
  -- with, or `none` to sleep and try again.
  unfoldable pub judge : (limit : ℕ) (result : ℤ) (err later : ℕ) → Option RetCode
  judge limit result err later =
      if ltb_ℤ result (pos 0)
      then (if os.arch.is_blocking_error err
          then (if ltb limit later then some RetCode.timedout else none)
          else if os.arch.is_connected err
          then some RetCode.ok
          else some RetCode.failed)
      else some RetCode.ok

  -- The loop round ::connect, on fuel; `timeout` is the local of that name.
  unfoldable pub attempts :
      ℕ → (fd : ℤ) (limit : ℕ) → SockAddrIn → (timeout : ℕ) → W → Option (RetCode × W)
  unfolding judge
  attempts zero fd limit servaddr timeout w = none
  attempts (suc fuel) fd limit servaddr timeout w =
      let r = os.connect fd servaddr w in
      elim (judge limit r.0 (os.last_error r.1) (later timeout)) [
        | some code ↦ some (code, r.1)
        | none ↦ attempts fuel fd limit servaddr (later timeout) (os.sleep 100 r.1)
      ]

  -- *servaddr before the address is known. `stack` is what stands in the local `tmp`.
  unfoldable pub address_head : NcSocket → SockAddrIn → SockAddrIn
  address_head s stack =
      let servaddr = if eqb_ℤ s.socktype socktype_tcpip then stack else s.to in
      record (zero_head servaddr) { sin_family = os.arch.af_inet; sin_port = os.htons s.port }

  -- The address of the host, by its dotted form or by its name.
  unfoldable pub resolve : NcSocket → SockAddrIn → W → Resolved W
  resolve s servaddr w =
      let (valid, addr) = os.arch.valid_inet_addr os.inet (c_string s.hostname) servaddr.sin_addr in
      let dotted = record servaddr { sin_addr = addr } in
      if valid
      then record { found = true; servaddr = dotted; world = w }
      else (let h = os.get_host_by_name (c_string s.hostname) w in
          elim h.0 [
            | none ↦ record { found = false; servaddr = dotted; world = h.1 }
            | some addr ↦ record {
              found = true;
              servaddr = record dotted { sin_addr = addr % word_mod };
              world = h.1;
            }
          ])

  -- ncSetSocketNonBlocking(m_sockfd).
  abbrev pub nonblocking : (fd : ℤ) → W → W
  nonblocking = set_nonblocking os.modes os.arch.mode_form

  -- From the stashing of the address on.
  unfoldable pub start_attempts : ℕ → NcSocket → SockAddrIn → W → Option (RetCode × NcSocket × W)
  unfolding attempts
  start_attempts fuel s servaddr w =
      let s' = record s { ipaddr = servaddr.sin_addr } in
      elim (attempts fuel s.sockfd s.timeout servaddr 0 (nonblocking s.sockfd w)) [
        | none ↦ none
        | some (code, w') ↦ some (code, s', w')
      ]

  -- RetCode ncSocket::connect().
  unfoldable pub connect : ℕ → SockAddrIn → NcSocket → W → Option (RetCode × NcSocket × W)
  unfolding start_attempts address_head resolve
  connect fuel stack s w =
      let sock_type =
        if eqb_ℤ s.socktype socktype_tcpip then os.arch.sock_stream else os.arch.sock_dgram in
      let o = os.socket os.arch.af_inet sock_type 0 w in
      let s₁ = record s { sockfd = o.0 } in
      if eqb_ℤ o.0 (pos 0)
      then some (RetCode.failed, s₁, o.1)
      else (let r = resolve s₁ (address_head s₁ stack) o.1 in
          let s₂ = store_addr r.servaddr s₁ in
          if r.found
          then start_attempts fuel s₂ r.servaddr r.world
          else some (RetCode.failed, s₂, r.world))

  -- RetCode ncSocket::connect(char *host, unsigned short port, int sockType); `host` may be null.
  unfoldable pub connect_to :
      ℕ → SockAddrIn → NcSocket → Option (List ℕ) → ℕ → ℤ → W → Option (RetCode × NcSocket × W)
  unfolding connect retarget
  connect_to fuel stack s none port sock_type w = some (RetCode.failed, s, w)
  connect_to fuel stack s (some host) port sock_type w =
      if port == 0
      then some (RetCode.failed, s, w)
      else connect fuel stack (retarget s host port sock_type) w
