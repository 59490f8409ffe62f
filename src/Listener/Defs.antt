-- ===== src/Listener/Defs.antt =====
-- src/ncsocklist.h and src/ncsocklist.cpp: the members of `ncSocketListener`, the calls that it makes,
-- and the operations round startListening.
use netclass.Common.{ℕ, ℤ, pos, eqb_ℤ, not, if◌then◌else◌, Bool, List}
use netclass.Arch.Defs.{Arch, ModeCalls}
use netclass.Socket.State.{NcSocket, PollObject, SockAddrIn}
use netclass.Socket.Handle.{FileOs}
use netclass.Datagram.{UdpData}
use netclass.Thread.Defs.{ThreadOs}

-- The private members, without the prefix m_.
pub record Listener : Type 0 where
  pub sockfd : ℤ
  pub listening : ℕ
  pub socktype : ℤ
  pub backlog : ℤ
  pub port : ℕ

-- What the callback is given; it has to free it.
pub data Given : Type 0 where
  client_socket : NcSocket → Given
  datagram : UdpData → Given

module _ (W : Type 0) where
  pub record Accepted : Type 0 where
    pub client : ℤ
    pub addr : SockAddrIn
    pub world : W

  -- `buf` is the buffer afterwards, of the size that recvfrom was given.
  pub record Arrived : Type 0 where
    pub count : ℤ
    pub buf : List ℕ
    pub addr : SockAddrIn
    pub world : W

module _ (W : Type 0) where
  -- `others` is what the other threads of the program do to the listener while a call is under way;
  -- `call` runs a callback in this thread. `allocates` says whether `new ncSocket` gives an object,
  -- `fresh_bytes` is what stands in m_data of a new udpData, `zeroed` is a cleared poll object, and
  -- `any_addr` is htonl(INADDR_ANY).
  pub record ListenOs : Type 0 where
    pub arch : Arch
    pub htons : ℕ → ℕ
    pub any_addr : ℕ
    pub zeroed : PollObject
    pub have_threads : Bool
    pub files : FileOs W
    pub threads : ThreadOs W Given
    pub others : Listener → W → Listener × W
    pub call : (fn : ℕ) → Given → W → W
    pub allocates : W → Bool
    pub fresh_bytes : W → List ℕ
    pub socket : (domain type protocol : ℕ) → W → ℤ × W
    pub reuse_addr : (fd : ℤ) → W → ℤ × W
    pub bind : (fd : ℤ) → SockAddrIn → W → ℤ × W
    pub last_error : W → ℕ
    pub listen : (fd backlog : ℤ) → W → ℤ × W
    pub modes : ModeCalls W
    pub accept : (fd : ℤ) → SockAddrIn → W → Accepted W
    pub recv_from : (fd : ℤ) (buf : List ℕ) → SockAddrIn → W → Arrived W
    pub sleep : (millisecs : ℕ) → W → W
    pub shutdown : (fd : ℤ) (how : ℕ) → W → W

-- ncSocketListener::ncSocketListener(unsigned short port,int sockType).
unfoldable pub new_listener : ℕ → ℤ → Listener
new_listener port sock_type = record {
  port = port;
  socktype = sock_type;
  backlog = pos 16;
  listening = 0;
  sockfd = pos 0;
}

unfoldable pub get_back_log : Listener → ℤ
get_back_log l = l.backlog

unfoldable pub set_back_log : ℤ → Listener → Listener
set_back_log backlog l = record l { backlog = backlog }

module _ {W : Type 0} (os : ListenOs W) where
  -- ncSocketListener::~ncSocketListener().
  unfoldable pub destroy_listener : Listener → W → W
  destroy_listener l w = if not (eqb_ℤ l.sockfd (pos 0)) then os.files.close l.sockfd w else w

  unfoldable pub stop_listening : Listener → W → Listener × W
  stop_listening l w =
      let (l', w') = os.others (record l { listening = 0 }) (os.sleep 250 w) in
      if not (eqb_ℤ l'.sockfd (pos 0))
      then (record l' { sockfd = pos 0 }, os.files.close l'.sockfd (os.shutdown l'.sockfd 0 w'))
      else (l', w')
