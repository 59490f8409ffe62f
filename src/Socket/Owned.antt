-- ===== src/Socket/Owned.antt =====
-- src/ncsocket.cpp: how often the descriptor of an ncSocket is closed, whatever it is used for.
use netclass.Common.{
  ℕ, suc, ℤ, pos, minus_one, ◌≡◌, refl, ◌∙◌, ◌⊎◌, inl, inr, List, ◌∷◌, Option, none, some, arith,
}
use netclass.Consts.{RetCode}
use netclass.Socket.State.{
  NcSocket, SockAddrIn, PollObject, of_descriptor, set_timeout, set_poll_time, set_ip_addr,
}
use netclass.Socket.Handle.{FileOs, close, destroy}
use netclass.Socket.Poll.Os.{PollOs}
use netclass.Socket.Poll.Loop.{Transfer}
use netclass.Socket.Poll.Calls.{write_data, read_data, writing, reading, begin}
use netclass.Socket.Poll.Kept.{transfer-Keeps}
use netclass.Socket.Poll.Stream.{send_call-handed, recv_call-wire}

module _ {W : Type 0} (os : PollOs W) (files : FileOs W) (closed : W → List ℤ) where
  -- `closed` are the descriptors that have been closed, the last one first; only close closes one.
  pub record CloseContract : Type 0 where
    pub closes : (fd : ℤ) (w : W) → closed (files.close fd w) ≡ fd ∷ closed w
    pub poll_keeps :
        (fd : ℤ) (events : ℕ) (ms : ℤ) (w : W) → closed (os.poll fd events ms w).world ≡ closed w
    pub shutdown_keeps : (fd : ℤ) (how : ℕ) (w : W) → closed (os.shutdown fd how w) ≡ closed w
    pub send_keeps :
        (fd : ℤ) (bytes : List ℕ) (flags : ℕ) (w : W)
        → closed (os.send fd bytes flags w).world ≡ closed w
    pub sendto_keeps :
        (fd : ℤ) (bytes : List ℕ) (flags : ℕ) (to : SockAddrIn) (w : W)
        → closed (os.sendto fd bytes flags to w).world ≡ closed w
    pub recv_keeps :
        (fd : ℤ) (len flags : ℕ) (w : W) → closed (os.recv fd len flags w).world ≡ closed w
    pub recvfrom_keeps :
        (fd : ℤ) (len flags : ℕ) (to : SockAddrIn) (w : W)
        → closed (os.recvfrom fd len flags to w).world ≡ closed w

  -- A socket and the system after some of its methods: each of them but connect and flush.
  pub data Uses (s₀ : NcSocket) (w₀ : W) : NcSocket → W → Type 0 where
    unused : Uses s₀ w₀ s₀ w₀
    closes :
        {s : NcSocket} {w : W} → Uses s₀ w₀ s w → Uses s₀ w₀ (close files s w).0 (close files s w).1
    destroys :
        {s : NcSocket} {w : W}
        → Uses s₀ w₀ s w
        → Uses s₀ w₀ (destroy files s w).0 (destroy files s w).1
    sets_timeout :
        {s : NcSocket} {w : W} (ms : ℤ) → Uses s₀ w₀ s w → Uses s₀ w₀ (set_timeout s ms) w
    sets_poll_time :
        {s : NcSocket} {w : W} (ms : ℤ) → Uses s₀ w₀ s w → Uses s₀ w₀ (set_poll_time s ms) w
    sets_ip_addr :
        {s : NcSocket} {w : W} (addr : ℕ) → Uses s₀ w₀ s w → Uses s₀ w₀ (set_ip_addr s addr) w
    writes :
        {s : NcSocket} {w : W} (fuel : ℕ) (buf : List ℕ) (len : ℤ) (num : Option ℤ) (code : RetCode)
        (t : Transfer W)
        → Uses s₀ w₀ s w
        → write_data os fuel s buf len num w ≡ some (code, t)
        → Uses s₀ w₀ t.sock t.world
    reads :
        {s : NcSocket} {w : W} (fuel : ℕ) (buf : List ℕ) (len : ℤ) (num : Option ℤ) (code : RetCode)
        (t : Transfer W)
        → Uses s₀ w₀ s w
        → read_data os fuel s buf len num w ≡ some (code, t)
        → Uses s₀ w₀ t.sock t.world

  -- The socket still has the descriptor, or has closed it once and forgotten it; nothing else was closed.
  abbrev pub Once : (fd : ℤ) (before : List ℤ) → NcSocket → W → Type 0
  Once fd before s w =
      ((s.sockfd ≡ fd) × (closed w ≡ before)) ⊎ ((s.sockfd ≡ minus_one) × (closed w ≡ fd ∷ before))

  abbrev Held : (fd : ℤ) (before : List ℤ) → NcSocket → W → Type 0
  Held fd before s w = (s.stdiofd ≡ none) × Once fd before s w

  -- A call that closes nothing.
  Held-keeps :
      (fd : ℤ) (before : List ℤ) (s : NcSocket) (w w' : W)
      → closed w' ≡ closed w
      → Held fd before s w
      → Held fd before s w'
  Held-keeps fd before s w w' same (plain, inl (has, so_far)) = (plain, inl (has, same ∙ so_far))
  Held-keeps fd before s w w' same (plain, inr (lost, once)) = (plain, inr (lost, same ∙ once))

  module _ (c : CloseContract) (fd : ℤ) (before : List ℤ) where
    write_data-Held :
        (fuel : ℕ) (s : NcSocket) (buf : List ℕ) (len : ℤ) (num : Option ℤ) (w : W) (code : RetCode)
        (t : Transfer W)
        → Held fd before s w
        → write_data os fuel s buf len num w ≡ some (code, t)
        → Held fd before t.sock t.world
    unfolding write_data writing
    write_data-Held fuel s buf len num w code t h e =
        transfer-Keeps os (writing os) len (Held fd before) fuel (begin os s buf len num w) code t
          (record {
            polls = λ s v ms h. Held-keeps fd before s v _ (c.poll_keeps _ _ _ v) h;
            moves = λ u h.
                Held-keeps fd before u.sock u.world _
                  (send_call-handed os closed c.send_keeps c.sendto_keeps u) h;
            shuts = λ s fd' v h. Held-keeps fd before s v _ (c.shutdown_keeps _ _ v) h;
          })
          h e

    read_data-Held :
        (fuel : ℕ) (s : NcSocket) (buf : List ℕ) (len : ℤ) (num : Option ℤ) (w : W) (code : RetCode)
        (t : Transfer W)
        → Held fd before s w
        → read_data os fuel s buf len num w ≡ some (code, t)
        → Held fd before t.sock t.world
    unfolding read_data reading
    read_data-Held fuel s buf len num w code t h e =
        transfer-Keeps os (reading os) len (Held fd before) fuel (begin os s buf len num w) code t
          (record {
            polls = λ s v ms h. Held-keeps fd before s v _ (c.poll_keeps _ _ _ v) h;
            moves = λ u h.
                Held-keeps fd before u.sock u.world _
                  (recv_call-wire os closed c.recv_keeps c.recvfrom_keeps u) h;
            shuts = λ s fd' v h. Held-keeps fd before s v _ (c.shutdown_keeps _ _ v) h;
          })
          h e

    Uses-Held :
        {s₀ : NcSocket} {w₀ : W} {s : NcSocket} {w : W}
        → Held fd before s₀ w₀
        → Uses s₀ w₀ s w
        → Held fd before s w
    unfolding close destroy set_timeout set_poll_time set_ip_addr
    Uses-Held h unused = h
    Uses-Held h (closes {s} {w} us) = ground (arith, Uses-Held h us, c.closes s.sockfd w)
    Uses-Held h (destroys {s} {w} us) = ground (arith, Uses-Held h us, c.closes s.sockfd w)
    Uses-Held h (sets_timeout ms us) = Uses-Held h us
    Uses-Held h (sets_poll_time ms us) = Uses-Held h us
    Uses-Held h (sets_ip_addr addr us) = Uses-Held h us
    Uses-Held h (writes {s} {w} fuel buf len num code t us e) =
        write_data-Held fuel s buf len num w code t (Uses-Held h us) e
    Uses-Held h (reads {s} {w} fuel buf len num code t us e) =
        read_data-Held fuel s buf len num w code t (Uses-Held h us) e

  -- However a socket without a stream is used, by close, the destructor, the setters, writeData and
  -- readData (poll build), but not by connect and flush: it still has its descriptor and nothing has been
  -- closed, or the descriptor has been closed exactly once, and nothing else, and the socket has
  -- forgotten it.
  pub Uses-Once :
      (s₀ s : NcSocket) (w₀ w : W)
      → CloseContract
      → s₀.stdiofd ≡ none
      → Uses s₀ w₀ s w
      → Once s₀.sockfd (closed w₀) s w
  Uses-Once s₀ s w₀ w c plain us =
      (Uses-Held c s₀.sockfd (closed w₀) (plain, inl (refl, refl)) us).1

  -- A socket made from a positive descriptor, used in these ways and destroyed in the end, has closed
  -- that descriptor exactly once, and nothing else.
  pub destroy-closes_once :
      (zeroed : PollObject) (n : ℕ) (s : NcSocket) (w₀ w : W)
      → CloseContract
      → Uses (of_descriptor zeroed (pos (suc n))) w₀ s w
      → closed (destroy files s w).1 ≡ pos (suc n) ∷ closed w₀
  unfolding destroy of_descriptor
  destroy-closes_once zeroed n s w₀ w c us =
      let h = Uses-Held c (pos (suc n)) (closed w₀) (refl, inl (refl, refl)) us in
      ground (arith, h, c.closes s.sockfd w)
