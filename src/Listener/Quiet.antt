-- ===== src/Listener/Quiet.antt =====
-- src/ncsocklist.cpp: the calls of `startListening` that neither take a connection nor give one away.
use netclass.Common.{
  ℕ, zero, suc, ℤ, pos, ◌+◌, ◌*◌, ◌≤◌, ◌≡◌, refl, sym, ◌∙◌, true, false, Bool, Option, none, some,
  arith, bit_or, uint_of_int, if◌then◌else◌,
}
use netclass.Arch.Defs.{ModeForm, by_fcntl, by_ioctlsocket, set_nonblocking}
use netclass.Socket.State.{SockAddrIn}
use netclass.Thread.Defs.{NcThread, new_thread}
use netclass.Listener.Defs.{Listener, ListenOs}
use netclass.Listener.Start.{bind_loop}
use netclass.Listener.Binding.{verdict, finish, bind_loop-step}

module _ {W : Type 0} (os : ListenOs W) (loose patience : W → ℕ) where
  -- A call that takes no connection and gives none away, and does not put off the end.
  abbrev pub Quiet : W → W → Type 0
  Quiet w w' = (loose w' ≡ loose w) × (patience w' ≤ patience w)

  -- The same of a listener, which goes on listening for the same kind of connections.
  abbrev pub Settled : Listener → W → Listener → W → Type 0
  Settled l w l' w' = (loose w' ≡ loose w) × (patience w' ≤ patience w) × (l'.socktype ≡ l.socktype)

  -- The calls before the loop that accepts.
  pub record StartContract : Type 0 where
    pub socket : (d t p : ℕ) (w : W) → Quiet w (os.socket d t p w).1
    pub reuse_addr : (fd : ℤ) (w : W) → Quiet w (os.reuse_addr fd w).1
    pub bind : (fd : ℤ) (a : SockAddrIn) (w : W) → Quiet w (os.bind fd a w).1
    pub listen : (fd backlog : ℤ) (w : W) → Quiet w (os.listen fd backlog w).1
    pub get_fd : (fd : ℤ) (w : W) → Quiet w (os.modes.get_fd fd w).1
    pub set_fl : (fd : ℤ) (flags : ℕ) (w : W) → Quiet w (os.modes.set_fl fd flags w)
    pub set_fionbio : (fd : ℤ) (pointer : ℕ) (w : W) → Quiet w (os.modes.set_fionbio fd pointer w)
    pub sleep : (ms : ℕ) (w : W) → Quiet w (os.sleep ms w)
    pub others : (l : Listener) (w : W) → Settled l w (os.others l w).0 (os.others l w).1
    pub enable_cancel : (w : W) → Quiet w (os.threads.enable_cancel w)

  pub new_thread-Quiet :
      (stack : NcThread) (w : W)
      → StartContract
      → Quiet w (new_thread os.threads os.have_threads stack w).1
  unfolding new_thread
  new_thread-Quiet stack w c = ground (arith, c.enable_cancel w)

  -- The call of setsockopt, if NC_REUSEADDR is given.
  abbrev pub reused : Bool → ℤ → W → ℤ × W
  reused reuse fd w = if reuse then os.reuse_addr fd w else (pos 0, w)

  pub reused-Quiet : (reuse : Bool) (fd : ℤ) (w : W) → StartContract → Quiet w (reused reuse fd w).1
  reused-Quiet true fd w c = c.reuse_addr fd w
  reused-Quiet false fd w c = (refl, omega arith)

  pub set_nonblocking-Quiet :
      (form : ModeForm) (fd : ℤ) (w : W)
      → StartContract
      → Quiet w (set_nonblocking os.modes form fd w)
  unfolding set_nonblocking
  set_nonblocking-Quiet (by_fcntl o) fd w c =
      let (flags, w₁) = os.modes.get_fd fd w in
      let set = c.set_fl fd (bit_or (uint_of_int flags) o) w₁ in
      (set.0 ∙ (c.get_fd fd w).0, omega (arith, set.1, (c.get_fd fd w).1))
  set_nonblocking-Quiet by_ioctlsocket fd w c = c.set_fionbio fd 1 w

  finish-Settled :
      (addr : SockAddrIn) (fuel attempts : ℕ) (l : Listener) (w : W) (v : Option Bool) (b : Bool)
      (l' : Listener) (w' : W)
      → StartContract
      → ((l₁ : Listener) (w₁ : W)
          → bind_loop os fuel addr (attempts + 1) l₁ w₁ ≡ some (b, l', w')
          → Settled l₁ w₁ l' w')
      → finish os addr fuel attempts l w v ≡ some (b, l', w')
      → Settled l w l' w'
  finish-Settled addr fuel attempts l w (some bound) b l' w' c ih e =
      let x = os.bind l.sockfd addr w in ground (arith, c.bind l.sockfd addr w, c.others l x.1)
  finish-Settled addr fuel attempts l w none b l' w' c ih e =
      let x = os.bind l.sockfd addr w in
      let o = os.others l x.1 in
      let z = os.sleep ((attempts + 1) * 1000) o.1 in
      let one = c.others l x.1 in
      let two = c.others o.0 z in
      let later = ih (os.others o.0 z).0 (os.others o.0 z).1 e in
      (
        later.0
            ∙ two.0
            ∙ (c.sleep ((attempts + 1) * 1000) o.1).0
            ∙ one.0
            ∙ (c.bind l.sockfd addr w).0,
        omega
            (arith, later.1, c.bind l.sockfd addr w, one, c.sleep ((attempts + 1) * 1000) o.1, two),
        later.2 ∙ two.2 ∙ one.2,
      )

  pub bind_loop-Settled :
      (addr : SockAddrIn) (fuel attempts : ℕ) (l : Listener) (w : W) (b : Bool) (l' : Listener)
      (w' : W)
      → StartContract
      → bind_loop os fuel addr attempts l w ≡ some (b, l', w')
      → Settled l w l' w'
  unfolding bind_loop
  bind_loop-Settled addr zero attempts l w b l' w' c e = absurd (ground arith)
  bind_loop-Settled addr (suc fuel) attempts l w b l' w' c e =
      finish-Settled addr fuel attempts l w (verdict os addr attempts l w) b l' w' c
        (λ l₁ w₁. bind_loop-Settled addr fuel (attempts + 1) l₁ w₁ b l' w' c)
        (sym (bind_loop-step os addr fuel attempts l w) ∙ e)
