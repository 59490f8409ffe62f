-- ===== src/Socket/Connect/Opened.antt =====
-- src/ncsocket.cpp: the descriptors that are open after `ncSocket::connect`.
use netclass.Common.{
  ℕ, zero, suc, ℤ, pos, ◌≡◌, sym, ap, ◌∙◌, inl, inr, false, List, ◌∷◌, Option, none, some, arith,
  eqb_ℤ, Option-cases, Bool-cases,
}
use netclass.Consts.{RetCode}
use netclass.Socket.State.{NcSocket, SockAddrIn}
use netclass.Socket.Handle.{FileOs}
use netclass.Socket.Connect.Defs.{
  ConnectOs, c_string, later, resolve, attempts, nonblocking, start_attempts, connect,
}
use netclass.Socket.Connect.Attempts.{verdict, finish, attempts-step}
use netclass.Socket.Connect.Paths.{
  opened, answer, aimed, aimed-SameTarget, aimed-kept, connect-lost, connect-found,
}
use netclass.Socket.Connect.Sleeping.{set_nonblocking-keeps}

module _ {W : Type 0} (os : ConnectOs W) (live : W → List ℤ) where
  -- connect has returned, with a descriptor of its own on top of those that were open.
  pub record Opened (s : NcSocket) (w : W) (s' : NcSocket) (w' : W) : Type 0 where
    pub number : ℕ
    pub descriptor : s'.sockfd ≡ pos (suc number)
    pub more : live w' ≡ pos (suc number) ∷ live w
    pub same_stream : s'.stdiofd ≡ s.stdiofd
    pub same_timeout : s'.timeout ≡ s.timeout

module _ {W : Type 0} (os : ConnectOs W) (files : FileOs W) (live : W → List ℤ) where
  -- What the calls do to the list of the open descriptors, the last one first, when no call of socket
  -- fails or gives descriptor 0.
  pub record OpenContract : Type 0 where
    pub opens :
        (d t p : ℕ) (w : W)
        → (n : ℕ) × ((os.socket d t p w).0 ≡ pos (suc n))
          × (live (os.socket d t p w).1 ≡ pos (suc n) ∷ live w)
    pub closes : (fd : ℤ) (w : W) (fds : List ℤ) → live w ≡ fd ∷ fds → live (files.close fd w) ≡ fds
    pub sleep_keeps : (ms : ℕ) (w : W) → live (os.sleep ms w) ≡ live w
    pub connect_keeps : (fd : ℤ) (a : SockAddrIn) (w : W) → live (os.connect fd a w).1 ≡ live w
    pub host_by_name_keeps : (host : List ℕ) (w : W) → live (os.get_host_by_name host w).1 ≡ live w
    pub get_fd_keeps : (fd : ℤ) (w : W) → live (os.modes.get_fd fd w).1 ≡ live w
    pub set_fl_keeps : (fd : ℤ) (flags : ℕ) (w : W) → live (os.modes.set_fl fd flags w) ≡ live w
    pub set_fionbio_keeps :
        (fd : ℤ) (pointer : ℕ) (w : W) → live (os.modes.set_fionbio fd pointer w) ≡ live w

  module _ (c : OpenContract) where
    finish-live :
        (fd : ℤ) (a : SockAddrIn) (limit fuel timeout : ℕ) (w : W) (v : Option RetCode)
        (code : RetCode) (w' : W)
        → ((t : ℕ) (u : W) → attempts os fuel fd limit a t u ≡ some (code, w') → live w' ≡ live u)
        → finish os fd a limit fuel timeout w v ≡ some (code, w')
        → live w' ≡ live w
    finish-live fd a limit fuel timeout w (some d) code w' ih e =
        ground (arith, c.connect_keeps fd a w)
    finish-live fd a limit fuel timeout w none code w' ih e =
        let called = os.connect fd a w in
        ih (later timeout) (os.sleep 100 called.1) e
        ∙ c.sleep_keeps 100 called.1
        ∙ c.connect_keeps fd a w

    attempts-live :
        (fd : ℤ) (a : SockAddrIn) (limit fuel timeout : ℕ) (w : W) (code : RetCode) (w' : W)
        → attempts os fuel fd limit a timeout w ≡ some (code, w')
        → live w' ≡ live w
    unfolding attempts
    attempts-live fd a limit zero timeout w code w' e = absurd (ground arith)
    attempts-live fd a limit (suc fuel) timeout w code w' e =
        finish-live fd a limit fuel timeout w (verdict os fd a limit timeout w) code w'
          (λ t u. attempts-live fd a limit fuel t u code w')
          (sym (attempts-step os fd a limit fuel timeout w) ∙ e)

    start_attempts-live :
        (fuel : ℕ) (s : NcSocket) (a : SockAddrIn) (w : W) (code : RetCode) (s' : NcSocket) (w' : W)
        → start_attempts os fuel s a w ≡ some (code, s', w')
        → (s' ≡ record s { ipaddr = a.sin_addr }) × (live w' ≡ live (nonblocking os s.sockfd w))
    unfolding start_attempts
    start_attempts-live fuel s a w code s' w' e =
        let u = nonblocking os s.sockfd w in
        elim (Option-cases (attempts os fuel s.sockfd s.timeout a 0 u)) [
          | inl out ↦ absurd (ground arith)
          | inr ((d, v), ran) ↦
              let same : w' ≡ v = ground arith in
              (ground arith, ap live same ∙ attempts-live s.sockfd a s.timeout fuel 0 u d v ran)
        ]

    resolve-live : (s : NcSocket) (a : SockAddrIn) (w : W) → live (resolve os s a w).world ≡ live w
    unfolding resolve
    resolve-live s a w = ground (arith, c.host_by_name_keeps (c_string s.hostname) w)

    nonblocking-live : (fd : ℤ) (w : W) → live (nonblocking os fd w) ≡ live w
    nonblocking-live fd w =
        set_nonblocking-keeps os.modes live os.arch.mode_form fd w (c.get_fd_keeps fd)
          (c.set_fl_keeps fd) (c.set_fionbio_keeps fd)

    positive : (fd : ℤ) (n : ℕ) → fd ≡ pos (suc n) → eqb_ℤ fd (pos 0) ≡ false
    positive fd n e = ground arith

    same_result :
        (c₁ c₂ : RetCode) (s₁ s₂ : NcSocket) (w₁ w₂ : W)
        → ◌≡◌ {A = Option (RetCode × NcSocket × W)} (some (c₁, s₁, w₁)) (some (c₂, s₂, w₂))
        → (s₂ ≡ s₁) × (w₂ ≡ w₁)
    same_result c₁ c₂ s₁ s₂ w₁ w₂ e = ground arith

    pub connect-Opened :
        (fuel : ℕ) (stack : SockAddrIn) (s : NcSocket) (w : W) (code : RetCode) (s' : NcSocket)
        (w' : W)
        → connect os fuel stack s w ≡ some (code, s', w')
        → Opened os live s w s' w'
    connect-Opened fuel stack s w code s' w' e =
        let (n, fd, top) = c.opens _ _ _ w in
        let good : eqb_ℤ (opened os s w).0 (pos 0) ≡ false = positive _ n fd in
        let a = answer os stack s w in
        let s₂ = aimed os stack s w in
        let same = aimed-SameTarget os stack s w in
        let kept = aimed-kept os stack s w in
        let still : live a.world ≡ pos (suc n) ∷ live w = resolve-live _ _ _ ∙ top in
        elim (Bool-cases a.found) [
          | inl found ↦
              let (same_socket, quiet) =
                start_attempts-live fuel s₂ a.servaddr a.world code s' w'
                  (sym (connect-found os stack s w fuel good found) ∙ e) in
              record {
                number = n;
                descriptor = ap (λ k. k.sockfd) same_socket ∙ kept.0 ∙ fd;
                more = quiet ∙ nonblocking-live _ _ ∙ still;
                same_stream = ap (λ k. k.stdiofd) same_socket ∙ same.same_stream;
                same_timeout = ap (λ k. k.timeout) same_socket ∙ same.same_timeout;
              }
          | inr lost ↦
              let (same_socket, same_world) =
                same_result _ _ _ _ _ _ (sym (connect-lost os stack s w fuel good lost) ∙ e) in
              record {
                number = n;
                descriptor = ap (λ k. k.sockfd) same_socket ∙ kept.0 ∙ fd;
                more = ap live same_world ∙ still;
                same_stream = ap (λ k. k.stdiofd) same_socket ∙ same.same_stream;
                same_timeout = ap (λ k. k.timeout) same_socket ∙ same.same_timeout;
              }
        ]
