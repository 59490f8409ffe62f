-- ===== src/Listener/Start.antt =====
-- src/ncsocklist.cpp: `startListening` as a whole, with the loop round ::bind.
use netclass.Common.{
  ℕ, zero, suc, ℤ, pos, minus_one, ◌+◌, ◌*◌, eqb_ℤ, ◌==◌, ◌&&◌, ◌||◌, not, if◌then◌else◌, Bool,
  true, false, Option, none, some, uint_of_int, has_bit,
}
use netclass.Consts.{
  RetCode, nc_threaded, nc_nonthreaded, nc_detached, nc_joined, nc_reuseaddr, socktype_tcpip,
  socktype_udp,
}
use netclass.Arch.Defs.{set_nonblocking}
use netclass.Socket.State.{SockAddrIn, zero_addr}
use netclass.Thread.Defs.{NcThread, new_thread}
use netclass.Listener.Defs.{Listener, ListenOs}
use netclass.Listener.Serve.{accept_loop, receive_loop}

-- The check of the arguments; a null callback is 0.
unfoldable pub bad_args : ℕ → ℤ → ℤ → Bool
bad_args fn option flags =
    fn == 0
    || (not (eqb_ℤ option nc_threaded) && not (eqb_ℤ option nc_nonthreaded))
    || (not (has_bit (uint_of_int flags) nc_detached)
        && not (has_bit (uint_of_int flags) nc_joined)
        && not (has_bit (uint_of_int flags) nc_reuseaddr))

-- The default arguments of startListening.
abbrev pub default_option : ℤ
default_option = nc_threaded

abbrev pub default_flags : ℤ
default_flags = pos nc_detached

module _ {W : Type 0} (os : ListenOs W) where
  -- What is done after a ::bind: `none` is to sleep and try again, `some true` to leave the loop, and
  -- `some false` to return NC_FAILED.
  unfoldable pub bind_verdict : (result : ℤ) (err listening attempts : ℕ) → Option Bool
  bind_verdict result err listening attempts =
      if eqb_ℤ result minus_one && not (listening == 0)
      then (if attempts == 10
          then some false
          else if os.arch.addr_in_use err
          then some true
          else none)
      else some true

  -- while((bind(...) == -1) && m_listening), on fuel.
  unfoldable pub bind_loop :
      ℕ → SockAddrIn → (attempts : ℕ) → Listener → W → Option (Bool × Listener × W)
  unfolding bind_verdict
  bind_loop zero addr attempts l w = none
  bind_loop (suc fuel) addr attempts l w =
      let b = os.bind l.sockfd addr w in
      let o = os.others l b.1 in
      elim (bind_verdict b.0 (os.last_error b.1) o.0.listening attempts) [
        | some bound ↦ some (bound, o.0, o.1)
        | none ↦
            let o' = os.others o.0 (os.sleep ((attempts + 1) * 1000) o.1) in
            bind_loop fuel addr (attempts + 1) o'.0 o'.1
      ]

  -- After the loop round ::bind; `thread` is newThread.
  unfoldable pub serve :
      ℕ
      → (fn : ℕ) (option flags : ℤ) → NcThread
      → Listener
      → W
      → Option (Option RetCode × Listener × W)
  serve fuel fn option flags thread l w =
      if eqb_ℤ l.socktype socktype_tcpip
      then (let r = os.listen l.sockfd l.backlog w in
          if eqb_ℤ r.0 minus_one
          then some (some RetCode.failed, l, r.1)
          else elim (accept_loop os fn option flags fuel (record {
            ok = true;
            thread = thread;
            clientaddr = zero_addr;
            listener = l;
            world = set_nonblocking os.modes os.arch.mode_form l.sockfd r.1;
          })) [ none ↦ none | some (code, l', w') ↦ some (some code, l', w') ])
      else if eqb_ℤ l.socktype socktype_udp
      then receive_loop os fn fuel
          (record { defined = true; clientaddr = zero_addr; listener = l; world = w })
      else some (some RetCode.ok, l, w)

  -- From the marking of the listener on. `stack` is what stands in newThread.
  unfoldable pub bind_and_serve :
      ℕ
      → NcThread
      → (fn : ℕ) (option flags : ℤ) → Listener
      → W
      → Option (Option RetCode × Listener × W)
  unfolding bind_loop serve
  bind_and_serve fuel stack fn option flags l w =
      let l₁ = record l { listening = 1 } in
      let t = new_thread os.threads os.have_threads stack w in
      let reuse = has_bit (uint_of_int flags) nc_reuseaddr in
      let r = if reuse then os.reuse_addr l₁.sockfd t.1 else (pos 0, t.1) in
      let addr = record zero_addr {
        sin_family = os.arch.af_inet;
        sin_port = os.htons l.port;
        sin_addr = os.any_addr;
      } in
      if eqb_ℤ r.0 minus_one
      then some (some RetCode.failed, l₁, r.1)
      else elim (bind_loop fuel addr 0 l₁ r.1) [
        | none ↦ none
        | some (bound, l₂, w₂) ↦
            if bound
            then serve fuel fn option flags t.0 l₂ w₂
            else some (some RetCode.failed, l₂, w₂)
      ]

  -- RetCode ncSocketListener::startListening(ncCallBack fnptr, int option, int flags).
  unfoldable pub start_listening :
      ℕ
      → NcThread
      → (fn : ℕ) (option flags : ℤ) → Listener
      → W
      → Option (Option RetCode × Listener × W)
  unfolding bind_and_serve bad_args
  start_listening fuel stack fn option flags l w =
      let type =
        if eqb_ℤ l.socktype socktype_tcpip then os.arch.sock_stream else os.arch.sock_dgram in
      let s = os.socket os.arch.af_inet type 0 w in
      let l₁ = record l { sockfd = s.0 } in
      if eqb_ℤ s.0 (pos 0)
      then some (some RetCode.failed, l₁, s.1)
      else if bad_args fn option flags
      then some (some RetCode.badargs, l₁, s.1)
      else bind_and_serve fuel stack fn option flags l₁ s.1
