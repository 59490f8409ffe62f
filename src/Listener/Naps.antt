-- ===== src/Listener/Naps.antt =====
-- src/ncsocklist.cpp: `startListening` on a port that it never gets.
use netclass.Common.{
  ℕ, zero, suc, ℤ, pos, minus_one, ◌+◌, ◌-◌, ◌*◌, ◌≤◌, ◌≡◌, ◌∙◌, refl, eqb_ℤ, true, false, some,
  none, arith, has_bit, uint_of_int, if◌then◌else◌,
}
use netclass.Consts.{RetCode, nc_reuseaddr, socktype_tcpip}
use netclass.Socket.State.{SockAddrIn, zero_addr}
use netclass.Thread.Defs.{NcThread, new_thread}
use netclass.Listener.Defs.{Listener, ListenOs}
use netclass.Listener.Start.{bind_verdict, bind_loop, bad_args, bind_and_serve, start_listening}
use netclass.Listener.Binding.{verdict, after_bind, bound_at, bind_loop-step}

module _ {W : Type 0} (os : ListenOs W) (flags : ℤ) (slept : W → ℕ) where
  -- Each ::bind fails with an error other than that the address is in use, nobody stops the listener,
  -- setsockopt works where it is called; `slept` is what the program has slept, in milliseconds.
  pub record NeverBound : Type 0 where
    pub fails : (fd : ℤ) (a : SockAddrIn) (w : W) → eqb_ℤ (os.bind fd a w).0 minus_one ≡ true
    pub other_error :
        (fd : ℤ) (a : SockAddrIn) (w : W)
        → os.arch.addr_in_use (os.last_error (os.bind fd a w).1) ≡ false
    pub reuse_works :
        (fd : ℤ) (w : W)
        → has_bit (uint_of_int flags) nc_reuseaddr ≡ true
        → eqb_ℤ (os.reuse_addr fd w).0 minus_one ≡ false
    pub not_stopped : (l : Listener) (w : W) → (os.others l w).0.listening ≡ l.listening
    pub sleeps : (ms : ℕ) (w : W) → slept (os.sleep ms w) ≡ slept w + ms
    pub socket : (d t k : ℕ) (w : W) → slept (os.socket d t k w).1 ≡ slept w
    pub reuse_addr : (fd : ℤ) (w : W) → slept (os.reuse_addr fd w).1 ≡ slept w
    pub bind : (fd : ℤ) (a : SockAddrIn) (w : W) → slept (os.bind fd a w).1 ≡ slept w
    pub others_keep : (l : Listener) (w : W) → slept (os.others l w).1 ≡ slept w
    pub enable_cancel : (w : W) → slept (os.threads.enable_cancel w) ≡ slept w

  -- What is slept before the last of `left` + 1 attempts.
  naps : ℕ → ℕ
  naps zero = 0
  naps (suc left) = (10 - left) * 1000 + naps left

  module _ (c : NeverBound) where
    verdict-again :
        (addr : SockAddrIn) (attempts : ℕ) (l : Listener) (w : W)
        → l.listening ≡ 1
        → suc attempts ≤ 10
        → verdict os addr attempts l w ≡ none
    unfolding bind_verdict
    verdict-again addr attempts l w on more = ground (
      arith,
      c.fails l.sockfd addr w,
      c.other_error l.sockfd addr w,
      c.not_stopped l (bound_at os addr l w).1,
    )

    verdict-last :
        (addr : SockAddrIn) (attempts : ℕ) (l : Listener) (w : W)
        → l.listening ≡ 1
        → attempts ≡ 10
        → verdict os addr attempts l w ≡ some false
    unfolding bind_verdict
    verdict-last addr attempts l w on last =
        ground (arith, c.fails l.sockfd addr w, c.not_stopped l (bound_at os addr l w).1)

    bind_loop-naps :
        (addr : SockAddrIn) (fuel left attempts : ℕ) (l : Listener) (w : W)
        → l.listening ≡ 1
        → attempts + left ≡ 10
        → left + 1 ≤ fuel
        → (l' : Listener) × (w' : W) × (bind_loop os fuel addr attempts l w ≡ some (false, l', w'))
          × (slept w' ≡ slept w + naps left)
    unfolding naps
    bind_loop-naps addr zero left attempts l w on sum enough = absurd (omega arith)
    bind_loop-naps addr (suc fuel) zero attempts l w on sum enough =
        let end = verdict-last addr attempts l w on (omega arith) in
        let b = bound_at os addr l w in
        (
          (after_bind os addr l w).0,
          (after_bind os addr l w).1,
          bind_loop-step os addr fuel attempts l w ∙ rw end refl,
          omega (arith, c.bind l.sockfd addr w, c.others_keep l b.1),
        )
    bind_loop-naps addr (suc fuel) (suc left) attempts l w on sum enough =
        let again = verdict-again addr attempts l w on (omega arith) in
        let b = bound_at os addr l w in
        let o = after_bind os addr l w in
        let z = os.sleep ((attempts + 1) * 1000) o.1 in
        let o' = os.others o.0 z in
        let still : o'.0.listening ≡ 1 = c.not_stopped o.0 z ∙ c.not_stopped l b.1 ∙ on in
        let (l', w', e, total) =
          bind_loop-naps addr fuel left (attempts + 1) o'.0 o'.1 still (omega arith)
            (omega arith) in
        (
          l',
          w',
          bind_loop-step os addr fuel attempts l w ∙ rw again e,
          omega (
            arith,
            total,
            c.others_keep o.0 z,
            c.sleeps ((attempts + 1) * 1000) o.1,
            c.others_keep l b.1,
            c.bind l.sockfd addr w,
          ),
        )

    -- From the marking of the listener on.
    bind_and_serve-Naps :
        (fuel : ℕ) (stack : NcThread) (fn : ℕ) (option : ℤ) (l : Listener) (w : W)
        → 11 ≤ fuel
        → (l' : Listener) × (w' : W) × (bind_and_serve os fuel stack fn option flags l w
            ≡ some (some RetCode.failed, l', w'))
          × (slept w' ≡ slept w + 55000)
    unfolding bind_and_serve new_thread naps
    bind_and_serve-Naps fuel stack fn option l w enough =
        let l₁ = record l { listening = 1 } in
        let t = new_thread os.threads os.have_threads stack w in
        let made : slept t.1 ≡ slept w = ground (arith, c.enable_cancel w) in
        let addr = record zero_addr {
          sin_family = os.arch.af_inet;
          sin_port = os.htons l.port;
          sin_addr = os.any_addr;
        } in
        let r =
          if has_bit (uint_of_int flags) nc_reuseaddr
          then os.reuse_addr l.sockfd t.1
          else (pos 0, t.1) in
        let good : eqb_ℤ r.0 minus_one ≡ false = ground (arith, c.reuse_works l.sockfd t.1) in
        let kept : slept r.1 ≡ slept t.1 = ground (arith, c.reuse_addr l.sockfd t.1) in
        let (l', w', e, total) =
          bind_loop-naps addr fuel 10 0 l₁ r.1 refl (omega arith) (omega arith) in
        (l', w', rw (good, e) refl, omega (arith, total, made, kept))

    -- When every ::bind fails with an error other than that the address is in use, setsockopt works where
    -- it is called, and nobody stops the listener: startListening, given a descriptor and good arguments,
    -- returns NC_FAILED after it has slept for 55 seconds.
    pub start_listening-Naps :
        (fuel : ℕ) (stack : NcThread) (fn : ℕ) (option : ℤ) (l : Listener) (w : W)
        → ((d t k : ℕ) (w' : W) → eqb_ℤ (os.socket d t k w').0 (pos 0) ≡ false)
        → bad_args fn option flags ≡ false
        → 11 ≤ fuel
        → (l' : Listener) × (w' : W) × (start_listening os fuel stack fn option flags l w
            ≡ some (some RetCode.failed, l', w'))
          × (slept w' ≡ slept w + 55000)
    unfolding start_listening
    start_listening-Naps fuel stack fn option l w given fine enough =
        let type =
          if eqb_ℤ l.socktype socktype_tcpip then os.arch.sock_stream else os.arch.sock_dgram in
        let s = os.socket os.arch.af_inet type 0 w in
        let (l', w', e, total) =
          bind_and_serve-Naps fuel stack fn option (record l { sockfd = s.0 }) s.1 enough in
        (
          l',
          w',
          rw (given os.arch.af_inet type 0 w, fine) e,
          omega (arith, total, c.socket os.arch.af_inet type 0 w),
        )
