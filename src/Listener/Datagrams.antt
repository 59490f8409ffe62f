-- ===== src/Listener/Datagrams.antt =====
-- src/ncsocklist.cpp: the loop of `startListening` that receives datagrams.
use netclass.Common.{
  ℕ, zero, suc, pos, negsuc, pos_part, ◌+◌, ◌<◌, ◌≤◌, ◌≡◌, ◌≢◌, refl, sym, ap, List, [], ◌∷◌, ◌++◌,
  length, take, min, length-take, append-nil, append_assoc, ◌∙◌, ◌⊎◌, inl, inr, true, false, not,
  ◌==◌, Option, none, some, arith, Bool-cases, replicate,
}
use netclass.Consts.{RetCode, max_dgram_buf_len}
use netclass.Datagram.{
  UdpData, made_of, get_client_addr, get_length, get_data, take-overwrite_start, new_datagram-some,
  new_datagram-none,
}
use netclass.Socket.State.{SockAddrIn}
use netclass.Listener.Defs.{Listener, ListenOs, Arrived, datagram}
use netclass.Listener.Serve.{Receiving, receive_round, receive_loop}

-- A datagram as its sender and its bytes; and what the callback sees of one.
abbrev pub Letter : Type 0
Letter = SockAddrIn × List ℕ

abbrev pub read_as : UdpData → Letter
read_as d = (get_client_addr d, take (pos_part (get_length d)) (get_data d))

module _ {W : Type 0} (os : ListenOs W) (fn : ℕ) where
  -- What recvfrom gives to a round.
  abbrev pub arrival : Receiving W → Arrived W
  arrival v = os.recv_from v.listener.sockfd (replicate max_dgram_buf_len 0) v.clientaddr v.world

  receive_round-fails :
      (v : Receiving W) (e : ℕ)
      → (arrival v).count ≡ negsuc e
      → (receive_round os fn v).defined ≡ false
  unfolding receive_round
  receive_round-fails v e failed = rw (failed, new_datagram-none _ _ _ _ e, receive_round) refl

  -- `came` are the datagrams that recvfrom has stored, and `handed` those that the callback has been
  -- given, in order; `patience` bounds how often the other threads are heard before one of them stops the
  -- listener.
  module _ (came handed : W → List Letter) (patience : W → ℕ) where
    pub record DatagramContract : Type 0 where
      pub receives :
          (v : Receiving W)
          → (n : ℕ) × ((arrival v).count ≡ pos n)
            × (n ≤ length (arrival v).buf)
            × (length (arrival v).buf ≡ max_dgram_buf_len)
            × (came (arrival v).world
                ≡ came v.world ++ ((arrival v).addr, take n (arrival v).buf) ∷ [])
            × (handed (arrival v).world ≡ handed v.world)
            × (patience (arrival v).world ≤ patience v.world)
      pub calls :
          (d : UdpData) (w : W)
          → (handed (os.call fn (datagram d) w) ≡ handed w ++ read_as d ∷ [])
            × (came (os.call fn (datagram d) w) ≡ came w)
            × (patience (os.call fn (datagram d) w) ≤ patience w)
      pub others_keep :
          (l : Listener) (w : W)
          → (handed (os.others l w).1 ≡ handed w) × (came (os.others l w).1 ≡ came w)
      pub others_stop :
          (l : Listener) (w : W)
          → ((os.others l w).0.listening ≡ 0) ⊎ (patience (os.others l w).1 < patience w)

    -- What a round leaves: one datagram more has come, and has been handed over as it came.
    pub record Passed (v v' : Receiving W) : Type 0 where
      pub still_defined : v'.defined ≡ true
      pub letter : Letter
      pub has_come : came v'.world ≡ came v.world ++ letter ∷ []
      pub was_handed : handed v'.world ≡ handed v.world ++ letter ∷ []
      pub nearer : (v'.listener.listening ≡ 0) ⊎ (patience v'.world < patience v.world)

    made_of-read_as :
        (stack buf : List ℕ) (addr : SockAddrIn) (n : ℕ)
        → n ≤ length buf
        → length buf ≡ max_dgram_buf_len
        → read_as (made_of stack (pos 0) addr buf n) ≡ (addr, take n buf)
    unfolding get_client_addr get_length get_data
    made_of-read_as stack buf addr n le full =
        let uncut : min n max_dgram_buf_len ≡ n = omega arith in
        rw uncut (
          ap (λ bs. (addr, bs))
            (take-overwrite_start n stack (take n buf) (omega (arith, length-take n buf))))

    receive_round-Passed :
        (v : Receiving W) → DatagramContract → v.defined ≡ true → Passed v (receive_round os fn v)
    unfolding receive_round
    receive_round-Passed v c defined =
        let a = arrival v in
        let (n, count, le, full, more, same, in_time) = c.receives v in
        let d = made_of (os.fresh_bytes a.world) (pos 0) a.addr a.buf n in
        let made = new_datagram-some (os.fresh_bytes a.world) (pos 0) a.addr a.buf n in
        let as_came = made_of-read_as (os.fresh_bytes a.world) a.buf a.addr n le full in
        let w' = os.call fn (datagram d) a.world in
        let (given, called_keeps, called_in_time) = c.calls d a.world in
        let (others_handed, others_came) = c.others_keep v.listener w' in
        rw (count, made, receive_round)
          (record {
            still_defined = defined;
            letter = (a.addr, take n a.buf);
            has_come = others_came ∙ called_keeps ∙ more;
            was_handed = others_handed ∙ given ∙ rw (same, as_came) refl;
            nearer = elim (c.others_stop v.listener w') [
              | inl stopped ↦ inl stopped
              | inr sooner ↦ inr (omega (arith, sooner, called_in_time, in_time))
            ];
          })

    -- The loop has returned with NC_OK, the listener was found stopped, and the datagrams that have come
    -- were handed to the callback, each once, in order and as it came.
    pub record Delivered (v : Receiving W) (l' : Listener) (w' : W) : Type 0 where
      pub stopped : l'.listening ≡ 0
      pub letters : List Letter
      pub have_come : came w' ≡ came v.world ++ letters
      pub were_handed : handed w' ≡ handed v.world ++ letters

    abbrev pub Handed : Receiving W → Option (Option RetCode × Listener × W) → Type 0
    Handed v result =
        (l' : Listener) × (w' : W) × (result ≡ some (some RetCode.ok, l', w')) × Delivered v l' w'

    receive_loop-stopped :
        (fuel : ℕ) (v : Receiving W)
        → v.defined ≡ true
        → v.listener.listening ≡ 0
        → Handed v (receive_loop os fn (suc fuel) v)
    unfolding receive_loop
    receive_loop-stopped fuel v defined stopped =
        let live : not v.defined ≡ false = ground arith in
        let off : (v.listener.listening == 0) ≡ true = ground arith in
        (
          v.listener,
          v.world,
          rw (live, off, receive_loop) refl,
          record {
            stopped = stopped;
            letters = [];
            have_come = sym (append-nil (came v.world));
            were_handed = sym (append-nil (handed v.world));
          },
        )

    receive_loop-step :
        (fuel : ℕ) (v : Receiving W)
        → v.defined ≡ true
        → (v.listener.listening == 0) ≡ false
        → receive_loop os fn (suc fuel) v ≡ receive_loop os fn fuel (receive_round os fn v)
    unfolding receive_loop
    receive_loop-step fuel v defined on =
        let live : not v.defined ≡ false = ground arith in rw (live, on, receive_loop) refl

    Passed-Delivered :
        (v v' : Receiving W) (l' : Listener) (w' : W)
        → Passed v v'
        → Delivered v' l' w'
        → Delivered v l' w'
    Passed-Delivered v v' l' w' p d = record {
      stopped = d.stopped;
      letters = p.letter ∷ d.letters;
      have_come =
          d.have_come ∙ rw p.has_come (append_assoc (came v.world) (p.letter ∷ []) d.letters);
      were_handed =
          d.were_handed ∙ rw p.was_handed (append_assoc (handed v.world) (p.letter ∷ []) d.letters);
    }

    -- When no recvfrom fails and the other threads stop the listener in the end: the loop that receives
    -- datagrams returns NC_OK, with the listener found stopped, and the callback has been given the
    -- datagrams that came, each once and in the order in which they came, with the sender and the bytes
    -- that recvfrom stored.
    pub receive_loop-Handed :
        (fuel : ℕ) (v : Receiving W)
        → DatagramContract
        → v.defined ≡ true
        → patience v.world + 1 < fuel
        → Handed v (receive_loop os fn fuel v)
    receive_loop-Handed zero v c defined enough = absurd (omega arith)
    receive_loop-Handed (suc zero) v c defined enough = absurd (omega arith)
    receive_loop-Handed (suc (suc fuel)) v c defined enough =
        elim (Bool-cases (v.listener.listening == 0)) [
          | inl stopped ↦ receive_loop-stopped (suc fuel) v defined (ground arith)
          | inr on ↦
              let v' = receive_round os fn v in
              let p = receive_round-Passed v c defined in
              let (l', w', e, d) : Handed v' (receive_loop os fn (suc fuel) v') = elim p.nearer [
                | inl stopped ↦ receive_loop-stopped fuel v' p.still_defined stopped
                | inr nearer ↦ receive_loop-Handed (suc fuel) v' c p.still_defined (omega arith)
              ] in
              (
                l',
                w',
                receive_loop-step (suc fuel) v defined on ∙ e,
                Passed-Delivered v v' l' w' p d,
              )
        ]

  -- But when a recvfrom fails while the listener is on, the copy of the datagram is undefined.
  pub receive_loop-undefined :
      (fuel : ℕ) (v : Receiving W) (e : ℕ)
      → v.defined ≡ true
      → v.listener.listening ≢ 0
      → (arrival v).count ≡ negsuc e
      → (l' : Listener) × (w' : W) × (receive_loop os fn (suc (suc fuel)) v ≡ some (none, l', w'))
  unfolding receive_loop
  receive_loop-undefined fuel v e defined on failed =
      let v' = receive_round os fn v in
      let live : not v.defined ≡ false = ground arith in
      let off : (v.listener.listening == 0) ≡ false = ground arith in
      let dead : not v'.defined ≡ true = ground (arith, receive_round-fails v e failed) in
      (v'.listener, v'.world, rw (live, off, receive_loop) (rw (dead, receive_loop) refl))
