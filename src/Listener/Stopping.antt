-- ===== src/Listener/Stopping.antt =====
-- src/ncsocklist.cpp: `stopListening`, against the loops of startListening and the destructor.
use netclass.Common.{
  ℕ, suc, ℤ, pos, ◌≡◌, refl, eqb_ℤ, eqb_ℤ-sound, true, if◌then◌else◌, List, ◌∷◌, some, arith,
}
use netclass.Consts.{RetCode}
use netclass.Listener.Defs.{Listener, ListenOs, stop_listening, destroy_listener}
use netclass.Listener.Serve.{Serving, Receiving, accept_loop, receive_loop}

module _ {W : Type 0} (os : ListenOs W) (closed : W → List ℤ) where
  -- What the calls do to the log of the descriptors that have been closed, and that no other thread
  -- starts the listener again, or changes its descriptor, while it is being stopped.
  pub record StopContract : Type 0 where
    pub closes : (fd : ℤ) (w : W) → closed (os.files.close fd w) ≡ fd ∷ closed w
    pub shutdown_keeps : (fd : ℤ) (how : ℕ) (w : W) → closed (os.shutdown fd how w) ≡ closed w
    pub sleep_keeps : (ms : ℕ) (w : W) → closed (os.sleep ms w) ≡ closed w
    pub others_keep : (l : Listener) (w : W) → closed (os.others l w).1 ≡ closed w
    pub others_descriptor : (l : Listener) (w : W) → (os.others l w).0.sockfd ≡ l.sockfd
    pub stays_stopped : (l : Listener) (w : W) → l.listening ≡ 0 → (os.others l w).0.listening ≡ 0

  -- The listener after stopListening and the state of the system.
  stop_listening-Quiet :
      (l : Listener) (w : W)
      → StopContract
      → let (l', w') = stop_listening os l w in
        (l'.sockfd ≡ pos 0)
        × (l'.listening ≡ 0)
        × (closed w' ≡ (if eqb_ℤ l.sockfd (pos 0) then closed w else l.sockfd ∷ closed w))
  unfolding stop_listening
  stop_listening-Quiet l w c =
      let slept = os.sleep 250 w in
      let stopped = record l { listening = 0 } in
      let o = os.others stopped slept in
      ground (
        arith,
        c.stays_stopped stopped slept refl,
        c.others_descriptor stopped slept,
        c.others_keep stopped slept,
        c.sleep_keeps 250 w,
        c.shutdown_keeps l.sockfd 0 o.1,
        c.closes l.sockfd (os.shutdown l.sockfd 0 o.1),
        eqb_ℤ-sound l.sockfd (pos 0),
      )

  -- After stopListening the listener is off and has no descriptor. The descriptor, if it had one, has
  -- been closed, once, also when the destructor runs then; and a loop that accepts or receives and that
  -- comes to its test returns NC_OK.
  pub stop_listening-Stops :
      (fn : ℕ) (option flags : ℤ) (fuel : ℕ) (v : Serving W) (r : Receiving W) (l : Listener)
      (w : W)
      → StopContract
      → v.ok ≡ true
      → r.defined ≡ true
      → let (l', w') = stop_listening os l w in
        (l'.sockfd ≡ pos 0)
        × (l'.listening ≡ 0)
        × (closed (destroy_listener os l' w')
            ≡ (if eqb_ℤ l.sockfd (pos 0) then closed w else l.sockfd ∷ closed w))
        × (accept_loop os fn option flags (suc fuel) (record v { listener = l'; world = w' })
            ≡ some (RetCode.ok, l', w'))
        × (receive_loop os fn (suc fuel) (record r { listener = l'; world = w' })
            ≡ some (some RetCode.ok, l', w'))
  unfolding destroy_listener accept_loop receive_loop
  stop_listening-Stops fn option flags fuel v r l w c ok defined =
      let (none_left, off, log) = stop_listening-Quiet l w c in
      let l' = (stop_listening os l w).0 in
      (none_left, off, ground (arith, none_left, log), ground (arith, off), ground (arith, off))
