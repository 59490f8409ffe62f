-- ===== src/Examples/ListenRuns.antt =====
-- Runs of the listener, of ncThread and of udpData on concrete systems.
use netclass.Common.{
  ℕ, zero, suc, pos, minus_one, ◌-◌, ◌≡◌, ltb_ℤ, refl, ◌⊎◌, inl, inr, eqb_ℤ, ◌==◌, if◌then◌else◌,
  true, false, List, [], ◌∷◌, none, some, arith, ap, uint_of_int, replicate, length, take, drop,
}
use netclass.Consts.{nc_reuseaddr, RetCode, max_dgram_buf_len}
use netclass.Arch.Defs.{set_nonblocking}
use netclass.Socket.State.{zero_addr}
use netclass.Datagram.{
  get_length, get_client_addr, get_descriptor, get_data, UdpData, new_datagram, new_datagram_lem,
}
use netclass.Thread.Defs.{ThreadOs, start, detach, new_thread}
use netclass.Thread.Lifecycle.{ThreadContract, joins, end_thread, start-end_thread}
use netclass.Listener.Defs.{ListenOs, new_listener, Accepted}
use netclass.Listener.Serve.{Serving, accept_loop, accept_round}
use netclass.Listener.Start.{bad_args, default_option, default_flags, start_listening}
use netclass.Listener.Handing.{ClientContract}
use netclass.Listener.Clients.{rounds}
use netclass.Examples.QuietListen.{quiet_listen, quiet_threads}

-- The state is the list of the threads to be reclaimed; every thread has the handle 7.
abbrev thread_os : ThreadOs (List ℕ) ℕ
thread_os = record {
  create = λ old fn a w. record { result = pos 0; stored = 7; world = 7 ∷ w };
  join = λ h old w. record { result = pos 0; stored = 0; world = drop 1 w };
  detach = λ h w. (pos 0, drop 1 w);
  cancel = λ h w. w;
  enable_cancel = λ w. w;
}

abbrev pending : List ℕ → List ℕ
pending w = w

thread-ThreadContract : ThreadContract thread_os pending
thread-ThreadContract = record {
  creates = λ old fn a w e. refl;
  create_fails = λ old fn a w e. ground arith;
  joined = λ h old rest w e ok. ap (λ l. drop 1 l) e;
  join_fails = λ h old w e. ground arith;
  detached = λ h rest w e ok. ap (λ l. drop 1 l) e;
  detach_fails = λ h w e. ground arith;
  cancel_keeps = λ h w. refl;
  cancelled_joins = λ h old w. refl;
}

start-end_thread_example :
    let (code, t', w') = start thread_os true 1 5 (record { ret_val = 0; handle = 0 }) (3 ∷ []) in
    let (code', t'', w'') = end_thread thread_os pending joins t' w' in
    ((code ≡ RetCode.failed) × (pending w' ≡ pending (3 ∷ [])))
    ⊎ ((code ≡ RetCode.ok) × (code' ≡ RetCode.ok) × (pending w'' ≡ pending (3 ∷ [])))
    ⊎ ((code ≡ RetCode.ok)
        × (code' ≡ RetCode.failed)
        × (pending w'' ≡ t'.handle ∷ pending (3 ∷ [])))
start-end_thread_example =
    start-end_thread thread_os pending joins 1 5 (record { ret_val = 0; handle = 0 }) (3 ∷ [])
      thread-ThreadContract

-- Connections that wait to be accepted, and those that nobody has been given.
pub record Net : Type 0 where
  pub waiting : ℕ
  pub loose : ℕ

abbrev pub net_accept : ℕ → Net → Accepted Net
net_accept zero w = record { client = minus_one; addr = zero_addr; world = w }
net_accept (suc n) w = record {
  client = pos 5;
  addr = zero_addr;
  world = record { waiting = n; loose = suc w.loose };
}

-- The listener is stopped when nobody waits any more.
abbrev pub listen_os : ListenOs Net
listen_os = record quiet_listen {
  files = record {
    close = λ fd w. record w { loose = w.loose - 1 };
    fclose = λ file w. w;
    fdopen = λ fd w. (none, w);
    fflush = λ file w. (pos 0, w);
  };
  threads = record quiet_threads {
    create = λ old fn a w. record {
      result = pos 0;
      stored = 7;
      world = record w { loose = w.loose - 1 };
    };
  };
  others = λ l w. (if w.waiting == 0 then record l { listening = 0 } else l, w);
  call = λ fn g w. record w { loose = w.loose - 1 };
  accept = λ fd a w. net_accept w.waiting w;
}

net_accept-cases :
    (n : ℕ) (w : Net)
    → ((eqb_ℤ (net_accept n w).client minus_one ≡ true) × ((net_accept n w).world.loose ≡ w.loose))
      ⊎ ((eqb_ℤ (net_accept n w).client minus_one ≡ false)
          × (ltb_ℤ (pos 0) (net_accept n w).client ≡ true)
          × ((net_accept n w).world.loose ≡ suc w.loose))
net_accept-cases zero w = inl (refl, refl)
net_accept-cases (suc n) w = inr (refl, refl, refl)

pub listen-ClientContract : ClientContract listen_os (λ w. w.loose)
listen-ClientContract = record {
  threaded = refl;
  allocates = λ w. refl;
  accepts = λ fd a w. net_accept-cases w.waiting w;
  calls = λ fn s w k e. omega arith;
  creates = λ old fn s w k e ok. omega arith;
  create_fails = λ old fn s w e. ground arith;
  closes = λ fd w k e. omega arith;
  joins = λ h old w. refl;
  detaches = λ h w. refl;
  sleeps = λ ms w. refl;
  others_keep = λ l w. refl;
}

abbrev pub serving : Serving Net
serving = record {
  ok = true;
  thread = record { ret_val = 0; handle = 0 };
  clientaddr = zero_addr;
  listener = record {
    sockfd = pos 4;
    listening = 1;
    socktype = pos 0;
    backlog = pos 16;
    port = 80;
  };
  world = record { waiting = 2; loose = 0 };
}

serving-stopped :
    (rounds listen_os (λ w. w.loose) 1 (pos 0) (pos 2) 2 serving).listener.listening ≡ 0
unfolding accept_round start detach
serving-stopped = refl

abbrev blank : List ℕ
blank = replicate max_dgram_buf_len 0

new_datagram_lem_example :
    (d : UdpData) × (new_datagram blank (pos 0) zero_addr (1 ∷ 2 ∷ drop 2 blank) (pos 2) ≡ some d)
    × (get_length d ≡ pos 2)
    × (get_client_addr d ≡ zero_addr)
    × (get_descriptor d ≡ pos 0)
    × (take 2 (get_data d) ≡ 1 ∷ 2 ∷ [])
    × (length (get_data d) ≡ max_dgram_buf_len)
new_datagram_lem_example =
    new_datagram_lem blank (pos 0) zero_addr (1 ∷ 2 ∷ drop 2 blank) 2 refl refl

-- A whole run: two clients are served in threads, then the listener is found stopped.
run_of_two :
    start_listening listen_os 11
      (record { ret_val = 0; handle = 0 })
      1
      (pos 0)
      (pos 2)
      (new_listener 80 (pos 0))
      (record { waiting = 2; loose = 0 })
    ≡ some (
      some RetCode.ok,
      record { sockfd = pos 4; listening = 0; socktype = pos 0; backlog = pos 16; port = 80 },
      record { waiting = 0; loose = 0 },
    )
unfolding set_nonblocking start_listening new_listener uint_of_int new_thread accept_loop start
    detach
run_of_two = refl

-- The default arguments of startListening are accepted; the flag NC_REUSEADDR alone is accepted as well.
default_accepted : bad_args 1 default_option default_flags ≡ false
unfolding bad_args uint_of_int
default_accepted = refl

reuse_accepted : bad_args 1 default_option (pos nc_reuseaddr) ≡ false
unfolding bad_args uint_of_int
reuse_accepted = refl
