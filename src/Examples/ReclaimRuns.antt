-- ===== src/Examples/ReclaimRuns.antt =====
-- Listeners that start a thread for each connection.
use netclass.Common.{
  ℕ, zero, suc, pos, minus_one, ◌≡◌, refl, ap, true, List, [], ◌∷◌, some, arith, drop,
  if◌then◌else◌, ◌==◌,
}
use netclass.Consts.{RetCode}
use netclass.Socket.State.{zero_addr}
use netclass.Thread.Defs.{ThreadOs, start, detach}
use netclass.Thread.Lifecycle.{ThreadContract}
use netclass.Listener.Defs.{Listener, ListenOs, Accepted, Given}
use netclass.Listener.Serve.{Serving, accept_loop}
use netclass.Listener.Reclaim.{Same, ReclaimContract, Reclaimed, accept_loop-Reclaims}
use netclass.Examples.QuietListen.{quiet_listen, quiet_threads}

-- The connections that wait, the threads to be reclaimed, and how many have been created; every thread
-- has the handle 7.
record Crowd : Type 0 where
  waiting : ℕ
  pending : List ℕ
  created : ℕ

abbrev crowd_accept : ℕ → Crowd → Accepted Crowd
crowd_accept zero w = record { client = minus_one; addr = zero_addr; world = w }
crowd_accept (suc n) w = record {
  client = pos 5;
  addr = zero_addr;
  world = record w { waiting = n };
}

abbrev crowd_threads : ThreadOs Crowd Given
crowd_threads = record quiet_threads {
  create = λ old fn a w. record {
    result = pos 0;
    stored = 7;
    world = record w { pending = 7 ∷ w.pending; created = suc w.created };
  };
  join = λ h old w. record {
    result = pos 0;
    stored = 0;
    world = record w { pending = drop 1 w.pending };
  };
  detach = λ h w. (pos 0, record w { pending = drop 1 w.pending });
}

-- The listener is stopped when nobody waits any more.
abbrev crowd_os : ListenOs Crowd
crowd_os = record quiet_listen {
  threads = crowd_threads;
  others = λ l w. (if w.waiting == 0 then record l { listening = 0 } else l, w);
  accept = λ fd a w. crowd_accept w.waiting w;
}

crowd-ThreadContract : ThreadContract crowd_threads (λ w. w.pending)
crowd-ThreadContract = record {
  creates = λ old fn a w e. refl;
  create_fails = λ old fn a w e. ground arith;
  joined = λ h old rest w e ok. ap (λ l. drop 1 l) e;
  join_fails = λ h old w e. ground arith;
  detached = λ h rest w e ok. ap (λ l. drop 1 l) e;
  detach_fails = λ h w e. ground arith;
  cancel_keeps = λ h w. refl;
  cancelled_joins = λ h old w. refl;
}

crowd_accept-Same :
    (n : ℕ) (w : Crowd) → Same crowd_os (λ w. w.pending) (λ w. w.created) w (crowd_accept n w).world
crowd_accept-Same zero w = (refl, refl)
crowd_accept-Same (suc n) w = (refl, refl)

crowd-ReclaimContract : ReclaimContract crowd_os (λ w. w.pending) (λ w. w.created)
crowd-ReclaimContract = record {
  threaded = refl;
  native = crowd-ThreadContract;
  counts = λ old fn s w e. refl;
  accepts = λ fd a w. crowd_accept-Same w.waiting w;
  calls = λ fn s w. (refl, refl);
  joins = λ h old w. refl;
  detaches = λ h w. refl;
  sleeps = λ ms w. (refl, refl);
  others_keep = λ l w. (refl, refl);
}

abbrev on : Listener
on = record { sockfd = pos 4; listening = 1; socktype = pos 0; backlog = pos 16; port = 80 }

abbrev two_wait : Serving Crowd
two_wait = record {
  ok = true;
  thread = record { ret_val = 0; handle = 0 };
  clientaddr = zero_addr;
  listener = on;
  world = record { waiting = 2; pending = []; created = 0 };
}

abbrev off : Listener
off = record on { listening = 0 }

-- NC_DETACHED | NC_REUSEADDR, which the check of the arguments lets pass: both threads stay.
abbrev both_left : Crowd
both_left = record { waiting = 0; pending = 7 ∷ 7 ∷ []; created = 2 }

mixed_runs : accept_loop crowd_os 1 (pos 0) (pos 10) 3 two_wait ≡ some (RetCode.ok, off, both_left)
unfolding accept_loop start
mixed_runs = refl

-- NC_DETACHED: none.
exact_runs :
    accept_loop crowd_os 1 (pos 0) (pos 2) 3 two_wait
    ≡ some (RetCode.ok, off, record both_left { pending = [] })
unfolding accept_loop start detach
exact_runs = refl

accept_loop-Reclaims_example :
    Reclaimed crowd_os (λ w. w.pending) (λ w. w.created) 1 (pos 0) (pos 10) two_wait.world both_left
accept_loop-Reclaims_example =
    accept_loop-Reclaims crowd_os (λ w. w.pending) (λ w. w.created) 1 (pos 0) (pos 10) 3 two_wait
      off both_left crowd-ReclaimContract mixed_runs
