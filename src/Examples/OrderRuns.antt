-- ===== src/Examples/OrderRuns.antt =====
-- Two connections, handed over in their order.
use netclass.Common.{
  ℕ, ℤ, pos, minus_one, ◌≡◌, refl, true, false, List, [], ◌∷◌, ◌++◌, some, arith, eqb_ℤ,
}
use netclass.Consts.{RetCode}
use netclass.Socket.State.{zero_addr, of_descriptor, get_ip_addr, get_sockfd, set_ip_addr}
use netclass.Thread.Defs.{start, detach}
use netclass.Listener.Defs.{Listener, ListenOs, Accepted, Given, client_socket, datagram}
use netclass.Listener.Serve.{Serving, accept_loop}
use netclass.Listener.Order.{OrderContract, InOrder, accept_loop-InOrder}
use netclass.Examples.QuietListen.{quiet_listen, quiet_threads}

-- The connections that wait, that have come, and that have been handed over.
record Queue : Type 0 where
  waiting : List (ℕ × ℕ)
  came : List (ℤ × ℕ)
  handed : List (ℤ × ℕ)

abbrev queue_accept : List (ℕ × ℕ) → Queue → Accepted Queue
queue_accept [] w = record { client = minus_one; addr = zero_addr; world = w }
queue_accept ((fd, ip) ∷ rest) w = record {
  client = pos fd;
  addr = record zero_addr { sin_addr = ip };
  world = record w { waiting = rest; came = w.came ++ ((pos fd, ip) ∷ []) };
}

abbrev given_to : Given → List (ℤ × ℕ)
given_to (client_socket s) = (s.sockfd, s.ipaddr) ∷ []
given_to (datagram d) = []

abbrev hand : Given → Queue → Queue
hand g w = record w { handed = w.handed ++ given_to g }

abbrev stop_if_empty : List (ℕ × ℕ) → Listener → Listener
stop_if_empty [] l = record l { listening = 0 }
stop_if_empty (x ∷ xs) l = l

abbrev queue_os : ListenOs Queue
queue_os = record quiet_listen {
  threads = record quiet_threads {
    create = λ old fn g w. record { result = pos 0; stored = 7; world = hand g w };
  };
  others = λ l w. (stop_if_empty w.waiting l, w);
  call = λ fn g w. hand g w;
  accept = λ fd a w. queue_accept w.waiting w;
}

abbrev came_in : Queue → List (ℤ × ℕ)
came_in w = w.came

abbrev handed_out : Queue → List (ℤ × ℕ)
handed_out w = w.handed

abbrev Arrives : Accepted Queue → Queue → Type 0
Arrives a w =
    (came_in a.world ≡ came_in w ++ ((a.client, a.addr.sin_addr) ∷ []))
    × (handed_out a.world ≡ handed_out w)

queue-nobody :
    (xs : List (ℕ × ℕ)) (w : Queue)
    → eqb_ℤ (queue_accept xs w).client minus_one ≡ true
    → (came_in (queue_accept xs w).world ≡ came_in w)
      × (handed_out (queue_accept xs w).world ≡ handed_out w)
queue-nobody [] w e = (refl, refl)
queue-nobody ((fd, ip) ∷ xs) w e = absurd (ground arith)

queue-client :
    (xs : List (ℕ × ℕ)) (w : Queue)
    → eqb_ℤ (queue_accept xs w).client minus_one ≡ false
    → Arrives (queue_accept xs w) w
queue-client [] w e = absurd (ground arith)
queue-client ((fd, ip) ∷ xs) w e = (refl, refl)

queue-OrderContract : OrderContract queue_os came_in handed_out
unfolding get_sockfd get_ip_addr
queue-OrderContract = record {
  threaded = refl;
  nobody = λ fd a w. queue-nobody w.waiting w;
  client = λ fd a w. queue-client w.waiting w;
  calls = λ fn s w. (refl, refl);
  creates = λ old fn s w e. (refl, refl);
  joins = λ h old w. (refl, refl);
  detaches = λ h w. (refl, refl);
  sleeps = λ ms w. (refl, refl);
  others_keep = λ l w. (refl, refl);
}

abbrev on : Listener
on = record { sockfd = pos 4; listening = 1; socktype = pos 0; backlog = pos 16; port = 80 }

abbrev opened : Serving Queue
opened = record {
  ok = true;
  thread = record { ret_val = 0; handle = 0 };
  clientaddr = zero_addr;
  listener = on;
  world = record { waiting = (5, 111) ∷ (6, 222) ∷ []; came = []; handed = [] };
}

abbrev both_served : Queue
both_served = record {
  waiting = [];
  came = (pos 5, 111) ∷ (pos 6, 222) ∷ [];
  handed = (pos 5, 111) ∷ (pos 6, 222) ∷ [];
}

-- NC_THREADED and NC_DETACHED; then NC_NONTHREADED.
threaded_run :
    accept_loop queue_os 1 (pos 0) (pos 2) 3 opened
    ≡ some (RetCode.ok, record on { listening = 0 }, both_served)
unfolding accept_loop start detach of_descriptor set_ip_addr
threaded_run = refl

plain_run :
    accept_loop queue_os 1 (pos 1) (pos 2) 3 opened
    ≡ some (RetCode.ok, record on { listening = 0 }, both_served)
unfolding accept_loop start detach of_descriptor set_ip_addr
plain_run = refl

accept_loop-InOrder_example : InOrder queue_os came_in handed_out opened.world both_served
accept_loop-InOrder_example =
    accept_loop-InOrder queue_os came_in handed_out 1 (pos 0) (pos 2) queue-OrderContract 3 opened
      (record on { listening = 0 }) both_served threaded_run
