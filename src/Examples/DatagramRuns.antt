-- ===== src/Examples/DatagramRuns.antt =====
-- A run of the loop of a listener that receives datagrams.
use netclass.Common.{
  ℕ, pos, ◌<◌, ◌≡◌, refl, ◌⊎◌, inl, inr, true, List, [], ◌∷◌, ◌++◌, length, arith, replicate,
}
use netclass.Socket.State.{SockAddrIn, zero_addr}
use netclass.Listener.Defs.{Listener, ListenOs, Given, client_socket, datagram}
use netclass.Listener.Serve.{Receiving, receive_loop}
use netclass.Listener.Datagrams.{Letter, read_as, DatagramContract, Handed, receive_loop-Handed}
use netclass.Examples.ListenRuns.{serving}
use netclass.Examples.QuietListen.{quiet_listen}

-- The first byte of each datagram that waits, the datagrams that have come, and those that the callback
-- has been given.
record Post : Type 0 where
  waiting : List ℕ
  came : List Letter
  given : List Letter

abbrev first : List ℕ → ℕ
first [] = 0
first (b ∷ bs) = b

abbrev rest : List ℕ → List ℕ
rest [] = []
rest (b ∷ bs) = bs

-- A datagram of three bytes in the array of 512.
abbrev array : ℕ → List ℕ
array b = b ∷ 8 ∷ 9 ∷ replicate 509 0

abbrev sender : SockAddrIn
sender = record zero_addr { sin_addr = 7 }

abbrev posted : Given → Post → Post
posted (client_socket s) w = w
posted (datagram d) w = record w { given = w.given ++ read_as d ∷ [] }

abbrev stop_if_empty : List ℕ → Listener → Listener
stop_if_empty [] l = record l { listening = 0 }
stop_if_empty (b ∷ bs) l = l

-- Another thread takes one datagram after each round that has seen one, and stops the listener when none
-- waits any more.
abbrev post_os : ListenOs Post
post_os = record (quiet_listen {W = Post}) {
  others = λ l w. (stop_if_empty w.waiting l, record w { waiting = rest w.waiting });
  call = λ fn g w. posted g w;
  recv_from = λ fd buf a w. record {
    count = pos 3;
    buf = array (first w.waiting);
    addr = sender;
    world = record w { came = w.came ++ (sender, first w.waiting ∷ 8 ∷ 9 ∷ []) ∷ [] };
  };
}

post_stops :
    (n : List ℕ) (l : Listener) → ((stop_if_empty n l).listening ≡ 0) ⊎ (length (rest n) < length n)
post_stops [] l = inl refl
post_stops (b ∷ bs) l = inr (omega arith)

abbrev post_left : Post → ℕ
post_left w = length w.waiting

post-DatagramContract : DatagramContract post_os 1 (λ w. w.came) (λ w. w.given) post_left
post-DatagramContract = record {
  receives = λ v. (3, refl, omega arith, refl, refl, refl, omega arith);
  calls = λ d w. (refl, refl, omega arith);
  others_keep = λ l w. (refl, refl);
  others_stop = λ l w. post_stops w.waiting l;
}

abbrev two_waiting : Receiving Post
two_waiting = record {
  defined = true;
  clientaddr = zero_addr;
  listener = serving.listener;
  world = record { waiting = 5 ∷ 6 ∷ []; came = []; given = [] };
}

receive_loop-Handed_example :
    Handed post_os 1
      (λ w. w.came)
      (λ w. w.given)
      post_left
      two_waiting
      (receive_loop post_os 1 4 two_waiting)
receive_loop-Handed_example =
    receive_loop-Handed post_os 1 (λ w. w.came) (λ w. w.given) post_left 4 two_waiting
      post-DatagramContract refl (omega arith)
