-- ===== src/Examples/ServerRuns.antt =====
-- The whole of startListening and stopListening on concrete systems.
use netclass.Common.{
  ℕ, ℤ, pos, ◌-◌, ◌≡◌, refl, ◌==◌, if◌then◌else◌, true, List, [], ◌∷◌, none, some,
}
use netclass.Consts.{RetCode}
use netclass.Socket.State.{zero_addr}
use netclass.Thread.Defs.{NcThread}
use netclass.Listener.Defs.{Listener, ListenOs, new_listener, stop_listening, destroy_listener}
use netclass.Listener.Serve.{Serving, Receiving, accept_loop, receive_loop}
use netclass.Listener.Stopping.{StopContract, stop_listening-Stops}
use netclass.Examples.QuietListen.{quiet_listen}
use netclass.Examples.ListenRuns.{Net, listen_os, serving}

abbrev loose_of : Net → ℕ
loose_of w = w.loose

abbrev waiting_of : Net → ℕ
waiting_of w = w.waiting

-- Another thread takes a connection off the queue after each round, and stops the listener when none
-- waits any more.
abbrev ending_os : ListenOs Net
ending_os = record listen_os {
  others = λ l w. (
    if w.waiting == 0 then record l { listening = 0 } else l,
    record w { waiting = w.waiting - 1 },
  );
}

abbrev port_80 : Listener
port_80 = new_listener 80 (pos 0)

abbrev stack : NcThread
stack = record { ret_val = 0; handle = 0 }

-- The state is the list of the descriptors that have been closed.
abbrev closing_os : ListenOs (List ℤ)
closing_os = record (quiet_listen {W = List ℤ}) {
  files = record {
    close = λ fd w. fd ∷ w;
    fclose = λ file w. w;
    fdopen = λ fd w. (none, w);
    fflush = λ file w. (pos 0, w);
  };
}

closing-StopContract : StopContract closing_os (λ w. w)
closing-StopContract = record {
  closes = λ fd w. refl;
  shutdown_keeps = λ fd how w. refl;
  sleep_keeps = λ ms w. refl;
  others_keep = λ l w. refl;
  others_descriptor = λ l w. refl;
  stays_stopped = λ l w off. off;
}

abbrev accepting : Serving (List ℤ)
accepting = record {
  ok = true;
  thread = stack;
  clientaddr = zero_addr;
  listener = serving.listener;
  world = [];
}

abbrev receiving : Receiving (List ℤ)
receiving = record {
  defined = true;
  clientaddr = zero_addr;
  listener = serving.listener;
  world = [];
}

stop_listening-Stops_example :
    let (l', w') = stop_listening closing_os serving.listener [] in
    (l'.sockfd ≡ pos 0)
    × (l'.listening ≡ 0)
    × (destroy_listener closing_os l' w' ≡ pos 4 ∷ [])
    × (accept_loop closing_os 1 (pos 0) (pos 2) 1 (record accepting { listener = l'; world = w' })
        ≡ some (RetCode.ok, l', w'))
    × (receive_loop closing_os 1 1 (record receiving { listener = l'; world = w' })
        ≡ some (some RetCode.ok, l', w'))
stop_listening-Stops_example =
    stop_listening-Stops closing_os (λ w. w) 1 (pos 0) (pos 2) 0 accepting receiving
      serving.listener [] closing-StopContract refl refl
