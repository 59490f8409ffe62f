-- ===== src/Examples/DifferRuns.antt =====
-- One call of readData in both builds, on a descriptor that is ready and gives nothing.
use netclass.Common.{
  ℕ, ℤ, pos, negsuc, minus_one, ◌+◌, ◌≡◌, refl, List, [], ◌∷◌, Option, some, none,
}
use netclass.Consts.{RetCode}
use netclass.Arch.Defs.{linux_arch}
use netclass.Socket.State.{of_descriptor, zero_addr}
use netclass.Socket.Poll.Os.{PollOs, Received}
use netclass.Socket.Select.Memory.{Memory}
use netclass.Socket.Select.Loop.{Locals}
use netclass.Socket.Select.Calls.{read_by_select}
use netclass.Socket.Builds.System.{Select, with_select}
use netclass.Examples.Device.{headers, tcp_socket}

-- The system is the list of the descriptors that have been shut down.
abbrev try_again : List ℤ → Received (List ℤ)
try_again w = record { result = minus_one; bytes = []; from = zero_addr; world = w }

abbrev dry_os : PollOs (List ℤ)
dry_os = record {
  arch = linux_arch headers;
  pollin = 1;
  pollout = 4;
  pollerr = 8;
  poll = λ fd events ms w. record { result = pos 1; revents = events; world = w };
  send = λ fd bytes flags w. record { result = minus_one; world = w };
  sendto = λ fd bytes flags to w. record { result = minus_one; world = w };
  recv = λ fd len flags w. try_again w;
  recvfrom = λ fd len flags to w. try_again w;
  shutdown = λ fd how w. fd ∷ w;
  last_error = λ w. 11;
}

abbrev given : Option (List ℤ) → List ℤ
given none = []
given (some set) = set

abbrev dry_select : Select (List ℤ)
dry_select nfds reads writes sec usec w = record { result = pos 1; set = given reads; world = w }

abbrev counting : Memory
counting (pos n) = n + 1
counting (negsuc n) = 0

abbrev buffer : List ℕ
buffer = 1 ∷ 2 ∷ 3 ∷ []

abbrev summary : Option (RetCode × Locals (List ℤ)) → Option (RetCode × List ℤ)
summary none = none
summary (some (code, t)) = some (code, t.world)

select_run :
    summary (
      read_by_select
        (with_select dry_os dry_select)
        103
        tcp_socket
        counting
        (pos 3)
        (some (pos 9))
        [])
    ≡ some (RetCode.failed, pos 5 ∷ [])
unfolding read_by_select of_descriptor
select_run = refl
