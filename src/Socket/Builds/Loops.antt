-- ===== src/Socket/Builds/Loops.antt =====
-- The loops of the two builds, on the same fuel.
use netclass.Common.{
  ℕ, zero, suc, ℤ, pos, ◌≡◌, refl, ap, inl, inr, List, [], Option, some, arith, Bool-cases,
}
use mathlib.Core.Option.{map}
use netclass.Consts.{RetCode}
use netclass.Socket.State.{NcSocket, PollObject, fd_set}
use netclass.Socket.Poll.Os.{PollOs}
use netclass.Socket.Poll.Loop.{Transfer, Direction, Round, return, next, goes_on, transfer}
use netclass.Socket.Select.Memory.{Memory, bytes_at}
use netclass.Socket.Select.Loop.{Locals, Way, Pass, leave, again, passes}
use netclass.Socket.Builds.System.{Select, with_select}
use netclass.Socket.Builds.Agreement.{locals_of, Matched, Agree, both_leave, both_again}
use netclass.Socket.Builds.Step.{SameWay, pass-Agree}

module _ (W : Type 0) where
  -- What a caller and the system can see of a call: all but the listener, which each build sets in its
  -- own way, and the place where the buffer is kept.
  pub record Seen : Type 0 where
    pub code : RetCode
    pub buf : List ℕ
    pub off : ℤ
    pub remaining : ℤ
    pub num_actual : Option ℤ
    pub clock : ℕ
    pub timedout : ℕ
    pub sock : NcSocket
    pub world : W

module _ {W : Type 0} where
  abbrev pub seen_of_select : ℕ → RetCode × Locals W → Seen W
  seen_of_select room (code, u) = record {
    code = code;
    buf = bytes_at u.memory (pos 0) room;
    off = u.off;
    remaining = u.remaining;
    num_actual = u.num_actual;
    clock = u.clock;
    timedout = u.timedout;
    sock = record u.sock { listener = fd_set [] };
    world = u.world;
  }

  abbrev pub seen_of_poll : RetCode × Transfer W → Seen W
  seen_of_poll (code, t) = record {
    code = code;
    buf = t.buf;
    off = pos t.off;
    remaining = t.remaining;
    num_actual = t.num_actual;
    clock = t.clock;
    timedout = t.timedout;
    sock = record t.sock { listener = fd_set [] };
    world = t.world;
  }

  -- A result, where the loop did not run out of fuel.
  abbrev pub selected : ℕ → Option (RetCode × Locals W) → Option (Seen W)
  selected room r = map (seen_of_select room) r

  abbrev pub polled : Option (RetCode × Transfer W) → Option (Seen W)
  polled r = map seen_of_poll r

  seen-same :
      (room : ℕ) (code : RetCode) (l : PollObject) (memory : Memory) (t : Transfer W)
      → bytes_at memory (pos 0) room ≡ t.buf
      → seen_of_select room (code, locals_of l memory t) ≡ seen_of_poll (code, t)
  seen-same room code l memory t e = ap (λ b. record (seen_of_poll (code, t)) { buf = b }) e

module _ {W : Type 0} (p : PollOs W) (select : Select W) (room : ℕ) (dir : Direction W)
    (way : Way W) (same : SameWay p select room dir way) (n : ℤ) where
  -- What is left of the select loop, and of the poll loop, after a pass.
  abbrev rest_of_passes : ℕ → Pass W → Option (RetCode × Locals W)
  rest_of_passes fuel a = elim a [
    | leave code u ↦ some (code, u)
    | again u ↦ passes (with_select p select) way n fuel u
  ]

  abbrev rest_of_rounds : ℕ → Round W → Option (RetCode × Transfer W)
  rest_of_rounds fuel b = elim b [
    | return code t ↦ some (code, t)
    | next t ↦ transfer p dir n fuel t
  ]

  -- The two loops end alike from `t`.
  abbrev SameEnd : ℕ → Type 0
  SameEnd fuel =
      (l : PollObject) (memory : Memory) (t : Transfer W)
      → Matched room memory t
      → selected room (passes (with_select p select) way n fuel (locals_of l memory t))
        ≡ polled (transfer p dir n fuel t)

  Agree-rest :
      (fuel : ℕ) {a : Pass W} {b : Round W}
      → SameEnd fuel
      → Agree room a b
      → selected room (rest_of_passes fuel a) ≡ polled (rest_of_rounds fuel b)
  Agree-rest fuel later (both_leave code l memory t e) = ap some (seen-same room code l memory t e)
  Agree-rest fuel later (both_again l memory t m) = later l memory t m

  pub passes-transfer : (fuel : ℕ) → SameEnd fuel
  unfolding passes transfer
  passes-transfer zero l memory t m = refl
  passes-transfer (suc fuel) l memory t m = elim (Bool-cases (goes_on p dir n t)) [
    | inl more ↦
        rw (more, passes, transfer)
          (Agree-rest fuel (passes-transfer fuel)
            (pass-Agree p select room dir way same n l memory t m (ground (arith, more))))
    | inr over ↦ rw (over, passes, transfer) (ap some (seen-same room t.code l memory t m.holds))
  ]
