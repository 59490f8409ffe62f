-- ===== src/Socket/Builds/Agreement.antt =====
-- When a state of the select loop stands for a state of the poll loop, and a pass for a round.
use netclass.Common.{ℕ, pos, pos_part, ◌+◌, ◌≤◌, ◌≡◌}
use netclass.Consts.{RetCode}
use netclass.Socket.State.{PollObject}
use netclass.Socket.Poll.Loop.{Transfer, Round, return, next}
use netclass.Socket.Select.Memory.{Memory, bytes_at}
use netclass.Socket.Select.Loop.{Locals, Pass, leave, again}

module _ {W : Type 0} where
  -- The locals of the select build where those of the poll build are `t`.
  abbrev pub locals_of : PollObject → Memory → Transfer W → Locals W
  locals_of listener memory t = record {
    memory = memory;
    off = pos t.off;
    remaining = t.remaining;
    num_actual = t.num_actual;
    clock = t.clock;
    timedout = t.timedout;
    code = t.code;
    sock = record t.sock { listener = listener };
    world = t.world;
  }

  module _ (room : ℕ) where
    -- The buffer stands in memory, and the bytes that are left fit it.
    pub record Matched (memory : Memory) (t : Transfer W) : Type 0 where
      pub holds : bytes_at memory (pos 0) room ≡ t.buf
      pub fits : t.off + pos_part t.remaining ≤ room

    pub data Agree : Pass W → Round W → Type 0 where
      both_leave :
          (code : RetCode) (l : PollObject) (memory : Memory) (t : Transfer W)
          → bytes_at memory (pos 0) room ≡ t.buf
          → Agree (leave code (locals_of l memory t)) (return code t)
      both_again :
          (l : PollObject) (memory : Memory) (t : Transfer W)
          → Matched memory t
          → Agree (again (locals_of l memory t)) (next t)
