-- ===== src/Task/Queue.antt =====
-- internal/task/memory_queue.go: a channel of task ids and a closed flag.
pub mod Race
use open_mcp_chain.Prelude.{
  ℕ, Bool, true, false, ◌&&◌, Option, none, some, List, [], ◌∷◌, ◌++◌, Text, txt, length, ltb,
  if◌then◌else◌,
}
use open_mcp_chain.Prelude.Int.{ℤ, pos, negsuc, leb_ℤ, pos_part}
use open_mcp_chain.Errors.Value.{GoError, nil, plain}

-- The channel's contents, oldest first, its capacity, and whether it is closed; `closed` is the field
-- under the mutex. Close sets both together.
pub record MemoryQueue : Type 0 where
  pub items : List Text
  pub size : ℕ
  pub ch_closed : Bool
  pub closed : Bool

unfoldable pub new_memory_queue : ℤ → MemoryQueue
new_memory_queue size = record {
  items = [];
  size = if leb_ℤ size (pos 0) then 64 else pos_part size;
  ch_closed = false;
  closed = false;
}

-- The arm that `select` takes: the send, or the end of the context, with the context's error.
pub data Arm : Type 0 where
  sends : Arm
  cancelled : GoError → Arm

-- A send on a full channel waits; a send on a closed one panics.
pub data Sent : Type 0 where
  returned : GoError → MemoryQueue → Sent
  waits : Sent
  panics : Sent

-- the first half of Publish: the flag, read under the mutex
unfoldable pub read_closed : MemoryQueue → Bool
read_closed q = q.closed

-- the second half: the select, outside the mutex
unfoldable pub select_send : Arm → Text → MemoryQueue → Sent
select_send (cancelled err) id q = returned err q
select_send sends id q =
    if q.ch_closed
    then panics
    else if ltb (length q.items) q.size
    then returned nil (record q { items = q.items ++ id ∷ [] })
    else waits

-- Publish with nothing between its two halves.
unfoldable pub publish : Arm → Text → MemoryQueue → Sent
unfolding read_closed select_send
publish arm id q = if read_closed q then returned (plain (txt "队列已关闭")) q else select_send arm id q

-- one receive of a worker's loop: an id, or `none` where the channel is empty
unfoldable pub receive : MemoryQueue → Option (Text × MemoryQueue)
receive q = elim q.items [ [] ↦ none | id ∷ rest ↦ some (id, record q { items = rest }) ]

unfoldable pub close : MemoryQueue → MemoryQueue
close q = if q.closed then q else record q { ch_closed = true; closed = true }
