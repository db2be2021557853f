-- ===== src/Task/Queue/Race.antt =====
-- Publish: what it does to a queue on every branch, and what a Close between its two halves does.
use mathlib.Core.Path.{subst}
use open_mcp_chain.Prelude.{
  ◌≤◌, ◌≡◌, ◌∙◌, sym, refl, true, false, inl, inr, [], ◌∷◌, ◌++◌, Text, txt, length, length-append,
  arith, Bool-cases, ltb,
}
use open_mcp_chain.Errors.Value.{GoError, nil, plain}
use open_mcp_chain.Task.Queue.{
  MemoryQueue, Arm, sends, cancelled, Sent, returned, waits, panics, read_closed, select_send,
  publish, close,
}

-- The flag says whether the channel is closed, and the channel holds at most its capacity.
pub record IsSound (q : MemoryQueue) : Type 0 where
  pub flagged : q.ch_closed ≡ q.closed
  pub fits : length q.items ≤ q.size

-- What a publication of `id` may come to: it is refused, because the queue is closed or because the context
-- ended, and the queue is as it was; it waits, because the open channel is full; or the id is the last of
-- the queue, which is sound.
pub data Published (arm : Arm) (id : Text) (q : MemoryQueue) : Sent → Type 0 where
  refused_closed : q.closed ≡ true → Published arm id q (returned (plain (txt "队列已关闭")) q)
  refused_context :
      (e : GoError) → q.closed ≡ false → arm ≡ cancelled e → Published arm id q (returned e q)
  waiting : q.closed ≡ false → length q.items ≡ q.size → Published arm id q waits
  queued :
      (q' : MemoryQueue)
      → q.closed ≡ false
      → q'.items ≡ q.items ++ id ∷ []
      → IsSound q'
      → Published arm id q (returned nil q')

send_room :
    (id : Text) (q : MemoryQueue)
    → q.ch_closed ≡ false
    → ltb (length q.items) q.size ≡ true
    → select_send sends id q ≡ returned nil (record q { items = q.items ++ id ∷ [] })
unfolding select_send
send_room id q opened room = ground arith

select_send_cases :
    (arm : Arm) (id : Text) (q : MemoryQueue)
    → IsSound q
    → q.closed ≡ false
    → Published arm id q (select_send arm id q)
unfolding select_send
select_send_cases (cancelled e) id q sound opened = refused_context e opened refl
select_send_cases sends id q sound opened =
    let ch_opened = sound.flagged ∙ opened in
    let fits = sound.fits in
    elim (Bool-cases (ltb (length q.items) q.size)) [
      | inl room ↦ subst (Published sends id q) (sym (send_room id q ch_opened room)) (
          queued (record q { items = q.items ++ id ∷ [] }) opened refl
            (record {
              flagged = sound.flagged;
              fits = rw (length-append q.items (id ∷ [])) (ground arith);
            }))
      | inr full ↦ simp (ch_opened, full) (waiting opened (ground arith))
    ]

-- Publish on a sound queue, with nothing between its halves: refused, waiting or queued as above, on every
-- branch; it never panics.
pub publish_cases :
    (arm : Arm) (id : Text) (q : MemoryQueue) → IsSound q → Published arm id q (publish arm id q)
unfolding publish
publish_cases arm id q sound = elim (Bool-cases q.closed) [
  | inl shut ↦ simp shut (refused_closed shut)
  | inr opened ↦ simp opened (select_send_cases arm id q sound opened)
]

-- A Close between the two halves of Publish: whatever the queue, if the flag was read as open, the send that
-- follows panics.
pub publish_race :
    (id : Text) (q : MemoryQueue) → read_closed q ≡ false → select_send sends id (close q) ≡ panics
unfolding select_send close read_closed
publish_race id q h = ground arith
