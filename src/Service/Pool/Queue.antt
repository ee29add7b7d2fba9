-- ===== src/Service/Pool/Queue.antt =====
-- service/queue.py `enqueue`, in the loop of service/app.py `_recover_pending`.
use mathlib.Core.List.{append-nil, append_assoc}
use quellgeist.Base.{
  ℕ, ◌+◌, ◌≤◌, String, List, [], ◌∷◌, ◌++◌, ◌≡◌, refl, sym, ◌∙◌, ◌⊎◌, inl, inr, arith, length, take,
  ltb, Bool-cases, length-append,
}
use quellgeist.Service.Pool.{enqueue, enqueue_each}

-- Recovering ids into a queue appends the first ids, in order, and stops early only at a full queue;
-- the count is the number that was appended, and a queue within its bound stays within it.
pub enqueue_each-prefix :
    (maxsize : ℕ) (ids queue : List String)
    → length queue ≤ maxsize
    → let (n, final) = enqueue_each maxsize ids queue in
      (final ≡ queue ++ take n ids)
      × (length final ≤ maxsize)
      × (length final ≡ length queue + n)
      × ((n ≡ length ids) ⊎ (length final ≡ maxsize))
unfolding enqueue_each enqueue
enqueue_each-prefix maxsize [] queue h = (sym (append-nil queue), h, omega arith, inl refl)
enqueue_each-prefix maxsize (id ∷ ids) queue h = elim (Bool-cases (ltb (length queue) maxsize)) [
  | inr t ↦ rw (t, enqueue_each) (sym (append-nil queue), h, omega arith, inr (ground arith))
  | inl t ↦
      let longer : length (queue ++ id ∷ []) ≡ length queue + 1 = length-append queue (id ∷ []) in
      let room : length (queue ++ id ∷ []) ≤ maxsize = ground arith in
      let (grown, fits, counted, why) = enqueue_each-prefix maxsize ids (queue ++ id ∷ []) room in
      rw (t, enqueue_each)
        (
          grown ∙ append_assoc queue (id ∷ []) _,
          fits,
          omega (arith, counted, longer),
          elim why [ inl all ↦ inl (omega arith) | inr full ↦ inr full ],
        )
]
