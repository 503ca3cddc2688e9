-- ===== src/EventLoop/Queue.antt =====
-- The functions that are queued for a loop of src/event/eventloop.cc: their order, and the wake-up.
use Prim.Native.Nat.{ℕ}
use tiny_http_server.Prelude.{
  ◌+◌, ◌<◌, ◌≡◌, ◌≢◌, ◌⊎◌, if_true, if_false, subst, ◌∙◌, List, [], ◌∷◌, ◌++◌, refl, arith, ap, sym,
  append_assoc, append-nil, inl, inr,
}
use tiny_http_server.EventLoop.{
  EventLoop, Phase, polling, handling, calling, Step, push, wake, wait, woken, queues, swaps, calls,
  requeues, ends, Reach, here, next, start, queue_in_loop, take_pending, handle_read, is_calling,
}

-- the functions that `dopending_func` has still to run
abbrev pub left : Phase → List ℕ
left polling = []
left handling = []
left (calling fs) = fs

-- Nothing pends behind a poll or a run of functions without a wake-up on its way.
abbrev pub IsAwake : EventLoop → Type 0
IsAwake s = (s.phase ≡ handling) ⊎ ((s.pending ≡ []) ⊎ (0 < s.wake_count + s.waking))

pub record IsOrderly (s : EventLoop) : Type 0 where
  pub order : s.queued ≡ s.ran ++ (left s.phase ++ s.pending)
  pub awake : IsAwake s

order_at :
    {s : EventLoop} (p : Phase)
    → s.phase ≡ p
    → IsOrderly s
    → s.queued ≡ s.ran ++ (left p ++ s.pending)
order_at {s} p e v = v.order ∙ ap (λ x. s.ran ++ (left x ++ s.pending)) e

awake_at :
    {s : EventLoop}
    → s.phase ≢ handling
    → IsOrderly s
    → (s.pending ≡ []) ⊎ (0 < s.wake_count + s.waking)
awake_at busy v = elim v.awake [ inl e ↦ absurd (busy e) | inr h ↦ h ]

-- a function that is queued comes last
snoc :
    (f : ℕ) (queued ran rest pending : List ℕ)
    → queued ≡ ran ++ (rest ++ pending)
    → queued ++ f ∷ [] ≡ ran ++ (rest ++ (pending ++ f ∷ []))
snoc f queued ran rest pending h =
    ap (λ t. t ++ f ∷ []) h
    ∙ append_assoc ran (rest ++ pending) (f ∷ [])
    ∙ ap (◌++◌ ran) (append_assoc rest pending (f ∷ []))

Step-IsOrderly : {s t : EventLoop} → Step s t → IsOrderly s → IsOrderly t
unfolding queue_in_loop take_pending handle_read
Step-IsOrderly {s} (push f) v = record {
  order = snoc f s.queued s.ran (left s.phase) s.pending v.order;
  awake = inr (inr (omega arith));
}
Step-IsOrderly (wake n e) v = record { order = v.order; awake = inr (inr (omega arith)) }
Step-IsOrderly (wait e) v = record { order = order_at polling e v; awake = inl refl }
Step-IsOrderly (woken e h) v = record { order = v.order; awake = inl e }
Step-IsOrderly {s} (queues f e) v =
    subst IsOrderly (sym (if_false _ _ _ (ap is_calling e)))
      (record { order = snoc f s.queued s.ran (left s.phase) s.pending v.order; awake = inl e })
Step-IsOrderly {s} (swaps e) v = record {
  order = order_at handling e v ∙ ap (◌++◌ s.ran) (sym (append-nil s.pending));
  awake = inr (inl refl);
}
Step-IsOrderly {s} (calls f fs e) v = record {
  order = order_at (calling (f ∷ fs)) e v ∙ sym (append_assoc s.ran (f ∷ []) (fs ++ s.pending));
  awake = inr (awake_at (λ h. cc) v);
}
Step-IsOrderly {s} (requeues f fs e) v =
    subst IsOrderly (sym (if_true _ _ _ (ap is_calling e))) (record {
      order = snoc f s.queued s.ran (left s.phase) s.pending v.order;
      awake = inr (inr (omega arith));
    })
Step-IsOrderly (ends e) v = record {
  order = order_at (calling []) e v;
  awake = inr (awake_at (λ h. cc) v);
}

Reach-IsOrderly : {s : EventLoop} → Reach start s → IsOrderly s
Reach-IsOrderly here = record { order = refl; awake = inr (inl refl) }
Reach-IsOrderly (next r st) = Step-IsOrderly st (Reach-IsOrderly r)

-- However other threads take turns with the loop, what was queued is what has been run and what waits
-- to be run, in the order in which it was queued.
pub Reach-order : {s : EventLoop} → Reach start s → s.queued ≡ s.ran ++ (left s.phase ++ s.pending)
Reach-order r = (Reach-IsOrderly r).order

-- No wake-up is lost: while the loop is in `poll` and a function pends, the wake-up has come or
-- another thread is about to send it.
pub poll_awake :
    {s : EventLoop}
    → Reach start s
    → s.phase ≡ polling
    → s.pending ≢ []
    → 0 < s.wake_count + s.waking
poll_awake r e pends = elim (awake_at (λ h. cc) (Reach-IsOrderly r)) [
  | inl none_left ↦ absurd (pends none_left)
  | inr h ↦ h
]
