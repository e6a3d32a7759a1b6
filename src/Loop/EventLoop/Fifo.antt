-- ===== src/Loop/EventLoop/Fifo.antt =====
-- doPendingFunctors takes the queue by a swap, and still works as a first-in first-out queue.
use mathlib.Core.Path.{ap₂}
use jinyi.Loop.EventLoop.{
  EventLoop, queue_in_loop, queue_all, call_functor, call_all, do_pending_functors,
}
use jinyi.Prelude.{
  ℕ, zero, suc, ◌+◌, ◌≡◌, refl, sym, ap, ◌∙◌, true, List, [], ◌∷◌, ◌++◌, arith, length,
  append_assoc, append-nil, length-append,
}

-- The specification: what waits, and what was called.
pub record Fifo : Type 0 where
  pub waiting : List ℕ
  pub called : List ℕ

-- Take the first, call it, and put behind the others what it queues.
unfoldable pub serve : (ℕ → List ℕ) → Fifo → Fifo
serve body f = elim f.waiting [
  | [] ↦ f
  | cb ∷ rest ↦ record { waiting = rest ++ body cb; called = f.called ++ cb ∷ [] }
]

unfoldable pub serve_times : (ℕ → List ℕ) → ℕ → Fifo → Fifo
unfolding serve
serve_times body zero f = f
serve_times body (suc n) f = serve_times body n (serve body f)

abbrev pub view : List ℕ → EventLoop → Fifo
view rest l = record { waiting = rest ++ l.pending_functors; called = l.called }

-- What queueing several callbacks changes.
pub record Queued (cbs : List ℕ) (l l' : EventLoop) : Type 0 where
  pub pending : l'.pending_functors ≡ l.pending_functors ++ cbs
  pub called : l'.called ≡ l.called
  pub queued : l'.queued ≡ l.queued ++ cbs
  pub calling : l'.calling_pending_functors ≡ l.calling_pending_functors
  pub woken : l.calling_pending_functors ≡ true → l'.wakeup_count ≡ l.wakeup_count + length cbs

pub queue_in_loop-Queued :
    (tid cb : ℕ) (l : EventLoop) → Queued (cb ∷ []) l (queue_in_loop tid cb l)
unfolding queue_in_loop
queue_in_loop-Queued tid cb l = record {
  pending = ground arith;
  called = ground arith;
  queued = ground arith;
  calling = ground arith;
  woken = λ e. ground arith;
}

Queued-trans :
    (cb : ℕ) (cbs : List ℕ) (l m n : EventLoop)
    → Queued (cb ∷ []) l m
    → Queued cbs m n
    → Queued (cb ∷ cbs) l n
Queued-trans cb cbs l m n a b = record {
  pending =
      b.pending ∙ ap (λ p. p ++ cbs) a.pending ∙ append_assoc l.pending_functors (cb ∷ []) cbs;
  called = b.called ∙ a.called;
  queued = b.queued ∙ ap (λ p. p ++ cbs) a.queued ∙ append_assoc l.queued (cb ∷ []) cbs;
  calling = b.calling ∙ a.calling;
  woken = λ e. omega (arith, a.woken e, b.woken (a.calling ∙ e));
}

pub queue_all-Queued : (tid : ℕ) (cbs : List ℕ) (l : EventLoop) → Queued cbs l (queue_all tid cbs l)
unfolding queue_all
queue_all-Queued tid [] l = record {
  pending = sym (append-nil l.pending_functors);
  called = refl;
  queued = sym (append-nil l.queued);
  calling = refl;
  woken = λ e. omega arith;
}
queue_all-Queued tid (cb ∷ cbs) l =
    Queued-trans cb cbs l (queue_in_loop tid cb l) _ (queue_in_loop-Queued tid cb l)
      (queue_all-Queued tid cbs (queue_in_loop tid cb l))

-- A loop that calls the callbacks of `rest` behaves as the queue of these and of what is pending.
record Served (body : ℕ → List ℕ) (rest : List ℕ) (l l' : EventLoop) : Type 0 where
  fifo : view [] l' ≡ serve_times body (length rest) (view rest l)
  woken : l'.wakeup_count + length l.pending_functors ≡ l.wakeup_count + length l'.pending_functors

call_functor-view :
    (body : ℕ → List ℕ) (cb : ℕ) (rest : List ℕ) (l : EventLoop)
    → view rest (call_functor body cb l) ≡ serve body (view (cb ∷ rest) l)
unfolding call_functor serve
call_functor-view body cb rest l =
    let called = record l { called = l.called ++ cb ∷ [] } in
    let q = queue_all-Queued l.thread_id (body cb) called in
    ap₂ (λ w c. record { waiting = w; called = c })
      (ap (◌++◌ rest) q.pending ∙ sym (append_assoc rest l.pending_functors (body cb))) q.called

call_functor-Queued :
    (body : ℕ → List ℕ) (cb : ℕ) (l : EventLoop)
    → Queued (body cb) (record l { called = l.called ++ cb ∷ [] }) (call_functor body cb l)
unfolding call_functor
call_functor-Queued body cb l =
    queue_all-Queued l.thread_id (body cb) (record l { called = l.called ++ cb ∷ [] })

call_all-Served :
    (body : ℕ → List ℕ) (rest : List ℕ) (l : EventLoop)
    → l.calling_pending_functors ≡ true
    → Served body rest l (call_all body rest l)
unfolding call_all serve_times
call_all-Served body [] l e = record { fifo = refl; woken = omega arith }
call_all-Served body (cb ∷ rest) l e =
    let called = record l { called = l.called ++ cb ∷ [] } in
    let q = call_functor-Queued body cb l in
    let s = call_all-Served body rest (call_functor body cb l) (q.calling ∙ e) in
    record {
      fifo = s.fifo ∙ ap (serve_times body (length rest)) (call_functor-view body cb rest l);
      woken = omega (
        arith,
        s.woken,
        q.woken e,
        ap length q.pending,
        length-append l.pending_functors (body cb),
      );
    }

-- doPendingFunctors serves each callback that waited when it began, in order, and those that they
-- queue wait behind the others: it is that many steps of a first-in first-out queue. The eventfd has
-- been written once for each callback that waits afterwards, so that the next poll returns.
pub do_pending_functors-Fifo :
    (body : ℕ → List ℕ) (l : EventLoop)
    → (view [] (do_pending_functors body l)
        ≡ serve_times body (length l.pending_functors) (view [] l))
      × ((do_pending_functors body l).wakeup_count
          ≡ l.wakeup_count + length (do_pending_functors body l).pending_functors)
unfolding do_pending_functors
do_pending_functors-Fifo body l =
    let swapped = record l { calling_pending_functors = true; pending_functors = [] } in
    let s = call_all-Served body l.pending_functors swapped refl in
    (
      s.fifo
          ∙ ap
              (λ w.
                serve_times body (length l.pending_functors)
                  (record { waiting = w; called = l.called }))
              (append-nil l.pending_functors),
      omega (arith, s.woken),
    )
