-- ===== src/Loop/Server/Accept.antt =====
-- What Server::handNewConn does to the descriptors and the pool (net/Server.cpp).
use native.Mathlib.Nat.{mod-add-mod, mod-lt}
use jinyi.Loop.Pool.{EventLoopThreadPool, get_next_loop, running_pool, get_next_loop-running}
use jinyi.Loop.Server.{
  Server, still_running, is_negative, is_too_big, fd_list, accept_round, hand_new_conn,
}
use jinyi.Prelude.{
  ℕ, zero, suc, ◌+◌, ◌%◌, ◌≤◌, ◌≡◌, refl, sym, ap, ◌∙◌, Option, none, some, List, [], ◌∷◌, ◌++◌,
  arith, if◌then◌else◌, append_assoc, append-nil, Bool-cases, inl, inr, All,
}

-- The descriptors that the rounds `i` to `i + n` accept and that are too big, and the others.
abbrev pub too_big : (ℕ → Option ℕ) → ℕ → ℕ → List ℕ
too_big answers zero i = []
too_big answers (suc n) i =
    (if is_too_big (answers i) then fd_list (answers i) else []) ++ too_big answers n (i + 1)

abbrev pub loops_chosen : (ℕ → ℕ) → ℕ → ℕ → ℕ → List ℕ
loops_chosen start_loop n zero i = []
loops_chosen start_loop n (suc k) i = start_loop (i % n) ∷ loops_chosen start_loop n k (i + 1)

-- After `k` rounds from round `i` on.
pub record After (start_loop : ℕ → ℕ) (answers : ℕ → Option ℕ) (base n k i : ℕ) (s s' : Server)
    : Type 0 where
  pub pool : s'.pool ≡ running_pool start_loop base n ((i + k) % suc n)
  pub closed : s'.closed ≡ s.closed ++ too_big answers k i
  pub chosen : s'.chosen ≡ s.chosen ++ loops_chosen start_loop (suc n) k i
  pub standard : All (λ fd. fd ≤ 1) s.made_non_blocking → All (λ fd. fd ≤ 1) s'.made_non_blocking

next_pool :
    (start_loop : ℕ → ℕ) (base n i : ℕ) (p : EventLoopThreadPool)
    → p ≡ running_pool start_loop base n (i % suc n)
    → get_next_loop p
      ≡ some (start_loop (i % suc n), running_pool start_loop base n ((i + 1) % suc n))
next_pool start_loop base n i p e =
    ap get_next_loop e
    ∙ get_next_loop-running start_loop base n (i % suc n) (mod-lt i (omega arith))
    ∙ ap (λ m. some (start_loop (i % suc n), running_pool start_loop base n m))
        (mod-add-mod i (suc n) 1)

All-snoc :
    (fds : List ℕ) (fd : ℕ) → fd ≤ 1 → All (λ fd. fd ≤ 1) fds → All (λ fd. fd ≤ 1) (fds ++ fd ∷ [])
All-snoc [] fd h all = (h, tt)
All-snoc (x ∷ xs) fd h all = (all.0, All-snoc xs fd h all.1)

is_negative-le : (a : Option ℕ) → is_negative a ≤ 1
is_negative-le none = omega arith
is_negative-le (some fd) = omega arith

-- One round, by its answer.
record Round (loop : ℕ) (pool : EventLoopThreadPool) (a : Option ℕ) (s s' : Server) : Type 0 where
  pool_is : s'.pool ≡ pool
  closed : s'.closed ≡ s.closed ++ (if is_too_big a then fd_list a else [])
  chosen : s'.chosen ≡ s.chosen ++ loop ∷ []
  standard : All (λ fd. fd ≤ 1) s.made_non_blocking → All (λ fd. fd ≤ 1) s'.made_non_blocking

accept_round-Round :
    (a : Option ℕ) (s : Server) (loop : ℕ) (pool : EventLoopThreadPool)
    → get_next_loop s.pool ≡ some (loop, pool)
    → (s' : Server) × (accept_round a s ≡ some s') × Round loop pool a s s'
unfolding accept_round
accept_round-Round a s loop pool e = elim (Bool-cases (is_too_big a)) [
  | inl big ↦ (
    record s { pool = pool; chosen = s.chosen ++ loop ∷ []; closed = s.closed ++ fd_list a },
    rw (accept_round, e, big) refl,
    record { pool_is = refl; closed = rw big refl; chosen = refl; standard = λ all. all },
  )
  | inr small ↦ (
    record s {
      pool = pool;
      chosen = s.chosen ++ loop ∷ [];
      made_non_blocking = s.made_non_blocking ++ is_negative a ∷ [];
      made_no_delay = s.made_no_delay ++ a ∷ [];
    },
    rw (accept_round, e, small) refl,
    record {
      pool_is = refl;
      closed = rw small (sym (append-nil s.closed));
      chosen = refl;
      standard = All-snoc s.made_non_blocking (is_negative a) (is_negative-le a);
    },
  )
]

-- handNewConn does not return: in a server with a started pool of `n + 1` loops it is still running
-- after any number of rounds, whatever accept answers. The rounds have closed the descriptors from
-- MAXFDS on and no other, have chosen the loops in turn and given none of them a connection, and have
-- asked for the non-blocking mode of descriptors 0 and 1 only.
pub hand_new_conn-After :
    (start_loop : ℕ → ℕ) (answers : ℕ → Option ℕ) (base n k i : ℕ) (s : Server)
    → s.pool ≡ running_pool start_loop base n (i % suc n)
    → (s' : Server) × (hand_new_conn answers k i s ≡ still_running s')
      × After start_loop answers base n k i s s'
unfolding hand_new_conn
hand_new_conn-After start_loop answers base n zero i s e = (
  s,
  refl,
  record {
    pool = e ∙ ap (λ j. running_pool start_loop base n (j % suc n)) (omega arith);
    closed = sym (append-nil s.closed);
    chosen = sym (append-nil s.chosen);
    standard = λ all. all;
  },
)
hand_new_conn-After start_loop answers base n (suc k) i s e =
    let (t, here, r) =
      accept_round-Round (answers i) s _ _ (next_pool start_loop base n i s.pool e) in
    let (u, there, a) = hand_new_conn-After start_loop answers base n k (i + 1) t r.pool_is in
    (
      u,
      rw (hand_new_conn, here) there,
      record {
        pool = a.pool ∙ ap (λ j. running_pool start_loop base n (j % suc n)) (omega arith);
        closed =
            a.closed
            ∙ ap (λ c. c ++ too_big answers k (i + 1)) r.closed
            ∙ append_assoc s.closed _ _;
        chosen =
            a.chosen
            ∙ ap (λ c. c ++ loops_chosen start_loop (suc n) k (i + 1)) r.chosen
            ∙ append_assoc s.chosen _ _;
        standard = λ all. a.standard (r.standard all);
      },
    )
