-- ===== src/Util/Listen.antt =====
-- net/Util.cpp: `socket_bind_listen` and `setSocketNonBlocking`. The system calls' answers are
-- arguments, and the calls made are returned in order.
use jinyi.Prelude.Bits.{has, set_bit}
use jinyi.Prelude.Int.{ℤ, pos, negsuc}
use jinyi.Prelude.{
  ℕ, ◌/◌, ◌%◌, ◌^◌, ◌≤◌, ◌≡◌, Bool, true, false, not, ◌&&◌, ◌||◌, List, [], ◌∷◌, Option, none, some,
  arith, ltb, ◌==◌, if◌then◌else◌,
}

pub data Call : Type 0 where
  set_reuse_addr : ℕ → Call
  bind : ℕ → ℕ → Call
  listen : ℕ → ℕ → Call
  close : ℤ → Call

-- What socket(), setsockopt(), bind() and listen() answer; `none` and `false` are -1.
pub record Answers : Type 0 where
  pub socket : Option ℕ
  pub option_set : Bool
  pub bound : Bool
  pub listening : Bool

abbrev failed : ℤ
failed = negsuc 0

configure : Answers → ℕ → ℕ → ℤ × List Call
configure a port fd =
    if not a.option_set
    then (failed, set_reuse_addr fd ∷ close (pos fd) ∷ [])
    else if not a.bound
    then (failed, set_reuse_addr fd ∷ bind fd port ∷ close (pos fd) ∷ [])
    else if not a.listening
    then (failed, set_reuse_addr fd ∷ bind fd port ∷ listen fd 2048 ∷ close (pos fd) ∷ [])
    else (pos fd, set_reuse_addr fd ∷ bind fd port ∷ listen fd 2048 ∷ [])

-- The port is cast to `unsigned short`. The last test of the source, `listen_fd == -1`, cannot
-- succeed there: the descriptor has been compared with -1 before.
unfoldable pub socket_bind_listen : Answers → ℤ → ℤ × List Call
unfolding configure
socket_bind_listen a (negsuc n) = (failed, [])
socket_bind_listen a (pos port) = if ltb 65535 port then (failed, []) else elim a.socket [
  | none ↦ (failed, close failed ∷ [])
  | some fd ↦ configure a (port % 2 ^ 16) fd
]

-- The descriptor `fd` is closed by one of the calls.
abbrev pub closes : ℕ → List Call → Bool
closes fd [] = false
closes fd (close (pos n) ∷ cs) = n == fd || closes fd cs
closes fd (_ ∷ cs) = closes fd cs

-- With a port in range and a socket opened, either every call succeeds, the result is the
-- descriptor and it stays open, bound to the very port asked for; or the result is -1 and the
-- descriptor has been closed.
socket_bind_listen_lem :
    (a : Answers) (port fd : ℕ)
    → port ≤ 65535
    → a.socket ≡ some fd
    → (let r = socket_bind_listen a (pos port) in
        if a.option_set && a.bound && a.listening
        then (r ≡ (pos fd, set_reuse_addr fd ∷ bind fd port ∷ listen fd 2048 ∷ []))
          × (closes fd r.1 ≡ false)
        else (r.0 ≡ negsuc 0) × (closes fd r.1 ≡ true))
unfolding socket_bind_listen
socket_bind_listen_lem a port fd h e = ground arith

-- What fcntl(F_GETFL) and fcntl(F_SETFL) answer.
pub record Fcntl : Type 0 where
  pub flags : Option ℕ
  pub set_ok : Bool

-- O_NONBLOCK is 04000 on Linux.
abbrev pub nonblock_bit : ℕ
nonblock_bit = 11

-- The result, and the flags handed to F_SETFL, if that call was made.
unfoldable pub set_socket_non_blocking : Fcntl → ℤ × Option ℕ
set_socket_non_blocking k = elim k.flags [
  | none ↦ (negsuc 0, none)
  | some flag ↦
      let flag' = set_bit nonblock_bit flag in
      if not k.set_ok then (negsuc 0, some flag') else (pos 0, some flag')
]

-- F_SETFL is called with flags that have O_NONBLOCK set and agree with the old ones in all bits
-- below and above it; the result is 0 exactly when that call succeeds, and -1 otherwise.
set_socket_non_blocking_lem :
    (k : Fcntl) (flag : ℕ)
    → k.flags ≡ some flag
    → (new : ℕ) × (set_socket_non_blocking k ≡ (if k.set_ok then pos 0 else negsuc 0, some new))
      × (has nonblock_bit new ≡ true)
      × (new % 2 ^ 11 ≡ flag % 2 ^ 11)
      × (new / 2 ^ 12 ≡ flag / 2 ^ 12)
unfolding set_socket_non_blocking
set_socket_non_blocking_lem k flag e =
    (set_bit nonblock_bit flag, ground arith, ground arith, ground arith, ground arith)
