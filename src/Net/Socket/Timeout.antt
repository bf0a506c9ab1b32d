-- ===== src/Net/Socket/Timeout.antt =====
-- The timeouts of a Socket, over the hooked setsockopt.
use lo_netfw.Base.{ℕ, ◌+◌, ◌*◌, ◌/◌, ◌%◌, ◌≡◌, ◌≢◌, refl, sym, ap, ◌∙◌, arith, true, some}
use lo_netfw.Base.Int.{ℤ, pos}
use lo_netfw.Hook.Fd.{Fd, FdManager, lookup, get_timeout}
use lo_netfw.Hook.Calls.{Opt, rcvtimeo, sndtimeo, timeout_event, setsockopt}
use lo_netfw.Hook.Calls.Nonblock.{setsockopt-Changed}
use lo_netfw.Scheduler.Io.Defs.{Event, read, write}
use lo_netfw.Net.Socket.{
  Socket, System, timeo, timeval, timeout_of, timeval_of, set_send_timeout, set_recv_timeout,
  get_send_timeout, get_recv_timeout,
}

-- The system keeps the table of hook/fd.cpp, and its setsockopt is the hook's.
pub record IsHooked {S : Type 0} (sys : System S) (fds : S → FdManager) : Type 0 where
  pub finds : (n : ℕ) (w : S) → sys.get_fd (some n) w ≡ lookup (fds w) n
  pub changes :
      (n : ℕ) (o : Opt) (sec usec : ℕ) (w : S)
      → fds (sys.setsockopt (some n) (timeo o) (timeval (pos sec) (pos usec)) w).1
        ≡ setsockopt true n o sec usec (fds w)

in_ms : (t : ℕ) → t / 1000 * 1000 + t % 1000 * 1000 / 1000 ≡ t
in_ms t = omega arith

-- setRecvTimeout and getRecvTimeout for READ, setSendTimeout and getSendTimeout for WRITE.
module _ {S : Type 0} (sys : System S) where
  abbrev pub set_for : Event → ℤ → Socket → S → S
  set_for read t s w = set_recv_timeout sys t s w
  set_for write t s w = set_send_timeout sys t s w

  abbrev pub get_for : Event → Socket → S → ℤ
  get_for read s w = get_recv_timeout sys s w
  get_for write s w = get_send_timeout sys s w

abbrev opt_for : Event → Opt
opt_for read = rcvtimeo
opt_for write = sndtimeo

module _ {S : Type 0} (sys : System S) (fds : S → FdManager) (hooked : IsHooked sys fds) (n : ℕ)
    (f : Fd) (s : Socket) (has_fd : s.sockfd ≡ some n) where
  get_for-lookup :
      (e : Event) (w : S) (g : Fd)
      → lookup (fds w) n ≡ some g
      → get_for sys e s w ≡ get_timeout (some e) g
  unfolding get_recv_timeout get_send_timeout
  get_for-lookup read w g at =
      ap (λ o. timeout_of read (sys.get_fd o w)) has_fd
      ∙ ap (timeout_of read) (hooked.finds n w ∙ at)
  get_for-lookup write w g at =
      ap (λ o. timeout_of write (sys.get_fd o w)) has_fd
      ∙ ap (timeout_of write) (hooked.finds n w ∙ at)

  set_for-fds :
      (e : Event) (t : ℕ) (w : S)
      → fds (set_for sys e (pos t) s w)
        ≡ setsockopt true n (opt_for e) (t / 1000) (t % 1000 * 1000) (fds w)
  unfolding set_recv_timeout set_send_timeout
  set_for-fds read t w =
      ap (λ o. fds (sys.setsockopt o (timeo rcvtimeo) (timeval_of (pos t)) w).1) has_fd
      ∙ hooked.changes n rcvtimeo (t / 1000) (t % 1000 * 1000) w
  set_for-fds write t w =
      ap (λ o. fds (sys.setsockopt o (timeo sndtimeo) (timeval_of (pos t)) w).1) has_fd
      ∙ hooked.changes n sndtimeo (t / 1000) (t % 1000 * 1000) w

  kind_of : (e : Event) → timeout_event (opt_for e) ≡ some e
  kind_of read = refl
  kind_of write = refl

  -- Where setsockopt and the table of descriptors are the hooked ones and the table knows the
  -- descriptor: a timeout of t milliseconds that setSendTimeout or setRecvTimeout sets is what
  -- getSendTimeout or getRecvTimeout gives, the timeout of the other direction stays as it was,
  -- and so does every other descriptor of the table.
  pub get_for-set_for :
      (e other : Event) (t q : ℕ) (w : S)
      → lookup (fds w) n ≡ some f
      → e ≢ other
      → q ≢ n
      → let w' = set_for sys e (pos t) s w in
        (get_for sys e s w' ≡ pos t)
        × (get_for sys other s w' ≡ get_for sys other s w)
        × (lookup (fds w') q ≡ lookup (fds w) q)
  get_for-set_for e other t q w at differ apart =
      let (g, c, own, rest) =
        setsockopt-Changed n (opt_for e) e other (t / 1000) (t % 1000 * 1000) (fds w) f at
          (kind_of e) differ in
      let moved = set_for-fds e t w in
      let there : lookup (fds (set_for sys e (pos t) s w)) n ≡ some g =
        ap (λ m. lookup m n) moved ∙ c.there in
      (
        get_for-lookup e _ g there ∙ own ∙ ap pos (in_ms t),
        get_for-lookup other _ g there ∙ rest ∙ sym (get_for-lookup other w f at),
        ap (λ m. lookup m q) moved ∙ c.others q apart,
      )
