-- ===== src/Hook/Calls/Nonblock.antt =====
-- O_NONBLOCK as the caller of fcntl and ioctl sees it and as the system has it, and the timeouts that
-- setsockopt sets.
use lo_netfw.Base.{
  ℕ, zero, suc, ◌+◌, ◌*◌, ◌/◌, ◌%◌, ◌^◌, ◌<◌, ◌↔◌, ◌≡◌, ◌≢◌, refl, sym, ap, ◌∙◌, arith, Bool, true,
  false, not, ◌||◌, List, [], ◌∷◌, Option, some, length, get_elem?, if_true, if_false,
  if◌then◌else◌, ==_iff,
}
use lo_netfw.Base.Int.{ℤ, pos}
use lo_netfw.Hook.Fd.{
  Fd, FdManager, flat, lookup, is_close, set_timeout, get_timeout, set_user_nonblock,
}
use lo_netfw.Hook.Fd.Table.{set_same, set_other}
use lo_netfw.Hook.Io.{Hooked, Step, Waiter, Result, direct, io_loop, io_on, io}
use lo_netfw.Hook.Io.Answer.{Explains, io_loop-Explains}
use lo_netfw.Hook.Calls.{
  put_fd, Flags, flags, System, Called, is_plain, setfl_as, setfl_on, fcntl_setfl, shown, getfl_on,
  fcntl_getfl, fionbio_as, fionbio_on, ioctl_fionbio, Opt, timeout_event, set_timeout_on,
  setsockopt, sleep, sleep_ms,
}
use lo_netfw.Scheduler.Io.Defs.{Event, read, write}
use lo_netfw.Scheduler.Timer.Defs.{Manager, Timer, update, add_timer, insert_timer}
use mathlib.Core.Path.{subst}

-- The table after a change of one object.
pub record Changed (n : ℕ) (f : Fd) (m t : FdManager) : Type 0 where
  pub there : lookup t n ≡ some f
  pub others : (q : ℕ) → q ≢ n → lookup t q ≡ lookup m q

in_range : (fs : List (Option Fd)) (n : ℕ) (f : Fd) → flat (get_elem? fs n) ≡ some f → n < length fs
in_range [] n f e = absurd (cc e)
in_range (o ∷ fs) zero f e = omega arith
in_range (o ∷ fs) (suc n) f e = omega (arith, in_range fs n f e)

put_fd-Changed :
    (n : ℕ) (f g : Fd) (m : FdManager) → lookup m n ≡ some g → Changed n f m (put_fd n f m)
put_fd-Changed n f g m e = record {
  there = set_same m.fds n (some f) (in_range m.fds n g e);
  others = λ q h. set_other m.fds n q (some f) h;
}

-- What the system does with the flags, as its manual has it: where F_SETFL gives 0 the flags have the
-- bit O_NONBLOCK as it was set, and likewise FIONBIO.
pub record Documented {S : Type 0} (sys : System S) : Type 0 where
  pub set_get :
      (n : ℕ) (arg : Flags) (s : S)
      → (sys.setfl n arg s).0 ≡ pos 0
      → (g : Flags) × (sys.getfl n (sys.setfl n arg s).1 ≡ some g) × (g.nonblock ≡ arg.nonblock)
  pub fionbio_get :
      (n : ℕ) (b : Bool) (s : S)
      → (sys.fionbio n b s).0 ≡ pos 0
      → (g : Flags) × (sys.getfl n (sys.fionbio n b s).1 ≡ some g) × (g.nonblock ≡ b)

module _ {S : Type 0} (sys : System S) (manual : Documented sys) (n : ℕ) (fds : FdManager) (s : S)
    (f : Fd) (at : lookup fds n ≡ some f) (hooked : is_plain (some f) ≡ false) where
  -- The flags that the caller and the system have after a call.
  pub record Set (user : Bool) (system : Bool) (r : Called S ℤ) : Type 0 where
    pub changed : Changed n (set_user_nonblock user f) fds r.fds
    pub seen : (g : Flags) × (fcntl_getfl sys n r.fds r.system ≡ flags g) × (g.nonblock ≡ user)
    pub real : (g : Flags) × (sys.getfl n r.system ≡ some g) × (g.nonblock ≡ system)

  seen_flags :
      (user : Bool) (t : FdManager) (s' : S) (g : Flags)
      → lookup t n ≡ some (set_user_nonblock user f)
      → sys.getfl n s' ≡ some g
      → fcntl_getfl sys n t s' ≡ flags (record g { nonblock = user })
  unfolding fcntl_getfl set_user_nonblock is_close
  seen_flags user t s' g here e =
      ap (getfl_on sys (sys.getfl n s')) here ∙ if_false _ _ _ hooked ∙ ap (shown sys user) e

  made-Set :
      (user system : Bool) (answer : ℤ) (s' : S)
      → (g : Flags) × (sys.getfl n s' ≡ some g) × (g.nonblock ≡ system)
      → Set user system
          (record { answer = answer; fds = put_fd n (set_user_nonblock user f) fds; system = s' })
  made-Set user system answer s' (g, e, same) =
      let t : Changed n (set_user_nonblock user f) fds (put_fd n (set_user_nonblock user f) fds) =
        put_fd-Changed n (set_user_nonblock user f) f fds at in
      record {
        changed = t;
        seen = (record g { nonblock = user }, seen_flags user _ s' g t.there e, refl);
        real = (g, e, same);
      }

  -- For an open socket with an object, and a system that keeps O_NONBLOCK as F_SETFL set it, when
  -- fcntl with F_SETFL gives 0 a later F_GETFL shows O_NONBLOCK as the caller set it, the system
  -- has it as the object says the system needs it, the object remembers what the caller set, and
  -- the other descriptors keep their objects.
  pub fcntl_setfl-Set :
      (arg : Flags)
      → (fcntl_setfl sys n arg fds s).answer ≡ pos 0
      → Set arg.nonblock f.is_sys_nonblock (fcntl_setfl sys n arg fds s)
  unfolding fcntl_setfl
  fcntl_setfl-Set arg fine =
      let arg' : Flags = record arg { nonblock = f.is_sys_nonblock } in
      let fds' : FdManager = put_fd n (set_user_nonblock arg.nonblock f) fds in
      let e : fcntl_setfl sys n arg fds s ≡ setfl_as sys n arg' fds' s =
        ap (setfl_on sys n arg fds s) at ∙ if_false _ _ _ hooked in
      subst (Set arg.nonblock f.is_sys_nonblock) (sym e) (
        made-Set arg.nonblock f.is_sys_nonblock _ _
          (manual.set_get n arg' s (sym (ap (λ (r : Called S ℤ). r.answer) e) ∙ fine)))

  -- For an open socket with an object, and a system that sets O_NONBLOCK as FIONBIO says, when
  -- ioctl with FIONBIO gives 0 not only F_GETFL shows what the caller set, but the system has it
  -- too, whatever the object says that the system needs.
  ioctl_fionbio-Set :
      (arg : Bool)
      → (ioctl_fionbio sys n arg fds s).answer ≡ pos 0
      → Set arg arg (ioctl_fionbio sys n arg fds s)
  unfolding ioctl_fionbio
  ioctl_fionbio-Set arg fine =
      let fds' : FdManager = put_fd n (set_user_nonblock arg f) fds in
      let e : ioctl_fionbio sys n arg fds s ≡ fionbio_as sys n arg fds' s =
        ap (fionbio_on sys n arg fds s) at ∙ if_false _ _ _ hooked in
      subst (Set arg arg) (sym e) (
        made-Set arg arg _ _
          (manual.fionbio_get n arg s (sym (ap (λ (r : Called S ℤ). r.answer) e) ∙ fine)))

timeout_got :
    (event other : Event) (t : ℤ) (f : Fd)
    → event ≢ other
    → (get_timeout (some event) (set_timeout (some event) t f) ≡ t)
      × (get_timeout (some other) (set_timeout (some event) t f) ≡ get_timeout (some other) f)
unfolding set_timeout get_timeout
timeout_got read read t f differ = absurd (differ refl)
timeout_got read write t f differ = (refl, refl)
timeout_got write read t f differ = (refl, refl)
timeout_got write write t f differ = absurd (differ refl)

-- Setsockopt with SO_RCVTIMEO or SO_SNDTIMEO, hooks enabled, sets the timeout that io reads for
-- that event to the time in milliseconds, keeps the timeout for the other event and the objects of
-- the other descriptors.
pub setsockopt-Changed :
    (n : ℕ) (opt : Opt) (event other : Event) (sec usec : ℕ) (fds : FdManager) (f : Fd)
    → lookup fds n ≡ some f
    → timeout_event opt ≡ some event
    → event ≢ other
    → (g : Fd) × Changed n g fds (setsockopt true n opt sec usec fds)
      × (get_timeout (some event) g ≡ pos (sec * 1000 + usec / 1000))
      × (get_timeout (some other) g ≡ get_timeout (some other) f)
unfolding setsockopt
setsockopt-Changed n opt event other sec usec fds f at kind differ =
    let t : ℤ = pos (sec * 1000 + usec / 1000) in
    let g : Fd = set_timeout (some event) t f in
    let done : set_timeout_on n (timeout_event opt) t fds (lookup fds n) ≡ put_fd n g fds =
      ap (λ k. set_timeout_on n k t fds (lookup fds n)) kind
      ∙ ap (set_timeout_on n (some event) t fds) at in
    let (own, rest) = timeout_got event other t f differ in
    (g, subst (Changed n g fds) (sym done) (put_fd-Changed n g f fds at), own, rest)

neither : (a b : Bool) → (a || b) ≡ false → (a ≡ false) × (b ≡ false)
neither true b h = absurd (cc h)
neither false b h = (refl, h)

-- io on a hooked socket whose caller has set O_NONBLOCK or not.
io-nonblock :
    (c : Waiter) (steps : List Step) (w : Hooked) (f : Fd) (user : Bool)
    → is_plain (some f) ≡ false
    → lookup w.fds c.fd ≡ some (set_user_nonblock user f)
    → io true c steps w
      ≡ (if user then direct steps w else io_loop c (get_timeout (some c.event) f) steps w)
unfolding io set_user_nonblock is_close get_timeout
io-nonblock c steps w f user hooked at =
    let (socket, opened) = neither (not f.is_socket) f.is_closed hooked in
    let timeout : ℤ = get_timeout (some c.event) (set_user_nonblock user f) in
    ap (io_on c steps w) at
    ∙ if_false _ _ _ opened
    ∙ ap (λ b. if b || user then direct steps w else io_loop c timeout steps w) socket
    ∙ ap (λ t. if user then direct steps w else io_loop c t steps w) (same_timeout c.event)
  where
    same_timeout :
        (e : Event) → get_timeout (some e) (set_user_nonblock user f) ≡ get_timeout (some e) f
    same_timeout read = refl
    same_timeout write = refl

-- The time of a timer of `x` milliseconds that are cut to 32 bits.
cut_time : (now x : ℕ) → now + x < 2 ^ 64 → ((now + x % 2 ^ 32) % 2 ^ 64 ≡ now + x) ↔ (x < 2 ^ 32)
cut_time now x small = (λ e. omega (arith, e), λ h. omega (arith, h))

update_same : (heap : ℕ → Timer) (p : ℕ) (t : Timer) → update heap p t p ≡ t
update_same heap p t = if_true _ _ _ ((==_iff p p).1 refl)

-- Where the clock does not overflow, the timer of sleep is for the time the caller asked for
-- exactly when the milliseconds fit into 32 bits.
pub sleep_exact :
    (now p seconds resume : ℕ) (m : Manager)
    → now + seconds * 1000 < 2 ^ 64
    → (((sleep now p seconds resume m).heap p).next ≡ now + seconds * 1000)
      ↔ (seconds * 1000 < 2 ^ 32)
unfolding sleep add_timer insert_timer
sleep_exact now p seconds resume m small =
    let at : ((sleep now p seconds resume m).heap p).next ≡ (now + sleep_ms seconds) % 2 ^ 64 =
      ap (λ (t : Timer). t.next) (update_same m.heap p _) in
    let (only, enough) = cut_time now (seconds * 1000) small in
    (λ e. only (sym at ∙ e), λ h. at ∙ enough h)

-- With hooks disabled io passes one call on.
io-disabled : (c : Waiter) (steps : List Step) (w : Hooked) → io false c steps w ≡ direct steps w
unfolding io
io-disabled c steps w = refl

-- What io does for a caller that has set O_NONBLOCK or not: its loop where hooks are enabled and it has
-- not, and one call otherwise.
abbrev pub Answers : Bool → Bool → Waiter → ℤ → List Step → Hooked → Result → Type 0
Answers true false c timeout steps w r = Explains c timeout steps w r
Answers enabled user c timeout steps w r = r ≡ direct steps w

io-Answers :
    (enabled user : Bool) (c : Waiter) (steps : List Step) (w : Hooked) (f : Fd)
    → is_plain (some f) ≡ false
    → lookup w.fds c.fd ≡ some (set_user_nonblock user f)
    → Answers enabled user c (get_timeout (some c.event) f) steps w (io enabled c steps w)
io-Answers true true c steps w f hooked at = io-nonblock c steps w f true hooked at
io-Answers true false c steps w f hooked at =
    subst (Explains c (get_timeout (some c.event) f) steps w)
      (sym (io-nonblock c steps w f false hooked at))
      (io_loop-Explains c (get_timeout (some c.event) f) steps w)
io-Answers false true c steps w f hooked at = io-disabled c steps w
io-Answers false false c steps w f hooked at = io-disabled c steps w

-- After fcntl with F_SETFL gave 0 on an open socket with an object, and for a system that keeps
-- O_NONBLOCK as F_SETFL set it: where hooks are enabled and the caller has not set O_NONBLOCK, io
-- answers as its loop with the timeout of the event must, with waits behind EAGAIN; and where
-- hooks are disabled or the caller has set O_NONBLOCK, io makes one call and gives its answer.
pub io-fcntl_setfl :
    {S : Type 0} (sys : System S)
    → Documented sys
    → (enabled : Bool) (c : Waiter) (steps : List Step) (w : Hooked) (s : S) (f : Fd) (arg : Flags)
    → lookup w.fds c.fd ≡ some f
    → is_plain (some f) ≡ false
    → (fcntl_setfl sys c.fd arg w.fds s).answer ≡ pos 0
    → let w' = record w { fds = (fcntl_setfl sys c.fd arg w.fds s).fds } in
      Answers enabled arg.nonblock c (get_timeout (some c.event) f) steps w' (io enabled c steps w')
io-fcntl_setfl sys manual enabled c steps w s f arg at hooked fine =
    let r : Set sys manual c.fd w.fds s f at hooked arg.nonblock f.is_sys_nonblock
        (fcntl_setfl sys c.fd arg w.fds s) =
      fcntl_setfl-Set sys manual c.fd w.fds s f at hooked arg fine in
    io-Answers enabled arg.nonblock c steps
      (record w { fds = (fcntl_setfl sys c.fd arg w.fds s).fds }) f hooked r.changed.there
