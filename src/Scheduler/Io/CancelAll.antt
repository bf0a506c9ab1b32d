-- ===== src/Scheduler/Io/CancelAll.antt =====
-- IOScheduler::cancelAll.
use lo_netfw.Base.{
  ℕ, ◌≡◌, ap, ◌∙◌, true, false, not, ◌||◌, some, get_elem?, if_true, if_false, Bool-cases,
  Option-cases, inl, inr,
}
use lo_netfw.Scheduler.Io.Defs.{
  read, write, no_events, is_any, FdContext, IoScheduler, ok, EpollCtl, ctl_del, from_context,
}
use lo_netfw.Scheduler.Io.Handle.{trigger_if, none_left, cancel_rest, cancel_all_at, cancel_all}
use lo_netfw.Scheduler.Io.Contexts.{IsValid}
use mathlib.Core.Path.{ap₂}
use lo_netfw.Scheduler.Io.Invariant.{trigger_at-Fires, Returns, unchanged}

-- After cancelAll the context of `fd` has no event.
abbrev pub Cleared : ℕ → IoScheduler → Type 0
Cleared fd t = (ctx : FdContext) × (get_elem? t.contexts fd ≡ some ctx) × (is_any ctx.event ≡ false)

-- The end of cancelAll, where the context has no READ any more.
cancel_rest-Cleared :
    (s : IoScheduler) (fd : ℕ) (ctx : FdContext)
    → IsValid s
    → get_elem? s.contexts fd ≡ some ctx
    → ctx.event.reads ≡ false
    → (t : IoScheduler) × (cancel_rest fd ctx s ≡ ok true t) × IsValid t × Cleared fd t
unfolding trigger_if
cancel_rest-Cleared s fd ctx v e no_read = elim (Bool-cases ctx.event.writes) [
  | inr off ↦
      let gone : is_any ctx.event ≡ false = ap₂ (λ a b. a || b) no_read off in
      (
        s,
        ap (λ b. trigger_if b fd write ctx s none_left) off ∙ if_false _ _ _ gone,
        v,
        (ctx, e, gone),
      )
  | inl on ↦
      let (ctx', t, r, w, at, left, _, _, _) = trigger_at-Fires s v fd ctx write none_left e on in
      let gone : is_any ctx'.event ≡ false = ap is_any left ∙ ap (λ b. b || false) no_read in
      (
        t,
        ap (λ b. trigger_if b fd write ctx s none_left) on ∙ r ∙ if_false _ _ _ gone,
        w,
        (ctx', at, gone),
      )
]

-- In a valid io scheduler, cancelAll returns, at no failed assertion, and the io scheduler stays
-- valid; when it gives true the context of the descriptor has no event left, when it gives false
-- nothing has changed.
pub cancel_all-Returns :
    (epoll_ctl : EpollCtl) (fd : ℕ) (s : IoScheduler)
    → IsValid s
    → Returns s (Cleared fd) (cancel_all epoll_ctl fd s)
unfolding cancel_all
cancel_all-Returns epoll_ctl fd s v = elim (Option-cases (get_elem? s.contexts fd)) [
  | inl e ↦ unchanged s _ _ v (ap (from_context (cancel_all_at epoll_ctl fd) s) e)
  | inr (ctx, e) ↦
      let enter : cancel_all epoll_ctl fd s ≡ cancel_all_at epoll_ctl fd ctx s =
        ap (from_context (cancel_all_at epoll_ctl fd) s) e in
      elim (Bool-cases (is_any ctx.event)) [
        | inr off ↦ unchanged s _ _ v (enter ∙ if_true _ _ _ (ap not off))
        | inl on ↦ elim (Bool-cases (epoll_ctl ctl_del fd no_events)) [
          | inr refused ↦
              unchanged s _ _ v
                (enter ∙ if_false _ _ _ (ap not on) ∙ if_true _ _ _ (ap not refused))
          | inl accepted ↦
              let (t, r, w, c) = go ctx e in
              (
                true,
                t,
                enter ∙ if_false _ _ _ (ap not on) ∙ if_false _ _ _ (ap not accepted) ∙ r,
                w,
                λ f. absurd (cc (f)),
                λ _. c,
              )
        ]
      ]
]
  where
    go :
        (ctx : FdContext)
        → get_elem? s.contexts fd ≡ some ctx
        → (t : IoScheduler) × (trigger_if ctx.event.reads fd read ctx s (cancel_rest fd)
            ≡ ok true t)
          × IsValid t
          × Cleared fd t
    go ctx e = elim (Bool-cases ctx.event.reads) [
      | inr off ↦
          let (t, r, w, c) = cancel_rest-Cleared s fd ctx v e off in
          (t, ap (λ b. trigger_if b fd read ctx s (cancel_rest fd)) off ∙ r, w, c)
      | inl on ↦
          let (ctx', t, r, w, at, left, _, _, _) =
            trigger_at-Fires s v fd ctx read (cancel_rest fd) e on in
          let (u, q, x, c) = cancel_rest-Cleared t fd ctx' w at (ap (λ a. a.reads) left) in
          (u, ap (λ b. trigger_if b fd read ctx s (cancel_rest fd)) on ∙ r ∙ q, x, c)
    ]
