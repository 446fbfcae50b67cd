-- ===== src/Daemon/Manager/Waiting.antt =====
-- pkg/daemon/winsvc: the wait for a state that a service is about to reach.
use windows_machine_config_o.Common.{
  ℕ, zero, suc, ◌≤◌, String, ◌≡◌, ◌≢◌, refl, ap, inl, inr, Bool, true, false, Option, none, some,
  ok, arith, Option-cases,
}
use windows_machine_config_o.Daemon.Manager.{
  WindowsApi, ServiceError, ServiceState, Status, same_state, is_in_state, poll_immediate,
  wait_for_state, polls, query_error,
}

module _ (w : WindowsApi) where
  -- The state after some intervals between polls.
  abbrev pub after : ℕ → w.State → w.State
  after zero s = s
  after (suc n) s = after n (w.sleep s)

  same_state_refl : (state : ServiceState) → same_state state state ≡ true
  same_state_refl state = ground arith

  unread_query :
      (name : String) (state : ServiceState) (s : w.State)
      → is_in_state w name state s ≡ none
      → w.query name s ≡ none
  unread_query name state s unread = elim (Option-cases (w.query name s)) [
    | inl h ↦ h
    | inr (status, h) ↦ absurd (ground (arith, rw h at unread))
  ]

  poll_immediate_reaches :
      (e : ServiceError) (condition : w.State → Option Bool) (n k : ℕ) (s : w.State)
      → k ≤ n
      → ((j : ℕ) → j ≤ k → condition (after j s) ≢ none)
      → condition (after k s) ≡ some true
      → (poll_immediate w.sleep e condition n s).1 ≡ ok tt
  unfolding poll_immediate
  poll_immediate_reaches e condition zero zero s within readable reached =
      rw (reached, poll_immediate) refl
  poll_immediate_reaches e condition zero (suc k) s within readable reached = absurd (omega arith)
  poll_immediate_reaches e condition (suc n) zero s within readable reached =
      rw (reached, poll_immediate) refl
  poll_immediate_reaches e condition (suc n) (suc k) s within readable reached =
      elim (Option-cases (condition s)) [
        | inl h ↦ absurd (readable 0 (omega arith) h)
        | inr (true, h) ↦ rw (h, poll_immediate) refl
        | inr (false, h) ↦
            rw (h, poll_immediate)
              (poll_immediate_reaches e condition n k (w.sleep s) (omega arith)
                (λ j le. readable (suc j) (omega arith)) reached)
      ]

  -- If a service can be queried at each poll, and reaches the state within as many intervals as there are
  -- polls, then the wait for the state reports no error.
  pub wait_for_state_reaches :
      (name : String) (state : ServiceState) (k : ℕ) (s : w.State) (status : Status)
      → k ≤ polls
      → ((j : ℕ) → j ≤ k → w.query name (after j s) ≢ none)
      → w.query name (after k s) ≡ some status
      → status.state ≡ state
      → (wait_for_state w name state s).1 ≡ ok tt
  unfolding wait_for_state
  wait_for_state_reaches name state k s status within readable found reached =
      poll_immediate_reaches query_error (is_in_state w name state) polls k s within
        (λ j le unread. readable j le (unread_query name state (after j s) unread))
        (rw found (rw reached (ap some (same_state_refl state))))
