-- ===== src/Mdns/Timed/Deadline.antt =====
-- When the timed loops end.
use lft.Base.{
  ℕ, ◌+◌, ◌-◌, ◌≤◌, ◌<◌, Bool, true, not, ◌||◌, List, [], ◌∷◌, ◌≡◌, arith, if_cases, All,
}
use lft.Mdns.{Pump, processed, gave_up}
use lft.Mdns.Timed.{ms_until, is_positive, Poll, select_time, pump, timed_loop}

-- No pass spends more than `gap` before `pump` and `taken` in a callback.
abbrev pub IsSwift : {R : Type 0} → ℕ → ℕ → Poll R → Type 0
IsSwift gap taken p = (p.gap ≤ gap) × (p.taken ≤ taken)

select_time-ms_until :
    (now deadline : ℕ) → now + select_time (ms_until now deadline) ≤ now + (deadline - now)
unfolding ms_until
select_time-ms_until now deadline = ground arith

pump-time :
    {R : Type 0} (has_socket : Bool) (timeout : ℕ) (p : Poll R)
    → (pump has_socket timeout p).1 ≤ select_time timeout + p.taken
unfolding pump
pump-time has_socket timeout p = ground arith

positive_before : (now deadline : ℕ) → is_positive (ms_until now deadline) ≡ true → now < deadline
unfolding ms_until
positive_before now deadline h = ground arith

module _ {S R : Type 0} (stops : S → Bool) (handle : R → S → S) (has_socket : Bool)
    (deadline gap taken : ℕ) where
  abbrev pub InTime : S × ℕ → Type 0
  InTime r = r.1 ≤ deadline + gap + taken

  result-InTime :
      (r : Pump R) (s : S) (now : ℕ) (polls : List (Poll R))
      → now ≤ deadline + gap + taken
      → ((t : S) → InTime (timed_loop has_socket deadline stops handle now t polls))
      → let later : S × ℕ = elim r [
        | gave_up ↦ (s, now)
        | processed reply ↦ timed_loop has_socket deadline stops handle now (handle reply s) polls
      ] in
        InTime later
  result-InTime gave_up s now polls h more = h
  result-InTime (processed reply) s now polls h more = more (handle reply s)

  -- The loop ends by its deadline, but for what one pass takes.
  pub timed_loop-InTime :
      (polls : List (Poll R)) (now : ℕ) (s : S)
      → All (IsSwift gap taken) polls
      → now ≤ deadline + gap + taken
      → InTime (timed_loop has_socket deadline stops handle now s polls)
  unfolding timed_loop
  timed_loop-InTime [] now s swift h =
      if_cases InTime (stops s || not (is_positive (ms_until now deadline))) (λ e. h)
        (λ e.
          let early = positive_before now deadline (ground arith) in
          let wait = select_time-ms_until now deadline in ground (arith, early, wait))
  timed_loop-InTime (p ∷ polls) now s ((before, slow), swift) h =
      let start = now + p.gap in
      let (result, spent) = pump has_socket (ms_until start deadline) p in
      if_cases InTime (stops s || not (is_positive (ms_until now deadline))) (λ e. h)
        (λ e.
          let early = positive_before now deadline (ground arith) in
          let wait = select_time-ms_until start deadline in
          let time = pump-time has_socket (ms_until start deadline) p in
          let next : start + spent ≤ deadline + gap + taken =
            omega (arith, early, wait, time, before, slow) in
          result-InTime result s (start + spent) polls next
            (λ t. timed_loop-InTime polls (start + spent) t swift next))
