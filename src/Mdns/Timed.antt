-- ===== src/Mdns/Timed.antt =====
-- The time of src/net/mdns.cpp: `ms_until`, `pump`, and the loops of `browse`, `find_by_name` and
-- `resolve_service` against the clock. Times are nanoseconds of the steady clock.
pub mod Deadline
pub mod Refine
use lft.Base.{
  ℕ, ◌+◌, ◌-◌, ◌*◌, ◌/◌, ◌%◌, ◌^◌, Bool, true, false, not, ◌&&◌, ◌||◌, List, [], ◌∷◌, Option, none,
  some, Bytes, ltb, leb, is_some, if◌then◌else◌,
}
use lft.Progress.{int_mod}
use lft.Mdns.{
  FoundService, BrowseReply, on_browse, find_service, ResolveReply, ResolveContext, on_resolve,
  Pump, processed, gave_up,
}

abbrev pub ns_per_ms : ℕ
ns_per_ms = 1000000

-- The `int` that `ms_until` returns, as its pattern of 32 bits.
unfoldable pub ms_until : ℕ → ℕ → ℕ
ms_until now deadline = if leb deadline now then 0 else (deadline - now) / ns_per_ms % int_mod

-- `ms > 0` at an `int`.
abbrev pub is_positive : ℕ → Bool
is_positive ms = ltb 0 ms && ltb ms (2 ^ 31)

-- What one pass of a loop meets: the time from the loop's test to that of `pump`'s timeout, the
-- time until the socket has data, the time that processing takes, whether it succeeds, and the
-- reply that it hands to the callback.
pub record Poll (R : Type 0) : Type 0 where
  pub gap : ℕ
  pub ready_after : ℕ
  pub taken : ℕ
  pub no_error : Bool
  pub reply : R

-- The `timeval` of a timeout, in nanoseconds.
abbrev pub select_time : ℕ → ℕ
select_time timeout_ms = timeout_ms / 1000 * 1000000000 + timeout_ms % 1000 * 1000 * 1000

-- `pump`, with whether there is a socket, and the time that it takes.
unfoldable pub pump : {R : Type 0} → Bool → ℕ → Poll R → Pump R × ℕ
pump has_socket timeout_ms p =
    if not has_socket
    then (gave_up, 0)
    else if leb p.ready_after (select_time timeout_ms)
    then (if p.no_error then processed p.reply else gave_up, p.ready_after + p.taken)
    else (gave_up, select_time timeout_ms)

-- A loop that pumps until its state says stop, its time is over, or `pump` gives up: the state and
-- the time at its end. Behind the last poll the socket has no more data.
module _ {S R : Type 0} (has_socket : Bool) (deadline : ℕ) (stops : S → Bool)
    (handle : R → S → S) where
  unfoldable pub timed_loop : ℕ → S → List (Poll R) → S × ℕ
  timed_loop now s [] =
      if stops s || not (is_positive (ms_until now deadline))
      then (s, now)
      else (s, now + (if has_socket then select_time (ms_until now deadline) else 0))
  timed_loop now s (p ∷ polls) =
      let start = now + p.gap in
      let (result, spent) = pump has_socket (ms_until start deadline) p in
      let later : S × ℕ = elim result [
        | gave_up ↦ (s, start + spent)
        | processed reply ↦ timed_loop (start + spent) (handle reply s) polls
      ] in
      if stops s || not (is_positive (ms_until now deadline)) then (s, now) else later

-- The loop of `browse`.
unfoldable pub timed_browse :
    Bool → ℕ → ℕ → List FoundService → List (Poll BrowseReply) → List FoundService × ℕ
unfolding timed_loop
timed_browse has_socket deadline = timed_loop has_socket deadline (λ items. false) on_browse

-- The loop of `find_by_name`, with the recorded services and the match.
abbrev pub look :
    Bytes
    → BrowseReply
    → List FoundService × Option FoundService
    → List FoundService × Option FoundService
look name r (items, found) = (on_browse r items, find_service name (on_browse r items))

unfoldable pub timed_find :
    Bytes
    → Bool
    → ℕ
    → ℕ
    → List FoundService
    → List (Poll BrowseReply)
    → (List FoundService × Option FoundService) × ℕ
unfolding timed_loop
timed_find name has_socket deadline now items polls =
    timed_loop has_socket deadline (λ s. is_some s.1) (look name) now (items, none) polls

-- The loop of `resolve_service`, which asks the clock once in each pass: its polls have no gap.
unfoldable pub timed_resolve :
    Bool → ℕ → ℕ → ResolveContext → List (Poll ResolveReply) → ResolveContext × ℕ
unfolding timed_loop
timed_resolve has_socket deadline = timed_loop has_socket deadline (λ ctx. ctx.done) on_resolve
