-- ===== src/Mdns/Timed/Refine.antt =====
-- The timed loops against the cut lists of pumps.
use lft.Base.{
  ℕ, ◌+◌, ◌≤◌, Bool, true, false, not, ◌||◌, List, [], ◌∷◌, Option, none, some, ◌≡◌, refl, sym, ap,
  ◌∙◌, arith, Bytes, is_some, if◌then◌else◌, if_both, All, Bool-cases, Option-cases, inl, inr,
}
use lft.Mdns.{
  FoundService, BrowseReply, on_browse, find_service, ResolveReply, ResolveContext, on_resolve,
  Pump, processed, gave_up, collect, search_from, resolve_loop,
}
use lft.Mdns.Timed.{
  ms_until, is_positive, Poll, pump, timed_loop, timed_browse, look, timed_find, timed_resolve,
}
use lft.Mdns.Timed.Deadline.{IsSwift, timed_loop-InTime}

-- The pumps that happen before the time is over.
abbrev pub cut : {R : Type 0} → Bool → ℕ → ℕ → List (Poll R) → List (Pump R)
cut has_socket deadline now [] = []
cut has_socket deadline now (p ∷ polls) =
    let start = now + p.gap in
    let (result, spent) = pump has_socket (ms_until start deadline) p in
    let more = cut has_socket deadline (start + spent) polls in
    if is_positive (ms_until now deadline) then result ∷ more else []

module _ {S R : Type 0} (stops : S → Bool) (handle : R → S → S) where
  -- A loop that knows no time.
  abbrev pub pumped : S → List (Pump R) → S
  pumped s [] = s
  pumped s (gave_up ∷ pumps) = s
  pumped s (processed r ∷ pumps) =
      let later = pumped (handle r s) pumps in if stops s then s else later

  pumped-stops : (s : S) (pumps : List (Pump R)) → stops s ≡ true → pumped s pumps ≡ s
  pumped-stops s [] e = refl
  pumped-stops s (gave_up ∷ pumps) e = refl
  pumped-stops s (processed r ∷ pumps) e = rw e refl

  module _ (has_socket : Bool) (deadline : ℕ) where
    pump_result :
        (r : Pump R) (s : S) (now : ℕ) (polls : List (Poll R))
        → stops s ≡ false
        → ((t : S)
            → (timed_loop has_socket deadline stops handle now t polls).0
              ≡ pumped t (cut has_socket deadline now polls))
        → (let later : S × ℕ = elim r [
          | gave_up ↦ (s, now)
          | processed reply ↦ timed_loop has_socket deadline stops handle now (handle reply s) polls
        ] in
            later).0
          ≡ pumped s (r ∷ cut has_socket deadline now polls)
    pump_result gave_up s now polls e h = refl
    pump_result (processed reply) s now polls e h = rw e (h (handle reply s))

    timed_loop-pumped :
        (polls : List (Poll R)) (now : ℕ) (s : S)
        → (timed_loop has_socket deadline stops handle now s polls).0
          ≡ pumped s (cut has_socket deadline now polls)
    unfolding timed_loop
    timed_loop-pumped [] now s =
        if_both (λ (r : S × ℕ). r.0 ≡ s) (stops s || not (is_positive (ms_until now deadline))) refl
          refl
    timed_loop-pumped (p ∷ polls) now s =
        let start = now + p.gap in
        let (result, spent) = pump has_socket (ms_until start deadline) p in
        let more = cut has_socket deadline (start + spent) polls in
        elim (Bool-cases (stops s)) [
          | inl e ↦ rw e (
              sym (
                pumped-stops s (if is_positive (ms_until now deadline) then result ∷ more else [])
                  e))
          | inr e ↦ elim (Bool-cases (is_positive (ms_until now deadline))) [
            | inl f ↦
                rw (e, f)
                  (pump_result result s (start + spent) polls e
                    (timed_loop-pumped polls (start + spent)))
            | inr f ↦ rw (e, f) refl
          ]
        ]

pumped-collect :
    (items : List FoundService) (pumps : List (Pump BrowseReply))
    → pumped (λ s. false) on_browse items pumps ≡ collect items pumps
unfolding collect
pumped-collect items [] = refl
pumped-collect items (gave_up ∷ pumps) = refl
pumped-collect items (processed r ∷ pumps) = pumped-collect (on_browse r items) pumps

pumped-resolve_loop :
    (ctx : ResolveContext) (pumps : List (Pump ResolveReply))
    → pumped (λ c. c.done) on_resolve ctx pumps ≡ resolve_loop ctx pumps
unfolding resolve_loop
pumped-resolve_loop ctx [] = refl
pumped-resolve_loop ctx (gave_up ∷ pumps) = refl
pumped-resolve_loop ctx (processed r ∷ pumps) =
    ap (λ later. if ctx.done then ctx else later) (pumped-resolve_loop (on_resolve r ctx) pumps)

abbrev has_match : List FoundService × Option FoundService → Bool
has_match s = is_some s.1

pumped-search_from :
    (name : Bytes) (items : List FoundService) (pumps : List (Pump BrowseReply))
    → (pumped has_match (look name) (items, none) pumps).1 ≡ search_from name items pumps
unfolding search_from
pumped-search_from name items [] = refl
pumped-search_from name items (gave_up ∷ pumps) = refl
pumped-search_from name items (processed r ∷ pumps) =
    elim (Option-cases (find_service name (on_browse r items))) [
      | inl e ↦ rw (search_from, e) (pumped-search_from name (on_browse r items) pumps)
      | inr (s, e) ↦
          rw (search_from, e)
            (ap (λ (t : List FoundService × Option FoundService). t.1)
              (pumped-stops has_match (look name) (on_browse r items, some s) pumps refl))
    ]

-- What the timed loops do, by the loops over the pumps that happen in time.
pub record IsRefined (has_socket : Bool) (deadline now gap taken : ℕ)
    (polls : List (Poll BrowseReply)) (replies : List (Poll ResolveReply)) : Type 0 where
  pub browses :
      (items : List FoundService)
      → let r = timed_browse has_socket deadline now items polls in
        (r.0 ≡ collect items (cut has_socket deadline now polls)) × (r.1 ≤ deadline + gap + taken)
  pub finds :
      (name : Bytes) (items : List FoundService)
      → let r = timed_find name has_socket deadline now items polls in
        (r.0.1 ≡ search_from name items (cut has_socket deadline now polls))
        × (r.1 ≤ deadline + gap + taken)
  pub resolves :
      (ctx : ResolveContext)
      → let r = timed_resolve has_socket deadline now ctx replies in
        (r.0 ≡ resolve_loop ctx (cut has_socket deadline now replies))
        × (r.1 ≤ deadline + gap + taken)

-- Against the clock, whenever the socket has data and whatever it is: the loops of `browse`,
-- `find_by_name` and `resolve_service` end as the loops over the pumps that happen in time do, and
-- they end by their deadline but for what one pass spends outside of `select`, where every pass
-- spends at most `gap` before `pump` and `taken` in a callback.
pub timed-IsRefined :
    (has_socket : Bool) (deadline now gap taken : ℕ) (polls : List (Poll BrowseReply))
    (replies : List (Poll ResolveReply))
    → now ≤ deadline
    → All (IsSwift gap taken) polls
    → All (IsSwift gap taken) replies
    → IsRefined has_socket deadline now gap taken polls replies
unfolding timed_browse timed_find timed_resolve
timed-IsRefined has_socket deadline now gap taken polls replies early swift swift_replies = record {
  browses = λ items. (
    timed_loop-pumped (λ s. false) on_browse has_socket deadline polls now items
        ∙ pumped-collect items _,
    timed_loop-InTime (λ s. false) on_browse has_socket deadline gap taken polls now items swift
        (omega arith),
  );
  finds = λ name items. (
    ap (λ (t : List FoundService × Option FoundService). t.1)
          (timed_loop-pumped has_match (look name) has_socket deadline polls now (items, none))
        ∙ pumped-search_from name items _,
    timed_loop-InTime has_match (look name) has_socket deadline gap taken polls now (items, none)
        swift (omega arith),
  );
  resolves = λ ctx. (
    timed_loop-pumped (λ c. c.done) on_resolve has_socket deadline replies now ctx
        ∙ pumped-resolve_loop ctx _,
    timed_loop-InTime (λ c. c.done) on_resolve has_socket deadline gap taken replies now ctx
        swift_replies (omega arith),
  );
}
