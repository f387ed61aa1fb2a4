-- ===== src/Mdns/Browse.antt =====
-- What browsing finds.
use lft.Base.{
  ℕ, true, false, not, ◌||◌, List, [], ◌∷◌, ◌++◌, Option, none, some, ◌≡◌, refl, sym, ap, ◌∙◌,
  arith, Bytes, equal, equal_iff, equal_comm, All, is_some, ◌⊎◌, subst, Option-cases, Bool-cases,
  inl, inr, if_both, if_cases, AllSome,
}
use lft.Mdns.{
  FoundService, BrowseReply, Pump, processed, gave_up, is_name, is_recorded, on_browse, collect,
  find_service, search_from, resolve_loop, resolve_service, resolve_all, consider, browse,
  browse_from, resolve_from, resolve_match, find_from, find_by_name, MdnsEnv, PeerInfo,
  ResolveReply, with_host, new_context, resolve_hostname_ipv4,
}

-- No name is recorded twice.
abbrev pub IsDistinct : List FoundService → Type 0
IsDistinct [] = Unit
IsDistinct (s ∷ items) = (is_recorded (some s.name) items ≡ false) × IsDistinct items

find-head :
    (name : Bytes) (t : FoundService) (items : List FoundService)
    → equal t.name name ≡ true
    → find_service name (t ∷ items) ≡ some t
unfolding find_service
find-head name t items e = rw e refl

-- A service that is found stays the one that is found.
find-append :
    (name : Bytes) (items more : List FoundService) (s : FoundService)
    → find_service name items ≡ some s
    → find_service name (items ++ more) ≡ some s
unfolding find_service
find-append name [] more s h = absurd (ground arith)
find-append name (t ∷ items) more s h = elim (Bool-cases (equal t.name name)) [
  | inl e ↦ rw e (sym (find-head name t items e) ∙ h)
  | inr e ↦ rw e (find-append name items more s (ground arith))
]

find-on_browse :
    (name : Bytes) (r : BrowseReply) (items : List FoundService) (s : FoundService)
    → find_service name items ≡ some s
    → find_service name (on_browse r items) ≡ some s
unfolding on_browse
find-on_browse name r items s h =
    let P : List FoundService → Type 0 = λ t. find_service name t ≡ some s in
    if_both P (not r.no_error || not r.added) h
      (if_both P (is_recorded r.name items) h (find-append name items _ s h))

find-collect :
    (name : Bytes) (items : List FoundService) (pumps : List (Pump BrowseReply)) (s : FoundService)
    → find_service name items ≡ some s
    → find_service name (collect items pumps) ≡ some s
unfolding collect
find-collect name items [] s h = h
find-collect name items (gave_up ∷ pumps) s h = h
find-collect name items (processed r ∷ pumps) s h =
    find-collect name (on_browse r items) pumps s (find-on_browse name r items s h)

search_from-collect :
    (name : Bytes) (items : List FoundService) (pumps : List (Pump BrowseReply))
    → find_service name items ≡ none
    → search_from name items pumps ≡ find_service name (collect items pumps)
unfolding search_from collect
search_from-collect name items [] h = sym h
search_from-collect name items (gave_up ∷ pumps) h = sym h
search_from-collect name items (processed r ∷ pumps) h =
    elim (Option-cases (find_service name (on_browse r items))) [
      | inl e ↦ rw (search_from, e) (search_from-collect name (on_browse r items) pumps e)
      | inr (s, e) ↦ rw (search_from, e) (sym (find-collect name (on_browse r items) pumps s e))
    ]

-- Over the same results of DNS-SD, searching for a name finds the service that browsing to the end
-- records first under that name, or none if browsing records none.
pub search-collect :
    (name : Bytes) (pumps : List (Pump BrowseReply))
    → search_from name [] pumps ≡ find_service name (collect [] pumps)
unfolding find_service
search-collect name pumps = search_from-collect name [] pumps refl

is_recorded-append :
    (name : Option Bytes) (items : List FoundService) (s : FoundService)
    → is_recorded name (items ++ s ∷ []) ≡ (is_recorded name items || is_name name s.name)
unfolding is_recorded
is_recorded-append name [] s = ground arith
is_recorded-append name (t ∷ items) s = ground (arith, is_recorded-append name items s)

append-IsDistinct :
    (items : List FoundService) (s : FoundService)
    → IsDistinct items
    → is_recorded (some s.name) items ≡ false
    → IsDistinct (items ++ s ∷ [])
unfolding is_recorded
append-IsDistinct [] s d h = (refl, tt)
append-IsDistinct (t ∷ items) s d h = (
  ground (arith, is_recorded-append (some t.name) items s, d.0, equal_comm t.name s.name),
  append-IsDistinct items s d.1 (ground arith),
)

-- A result of DNS-SD without an error has a name.
abbrev pub IsNamed : Pump BrowseReply → Type 0
IsNamed gave_up = Unit
IsNamed (processed r) = is_some r.name ≡ true

on_browse-IsDistinct :
    (r : BrowseReply) (items : List FoundService)
    → is_some r.name ≡ true
    → IsDistinct items
    → IsDistinct (on_browse r items)
unfolding on_browse
on_browse-IsDistinct r items named d = elim (Option-cases r.name) [
  | inl e ↦ absurd (ground arith)
  | inr (n, e) ↦ if_both IsDistinct (not r.no_error || not r.added) d (
      if_cases IsDistinct (is_recorded r.name items) (λ known. d)
        (λ new.
          append-IsDistinct items _ d (rw e (subst (λ m. is_recorded m items ≡ false) e new))))
]

-- If every result has a name, no name is recorded twice, whatever DNS-SD reports.
pub collect-IsDistinct :
    (pumps : List (Pump BrowseReply)) (items : List FoundService)
    → All IsNamed pumps
    → IsDistinct items
    → IsDistinct (collect items pumps)
unfolding collect
collect-IsDistinct [] items named d = d
collect-IsDistinct (gave_up ∷ pumps) items named d = d
collect-IsDistinct (processed r ∷ pumps) items named d =
    collect-IsDistinct pumps (on_browse r items) named.1 (on_browse-IsDistinct r items named.0 d)

-- A peer in the list of `browse`.
abbrev pub IsListed : PeerInfo → List PeerInfo → Type 0
IsListed p [] = ⊥
IsListed p (q ∷ peers) = (p ≡ q) ⊎ IsListed p peers

IsListed-consider :
    (p : PeerInfo) (o : Option PeerInfo) (peers : List PeerInfo)
    → IsListed p peers
    → IsListed p (consider o peers)
IsListed-consider p none peers h = h
IsListed-consider p (some q) peers h = inr h

IsListed-resolve_all :
    (env : MdnsEnv) (name : Bytes) (items : List FoundService) (s : FoundService) (p : PeerInfo)
    → find_service name items ≡ some s
    → resolve_service env s ≡ some p
    → IsListed p (resolve_all env items)
unfolding find_service resolve_all
IsListed-resolve_all env name [] s p h r = absurd (ground arith)
IsListed-resolve_all env name (t ∷ items) s p h r = elim (Bool-cases (equal t.name name)) [
  | inl e ↦
      let found : resolve_service env t ≡ some p =
        ap (λ m. resolve_match env m) (sym (find-head name t items e) ∙ h) ∙ r in
      rw found (inl refl)
  | inr e ↦ IsListed-consider p _ _ (IsListed-resolve_all env name items s p (ground arith) r)
]

find_service-name :
    (name : Bytes) (items : List FoundService) (s : FoundService)
    → find_service name items ≡ some s
    → s.name ≡ name
unfolding find_service
find_service-name name [] s h = absurd (ground arith)
find_service-name name (t ∷ items) s h = elim (Bool-cases (equal t.name name)) [
  | inl e ↦
      let same : ◌≡◌ {A = Option FoundService} (some t) (some s) =
        sym (find-head name t items e) ∙ h in
      ground (arith, same, (equal_iff t.name name).0 e)
  | inr e ↦ find_service-name name items s (ground arith)
]

with_host-name :
    (s : FoundService) (port : ℕ) (ip : Option Bytes)
    → AllSome (λ (p : PeerInfo). p.name ≡ s.name) (with_host s port ip)
with_host-name s port none = tt
with_host-name s port (some ip) = refl

resolve_from-name :
    (env : MdnsEnv) (s : FoundService) (pumps : Option (List (Pump ResolveReply)))
    → AllSome (λ (p : PeerInfo). p.name ≡ s.name) (resolve_from env s pumps)
resolve_from-name env s none = tt
resolve_from-name env s (some pumps) =
    let ctx = resolve_loop new_context pumps in
    if_both (AllSome (λ (p : PeerInfo). p.name ≡ s.name)) (not ctx.done || equal ctx.host_target [])
      tt (with_host-name s ctx.port (resolve_hostname_ipv4 (env.getaddrinfo ctx.host_target)))

resolve_service-name :
    (env : MdnsEnv) (s : FoundService) (p : PeerInfo)
    → resolve_service env s ≡ some p
    → p.name ≡ s.name
unfolding resolve_service
resolve_service-name env s p h =
    subst (AllSome (λ (p : PeerInfo). p.name ≡ s.name)) h (resolve_from-name env s (env.resolve s))

find_from-IsListed :
    (env : MdnsEnv) (name : Bytes) (p : PeerInfo) (results : Option (List (Pump BrowseReply)))
    → find_from env name results ≡ some p
    → (p.name ≡ name) × IsListed p (browse_from env results)
find_from-IsListed env name p none h = absurd (ground arith)
find_from-IsListed env name p (some pumps) h = elim (Option-cases (search_from name [] pumps)) [
  | inl e ↦
      let nothing : ◌≡◌ {A = Option PeerInfo} none (some p) =
        ap (λ m. resolve_match env m) (sym e) ∙ h in
      absurd (ground arith)
  | inr (s, e) ↦
      let resolved : resolve_service env s ≡ some p = ap (λ m. resolve_match env m) (sym e) ∙ h in
      let found = sym (search-collect name pumps) ∙ e in
      (
        resolve_service-name env s p resolved ∙ find_service-name name _ s found,
        IsListed-resolve_all env name _ s p found resolved,
      )
]

-- Over the same results of DNS-SD: a device that is found by its name has that name, and `browse`
-- lists it with the same address and port.
pub find_by_name-IsListed :
    (env : MdnsEnv) (name : Bytes) (p : PeerInfo)
    → find_by_name env name ≡ some p
    → (p.name ≡ name) × IsListed p (browse env)
unfolding find_by_name browse
find_by_name-IsListed env name p h = find_from-IsListed env name p env.browse h
