-- ===== src/Mdns.antt =====
-- The discovery of src/net/mdns.cpp, over DNS-SD. A call of `pump` either processes one result,
-- which calls back, or gives up (a timeout or an error); a list of them is cut by the deadline.
pub mod Browse
pub mod Advertise
pub mod Timed
use lft.Base.{
  ℕ, ◌+◌, ◌*◌, ◌/◌, ◌%◌, Bool, true, false, not, ◌&&◌, ◌||◌, List, [], ◌∷◌, ◌++◌, Option, none,
  some, Bytes, equal, if◌then◌else◌, is_some,
}

pub record FoundService : Type 0 where
  pub name : Bytes
  pub regtype : Bytes
  pub domain : Bytes
  pub interface_index : ℕ

-- The arguments of the browse callback. A null pointer is `none`; the code does not compare a null
-- name defined, and here it is equal to no recorded name.
pub record BrowseReply : Type 0 where
  pub no_error : Bool
  pub added : Bool
  pub interface_index : ℕ
  pub name : Option Bytes
  pub regtype : Option Bytes
  pub domain : Option Bytes

abbrev pub or_empty : Option Bytes → Bytes
or_empty none = []
or_empty (some s) = s

abbrev pub is_name : Option Bytes → Bytes → Bool
is_name none s = false
is_name (some n) s = equal s n

unfoldable pub is_recorded : Option Bytes → List FoundService → Bool
is_recorded name [] = false
is_recorded name (s ∷ items) = is_name name s.name || is_recorded name items

unfoldable pub on_browse : BrowseReply → List FoundService → List FoundService
on_browse r items =
    if not r.no_error || not r.added
    then items
    else if is_recorded r.name items
    then items
    else items
      ++ record {
        name = or_empty r.name;
        regtype = or_empty r.regtype;
        domain = or_empty r.domain;
        interface_index = r.interface_index;
      }
        ∷ []

pub data Pump (R : Type 0) : Type 0 where
  processed : R → Pump R
  gave_up : Pump R

-- The loop of `browse`.
unfoldable pub collect : List FoundService → List (Pump BrowseReply) → List FoundService
collect items [] = items
collect items (gave_up ∷ pumps) = items
collect items (processed r ∷ pumps) = collect (on_browse r items) pumps

-- The search in the recorded services.
unfoldable pub find_service : Bytes → List FoundService → Option FoundService
find_service name [] = none
find_service name (s ∷ items) =
    let later = find_service name items in if equal s.name name then some s else later

-- The loop of `find_by_name`, which stops at the first match.
unfoldable pub search_from :
    Bytes → List FoundService → List (Pump BrowseReply) → Option FoundService
search_from name items [] = none
search_from name items (gave_up ∷ pumps) = none
search_from name items (processed r ∷ pumps) = elim (find_service name (on_browse r items)) [
  | none ↦ search_from name (on_browse r items) pumps
  | some s ↦ some s
]

-- The arguments of the resolve callback.
pub record ResolveReply : Type 0 where
  pub no_error : Bool
  pub host_target : Option Bytes
  pub port_net : ℕ

pub record ResolveContext : Type 0 where
  pub done : Bool
  pub host_target : Bytes
  pub port : ℕ

abbrev pub new_context : ResolveContext
new_context = record { done = false; host_target = []; port = 0 }

-- `ntohs` on a little-endian machine.
unfoldable pub ntohs : ℕ → ℕ
ntohs p = p % 256 * 256 + p / 256 % 256

unfoldable pub on_resolve : ResolveReply → ResolveContext → ResolveContext
on_resolve r ctx =
    if not r.no_error
    then record ctx { done = true }
    else record { done = true; host_target = or_empty r.host_target; port = ntohs r.port_net }

-- The loop of `resolve_service`.
unfoldable pub resolve_loop : ResolveContext → List (Pump ResolveReply) → ResolveContext
resolve_loop ctx [] = ctx
resolve_loop ctx (gave_up ∷ pumps) = ctx
resolve_loop ctx (processed r ∷ pumps) =
    let later = resolve_loop (on_resolve r ctx) pumps in if ctx.done then ctx else later

pub record PeerInfo : Type 0 where
  pub name : Bytes
  pub host : Bytes
  pub port : ℕ

-- A result of `getaddrinfo`, with what `inet_ntop` prints of it.
pub record AddrInfo : Type 0 where
  pub is_inet : Bool
  pub printed : Option Bytes

-- The loop of `resolve_hostname_ipv4`.
abbrev pub first_ipv4 : List AddrInfo → Option Bytes
first_ipv4 [] = none
first_ipv4 (ai ∷ rest) =
    let later = first_ipv4 rest in
    if not ai.is_inet then later else elim ai.printed [ none ↦ later | some text ↦ some text ]

abbrev pub resolve_hostname_ipv4 : Option (List AddrInfo) → Option Bytes
resolve_hostname_ipv4 none = none
resolve_hostname_ipv4 (some results) = first_ipv4 results

-- What DNS-SD and the resolver of host names answer; `none` where a request is refused.
pub record MdnsEnv : Type 0 where
  pub browse : Option (List (Pump BrowseReply))
  pub resolve : FoundService → Option (List (Pump ResolveReply))
  pub getaddrinfo : Bytes → Option (List AddrInfo)

abbrev pub with_host : FoundService → ℕ → Option Bytes → Option PeerInfo
with_host service port none = none
with_host service port (some ip) = some (record { name = service.name; host = ip; port = port })

abbrev pub resolve_from :
    MdnsEnv → FoundService → Option (List (Pump ResolveReply)) → Option PeerInfo
resolve_from env service none = none
resolve_from env service (some pumps) =
    let ctx = resolve_loop new_context pumps in
    if not ctx.done || equal ctx.host_target []
    then none
    else with_host service ctx.port (resolve_hostname_ipv4 (env.getaddrinfo ctx.host_target))

unfoldable pub resolve_service : MdnsEnv → FoundService → Option PeerInfo
resolve_service env service = resolve_from env service (env.resolve service)

abbrev pub consider : Option PeerInfo → List PeerInfo → List PeerInfo
consider none peers = peers
consider (some p) peers = p ∷ peers

unfoldable pub resolve_all : MdnsEnv → List FoundService → List PeerInfo
resolve_all env [] = []
resolve_all env (s ∷ items) = consider (resolve_service env s) (resolve_all env items)

abbrev pub browse_from : MdnsEnv → Option (List (Pump BrowseReply)) → List PeerInfo
browse_from env none = []
browse_from env (some pumps) = resolve_all env (collect [] pumps)

unfoldable pub browse : MdnsEnv → List PeerInfo
browse env = browse_from env env.browse

abbrev pub resolve_match : MdnsEnv → Option FoundService → Option PeerInfo
resolve_match env none = none
resolve_match env (some s) = resolve_service env s

abbrev pub find_from : MdnsEnv → Bytes → Option (List (Pump BrowseReply)) → Option PeerInfo
find_from env name none = none
find_from env name (some pumps) = resolve_match env (search_from name [] pumps)

unfoldable pub find_by_name : MdnsEnv → Bytes → Option PeerInfo
find_by_name env name = find_from env name env.browse

-- `MdnsAdvertiser`: the reference, whether a thread runs, and how many references were allocated
-- and deallocated.
pub record Advertiser : Type 0 where
  pub ref : Option ℕ
  pub running : Bool
  pub joinable : Bool
  pub registered : ℕ
  pub released : ℕ

abbrev pub new_advertiser : Advertiser
new_advertiser = record {
  ref = none;
  running = false;
  joinable = false;
  registered = 0;
  released = 0;
}

abbrev pub registered_with : Option ℕ → Advertiser → Advertiser × Bool
registered_with none a = (record a { ref = none }, false)
registered_with (some ref) a = (
  record a { ref = some ref; running = true; joinable = true; registered = a.registered + 1 },
  true,
)

-- `MdnsAdvertiser::start`, with the reference that `DNSServiceRegister` gives.
unfoldable pub start_advertiser : Option ℕ → Advertiser → Advertiser × Bool
start_advertiser given a = if a.running then (a, false) else registered_with given a

-- `MdnsAdvertiser::stop`.
unfoldable pub stop_advertiser : Advertiser → Advertiser
stop_advertiser a = record a {
  ref = none;
  running = false;
  joinable = false;
  released = if is_some a.ref then a.released + 1 else a.released;
}

-- A pass of the loop of `MdnsAdvertiser::run`: whether `running_` is still set at its test, whether
-- the socket has data within the second that `select` waits, and whether processing succeeds.
pub record Turn : Type 0 where
  pub running : Bool
  pub ready : Bool
  pub no_error : Bool

abbrev pub one_more : Option ℕ → Option ℕ
one_more none = none
one_more (some n) = some (n + 1)

-- `MdnsAdvertiser::run`: the passes until it returns, or `none` while it runs.
unfoldable pub advertiser_run : Bool → List Turn → Option ℕ
advertiser_run has_socket [] = none
advertiser_run has_socket (t ∷ turns) =
    let later = advertiser_run has_socket turns in
    if not t.running
    then some 0
    else if not has_socket
    then some 0
    else if t.ready && not t.no_error
    then some 0
    else one_more later
