-- ===== src/Cli/Console.antt =====
-- What src/main.cpp asks of the machine and of its user: `local_ipv4s`, `local_hostname`, and the
-- prompt of `run_recv`.
use lft.Base.{
  Bool, true, false, not, ◌&&◌, ◌||◌, List, [], ◌∷◌, Option, none, some, ◌≡◌, ◌⊎◌, inl, inr, refl,
  sym, ap, ◌∙◌, arith, Bytes, codes, equal, if◌then◌else◌, if_cases,
}

-- An entry of `getifaddrs`: whether it has an address of AF_INET, its flags IFF_UP and
-- IFF_LOOPBACK, and what `inet_ntop` prints.
pub record Interface : Type 0 where
  pub is_inet : Bool
  pub up : Bool
  pub loopback : Bool
  pub printed : Option Bytes

abbrev pub with_text : Option Bytes → List Bytes → List Bytes
with_text none texts = texts
with_text (some text) texts = text ∷ texts

unfoldable pub usable_ipv4s : List Interface → List Bytes
usable_ipv4s [] = []
usable_ipv4s (ifa ∷ rest) =
    let later = usable_ipv4s rest in
    if not ifa.is_inet
    then later
    else if not ifa.up || ifa.loopback
    then later
    else with_text ifa.printed later

-- `local_ipv4s`, with the answer of `getifaddrs`.
abbrev pub local_ipv4s : Option (List Interface) → List Bytes
local_ipv4s none = []
local_ipv4s (some interfaces) = usable_ipv4s interfaces

-- `local_hostname`, with the answer of `gethostname`.
abbrev pub local_hostname : Option Bytes → Bytes
local_hostname none = codes "this device"
local_hostname (some name) = name

-- `on_offer` of `run_recv`, with the line that `std::getline` reads.
unfoldable pub on_offer : Option Bytes → Bool
on_offer none = false
on_offer (some answer) =
    equal answer (codes "y")
    || (equal answer (codes "Y") || (equal answer (codes "yes") || equal answer (codes "Yes")))

-- A text that is listed.
abbrev pub IsListed : Bytes → List Bytes → Type 0
IsListed text [] = ⊥
IsListed text (t ∷ texts) = (text ≡ t) ⊎ IsListed text texts

-- An interface that is up, is no loopback and has the printed IPv4 address.
abbrev pub Offers : Bytes → Interface → Type 0
Offers text ifa = ((ifa.is_inet && (ifa.up && not ifa.loopback)) ≡ true) × (ifa.printed ≡ some text)

abbrev pub SomeOffers : Bytes → List Interface → Type 0
SomeOffers text [] = ⊥
SomeOffers text (ifa ∷ rest) = Offers text ifa ⊎ SomeOffers text rest

with_text-SomeOffers :
    (text : Bytes) (ifa : Interface) (rest : List Interface) (o : Option Bytes) (later : List Bytes)
    → (ifa.is_inet && (ifa.up && not ifa.loopback)) ≡ true
    → ifa.printed ≡ o
    → (IsListed text later → SomeOffers text rest)
    → IsListed text (with_text o later)
    → SomeOffers text (ifa ∷ rest)
with_text-SomeOffers text ifa rest none later usable e more h = inr (more h)
with_text-SomeOffers text ifa rest (some t) later usable e more (inl same) =
    inl (usable, e ∙ ap some (sym same))
with_text-SomeOffers text ifa rest (some t) later usable e more (inr h) = inr (more h)

-- Only an address of an interface that is up and is no loopback is listed for the sender.
pub usable_ipv4s-SomeOffers :
    (text : Bytes) (interfaces : List Interface)
    → IsListed text (usable_ipv4s interfaces)
    → SomeOffers text interfaces
unfolding usable_ipv4s
usable_ipv4s-SomeOffers text [] h = h
usable_ipv4s-SomeOffers text (ifa ∷ rest) h =
    let later = usable_ipv4s rest in
    let more = usable_ipv4s-SomeOffers text rest in
    let P : List Bytes → Type 0 = λ texts. IsListed text texts → SomeOffers text (ifa ∷ rest) in
    if_cases P (not ifa.is_inet) (λ e k. inr (more k))
      (λ e.
        if_cases P (not ifa.up || ifa.loopback) (λ f k. inr (more k))
          (λ f. with_text-SomeOffers text ifa rest ifa.printed later (ground arith) refl more))
      h
