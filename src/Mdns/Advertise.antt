-- ===== src/Mdns/Advertise.antt =====
-- The life of an advertiser.
use lft.Base.{
  ℕ, suc, Bool, false, not, ◌&&◌, ◌++◌, ◌≤◌, length, if_both, ◌+◌, List, [], ◌∷◌, Option, none,
  some, ◌≡◌, refl, arith, is_some, if◌then◌else◌,
}
use lft.Mdns.{
  Advertiser, new_advertiser, start_advertiser, stop_advertiser, Turn, one_more, advertiser_run,
}

-- A call of `start`, with what DNS-SD answers, or of `stop`.
pub data Use : Type 0 where
  starting : Option ℕ → Use
  stopping : Use

unfoldable pub use_all : Advertiser → List Use → Advertiser
use_all a [] = a
use_all a (starting given ∷ uses) = use_all (start_advertiser given a).0 uses
use_all a (stopping ∷ uses) = use_all (stop_advertiser a) uses

-- It runs, has a thread and holds a reference at the same times, and every other reference that it
-- was given has been released.
pub record IsBalanced (a : Advertiser) : Type 0 where
  pub runs : a.running ≡ is_some a.ref
  pub threaded : a.joinable ≡ a.running
  pub released : a.registered ≡ (if a.running then a.released + 1 else a.released)

start_advertiser-IsBalanced :
    (given : Option ℕ) (a : Advertiser) → IsBalanced a → IsBalanced (start_advertiser given a).0
unfolding start_advertiser
start_advertiser-IsBalanced none a v = ground (arith, v)
start_advertiser-IsBalanced (some ref) a v = ground (arith, v)

stop_advertiser-IsBalanced : (a : Advertiser) → IsBalanced a → IsBalanced (stop_advertiser a)
unfolding stop_advertiser
stop_advertiser-IsBalanced a v = ground (arith, v)

use_all-from : (uses : List Use) (a : Advertiser) → IsBalanced a → IsBalanced (use_all a uses)
unfolding use_all
use_all-from [] a v = v
use_all-from (starting given ∷ uses) a v =
    use_all-from uses _ (start_advertiser-IsBalanced given a v)
use_all-from (stopping ∷ uses) a v = use_all-from uses _ (stop_advertiser-IsBalanced a v)

-- After any calls of `start` and `stop`, in any order and with any answers of DNS-SD: the
-- advertiser runs just when it holds a reference and has a thread to join, and it has released
-- every other reference that it was given.
pub use_all-IsBalanced : (uses : List Use) → IsBalanced (use_all new_advertiser uses)
use_all-IsBalanced uses =
    use_all-from uses new_advertiser (record { runs = refl; threaded = refl; released = refl })

abbrev EndsWithin : ℕ → Option ℕ → Type 0
EndsWithin n none = ⊥
EndsWithin n (some k) = k ≤ n

one_more-EndsWithin : (n : ℕ) (o : Option ℕ) → EndsWithin n o → EndsWithin (suc n) (one_more o)
one_more-EndsWithin n none h = h
one_more-EndsWithin n (some k) h = omega (arith, h)

-- The thread that `stop` joins ends: it makes no further pass once it has seen `running_` cleared.
pub advertiser_run-EndsWithin :
    (has_socket : Bool) (before after : List Turn) (t : Turn)
    → t.running ≡ false
    → EndsWithin (length before) (advertiser_run has_socket (before ++ t ∷ after))
unfolding advertiser_run
advertiser_run-EndsWithin has_socket [] after t e = rw e (omega arith)
advertiser_run-EndsWithin has_socket (b ∷ before) after t e =
    let P = EndsWithin (suc (length before)) in
    if_both P (not b.running) (omega arith) (
      if_both P (not has_socket) (omega arith) (
        if_both P (b.ready && not b.no_error) (omega arith) (
          one_more-EndsWithin (length before) _
            (advertiser_run-EndsWithin has_socket before after t e))))
