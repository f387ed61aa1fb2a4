-- ===== src/Tests/Mdns.antt =====
-- Discovery at concrete results of DNS-SD.
use lft.Base.{◌≡◌, refl, arith, true, List, [], ◌∷◌, some, Bytes, codes, equal}
use lft.Mdns.{
  BrowseReply, Pump, processed, gave_up, PeerInfo, MdnsEnv, is_recorded, on_browse, collect,
  find_service, search_from, ntohs, on_resolve, resolve_loop, resolve_service, browse, find_by_name,
  new_advertiser,
}
use lft.Mdns.Browse.{IsDistinct, IsListed, collect-IsDistinct, find_by_name-IsListed}
use lft.Mdns.Timed.{Poll, ms_until, pump, timed_loop, timed_browse}
use lft.Mdns.Timed.Refine.{IsRefined, timed-IsRefined}
use lft.Mdns.Advertise.{starting, stopping, use_all, IsBalanced, use_all-IsBalanced}

abbrev reply : Bytes → BrowseReply
reply name = record {
  no_error = true;
  added = true;
  interface_index = 4;
  name = some name;
  regtype = some (codes "_lft._udp");
  domain = some (codes "local.");
}

-- A device reports twice, and a second one comes.
abbrev pumps : List (Pump BrowseReply)
pumps =
    processed (reply (codes "desk"))
    ∷ processed (reply (codes "desk"))
    ∷ processed (reply (codes "lap"))
    ∷ gave_up
    ∷ []

-- Port 53317 in network order.
abbrev env : MdnsEnv
env = record {
  browse = some pumps;
  resolve = λ service. some (
      processed (record { no_error = true; host_target = some service.name; port_net = 17872 })
      ∷ []);
  getaddrinfo = λ host. some (record { is_inet = true; printed = some (codes "10.0.0.7") } ∷ []);
}

abbrev lap : PeerInfo
lap = record { name = codes "lap"; host = codes "10.0.0.7"; port = 53317 }

finds : find_by_name env (codes "lap") ≡ some lap
unfolding find_by_name search_from find_service on_browse is_recorded resolve_service resolve_loop
    on_resolve ntohs equal
finds = refl

find_by_name-IsListed_example : IsListed lap (browse env)
find_by_name-IsListed_example = (find_by_name-IsListed env (codes "lap") lap finds).1

collect-IsDistinct_example : IsDistinct (collect [] pumps)
collect-IsDistinct_example = collect-IsDistinct pumps [] (refl, (refl, (refl, (tt, tt)))) tt

-- Data comes after a tenth of a second, and then no more.
abbrev polls : List (Poll BrowseReply)
polls =
    record {
      gap = 5;
      ready_after = 100000000;
      taken = 7;
      no_error = true;
      reply = reply (codes "desk");
    }
    ∷ []

-- A loop of a second.
timed-IsRefined_example : IsRefined true 1000000000 0 5 7 polls []
timed-IsRefined_example =
    timed-IsRefined true 1000000000 0 5 7 polls [] (omega arith) (omega arith) tt

waits_to_the_end : (timed_browse true 1000000000 0 [] polls).1 ≡ 999000012
unfolding timed_browse timed_loop pump ms_until on_browse is_recorded
waits_to_the_end = refl

use_all-IsBalanced_example : IsBalanced (use_all new_advertiser (starting (some 8) ∷ stopping ∷ []))
use_all-IsBalanced_example = use_all-IsBalanced (starting (some 8) ∷ stopping ∷ [])
