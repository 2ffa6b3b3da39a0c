-- ===== src/Bypass/Boost/Tests.antt =====
-- A run of the reception loop that loses the connection once.
use mdfh_distrib.Common.{true, List, [], ◌∷◌}
use mdfh_distrib.Bypass.Boost.{eof, received, Round, Reception}

abbrev fresh_reception : Reception
fresh_reception = record {
  connected = true;
  last_reconnect_attempt = 0;
  packets_received = 0;
  bytes_received = 0;
  handed = [];
}

abbrev rounds : List Round
rounds =
    record { now = 5; reachable = true; answer = received (1 ∷ 2 ∷ []) }
    ∷ record { now = 6; reachable = true; answer = eof }
    ∷ record { now = 2000000000; reachable = true; answer = received (3 ∷ []) }
    ∷ []
