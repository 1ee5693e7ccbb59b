-- ===== src/Session/Tests.antt =====
-- The theorems on sessions at concrete inputs.
use udpix.Base.{ℕ, ◌≤◌, max, List, [], ◌∷◌, arith}
use udpix.Session.{new_stats}
use udpix.Session.Rtt.{handle_pongs, handle_pongs_bounded}

abbrev two_pongs : List (ℕ × ℕ)
two_pongs = (50000, 30000) ∷ (90000, 60000) ∷ []

handle_pongs_bounded_example :
    ((handle_pongs new_stats two_pongs).srtt_us ≤ 30000)
    × ((handle_pongs new_stats two_pongs).rttvar_us ≤ max 5000 30000)
handle_pongs_bounded_example =
    handle_pongs_bounded 30000 two_pongs (omega arith) (omega arith, (omega arith, tt))
