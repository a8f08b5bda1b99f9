-- ===== src/Examples/Layouts.antt =====
-- The text of the commands txn, waits and locks, at concrete rows.
use kbdiag.Prelude.{
  false, ℕ, pos, true, some, none, List, [], ◌∷◌, any, ◌==◌, ◌≡◌, refl, ◌-ℤ◌, ◌+ℤ◌, count,
}
use kbdiag.Facts.Wait.{Wait}
use kbdiag.Facts.Lock.{Lock, contains}
use kbdiag.Report.Blocking.{blockers_from}
use kbdiag.Report.Blocking.Counts.{blocks_of, blockers_from-blocks}
use kbdiag.Examples.Samples.{lock_of}
use kbdiag.Report.Oldest.{Holder, oldest_from}
use kbdiag.Report.Oldest.Window.{oldest_from-least, is_least}
use kbdiag.Report.Waits.{nothing_yet, tally_from}
use kbdiag.Report.Waits.Counts.{tally-partition, total, session_sum, visible_sum}

-- A prepared transaction from before the ids wrapped around, and a session after it.
abbrev prepared : Holder
prepared = record { xid = 4294967290; label = "2PC move_funds" }

abbrev sessions : List Holder
sessions =
    record { xid = 5; label = "41 xid" } ∷ record { xid = 4294967295; label = "42 xmin" } ∷ []

oldest_from-least_example :
    (is_least 4294967000 (oldest_from 4294967290 sessions) (prepared ∷ sessions) ≡ true)
    × (any (λ x. x.xid == oldest_from 4294967290 sessions) (prepared ∷ sessions) ≡ true)
oldest_from-least_example = oldest_from-least 4294967000 prepared sessions refl refl

oldest_test : oldest_from 5 (prepared ∷ sessions) ≡ 4294967290
unfolding oldest_from
oldest_test = refl

-- Sessions on a lock, idle ones of which some are masked, and background processes at work.
abbrev groups : List Wait
groups =
    record {
      wait_event_type = some "Lock";
      wait_event = some "transactionid";
      state = some "active";
      sessions = pos 3;
      pids = pos 41 ∷ pos 42 ∷ pos 43 ∷ [];
      masked = pos 0;
      background = [];
    }
    ∷ record {
      wait_event_type = none;
      wait_event = none;
      state = some "idle";
      sessions = pos 7;
      pids = [];
      masked = pos 2;
      background = [];
    }
    ∷ record {
      wait_event_type = none;
      wait_event = none;
      state = some "active";
      sessions = pos 2;
      pids = pos 51 ∷ pos 52 ∷ [];
      masked = pos 0;
      background = pos 52 ∷ [];
    }
    ∷ []

tally-partition_example :
    (total (tally_from nothing_yet groups) ≡ session_sum groups)
    × ((tally_from nothing_yet groups).busy ≡ visible_sum (tally_from nothing_yet groups).shown)
tally-partition_example = tally-partition groups

tally_test : (tally_from nothing_yet groups).busy ≡ pos 4
unfolding tally_from ◌-ℤ◌ ◌+ℤ◌
tally_test = refl

-- Pid 41 blocks two sessions, and is named twice in the second row.
abbrev waiting : List (Lock ℕ)
waiting =
    lock_of 42 false (some 12) (pos 41 ∷ [])
    ∷ lock_of 43 false (some 30) (pos 41 ∷ pos 42 ∷ pos 41 ∷ [])
    ∷ []

blockers_from-blocks_example :
    blocks_of (pos 41) (blockers_from [] waiting)
    ≡ count (λ l. contains l.blocked_by (pos 41)) waiting
blockers_from-blocks_example = blockers_from-blocks (pos 41) waiting
