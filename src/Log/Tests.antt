-- ===== src/Log/Tests.antt =====
-- A cycle of log calls that needs two blocks.
use tux3_fuse.Prelude.{◌≡◌, none, List, [], ◌∷◌, ◌++◌, arith, false}
use tux3_fuse.Log.{log_finish}
use tux3_fuse.Log.Entry.{Entry, log_call}
use tux3_fuse.Log.Holds.{
  Holds, BlocksHold, concat, empty_log, empty_log-Holds, log_calls, log_call-Holds,
  log_finish-log_calls,
}

abbrev pub cycle : List Entry
cycle = Entry.balloc 5 3 ∷ Entry.bnode_root 9 1 2 3 4 ∷ Entry.bfree 5 1 ∷ Entry.unify ∷ []

log_call-Holds_example :
    Holds (log_call (empty_log 26) (Entry.balloc 5 3)) ([] ++ Entry.balloc 5 3 ∷ [])
    × ((log_call (empty_log 26) (Entry.balloc 5 3)).space ≡ 26)
    × ((log_call (empty_log 26) (Entry.balloc 5 3)).asserted ≡ false)
log_call-Holds_example =
    log_call-Holds (empty_log 26) (Entry.balloc 5 3) [] (omega arith) (empty_log-Holds 26)

log_finish-log_calls_example :
    let log = log_finish (log_calls (empty_log 26) cycle) in
    (log.logbuf ≡ none)
    × ((ess : List (List Entry)) × BlocksHold log.space log.done ess × (cycle ≡ concat ess))
log_finish-log_calls_example = log_finish-log_calls 26 cycle (omega arith)
