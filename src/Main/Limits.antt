-- ===== src/Main/Limits.antt =====
-- testexample.cpp: the limits of the configuration, and what the frame makes of them.
use test_frame.Prelude.{
  ℕ, ◌+◌, ◌%◌, ◌^◌, ◌≤◌, ◌<◌, ◌≡◌, ◌⊎◌, false, pos, is_pos, List, Bytes, arith, total,
}
use test_frame.Frame.Worker.{Label}
use test_frame.Frame.System.{System, Reach, threads}
use test_frame.Frame.Quota.{IsSmall, Limits, turns, turns-exact}
use test_frame.Frame.Rate.{Budget, grants, grants-le}
use test_frame.Frame.Lock.{NoEarly}
use test_frame.Client.{Client, Network}
use test_frame.Config.{CmdInfo}
use test_frame.Config.Lookup.{IsEntry}
use test_frame.TestCase.{LogFile, ended, pre_execute}
use test_frame.Main.{set_up, case_of}

pub set_up-Limits :
    (pointer : ℕ) (i : CmdInfo)
    → 0 < i.times_limit
    → IsSmall i.times_limit
    → IsSmall i.thread_num
    → Limits (set_up pointer i) i.times_limit
unfolding set_up
set_up-Limits pointer i positive small few = record {
  small = small;
  few = ground arith;
  some_turn = positive;
  set_const = ground arith;
  set_count = ground arith;
}

pub set_up-Budget :
    (pointer : ℕ) (i : CmdInfo)
    → 0 < i.frequence
    → IsSmall i.frequence
    → IsSmall i.thread_num
    → Budget (set_up pointer i) i.frequence
unfolding set_up
set_up-Budget pointer i positive small few = record {
  small = small;
  few = ground arith;
  some_packet = positive;
  set_const = ground arith;
  set_count = ground arith;
}

-- The configured number of requests is kept to: where "times_limit" is positive, it and "thread_num"
-- are below 2 ^ 31, and the frame is set up from the configuration, no interleaving of the threads ever
-- has more test cases counted or under way than "times_limit".
pub times_limit-kept :
    (pointer : ℕ) (i : CmdInfo) {ls : List Label} {s : System}
    → 0 < i.times_limit
    → IsSmall i.times_limit
    → IsSmall i.thread_num
    → Reach (set_up pointer i) ls s
    → s.statistic.total_count + total turns (threads (set_up pointer i)) s.pc ≤ i.times_limit
times_limit-kept pointer i positive small few r =
    omega (arith, turns-exact i.times_limit (set_up-Limits pointer i positive small few) r)

-- The configured rate is kept to: where "frequence" is positive, it and "thread_num" are below 2 ^ 31,
-- and no wait returns by itself, the threads let through at most "frequence" packets from one budget.
pub frequence-kept :
    (pointer : ℕ) (i : CmdInfo) {ls : List Label} {s : System}
    → 0 < i.frequence
    → IsSmall i.frequence
    → IsSmall i.thread_num
    → Reach (set_up pointer i) ls s
    → NoEarly ls
    → grants ls ≤ i.frequence
frequence-kept pointer i positive small few r ne =
    (grants-le i.frequence (set_up-Budget pointer i positive small few) r ne).0

-- A large limit is no limit: a "times_limit" whose low 32 bits are 0, or are 2 ^ 31 or more, is
-- converted to an `int` that is not positive, so the frame runs without a repeat count.
pub large_times_limit-unlimited :
    (pointer : ℕ) (i : CmdInfo)
    → (i.times_limit % 2 ^ 32 ≡ 0) ⊎ (2 ^ 31 ≤ i.times_limit % 2 ^ 32)
    → is_pos (set_up pointer i).repeat_count_const ≡ false
unfolding set_up
large_times_limit-unlimited pointer i h = ground arith

-- The step before the test does nothing for a configured test: `parse` leaves the request for it empty,
-- so `PreExecute` succeeds without a word to the server or to the log.
pub pre_execute-IsEntry :
    (i : CmdInfo) (net : Network) (stamp : Bytes) (c : Client) (l : LogFile)
    → IsEntry i
    → pre_execute (case_of i) net stamp c l ≡ (c, ended (pos 0) l)
unfolding pre_execute
pre_execute-IsEntry i net stamp c l e = rw e.no_pre_req
