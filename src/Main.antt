-- ===== src/Main.antt =====
-- testexample.cpp, `main`, with CmdInfo::to_str of loadConfig.h: the program from its arguments to the
-- call of TestFrame::Run, which is modelled in Frame. `atoi` and `fopen` enter by their results.
pub mod Limits
pub mod Start
mod Tests
mod Runs
use test_frame.Prelude.{
  ℕ, zero, suc, ◌+◌, ◌-◌, ◌/◌, ◌%◌, ◌^◌, ◌==◌, ltb, if◌then◌else◌, Bool, true, false, ◌&&◌, Option,
  none, some, ℤ, pos, negsuc, pos_part, neg_part, int_of_bits, to_bits, List, [], ◌∷◌, ◌++◌,
  is_empty, length, Bytes, codes,
}
use test_frame.Frame.{
  TestFrame, new_frame, set_test_case, set_repeat_count, set_thread_num, set_duration_time,
  set_frequence,
}
use test_frame.Text.{decimal}
use test_frame.Config.{CmdInfo, Json, Files}
use test_frame.Config.Load.{LoadTestConfig, new_config, init, get_config}
use test_frame.TestCase.{LogFile, new_log_file, init_log, log, TestCaseIot}

-- A line of `to_str`: a name, a value and the end of the line.
abbrev pub line : Bytes → Bytes → Bytes
line name value = name ++ (value ++ 10 ∷ [])

unfoldable pub to_str : CmdInfo → Bytes
unfolding decimal
to_str i =
    line (codes "cmd:") (decimal i.cmd)
    ++ (line (codes "tcp_info.size()=") (decimal (length i.tcp_info))
        ++ (line (codes "pre_req:") i.pre_req
            ++ (line (codes "pre_assert:") i.pre_assert
                ++ (line (codes "req:") i.req
                    ++ (line (codes "assert:") i.assert
                        ++ (line (codes "thread_num:") (decimal i.thread_num)
                            ++ (line (codes "load_test_time:") (decimal i.load_test_time)
                                ++ (line (codes "times_limit:") (decimal i.times_limit)
                                    ++ (line (codes "frequence:") (decimal i.frequence)
                                        ++ (line (codes "log_file:") i.log_file ++ 10 ∷ []))))))))))

abbrev pub case_of : CmdInfo → TestCaseIot
case_of i = record {
  ip_port = i.tcp_info;
  pre_req = i.pre_req;
  req = i.req;
  log_file = i.log_file;
  pre_assert = i.pre_assert;
  assert = i.assert;
}

-- The calls that set up the frame. Each number is converted to an `int`.
abbrev pub limit_times : ℕ → TestFrame → TestFrame
limit_times n f = if n == 0 then f else set_repeat_count (int_of_bits n) f

abbrev pub limit_rate : ℕ → TestFrame → TestFrame
limit_rate n f = if n == 0 then f else set_frequence (int_of_bits n) f

unfoldable pub set_up : ℕ → CmdInfo → TestFrame
set_up case_pointer i = limit_rate i.frequence (
    set_duration_time (int_of_bits i.load_test_time) (
      set_thread_num (int_of_bits i.thread_num)
        (limit_times i.times_limit (set_test_case (some case_pointer) new_frame))))

-- How `main` gets on: it returns a code, it runs the frame, or it has left the bounds of a vector or
-- written through a null handle.
pub data Started : Type 0 where
  exits : ℤ → Started
  runs : CmdInfo → TestFrame → TestCaseIot → LogFile → Started
  undefined : Started

-- The log is opened, where there is one; a failure of `Init` is not looked at.
unfoldable pub open_log : CmdInfo → Option ℕ → Bytes → Option LogFile
unfolding log init_log to_str
open_log i file stamp =
    if is_empty i.log_file
    then some new_log_file
    else log stamp (to_str i) (init_log file new_log_file).0

unfoldable pub run_case : ℕ → Option ℕ → Bytes → CmdInfo → Started
unfolding open_log set_up
run_case case_pointer file stamp i = elim (open_log i file stamp) [
  | none ↦ undefined
  | some l ↦ runs i (set_up case_pointer i) (case_of i) l
]

module _ (j : Json) (files : Files) (case_pointer : ℕ) (file : Option ℕ) (stamp : Bytes) where
  -- `main` behind `config.Init`, with its result.
  unfoldable pub with_config : ℤ → Option (LoadTestConfig × ℤ) → Started
  unfolding run_case
  with_config cmd none = undefined
  with_config cmd (some (c, ret)) =
      if pos_part ret == 0 && neg_part ret == 0
      then elim (get_config (to_bits 32 cmd) c) [
        | none ↦ exits (negsuc 1)
        | some info ↦ run_case case_pointer file stamp info
      ]
      else exits (negsuc 0)

  -- `main`, where `cmd` is what `atoi` makes of the second argument.
  unfoldable pub main : ℕ → Bytes → ℤ → Started
  unfolding with_config
  main argc filename cmd =
      if ltb argc 3 then exits (pos 0) else with_config cmd (init j files filename new_config)
