-- ===== src/TestCase.antt =====
-- testexample.cpp: the test case of the program (`TestCase_IOT`) and its log (`log_file`). The clock
-- and the thread's number enter as the text in front of a line of the log.
pub mod Results
mod Tests
use test_frame.Prelude.{
  ℕ, ◌==◌, if◌then◌else◌, Bool, true, false, ◌&&◌, Option, none, some, ℤ, pos, negsuc, pos_part,
  neg_part, List, [], ◌∷◌, ◌++◌, is_empty, Bytes, contains,
}
use test_frame.Client.{
  Client, Network, Outcome, returns, waiting, out_of_bounds, add_server, tcp_iot,
}
use test_frame.Config.{TcpInfo}

-- `log_file`: the handle of the file, and what was written to it.
pub record LogFile : Type 0 where
  pub handle : Option ℕ
  pub written : Bytes

abbrev pub new_log_file : LogFile
new_log_file = record { handle = none; written = [] }

-- `log_file::Init`, with what `fopen` returns.
unfoldable pub init_log : Option ℕ → LogFile → LogFile × ℤ
init_log none l = (record l { handle = none }, negsuc 0)
init_log (some file) l = (record l { handle = some file }, pos 0)

-- What `fputs` writes: the text up to its first NUL.
unfoldable pub put_text : Bytes → Bytes
put_text [] = []
put_text (c ∷ text) = let rest = put_text text in if c == 0 then [] else c ∷ rest

-- `log_file::log`; `none` is a write through a null handle.
unfoldable pub log : Bytes → Bytes → LogFile → Option LogFile
unfolding put_text
log stamp text l = elim l.handle [
  | none ↦ none
  | some file ↦ some (record l { written = l.written ++ put_text (stamp ++ text) })
]

pub record TestCaseIot : Type 0 where
  pub ip_port : List TcpInfo
  pub pre_req : Bytes
  pub req : Bytes
  pub log_file : Bytes
  pub pre_assert : Bytes
  pub assert : Bytes

-- `Init`: the servers are added to the client.
unfoldable pub add_servers : List TcpInfo → Client → Client
add_servers [] c = c
add_servers (t ∷ ts) c = add_servers ts (add_server t.ip t.port c)

unfoldable pub init_case : TestCaseIot → Client → Client
unfolding add_servers
init_case tc c = add_servers tc.ip_port c

-- How a test ends: with a result, or it is still waiting for the server, or it has left the bounds of
-- an array or written through a null handle.
pub data Tested : Type 0 where
  ended : ℤ → LogFile → Tested
  hangs : Tested
  undefined : Tested

-- `0` if the response holds the text that is looked for.
abbrev pub verdict : Bytes → Bytes → ℤ
verdict assert rsp = if contains assert rsp then pos 0 else negsuc 1

-- What follows the call of `tcp_iot` in `Execute` and in `PreExecute`.
unfoldable pub judge : TestCaseIot → Bytes → Bytes → LogFile → Outcome → Tested
unfolding log
judge tc assert stamp l (returns code rsp) =
    if pos_part code == 0 && neg_part code == 0
    then (if is_empty tc.log_file
        then ended (verdict assert rsp) l
        else elim (log stamp rsp l) [ none ↦ undefined | some l' ↦ ended (verdict assert rsp) l' ])
    else ended (negsuc 0) l
judge tc assert stamp l waiting = hangs
judge tc assert stamp l out_of_bounds = undefined

unfoldable pub execute : TestCaseIot → Network → Bytes → Client → LogFile → Client × Tested
unfolding judge
execute tc net stamp c l =
    let (c', outcome) = tcp_iot c net tc.req [] in (c', judge tc tc.assert stamp l outcome)

unfoldable pub pre_execute : TestCaseIot → Network → Bytes → Client → LogFile → Client × Tested
unfolding judge
pre_execute tc net stamp c l =
    if is_empty tc.pre_req
    then (c, ended (pos 0) l)
    else (let (c', outcome) = tcp_iot c net tc.pre_req [] in
        (c', judge tc tc.pre_assert stamp l outcome))
