-- ===== src/Lib.antt =====
-- A load test program: `main` reads a test from a JSON file, sets up a frame of threads that send the
-- request of the test over TCP, at a limited rate and number, and prints statistics every second.
--
-- Prelude: bytes, tests, sums over threads, and `int`: ℕ is the native one, ℤ is built on it, and each
--   conversion and each arithmetic operation on a machine word is written with its wrap-around.
-- Synch: src/testsynch.h and src/testsynch.cpp. The mutex, the atomic counter, and the waits with their
--   deadlines and codes. Return codes of the pthread functions are arguments; `none` is a failed
--   `assert`. Synch.Deadlines has the properties of the timed waits.
-- Statistic: TestFrameStatistic of src/testframe.cpp. `increase_success_count`,
--   `increase_failure_count` and `update_delay` are its methods; `report` and `reset_ps` are the two
--   parts of `Output`. The specification is a list of the calls received (Statistic.History).
-- Frame: TestFrame and TestFrameThread of src/testframe.cpp. Frame.Worker has the steps of a thread in
--   `RunX` and `Execute` (`Move`), one access to shared state at a time; Frame.System has those of the
--   main thread in `Run` (`Drive`) and their interleavings (`Step`, `Reach`). A wait ends by a broadcast
--   or by itself, which the label `early` shows. Below them: the lock and the start (Frame.Lock), who
--   can go on (Frame.Progress), the repeat count (Frame.Quota), the rate (Frame.Rate), a thread that
--   comes late (Frame.Start), the calls of the statistics (Frame.Record), the end of the run
--   (Frame.Stop, Frame.Exit), its duration (Frame.Duration), the packets of the whole run (Frame.Pace)
--   and how a thread comes to one (Frame.Supply, Frame.Endless); how many steps the threads make
--   (Frame.Work, and Frame.Effort with flow control), the states at rest (Frame.Idle, Frame.Complete,
--   Frame.Spent), the way to the end (Frame.Ends, Frame.Finish) and the lines of the report for the
--   seconds (Frame.Seconds). Results of Init, PreExecute and Execute, and readings of the clock, are left
--   open.
-- Client: src/Client.h and src/Client.cpp. `tcp_iot` and `send_http` take the results of the socket
--   calls (`Network`); the calls of `recv` are a list of events, and a loop that has not ended when the
--   list does is `waiting`. `out_of_bounds` is a read past the buffer. The decoder of HTTP responses is
--   an argument of `send_http`; Client.Answers gives the one of the program, which is TC_HttpResponse
--   as Response has it, Client.Answered what comes of a call with it, and
--   Client.Overread when the buffer is overrun.
-- Config: src/loadConfig.h and src/loadConfig.cpp, with `sepstr` and `strto<unsigned short>` of
--   tcinclude/tc_common.h in Config.Split. The JSON library and TC_File are records of operations
--   (`Json`, `Files`). The map of the entries is a list with `find` and `insert`, since the program only
--   looks entries up. The loop of `sepstr` has fuel for one round more than the text has bytes, and
--   each round takes at least one. Config.Lookup says which entry is found, Config.Contents where its
--   values come from.
-- Text: what a stream prints for a number, and strtol, atoi and strstr of the C library. The fuel for the
--   digits of a number is one more than the number.
-- Response: TC_Common::trim of tcinclude/tc_common.cpp, and TC_HttpResponse of tcinclude/tc_http.cpp, by
--   which `SendHttp` reads a response. The parent module has getLine, parseHeader and getHeader: header
--   fields are a list in the order of their lines, and the loop has fuel for one line more than there
--   are bytes, of which each round takes at least one. Response.Decode has the rest of the way from
--   `decode` to the content: parseResponseHeader, the lengths, and `incrementDecode` with its two kinds
--   of body. Its loop over the chunks has fuel for one round more than there are bytes, and each round
--   takes at least four. `none` is a read behind the NUL of a C string, or behind an array. Response.Fields, Chunks, Sized
--   and Chunked have the round trips, Response.Overload the second `decode`, Response.Fuel the ends of
--   the loops, Response.Bounds the bounds, and Response.Early the test for the end of a response.
-- TestCase: TestCase_IOT and log_file of src/testexample.cpp.
-- Main: `main` of src/testexample.cpp and `CmdInfo::to_str`, from the arguments to the call of
--   `TestFrame::Run`. `set_up` makes the calls of the setters. Main.Limits is about the configured
--   numbers in a run, and Main.Start about the way there.
-- Program: the parts together. A `Process` is the system of Frame with a client for each thread, which
--   `RunX` declares, and the log that they share; a step (`Turn`) is one of the main thread, one of a
--   thread, or a call of `Init`, `PreExecute` or `Execute` of the test case with its client, in which the
--   answers of the network are left open. `Execute` is one step up to the recording of the delay, the
--   line that it logs included, so the order of the lines is that of these steps. A call that hangs or
--   leaves the bounds of an array has no step. The acts of a run (`Ran`) say what each request came to.
--   Program.Refines compares with the frame, Program.Counts with the printed numbers, Program.Log with
--   the log; Program.Clients is about the servers; Program.Ready, Program.Handles, Program.Whole and
--   Program.Complete start from `main`.
--
-- Not modelled: the moments between the readings of one report, which `Output` makes without the mutex
-- and a step of the model makes at once; the scheduler, so that nothing is said of how long a thread that
-- can go on is kept from it; what is printed to the terminal, but for the numbers of the report; the
-- texts of errors; TestCase_Https, which is disabled by `#if 0`; the stub testFrame.cpp; and the rest of
-- tcinclude, the bundled library of another project, of which the program calls only what is named above,
-- two functions of TC_File, and TC_Singleton.
pub mod Prelude
pub mod Synch
pub mod Statistic
pub mod Frame
pub mod Client
pub mod Config
pub mod Text
pub mod Response
pub mod TestCase
pub mod Main
pub mod Program
