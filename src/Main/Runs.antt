-- ===== src/Main/Runs.antt =====
-- A run of testexample.cpp, `main`, up to the frame.
use test_frame.Prelude.{true, []}
use test_frame.Config.{Files}

-- Every file exists, and none has anything in it that the library looks at.
abbrev disk : Files
disk = record { is_file_exist = λ name. true; load_to_str = λ name. [] }
