-- ===== src/Logger/Tests.antt =====
-- Lines in buffers of eight characters.
use moboware.Base.{true, false, List, [], ◌∷◌, ◌++◌, ◌≡◌, ◌≢◌, refl, Text, codes, text_beq}
use moboware.Logger.{
  Logger, LogLevel, log_none, trace, debug, info, warning, error, fatal, level_name, get_level,
  wait_and_write,
}
use moboware.Logger.Files.{
  LogPath, LogFiles, dated_path, text_of, set_log_file, run_and_write, set_log_file-lines_of,
}
use moboware.Logger.Lines.{
  Event, line_logged, level_set, writer_woken, run_logger, waiting, lines_of, logged_text,
  run_logger-lines_of,
}

-- The name of a level reads back as that level, except that of log_none.
get_level-level_name : (level : LogLevel) → level ≢ log_none → get_level (level_name level) ≡ level
unfolding get_level level_name text_beq
get_level-level_name log_none n = absurd (n refl)
get_level-level_name trace n = refl
get_level-level_name debug n = refl
get_level-level_name info n = refl
get_level-level_name warning n = refl
get_level-level_name error n = refl
get_level-level_name fatal n = refl

none_reads_as_info : get_level (level_name log_none) ≡ info
unfolding get_level level_name text_beq
none_reads_as_info = refl

abbrev open_logger : Logger
open_logger = record {
  log_queue = [];
  log_file = codes "start";
  file_is_open = true;
  console = [];
  global_log_level = info;
}

-- A debug line is not logged; the error fits, and the fatal line is cut off with its end.
abbrev some_lines : List Event
some_lines =
    line_logged debug (codes "........") (codes "[d]") (codes "no") 0
    ∷ line_logged error (codes "........") (codes "[e]") (codes "bad") 2
    ∷ writer_woken false
    ∷ level_set fatal
    ∷ line_logged fatal (codes "........") (codes "[f]") (codes "long line") 0
    ∷ []

both_lines : logged_text (run_logger some_lines open_logger) ≡ codes "start[e]bad\n[f]long "
unfolding run_logger waiting
both_lines = refl

run_logger-lines_of_example :
    let s' : Logger = run_logger some_lines open_logger in
    let text : Text = codes "start" ++ lines_of some_lines info in
    (logged_text s' ≡ text)
    × ((wait_and_write true s').log_file ≡ text)
    × ((wait_and_write true s').log_queue ≡ [])
unfolding waiting
run_logger-lines_of_example = run_logger-lines_of some_lines open_logger refl

-- The file of the day is there already, and the logger's file is another one.
abbrev daily_log : LogPath
daily_log = record { directory = codes "/log/"; filename = codes "app.log" }

abbrev log_files : LogFiles
log_files = record {
  logger = open_logger;
  path = codes "/log/old.log";
  disk = (codes "/log/20240608_app.log", codes "first\n") ∷ [];
}

-- The first line stands on the line of the start.
set_log_file-lines_of_example :
    let s' =
      run_and_write some_lines (set_log_file daily_log (codes "20240608") true log_files).1 in
    (text_of (codes "/log/20240608_app.log") s'
      ≡ codes "first\nStart new log file entry[e]bad\n[f]long ")
    × (text_of (codes "/log/old.log") s' ≡ codes "start")
unfolding text_of dated_path text_beq waiting lines_of
set_log_file-lines_of_example =
    set_log_file-lines_of daily_log (codes "20240608") (codes "/log/old.log") some_lines log_files
      refl
