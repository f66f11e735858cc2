-- ===== src/Logger/Files.antt =====
-- `SetLogFile`: the file that the logger writes, among the files on the disk. The date that fmt makes of
-- the time, and whether the file can be opened, are arguments.
use moboware.Base.{
  Bool, true, false, none, some, List, [], ◌∷◌, ◌++◌, Text, codes, text_keys, ◌==◌, ◌&&◌,
  if◌then◌else◌, ◌≡◌, ◌∙◌, refl, sym, ap, ap₂, append_assoc, Bool-cases, inl, inr, text_beq,
  text_beq_iff, subst,
}
use moboware.SocketServer.Table.{find}
use moboware.Logger.{Logger, wait_and_write}
use moboware.Logger.Lines.{
  Event, run_logger, lines_of, waiting, run_logger-lines_of, run_logger_lem, wait_and_write_lem,
}

-- A path: what stands before the file's name, its separator included, and the name.
pub record LogPath : Type 0 where
  pub directory : Text
  pub filename : Text

-- The logger, the path of the file that was opened last, and what the other files hold, the file that was
-- closed last in front.
pub record LogFiles : Type 0 where
  pub logger : Logger
  pub path : Text
  pub disk : List (Text × Text)

-- `replace_filename` with the date in front of the name.
unfoldable pub dated_path : LogPath → Text → Text
dated_path p date = p.directory ++ (date ++ (codes "_" ++ p.filename))

-- What a file holds; one that is not there holds nothing.
unfoldable pub text_of : Text → LogFiles → Text
unfolding find
text_of path s =
    if s.logger.file_is_open && s.path == path
    then s.logger.log_file
    else elim (find path s.disk) [ none ↦ [] | some text ↦ text ]

close_file : LogFiles → LogFiles
close_file s =
    if s.logger.file_is_open
    then record s {
      logger = record s.logger { file_is_open = false; log_file = [] };
      disk = (s.path, s.logger.log_file) ∷ s.disk;
    }
    else s

-- `open` with `std::ios_base::app`: what is written goes behind what the file holds.
unfoldable pub open_file : Text → Bool → LogFiles → LogFiles
unfolding text_of
open_file path works s =
    if works
    then record s {
      logger = record s.logger { file_is_open = true; log_file = text_of path s };
      path = path;
    }
    else s

abbrev pub file_start : Text
file_start = codes "Start new log file entry"

unfoldable pub set_log_file : LogPath → Text → Bool → LogFiles → Bool × LogFiles
unfolding dated_path close_file open_file
set_log_file p date works s =
    let path = dated_path p date in
    let closed = close_file s in
    let shown = record closed {
      logger = record closed.logger {
        console = closed.logger.console ++ (path ++ (codes "," ++ (path ++ codes "\n")));
      };
    } in
    let opened = open_file path works shown in
    let started = record opened {
      logger = record opened.logger { log_file = opened.logger.log_file ++ file_start };
    } in
    if opened.logger.file_is_open then (true, started) else (false, opened)

on_disk : Text → LogFiles → Text
unfolding find
on_disk q s = elim (find q s.disk) [ none ↦ [] | some text ↦ text ]

text_of_closed :
    (q : Text) (s : LogFiles) → s.logger.file_is_open ≡ false → text_of q s ≡ on_disk q s
unfolding text_of on_disk
text_of_closed q s c = rw c refl

text_beq_refl : (t : Text) → text_beq t t ≡ true
text_beq_refl t = (text_beq_iff t t).1 refl

-- A file that is closed holds what it held, and the queue and the level stay.
abbrev IsClosed : Text → LogFiles → LogFiles → Type 0
IsClosed q s s' =
    (text_of q s' ≡ text_of q s)
    × (s'.logger.file_is_open ≡ false)
    × (s'.logger.log_queue ≡ s.logger.log_queue)
    × (s'.logger.global_log_level ≡ s.logger.global_log_level)

close_file-IsClosed : (q : Text) (s : LogFiles) → IsClosed q s (close_file s)
unfolding close_file text_of find
close_file-IsClosed q s = elim (Bool-cases s.logger.file_is_open) [
  | inl o ↦ elim (Bool-cases (text_beq s.path q)) [
    | inl t ↦ rw (o, t) (refl, refl, refl, refl)
    | inr f ↦ rw (o, f) (refl, refl, refl, refl)
  ]
  | inr c ↦ rw c (refl, refl, refl, refl)
]

-- The new file is open, behind what it held stands the start; the queue and the level stay.
abbrev IsStarted : Text → LogFiles → LogFiles → Type 0
IsStarted path s s' =
    (s'.path ≡ path)
    × (s'.logger.file_is_open ≡ true)
    × (s'.logger.log_file ≡ text_of path s ++ file_start)
    × (s'.logger.log_queue ≡ s.logger.log_queue)
    × (s'.logger.global_log_level ≡ s.logger.global_log_level)

set_log_file-IsStarted :
    (p : LogPath) (date : Text) (s : LogFiles)
    → ((set_log_file p date true s).0 ≡ true)
      × IsStarted (dated_path p date) s (set_log_file p date true s).1
unfolding set_log_file open_file text_of
set_log_file-IsStarted p date s =
    let (text, closed, queue, level) = close_file-IsClosed (dated_path p date) s in
    (refl, (refl, refl, ap (λ t. t ++ file_start) text, queue, level))

-- Every other file holds what it held, whatever is then written to the new one.
set_log_file_others :
    (p : LogPath) (date q : Text) (s : LogFiles) (l : Logger)
    → (dated_path p date == q) ≡ false
    → text_of q (record (set_log_file p date true s).1 { logger = l }) ≡ text_of q s
unfolding set_log_file open_file text_of on_disk
set_log_file_others p date q s l other =
    let (text, closed, queue, level) = close_file-IsClosed q s in
    let kept = sym (text_of_closed q (close_file s) closed) ∙ text in
    elim (Bool-cases l.file_is_open) [ inl o ↦ rw (o, other) kept | inr c ↦ rw c kept ]

text_of_open : (s : LogFiles) → s.logger.file_is_open ≡ true → text_of s.path s ≡ s.logger.log_file
unfolding text_of
text_of_open s o = rw (o, text_beq_refl s.path) refl

-- The files after any lines, levels and wakes of the writer, and a writer that is signalled.
abbrev pub run_and_write : List Event → LogFiles → LogFiles
run_and_write es s = record s { logger = wait_and_write true (run_logger es s.logger) }

-- A log file that can be opened, then any lines, levels and wakes of the writer, and a writer that is
-- signalled: the file with the date in its name holds what it held before, the start without an end of
-- line, what was in the queue, and then the lines whose level is enabled, each cut off at the length of its
-- buffer; and every other file holds what it held.
pub set_log_file-lines_of :
    (p : LogPath) (date other : Text) (es : List Event) (s : LogFiles)
    → (dated_path p date == other) ≡ false
    → let path = dated_path p date in
      let s' = run_and_write es (set_log_file p date true s).1 in
      (text_of path s'
        ≡ text_of path s
          ++ (file_start ++ (waiting s.logger.log_queue ++ lines_of es s.logger.global_log_level)))
      × (text_of other s' ≡ text_of other s)
set_log_file-lines_of p date other es s e =
    let started = (set_log_file p date true s).1 in
    let (done, (there, is_opened, held, queue, level)) = set_log_file-IsStarted p date s in
    let s' = run_and_write es started in
    let old = text_of (dated_path p date) s in
    let queued = waiting s.logger.log_queue in
    let lines = lines_of es s.logger.global_log_level in
    let (still, text) = run_logger_lem es started.logger is_opened in
    let (same, kept) = wait_and_write_lem true (run_logger es started.logger) still in
    let written = (run_logger-lines_of es started.logger is_opened).1 in
    (
      subst (λ x. text_of x s' ≡ s'.logger.log_file) there (text_of_open s' (same.0 ∙ still))
          ∙ written
          ∙ ap₂ (λ h q. (h ++ waiting q) ++ lines_of es started.logger.global_log_level) held queue
          ∙ ap (λ v. ((old ++ file_start) ++ queued) ++ lines_of es v) level
          ∙ append_assoc (old ++ file_start) queued lines
          ∙ append_assoc old file_start (queued ++ lines),
      set_log_file_others p date other s s'.logger e,
    )
