-- ===== src/Logger/Lines.antt =====
-- The lines that reach the log file.
use moboware.Base.{
  ℕ, zero, suc, Bool, true, List, [], ◌∷◌, ◌++◌, ◌≡◌, ◌∙◌, refl, ap, sym, Text, codes, text_keys,
  subst, ap₂, append_assoc, append-nil, length, take, if◌then◌else◌, ◌&&◌, not, is_empty, leb,
  arith, Bool-cases, inl, inr,
}
use moboware.Logger.{
  level_number, Logger, TrivialBuffer, LogLevel, log_buffer, written_data, set_level, test_level,
  push_until, log, consume_all, wait_and_write,
}
use moboware.Logger.Buffers.{written_data-log_buffer}

-- What happens to a logger.
pub data Event : Type 0 where
  line_logged : LogLevel → Text → Text → Text → ℕ → Event
  level_set : LogLevel → Event
  writer_woken : Bool → Event

unfoldable pub step : Event → Logger → Logger
unfolding log set_level wait_and_write
step (line_logged level memory before line fulls) s = log level memory before line fulls s
step (level_set level) s = set_level level s
step (writer_woken signalled) s = wait_and_write signalled s

unfoldable pub run_logger : List Event → Logger → Logger
unfolding step
run_logger [] s = s
run_logger (e ∷ es) s = run_logger es (step e s)

-- The lines whose level is at least the level that is set, unless that is none; cut off at the length of
-- their buffers.
unfoldable pub lines_of : List Event → LogLevel → Text
lines_of [] global = []
lines_of (line_logged level memory before line fulls ∷ es) global =
    let rest = lines_of es global in
    (if leb 1 (level_number global) && leb (level_number global) (level_number level)
      then take (length memory) (before ++ (line ++ codes "\n"))
      else [])
    ++ rest
lines_of (level_set level ∷ es) global = lines_of es level
lines_of (writer_woken signalled ∷ es) global = lines_of es global

test_level_lem :
    (level : LogLevel) (s : Logger)
    → test_level level s
      ≡ leb 1 (level_number s.global_log_level)
        && leb (level_number s.global_log_level) (level_number level)
unfolding test_level
test_level_lem level s = ground arith

-- What is in the queue.
unfoldable pub waiting : List (TrivialBuffer ℕ) → Text
waiting [] = []
waiting (b ∷ bs) = written_data b ++ waiting bs

waiting-append :
    (bs : List (TrivialBuffer ℕ)) (b : TrivialBuffer ℕ)
    → waiting (bs ++ (b ∷ [])) ≡ waiting bs ++ written_data b
unfolding waiting
waiting-append [] b = append-nil (written_data b)
waiting-append (c ∷ bs) b =
    ap (◌++◌ (written_data c)) (waiting-append bs b)
    ∙ sym (append_assoc (written_data c) (waiting bs) (written_data b))

-- What is in the file and what will be.
abbrev pub logged_text : Logger → Text
logged_text s = s.log_file ++ waiting s.log_queue

-- The file is open, and the level the same.
abbrev pub SameAs : Logger → Logger → Type 0
SameAs s s' = (s'.file_is_open ≡ s.file_is_open) × (s'.global_log_level ≡ s.global_log_level)

push_until_lem :
    (n : ℕ) (b : TrivialBuffer ℕ) (s : Logger)
    → SameAs s (push_until n b s)
      × (logged_text (push_until n b s) ≡ logged_text s ++ written_data b)
unfolding push_until
push_until_lem zero b s = (
  (refl, refl),
  ap (◌++◌ s.log_file) (waiting-append s.log_queue b)
      ∙ sym (append_assoc s.log_file (waiting s.log_queue) (written_data b)),
)
push_until_lem (suc n) b s =
    push_until_lem n b (record s { console = s.console ++ codes "Log Queue full!!!\n" })

consume_all-cons :
    (b : TrivialBuffer ℕ) (bs : List (TrivialBuffer ℕ)) (s : Logger)
    → s.file_is_open ≡ true
    → consume_all (b ∷ bs) s ≡ consume_all bs (record s { log_file = s.log_file ++ written_data b })
unfolding consume_all
consume_all-cons b bs s o =
    let to_file = consume_all bs (record s { log_file = s.log_file ++ written_data b }) in
    let to_console = consume_all bs (record s { console = s.console ++ written_data b }) in
    ap (λ c. if c then to_file else to_console) o

-- Everything in the queue goes to the open file.
abbrev Consumed : List (TrivialBuffer ℕ) → Logger → Logger → Type 0
Consumed bs s s' = SameAs s s' × (s'.log_file ≡ s.log_file ++ waiting bs) × (s'.log_queue ≡ [])

consume_all-Consumed :
    (bs : List (TrivialBuffer ℕ)) (s : Logger)
    → s.file_is_open ≡ true
    → Consumed bs s (consume_all bs s)
unfolding waiting
consume_all-Consumed [] s o =
    unfold consume_all in ((refl, refl), sym (append-nil s.log_file), refl)
consume_all-Consumed (b ∷ bs) s o =
    let s' : Logger = record s { log_file = s.log_file ++ written_data b } in
    let rest = consume_all-Consumed bs s' o in
    subst (Consumed (b ∷ bs) s) (sym (consume_all-cons b bs s o))
      (rest.0, rest.1 ∙ append_assoc s.log_file (written_data b) (waiting bs), rest.2)

-- A woken writer leaves the text of the file and the queue together as it is.
pub wait_and_write_lem :
    (signalled : Bool) (s : Logger)
    → s.file_is_open ≡ true
    → SameAs s (wait_and_write signalled s)
      × (logged_text (wait_and_write signalled s) ≡ logged_text s)
unfolding wait_and_write
wait_and_write_lem signalled s o = elim (Bool-cases (signalled && not (is_empty s.log_queue))) [
  | inl writes ↦
      let done = consume_all-Consumed s.log_queue s o in
      let text = ap₂ (λ w q. w ++ waiting q) done.1 done.2 in
      rw writes (done.0, text ∙ (unfold waiting in append-nil (s.log_file ++ waiting s.log_queue)))
  | inr waits ↦ rw waits ((refl, refl), refl)
]

log_lem :
    (level : LogLevel) (memory before line : Text) (fulls : ℕ) (s : Logger)
    → let s' : Logger = log level memory before line fulls s in
      SameAs s s'
      × (logged_text s'
          ≡ logged_text s
            ++ (if test_level level s
                then take (length memory) (before ++ (line ++ codes "\n"))
                else []))
unfolding log
log_lem level memory before line fulls s = elim (Bool-cases (test_level level s)) [
  | inl tested ↦
      let pushed = push_until_lem fulls (log_buffer memory before line) s in
      rw tested (
        pushed.0,
        pushed.1 ∙ ap (◌++◌ (logged_text s)) (written_data-log_buffer memory before line),
      )
  | inr untested ↦ rw untested ((refl, refl), sym (append-nil (logged_text s)))
]

pub run_logger_lem :
    (es : List Event) (s : Logger)
    → s.file_is_open ≡ true
    → ((run_logger es s).file_is_open ≡ true)
      × (logged_text (run_logger es s) ≡ logged_text s ++ lines_of es s.global_log_level)
unfolding run_logger step lines_of set_level
run_logger_lem [] s o = (o, sym (append-nil (logged_text s)))
run_logger_lem (line_logged level memory before line fulls ∷ es) s o =
    let s' : Logger = log level memory before line fulls s in
    let (same, text) = log_lem level memory before line fulls s in
    let rest = run_logger_lem es s' (same.0 ∙ o) in
    let cut = take (length memory) (before ++ (line ++ codes "\n")) in
    let new : Bool → Text = λ b. if b then cut else [] in
    (
      rest.0,
      rest.1
          ∙ ap₂ (λ t l. t ++ lines_of es l) text same.1
          ∙ append_assoc (logged_text s) (new (test_level level s)) (lines_of es s.global_log_level)
          ∙ ap (λ b. logged_text s ++ (new b ++ lines_of es s.global_log_level))
              (test_level_lem level s),
    )
run_logger_lem (level_set level ∷ es) s o =
    run_logger_lem es (record s { global_log_level = level }) o
run_logger_lem (writer_woken signalled ∷ es) s o =
    let (same, text) = wait_and_write_lem signalled s o in
    let rest = run_logger_lem es (wait_and_write signalled s) (same.0 ∙ o) in
    (rest.0, rest.1 ∙ ap₂ (λ t l. t ++ lines_of es l) text same.1)

is_empty_nil : {A : Type 0} (xs : List A) → is_empty xs ≡ true → xs ≡ []
is_empty_nil [] h = refl
is_empty_nil (x ∷ xs) h = absurd (cc)

wait_and_write-empties :
    (s : Logger)
    → s.file_is_open ≡ true
    → ((wait_and_write true s).log_file ≡ logged_text s) × ((wait_and_write true s).log_queue ≡ [])
unfolding wait_and_write
wait_and_write-empties s o = elim (Bool-cases (is_empty s.log_queue)) [
  | inl nothing ↦
      let e : s.log_queue ≡ [] = is_empty_nil s.log_queue nothing in
      rw nothing (
        sym (append-nil s.log_file) ∙ (unfold waiting in ap (λ q. s.log_file ++ waiting q) (sym e)),
        e,
      )
  | inr some_lines ↦
      let done = consume_all-Consumed s.log_queue s o in rw some_lines (done.1, done.2)
]

-- Whatever lines are logged on a logger whose file is open, whatever levels are set and whenever its
-- writer is woken: the file and the queue together hold what they held and then the lines whose level
-- is enabled when they are logged, in their order, each cut off at the length of its buffer; and a
-- writer that is signalled then writes all of it to the file, and leaves the queue empty.
pub run_logger-lines_of :
    (es : List Event) (s : Logger)
    → s.file_is_open ≡ true
    → let s' : Logger = run_logger es s in
      let text : Text = logged_text s ++ lines_of es s.global_log_level in
      (logged_text s' ≡ text)
      × ((wait_and_write true s').log_file ≡ text)
      × ((wait_and_write true s').log_queue ≡ [])
run_logger-lines_of es s o =
    let (open_still, text) = run_logger_lem es s o in
    let (file, queue) = wait_and_write-empties (run_logger es s) open_still in
    (text, file ∙ text, queue)
