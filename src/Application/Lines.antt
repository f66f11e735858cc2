-- ===== src/Application/Lines.antt =====
-- The lines of the configuration file.
use moboware.Base.{
  Bool, false, none, some, List, [], ◌∷◌, ◌++◌, Text, ◌≡◌, refl, ◌∙◌, ap, nat_beq, Bool-cases, inl,
  inr,
}
use moboware.Channel.{ConfigJson, NetworkCall}
use moboware.Application.{
  ConfigParser, lines, Application, parse_lines, parse_config, load_application_config,
  run_application, exit_failure,
}

-- The lines of a text have a first one.
lines_cons : (s : Text) → (line : Text) × (rest : List Text) × (lines s ≡ line ∷ rest)
unfolding lines
lines_cons [] = ([], [], refl)
lines_cons (c ∷ s) =
    let (line, rest, e) = lines_cons s in
    elim (Bool-cases (nat_beq c 10)) [
      | inl newline ↦ ([], line ∷ rest, rw (e, newline, lines) refl)
      | inr other ↦ (c ∷ line, rest, rw (e, other, lines) refl)
    ]

lines-append : (a b : Text) → lines (a ++ (10 ∷ b)) ≡ lines a ++ lines b
unfolding lines
lines-append [] b = let (line, rest, e) = lines_cons b in rw (e, lines) refl
lines-append (c ∷ a) b =
    let (line, rest, e) = lines_cons a in
    let deeper : lines (a ++ (10 ∷ b)) ≡ line ∷ (rest ++ lines b) =
      lines-append a b ∙ ap (λ xs. xs ++ lines b) e in
    elim (Bool-cases (nat_beq c 10)) [
      | inl newline ↦ rw (deeper, e, newline, lines) refl
      | inr other ↦ rw (deeper, e, other, lines) refl
    ]

module _ (J : ConfigJson) (P : ConfigParser J)
    (takes_nothing : (s : P.State) → (P.write_some [] s).0 ≡ 0) where
  parse_lines_empty_line :
      (xs ys : List Text) (s : P.State) → parse_lines J P (xs ++ ([] ∷ ys)) s ≡ none
  unfolding parse_lines
  parse_lines_empty_line [] ys s = rw (takes_nothing s) refl
  parse_lines_empty_line (x ∷ xs) ys s =
      let taken = nat_beq (P.write_some x s).0 0 in
      elim (Bool-cases taken) [
        | inl none_taken ↦ rw none_taken refl
        | inr some_taken ↦ rw some_taken (parse_lines_empty_line xs ys (P.write_some x s).1)
      ]

  parse_config_empty_line :
      (text : Text) (xs ys : List Text)
      → lines text ≡ xs ++ ([] ∷ ys)
      → parse_config J P text ≡ none
  unfolding parse_config
  parse_config_empty_line text xs ys e = rw (e, parse_lines_empty_line xs ys P.initial) refl

  load_refused :
      (name text : Text) (app : Application)
      → parse_config J P text ≡ none
      → load_application_config J P name (some text) app ≡ some (false, app)
  unfolding load_application_config
  load_refused name text app refused = rw (refused, load_application_config) refl

  run_application_refused :
      (works : NetworkCall → Bool) (name text : Text) (app : Application)
      → parse_config J P text ≡ none
      → run_application J P works name (some text) app ≡ some (exit_failure, [])
  unfolding run_application
  run_application_refused works name text app refused = rw (load_refused name text app refused) refl

  -- If the parser takes no byte of an empty text: Run returns EXIT_FAILURE for a configuration file that ends
  -- with a newline, and for one that has two newlines in a row, whatever else the file has, and no channel is
  -- started.
  pub run_application_newline :
      (works : NetworkCall → Bool) (name a b : Text) (app : Application)
      → (run_application J P works name (some (a ++ (10 ∷ []))) app ≡ some (exit_failure, []))
        × (run_application J P works name (some (a ++ (10 ∷ (10 ∷ b)))) app
            ≡ some (exit_failure, []))
  run_application_newline works name a b app =
      let last : lines (a ++ (10 ∷ [])) ≡ lines a ++ ([] ∷ []) =
        unfold lines in lines-append a [] in
      let blank : lines (a ++ (10 ∷ (10 ∷ b))) ≡ lines a ++ ([] ∷ lines b) =
        unfold lines in lines-append a (10 ∷ b) ∙ ap (λ xs. lines a ++ xs) (lines-append [] b) in
      (
        run_application_refused works name (a ++ (10 ∷ [])) app
            (parse_config_empty_line (a ++ (10 ∷ [])) (lines a) [] last),
        run_application_refused works name (a ++ (10 ∷ (10 ∷ b))) app
            (parse_config_empty_line (a ++ (10 ∷ (10 ∷ b))) (lines a) (lines b) blank),
      )
