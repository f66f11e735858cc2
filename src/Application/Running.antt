-- ===== src/Application/Running.antt =====
-- What Run does when the configuration is accepted.
use moboware.Base.{
  suc, Bool, true, false, Option, none, some, List, [], ◌∷◌, ◌++◌, Text, codes, All, length, ◌≡◌,
  refl, sym, ◌∙◌, ap, subst, if◌then◌else◌, ◌>>=◌, >>=-eq_some, nat_beq, nat_keys, arith,
  Bool-cases, Option-cases, inl, inr, is_empty,
}
use moboware.Channel.{ConfigJson, Channel, NetworkCall, contains, at, text_at, load_base_config}
use moboware.Logger.{get_level}
use moboware.Channel.Loading.{some_pair, no_success, load_base_config-modules}
use moboware.Channel.Starting.{
  call_all, and_then, call_all-append, channel_calls, start_channel-call_all,
}
use moboware.Application.{
  ConfigParser, Application, load_channels, load_channel_values, load_logging, directory_file,
  load_logging_node, load_root, parse_config, load_application_config, start_channels, RunResult,
  exit_failure, exit_success, run_application,
}

-- The calls of the channels, in their order.
unfoldable pub channels_calls : List Channel → List NetworkCall
channels_calls [] = []
channels_calls (c ∷ cs) = channel_calls c ++ channels_calls cs

start_channels-call_all :
    (works : NetworkCall → Bool) (cs : List Channel)
    → start_channels works cs ≡ call_all works (channels_calls cs)
unfolding start_channels channels_calls call_all and_then
start_channels-call_all works [] = refl
start_channels-call_all works (c ∷ cs) =
    rw (start_channel-call_all works c, start_channels-call_all works cs)
      (sym (call_all-append works (channel_calls c) (channels_calls cs)))

-- A channel with a module.
abbrev pub HasModule : Channel → Type 0
HasModule c = is_empty c.modules ≡ false

-- The branches of a conditional that gives success.
of_then :
    {A : Type 0} (b : Bool) (c : A) {o : Option (Bool × A)} {x : A}
    → (if b then o else some (false, c)) ≡ some (true, x)
    → o ≡ some (true, x)
of_then true c h = h
of_then false c h = no_success h refl refl

if_pair :
    (b : Bool) {calls : List NetworkCall}
    → let branches : Option (RunResult × List NetworkCall) =
        some (if b then (exit_success, calls) else (exit_failure, calls)) in
      branches ≡ some (if b then exit_success else exit_failure, calls)
if_pair true = refl
if_pair false = refl

module _ (J : ConfigJson) where
  load_channels-HasModule :
      (vs : List J.Value) (cs cs' : List Channel)
      → length vs ≡ length cs
      → load_channels J vs cs ≡ some (true, cs')
      → All HasModule cs' × (length cs' ≡ length cs)
  unfolding load_channels
  load_channels-HasModule [] [] cs' fits h =
      subst (λ xs. All HasModule xs × (length xs ≡ 0)) (some_pair h).1 (tt, refl)
  load_channels-HasModule [] (c ∷ cs) cs' fits h = absurd (omega (arith, fits))
  load_channels-HasModule (v ∷ vs) [] cs' fits h = absurd (omega (arith, fits))
  load_channels-HasModule (v ∷ vs) (c ∷ cs) cs' fits h =
      let fewer : length vs ≡ length cs = omega (arith, fits) in
      let (r, e, g) = >>=-eq_some (load_base_config J v c) _ h in
      elim (Bool-cases r.0) [
        | inr refused ↦
            let q : some (false, r.1 ∷ cs) ≡ some (true, cs') = rw refused at g in
            no_success q refl refl
        | inl loaded ↦
            let q : (load_channels J vs cs >>= (λ s. some (s.0, r.1 ∷ s.1))) ≡ some (true, cs') =
              rw loaded at g in
            let (s, e', g') = >>=-eq_some (load_channels J vs cs) _ q in
            let (all, same) = some_pair g' in
            let rest : load_channels J vs cs ≡ some (true, s.1) =
              e' ∙ ap (λ b. some (b, s.1)) all in
            let (deeper, size) = load_channels-HasModule vs cs s.1 fewer rest in
            let mine : load_base_config J v c ≡ some (true, r.1) =
              e ∙ ap (λ b. some (b, r.1)) loaded in
            subst (λ xs. All HasModule xs × (length xs ≡ suc (length cs))) same
              ((load_base_config-modules J v c r.1 mine, deeper), ap suc size)
      ]

  load_channel_values-HasModule :
      (vs : Option (List J.Value)) (app app' : Application)
      → load_channel_values J vs app ≡ some (true, app')
      → All HasModule app'.channels × (length app'.channels ≡ length app.channels)
  unfolding load_channel_values
  load_channel_values-HasModule none app app' h = no_success h refl refl
  load_channel_values-HasModule (some vs) app app' h =
      elim (Bool-cases (nat_beq (length vs) (length app.channels))) [
        | inr differ ↦
            let q : some (false, app) ≡ some (true, app') = rw differ at h in no_success q refl refl
        | inl same ↦
            let q : (load_channels J vs app.channels
                  >>= (λ s. some (s.0, record app { channels = s.1 })))
                ≡ some (true, app') =
              rw same at h in
            let (s, e, g) = >>=-eq_some (load_channels J vs app.channels) _ q in
            let (all, it) = some_pair g in
            let loaded : load_channels J vs app.channels ≡ some (true, s.1) =
              e ∙ ap (λ b. some (b, s.1)) all in
            subst (λ a. All HasModule a.channels × (length a.channels ≡ length app.channels)) it
              (load_channels-HasModule vs app.channels s.1
                ((nat_keys.same_iff (length vs) (length app.channels)).0 same) loaded)
      ]

  load_logging_node-channels :
      (name : Text) (node : J.Value) (app app' : Application)
      → load_logging_node J name node app ≡ some app'
      → app'.channels ≡ app.channels
  unfolding load_logging_node
  load_logging_node-channels name node app app' h =
      let (file, e1, g1) = >>=-eq_some (directory_file J name node app) _ h in
      let (level, e2, g2) = >>=-eq_some (text_at J node (codes "LogLevel")) _ g1 in
      let q : record app { log_file = file; level = some (get_level level) } ≡ app' = cc in
      ap (λ a. a.channels) (sym q)

  load_logging-channels :
      (name : Text) (root : J.Value) (app app' : Application)
      → load_logging J name root app ≡ some app'
      → app'.channels ≡ app.channels
  unfolding load_logging
  load_logging-channels name root app app' h =
      let (has, e, g) = >>=-eq_some (contains J root (codes "Logging")) _ h in
      elim (Bool-cases has) [
        | inr missing ↦
            let q : some app ≡ some app' = rw missing at g in
            let it : app ≡ app' = cc in ap (λ a. a.channels) (sym it)
        | inl there ↦
            let q : (at J root (codes "Logging") >>= (λ node. load_logging_node J name node app))
                ≡ some app' =
              rw there at g in
            let (node, e1, g1) = >>=-eq_some (at J root (codes "Logging")) _ q in
            load_logging_node-channels name node app app' g1
      ]

  load_root-HasModule :
      (name : Text) (root : J.Value) (app app' : Application)
      → load_root J name root app ≡ some (true, app')
      → All HasModule app'.channels × (length app'.channels ≡ length app.channels)
  unfolding load_root
  load_root-HasModule name root app app' h =
      let (a, e, g) = >>=-eq_some (load_logging J name root app) _ h in
      let (has, e1, g1) = >>=-eq_some (contains J root (codes "Channels")) _ g in
      let (x, e2, g2) = >>=-eq_some (at J root (codes "Channels")) _ (of_then has a g1) in
      let (all, size) = load_channel_values-HasModule (J.as_array x) a app' g2 in
      (all, size ∙ ap length (load_logging-channels name root app a e))

  load_application_config-HasModule :
      (P : ConfigParser J) (name : Text) (file : Option Text) (app app' : Application)
      → load_application_config J P name file app ≡ some (true, app')
      → All HasModule app'.channels × (length app'.channels ≡ length app.channels)
  unfolding load_application_config
  load_application_config-HasModule P name none app app' h = no_success h refl refl
  load_application_config-HasModule P name (some text) app app' h =
      elim (Option-cases (parse_config J P text)) [
        | inl refused ↦
            let q : some (false, app) ≡ some (true, app') =
              rw (refused, load_application_config) at h in
            no_success q refl refl
        | inr (root, parsed) ↦
            let q : load_root J name root app ≡ some (true, app') =
              rw (parsed, load_application_config) at h in
            load_root-HasModule name root app app' q
      ]

  -- If the configuration is accepted, each channel has a module, and no channel is lost; and Run makes the calls of
  -- the channels in their order, each channel's listening first and then those of its modules, up to the
  -- first that fails: it runs the service and returns EXIT_SUCCESS if none fails, and EXIT_FAILURE otherwise.
  pub run_application-call_all :
      (P : ConfigParser J) (works : NetworkCall → Bool) (name : Text) (file : Option Text)
      (app app' : Application)
      → load_application_config J P name file app ≡ some (true, app')
      → let (done, calls) = call_all works (channels_calls app'.channels) in
        All HasModule app'.channels
        × (length app'.channels ≡ length app.channels)
        × (run_application J P works name file app
            ≡ some (if done then exit_success else exit_failure, calls))
  unfolding run_application
  run_application-call_all P works name file app app' h =
      let (modules, size) = load_application_config-HasModule P name file app app' h in
      (
        modules,
        size,
        rw (h, start_channels-call_all works app'.channels)
            (if_pair (call_all works (channels_calls app'.channels)).0),
      )
