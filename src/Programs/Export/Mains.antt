-- ===== src/Programs/Export/Mains.antt =====
-- The whole of qexport, from the command line to the exit status.
use cpp_atmi.Prelude.{
  ℕ, ◌≡◌, inl, inr, Bool, true, false, Option, none, some, List, [], ◌∙◌, ap, Option-cases,
  Bool-cases, ◌<◌, ◌||◌,
}
use cpp_atmi.Prelude.Lists.{length, get_elem?}
use cpp_atmi.Atmi.Codes.{Constants}
use cpp_atmi.Atmi.Texts.{Text, Texts}
use cpp_atmi.Atmi.Calls.{Atmi, Queueing, Qctl, Ptr, Tpinit, Joining}
use cpp_atmi.Method.{Outcome, ok, err}
use cpp_atmi.QueueStream.Server.{View, IsServer}
use cpp_atmi.Client.{AbstractClient}
use cpp_atmi.Client.Factories.{new_user}
use cpp_atmi.Options.{
  Process, Opt, opt_q, opt_d, Options, ExportOptions, set_export, export_options,
}
use cpp_atmi.Options.Parses.{IsProcess, last_operand, occurs, same, parse-Reads}
use cpp_atmi.Programs.{Shell, IsQuiet, Exit, report, closing, with_client, with_queue}
use cpp_atmi.Programs.Joins.{
  IsApart, Spares, Closes, closing-Closes, new_user-Spares, parse-Spares, set_export-view,
}
use cpp_atmi.Programs.Export.{run, export_to, export_main}
use cpp_atmi.Programs.Export.Rounds.{Pause, found, left, actions, ArePauses}
use cpp_atmi.Programs.Export.Runs.{RunExports, run-Exports}

module _ {W : Type 0} ⦃a : Atmi W⦄ ⦃t : Texts⦄ ⦃k : Constants⦄ ⦃s : Queueing W⦄ ⦃h : Shell W⦄
    ⦃p : Process W⦄ ⦃j : Joining W⦄ {qspace queue : Text} {view : W → View}
    {form : W → Ptr → ℕ → Text} (law : IsServer qspace queue k.tpex_string view form)
    (quiet : IsQuiet view) (apart : IsApart view) where
  closed-RunExports :
      (ms rest : List Text) (out : Text) (o o' : Exit W)
      → RunExports law quiet ms rest out o
      → Closes quiet apart o o'
      → RunExports law quiet ms rest out o'
  closed-RunExports ms rest out o none e c = tt
  closed-RunExports ms rest out none (some r) e c = absurd c
  closed-RunExports ms rest out (some (status, out₁, w₁)) (some (false, out₂, w₂)) e c = tt
  closed-RunExports ms rest out (some (true, out₁, w₁)) (some (true, out₂, w₂)) e c =
      (c.1 ∙ e.0, ap View.contents c.2 ∙ e.1, rw c.2 e.2)
  closed-RunExports ms rest out (some (false, out₁, w₁)) (some (true, out₂, w₂)) e c = cc

  export_to-Exports :
      (fuel : ℕ) (is : List (Pause W)) (o : ExportOptions) (raw : Qctl) (c : AbstractClient) (w : W)
      → ArePauses view is
      → RunExports law quiet
          (found o.daemon (view w).contents is)
          (left o.daemon is)
          []
          (export_to fuel (actions is) o raw qspace queue c w)
  unfolding export_to
  export_to-Exports fuel is o raw c w ps =
      let n = o.queue_options.options.buffer_size in
      let runs : (v : W)
          → RunExports law quiet (found o.daemon (view v).contents is) (left o.daemon is) []
              (run fuel (actions is) qspace queue n [] o.daemon raw c v) =
        (λ v. run-Exports law quiet fuel is n [] o.daemon raw c v ps) in
      elim (Option-cases o.output_file) [
        | inl e ↦ rw (e, export_to) (runs w)
        | inr (path, e) ↦
            let (opened, w₁) = h.open_out path w in
            elim (Bool-cases opened) [
              | inl yes' ↦ rw (e, yes', export_to) (rw (← apart.created path w) (runs w₁))
              | inr no' ↦ rw (e, no', export_to) tt
            ]
      ]

  with_client-Exports :
      (ms rest : List Text) (cltname : Text) (o : Options) (raw : Tpinit)
      (work : AbstractClient → W → Exit W) (w : W)
      → ((c : AbstractClient) (v : W)
          → view v ≡ view w
          → RunExports law quiet ms rest [] (work c v))
      → RunExports law quiet ms rest [] (with_client cltname o raw work w)
  unfolding with_client
  with_client-Exports ms rest cltname o raw work w each =
      go (new_user (some cltname) o.user o.sys_passwd o.app_passwd o.group raw w)
        (new_user-Spares quiet apart (some cltname) o.user o.sys_passwd o.app_passwd o.group raw w)
    where
      go :
          (made : Option (Outcome AbstractClient × W))
          → Spares quiet apart w made
          → RunExports law quiet ms rest [] (elim made [
            | none ↦ none
            | some (err e, w₁) ↦ some (false, [], report e w₁)
            | some (ok c, w₁) ↦ closing c (work c w₁)
          ])
      go none spares = tt
      go (some (err e, w₁)) spares = tt
      go (some (ok c, w₁)) spares =
          closed-RunExports ms rest [] (work c w₁) (closing c (work c w₁)) (each c w₁ spares)
            (closing-Closes quiet apart c (work c w₁))

  flags_from : (b d : Bool) → b ≡ (export_options.daemon || d) → b ≡ d
  unfolding export_options
  flags_from b d h = h

  module _ {rest : W → List (Opt × Text)} {parts : Text → List Text}
      (reads : IsProcess export_options.queue_options.options.arguments rest parts) where
    pub export_main-Exports :
        (turns fuel : ℕ) (is : List (Pause W)) (pname operand : Text) (raw : Qctl) (info : Tpinit)
        (w : W)
        → ArePauses view is
        → last_operand opt_q (rest (h.on_interrupt w)) ≡ some operand
        → get_elem? (parts operand) 0 ≡ some qspace
        → get_elem? (parts operand) 1 ≡ some queue
        → length (rest (h.on_interrupt w)) < turns
        → let daemon = occurs (same opt_d) (rest (h.on_interrupt w)) in
          RunExports law quiet
            (found daemon (view w).contents is)
            (left daemon is)
            []
            (export_main turns fuel (actions is) pname raw info w)
    unfolding export_main with_queue
    export_main-Exports turns fuel is pname operand raw info w ps given space name enough =
        let v = h.on_interrupt w in
        let os = rest v in
        let daemon = occurs (same opt_d) os in
        let text = export_options.queue_options.options.arguments in
        let (o, w₁, e, r) = parse-Reads reads turns export_options v enough in
        let qspace' : o.queue_options.qspace ≡ some qspace = r.qspace ∙ (rw given space) in
        let queue' : o.queue_options.queue ≡ some queue = r.queue ∙ (rw given name) in
        let kept : view w₁ ≡ view w =
          (rw e at (
            parse-Spares quiet apart set_export turns text export_options v
              (λ opt c' w'. set_export-view quiet apart opt c' w')))
          ∙ apart.caught w in
        let same_mode : o.daemon ≡ daemon = flags_from o.daemon daemon r.daemon in
        rw (e, export_main)
          (rw (qspace', queue', with_queue)
            (with_client-Exports (found daemon (view w).contents is) (left daemon is) pname
              o.queue_options.options info (export_to fuel (actions is) o raw qspace queue) w₁
              (λ c v' e'.
                rw (← same_mode, ← kept, ← e') (export_to-Exports fuel is o raw c v' ps))))
