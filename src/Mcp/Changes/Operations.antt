-- ===== src/Mcp/Changes/Operations.antt =====
-- The control operations make only changes.
use samgita.Prelude.{
  ℕ, ◌≡◌, ap, ◌∙◌, true, Option, none, some, String, List, [], ◌∷◌, ◌++◌, ltb→lt, arith,
}
use samgita.Json.{Value, Fields}
use samgita.Actions.{modify, Outcome}
use samgita.Actions.Maintains.{Maintains, bind-Maintains}
use samgita.Mcp.Fixture.{Fixture, Stream, Main}
use samgita.Mcp.Http.{Python, Url, Query}
use samgita.Mcp.Config.{Paths, configure, in_generations}
use samgita.Mcp.Streams.{stream_of, change_stream}
use samgita.Mcp.Callback.{complete_callback, check_authorization, authorized}
use samgita.Mcp.Emit.{emit, put_nowait}
use samgita.Mcp.Native.{
  System, start_native, stop_native, stop_process, start_close, end_close, begin_closing,
  cancel_all,
}
use samgita.Mcp.Operations.{
  inventory_health, apps_hold, revoke_access, startup_release, apps_release,
}
use samgita.Mcp.Control.{operate, control}
use samgita.Mcp.Replay.{kind_of}
use samgita.Mcp.Changes.{
  Changes, calls_back, malforms, revokes, sets_health, releases, releases_apps, arms, authorizes,
  starts, stops, begins_closing, cancels_all, ends, sets_main, enqueues,
}
use samgita.Mcp.Changes.Basics.{
  Safe, Safe-assert, Safe-gets, Safe-lift, Safe-require, Safe-then, Safe-last, Safe-if,
  Safe-Maintains, Maintains-Safe, change-Maintains, change_rules,
}
use samgita.Mcp.Changes.Messages.{first_true, second_true, unset}

stream_of-number :
    (n : ℕ) (streams : List Stream) (stream : Stream)
    → stream_of n streams ≡ some stream
    → stream.number ≡ n
unfolding stream_of
stream_of-number n [] stream h = cc
stream_of-number n (s ∷ streams) stream h = ground (arith, stream_of-number n streams stream)

module _ {o : Fixture} where
  in_generations-Maintains : (g : Value) → Maintains (Changes o) (in_generations g)
  unfolding in_generations
  in_generations-Maintains (Value.list xs) = search change_rules
  in_generations-Maintains (Value.dict fields) = search change_rules
  in_generations-Maintains _ = search change_rules

  pub configure-Maintains : (paths : Paths) (g : Value) → Maintains (Changes o) (configure paths g)
  unfolding configure
  configure-Maintains paths g = search (change_rules, in_generations-Maintains)

  pub sets_main-Maintains : (m : Main) → Maintains (Changes o) (modify (λ s. record s { main = m }))
  unfolding modify
  sets_main-Maintains m = change-Maintains _ (λ s. sets_main m)

  starts-Maintains :
      (pid : ℕ)
      → Maintains
          (Changes o)
          (modify (λ s. record s { native = some pid; native_pids = s.native_pids ++ pid ∷ [] }))
  unfolding modify
  starts-Maintains pid = change-Maintains _ (λ s. starts pid)

  stops-Maintains : Maintains (Changes o) (modify (λ s. record s { native = none }))
  unfolding modify
  stops-Maintains = change-Maintains _ (λ s. stops)

  pub start_native-Maintains : (system : System) → Maintains (Changes o) (start_native system)
  unfolding start_native kind_of
  start_native-Maintains system = search (change_rules, starts-Maintains)

  stop_process-Maintains :
      (system : System) (native : Option ℕ) → Maintains (Changes o) (stop_process system native)
  unfolding stop_process kind_of
  stop_process-Maintains system none = search change_rules
  stop_process-Maintains system (some pid) = search (change_rules, stops-Maintains)

  stop_native-Maintains : (system : System) → Maintains (Changes o) (stop_native system)
  unfolding stop_native
  stop_native-Maintains system = search (change_rules, stop_process-Maintains)

  begin_closing-Maintains : Maintains (Changes o) (modify begin_closing)
  unfolding modify
  begin_closing-Maintains = change-Maintains _ (λ s. begins_closing)

  cancel_all-Maintains :
      Maintains (Changes o) (modify (λ s. record s { streams = cancel_all s.streams }))
  unfolding modify
  cancel_all-Maintains = change-Maintains _ (λ s. cancels_all)

  pub start_close-Maintains : (system : System) → Maintains (Changes o) (start_close system)
  unfolding start_close
  start_close-Maintains system =
      search (change_rules, stop_native-Maintains, begin_closing-Maintains, cancel_all-Maintains)
        depth 8

  malforms-Maintains : (c : String) → Maintains (Changes o) (modify (λ s. record s { config = c }))
  unfolding modify
  malforms-Maintains c = change-Maintains _ (λ s. malforms c)

  sets_health-Maintains :
      (v : String) → Maintains (Changes o) (modify (λ s. record s { inventory_health = some v }))
  unfolding modify
  sets_health-Maintains v = change-Maintains _ (λ s. sets_health v)

  inventory_health-Maintains :
      (paths : Paths) (message : Value) → Maintains (Changes o) (inventory_health paths message)
  unfolding inventory_health kind_of
  inventory_health-Maintains paths message =
      search (change_rules, sets_health-Maintains, configure-Maintains) depth 12 fits 3000

  releases-Maintains :
      (m : Main)
      → Maintains (Changes o) (modify (λ s. record s { initialize_release = true; main = m }))
  unfolding modify
  releases-Maintains m = change-Maintains _ (λ s. releases m)

  releases_apps-Maintains :
      (m : Main)
      → Maintains (Changes o) (modify (λ s. record s { apps_initialize_release = true; main = m }))
  unfolding modify
  releases_apps-Maintains m = change-Maintains _ (λ s. releases_apps m)

  startup_release-Maintains : (identity : String) → Maintains (Changes o) (startup_release identity)
  unfolding startup_release kind_of
  startup_release-Maintains identity = search (change_rules, releases-Maintains) depth 12 fits 3000

  apps_release-Maintains : (identity : String) → Maintains (Changes o) (apps_release identity)
  unfolding apps_release kind_of
  apps_release-Maintains identity =
      search (change_rules, releases_apps-Maintains) depth 12 fits 3000

  apps_hold-Maintains : Maintains (Changes o) apps_hold
  unfolding apps_hold
  apps_hold-Maintains = Maintains-Safe _ λ s. Safe-gets _ _ (
      Safe-assert _ _ λ checked. Safe-assert _ _ λ primed.
        Safe-then _ _ (arms (unset _ (second_true _ _ checked)) primed) (λ _. search change_rules))

  revoke_access-Maintains : Maintains (Changes o) revoke_access
  unfolding revoke_access
  revoke_access-Maintains = Maintains-Safe _ λ s. Safe-gets _ _ (
      Safe-assert _ _ λ _. Safe-assert _ _ λ checked. Safe-assert _ _ λ primed.
        Safe-then _ _
          (revokes (unset _ (first_true _ _ checked)) (unset _ (second_true _ _ checked)) primed)
          (λ _. search change_rules))

  put_nowait-Safe :
      (stream : Stream) (output : Value) (s : Fixture)
      → stream_of stream.number s.streams ≡ some stream
      → Safe (Changes o) s (put_nowait stream output)
  unfolding put_nowait change_stream modify
  put_nowait-Safe stream output s found =
      Safe-if _ _ _ (λ room. Safe-last _ (enqueues stream output found (ltb→lt _ _ room)))
        (λ _. Safe-Maintains _ (search change_rules))

  emit-Maintains : (message : Value) → Maintains (Changes o) (emit message)
  unfolding emit kind_of
  emit-Maintains message = Maintains-Safe _ λ s. Safe-gets _ _ (
      Safe-assert _ _ λ _. Safe-lift _ _ λ key. Safe-lift _ _ λ n.
        Safe-require _ _ _ λ stream found. Safe-lift _ _ λ named. Safe-lift _ _ λ kind.
          Safe-lift _ _ λ output.
            let at_number : stream_of stream.number s.streams ≡ some stream =
              ap (λ k. stream_of k s.streams) (stream_of-number n s.streams stream found) ∙ found in
            let put = put_nowait-Safe stream output s at_number in
            search (Safe-if, Safe-Maintains, change_rules, put) depth 8)

  pub end_close-Maintains : (system : System) → Maintains (Changes o) (end_close system)
  unfolding end_close
  end_close-Maintains system = Maintains-Safe _ λ s. Safe-gets _ _ (
      Safe-if _ _ _ (λ _. Safe-Maintains _ (search change_rules))
        (λ open'. Safe-assert _ _ λ _. Safe-last _ (ends open')))

  authorizes-Maintains :
      (query : Query) (redirect : Url) → Maintains (Changes o) (modify (authorized query redirect))
  unfolding modify
  authorizes-Maintains query redirect = change-Maintains _ (λ s. authorizes query redirect)

  calls_back-Maintains :
      (values : Fields)
      → Maintains (Changes o) (modify (λ s. record s { callbacks = s.callbacks ++ values ∷ [] }))
  unfolding modify
  calls_back-Maintains values = change-Maintains _ (λ s. calls_back values)

  module _ (py : Python) where
    check_authorization-Maintains :
        (url : String) → Maintains (Changes o) (check_authorization py url)
    unfolding check_authorization
    check_authorization-Maintains url = search change_rules depth 24 fits 8000

    callback-Maintains :
        (status : Outcome ℕ) (url variant : String)
        → Maintains (Changes o) (complete_callback py status url variant)
    unfolding complete_callback kind_of
    callback-Maintains status url variant =
        bind-Maintains _ _ (check_authorization-Maintains url) λ found.
          search (change_rules, authorizes-Maintains, calls_back-Maintains) depth 14 fits 4000

    operate-Maintains :
        (paths : Paths) (system : System) (operation message : Value)
        → Maintains (Changes o) (operate py paths system operation message)
    unfolding operate kind_of
    operate-Maintains paths system operation message =
        search
          (
            change_rules, configure-Maintains, inventory_health-Maintains, apps_hold-Maintains,
            revoke_access-Maintains, malforms-Maintains, callback-Maintains, stop_native-Maintains,
            start_native-Maintains, emit-Maintains,
          )
          depth 24 fits 9000

    pub control-Maintains :
        (paths : Paths) (system : System) (message : Value)
        → Maintains (Changes o) (control py paths system message)
    unfolding control kind_of
    control-Maintains paths system message =
        search
          (
            change_rules, startup_release-Maintains, apps_release-Maintains, start_close-Maintains,
            sets_main-Maintains, operate-Maintains,
          )
          depth 14 fits 4000
