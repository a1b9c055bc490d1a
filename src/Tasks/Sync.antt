-- ===== src/Tasks/Sync.antt =====
-- The tasks that run after a change of the configuration, against the tasks that it enables.
use tdcs.Prelude.{
  String, ◌≡◌, refl, ap, ◌∙◌, ◌⊎◌, Option, none, some, List, [], keep, Bool, true, false, not, ◌&&◌,
  ◌||◌, arith, text_eq, if◌then◌else◌, Bool-cases, inl, inr,
}
use tdcs.Prelude.Dict.{Dict, get, is_some, contains}
use tdcs.Config.Yaml.{Value, truthy}
use tdcs.Config.Models.{TaskConfig, AppConfig}
use tdcs.Config.Manager.{index_from}
use tdcs.Tasks.{
  TaskManager, Starting, starts, Env, start_each, retire, restart, is_enabled, all_keys,
  has_changed, sync, old_index, on_config_changed,
}
use tdcs.Tasks.Keys.{contains-all_keys, contains-keep}
use tdcs.Tasks.Steps.{
  Threads, threads, both, AllCanStart, then_do-true, threads-retire, start_each-AllStarted,
  restart-AllStarted,
}

-- Every enabled task of an index can be started.
abbrev pub Startable : Env → Type 0
Startable env =
    (id : String) (t : TaskConfig)
    → get id env.index ≡ some t
    → truthy t.enabled ≡ true
    → (env.is_dir t.monitor_folder ≡ true) × (env.starting id ≡ starts)

module _ (differs : TaskConfig → TaskConfig → Bool) where
  -- The watcher and the scanner both run for a task that is equal to this one.
  abbrev pub RunsAs : TaskConfig → Threads → Type 0
  RunsAs task th = (r : TaskConfig) × (th ≡ both (some r)) × (differs r task ≡ false)

  -- Both run for the task if it is there and enabled, and none of the two else.
  abbrev pub Serves : Option TaskConfig → Threads → Type 0
  Serves none th = th ≡ both none
  Serves (some task) th =
      (truthy task.enabled ≡ true → RunsAs task th) × (truthy task.enabled ≡ false → th ≡ both none)

  -- What runs, runs as a configuration has it, be it enabled there or not.
  abbrev pub Current : Dict String TaskConfig → TaskManager → Type 0
  Current index m =
      (id : String)
      → (threads id m ≡ both none)
        ⊎ ((task : TaskConfig) × (get id index ≡ some task) × RunsAs task (threads id m))

module _ (differs : TaskConfig → TaskConfig → Bool)
    (differs_refl : (t : TaskConfig) → differs t t ≡ false)
    (differs_trans : (r s t : TaskConfig)
      → differs r s ≡ false
      → differs s t ≡ false
      → differs r t ≡ false)
    (order : List String → List String)
    (contains-order : (s : List String) (k : String) → contains k (order s) ≡ contains k s) where
  module _ (env : Env) (old : Dict String TaskConfig) (m : TaskManager) where
    abbrev running : List String
    running = all_keys m.watchers (all_keys m.scanners [])

    abbrev removed : List String
    removed = keep (λ id. not (is_enabled (get id env.index))) running

    abbrev changed : List String
    changed = order (
        keep (λ id. not (contains id removed))
          (keep (λ id. has_changed differs (get id old) (get id env.index)) running))

    abbrev new : List String
    new =
        keep
          (λ id.
            is_enabled (get id env.index)
            && (not (contains id running) && not (contains id removed)))
          (all_keys env.index [])

    abbrev is_run : Threads → Bool
    is_run th = is_some th.0 || is_some th.1

    contains-running :
        (id : String)
        → contains id running ≡ (is_some (get id m.watchers) || is_some (get id m.scanners))
    unfolding contains
    contains-running id =
        contains-all_keys m.watchers (all_keys m.scanners []) id
        ∙ rw (contains-all_keys m.scanners [] id)
            (or_nothing (get id m.watchers) (get id m.scanners))
      where
        or_nothing :
            (a b : Option TaskConfig)
            → (is_some a || (is_some b || false)) ≡ (is_some a || is_some b)
        or_nothing a none = refl
        or_nothing a (some s) = refl

    contains-removed :
        (id : String)
        → contains id removed ≡ (not (is_enabled (get id env.index)) && contains id running)
    contains-removed id = contains-keep (λ id. not (is_enabled (get id env.index))) running id

    contains-changed :
        (id : String)
        → contains id changed ≡ (
            not (contains id removed)
            && (has_changed differs (get id old) (get id env.index) && contains id running))
    contains-changed id =
        contains-order
          (keep (λ id. not (contains id removed))
            (keep (λ id. has_changed differs (get id old) (get id env.index)) running))
          id
        ∙ contains-keep (λ id. not (contains id removed))
            (keep (λ id. has_changed differs (get id old) (get id env.index)) running) id
        ∙ ap (λ b. not (contains id removed) && b)
            (contains-keep (λ id. has_changed differs (get id old) (get id env.index)) running id)

    contains-new :
        (id : String)
        → contains id new ≡ (
            is_enabled (get id env.index)
            && (not (contains id running) && not (contains id removed))
            && is_some (get id env.index))
    unfolding contains
    contains-new id =
        contains-keep
          (λ id.
            is_enabled (get id env.index)
            && (not (contains id running) && not (contains id removed)))
          (all_keys env.index []) id
        ∙ rw (contains-all_keys env.index [] id) (only_index (get id env.index))
      where
        only_index :
            (o : Option TaskConfig)
            → (is_enabled o
                && (not (contains id running) && not (contains id removed))
                && (is_some o || false))
              ≡ (is_enabled o
                  && (not (contains id running) && not (contains id removed))
                  && is_some o)
        only_index none = refl
        only_index (some t) = refl

    enabled_can_start :
        Startable env
        → (id : String) → is_enabled (get id env.index) ≡ true
        → (t : TaskConfig) × (get id env.index ≡ some t)
          × (env.is_dir t.monitor_folder ≡ true)
          × (env.starting id ≡ starts)
    enabled_can_start can id = by_entry (get id env.index) (can id)
      where
        by_entry :
            (o : Option TaskConfig)
            → ((t : TaskConfig)
                → o ≡ some t
                → truthy t.enabled ≡ true
                → (env.is_dir t.monitor_folder ≡ true) × (env.starting id ≡ starts))
            → is_enabled o ≡ true
            → (t : TaskConfig) × (o ≡ some t)
              × (env.is_dir t.monitor_folder ≡ true)
              × (env.starting id ≡ starts)
        by_entry none h e = ground (arith, e)
        by_entry (some t) h e = (t, refl, (h t refl e).0, (h t refl e).1)

    changed-AllCanStart : Startable env → AllCanStart env changed
    changed-AllCanStart can id h =
        enabled_can_start can id (ground (arith, h, contains-changed id, contains-removed id))

    new-AllCanStart : Startable env → AllCanStart env new
    new-AllCanStart can id h = enabled_can_start can id (ground (arith, h, contains-new id))

    -- where each task's threads are after the three loops
    sync-threads :
        Startable env
        → ((sync differs order env old m).0 ≡ true)
          × ((id : String)
              → threads id (sync differs order env old m).1 ≡ (
                  if contains id new
                  then both (get id env.index)
                  else if contains id changed
                  then both (get id env.index)
                  else if contains id (order removed)
                  then both none
                  else threads id m))
    unfolding sync
    sync-threads can =
        let m1 = retire (order removed) m in
        let again = restart-AllStarted env changed m1 (changed-AllCanStart can) in
        let m2 = (restart env changed m1).1 in
        let fresh = start_each-AllStarted env new m2 (new-AllCanStart can) in
        rw (then_do-true (restart env changed m1) (start_each env new) again.0) (
          fresh.0,
          (λ id.
              fresh.1 id
              ∙ ap (λ u. if contains id new then both (get id env.index) else u)
                  (again.1 id
                    ∙ ap (λ u. if contains id changed then both (get id env.index) else u)
                        (threads-retire (order removed) id m))),
        )

    -- the four cases of `sync-threads`, from what the two indices have and what runs
    abbrev settle : Bool → Option TaskConfig → Threads → Threads
    settle differ now th =
        let run = is_run th in
        if is_enabled now && (not run && not (not (is_enabled now) && run)) && is_some now
        then both now
        else if not (not (is_enabled now) && run) && (differ && run)
        then both now
        else if not (is_enabled now) && run
        then both none
        else th

    settle-idle :
        (differ : Bool) (now : Option TaskConfig)
        → Serves differs now (settle differ now (both none))
    settle-idle true none = refl
    settle-idle false none = refl
    settle-idle differ (some t) = elim (Bool-cases (truthy t.enabled)) [
      | inl e ↦ rw e ((λ h. (t, refl, differs_refl t)), (λ (h : true ≡ false). ground (arith, h)))
      | inr e ↦ rw e ((λ (h : false ≡ true). ground (arith, h)), (λ h. stays differ))
    ]
      where
        stays : (d : Bool) → (if d && false then both (some t) else both none) ≡ both none
        stays true = refl
        stays false = refl

    settle-running :
        (s r : TaskConfig) (now : Option TaskConfig)
        → differs r s ≡ false
        → Serves differs now (settle (has_changed differs (some s) now) now (both (some r)))
    settle-running s r none same = refl
    settle-running s r (some t) same = elim (Bool-cases (truthy t.enabled)) [
      | inl e ↦
          rw e ((λ h. kept_or_new (differs s t) refl), (λ (h : true ≡ false). ground (arith, h)))
      | inr e ↦ rw e ((λ (h : false ≡ true). ground (arith, h)), (λ h. refl))
    ]
      where
        kept_or_new :
            (d : Bool)
            → differs s t ≡ d
            → RunsAs differs t (if d && true then both (some t) else both (some r))
        kept_or_new true h = (t, refl, differs_refl t)
        kept_or_new false h = (r, refl, differs_trans r s t same h)

    sync-Serves :
        Startable env
        → Current differs old m
        → (id : String)
        → Serves differs (get id env.index) (threads id (sync differs order env old m).1)
    sync-Serves can current id =
        rw
          (
            (sync-threads can).1 id,
            contains-new id,
            contains-changed id,
            contains-order removed id,
            contains-removed id,
            contains-running id,
          )
          (by_threads (threads id m) (get id old) (current id))
      where
        by_threads :
            (th : Threads) (was : Option TaskConfig)
            → (th ≡ both none) ⊎ ((task : TaskConfig) × (was ≡ some task) × RunsAs differs task th)
            → Serves differs
                (get id env.index)
                (settle (has_changed differs was (get id env.index)) (get id env.index) th)
        by_threads th was (inl idle) =
            rw idle (settle-idle (has_changed differs was (get id env.index)) (get id env.index))
        by_threads th was (inr (s, is_s, (r, runs, same))) =
            rw (is_s, runs) (settle-running s r (get id env.index) same)

  -- A new configuration whose enabled tasks can all be started is carried out: nothing raises, and
  -- of each task both the watcher and the scanner are registered, made from the task as the
  -- configuration has it, if it is enabled there, and neither of them if it is disabled or gone.
  -- Before, whatever was registered was made as the old configuration had it; the sets may be iterated in any order.
  pub on_config_changed-Serves :
      (is_dir : Value → Bool) (starting : String → Starting) (old : Option AppConfig)
      (new_config : AppConfig) (m : TaskManager)
      → Startable
          (record { index = index_from [] new_config.tasks; is_dir = is_dir; starting = starting })
      → Current differs (old_index old) m
      → let done = on_config_changed differs order is_dir starting old new_config m in
        (done.0 ≡ true)
        × ((id : String)
            → Serves differs (get id (index_from [] new_config.tasks)) (threads id done.1))
        × Current differs (index_from [] new_config.tasks) done.1
  unfolding on_config_changed
  on_config_changed-Serves is_dir starting old new_config m can current =
      let env : Env = record {
        index = index_from [] new_config.tasks;
        is_dir = is_dir;
        starting = starting;
      } in
      let serves = sync-Serves env (old_index old) m can current in
      (
        (sync-threads env (old_index old) m can).0,
        serves,
        (λ id. by_entry id (get id env.index) refl (serves id)),
      )
    where
      by_entry :
          (id : String) {th : Threads} (o : Option TaskConfig)
          → get id (index_from [] new_config.tasks) ≡ o
          → Serves differs o th
          → (th ≡ both none)
            ⊎ ((task : TaskConfig) × (get id (index_from [] new_config.tasks) ≡ some task)
                × RunsAs differs task th)
      by_entry id none e h = inl h
      by_entry id (some t) e h = elim (Bool-cases (truthy t.enabled)) [
        | inl on ↦ inr (t, e, h.0 on)
        | inr off ↦ inl (h.1 off)
      ]
