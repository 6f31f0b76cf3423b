-- ===== src/Migrate.antt =====
-- cmd/migrate/main.go. The flag package, database/sql and golang-migrate are parameters; what is
-- printed on success is left out.
pub mod Schema
use pet_urls.Prelude.{
  String, ℕ, Bytes, codes, Bool, true, false, not, ◌&&◌, Option, none, some, List, [], ◌∷◌, ◌++◌,
  ◌=b=◌, is_some, if◌then◌else◌,
}
use pet_urls.Prelude.Int.{ℤ, pos, negsuc}
use pet_urls.Prelude.Action.{Action, pure, ◌>>=◌}
use pet_urls.Errors.{GoError, sentinel, no_change, same_sentinel, Result, ok, err}

-- What `fs.Parse` has found: the flags -dsn and -dir, empty by default, and the other arguments.
pub record Flags : Type 0 where
  pub dsn : Bytes
  pub dir : Bytes
  pub rest : List Bytes

-- The process comes back from main, or exits with a status; then nothing that was deferred runs.
pub data Finish : Type 0 where
  returned : Finish
  exited : ℕ → Finish

-- `D` are handles of databases, `M` instances of golang-migrate with their database.
pub record MigrateLib (W D M : Type 0) : Type 0 where
  -- none where the flags are not well-formed
  pub parse_flags : List Bytes → Option Flags
  pub atoi : Bytes → Result ℤ
  pub open_db : Bytes → Action W (Result D)
  pub close_db : D → W → W
  pub with_instance : D → Action W (Option GoError)
  pub new_instance : Bytes → D → Action W (Result M)
  pub up : M → Action W (Option GoError)
  pub steps : M → ℤ → Action W (Option GoError)
  pub force : M → ℤ → Action W (Option GoError)
  pub version : M → Action W (Result (ℕ × Bool))

-- The commands, as the switch tells them apart.
pub data Command : Type 0 where
  up_command down_command force_command version_command unknown_command : Command

unfoldable pub command_of : Bytes → Command
unfolding ◌=b=◌
command_of cmd =
    if cmd =b= codes "up"
    then up_command
    else if cmd =b= codes "down"
    then down_command
    else if cmd =b= codes "force"
    then force_command
    else if cmd =b= codes "version"
    then version_command
    else unknown_command

-- `log.Fatal` and `usageAndExit` both exit with the status 1.
abbrev pub fatal : Finish
fatal = exited 1

abbrev pub fatal_if : Bool → Finish
fatal_if failed = if failed then fatal else returned

-- `err != nil && err != migrate.ErrNoChange`.
abbrev pub is_failure : Option GoError → Bool
is_failure none = false
is_failure (some (sentinel s)) = not (same_sentinel s no_change)
is_failure (some _) = true

module _ {W D M : Type 0} (lib : MigrateLib W D M) where
  open lib use {parse_flags, atoi, open_db, close_db, with_instance, new_instance}

  force_version : M → Result ℤ → Action W Finish
  force_version m (err _) w = (fatal, w)
  force_version m (ok version) w = let (e, w') = lib.force m version w in (fatal_if (is_some e), w')

  force_rest : M → List Bytes → Action W Finish
  unfolding force_version
  force_rest m [] w = (fatal, w)
  force_rest m (version ∷ _) w = force_version m (atoi version) w

  version_finish : Result (ℕ × Bool) → Finish
  version_finish (ok _) = returned
  version_finish (err _) = fatal

  unfoldable pub run_command : M → List Bytes → Command → Action W Finish
  unfolding force_rest version_finish
  run_command m rest up_command w = let (e, w') = lib.up m w in (fatal_if (is_failure e), w')
  run_command m rest down_command w =
      let (e, w') = lib.steps m (negsuc 0) w in (fatal_if (is_some e), w')
  run_command m rest force_command w = force_rest m rest w
  run_command m rest version_command w = let (x, w') = lib.version m w in (version_finish x, w')
  run_command m rest unknown_command w = (fatal, w)

  -- `defer db.Close()` runs where main returns.
  close_after : D → Finish × W → Finish × W
  close_after db (returned, w) = (returned, close_db db w)
  close_after db (exited n, w) = (exited n, w)

  with_migrate : D → Flags → Command → Result M → Action W Finish
  unfolding run_command close_after
  with_migrate db flags cmd (err _) w = (fatal, w)
  with_migrate db flags cmd (ok m) w = close_after db (run_command m flags.rest cmd w)

  with_driver : D → Flags → Command → Option GoError → Action W Finish
  unfolding with_migrate
  with_driver db flags cmd (some _) w = (fatal, w)
  with_driver db flags cmd none w =
      let (m, w') = new_instance (codes "file://" ++ flags.dir) db w in
      with_migrate db flags cmd m w'

  with_db : Flags → Command → Result D → Action W Finish
  unfolding with_driver
  with_db flags cmd (err _) w = (fatal, w)
  with_db flags cmd (ok db) w = let (e, w') = with_instance db w in with_driver db flags cmd e w'

  with_flags : Command → Option Flags → Action W Finish
  unfolding with_db
  with_flags cmd none w = (exited 2, w)
  with_flags cmd (some flags) w =
      if flags.dsn =b= []
      then (fatal, w)
      else (let (db, w') = open_db flags.dsn w in with_db flags cmd db w')

  -- The arguments, with the name of the program first.
  unfoldable pub main : List Bytes → Action W Finish
  unfolding with_flags command_of
  main [] w = (fatal, w)
  main (_ ∷ []) w = (fatal, w)
  main (_ ∷ cmd ∷ args) w = with_flags (command_of cmd) (parse_flags args) w
