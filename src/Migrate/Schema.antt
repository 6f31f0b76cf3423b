-- ===== src/Migrate/Schema.antt =====
-- What the migrations command does to the schema of the database.
use pet_urls.Prelude.{
  ◌≡◌, ◌≢◌, refl, ap, ◌∙◌, ◌⊎◌, inl, inr, Bytes, Option, none, some, List, [], ◌∷◌, ◌=b=◌, =b=_refl,
  Bool-cases,
}
use pet_urls.Prelude.Int.{ℤ, negsuc}
use pet_urls.Errors.{GoError, Result, ok, err}
use pet_urls.Migrate.{
  Flags, Finish, returned, exited, MigrateLib, Command, up_command, down_command, force_command,
  version_command, unknown_command, command_of, force_version, force_rest, run_command, close_after,
  with_migrate, with_driver, with_db, with_flags, main,
}

module _ {W D M S : Type 0} (lib : MigrateLib W D M) (schema : W → S) where
  -- Opening and closing a database and reading its version leave the schema alone.
  pub record QuietLib : Type 0 where
    pub open_db : (dsn : Bytes) (w : W) → schema (lib.open_db dsn w).1 ≡ schema w
    pub close_db : (db : D) (w : W) → schema (lib.close_db db w) ≡ schema w
    pub with_instance : (db : D) (w : W) → schema (lib.with_instance db w).1 ≡ schema w
    pub new_instance :
        (dir : Bytes) (db : D) (w : W) → schema (lib.new_instance dir db w).1 ≡ schema w
    pub version : (m : M) (w : W) → schema (lib.version m w).1 ≡ schema w

  -- The one call of golang-migrate that a command makes, and the world after it.
  pub data Applied (rest : List Bytes) (m : M) (b : W) : Command → W → Type 0 where
    upward : Applied rest m b up_command (lib.up m b).1
    downward : Applied rest m b down_command (lib.steps m (negsuc 0) b).1
    forced :
        (text : Bytes) (more : List Bytes) (n : ℤ)
        → rest ≡ text ∷ more
        → lib.atoi text ≡ ok n
        → Applied rest m b force_command (lib.force m n b).1

  -- The schema is as it was, or it is what that one call made of it.
  abbrev KeptOrApplied : List Bytes → M → Command → W → W → Type 0
  KeptOrApplied rest m cmd w w' =
      (schema w' ≡ schema w) ⊎ ((v : W) × Applied rest m w cmd v × (schema w' ≡ schema v))

  force_version-schema :
      (rest : List Bytes) (m : M) (text : Bytes) (more : List Bytes) (x : Result ℤ) (w : W)
      → rest ≡ text ∷ more
      → lib.atoi text ≡ x
      → KeptOrApplied rest m force_command w (force_version lib m x w).1
  unfolding force_version
  force_version-schema rest m text more (err e) w given parsed = inl refl
  force_version-schema rest m text more (ok n) w given parsed =
      inr ((lib.force m n w).1, forced text more n given parsed, refl)

  force_rest-schema :
      (rest : List Bytes) (m : M) (w : W)
      → KeptOrApplied rest m force_command w (force_rest lib m rest w).1
  unfolding force_rest
  force_rest-schema [] m w = inl refl
  force_rest-schema (text ∷ more) m w =
      force_version-schema (text ∷ more) m text more (lib.atoi text) w refl refl

  module _ (quiet : QuietLib) where
    run_command-schema :
        (rest : List Bytes) (m : M) (cmd : Command) (w : W)
        → KeptOrApplied rest m cmd w (run_command lib m rest cmd w).1
    unfolding run_command
    run_command-schema rest m up_command w = inr ((lib.up m w).1, upward, refl)
    run_command-schema rest m down_command w = inr ((lib.steps m (negsuc 0) w).1, downward, refl)
    run_command-schema rest m force_command w = force_rest-schema rest m w
    run_command-schema rest m version_command w = inl (quiet.version m w)
    run_command-schema rest m unknown_command w = inl refl

    close_after-schema : (db : D) (x : Finish × W) → schema (close_after lib db x).1 ≡ schema x.1
    unfolding close_after
    close_after-schema db (returned, w) = quiet.close_db db w
    close_after-schema db (exited n, w) = refl

    -- Where a run of the command that leaves `w'` has touched the schema, what it did.
    pub record Ran (args : List Bytes) (w w' : W) : Type 0 where
      pub program : Bytes
      pub cmd : Bytes
      pub others : List Bytes
      pub called : args ≡ program ∷ cmd ∷ others
      pub flags : Flags
      pub parsed : lib.parse_flags others ≡ some flags
      pub named : flags.dsn ≢ []
      pub m : M
      pub before : W
      pub after : W
      pub same : schema before ≡ schema w
      pub applied : Applied flags.rest m before (command_of cmd) after
      pub result : schema w' ≡ schema after

    -- The same with the arguments and the flags already known.
    abbrev Did : Flags → Command → W → W → Type 0
    Did flags cmd w w' =
        (schema w' ≡ schema w)
        ⊎ ((m : M) × ((b : W) × ((v : W) × (schema b ≡ schema w)
                × Applied flags.rest m b cmd v
                × (schema w' ≡ schema v))))

    with_migrate-schema :
        (db : D) (flags : Flags) (cmd : Command) (x : Result M) (w b : W)
        → schema b ≡ schema w
        → Did flags cmd w (with_migrate lib db flags cmd x b).1
    unfolding with_migrate
    with_migrate-schema db flags cmd (err e) w b h = inl h
    with_migrate-schema db flags cmd (ok m) w b h =
        let closed = close_after-schema db (run_command lib m flags.rest cmd b) in
        elim (run_command-schema flags.rest m cmd b) [
          | inl kept ↦ inl (closed ∙ kept ∙ h)
          | inr (v, applied, result) ↦ inr (m, (b, (v, h, applied, closed ∙ result)))
        ]

    with_driver-schema :
        (db : D) (flags : Flags) (cmd : Command) (e : Option GoError) (w b : W)
        → schema b ≡ schema w
        → Did flags cmd w (with_driver lib db flags cmd e b).1
    unfolding with_driver
    with_driver-schema db flags cmd (some e) w b h = inl h
    with_driver-schema db flags cmd none w b h =
        with_migrate-schema db flags cmd _ w _ (quiet.new_instance _ db b ∙ h)

    with_db-schema :
        (flags : Flags) (cmd : Command) (x : Result D) (w b : W)
        → schema b ≡ schema w
        → Did flags cmd w (with_db lib flags cmd x b).1
    unfolding with_db
    with_db-schema flags cmd (err e) w b h = inl h
    with_db-schema flags cmd (ok db) w b h =
        with_driver-schema db flags cmd _ w _ (quiet.with_instance db b ∙ h)

    with_flags-schema :
        (program cmd : Bytes) (others : List Bytes) (x : Option Flags) (w : W)
        → lib.parse_flags others ≡ x
        → (schema (with_flags lib (command_of cmd) x w).1 ≡ schema w)
          ⊎ Ran (program ∷ cmd ∷ others) w (with_flags lib (command_of cmd) x w).1
    unfolding with_flags
    with_flags-schema program cmd others none w h = inl refl
    with_flags-schema program cmd others (some flags) w h = elim (Bool-cases (flags.dsn =b= [])) [
      | inl empty ↦ rw empty (inl refl)
      | inr given ↦
          rw given (elim (with_db-schema flags (command_of cmd) _ w _ (quiet.open_db flags.dsn w)) [
            | inl kept ↦ inl kept
            | inr (m, (b, (v, same, applied, result))) ↦ inr (record {
              program = program;
              cmd = cmd;
              others = others;
              called = refl;
              flags = flags;
              parsed = h;
              named = λ empty. cc (ap (λ d. d =b= []) empty, =b=_refl [], given);
              m = m;
              before = b;
              after = v;
              same = same;
              applied = applied;
              result = result;
            })
          ])
    ]

    -- Where the other calls of the libraries leave the schema alone: a run of the command leaves the
    -- schema as it was, or its arguments name the command up, down or force and a database, and the
    -- schema is what one call made of it: all migrations up, one step down, or the version that the
    -- argument after force spells.
    pub main-Ran :
        (args : List Bytes) (w : W)
        → (schema (main lib args w).1 ≡ schema w) ⊎ Ran args w (main lib args w).1
    unfolding main
    main-Ran [] w = inl refl
    main-Ran (program ∷ []) w = inl refl
    main-Ran (program ∷ cmd ∷ others) w =
        with_flags-schema program cmd others (lib.parse_flags others) w refl
