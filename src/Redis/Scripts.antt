-- ===== src/Redis/Scripts.antt =====
-- redis/scripts.ts: a script that Redis knows by its hash, and that is loaded again where Redis has
-- forgotten it. The rest of the development takes each script as one command.
pub mod Reload
use webhook_delivery_engine.Prelude.{
  includes, false, ◌&&◌, not, none, some, or_else, if◌then◌else◌, ◌+◌, Bool, String, Option, ℕ,
}
use webhook_delivery_engine.Exec.{thrown, ok, err, Thrown, Result, Failure}

-- SCRIPT LOAD gives the hash; EVALSHA may be refused, with its keys and arguments as one value.
pub record ScriptServer : Type 1 where
  pub State : Type 0
  pub Args : Type 0
  pub load : String → State → ℕ × State
  pub evalsha : ℕ → Args → State → Result ℕ × State

-- `sha` is `none` before the script is loaded; `ready` is how the load at construction ended.
pub record LoadedScript : Type 0 where
  pub source : String
  pub sha : Option ℕ
  pub ready : Result (Unit {0})

abbrev pub is_no_script_error : Failure → Bool
is_no_script_error (thrown t) = t.is_error && includes t.message "NOSCRIPT"
is_no_script_error _ = false

-- What the connection does to a command, and what others do to the server before it.
pub record Connection (v : ScriptServer) : Type 0 where
  pub refused : ℕ → Option Thrown
  pub others : ℕ → v.State → v.State

module _ (v : ScriptServer) (net : Connection v) where
  abbrev pub command :
      {A : Type 0} → ℕ → (v.State → Result A × v.State) → v.State → Result A × v.State
  command step f s = elim (net.refused step) [
    | none ↦ f (net.others step s)
    | some t ↦ (err (thrown t), net.others step s)
  ]

  abbrev pub load_command : String → v.State → Result ℕ × v.State
  load_command source s = let (sha, s') = v.load source s in (ok sha, s')

  abbrev pub constructed : String → Result ℕ × v.State → LoadedScript × v.State
  constructed source (ok sha, s) = (record { source = source; sha = some sha; ready = ok tt }, s)
  constructed source (err f, s) = (record { source = source; sha = none; ready = err f }, s)

  -- The constructor, with the load that it starts.
  unfoldable pub new_script : String → ℕ → v.State → LoadedScript × v.State
  new_script source step s = constructed source (command step (load_command source) s)

  abbrev pub again :
      LoadedScript → v.Args → ℕ → Result ℕ × v.State → Result ℕ × LoadedScript × v.State
  again script args step (err f, s) = (err f, script, s)
  again script args step (ok sha, s) =
      let (answer, s') = command (step + 2) (v.evalsha sha args) s in
      (answer, record script { sha = some sha }, s')

  abbrev pub answered :
      LoadedScript → v.Args → ℕ → Result ℕ × v.State → Result ℕ × LoadedScript × v.State
  answered script args step (ok n, s) = (ok n, script, s)
  answered script args step (err f, s) =
      if not (is_no_script_error f)
      then (err f, script, s)
      else again script args step (command (step + 1) (load_command script.source) s)

  abbrev pub when_ready :
      LoadedScript → v.Args → ℕ → Result (Unit {0}) → v.State → Result ℕ × LoadedScript × v.State
  when_ready script args step (err f) s = (err f, script, s)
  when_ready script args step (ok _) s =
      answered script args step (command step (v.evalsha (or_else script.sha 0) args) s)

  -- `LoadedScript.eval`, from a step of the process on.
  unfoldable pub eval_script :
      LoadedScript → v.Args → ℕ → v.State → Result ℕ × LoadedScript × v.State
  eval_script script args step s = when_ready script args step script.ready s
