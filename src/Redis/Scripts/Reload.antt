-- ===== src/Redis/Scripts/Reload.antt =====
-- What a caller of a loaded script sees.
use webhook_delivery_engine.Prelude.{
  refl, inr, inl, Bool-cases, some, true, false, ◌≡◌, ◌==◌, if◌then◌else◌, Bool, none, String, ℕ,
}
use webhook_delivery_engine.Redis.Scripts.{
  LoadedScript, eval_script, is_no_script_error, Connection, ScriptServer,
}
use webhook_delivery_engine.Exec.{ok, thrown, err, Thrown}

-- What Redis documents: the hash of a text is known from its load on, until the scripts are flushed; a
-- known script runs, and an unknown one is refused with NOSCRIPT and no effect.
pub record IsScriptServer (v : ScriptServer) (source : String) (sha : ℕ)
    (run : v.Args → v.State → ℕ × v.State) : Type 0 where
  pub knows : v.State → Bool
  pub no_script : Thrown
  pub no_script-is : is_no_script_error (thrown no_script) ≡ true
  pub load-sha : (s : v.State) → (v.load source s).0 ≡ sha
  pub load-knows : (s : v.State) → knows (v.load source s).1 ≡ true
  pub evalsha-known :
      (args : v.Args) (s : v.State)
      → knows s ≡ true
      → v.evalsha sha args s ≡ (ok (run args s).0, (run args s).1)
  pub evalsha-unknown :
      (args : v.Args) (s : v.State)
      → knows s ≡ false
      → v.evalsha sha args s ≡ (err (thrown no_script), s)

-- A connection on which nothing is refused, and nobody else acts after the first command is sent.
abbrev pub from_then_on : {v : ScriptServer} → (v.State → v.State) → Connection v
from_then_on first = record {
  refused = λ _. none;
  others = λ step s. if step == 0 then first s else s;
}

module _ (v : ScriptServer) (source : String) (sha : ℕ) (run : v.Args → v.State → ℕ × v.State)
    (laws : IsScriptServer v source sha run) where
  abbrev pub loaded : LoadedScript
  loaded = record { source = source; sha = some sha; ready = ok tt }

  -- The state on which the script runs: that of the server, or that with the script loaded again.
  abbrev pub with_script : v.State → v.State
  with_script s = if laws.knows s then s else (v.load source s).1

  -- Whatever others do to the server before the call, a flush of the scripts included, if they do nothing
  -- between its commands and none of these is refused: the caller gets what the script gives, and a script
  -- that was forgotten is loaded again once.
  pub eval_script-run :
      (others : v.State → v.State) (args : v.Args) (s : v.State)
      → eval_script v (from_then_on others) loaded args 0 s
        ≡ (ok (run args (with_script (others s))).0, loaded, (run args (with_script (others s))).1)
  unfolding eval_script
  eval_script-run others args s = elim (Bool-cases (laws.knows (others s))) [
    | inl known ↦ rw (laws.evalsha-known args (others s) known, known) refl
    | inr forgotten ↦
        rw
          (
            laws.evalsha-unknown args (others s) forgotten,
            forgotten,
            laws.no_script-is,
            laws.load-sha (others s),
            laws.evalsha-known args (v.load source (others s)).1 (laws.load-knows (others s)),
          )
          refl
  ]
