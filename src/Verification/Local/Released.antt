-- ===== src/Verification/Local/Released.antt =====
-- Containers are released again, and how that goes has no influence on the outcome.
use discovery_application.Base.{ℕ, Option, String, List, In}
use discovery_application.Verification.Judge.{Fields}
use discovery_application.Verification.Invocation.{LanguageModel, Reply}
use discovery_application.Verification.Local.{Action, destroy_action, LocalRun}

-- Every container that was created is handed to `destroy_container` in the end, and destroyed if
-- that does not raise.
pub AllReleased : LocalRun → List Action → Type 0
AllReleased run actions =
    (id : String)
    → In (Action.created id) actions
    → In (destroy_action id (run.destroy_container id)) actions

module _ (clock : ℕ → ℕ) (dumps : Fields → String) (model : Option LanguageModel)
    (repr : Option String → String) (run : LocalRun) where
  -- A run with other answers to the cleaning up.
  abbrev pub cleaned_by : Reply (Unit {0}) → (String → Reply (Unit {0})) → LocalRun
  cleaned_by disconnect destroy_container = record run {
    disconnect = disconnect;
    destroy_container = destroy_container;
  }
