-- ===== src/Lifecycle/Oracle/Commands.antt =====
-- packages/wallet-lifecycle-oracle/src/commands.ts: the model grows by one observation at a time.
use cashu_fault_lab.Common.{◌++◌, List, [], ◌∷◌}
use cashu_fault_lab.Lifecycle.Oracle.Model.{LifecycleObservation}

unfoldable pub apply_lifecycle_observation :
    List LifecycleObservation → LifecycleObservation → List LifecycleObservation
apply_lifecycle_observation observations o = observations ++ (o ∷ [])
