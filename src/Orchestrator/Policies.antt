-- ===== src/Orchestrator/Policies.antt =====
-- src/orchestrator/orchestrator.hpp: create_policy, over the interface of src/scheduler/scheduler.hpp.
use edge_orchestrator_ai.Prelude.{String, ite, String_discrete}
use edge_orchestrator_ai.Core.Floats.{Floats}
use edge_orchestrator_ai.Core.Types.{Timestamp, ResourceSnapshot}
use edge_orchestrator_ai.Workload.Dag.{WorkloadDag}
use edge_orchestrator_ai.Workload.Dag.Iteration.{Iteration}
use edge_orchestrator_ai.Scheduler.Plan.{ClusterView, SchedulingPlan}
use edge_orchestrator_ai.Scheduler.Threshold
use edge_orchestrator_ai.Scheduler.Threshold.{ThresholdPolicyConfig}
use edge_orchestrator_ai.Scheduler.Greedy
use edge_orchestrator_ai.Scheduler.Optimizer.{OptimizerPolicyConfig, Sorting, Random}
use edge_orchestrator_ai.Scheduler.Optimizer.Policy
use edge_orchestrator_ai.Orchestrator.OffloadCodec.{}
use edge_orchestrator_ai.Orchestrator.Offloading.{}

-- ISchedulingPolicy: schedule, with the clock's time
abbrev pub SchedulingPolicy : Type 0 → Type 0
SchedulingPolicy F = WorkloadDag → ResourceSnapshot F → ClusterView F → Timestamp → SchedulingPlan

module _ (f : Floats) (sorting : Sorting) (random : Random) (it : Iteration) where
  unfoldable pub create_policy :
      String
      → ThresholdPolicyConfig f.Float
      → OptimizerPolicyConfig f.Float
      → SchedulingPolicy f.Float
  create_policy policy threshold optimizer =
      ite (String_discrete policy "threshold")
        (λ g local cluster now. Threshold.schedule f threshold local it g cluster now)
        (ite (String_discrete policy "optimizer") (Policy.schedule f optimizer sorting random it)
          (λ g local cluster now. Greedy.schedule f local it g cluster now))
