-- ===== src/Scheduler/Optimizer/Policy.antt =====
-- OptimizerPolicy::schedule of src/scheduler/optimizer_policy.cpp: the three phases.
use edge_orchestrator_ai.Core.Floats.{Floats}
use edge_orchestrator_ai.Core.Types.{Timestamp, ResourceSnapshot}
use edge_orchestrator_ai.Workload.Dag.{WorkloadDag}
use edge_orchestrator_ai.Workload.Dag.Iteration.{Iteration}
use edge_orchestrator_ai.Scheduler.Plan.{ClusterView, SchedulingPlan}
use edge_orchestrator_ai.Scheduler.Optimizer.{OptimizerPolicyConfig, Sorting, Random}
use edge_orchestrator_ai.Scheduler.Optimizer.CriticalPath.{critical_path_assignment}
use edge_orchestrator_ai.Scheduler.Optimizer.BinPack.{bin_pack_remaining}
use edge_orchestrator_ai.Scheduler.Optimizer.LocalSearch.{local_search_improve}

module _ (f : Floats) (config : OptimizerPolicyConfig f.Float) (sorting : Sorting) (random : Random)
    (it : Iteration) where
  -- The plan behind the first two phases. The clock's time is the last argument.
  abbrev pub packed :
      WorkloadDag → ResourceSnapshot f.Float → ClusterView f.Float → Timestamp → SchedulingPlan
  packed g local cluster now = record {
    decisions =
        bin_pack_remaining sorting it g local cluster (critical_path_assignment it g local.node_id);
    estimated_makespan = 0;
    computed_at = now;
  }

  unfoldable pub schedule :
      WorkloadDag → ResourceSnapshot f.Float → ClusterView f.Float → Timestamp → SchedulingPlan
  schedule g local cluster now =
      local_search_improve f config random it g local cluster (packed g local cluster now)
