-- ===== src/Resource/Request.antt =====
-- pkg/scheduler/api/resource_info.go (NewResource) and pod_info.go: resources from lists of quantities.

use k8s_simulator.Common.{ℕ, Bool, List, [], ◌∷◌, ◌==◌, if◌then◌else◌, ℤ, pos, ◌+ℤ◌, ◌*ℤ◌}
use k8s_simulator.Resource.{Resource, cpu, memory, pods, unit, empty_resource, add, add_scalar}
use k8s_simulator.Resource.Difference.{set_max_resource}

-- What the code reads of a resource.Quantity: its MilliValue and its Value.
pub record Quantity : Type 0 where
  pub milli_value : ℤ
  pub whole_value : ℤ

abbrev pub ResourceList : Type 0
ResourceList = List (ℕ × Quantity)

abbrev of_units : ℤ → ℤ
of_units q = pos unit *ℤ q

-- v1helper.IsScalarResourceName is Kubernetes' code.
module _ (is_scalar_resource_name : ℕ → Bool) where
  -- One round of the loop of NewResource.
  unfoldable pub add_quantity : Resource → ℕ → Quantity → Resource
  add_quantity r name q =
      if name == cpu
      then record r { milli_cpu = r.milli_cpu +ℤ of_units q.milli_value }
      else if name == memory
      then record r { memory_bytes = r.memory_bytes +ℤ of_units q.whole_value }
      else if name == pods
      then record r { max_task_num = r.max_task_num +ℤ q.whole_value }
      else if is_scalar_resource_name name
      then add_scalar r name (of_units q.milli_value)
      else r

  unfoldable pub add_quantities : Resource → ResourceList → Resource
  add_quantities r [] = r
  add_quantities r ((name, q) ∷ rl) = add_quantities (add_quantity r name q) rl

  unfoldable pub new_resource : ResourceList → Resource
  new_resource rl = add_quantities empty_resource rl

  -- GetPodResourceWithoutInitContainers: the sum over the containers.
  unfoldable pub sum_containers : Resource → List ResourceList → Resource
  sum_containers r [] = r
  sum_containers r (c ∷ cs) = sum_containers (add r (new_resource c)) cs

  unfoldable pub max_containers : Resource → List ResourceList → Resource
  max_containers r [] = r
  max_containers r (c ∷ cs) = max_containers (set_max_resource r (new_resource c)) cs

  -- GetPodResourceRequest: the larger of that sum and each init container, by dimension.
  unfoldable pub get_pod_resource_request : List ResourceList → List ResourceList → Resource
  get_pod_resource_request containers init_containers =
      max_containers (sum_containers empty_resource containers) init_containers
