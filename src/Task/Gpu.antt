-- ===== src/Task/Gpu.antt =====
-- pkg/scheduler/api/device_info.go and pod_info.go: the GPU cards of a node, which pods share by memory.
use Prim.Native.Nat.{◌%◌}
use k8s_simulator.Common.{
  ℕ, ◌+◌, ◌-◌, Option, none, some, List, [], ◌∷◌, ltb, if◌then◌else◌, Dict, lookup, insert, delete,
}
use k8s_simulator.Task.{Pod, pod_succeeded, pod_failed}

-- `uint` has 64 bits.
abbrev pub uint_mod : ℕ
uint_mod = 0x1_0000_0000_0000_0000

-- GPUDevice
pub record GpuDevice : Type 0 where
  pub id : ℕ
  pub pod_map : Dict Pod
  pub memory : ℕ

unfoldable pub new_gpu_device : ℕ → ℕ → GpuDevice
new_gpu_device id mem = record { id = id; pod_map = []; memory = mem }

-- GetGPUResourceOfPod: the sum over the containers.
unfoldable pub sum_limits : ℕ → List ℕ → ℕ
sum_limits mem [] = mem
sum_limits mem (l ∷ ls) = sum_limits ((mem + l) % uint_mod) ls

unfoldable pub gpu_resource_of_pod : Pod → ℕ
unfolding sum_limits
gpu_resource_of_pod pod = sum_limits 0 pod.gpu_limits

-- getUsedGPUMemory skips the pods that have ended.
unfoldable pub used_memory : ℕ → Dict Pod → ℕ
used_memory res [] = res
used_memory res ((k, pod) ∷ d) =
    used_memory
      (elim pod.phase [
        | pod_succeeded ↦ res
        | pod_failed ↦ res
        | _ ↦ (res + gpu_resource_of_pod pod) % uint_mod
      ])
      d

unfoldable pub get_used_gpu_memory : GpuDevice → ℕ
unfolding used_memory
get_used_gpu_memory g = used_memory 0 g.pod_map

-- AddGPUResource and SubGPUResource on the cards of a node.
add_to_device : Dict GpuDevice → Pod → Option ℕ → Dict GpuDevice
add_to_device devices pod none = devices
add_to_device devices pod (some id) = elim (lookup id devices) [
  | none ↦ devices
  | some dev ↦ insert id (record dev { pod_map = insert pod.uid pod dev.pod_map }) devices
]

unfoldable pub add_gpu_resource : Dict GpuDevice → Pod → Dict GpuDevice
unfolding add_to_device
add_gpu_resource devices pod =
    if ltb 0 (gpu_resource_of_pod pod) then add_to_device devices pod pod.gpu_index else devices

sub_from_device : Dict GpuDevice → Pod → Option ℕ → Dict GpuDevice
sub_from_device devices pod none = devices
sub_from_device devices pod (some id) = elim (lookup id devices) [
  | none ↦ devices
  | some dev ↦ insert id (record dev { pod_map = delete pod.uid dev.pod_map }) devices
]

unfoldable pub sub_gpu_resource : Dict GpuDevice → Pod → Dict GpuDevice
unfolding sub_from_device
sub_gpu_resource devices pod =
    if ltb 0 (gpu_resource_of_pod pod) then sub_from_device devices pod pod.gpu_index else devices

-- GetDevicesIdleGPUMemory: for each card its memory less what is used, in 64-bit arithmetic.
unfoldable pub devices_idle_gpu_memory : Dict GpuDevice → Dict ℕ
devices_idle_gpu_memory [] = []
devices_idle_gpu_memory ((i, dev) ∷ d) =
    insert dev.id ((dev.memory + uint_mod - get_used_gpu_memory dev) % uint_mod)
      (devices_idle_gpu_memory d)
