-- ===== src/Engine/MultiGpu.antt =====
-- core-runtime/src/engine/multi_gpu.rs and multi_gpu_partition.rs: how a model is spread over devices.
-- What is computed on floating point numbers is an argument; none is a division by zero.
pub mod Layers
pub mod Tests
use gg_core.Prelude.{
  ℕ, zero, suc, ◌+◌, ◌*◌, ◌/◌, ◌%◌, ◌^◌, ◌-◌, min, Bool, true, false, ◌&&◌, not, Option, none, some,
  List, [], ◌∷◌, String, length, take, map, ltb, leb, ◌==◌, if◌then◌else◌,
}

abbrev pub u64 : ℕ
u64 = 2 ^ 64

pub data GpuBackend : Type 0 where
  cuda metal cpu : GpuBackend

pub record GpuDevice : Type 0 where
  pub backend : GpuBackend
  pub index : ℕ
  pub name : String
  pub total_memory : ℕ
  pub available_memory : ℕ
  pub compute_capability : Option (ℕ × ℕ)

pub data MultiGpuStrategy : Type 0 where
  layer_parallelism tensor_parallelism pipeline_parallelism : MultiGpuStrategy
  expert_parallelism automatic : MultiGpuStrategy

pub record GpuPartition (F : Type 0) : Type 0 where
  pub gpu_index : ℕ
  pub first : ℕ
  pub last : ℕ
  pub memory_budget : ℕ
  pub parameter_fraction : F

pub record MultiGpuConfig (F : Type 0) : Type 0 where
  pub strategy : MultiGpuStrategy
  pub num_gpus : ℕ
  pub main_gpu : ℕ
  pub enable_p2p : Bool
  pub max_memory_per_gpu : ℕ
  pub load_balance_threshold : F
  pub gradient_checkpointing : Bool

pub record MultiGpuManager (F : Type 0) : Type 0 where
  pub devices : List GpuDevice
  pub config : MultiGpuConfig F
  pub partitions : List (GpuPartition F)
  pub active_strategy : MultiGpuStrategy

pub data Created (F : Type 0) : Type 0 where
  ok : MultiGpuManager F → Created F
  insufficient_gpus : ℕ → ℕ → Created F

abbrev pub is_gpu : GpuBackend → Bool
is_gpu GpuBackend.cuda = true
is_gpu GpuBackend.metal = true
is_gpu GpuBackend.cpu = false

-- filter(|d| d.backend != GpuBackend::Cpu)
unfoldable pub gpus : List GpuDevice → List GpuDevice
gpus [] = []
gpus (d ∷ ds) = let rest = gpus ds in if is_gpu d.backend then d ∷ rest else rest

abbrev pub num_gpus_of : ℕ → ℕ → ℕ
num_gpus_of wanted available = if wanted == 0 then available else min wanted available

unfoldable pub new : {F : Type 0} → List GpuDevice → MultiGpuConfig F → Created F
unfolding gpus
new devices config =
    if ltb (length devices) 2
    then insufficient_gpus 2 (length devices)
    else if ltb (length (gpus devices)) 2
    then insufficient_gpus 2 (length (gpus devices))
    else ok (record {
      devices = take (num_gpus_of config.num_gpus (length (gpus devices))) (gpus devices);
      config = config;
      partitions = [];
      active_strategy = MultiGpuStrategy.automatic;
    })

-- The code on floating point numbers, and whether the feature "cuda" is built in.
pub record Floats (F : Type 0) : Type 0 where
  -- (model_size as f64 * (available as f64 / total as f64)) as u64
  pub budget : ℕ → ℕ → ℕ → ℕ
  -- gpu_layers as f32 / num_layers as f32
  pub fraction : ℕ → ℕ → F
  -- 1.0 / num_gpus as f32
  pub share : ℕ → F
  -- compute_memory_variance(devices) < 0.2
  pub is_homogeneous : List GpuDevice → Bool
  pub has_cuda : Bool

abbrev pub available_sum : List GpuDevice → ℕ
available_sum [] = 0
available_sum (d ∷ ds) = (d.available_memory + available_sum ds) % u64

-- Whether all have the backend.
abbrev pub all_are : (GpuBackend → Bool) → List GpuDevice → Bool
all_are is_it [] = true
all_are is_it (d ∷ ds) = is_it d.backend && all_are is_it ds

abbrev pub is_cuda : GpuBackend → Bool
is_cuda GpuBackend.cuda = true
is_cuda GpuBackend.metal = false
is_cuda GpuBackend.cpu = false

-- layers_per_gpu + if i < extra_layers { 1 } else { 0 }
abbrev pub gpu_layers : ℕ → ℕ → ℕ → ℕ
gpu_layers per_gpu extra i = per_gpu + (if ltb i extra then 1 else 0)

module _ {F : Type 0} (floats : Floats F) where
  open floats use {budget, fraction, share, is_homogeneous, has_cuda}

  -- One backend, which is Cuda, with the feature.
  unfoldable pub check_p2p_support : List GpuDevice → Bool
  check_p2p_support [] = false
  check_p2p_support (d ∷ ds) = has_cuda && all_are is_cuda (d ∷ ds)

  unfoldable pub determine_strategy : MultiGpuConfig F → List GpuDevice → ℕ → MultiGpuStrategy
  unfolding check_p2p_support
  determine_strategy config devices num_layers = elim config.strategy [
    | layer_parallelism ↦ MultiGpuStrategy.layer_parallelism
    | tensor_parallelism ↦ MultiGpuStrategy.tensor_parallelism
    | pipeline_parallelism ↦ MultiGpuStrategy.pipeline_parallelism
    | expert_parallelism ↦ MultiGpuStrategy.expert_parallelism
    | automatic ↦
        let has_p2p = config.enable_p2p && check_p2p_support devices in
        if ltb 48 num_layers && (leb 4 (length devices) && has_p2p)
        then MultiGpuStrategy.pipeline_parallelism
        else if is_homogeneous devices && (has_p2p && leb (length devices) 8)
        then MultiGpuStrategy.tensor_parallelism
        else MultiGpuStrategy.layer_parallelism
  ]

  -- The loop over the devices, from device i and a current layer on.
  unfoldable pub layers_loop : ℕ → ℕ → ℕ → ℕ → ℕ → ℕ → ℕ → List GpuDevice → List (GpuPartition F)
  layers_loop per_gpu extra num_layers model_size total i current [] = []
  layers_loop per_gpu extra num_layers model_size total i current (d ∷ ds) =
      let layers = gpu_layers per_gpu extra i in
      record {
        gpu_index = d.index;
        first = current;
        last = current + layers;
        memory_budget = budget model_size d.available_memory total;
        parameter_fraction = fraction layers num_layers;
      }
      ∷ layers_loop per_gpu extra num_layers model_size total (i + 1) (current + layers) ds

  unfoldable pub partition_by_layers : List GpuDevice → ℕ → ℕ → Option (List (GpuPartition F))
  unfolding layers_loop
  partition_by_layers devices num_layers model_size =
      if length devices == 0
      then none
      else some (
          layers_loop (num_layers / length devices) (num_layers % length devices) num_layers
            model_size (available_sum devices) 0 0 devices)

  unfoldable pub partition_by_tensors : List GpuDevice → ℕ → Option (List (GpuPartition F))
  partition_by_tensors devices model_size =
      if length devices == 0
      then none
      else some (
          map
            (λ d. record {
              gpu_index = d.index;
              first = 0;
              last = u64 - 1;
              memory_budget = model_size / length devices;
              parameter_fraction = share (length devices);
            })
            devices)

  unfoldable pub partition_by_pipeline : List GpuDevice → ℕ → ℕ → Option (List (GpuPartition F))
  unfolding partition_by_layers
  partition_by_pipeline devices num_layers model_size =
      partition_by_layers devices num_layers model_size

  unfoldable pub partition_by_experts : List GpuDevice → ℕ → Option (List (GpuPartition F))
  unfolding partition_by_tensors
  partition_by_experts devices model_size = partition_by_tensors devices model_size

  unfoldable pub partition_with :
      MultiGpuStrategy → List GpuDevice → ℕ → ℕ → Option (List (GpuPartition F))
  unfolding partition_by_pipeline partition_by_experts
  partition_with layer_parallelism devices num_layers size =
      partition_by_layers devices num_layers size
  partition_with automatic devices num_layers size = partition_by_layers devices num_layers size
  partition_with tensor_parallelism devices num_layers size = partition_by_tensors devices size
  partition_with pipeline_parallelism devices num_layers size =
      partition_by_pipeline devices num_layers size
  partition_with expert_parallelism devices num_layers size = partition_by_experts devices size

  -- What partition_model leaves in the manager; none is a panic.
  unfoldable pub partition_model : ℕ → ℕ → MultiGpuManager F → Option (MultiGpuManager F)
  unfolding determine_strategy partition_with
  partition_model num_layers size m =
      let strategy = determine_strategy m.config m.devices num_layers in
      elim (partition_with strategy m.devices num_layers size) [
        | none ↦ none
        | some partitions ↦ some (record m { active_strategy = strategy; partitions = partitions })
      ]
