-- ===== src/Engine/MultiGpu/Tests.antt =====
-- Ten layers on three devices, a processor left out.
use gg_core.Prelude.{ℕ, ◌≡◌, refl, false, none, some, List, [], ◌∷◌}
use gg_core.Engine.MultiGpu.{
  GpuBackend, GpuDevice, MultiGpuStrategy, MultiGpuConfig, MultiGpuManager, Floats, ok, new,
  determine_strategy, partition_model,
}
use gg_core.Engine.MultiGpu.Layers.{Assigned, partition_model_lem}

abbrev percents : Floats ℕ
percents = record {
  budget = λ size available total. size;
  fraction = λ layers all. layers;
  share = λ n. n;
  is_homogeneous = λ ds. false;
  has_cuda = false;
}

abbrev device : GpuBackend → ℕ → GpuDevice
device backend index = record {
  backend = backend;
  index = index;
  name = "device";
  total_memory = 80;
  available_memory = 60;
  compute_capability = none;
}

abbrev config : MultiGpuConfig ℕ
config = record {
  strategy = MultiGpuStrategy.automatic;
  num_gpus = 0;
  main_gpu = 0;
  enable_p2p = false;
  max_memory_per_gpu = 0;
  load_balance_threshold = 10;
  gradient_checkpointing = false;
}

abbrev devices : List GpuDevice
devices =
    device GpuBackend.cuda 0
    ∷ device GpuBackend.cpu 9
    ∷ device GpuBackend.cuda 1
    ∷ device GpuBackend.cuda 2
    ∷ []

abbrev manager : MultiGpuManager ℕ
manager = record {
  devices = device GpuBackend.cuda 0 ∷ device GpuBackend.cuda 1 ∷ device GpuBackend.cuda 2 ∷ [];
  config = config;
  partitions = [];
  active_strategy = MultiGpuStrategy.automatic;
}

created : new devices config ≡ ok manager
unfolding new
created = refl

partition_model_lem_example :
    (m : MultiGpuManager ℕ) × (partition_model percents 10 400 manager ≡ some m)
    × (m.devices ≡ manager.devices)
    × (m.active_strategy ≡ determine_strategy percents config manager.devices 10)
    × Assigned percents m.active_strategy m.devices 10 400 m.partitions
partition_model_lem_example = partition_model_lem percents devices config manager 10 400 created
