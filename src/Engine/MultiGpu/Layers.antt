-- ===== src/Engine/MultiGpu/Layers.antt =====
-- core-runtime/src/engine/multi_gpu.rs and multi_gpu_partition.rs: the layers that the devices get.
use gg_core.Prelude.{
  ℕ, suc, ◌+◌, ◌*◌, ◌/◌, ◌%◌, ◌<◌, ◌-◌, min, ◌≡◌, refl, subst, some, List, [], ◌∷◌, length,
  length-take, take, map, ltb, ◌⊎◌, inl, inr, Bool-cases, arith,
}
use native.Mathlib.Nat.{suc-mul, div-add-mod, mod-lt}
use gg_core.Engine.MultiGpu.{
  GpuDevice, GpuPartition, MultiGpuConfig, MultiGpuManager, MultiGpuStrategy, ok, Floats, gpus,
  num_gpus_of, new, available_sum, gpu_layers, layers_loop, partition_by_layers,
  partition_by_tensors, partition_by_pipeline, partition_by_experts, u64, determine_strategy,
  partition_with, partition_model,
}

gpu_layers-near :
    (per_gpu extra i current : ℕ)
    → (current + gpu_layers per_gpu extra i ≡ current + per_gpu)
      ⊎ (current + gpu_layers per_gpu extra i ≡ current + per_gpu + 1)
gpu_layers-near per_gpu extra i current = elim (Bool-cases (ltb i extra)) [
  | inl more ↦ inr (ground arith)
  | inr none_more ↦ inl (ground arith)
]

end_of :
    (per_gpu extra i current n : ℕ)
    → current + gpu_layers per_gpu extra i + (n * per_gpu + min (extra - (i + 1)) n)
      ≡ current + (suc n * per_gpu + min (extra - i) (suc n))
end_of per_gpu extra i current n =
    let e : suc n * per_gpu ≡ n * per_gpu + per_gpu = suc-mul n per_gpu in ground arith

module _ {F : Type 0} where
  -- The partitions stand with the devices in their order, with the budgets for their memories, and
  -- their ranges of layers follow each other from one layer to another, each as long as a number says
  -- or one longer.
  abbrev pub Shares : (ℕ → ℕ) → ℕ → ℕ → ℕ → List GpuDevice → List (GpuPartition F) → Type 0
  Shares budget per_gpu start end [] [] = start ≡ end
  Shares budget per_gpu start end [] (p ∷ ps) = ⊥
  Shares budget per_gpu start end (d ∷ ds) [] = ⊥
  Shares budget per_gpu start end (d ∷ ds) (p ∷ ps) =
      (p.gpu_index ≡ d.index)
      × (p.memory_budget ≡ budget d.available_memory)
      × (p.first ≡ start)
      × ((p.last ≡ start + per_gpu) ⊎ (p.last ≡ start + per_gpu + 1))
      × Shares budget per_gpu p.last end ds ps

  -- The partitions stand with the devices in their order, each with all layers and one budget.
  abbrev pub Wholes : ℕ → F → List GpuDevice → List (GpuPartition F) → Type 0
  Wholes budget fraction [] [] = Unit
  Wholes budget fraction [] (p ∷ ps) = ⊥
  Wholes budget fraction (d ∷ ds) [] = ⊥
  Wholes budget fraction (d ∷ ds) (p ∷ ps) =
      (p.gpu_index ≡ d.index)
      × (p.first ≡ 0)
      × (p.last ≡ u64 - 1)
      × (p.memory_budget ≡ budget)
      × (p.parameter_fraction ≡ fraction)
      × Wholes budget fraction ds ps

  -- One device after the other gets all layers.
  map-Wholes :
      (budget : ℕ) (fraction : F) (ds : List GpuDevice)
      → Wholes budget fraction ds (
          map
            (λ d. record {
              gpu_index = d.index;
              first = 0;
              last = u64 - 1;
              memory_budget = budget;
              parameter_fraction = fraction;
            })
            ds)
  map-Wholes budget fraction [] = tt
  map-Wholes budget fraction (d ∷ ds) =
      (refl, refl, refl, refl, refl, map-Wholes budget fraction ds)

  module _ (floats : Floats F) where
    layers_loop-Shares :
        (per_gpu extra num_layers model_size total i current : ℕ) (ds : List GpuDevice)
        → Shares
            (λ a. floats.budget model_size a total)
            per_gpu
            current
            (current + (length ds * per_gpu + min (extra - i) (length ds)))
            ds
            (layers_loop floats per_gpu extra num_layers model_size total i current ds)
    unfolding layers_loop
    layers_loop-Shares per_gpu extra num_layers model_size total i current [] = omega arith
    layers_loop-Shares per_gpu extra num_layers model_size total i current (d ∷ ds) =
        let rest =
          layers_loop-Shares per_gpu extra num_layers model_size total (i + 1)
            (current + gpu_layers per_gpu extra i) ds in
        (
          refl,
          refl,
          refl,
          gpu_layers-near per_gpu extra i current,
          subst
              (λ end.
                Shares (λ a. floats.budget model_size a total) per_gpu
                  (current + gpu_layers per_gpu extra i) end ds
                  (layers_loop floats per_gpu extra num_layers model_size total (i + 1)
                    (current + gpu_layers per_gpu extra i) ds))
              (end_of per_gpu extra i current (length ds)) rest,
        )

    -- What the partitions of a strategy are.
    abbrev pub Assigned : MultiGpuStrategy → List GpuDevice → ℕ → ℕ → List (GpuPartition F) → Type 0
    Assigned MultiGpuStrategy.layer_parallelism ds num_layers size ps =
        Shares (λ a. floats.budget size a (available_sum ds)) (num_layers / length ds) 0 num_layers
          ds ps
    Assigned MultiGpuStrategy.pipeline_parallelism ds num_layers size ps =
        Shares (λ a. floats.budget size a (available_sum ds)) (num_layers / length ds) 0 num_layers
          ds ps
    Assigned MultiGpuStrategy.automatic ds num_layers size ps =
        Shares (λ a. floats.budget size a (available_sum ds)) (num_layers / length ds) 0 num_layers
          ds ps
    Assigned MultiGpuStrategy.tensor_parallelism ds num_layers size ps =
        Wholes (size / length ds) (floats.share (length ds)) ds ps
    Assigned MultiGpuStrategy.expert_parallelism ds num_layers size ps =
        Wholes (size / length ds) (floats.share (length ds)) ds ps

    by_layers :
        (ds : List GpuDevice) (num_layers size : ℕ)
        → 0 < length ds
        → (ps : List (GpuPartition F)) × (partition_by_layers floats ds num_layers size ≡ some ps)
          × Shares
              (λ a. floats.budget size a (available_sum ds))
              (num_layers / length ds)
              0
              num_layers
              ds
              ps
    unfolding partition_by_layers
    by_layers ds num_layers size some_device =
        let per_gpu : ℕ = num_layers / length ds in
        let extra : ℕ = num_layers % length ds in
        let e : 0 + (length ds * per_gpu + min (extra - 0) (length ds)) ≡ num_layers =
          omega (arith, div-add-mod num_layers (length ds), mod-lt num_layers some_device) in
        (
          layers_loop floats per_gpu extra num_layers size (available_sum ds) 0 0 ds,
          ground arith,
          subst
              (λ end.
                Shares (λ a. floats.budget size a (available_sum ds)) per_gpu 0 end ds
                  (layers_loop floats per_gpu extra num_layers size (available_sum ds) 0 0 ds))
              e (layers_loop-Shares per_gpu extra num_layers size (available_sum ds) 0 0 ds),
        )

    by_tensors :
        (ds : List GpuDevice) (size : ℕ)
        → 0 < length ds
        → (ps : List (GpuPartition F)) × (partition_by_tensors floats ds size ≡ some ps)
          × Wholes (size / length ds) (floats.share (length ds)) ds ps
    unfolding partition_by_tensors
    by_tensors ds size some_device =
        let share_of : GpuDevice → GpuPartition F = λ d. record {
          gpu_index = d.index;
          first = 0;
          last = u64 - 1;
          memory_budget = size / length ds;
          parameter_fraction = floats.share (length ds);
        } in
        (map share_of ds, ground arith, map-Wholes (size / length ds) (floats.share (length ds)) ds)

    partition_with-Assigned :
        (strategy : MultiGpuStrategy) (ds : List GpuDevice) (num_layers size : ℕ)
        → 0 < length ds
        → (ps : List (GpuPartition F)) × (partition_with floats strategy ds num_layers size
            ≡ some ps)
          × Assigned strategy ds num_layers size ps
    unfolding partition_with partition_by_pipeline partition_by_experts
    partition_with-Assigned MultiGpuStrategy.layer_parallelism ds num_layers size h =
        by_layers ds num_layers size h
    partition_with-Assigned MultiGpuStrategy.pipeline_parallelism ds num_layers size h =
        by_layers ds num_layers size h
    partition_with-Assigned MultiGpuStrategy.automatic ds num_layers size h =
        by_layers ds num_layers size h
    partition_with-Assigned MultiGpuStrategy.tensor_parallelism ds num_layers size h =
        by_tensors ds size h
    partition_with-Assigned MultiGpuStrategy.expert_parallelism ds num_layers size h =
        by_tensors ds size h

  -- A manager is made with a device at least.
  new-some :
      (ds : List GpuDevice) (config : MultiGpuConfig F) (m : MultiGpuManager F)
      → new ds config ≡ ok m
      → 0 < length m.devices
  unfolding new
  new-some ds config m h =
      let wanted : ℕ = num_gpus_of config.num_gpus (length (gpus ds)) in
      let taken : length (take wanted (gpus ds)) ≡ min wanted (length (gpus ds)) =
        length-take wanted (gpus ds) in
      elim (Bool-cases (ltb (length ds) 2)) [
        | inl few ↦ absurd (ground arith)
        | inr enough ↦ elim (Bool-cases (ltb (length (gpus ds)) 2)) [
          | inl few ↦ absurd (ground arith)
          | inr enough' ↦
              let e : m.devices ≡ take wanted (gpus ds) = ground arith in
              let some_wanted : 0 < wanted = ground arith in rw (e, taken) (ground arith)
        ]
      ]

  -- A manager that was made spreads any model over its devices without a division by zero, by the
  -- strategy that is determined: by layers or pipeline, the partitions stand with the devices in
  -- their order, each with the budget for its memory, and the ranges follow each other from layer 0
  -- to the last, each as long as the number of layers divided by the devices or one longer; by
  -- tensors or experts, the partitions stand with the devices in their order, each with all layers,
  -- and its budget is the size divided by the devices and its fraction the share of one of them.
  pub partition_model_lem :
      (floats : Floats F) (ds : List GpuDevice) (config : MultiGpuConfig F) (m : MultiGpuManager F)
      (num_layers size : ℕ)
      → new ds config ≡ ok m
      → (m' : MultiGpuManager F) × (partition_model floats num_layers size m ≡ some m')
        × (m'.devices ≡ m.devices)
        × (m'.active_strategy ≡ determine_strategy floats m.config m.devices num_layers)
        × Assigned floats m'.active_strategy m'.devices num_layers size m'.partitions
  unfolding partition_model
  partition_model_lem floats ds config m num_layers size h =
      let strategy : MultiGpuStrategy = determine_strategy floats m.config m.devices num_layers in
      let (ps, returns, assigned) =
        partition_with-Assigned floats strategy m.devices num_layers size
          (new-some ds config m h) in
      (record m { active_strategy = strategy; partitions = ps }, ground arith, refl, refl, assigned)
