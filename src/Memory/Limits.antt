-- ===== src/Memory/Limits.antt =====
-- core-runtime/src/memory/limits.rs: memory and slots that inference calls reserve, by atomic steps
-- that other calls come between. The counters are 64 bits wide.
pub mod Safety
pub mod Acquire
pub mod Tests
use gg_core.Prelude.{
  ℕ, ◌+◌, ◌-◌, ◌%◌, ◌≤◌, ◌<◌, ◌≡◌, Bool, true, false, List, [], ◌∷◌, ◌++◌, ltb, leb, if◌then◌else◌,
}
use gg_core.Memory.Paged.{word}

pub record ResourceLimitsConfig : Type 0 where
  pub max_memory_per_call : ℕ
  pub max_total_memory : ℕ
  pub max_concurrent : ℕ

pub record ResourceLimits : Type 0 where
  pub config : ResourceLimitsConfig
  pub current_memory : ℕ
  pub current_concurrent : ℕ

pub data InferenceError : Type 0 where
  memory_exceeded queue_full : ℕ → ℕ → InferenceError

pub data Result (A : Type 0) : Type 0 where
  ok : A → Result A
  err : InferenceError → Result A

unfoldable pub new : ResourceLimitsConfig → ResourceLimits
new config = record { config = config; current_memory = 0; current_concurrent = 0 }

-- current_memory.fetch_add and fetch_sub
unfoldable pub add_memory : ℕ → ResourceLimits → ResourceLimits
add_memory m l = record l { current_memory = (l.current_memory + m) % word }

unfoldable pub sub_memory : ℕ → ResourceLimits → ResourceLimits
sub_memory m l = record l { current_memory = (l.current_memory + (word - m)) % word }

-- current_concurrent.fetch_add(1) and fetch_sub(1)
unfoldable pub add_slot : ResourceLimits → ResourceLimits
add_slot l = record l { current_concurrent = (l.current_concurrent + 1) % word }

unfoldable pub sub_slot : ResourceLimits → ResourceLimits
sub_slot l = record l { current_concurrent = (l.current_concurrent + (word - 1)) % word }

-- The three tests of `try_acquire`, on what the counters were before.
unfoldable pub is_too_large : ℕ → ResourceLimits → Bool
is_too_large m l = ltb l.config.max_memory_per_call m

unfoldable pub exceeds_total : ℕ → ResourceLimits → Bool
exceeds_total m l = ltb l.config.max_total_memory ((l.current_memory + m) % word)

unfoldable pub is_full : ResourceLimits → Bool
is_full l = leb l.config.max_concurrent l.current_concurrent

-- The slot, once the memory is reserved.
unfoldable pub acquire_slot : ℕ → ResourceLimits → Result ℕ × ResourceLimits
unfolding is_full add_slot sub_slot sub_memory
acquire_slot m l =
    if is_full l
    then (
      err (queue_full ((l.current_concurrent + 1) % word) l.config.max_concurrent),
      sub_memory m (sub_slot (add_slot l)),
    )
    else (ok m, add_slot l)

-- The call without another one between its steps. The guard is the memory that it holds.
unfoldable pub try_acquire : ℕ → ResourceLimits → Result ℕ × ResourceLimits
unfolding is_too_large exceeds_total add_memory sub_memory acquire_slot
try_acquire m l =
    if is_too_large m l
    then (err (memory_exceeded m l.config.max_memory_per_call), l)
    else if exceeds_total m l
    then (
      err (memory_exceeded ((l.current_memory + m) % word) l.config.max_total_memory),
      sub_memory m (add_memory m l),
    )
    else acquire_slot m (add_memory m l)

-- The calls around the counters, each by the memory it asked for: those that go on with their memory
-- reserved, those that must give the memory back, those that must give a slot and the memory back,
-- the guards, and how many guards are gone that still hold their slot.
pub record Calls : Type 0 where
  pub limits : ResourceLimits
  pub reserved : List ℕ
  pub giving_back : List ℕ
  pub giving_slot_back : List ℕ
  pub guards : List ℕ
  pub leaving : ℕ

abbrev pub start : ResourceLimitsConfig → Calls
start config = record {
  limits = new config;
  reserved = [];
  giving_back = [];
  giving_slot_back = [];
  guards = [];
  leaving = 0;
}

-- The atomic steps of `try_acquire` and of the drop of a guard, in any order. Reservations that would
-- overflow a counter are left out.
pub data Step : Calls → Calls → Type 0 where
  reserve :
      {c : Calls} (m : ℕ)
      → is_too_large m c.limits ≡ false
      → exceeds_total m c.limits ≡ false
      → c.limits.current_memory + m < word
      → Step c (record c { limits = add_memory m c.limits; reserved = m ∷ c.reserved })
  exceed :
      {c : Calls} (m : ℕ)
      → is_too_large m c.limits ≡ false
      → exceeds_total m c.limits ≡ true
      → c.limits.current_memory + m < word
      → Step c (record c { limits = add_memory m c.limits; giving_back = m ∷ c.giving_back })
  give_back :
      {c : Calls} (before after : List ℕ) (m : ℕ)
      → c.giving_back ≡ before ++ m ∷ after
      → Step c (record c { limits = sub_memory m c.limits; giving_back = before ++ after })
  take_slot :
      {c : Calls} (before after : List ℕ) (m : ℕ)
      → c.reserved ≡ before ++ m ∷ after
      → is_full c.limits ≡ false
      → c.limits.current_concurrent + 1 < word
      → Step c (record c {
        limits = add_slot c.limits;
        reserved = before ++ after;
        guards = m ∷ c.guards;
      })
  miss_slot :
      {c : Calls} (before after : List ℕ) (m : ℕ)
      → c.reserved ≡ before ++ m ∷ after
      → is_full c.limits ≡ true
      → c.limits.current_concurrent + 1 < word
      → Step c (record c {
        limits = add_slot c.limits;
        reserved = before ++ after;
        giving_slot_back = m ∷ c.giving_slot_back;
      })
  give_slot_back :
      {c : Calls} (before after : List ℕ) (m : ℕ)
      → c.giving_slot_back ≡ before ++ m ∷ after
      → Step c (record c {
        limits = sub_slot c.limits;
        giving_slot_back = before ++ after;
        giving_back = m ∷ c.giving_back;
      })
  drop_memory :
      {c : Calls} (before after : List ℕ) (m : ℕ)
      → c.guards ≡ before ++ m ∷ after
      → Step c (record c {
        limits = sub_memory m c.limits;
        guards = before ++ after;
        leaving = c.leaving + 1;
      })
  drop_slot :
      {c : Calls} (n : ℕ)
      → c.leaving ≡ n + 1
      → Step c (record c { limits = sub_slot c.limits; leaving = n })

pub data Steps : Calls → Calls → Type 0 where
  done : {c : Calls} → Steps c c
  next : {a b c : Calls} → Steps a b → Step b c → Steps a c
