-- ===== src/Ipc/Connections.antt =====
-- core-runtime/src/ipc/connections.rs: slots for connections, taken by a load and a
-- compare-and-exchange between which other tasks run.
pub mod Safety
pub mod Tests
use gg_core.Prelude.{
  ℕ, ◌+◌, ◌-◌, ◌%◌, ◌^◌, ◌≡◌, ◌≢◌, Bool, true, false, Option, none, some, List, [], ◌∷◌, ◌++◌, leb,
  ◌==◌, if◌then◌else◌,
}

abbrev pub word : ℕ
word = 2 ^ 64

pub record ConnectionConfig : Type 0 where
  pub max_connections : ℕ

pub record ConnectionPool : Type 0 where
  pub active : ℕ
  pub config : ConnectionConfig

unfoldable pub new : ConnectionConfig → ConnectionPool
new config = record { active = 0; config = config }

-- The value that `try_acquire` and `try_acquire_owned` load, unless the limit is reached.
unfoldable pub look : ConnectionPool → Option ℕ
look p = if leb p.config.max_connections p.active then none else some p.active

-- compare_exchange(current, current + 1): whether it took hold, and the pool.
unfoldable pub exchange : ℕ → ConnectionPool → Bool × ConnectionPool
exchange current p =
    if p.active == current then (true, record p { active = (current + 1) % word }) else (false, p)

-- active.fetch_sub(1), the drop of either guard
unfoldable pub release : ConnectionPool → ConnectionPool
release p = record p { active = (p.active + (word - 1)) % word }

unfoldable pub active_count : ConnectionPool → ℕ
active_count p = p.active

-- The pool with the tasks around it: the values that tasks have loaded and not yet exchanged, and how
-- many guards are held.
pub record Tasks : Type 0 where
  pub pool : ConnectionPool
  pub seen : List ℕ
  pub guards : ℕ

abbrev pub start : ConnectionConfig → Tasks
start config = record { pool = new config; seen = []; guards = 0 }

-- The atomic steps of the tasks, in any order. A task whose exchange fails loads again.
pub data Step : Tasks → Tasks → Type 0 where
  load :
      {t : Tasks} (current : ℕ)
      → look t.pool ≡ some current
      → Step t (record t { seen = current ∷ t.seen })
  won :
      {t : Tasks} (before after : List ℕ) (current : ℕ) (p : ConnectionPool)
      → t.seen ≡ before ++ current ∷ after
      → exchange current t.pool ≡ (true, p)
      → Step t (record { pool = p; seen = before ++ after; guards = t.guards + 1 })
  lost :
      {t : Tasks} (before after : List ℕ) (current : ℕ) (p : ConnectionPool)
      → t.seen ≡ before ++ current ∷ after
      → exchange current t.pool ≡ (false, p)
      → Step t (record t { pool = p; seen = before ++ after })
  drop_guard :
      {t : Tasks} (n : ℕ)
      → t.guards ≡ n + 1
      → Step t (record t { pool = release t.pool; guards = n })

pub data Steps : Tasks → Tasks → Type 0 where
  done : {t : Tasks} → Steps t t
  next : {t u v : Tasks} → Steps t u → Step u v → Steps t v
