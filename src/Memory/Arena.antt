-- ===== src/Memory/Arena.antt =====
-- core-runtime/src/memory/arena.rs: bump allocation by load and compare-and-exchange between which other
-- tasks run, and the pool of arenas. A pointer is the index of its byte in the buffer. A usize is a
-- number below 2 ^ 64, and its sums wrap around.
pub mod Rounds
pub mod Packed
pub mod Disjoint
pub mod Overflow
pub mod Pool
pub mod Tests
use Prim.Native.Nat.{bit_and}
use gg_core.Prelude.{
  ℕ, zero, suc, ◌+◌, ◌-◌, ◌*◌, ◌%◌, ◌^◌, Bool, true, false, ◌||◌, not, Option, none, some, List, [],
  ◌∷◌, length, get_elem?, replicate, ltb, ◌==◌, if◌then◌else◌,
}

abbrev pub word : ℕ
word = 2 ^ 64

pub record Arena : Type 0 where
  pub buffer : List ℕ
  pub offset : ℕ
  pub capacity : ℕ

unfoldable pub new : ℕ → Arena
new capacity = record { buffer = replicate capacity 0; offset = 0; capacity = capacity }

-- align - 1
abbrev pub low_bits : ℕ → ℕ
low_bits align = (align + (word - 1)) % word

-- (current + align - 1) & !(align - 1)
unfoldable pub align_up : ℕ → ℕ → ℕ
align_up current align =
    bit_and (((current + align) % word + (word - 1)) % word) (word - 1 - low_bits align)

-- What an allocation asks for.
pub record Request : Type 0 where
  pub size : ℕ
  pub align : ℕ

abbrev pub new_offset : ℕ → Request → ℕ
new_offset current r = (align_up current r.align + r.size) % word

-- How a round of alloc ends: no room, an exchange that failed, a pointer, or an index out of bounds.
pub data Round : Type 0 where
  exhausted retry panic : Round
  pointer : ℕ → Round

-- &self.buffer[aligned]
abbrev pub point_to : Arena → ℕ → Round
point_to a aligned = elim (get_elem? a.buffer aligned) [ none ↦ panic | some _ ↦ pointer aligned ]

-- A round after the load of `current`. The weak exchange may fail spuriously, which `spurious` tells.
unfoldable pub attempt : Bool → ℕ → Request → Arena → Round × Arena
unfolding align_up
attempt spurious current r a =
    if ltb a.capacity (new_offset current r)
    then (exhausted, a)
    else if spurious || not (a.offset == current)
    then (retry, a)
    else (point_to a (align_up current r.align), record a { offset = new_offset current r })

-- The whole call where no other task runs and no exchange fails.
unfoldable pub alloc : Request → Arena → Round × Arena
unfolding attempt
alloc r a = attempt false a.offset r a

unfoldable pub reset : Arena → Arena
reset a = record a { offset = 0 }

unfoldable pub used : Arena → ℕ
used a = a.offset

-- The allocated bytes, and the alignment that was asked for.
pub record Range : Type 0 where
  pub first : ℕ
  pub size : ℕ
  pub align : ℕ

-- The arena with the tasks around it: the requests under way with the offsets they have loaded, and
-- the ranges that were handed out since the last reset, the latest first.
pub record Tasks : Type 0 where
  pub arena : Arena
  pub loaded : List (ℕ × Request)
  pub ranges : List Range

unfoldable pub start : ℕ → Tasks
unfolding new
start capacity = record { arena = new capacity; loaded = []; ranges = [] }

-- What a task does next: it loads the offset for a request, makes the round of the request at a place
-- of the list, or resets the arena, when no range is in use any more.
pub data Event : Type 0 where
  load : Request → Event
  exchange : Bool → ℕ → Event
  reset_all : Event

-- The list without the element at a place.
abbrev pub remove_at {ℓ} : {A : Type ℓ} → ℕ → List A → List A
remove_at i [] = []
remove_at zero (x ∷ xs) = xs
remove_at (suc i) (x ∷ xs) = x ∷ remove_at i xs

abbrev pub with_range : Request → Round → List Range → List Range
with_range r (pointer p) ranges = (record { first = p; size = r.size; align = r.align }) ∷ ranges
with_range r panic ranges = ranges
with_range r exhausted ranges = ranges
with_range r retry ranges = ranges

-- A request that ends leaves the list; one whose exchange failed loads the offset again.
abbrev pub still_loaded : ℕ → Request → Round → List (ℕ × Request) → List (ℕ × Request)
still_loaded offset r retry rest = (offset, r) ∷ rest
still_loaded offset r exhausted rest = rest
still_loaded offset r panic rest = rest
still_loaded offset r (pointer p) rest = rest

unfoldable pub step : Event → Tasks → Tasks
unfolding attempt reset
step (load r) t = record t { loaded = (t.arena.offset, r) ∷ t.loaded }
step reset_all t = record t { arena = reset t.arena; ranges = [] }
step (exchange spurious i) t = elim (get_elem? t.loaded i) [
  | none ↦ t
  | some (current, r) ↦
      let (round, arena) = attempt spurious current r t.arena in
      record {
        arena = arena;
        loaded = still_loaded arena.offset r round (remove_at i t.loaded);
        ranges = with_range r round t.ranges;
      }
]

unfoldable pub run : List Event → Tasks → Tasks
unfolding step
run [] t = t
run (e ∷ es) t = run es (step e t)
