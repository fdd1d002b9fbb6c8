-- ===== src/Memory/Arena/Pool.antt =====
-- The pool of arenas (core-runtime/src/memory/arena.rs).
use gg_core.Prelude.{ℕ, List, [], ◌∷◌, ◌++◌, length, ltb, if◌then◌else◌}
use gg_core.Memory.Arena.{Arena, new, reset}

pub record ArenaPool : Type 0 where
  pub arenas : List Arena
  pub arena_size : ℕ
  pub max_arenas : ℕ

unfoldable pub new_pool : ℕ → ℕ → ArenaPool
new_pool arena_size max_arenas = record {
  arenas = [];
  arena_size = arena_size;
  max_arenas = max_arenas;
}

unfoldable pub acquire : ArenaPool → Arena × ArenaPool
acquire p = elim p.arenas [
  | [] ↦ (new p.arena_size, p)
  | a ∷ rest ↦ (a, record p { arenas = rest })
]

unfoldable pub release : Arena → ArenaPool → ArenaPool
release a p =
    if ltb (length p.arenas) p.max_arenas then record p { arenas = p.arenas ++ reset a ∷ [] } else p

unfoldable pub available : ArenaPool → ℕ
available p = length p.arenas
