-- ===== src/Memory/Arena/Overflow.antt =====
-- A request whose size makes the sum of the new offset wrap around (core-runtime/src/memory/arena.rs).
use gg_core.Prelude.{ℕ, ◌+◌, ◌-◌, ◌%◌, ◌^◌, ◌<◌, ◌≡◌, refl, length, get_elem?-some, arith}
use gg_core.Prelude.Masks.{bit_and-high}
use gg_core.Memory.Arena.{word, Arena, low_bits, align_up, pointer, attempt, alloc}

align_up-one : (current : ℕ) → current < 2 ^ 63 → align_up current 1 ≡ current
unfolding align_up
align_up-one current h =
    let x = ((current + 1) % word + (word - 1)) % word in
    let (c, e, le, gt) = bit_and-high 0 64 x (word - 1 - low_bits 1) refl (omega arith) in
    omega (arith, le, gt)

-- On an arena in use, with space left and a buffer of its capacity below 2 ^ 63, a request for all bytes
-- from the offset to the end of the address space is granted: it gets the offset as its pointer, and the
-- offset goes back to 0, so that the next allocation overlaps the earlier ones.
pub alloc_wraps :
    (a : Arena)
    → 0 < a.offset
    → a.offset < a.capacity
    → length a.buffer ≡ a.capacity
    → a.capacity < 2 ^ 63
    → alloc (record { size = 2 ^ 64 - a.offset; align = 1 }) a
      ≡ (pointer a.offset, record a { offset = 0 })
unfolding alloc attempt
alloc_wraps a used space whole fits =
    let (b, there) = get_elem?-some a.buffer a.offset (omega arith) in
    let at = align_up-one a.offset (omega arith) in
    let wraps : (a.offset + (2 ^ 64 - a.offset)) % 2 ^ 64 ≡ 0 = omega arith in
    ground (arith, at, there, wraps)
