-- ===== src/Rtmp/Arena.antt =====
-- crates/rtmp/src/chunk.rs: the blocks that complete messages are copied into, the pool that decoders
-- share, and a decoder's own block. A block is its number; which blocks no message uses any more, the
-- answer of `try_reclaim` of crate `bytes`, is an argument (`is_free`).
pub mod Bounds
use stream_delay.Base.{
  ℕ, zero, suc, ◌+◌, ◌-◌, ◌*◌, ◌/◌, ◌^◌, max, Bool, true, false, not, Option, none, some, List, [],
  ◌∷◌, ◌++◌, ltb, leb, ◌==◌, if◌then◌else◌, is_none_or, length, retain,
}

-- `ARENA_BLOCK`.
abbrev pub arena_block : ℕ
arena_block = 1024 * 1024

-- `ARENA_MAX_MESSAGE`.
abbrev pub arena_max_message : ℕ
arena_max_message = arena_block / 2

-- `MAX_SPARE_BLOCKS`.
abbrev pub max_spare_blocks : ℕ
max_spare_blocks = 4

-- `RETRY_AFTER`.
abbrev pub retry_bytes : ℕ
retry_bytes = arena_block / 4

pub record Pool : Type 0 where
  pub retired : List ℕ
  pub active : ℕ
  pub allocated : ℕ
  pub max_blocks : ℕ

-- `ArenaPool::new`.
abbrev pub new_pool : ℕ → Pool
new_pool max_bytes = record {
  retired = [];
  active = 0;
  allocated = 0;
  max_blocks = max (max_bytes / arena_block) 1;
}

-- `bytes_in_use`.
unfoldable pub bytes_in_use : (ℕ → Bool) → Pool → ℕ
bytes_in_use is_free p =
    (p.active + length p.retired - length (retain is_free p.retired)) * arena_block

-- `give_back`, and the first step of `next_block`.
abbrev pub give_back : ℕ → Pool → Pool
give_back block p = record p { active = p.active - 1; retired = p.retired ++ (block ∷ []) }

abbrev pub retire : Option ℕ → Pool → Pool
retire none p = p
retire (some full) p = give_back full p

-- The pass of `retain_mut` over the retired blocks: the block to reuse, if there is one, and the
-- blocks that stay.
unfoldable pub sweep : (ℕ → Bool) → Option ℕ → ℕ → List ℕ → Option ℕ × List ℕ
sweep is_free reuse spare [] = (reuse, [])
sweep is_free none spare (b ∷ bs) =
    let taken = sweep is_free (some b) spare bs in
    let later = sweep is_free none spare bs in if is_free b then taken else (later.0, b ∷ later.1)
sweep is_free (some r) spare (b ∷ bs) =
    let counted = sweep is_free (some r) (spare + 1) bs in
    let later = sweep is_free (some r) spare bs in
    if is_free b
    then (counted.0, if leb (spare + 1) max_spare_blocks then b ∷ counted.1 else counted.1)
    else (later.0, b ∷ later.1)

-- The block that `next_block` gives: a reused one, or a new one below the limit. A new block is
-- numbered by `allocated`.
unfoldable pub allot : Option ℕ → Pool → Option ℕ × Pool
allot (some b) p = (some b, record p { active = p.active + 1 })
allot none p =
    if ltb (p.active + length p.retired) p.max_blocks
    then (some p.allocated, record p { allocated = p.allocated + 1; active = p.active + 1 })
    else (none, p)

unfoldable pub next_block : (ℕ → Bool) → Option ℕ → Pool → Option ℕ × Pool
unfolding sweep allot
next_block is_free full p =
    let p = retire full p in
    let (reuse, retired) = sweep is_free none 0 p.retired in
    allot reuse (record p { retired = retired })

-- A decoder's part: its block, with the bytes of room in it, and `retry_after`.
pub record Arena : Type 0 where
  pub block : Option (ℕ × ℕ)
  pub retry_after : ℕ

abbrev pub room_below : ℕ → Option (ℕ × ℕ) → Bool
room_below len block = is_none_or block (λ b. ltb b.1 len)

abbrev pub number : Option (ℕ × ℕ) → Option ℕ
number none = none
number (some (b, room)) = some b

-- A block just given out is empty.
abbrev pub renewed : Option ℕ → Arena → Arena
renewed none a = record a { block = none; retry_after = retry_bytes }
renewed (some b) a = record a { block = some (b, arena_block) }

-- `arena_with_room`: whether there is a block with room for `len` bytes, and what becomes of the
-- decoder's block and the pool.
unfoldable pub arena_with_room : (ℕ → Bool) → ℕ → Arena → Pool → Bool × Arena × Pool
unfolding next_block
arena_with_room is_free len a p =
    let (given, p') = next_block is_free (number a.block) p in
    if room_below len a.block
    then (if ltb 0 a.retry_after
        then (false, a, p)
        else (not (is_none_or given (λ b. false)), renewed given a, p'))
    else (true, a, p)

-- Where a complete message of `len` bytes is put (`next_chunk`): in the decoder's block, on its own
-- until a block is looked for again, or, above `ARENA_MAX_MESSAGE`, in the buffer it arrived in.
abbrev pub filled_by : ℕ → Option (ℕ × ℕ) → Option (ℕ × ℕ)
filled_by len none = none
filled_by len (some (b, room)) = some (b, room - len)

unfoldable pub place : (ℕ → Bool) → ℕ → Arena → Pool → Arena × Pool
unfolding arena_with_room
place is_free len a p =
    let (found, a', p') = arena_with_room is_free len a p in
    if leb len arena_max_message
    then (if found
        then (record a' { block = filled_by len a'.block }, p')
        else (record a' { retry_after = a'.retry_after - max len 1 }, p'))
    else (a, p)

-- `set_arena_pool` on the pool that is left, and `drop` of a decoder.
abbrev pub leave : Arena → Pool → Pool
leave a p = retire (number a.block) p
