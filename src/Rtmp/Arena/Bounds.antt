-- ===== src/Rtmp/Arena/Bounds.antt =====
-- crates/rtmp/src/chunk.rs, `ArenaPool`: the number of blocks, over all the decoders that share the pool.
use stream_delay.Base.{
  ℕ, ◌+◌, ◌/◌, ◌≤◌, max, Bool, Option, none, some, List, [], ◌∷◌, ◌++◌, ltb, leb, length, retain,
  ◌≡◌, refl, subst, arith, length-append, sum_of, sum_of-append, Bool-cases, inl, inr,
}
use stream_delay.Rtmp.Arena.{
  Pool, Arena, new_pool, bytes_in_use, retire, sweep, allot, next_block, arena_block,
  arena_max_message, number, renewed, room_below, arena_with_room, filled_by, place, leave,
}

abbrev taken : Option ℕ → ℕ
taken none = 0
taken (some b) = 1

-- The pass takes out what it reuses.
sweep-length_some :
    (is_free : ℕ → Bool) (r spare : ℕ) (bs : List ℕ)
    → (length (sweep is_free (some r) spare bs).1 ≤ length bs)
      × ((sweep is_free (some r) spare bs).0 ≡ some r)
unfolding sweep
sweep-length_some is_free r spare [] = (omega arith, refl)
sweep-length_some is_free r spare (b ∷ bs) =
    ground (arith, sweep-length_some is_free r (spare + 1) bs, sweep-length_some is_free r spare bs)

sweep-length :
    (is_free : ℕ → Bool) (spare : ℕ) (bs : List ℕ)
    → taken (sweep is_free none spare bs).0 + length (sweep is_free none spare bs).1 ≤ length bs
unfolding sweep
sweep-length is_free spare [] = omega arith
sweep-length is_free spare (b ∷ bs) =
    ground (arith, sweep-length_some is_free b spare bs, sweep-length is_free spare bs)

-- Blocks that no message uses any more are reused before any is allocated.
pub sweep-none :
    (is_free : ℕ → Bool) (spare : ℕ) (bs : List ℕ)
    → (sweep is_free none spare bs).0 ≡ none
    → (retain is_free bs ≡ []) × ((sweep is_free none spare bs).1 ≡ bs)
unfolding sweep
sweep-none is_free spare [] h = (refl, refl)
sweep-none is_free spare (b ∷ bs) h =
    ground (arith, sweep-length_some is_free b spare bs, sweep-none is_free spare bs)

abbrev holds : Arena → ℕ
holds a = taken (number a.block)

-- With `m` blocks at most.
module _ (m : ℕ) where
  -- A pool of which `n` blocks are out, within its limit.
  record IsWithin (n : ℕ) (p : Pool) : Type 0 where
    counted : p.active ≡ n
    within : p.active + length p.retired ≤ p.max_blocks
    limit : p.max_blocks ≡ m

  retire-IsWithin :
      (n : ℕ) (full : Option ℕ) (p : Pool)
      → IsWithin (n + taken full) p
      → IsWithin n (retire full p)
  retire-IsWithin n none p i = record {
    counted = omega (arith, i.counted);
    within = i.within;
    limit = i.limit;
  }
  retire-IsWithin n (some b) p i = record {
    counted = omega (arith, i.counted);
    within = omega (arith, i.counted, i.within, length-append p.retired (b ∷ []));
    limit = i.limit;
  }

  allot-IsWithin :
      (n : ℕ) (reuse : Option ℕ) (p : Pool)
      → p.active ≡ n
      → taken reuse + p.active + length p.retired ≤ p.max_blocks
      → p.max_blocks ≡ m
      → IsWithin (n + taken (allot reuse p).0) (allot reuse p).1
  unfolding allot
  allot-IsWithin n (some b) p e h l = record {
    counted = omega (arith, e);
    within = omega (arith, h);
    limit = l;
  }
  allot-IsWithin n none p e h l =
      elim (Bool-cases (ltb (p.active + length p.retired) p.max_blocks)) [
        | inl t ↦ rw t (record { counted = omega (arith, e); within = ground arith; limit = l })
        | inr f ↦ rw f (record { counted = omega (arith, e); within = omega (arith, h); limit = l })
      ]

  next_block-IsWithin :
      (is_free : ℕ → Bool) (n : ℕ) (full : Option ℕ) (p : Pool)
      → IsWithin (n + taken full) p
      → IsWithin (n + taken (next_block is_free full p).0) (next_block is_free full p).1
  unfolding next_block
  next_block-IsWithin is_free n full p i =
      let r = retire-IsWithin n full p i in
      let swept = sweep is_free none 0 (retire full p).retired in
      allot-IsWithin n swept.0 (record (retire full p) { retired = swept.1 }) (r.counted)
        (omega (arith, r.within, sweep-length is_free 0 (retire full p).retired)) (r.limit)

  renewed-holds : (given : Option ℕ) (a : Arena) → holds (renewed given a) ≡ taken given
  renewed-holds none a = refl
  renewed-holds (some b) a = refl

  arena_with_room-IsWithin :
      (is_free : ℕ → Bool) (len n : ℕ) (a : Arena) (p : Pool)
      → IsWithin (n + holds a) p
      → let r = arena_with_room is_free len a p in IsWithin (n + holds r.1) r.2
  unfolding arena_with_room
  arena_with_room-IsWithin is_free len n a p i = elim (Bool-cases (room_below len a.block)) [
    | inl t ↦ elim (Bool-cases (ltb 0 a.retry_after)) [
      | inl w ↦ rw (t, w) i
      | inr w ↦
          rw (t, w, renewed-holds (next_block is_free (number a.block) p).0 a)
            (next_block-IsWithin is_free n (number a.block) p i)
    ]
    | inr f ↦ rw f i
  ]

  filled_by-holds :
      (len : ℕ) (b : Option (ℕ × ℕ)) → taken (number (filled_by len b)) ≡ taken (number b)
  filled_by-holds len none = refl
  filled_by-holds len (some b) = refl

  place-IsWithin :
      (is_free : ℕ → Bool) (len n : ℕ) (a : Arena) (p : Pool)
      → IsWithin (n + holds a) p
      → let r = place is_free len a p in IsWithin (n + holds r.0) r.1
  unfolding place
  place-IsWithin is_free len n a p i =
      let r = arena_with_room is_free len a p in
      let j = arena_with_room-IsWithin is_free len n a p i in
      elim (Bool-cases (leb len arena_max_message)) [
        | inl t ↦ elim (Bool-cases r.0) [
          | inl w ↦ rw (t, w, filled_by-holds len r.1.block) j
          | inr w ↦ rw (t, w) j
        ]
        | inr f ↦ rw f i
      ]

-- The decoders that share a pool, in any order of joining, of placing messages, whatever blocks are
-- free by then, and of leaving.
pub data IsShared (max_bytes : ℕ) : List Arena → Pool → Type 0 where
  start : IsShared max_bytes [] (new_pool max_bytes)
  joined :
      {arenas : List Arena} {p : Pool}
      → IsShared max_bytes arenas p
      → IsShared max_bytes (record { block = none; retry_after = 0 } ∷ arenas) p
  placed :
      (is_free : ℕ → Bool) (len : ℕ) (xs ys : List Arena) (a : Arena) {p : Pool}
      → IsShared max_bytes (xs ++ (a ∷ ys)) p
      → IsShared max_bytes (xs ++ ((place is_free len a p).0 ∷ ys)) (place is_free len a p).1
  left :
      (xs ys : List Arena) (a : Arena) {p : Pool}
      → IsShared max_bytes (xs ++ (a ∷ ys)) p
      → IsShared max_bytes (xs ++ ys) (leave a p)

held_among :
    (xs ys : List Arena) (a : Arena)
    → sum_of holds (xs ++ (a ∷ ys)) ≡ sum_of holds (xs ++ ys) + holds a
held_among xs ys a = omega (arith, sum_of-append holds xs (a ∷ ys), sum_of-append holds xs ys)

abbrev limit_of : ℕ → ℕ
limit_of max_bytes = max (max_bytes / arena_block) 1

IsShared-IsWithin :
    (max_bytes : ℕ) {arenas : List Arena} {p : Pool}
    → IsShared max_bytes arenas p
    → IsWithin (limit_of max_bytes) (sum_of holds arenas) p
IsShared-IsWithin max_bytes start = record { counted = refl; within = omega arith; limit = refl }
IsShared-IsWithin max_bytes (joined s) =
    let i = IsShared-IsWithin max_bytes s in
    record { counted = omega (arith, i.counted); within = i.within; limit = i.limit }
IsShared-IsWithin max_bytes (placed is_free len xs ys a {p} s) =
    let m = limit_of max_bytes in
    let before = subst (λ n. IsWithin m n p) (held_among xs ys a) (IsShared-IsWithin max_bytes s) in
    rw (held_among xs ys (place is_free len a p).0)
      (place-IsWithin m is_free len (sum_of holds (xs ++ ys)) a p before)
IsShared-IsWithin max_bytes (left xs ys a {p} s) =
    let m = limit_of max_bytes in
    let before = subst (λ n. IsWithin m n p) (held_among xs ys a) (IsShared-IsWithin max_bytes s) in
    retire-IsWithin m (sum_of holds (xs ++ ys)) (number a.block) p before

-- However decoders join a pool, place messages and leave, and whatever messages are still kept by
-- then: the blocks in use hold at most the pool's `max_bytes`, or one block where that is less.
pub IsShared-bytes_in_use :
    (max_bytes : ℕ) (is_free : ℕ → Bool) {arenas : List Arena} {p : Pool}
    → IsShared max_bytes arenas p
    → bytes_in_use is_free p ≤ max max_bytes arena_block
unfolding bytes_in_use
IsShared-bytes_in_use max_bytes is_free s =
    let i = IsShared-IsWithin max_bytes s in omega (arith, i.within, i.limit)
