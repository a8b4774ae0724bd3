-- ===== src/Rtmp/Wire.antt =====
-- The big-endian numbers of the wire: crates/rtmp/src/chunk.rs (`u24`, `be32`, `put_u24`) and the
-- writers and readers of integers of crates `bytes` and core that it, amf0.rs and message.rs use.
-- A reader is given the slice that holds its number; a writer's value is what it appends.
use stream_delay.Base.{
  ℕ, zero, suc, ◌+◌, ◌-◌, ◌*◌, ◌/◌, ◌%◌, ◌^◌, ◌≤◌, ◌<◌, ◌≡◌, refl, ap, List, [], ◌∷◌, ◌++◌, arith,
  take, drop, length,
}
use stream_delay.Flv.{Bytes}

unfoldable pub u16 : Bytes → ℕ
u16 (a ∷ b ∷ r) = a * 256 + b
u16 _ = 0

-- `u24`.
unfoldable pub u24 : Bytes → ℕ
u24 (a ∷ b ∷ c ∷ r) = a * 0x1_0000 + b * 256 + c
u24 _ = 0

-- `be32`.
unfoldable pub be32 : Bytes → ℕ
be32 (a ∷ b ∷ c ∷ d ∷ r) = a * 0x100_0000 + b * 0x1_0000 + c * 256 + d
be32 _ = 0

-- `u32::from_le_bytes`.
unfoldable pub le32 : Bytes → ℕ
le32 (a ∷ b ∷ c ∷ d ∷ r) = a + b * 256 + c * 0x1_0000 + d * 0x100_0000
le32 _ = 0

-- `put_u16`.
unfoldable pub put_u16 : ℕ → Bytes
put_u16 v = v / 256 % 256 ∷ v % 256 ∷ []

-- `put_u24`.
unfoldable pub put_u24 : ℕ → Bytes
put_u24 v = v / 0x1_0000 % 256 ∷ v / 256 % 256 ∷ v % 256 ∷ []

-- `put_u32`, `to_be_bytes`.
unfoldable pub put_u32 : ℕ → Bytes
put_u32 v = v / 0x100_0000 % 256 ∷ v / 0x1_0000 % 256 ∷ v / 256 % 256 ∷ v % 256 ∷ []

-- `put_u32_le`.
unfoldable pub put_u32_le : ℕ → Bytes
put_u32_le v = v % 256 ∷ v / 256 % 256 ∷ v / 0x1_0000 % 256 ∷ v / 0x100_0000 % 256 ∷ []

pub u16-put_u16 : (v : ℕ) (r : Bytes) → v < 2 ^ 16 → u16 (put_u16 v ++ r) ≡ v
unfolding u16 put_u16
u16-put_u16 v r h = omega arith

pub u24-put_u24 : (v : ℕ) (r : Bytes) → v < 2 ^ 24 → u24 (put_u24 v ++ r) ≡ v
unfolding u24 put_u24
u24-put_u24 v r h = omega arith

pub be32-put_u32 : (v : ℕ) (r : Bytes) → v < 2 ^ 32 → be32 (put_u32 v ++ r) ≡ v
unfolding be32 put_u32
be32-put_u32 v r h = omega arith

pub le32-put_u32_le : (v : ℕ) (r : Bytes) → v < 2 ^ 32 → le32 (put_u32_le v ++ r) ≡ v
unfolding le32 put_u32_le
le32-put_u32_le v r h = omega arith

pub length-put_u16 : (v : ℕ) → length (put_u16 v) ≡ 2
unfolding put_u16
length-put_u16 v = refl

pub length-put_u24 : (v : ℕ) → length (put_u24 v) ≡ 3
unfolding put_u24
length-put_u24 v = refl

pub length-put_u32 : (v : ℕ) → length (put_u32 v) ≡ 4
unfolding put_u32
length-put_u32 v = refl

-- What a slice at the front of the bytes holds.
pub take-length : {A : Type 0} (xs ys : List A) → take (length xs) (xs ++ ys) ≡ xs
take-length [] ys = refl
take-length (x ∷ xs) ys = ap (λ r. x ∷ r) (take-length xs ys)

pub drop-length : {A : Type 0} (xs ys : List A) → drop (length xs) (xs ++ ys) ≡ ys
drop-length [] ys = refl
drop-length (x ∷ xs) ys = drop-length xs ys

pub length-drop : {A : Type 0} (n : ℕ) (xs : List A) → length (drop n xs) ≡ length xs - n
length-drop zero xs = omega arith
length-drop (suc n) [] = omega arith
length-drop (suc n) (x ∷ xs) = omega (arith, length-drop n xs)

pub take-append :
    {A : Type 0} (n : ℕ) (b more : List A) → n ≤ length b → take n (b ++ more) ≡ take n b
take-append zero b more h = refl
take-append (suc n) [] more h = absurd (omega arith)
take-append (suc n) (x ∷ b) more h = ap (λ r. x ∷ r) (take-append n b more (omega arith))

pub drop-append :
    {A : Type 0} (n : ℕ) (b more : List A) → n ≤ length b → drop n (b ++ more) ≡ drop n b ++ more
drop-append zero b more h = refl
drop-append (suc n) [] more h = absurd (omega arith)
drop-append (suc n) (x ∷ b) more h = drop-append n b more (omega arith)
