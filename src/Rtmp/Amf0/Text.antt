-- ===== src/Rtmp/Amf0/Text.antt =====
-- The standard library's `String::from_utf8_lossy`, which crates/rtmp/src/amf0.rs reads strings with:
-- well-formed UTF-8 is kept, each longest start of a character that does not go on is replaced by
-- U+FFFD, and so is each byte that starts none.
use stream_delay.Base.{
  ℕ, zero, suc, Bool, ◌&&◌, [], ◌∷◌, ◌++◌, ltb, leb, ◌==◌, if◌then◌else◌, length,
}
use stream_delay.Flv.{Bytes}

abbrev replacement : Bytes
replacement = 0xef ∷ 0xbf ∷ 0xbd ∷ []

-- The bytes that may come second, after the first byte `b0`: from and to.
abbrev second_low : ℕ → ℕ
second_low b0 = if b0 == 0xe0 then 0xa0 else if b0 == 0xf0 then 0x90 else 0x80

abbrev second_high : ℕ → ℕ
second_high b0 = if b0 == 0xed then 0x9f else if b0 == 0xf4 then 0x8f else 0xbf

abbrev is_second : ℕ → ℕ → Bool
is_second b0 b1 = leb (second_low b0) b1 && leb b1 (second_high b0)

abbrev is_continuation : ℕ → Bool
is_continuation b = leb 0x80 b && leb b 0xbf

-- How many bytes a character with this first byte has; 0 where none has it.
abbrev width : ℕ → ℕ
width b0 =
    if ltb b0 0x80
    then 1
    else if ltb b0 0xc2
    then 0
    else if ltb b0 0xe0
    then 2
    else if ltb b0 0xf0
    then 3
    else if ltb b0 0xf5
    then 4
    else 0

-- The character at the front, or its replacement, and what comes after.
abbrev third : ℕ → ℕ → ℕ → Bytes → Bytes × Bytes
third n b0 b1 [] = (replacement, [])
third n b0 b1 (b2 ∷ []) =
    if is_continuation b2
    then (if n == 3 then (b0 ∷ b1 ∷ b2 ∷ [], []) else (replacement, []))
    else (replacement, b2 ∷ [])
third n b0 b1 (b2 ∷ b3 ∷ r) =
    if is_continuation b2
    then (if n == 3
        then (b0 ∷ b1 ∷ b2 ∷ [], b3 ∷ r)
        else if is_continuation b3
        then (b0 ∷ b1 ∷ b2 ∷ b3 ∷ [], r)
        else (replacement, b3 ∷ r))
    else (replacement, b2 ∷ b3 ∷ r)

abbrev second : ℕ → ℕ → Bytes → Bytes × Bytes
second n b0 [] = (replacement, [])
second n b0 (b1 ∷ r) =
    if is_second b0 b1
    then (if n == 2 then (b0 ∷ b1 ∷ [], r) else third n b0 b1 r)
    else (replacement, b1 ∷ r)

abbrev character : ℕ → Bytes → Bytes × Bytes
character b0 r =
    if width b0 == 1
    then (b0 ∷ [], r)
    else if width b0 == 0
    then (replacement, r)
    else second (width b0) b0 r

-- On fuel: every character takes a byte at least.
unfoldable pub lossy_rounds : ℕ → Bytes → Bytes
lossy_rounds zero s = []
lossy_rounds (suc fuel) [] = []
lossy_rounds (suc fuel) (b0 ∷ r) = let (c, rest) = character b0 r in c ++ lossy_rounds fuel rest

-- `from_utf8_lossy`.
unfoldable pub lossy : Bytes → Bytes
lossy s = lossy_rounds (length s) s
