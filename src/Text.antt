-- ===== src/Text.antt =====
-- Texts and hashes for the examples.
use Prim.Native.Char.{code}
use Prim.Native.String.{[], ◌∷◌, ◌++◌}
use lance_etl.Common.{ℕ, zero, suc, ◌+◌, ◌*◌, ◌%◌, String}

-- A number's text, as that many strokes after a mark.
abbrev pub strokes : ℕ → String
strokes zero = []
strokes (suc n) = "|" ++ strokes n

abbrev pub count : String → ℕ
count [] = 0
count (c ∷ s) = suc (count s)

abbrev pub hash : ℕ → String → ℕ
hash h [] = h
hash h (c ∷ s) = hash ((h * 31 + code c) % 97) s
