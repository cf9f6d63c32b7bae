-- ===== src/Base/Utf8.antt =====
-- `str::chars` over the bytes of a text, which are valid UTF-8 in a Rust `str`, and `str::trim`.
use mathlib.Core.List.{reverse}
use permanu_agent.Base.{
  ℕ, zero, suc, ◌+◌, ◌-◌, ◌*◌, Bool, ◌||◌, List, [], ◌∷◌, ltb, ◌==◌, if◌then◌else◌, Bytes, within,
}

-- The flow of code points, with the number of continuation bytes still to come.
unfoldable pub decode : ℕ → ℕ → Bytes → List ℕ
decode need acc [] = []
decode zero acc (c ∷ cs) =
    let ascii = c ∷ decode 0 0 cs in
    let two = decode 1 (c - 0xc0) cs in
    let three = decode 2 (c - 0xe0) cs in
    let four = decode 3 (c - 0xf0) cs in
    if ltb c 0x80 then ascii else if ltb c 0xe0 then two else if ltb c 0xf0 then three else four
decode (suc zero) acc (c ∷ cs) = (acc * 64 + (c - 0x80)) ∷ decode 0 0 cs
decode (suc (suc need)) acc (c ∷ cs) = decode (suc need) (acc * 64 + (c - 0x80)) cs

unfoldable pub chars : Bytes → List ℕ
unfolding decode
chars = decode 0 0

-- `char::is_whitespace` (the White_Space property).
unfoldable pub is_whitespace : ℕ → Bool
is_whitespace c =
    within 9 13 c
    || c == 0x20
    || c == 0x85
    || c == 0xa0
    || c == 0x1680
    || within 0x2000 0x200a c
    || c == 0x2028
    || c == 0x2029
    || c == 0x202f
    || c == 0x205f
    || c == 0x3000

unfoldable pub trim_start : List ℕ → List ℕ
unfolding is_whitespace
trim_start [] = []
trim_start (c ∷ cs) = let rest = trim_start cs in if is_whitespace c then rest else c ∷ cs

unfoldable pub trim : List ℕ → List ℕ
unfolding trim_start
trim cs = reverse (trim_start (reverse (trim_start cs)))
