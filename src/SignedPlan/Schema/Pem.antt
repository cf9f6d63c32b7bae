-- ===== src/SignedPlan/Schema/Pem.antt =====
-- The pinned certificates of a backup destination (src/signed_plan/schema/actions_m2.rs).
use permanu_agent.Base.{
  ℕ, zero, suc, ◌+◌, ◌-◌, Bool, true, false, ◌&&◌, ◌||◌, List, [], ◌∷◌, ◌++◌, Option, none, some,
  leb, ltb, ◌==◌, if◌then◌else◌, length, all, is_nil, is_some_and, Bytes, codes, within, split,
  strip_prefix, strip_suffix,
}
use permanu_agent.SignedPlan.Crypto.{Codec}
use permanu_agent.SignedPlan.Value.{Value, as_str}
use permanu_agent.SignedPlan.Schema.Grammars.{is_base64}

abbrev pub ca_pem_max : ℕ
ca_pem_max = 16_384

abbrev pub newline : ℕ
newline = 10

-- `trim_end_matches('=')`.
abbrev pub trim_equals : Bytes → Bytes
trim_equals [] = []
trim_equals (c ∷ cs) =
    let rest = trim_equals cs in if c == b'=' && is_nil rest then [] else c ∷ rest

-- A line, given the data of it.
abbrev pub line_shaped : Bytes → Bytes → Bool
line_shaped line data_part =
    within 1 64 (length line) && leb (length line - length data_part) 2 && all is_base64 data_part

-- The last line may be padded.
unfoldable pub lines_shaped : List Bytes → Bool
unfolding is_base64
lines_shaped [] = true
lines_shaped (line ∷ []) = line_shaped line (trim_equals line)
lines_shaped (line ∷ next ∷ lines) = line_shaped line line && lines_shaped (next ∷ lines)

-- `concat`.
abbrev pub concat : List Bytes → Bytes
concat [] = []
concat (t ∷ ts) = t ++ concat ts

-- `der.first() == Some(&0x30)`.
abbrev pub is_sequence : Bytes → Bool
is_sequence [] = false
is_sequence (b ∷ bs) = b == 0x30

unfoldable pub pem_body : Codec → Bytes → Bool
unfolding strip_suffix split lines_shaped
pem_body codec body = elim (strip_suffix (newline ∷ []) body) [
  | none ↦ false
  | some text ↦
      let lines = split newline text in
      lines_shaped lines && is_some_and is_sequence (codec.standard_decode (concat lines))
]

abbrev pub begin_line : Bytes
begin_line = codes "-----BEGIN CERTIFICATE-----" ++ (newline ∷ [])

abbrev pub end_line : Bytes
end_line = codes "-----END CERTIFICATE-----" ++ (newline ∷ [])

-- `find(part)`, as the text before the first occurrence and the text after it.
unfoldable pub find : Bytes → Bytes → Option (Bytes × Bytes)
unfolding strip_prefix
find part [] = elim (strip_prefix part []) [ none ↦ none | some more ↦ some ([], more) ]
find part (c ∷ cs) = elim (strip_prefix part (c ∷ cs)) [
  | some more ↦ some ([], more)
  | none ↦ elim (find part cs) [ none ↦ none | some (before, more) ↦ some (c ∷ before, more) ]
]

-- `while !rest.is_empty()`, on fuel: a block takes the bytes of its first line, so the length of
-- the text is enough. The number of blocks, or `none` for `return false`.
unfoldable pub pem_blocks : Codec → ℕ → ℕ → Bytes → Option ℕ
unfolding strip_prefix find pem_body
pem_blocks codec fuel blocks [] = some blocks
pem_blocks codec zero blocks (c ∷ rest) = none
pem_blocks codec (suc fuel) blocks (c ∷ rest) = elim (strip_prefix begin_line (c ∷ rest)) [
  | none ↦ none
  | some body_and_more ↦ elim (find end_line body_and_more) [
    | none ↦ none
    | some (body, more) ↦ elim (pem_body codec body) [
      | false ↦ none
      | true ↦ pem_blocks codec fuel (blocks + 1) more
    ]
  ]
]

unfoldable pub ca_pem : Codec → Value → Bool
unfolding pem_blocks
ca_pem codec v = elim (as_str v) [
  | none ↦ false
  | some text ↦
      if is_nil text || ltb ca_pem_max (length text)
      then false
      else is_some_and (within 1 8) (pem_blocks codec (length text) 0 text)
]
