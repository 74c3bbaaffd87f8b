-- ===== src/Eap/Mschapv2/Runes.antt =====
-- What eap/mschapv2/mschapv2.go uses of Go's text functions: decoding of UTF-8, `utf8.Valid`,
-- `utf16.Encode` and `strings.Fields`. A text is the list of its bytes.
use swan.Common.{
  ℕ, zero, suc, ◌+◌, ◌-◌, ◌*◌, ◌/◌, ◌%◌, ltb, leb, ◌==◌, if◌then◌else◌, Bool, true, false, ◌&&◌,
  ◌||◌, List, [], ◌∷◌, ◌++◌, length,
}

-- A rune with the bytes that it was decoded from. An invalid byte gives the replacement rune.
pub record Rune : Type 0 where
  pub value : ℕ
  pub bytes : List ℕ
  pub valid : Bool

abbrev within : ℕ → ℕ → ℕ → Bool
within lo hi b = leb lo b && leb b hi

abbrev continues : ℕ → Bool
continues b = within 0x80 0xbf b

-- What a first byte announces: a rune of one to four bytes, and the range of the second byte.
pub data Lead : Type 0 where
  one : Lead
  two : Lead
  three : ℕ → ℕ → Lead
  four : ℕ → ℕ → Lead
  wrong : Lead

unfoldable pub lead_of : ℕ → Lead
lead_of b =
    if ltb b 0x80
    then one
    else if ltb b 0xc2
    then wrong
    else if ltb b 0xe0
    then two
    else if b == 0xe0
    then three 0xa0 0xbf
    else if b == 0xed
    then three 0x80 0x9f
    else if ltb b 0xf0
    then three 0x80 0xbf
    else if b == 0xf0
    then four 0x90 0xbf
    else if ltb b 0xf4
    then four 0x80 0xbf
    else if b == 0xf4
    then four 0x80 0x8f
    else wrong

abbrev bad_rune : ℕ → Rune
bad_rune b = record { value = 0xfffd; bytes = b ∷ []; valid = false }

unfoldable pub decode_lead : Lead → ℕ → List ℕ → Rune
decode_lead one b r = record { value = b; bytes = b ∷ []; valid = true }
decode_lead two b (c ∷ r) =
    if continues c
    then record { value = b % 32 * 64 + c % 64; bytes = b ∷ c ∷ []; valid = true }
    else bad_rune b
decode_lead (three lo hi) b (c ∷ d ∷ r) =
    if within lo hi c && continues d
    then record {
      value = b % 16 * 4096 + c % 64 * 64 + d % 64;
      bytes = b ∷ c ∷ d ∷ [];
      valid = true;
    }
    else bad_rune b
decode_lead (four lo hi) b (c ∷ d ∷ e ∷ r) =
    if within lo hi c && (continues d && continues e)
    then record {
      value = b % 8 * 262144 + c % 64 * 4096 + d % 64 * 64 + e % 64;
      bytes = b ∷ c ∷ d ∷ e ∷ [];
      valid = true;
    }
    else bad_rune b
decode_lead _ b r = bad_rune b

-- The runes of a text, of which the first `skip` bytes belong to the rune in front.
unfoldable pub runes_from : ℕ → List ℕ → List Rune
runes_from skip [] = []
runes_from (suc skip) (b ∷ r) = runes_from skip r
runes_from zero (b ∷ r) =
    let x : Rune = decode_lead (lead_of b) b r in x ∷ runes_from (length x.bytes - 1) r

abbrev pub runes : List ℕ → List Rune
runes text = runes_from 0 text

abbrev all_valid : List Rune → Bool
all_valid [] = true
all_valid (x ∷ xs) = x.valid && all_valid xs

abbrev pub utf8_valid : List ℕ → Bool
utf8_valid text = all_valid (runes text)

-- `unicode.IsSpace`.
unfoldable pub is_space : ℕ → Bool
is_space v =
    within 9 13 v
    || v == 0x20
    || v == 0x85
    || v == 0xa0
    || v == 0x1680
    || within 0x2000 0x200a v
    || v == 0x2028
    || v == 0x2029
    || v == 0x202f
    || v == 0x205f
    || v == 0x3000

abbrev end_field : List ℕ → List (List ℕ) → List (List ℕ)
end_field [] rest = rest
end_field (c ∷ cs) rest = (c ∷ cs) ∷ rest

unfoldable pub fields_from : List ℕ → List Rune → List (List ℕ)
fields_from field [] = end_field field []
fields_from field (x ∷ xs) =
    let ended = fields_from [] xs in
    let going = fields_from (field ++ x.bytes) xs in
    if is_space x.value then end_field field ended else going

abbrev pub fields : List ℕ → List (List ℕ)
fields text = fields_from [] (runes text)

-- A code unit as two bytes, the low one first.
abbrev unit_bytes : ℕ → List ℕ
unit_bytes u = u % 256 ∷ u / 256 % 256 ∷ []

abbrev utf16_units : ℕ → List ℕ
utf16_units v =
    if ltb v 0x10000
    then unit_bytes v
    else unit_bytes (0xd800 + (v - 0x10000) / 1024 % 1024)
      ++ unit_bytes (0xdc00 + (v - 0x10000) % 1024)

abbrev utf16_of : List Rune → List ℕ
utf16_of [] = []
utf16_of (x ∷ xs) = utf16_units x.value ++ utf16_of xs

abbrev pub utf16_le : List ℕ → List ℕ
utf16_le text = utf16_of (runes text)
