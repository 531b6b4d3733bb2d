-- ===== src/Adapter/Primitives/Digest.antt =====
-- What `Sha256Digest::parse` of crates/flutterdec-adapter/src/primitives.rs accepts, and the
-- spellings of a digest.
use flutterdec.Common.{
  ℕ, ◌+◌, ◌*◌, ◌-◌, ◌≤◌, ◌≡◌, refl, ◌↔◌, ◌⊎◌, true, List, [], ◌∷◌, ◌++◌, arith, Text, bytes, utf8,
  length, all, All, leb, if◌then◌else◌, ok,
}
use flutterdec.Adapter.Primitives.{Sha256Digest, is_hex, parse_digest}

-- A lowercase hexadecimal digit.
abbrev pub IsHexDigit : ℕ → Type 0
IsHexDigit c = (48 ≤ c) × (c ≤ 57) ⊎ (97 ≤ c) × (c ≤ 102)

abbrev pub digit_value : ℕ → ℕ
digit_value c = if leb c 57 then c - 48 else c - 87

-- The number that a text of digits denotes, the first digit the most significant.
abbrev pub value_from : ℕ → Text → ℕ
value_from acc [] = acc
value_from acc (c ∷ cs) = value_from (acc * 16 + digit_value c) cs

abbrev pub value : Text → ℕ
value t = value_from 0 t

is_hex_iff : (c : ℕ) → (is_hex c ≡ true) ↔ IsHexDigit c
is_hex_iff c = ground arith

utf8-hex : (c : ℕ) → IsHexDigit c → utf8 c ≡ c ∷ []
utf8-hex c h = ground arith

-- A character past ASCII has a first byte that is no digit.
all-hex-utf8 :
    (c : ℕ) (bs : List ℕ) → all is_hex (utf8 c ++ bs) ≡ true → IsHexDigit c × (all is_hex bs ≡ true)
all-hex-utf8 c bs h = ground arith

bytes-hex : (t : Text) → All IsHexDigit t → bytes t ≡ t
bytes-hex [] h = refl
bytes-hex (c ∷ cs) h = ground (arith, utf8-hex c h.0, bytes-hex cs h.1)

hex-bytes : (t : Text) → all is_hex (bytes t) ≡ true → All IsHexDigit t
hex-bytes [] h = tt
hex-bytes (c ∷ cs) h = let (digit, rest) = all-hex-utf8 c (bytes cs) h in (digit, hex-bytes cs rest)

all-hex : (t : Text) → All IsHexDigit t → all is_hex t ≡ true
all-hex [] h = refl
all-hex (c ∷ cs) h = rw ((is_hex_iff c).1 h.0) (all-hex cs h.1)

-- `parse` returns a digest exactly when the text is 64 lowercase hexadecimal characters, and the
-- digest is then the text.
pub parse_digest_iff :
    (t : Text) (d : Sha256Digest)
    → (parse_digest t ≡ ok d) ↔ ((d.text ≡ t) × (length t ≡ 64) × All IsHexDigit t)
unfolding parse_digest
parse_digest_iff t d = (
  λ h.
      let ascii : all is_hex (bytes t) ≡ true = ground arith in
      let digits = hex-bytes t ascii in
      let same = bytes-hex t digits in (ground arith, ground (arith, same), digits),
  λ (same, size, digits).
      let plain = bytes-hex t digits in rw plain (ground (arith, all-hex t digits)),
)

value_from-injective :
    (s t : Text) (a b : ℕ)
    → length s ≡ length t
    → All IsHexDigit s
    → All IsHexDigit t
    → value_from a s ≡ value_from b t
    → (a ≡ b) × (s ≡ t)
value_from-injective [] [] a b n hs ht e = (e, refl)
value_from-injective [] (d ∷ t) a b n hs ht e = absurd (omega arith)
value_from-injective (c ∷ s) [] a b n hs ht e = absurd (omega arith)
value_from-injective (c ∷ s) (d ∷ t) a b n hs ht e =
    let ih =
      value_from-injective s t (a * 16 + digit_value c) (b * 16 + digit_value d) (omega arith) hs.1
        ht.1 e in
    ground (arith, ih)

-- Two accepted texts that denote the same number are the same digest: no digest has two spellings.
pub digest_unique :
    (s t : Text) {d e : Sha256Digest}
    → parse_digest s ≡ ok d
    → parse_digest t ≡ ok e
    → value d.text ≡ value e.text
    → d ≡ e
digest_unique s t {d} {e} h k same =
    let (ds, ns, hs) = (parse_digest_iff s d).0 h in
    let (et, nt, ht) = (parse_digest_iff t e).0 k in
    let texts = value_from-injective d.text e.text 0 0 (ground arith) (rw ds hs) (rw et ht) same in
    ground arith
