-- ===== src/Relay/Opening/Uri.antt =====
-- The immutable URI names the path: what its percent codes stand for is the path again.
use secure_messenger_lab.Prelude.{
  ℕ, ◌+◌, ◌-◌, ◌*◌, ◌<◌, ◌≡◌, ◌≢◌, refl, ap, ◌∙◌, true, false, [], ◌∷◌, ◌++◌, leb, ◌==◌,
  if◌then◌else◌, All, All-append, arith, Bool-cases, inl, inr,
}
use secure_messenger_lab.Bytes.{Bytes}
use secure_messenger_lab.Relay.Opening.{is_unreserved, encode_byte, encode_path}

-- The value of a hexadecimal digit of RFC 3986.
abbrev pub hex_value : ℕ → ℕ
hex_value h = if leb 65 h then h - 55 else h - 48

-- Percent decoding: a `%` takes the two digits behind it, and any other byte stands for itself.
unfoldable pub percent_decode : Bytes → Bytes
percent_decode [] = []
percent_decode (b ∷ []) = b ∷ []
percent_decode (b ∷ h ∷ []) = b ∷ h ∷ []
percent_decode (b ∷ h ∷ l ∷ bs) =
    let coded = percent_decode bs in
    let plain = percent_decode (h ∷ l ∷ bs) in
    elim (b == 37) [ true ↦ (16 * hex_value h + hex_value l) ∷ coded | false ↦ b ∷ plain ]

-- The delimiters that would end the path of a URI, and the escape itself.
abbrev pub IsPathByte : ℕ → Type 0
IsPathByte b = (b ≢ 63) × (b ≢ 35)

percent_decode-plain :
    (b : ℕ) (bs : Bytes) → b ≢ 37 → percent_decode (b ∷ bs) ≡ b ∷ percent_decode bs
unfolding percent_decode
percent_decode-plain b [] h = refl
percent_decode-plain b (x ∷ []) h = refl
percent_decode-plain b (x ∷ y ∷ bs) h = ground arith

percent_decode-encode_byte :
    (b : ℕ) (bs : Bytes) → b < 256 → percent_decode (encode_byte b ++ bs) ≡ b ∷ percent_decode bs
percent_decode-encode_byte b bs h = elim (Bool-cases (is_unreserved b)) [
  | inl plain ↦ rw plain (percent_decode-plain b bs (ground arith))
  | inr coded ↦ rw coded (unfold percent_decode in ground arith)
]

encode_byte-IsPathByte : (b : ℕ) → b < 256 → All IsPathByte (encode_byte b)
encode_byte-IsPathByte b h = elim (Bool-cases (is_unreserved b)) [
  | inl plain ↦ rw plain ((λ e. ground (arith, plain, e), λ e. ground (arith, plain, e)), tt)
  | inr coded ↦ rw coded (
    (λ e. omega (arith, e), λ e. omega (arith, e)),
    (
      (λ e. ground (arith, e), λ e. ground (arith, e)),
      ((λ e. ground (arith, e), λ e. ground (arith, e)), tt),
    ),
  )
]

-- What `immutable_uri` writes for a path decodes to the path's bytes again, and holds no `?` and
-- no `#`, so that nothing of the path is read as the query or as a fragment.
pub encode_path_exact :
    (path : Bytes)
    → All (λ b. b < 256) path
    → (percent_decode (encode_path path) ≡ path) × All IsPathByte (encode_path path)
unfolding encode_path
encode_path_exact [] h = (unfold percent_decode in refl, tt)
encode_path_exact (b ∷ bs) h =
    let rest = encode_path_exact bs h.1 in
    (
      percent_decode-encode_byte b (encode_path bs) h.0 ∙ ap (λ t. b ∷ t) rest.0,
      All-append IsPathByte (encode_byte b) (encode_path bs) (encode_byte-IsPathByte b h.0) rest.1,
    )
