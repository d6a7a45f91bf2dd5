-- ===== src/Strings/Codec/RoundTrip.antt =====
-- StringUtil::url_decode after the two encoders.
use demo_submodule.Prelude.{
  ℕ, ◌/◌, ◌%◌, ◌<◌, ◌≤◌, ◌≡◌, refl, sym, ap, ◌∙◌, Bool, true, false, ◌||◌, inl, inr, List, [], ◌∷◌,
  ◌++◌, arith, ◌==◌, ==_iff, Bool-cases, All, length,
}
use demo_submodule.Ctype.{isxdigit, IsByte}
use demo_submodule.Strings.Codec.{
  hex_value, htoi, itoh, decode_char, url_decode, is_unreserved, is_reserved, encode_char,
  encode_with, url_encode, url_encode_component,
}

-- `itoh` prints each value below 16 as a digit that `hex_value` reads back.
hex_value-itoh : (n : ℕ) → n < 16 → (isxdigit (itoh n) ≡ true) × (hex_value (itoh n) ≡ n)
unfolding hex_value itoh
hex_value-itoh n h = ground arith

htoi-itoh : (c : ℕ) → IsByte c → htoi (itoh (c / 16)) (itoh (c % 16)) ≡ c
unfolding htoi
htoi-itoh c h =
    omega
      (arith, (hex_value-itoh (c / 16) (omega arith)).1, (hex_value-itoh (c % 16) (omega arith)).1)

decode_plain :
    (c : ℕ) (rest : List ℕ)
    → (c == b'%') ≡ false
    → url_decode (c ∷ rest) ≡ decode_char c ∷ url_decode rest
unfolding url_decode
decode_plain c [] h = refl
decode_plain c (x ∷ []) h = refl
decode_plain c (x ∷ y ∷ rest) h = rw (h, url_decode)

decode_escape :
    (x y : ℕ) (rest : List ℕ)
    → isxdigit x ≡ true
    → isxdigit y ≡ true
    → url_decode (b'%' ∷ x ∷ y ∷ rest) ≡ htoi x y ∷ url_decode rest
unfolding url_decode
decode_escape x y rest p q = rw (p, q, url_decode)

differs : (copied : ℕ → Bool) (c k : ℕ) → copied c ≡ true → copied k ≡ false → (c == k) ≡ false
differs copied c k p q = elim (Bool-cases (c == k)) [
  | inl e ↦ cc (ap copied ((==_iff c k).0 e))
  | inr e ↦ e
]

-- The encoders copy neither `%` nor `+`.
module _ (copied : ℕ → Bool) (no_percent : copied b'%' ≡ false)
    (no_plus : copied b'+' ≡ false) where
  decode-encode_char :
      (c : ℕ) (rest : List ℕ)
      → IsByte c
      → url_decode (encode_char copied c ++ rest) ≡ c ∷ url_decode rest
  unfolding encode_char decode_char
  decode-encode_char c rest h = elim (Bool-cases (c == b' ')) [
    | inl e ↦
        rw e
          (decode_plain b'+' rest refl ∙ ap (λ d. d ∷ url_decode rest) (sym ((==_iff c b' ').0 e)))
    | inr e ↦ elim (Bool-cases (copied c)) [
      | inl f ↦
          rw (e, f)
            (decode_plain c rest (differs copied c b'%' f no_percent)
              ∙ rw (differs copied c b'+' f no_plus) refl)
      | inr f ↦
          let (p, _) = hex_value-itoh (c / 16) (omega arith) in
          let (q, _) = hex_value-itoh (c % 16) (omega arith) in
          rw (e, f) (decode_escape _ _ rest p q ∙ ap (λ d. d ∷ url_decode rest) (htoi-itoh c h))
    ]
  ]

  decode-encode_with : (str : List ℕ) → All IsByte str → url_decode (encode_with copied str) ≡ str
  unfolding encode_with
  decode-encode_with [] h = unfold url_decode in refl
  decode-encode_with (c ∷ rest) h =
      decode-encode_char c (encode_with copied rest) h.0 ∙ ap (◌∷◌ c) (decode-encode_with rest h.1)

-- Decoding what `url_encode` made of a string of bytes gives the string back.
pub url_decode-url_encode : (str : List ℕ) → All IsByte str → url_decode (url_encode str) ≡ str
unfolding url_encode
url_decode-url_encode str h =
    decode-encode_with (λ c. is_unreserved c || is_reserved c) refl refl str h

-- Decoding what `url_encode_component` made of a string of bytes gives the string back.
pub url_decode-url_encode_component :
    (str : List ℕ) → All IsByte str → url_decode (url_encode_component str) ≡ str
unfolding url_encode_component
url_decode-url_encode_component str h = decode-encode_with is_unreserved refl refl str h

-- The result of `url_decode` is never longer than its input, so the in-place write, its closing
-- NUL included, stays in the buffer.
pub length-url_decode-le : (str : List ℕ) → length (url_decode str) ≤ length str
unfolding url_decode
length-url_decode-le [] = omega arith
length-url_decode-le (c ∷ []) = omega arith
length-url_decode-le (c ∷ x ∷ []) = omega (arith, length-url_decode-le (x ∷ []))
length-url_decode-le (c ∷ x ∷ y ∷ rest) =
    ground (arith, length-url_decode-le (x ∷ y ∷ rest), length-url_decode-le rest)
