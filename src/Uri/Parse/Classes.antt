-- ===== src/Uri/Parse/Classes.antt =====
-- The characters that each part of a URI may hold, in the words of RFC 3986, and the table
-- `valid_char` of workflow-step-by-step/src/util/URIParser.cc.
use native.Mathlib.Nat.{pow-le-pow_right, div-eq_of_lt}
use demo_submodule.Prelude.{
  ℕ, zero, suc, ◌/◌, ◌^◌, ◌≤◌, ◌<◌, ◌≡◌, refl, sym, ◌∙◌, Bool, true, false, ◌&&◌, ◌||◌, arith, ltb,
  ◌==◌, Bool-cases, inl, inr,
}
use demo_submodule.Ctype.{isdigit, isalnum}
use demo_submodule.Uri.{Part, scheme, userinfo, host, port, path, query, fragment}
use demo_submodule.Uri.Parse.{valid_mask, valid_char}

-- unreserved, sub-delims, the percent sign of an escape, and the colon
abbrev pub is_common : ℕ → Bool
is_common c =
    isalnum c
    || c == b'-'
    || c == b'.'
    || c == b'_'
    || c == b'~'
    || c == b'!'
    || c == b'$'
    || c == b'&'
    || c == 39
    || c == b'('
    || c == b')'
    || c == b'*'
    || c == b'+'
    || c == b','
    || c == b';'
    || c == b'='
    || c == b'%'
    || c == b':'

abbrev pub is_allowed : Part → ℕ → Bool
is_allowed scheme c = isalnum c || c == b'+' || c == b'-' || c == b'.'
is_allowed userinfo c = is_common c
is_allowed host c = is_common c
is_allowed port c = isdigit c
is_allowed path c = is_common c || c == b'/' || c == b'@'
is_allowed query c = is_common c || c == b'/' || c == b'@' || c == b'?'
is_allowed fragment c = is_common c || c == b'/' || c == b'@' || c == b'?'

abbrev same : Bool → Bool → Bool
same true b = b
same false true = false
same false false = true

same_eq : (a b : Bool) → same a b ≡ true → a ≡ b
same_eq true b h = sym h
same_eq false true h = absurd (ground arith)
same_eq false false h = refl

all_below : ℕ → (ℕ → Bool) → Bool
all_below zero f = true
all_below (suc n) f = f n && all_below n f

all_below_inv : (n : ℕ) (f : ℕ → Bool) → all_below n f ≡ true → (c : ℕ) → c < n → f c ≡ true
unfolding all_below
all_below_inv zero f h c k = absurd (omega arith)
all_below_inv (suc n) f h c k = elim (Bool-cases (c == n)) [
  | inl e ↦ ground (arith, h, e)
  | inr e ↦ all_below_inv n f (ground arith) c (ground (arith, e, k))
]

agree : (i : Part) → all_below 128 (λ c. same (valid_char i c) (is_allowed i c)) ≡ true
unfolding all_below valid_char
agree scheme = refl
agree userinfo = refl
agree host = refl
agree port = refl
agree path = refl
agree query = refl
agree fragment = refl

pub valid_char-below : (i : Part) (c : ℕ) → c < 128 → valid_char i c ≡ is_allowed i c
valid_char-below i c h =
    same_eq (valid_char i c) (is_allowed i c)
      (all_below_inv 128 (λ c. same (valid_char i c) (is_allowed i c)) (agree i) c h)

is_allowed-above : (i : Part) (c : ℕ) → 128 ≤ c → is_allowed i c ≡ false
is_allowed-above scheme c h = ground arith
is_allowed-above userinfo c h = ground arith
is_allowed-above host c h = ground arith
is_allowed-above port c h = ground arith
is_allowed-above path c h = ground arith
is_allowed-above query c h = ground arith
is_allowed-above fragment c h = ground arith

mask_small : (i : Part) → valid_mask i < 2 ^ 128
mask_small scheme = omega arith
mask_small userinfo = omega arith
mask_small host = omega arith
mask_small port = omega arith
mask_small path = omega arith
mask_small query = omega arith
mask_small fragment = omega arith

valid_char-above : (i : Part) (c : ℕ) → 128 ≤ c → valid_char i c ≡ false
unfolding valid_char
valid_char-above i c h =
    let power : 2 ^ 128 ≤ 2 ^ c = pow-le-pow_right {n = 2} (omega arith) h in
    let none_left : valid_mask i / 2 ^ c ≡ 0 = div-eq_of_lt (omega (arith, mask_small i)) in
    rw none_left refl

-- The table of the code holds exactly these characters.
pub valid_char_lem : (i : Part) (c : ℕ) → valid_char i c ≡ is_allowed i c
valid_char_lem i c = elim (Bool-cases (ltb c 128)) [
  | inl h ↦ valid_char-below i c (ground arith)
  | inr h ↦
      let above : 128 ≤ c = ground arith in
      valid_char-above i c above ∙ sym (is_allowed-above i c above)
]
