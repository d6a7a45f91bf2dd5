-- ===== src/Upstream/Choice.antt =====
-- What get_one of a group picks, and what all operations keep.
use demo_submodule.Prelude.{
  count, count-erase, erase, ℕ, ◌<◌, ◌≡◌, refl, sym, ap, Bool, true, false, Option, none, some,
  List, [], ◌∷◌, arith, ◌==◌, Bool-cases, inl, inr,
}
use demo_submodule.Upstream.{Upstream, is_alive, first_alive, prefer, get_one}
use demo_submodule.Upstream.Healthy.{tally, IsHealthy, tally-erase}
use demo_submodule.Upstream.Breakers.{nalive-pos}

-- A shuffle keeps how often each address stands in a vector.
abbrev pub IsShuffle : List ℕ → List ℕ → Type 0
IsShuffle xs ys = (x : ℕ) → count x xs ≡ count x ys

no_count : (ys : List ℕ) (f : ℕ → Bool) → IsShuffle [] ys → tally f ys ≡ 0
no_count [] f h = refl
no_count (y ∷ ys) f h = absurd (ground (arith, h y))

pub tally-IsShuffle : (f : ℕ → Bool) (xs ys : List ℕ) → IsShuffle xs ys → tally f xs ≡ tally f ys
tally-IsShuffle f [] ys h = sym (no_count ys f h)
tally-IsShuffle f (x ∷ xs) ys h =
    let rest : IsShuffle xs (erase x ys) = λ z. ground (arith, h z, count-erase z x ys) in
    omega (arith, tally-IsShuffle f xs (erase x ys) rest, tally-erase f x ys (ground (arith, h x)))

-- What first_alive finds in the vector.
unfoldable pub FoundIn : Upstream → List ℕ → Option ℕ → Type 0
FoundIn s xs none = (a : ℕ) → 0 < count a xs → is_alive s a ≡ false
FoundIn s xs (some a) = (0 < count a xs) × (is_alive s a ≡ true)

FoundIn-cons :
    (s : Upstream) (x : ℕ) (xs : List ℕ)
    → is_alive s x ≡ false
    → (r : Option ℕ) → FoundIn s xs r
    → FoundIn s (x ∷ xs) r
unfolding FoundIn
FoundIn-cons s x xs e none h = λ a p. elim (Bool-cases (x == a)) [
  | inl z ↦ ground (arith, e, z, ap (is_alive s))
  | inr z ↦ h a (ground (arith, z))
]
FoundIn-cons s x xs e (some a) h = (omega (arith, h.0), h.1)

pub first_alive-FoundIn : (s : Upstream) (xs : List ℕ) → FoundIn s xs (first_alive s xs)
unfolding first_alive FoundIn
first_alive-FoundIn s [] = λ a p. absurd (omega arith)
first_alive-FoundIn s (x ∷ xs) = elim (Bool-cases (is_alive s x)) [
  | inl e ↦ rw e (ground arith, e)
  | inr e ↦ rw e (FoundIn-cons s x xs e (first_alive s xs) (first_alive-FoundIn s xs))
]

-- What get_one may return for the group `g`.
unfoldable pub Picks : ℕ → Upstream → Option ℕ → Type 0
Picks g s none = (a : ℕ) → s.group a ≡ g → is_alive s a ≡ false
Picks g s (some a) =
    (s.group a ≡ g)
    × (is_alive s a ≡ true)
    × (s.is_master a ≡ false
        → (b : ℕ) → s.group b ≡ g
        → s.is_master b ≡ true
        → is_alive s b ≡ false)

-- A group that counts no address has none that is alive.
none_alive : (g : ℕ) (s : Upstream) → IsHealthy s → 0 < g → s.nalive g ≡ 0 → Picks g s none
unfolding Picks
none_alive g s v p e a m = elim (Bool-cases (is_alive s a)) [
  | inl live ↦
      absurd (ground (arith, nalive-pos a s v.counts (λ z. ground (arith, z)) live, ap s.nalive m))
  | inr dead ↦ dead
]

get_one_found :
    (g : ℕ) (shuffled shuffled_slaves : List ℕ) (s : Upstream)
    → IsHealthy s
    → 0 < g
    → IsShuffle shuffled (s.masters g)
    → IsShuffle shuffled_slaves (s.slaves g)
    → (r r' : Option ℕ) (t t' : Upstream) → FoundIn s shuffled r
    → FoundIn s shuffled_slaves r'
    → Picks g s (prefer (r', t) t' r).0
unfolding Picks FoundIn
get_one_found g xs ys s v p h k (some a) r' t t' f f' =
    let member : (s.group a ≡ g) × (s.is_master a ≡ true) =
      ground (arith, f.0, h a, v.counts.in_masters g a p) in
    (member.0, f.1, λ slave. absurd (ground (arith, member.1, slave)))
get_one_found g xs ys s v p h k none (some a) t t' f f' =
    let member : s.group a ≡ g = ground (arith, f'.0, k a, v.counts.in_slaves g a p) in
    (member, f'.1, λ slave b m e. f b (ground (arith, h b, v.counts.in_masters g b p, m, e)))
get_one_found g xs ys s v p h k none none t t' f f' = λ a m. elim (Bool-cases (s.is_master a)) [
  | inl e ↦ f a (ground (arith, h a, v.counts.in_masters g a p, m, e))
  | inr e ↦ f' a (ground (arith, k a, v.counts.in_slaves g a p, m, e))
]

-- Whatever the shuffles, get_one of a group of a healthy upstream picks an address of the group that
-- is alive, a slave only if no master of it is alive, and returns NULL exactly if none is alive.
pub get_one-Picks :
    (g : ℕ) (shuffled shuffled_slaves : List ℕ) (s : Upstream)
    → IsHealthy s
    → 0 < g
    → IsShuffle shuffled (s.masters g)
    → IsShuffle shuffled_slaves (s.slaves g)
    → Picks g s (get_one g shuffled shuffled_slaves s).0
unfolding get_one
get_one-Picks g xs ys s v p h k = elim (Bool-cases (s.nalive g == 0)) [
  | inl e ↦ rw e (none_alive g s v p (ground (arith, e)))
  | inr e ↦ rw e (
      get_one_found g xs ys s v p h k (first_alive s xs) (first_alive s ys) _ _
        (first_alive-FoundIn s xs) (first_alive-FoundIn s ys))
]
