-- ===== src/Poller/Order.antt =====
-- The sequences of nodes in the order of their deadlines.
use demo_submodule.Prelude.{
  ℕ, ◌+◌, ◌<◌, ◌≡◌, refl, sym, ap, true, false, none, some, List, [], ◌∷◌, ◌++◌, ◌==◌,
  if◌then◌else◌, count, erase, update, arith, Bool-cases, inl, inr,
}
use demo_submodule.Poller.{
  Timespec, earlier, head_of, last_of, place, next_of, is_node, comes_first,
}

-- `a` is not after `b`.
abbrev pub NotAfter : Timespec → Timespec → Type 0
NotAfter a b = earlier b a ≡ false

pub NotAfter-trans : (a b c : Timespec) → NotAfter a b → NotAfter b c → NotAfter a c
NotAfter-trans a b c h k = ground arith

pub NotAfter-earlier : (a b : Timespec) → earlier a b ≡ true → NotAfter a b
NotAfter-earlier a b h = ground arith

pub earlier-NotAfter : (a b c : Timespec) → earlier a b ≡ true → NotAfter b c → earlier a c ≡ true
earlier-NotAfter a b c h k = ground arith

pub NotAfter-refl : (a : Timespec) → NotAfter a a
NotAfter-refl a = ground arith

-- No node of the list has its deadline before `t`.
abbrev pub NoneBefore : (ℕ → Timespec) → Timespec → List ℕ → Type 0
NoneBefore timeout t [] = Unit
NoneBefore timeout t (x ∷ xs) = NotAfter t (timeout x) × NoneBefore timeout t xs

abbrev pub IsSorted : (ℕ → Timespec) → List ℕ → Type 0
IsSorted timeout [] = Unit
IsSorted timeout (x ∷ xs) = NoneBefore timeout (timeout x) xs × IsSorted timeout xs

module _ (timeout : ℕ → Timespec) where
  pub NoneBefore-trans :
      (s t : Timespec) (xs : List ℕ)
      → NotAfter s t
      → NoneBefore timeout t xs
      → NoneBefore timeout s xs
  NoneBefore-trans s t [] h k = tt
  NoneBefore-trans s t (x ∷ xs) h (k, ks) =
      (NotAfter-trans s t (timeout x) h k, NoneBefore-trans s t xs h ks)

  pub NoneBefore-count :
      (t : Timespec) (n : ℕ) (xs : List ℕ)
      → NoneBefore timeout t xs
      → 0 < count n xs
      → NotAfter t (timeout n)
  NoneBefore-count t n [] h k = absurd (omega arith)
  NoneBefore-count t n (x ∷ xs) (h, hs) k = elim (Bool-cases (x == n)) [
    | inl e ↦ let here : timeout x ≡ timeout n = ap timeout (ground arith) in rw (sym here) h
    | inr e ↦ NoneBefore-count t n xs hs (ground arith)
  ]

  pub NoneBefore-append :
      (t : Timespec) (n : ℕ) (xs : List ℕ)
      → NoneBefore timeout t xs
      → NotAfter t (timeout n)
      → NoneBefore timeout t (xs ++ n ∷ [])
  NoneBefore-append t n [] h k = (k, tt)
  NoneBefore-append t n (x ∷ xs) (h, hs) k = (h, NoneBefore-append t n xs hs k)

  pub NoneBefore-erase :
      (t : Timespec) (n : ℕ) (xs : List ℕ)
      → NoneBefore timeout t xs
      → NoneBefore timeout t (erase n xs)
  NoneBefore-erase t n [] h = tt
  NoneBefore-erase t n (x ∷ xs) (h, hs) = elim (Bool-cases (x == n)) [
    | inl e ↦ rw e hs
    | inr e ↦ rw e (h, NoneBefore-erase t n xs hs)
  ]

  pub NoneBefore-place :
      (t : Timespec) (n : ℕ) (xs : List ℕ)
      → NoneBefore timeout t xs
      → NotAfter t (timeout n)
      → NoneBefore timeout t (place timeout n xs)
  NoneBefore-place t n [] h k = (k, tt)
  NoneBefore-place t n (x ∷ xs) (h, hs) k = elim (Bool-cases (earlier (timeout n) (timeout x))) [
    | inl e ↦ rw e (k, (h, hs))
    | inr e ↦ rw e (h, NoneBefore-place t n xs hs k)
  ]

  pub IsSorted-erase : (n : ℕ) (xs : List ℕ) → IsSorted timeout xs → IsSorted timeout (erase n xs)
  IsSorted-erase n [] h = tt
  IsSorted-erase n (x ∷ xs) (h, hs) = elim (Bool-cases (x == n)) [
    | inl e ↦ rw e hs
    | inr e ↦ rw e (NoneBefore-erase (timeout x) n xs h, IsSorted-erase n xs hs)
  ]

  pub IsSorted-place :
      (n : ℕ) (xs : List ℕ) → IsSorted timeout xs → IsSorted timeout (place timeout n xs)
  IsSorted-place n [] h = (tt, tt)
  IsSorted-place n (x ∷ xs) (h, hs) = elim (Bool-cases (earlier (timeout n) (timeout x))) [
    | inl e ↦
        let before = NotAfter-earlier (timeout n) (timeout x) e in
        rw e ((before, NoneBefore-trans (timeout n) (timeout x) xs before h), (h, hs))
    | inr e ↦ rw e (NoneBefore-place (timeout x) n xs h e, IsSorted-place n xs hs)
  ]

  -- The last node of a sorted list is not before the others.
  pub NoneBefore-last :
      (t : Timespec) (x : ℕ) (xs : List ℕ)
      → NoneBefore timeout t (x ∷ xs)
      → NotAfter t (timeout (last_of x xs))
  NoneBefore-last t x [] (h, hs) = h
  NoneBefore-last t x (y ∷ ys) (h, hs) = NoneBefore-last t y ys hs

  pub IsSorted-append :
      (n x : ℕ) (xs : List ℕ)
      → IsSorted timeout (x ∷ xs)
      → NotAfter (timeout (last_of x xs)) (timeout n)
      → IsSorted timeout (x ∷ xs ++ n ∷ [])
  IsSorted-append n x [] h k = ((k, tt), (tt, tt))
  IsSorted-append n x (y ∷ ys) (h, hs) k = (
    NoneBefore-append (timeout x) n (y ∷ ys) h (
        NotAfter-trans (timeout x) (timeout (last_of y ys)) (timeout n)
          (NoneBefore-last (timeout x) y ys h) k),
    IsSorted-append n y ys hs k,
  )

  -- The first node of a sorted list.
  pub head-NotAfter :
      (m x : ℕ) (xs : List ℕ)
      → IsSorted timeout xs
      → head_of xs ≡ some x
      → 0 < count m xs
      → NotAfter (timeout x) (timeout m)
  head-NotAfter m x [] h e k = absurd (omega arith)
  head-NotAfter m x (y ∷ ys) (h, hs) e k =
      let here : y ≡ x = ground (arith, e) in
      rw (sym here) (elim (Bool-cases (y == m)) [
        | inl z ↦
            let same : timeout y ≡ timeout m = ap timeout (ground arith) in
            rw (sym same) (NotAfter-refl (timeout y))
        | inr z ↦ NoneBefore-count (timeout y) m ys h (ground arith)
      ])

  pub count-place :
      (m n : ℕ) (xs : List ℕ)
      → count m (place timeout n xs) ≡ (if n == m then 1 else 0) + count m xs
  count-place m n [] = refl
  count-place m n (x ∷ xs) = elim (Bool-cases (earlier (timeout n) (timeout x))) [
    | inl e ↦ rw e refl
    | inr e ↦ rw e (omega (arith, count-place m n xs))
  ]

  pub head_of-place :
      (n : ℕ) (xs : List ℕ)
      → head_of (place timeout n xs) ≡ (if comes_first timeout n xs then some n else head_of xs)
  head_of-place n [] = refl
  head_of-place n (x ∷ xs) = elim (Bool-cases (earlier (timeout n) (timeout x))) [
    | inl e ↦ rw e refl
    | inr e ↦ rw e refl
  ]

pub head-count : (x : ℕ) (xs : List ℕ) → head_of xs ≡ some x → 0 < count x xs
head-count x [] e = absurd (ground (arith, e))
head-count x (y ∷ ys) e = ground (arith, e)

pub none-count : (m : ℕ) (xs : List ℕ) → head_of xs ≡ none → count m xs ≡ 0
none-count m [] e = refl
none-count m (y ∷ ys) e = absurd (ground (arith, e))

-- The first node after a node was taken out.
pub head_of-erase :
    (n : ℕ) (xs : List ℕ)
    → head_of (erase n xs) ≡ (if is_node n (head_of xs) then next_of n xs else head_of xs)
head_of-erase n [] = refl
head_of-erase n (x ∷ xs) = elim (Bool-cases (x == n)) [ inl e ↦ rw e refl | inr e ↦ rw e refl ]

-- A deadline that is written into a node outside the list changes nothing for the list.
pub NoneBefore-update :
    (timeout : ℕ → Timespec) (n : ℕ) (d t : Timespec) (xs : List ℕ)
    → count n xs ≡ 0
    → NoneBefore timeout t xs
    → NoneBefore (update timeout n d) t xs
NoneBefore-update timeout n d t [] h k = tt
NoneBefore-update timeout n d t (x ∷ xs) h (k, ks) =
    let other : (x == n) ≡ false = ground arith in
    (rw other k, NoneBefore-update timeout n d t xs (ground arith) ks)

pub IsSorted-update :
    (timeout : ℕ → Timespec) (n : ℕ) (d : Timespec) (xs : List ℕ)
    → count n xs ≡ 0
    → IsSorted timeout xs
    → IsSorted (update timeout n d) xs
IsSorted-update timeout n d [] h k = tt
IsSorted-update timeout n d (x ∷ xs) h (k, ks) =
    let other : (x == n) ≡ false = ground arith in
    let rest : count n xs ≡ 0 = ground arith in
    (
      rw other (NoneBefore-update timeout n d (timeout x) xs rest k),
      IsSorted-update timeout n d xs rest ks,
    )
