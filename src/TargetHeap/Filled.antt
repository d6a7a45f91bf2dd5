-- ===== src/TargetHeap/Filled.antt =====
-- The array of the heap with its hole filled, and how moving a target into the hole changes it.
use demo_submodule.Prelude.{
  ℕ, ◌<◌, ◌≡◌, ◌≢◌, refl, sym, ap, ◌∙◌, ◌==◌, if◌then◌else◌, length, length-set, set, get_or-set,
  arith, sum_upto, sum_upto-change, sum_upto-pos, le-sum_upto, inl, inr, Bool-cases,
}
use demo_submodule.TargetHeap.{TargetHeap, at, place}

-- Each of the first `n` targets knows its place.
abbrev pub Knows : ℕ → TargetHeap → Type 0
Knows n h = (c : ℕ) → c < n → h.index (at h c) ≡ c

-- The sum of a quantity over the first `n` targets.
abbrev pub total : ℕ → (ℕ → ℕ) → TargetHeap → ℕ
total n f h = sum_upto n (λ c. f (at h c))

-- The heap `k` holds the targets of `h`, as often, and has its sizes.
pub record Same (n : ℕ) (h k : TargetHeap) : Type 0 where
  pub sums : (f : ℕ → ℕ) → total n f k ≡ total n f h
  pub covers : (c : ℕ) → c < n → (d : ℕ) × (d < n) × (at k c ≡ at h d)
  pub size : k.heap_size ≡ h.heap_size
  pub buf_size : k.heap_buf_size ≡ h.heap_buf_size
  pub room : length k.tg_heap ≡ length h.tg_heap

pub Same-refl : (n : ℕ) (h : TargetHeap) → Same n h h
Same-refl n h = record {
  sums = λ f. refl;
  covers = λ c l. (c, l, refl);
  size = refl;
  buf_size = refl;
  room = refl;
}

pub Same-trans : (n : ℕ) (h k m : TargetHeap) → Same n h k → Same n k m → Same n h m
Same-trans n h k m s t = record {
  sums = λ f. t.sums f ∙ s.sums f;
  covers =
      λ c l. let (d, ld, e) = t.covers c l in let (b, lb, e') = s.covers d ld in (b, lb, e ∙ e');
  size = t.size ∙ s.size;
  buf_size = t.buf_size ∙ s.buf_size;
  room = t.room ∙ s.room;
}

-- A target of `h` stands in `k` where its index says.
pub Same-index :
    (n i : ℕ) (h k : TargetHeap)
    → i < n
    → Same n h k
    → Knows n k
    → (k.index (at h i) < n) × (at k (k.index (at h i)) ≡ at h i)
Same-index n i h k li s w =
    let is_it : ℕ → ℕ = λ x. if x == at h i then 1 else 0 in
    let here : is_it (at h i) ≡ 1 = ground arith in
    let positive = le-sum_upto n i (λ c. is_it (at h c)) li in
    let (c, l, found) = sum_upto-pos n (λ c. is_it (at k c)) (omega (arith, s.sums is_it)) in
    let e : at k c ≡ at h i = ground arith in ground (arith, e, w c l, ap k.index e)

pub at-place :
    (t i c : ℕ) (h : TargetHeap)
    → i < length h.tg_heap
    → at (place t i h) c ≡ (if i == c then t else at h c)
at-place t i c h l = get_or-set h.tg_heap i c t 0 l

-- The hole moves from `i` to `j`: the target at `j` goes to `i`.
abbrev pub moved : ℕ → ℕ → ℕ → TargetHeap → TargetHeap
moved t i j h = place t j (place (at h j) i h)

module _ (t i j : ℕ) (h : TargetHeap) (li : i < length h.tg_heap) (lj : j < length h.tg_heap) where
  pub at-moved :
      (c : ℕ) → at (moved t i j h) c ≡ (if j == c then t else if i == c then at h j else at h c)
  at-moved c =
      let l : j < length (place (at h j) i h).tg_heap =
        omega (arith, length-set h.tg_heap i (at h j)) in
      ground (arith, at-place t j c (place (at h j) i h) l, at-place (at h j) i c h li)

  pub moved-Knows :
      (n : ℕ) → i < n → j < n → i ≢ j → Knows n (place t i h) → Knows n (moved t i j h)
  moved-Knows n ni nj ne k c l = ground (
    arith,
    at-moved c,
    at-place t i c h li,
    at-place t i i h li,
    at-place t i j h li,
    k c l,
    k i ni,
    k j nj,
  )

  moved-sums :
      (n : ℕ)
      → i < n
      → j < n
      → i ≢ j
      → (f : ℕ → ℕ) → total n f (moved t i j h) ≡ total n f (place t i h)
  moved-sums n ni nj ne f =
      let m = place (at h j) i h in
      let lm : j < length m.tg_heap = omega (arith, length-set h.tg_heap i (at h j)) in
      let first =
        sum_upto-change n i (λ c. f (at (place t i h) c)) (λ c. f (at m c)) ni
          (λ c l d. ap f (ground (arith, at-place t i c h li, at-place (at h j) i c h li))) in
      let second =
        sum_upto-change n j (λ c. f (at (moved t i j h) c)) (λ c. f (at m c)) nj
          (λ c l d. ap f (ground (arith, at-place t j c m lm))) in
      let mi : at m i ≡ at h j = ground (arith, at-place (at h j) i i h li) in
      let mj : at m j ≡ at h j = ground (arith, at-place (at h j) i j h li) in
      let vi : at (place t i h) i ≡ t = ground (arith, at-place t i i h li) in
      let wj : at (moved t i j h) j ≡ t = ground (arith, at-place t j j m lm) in
      omega (arith, first, second, ap f mi, ap f mj, ap f vi, ap f wj)

  moved-covers :
      (n : ℕ)
      → i < n
      → j < n
      → i ≢ j
      → (c : ℕ) → c < n
      → (d : ℕ) × (d < n) × (at (moved t i j h) c ≡ at (place t i h) d)
  moved-covers n ni nj ne c l = elim (Bool-cases (j == c)) [
    | inl e ↦ (i, ni, ground (arith, at-moved c, at-place t i i h li))
    | inr e ↦ elim (Bool-cases (i == c)) [
      | inl e' ↦ (j, nj, ground (arith, at-moved c, at-place t i j h li))
      | inr e' ↦ (c, l, ground (arith, at-moved c, at-place t i c h li))
    ]
  ]

  pub moved-Same : (n : ℕ) → i < n → j < n → i ≢ j → Same n (place t i h) (moved t i j h)
  moved-Same n ni nj ne = record {
    sums = moved-sums n ni nj ne;
    covers = moved-covers n ni nj ne;
    size = refl;
    buf_size = refl;
    room =
        length-set (set h.tg_heap i (at h j)) j t
        ∙ length-set h.tg_heap i (at h j)
        ∙ sym (length-set h.tg_heap i t);
  }
