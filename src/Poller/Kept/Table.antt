-- ===== src/Poller/Kept/Table.antt =====
-- The table `nodes`: it holds exactly the nodes with a descriptor that wait, each at its own.
use demo_submodule.Prelude.{
  ℕ, ◌+◌, ◌<◌, ◌≤◌, ◌≡◌, ◌≢◌, refl, sym, ap, ◌∙◌, true, false, Option, none, some, List, [], ◌∷◌,
  ◌==◌, if◌then◌else◌, count, update, arith, Bool-cases, inl, inr,
}
use demo_submodule.Poller.{Slot, empty, reserved, holds, with_entry}
use demo_submodule.Poller.Expire.{clear_all}

pub record IsTable (linked : ℕ → ℕ) (fd : ℕ → Option ℕ) (nodes : ℕ → Slot) : Type 0 where
  pub held : (f n : ℕ) → nodes f ≡ holds n → (0 < linked n) × (fd n ≡ some f)
  pub tabled : (n f : ℕ) → 0 < linked n → fd n ≡ some f → nodes f ≡ holds n

abbrev held_node : Slot → ℕ
held_node (holds n) = n
held_node other = 0

pub holds-injective : (m n : ℕ) → holds m ≡ holds n → m ≡ n
holds-injective m n e = ap held_node e

abbrev fd_of : Option ℕ → ℕ
fd_of none = 0
fd_of (some f) = f

some-injective : (f g : ℕ) → some f ≡ some g → f ≡ g
some-injective f g e = ap fd_of e

none-some : (f : ℕ) → none ≢ some f
none-some f e = ground (arith, e)

pub empty-holds : (n : ℕ) → empty ≢ holds n
empty-holds n e = ground (arith, e)

pub reserved-holds : (n : ℕ) → reserved ≢ holds n
reserved-holds n e = ground (arith, e)

pub update_here : {A : Type 0} (t : ℕ → A) (g f : ℕ) (a : A) → (f == g) ≡ true → update t g a f ≡ a
update_here t g f a e = rw e refl

pub update_other :
    {A : Type 0} (t : ℕ → A) (g f : ℕ) (a : A) → (f == g) ≡ false → update t g a f ≡ t f
update_other t g f a e = rw e refl

module _ (linked linked' : ℕ → ℕ) (fd : ℕ → Option ℕ) (nodes : ℕ → Slot)
    (t : IsTable linked fd nodes) where
  -- A node leaves the table with its place.
  IsTable-remove_at :
      (n : ℕ) (slot : Option ℕ)
      → fd n ≡ slot
      → 0 < linked n
      → ((m : ℕ) → linked' m ≡ (if m == n then 0 else linked m))
      → IsTable linked' fd (with_entry empty slot nodes)
  IsTable-remove_at n none d h less = record {
    held = λ f m e.
        let (l, at) = t.held f m e in
        let other : (m == n) ≡ false = elim (Bool-cases (m == n)) [
          | inl k ↦ absurd (none-some f (sym d ∙ ap fd (ground (arith, k)) ∙ at))
          | inr k ↦ k
        ] in
        (ground (arith, less m, other, l), at);
    tabled = λ m f l e. t.tabled m f (ground (arith, less m, l)) e;
  }
  IsTable-remove_at n (some g) d h less = record {
    held = λ f m e. elim (Bool-cases (f == g)) [
      | inl k ↦ absurd (empty-holds m (sym (update_here nodes g f empty k) ∙ e))
      | inr k ↦
          let (l, at) = t.held f m (sym (update_other nodes g f empty k) ∙ e) in
          let other : (m == n) ≡ false = elim (Bool-cases (m == n)) [
            | inl z ↦
                let same : g ≡ f = some-injective g f (sym d ∙ ap fd (ground (arith, z)) ∙ at) in
                absurd (ground (arith, same, k))
            | inr z ↦ z
          ] in
          (ground (arith, less m, other, l), at)
    ];
    tabled = λ m f l e.
        let was : 0 < linked m = ground (arith, less m, l) in
        let there = t.tabled m f was e in
        elim (Bool-cases (f == g)) [
          | inl k ↦
              let same : f ≡ g = ground (arith, k) in
              let node = t.tabled n g h d in
              let equal : m ≡ n = holds-injective m n (sym there ∙ ap nodes same ∙ node) in
              absurd (ground (arith, less m, l, equal))
          | inr k ↦ update_other nodes g f empty k ∙ there
        ];
  }

  pub IsTable-remove :
      (n : ℕ)
      → 0 < linked n
      → ((m : ℕ) → linked' m ≡ (if m == n then 0 else linked m))
      → IsTable linked' fd (with_entry empty (fd n) nodes)
  IsTable-remove n h less = IsTable-remove_at n (fd n) refl h less

  -- A node comes to wait at a descriptor without a node.
  pub IsTable-insert :
      (n g : ℕ)
      → linked n ≡ 0
      → ((m : ℕ) → nodes g ≢ holds m)
      → ((m : ℕ) → linked' m ≡ (if n == m then 1 else 0) + linked m)
      → IsTable linked' (update fd n (some g)) (update nodes g (holds n))
  IsTable-insert n g h free more = record {
    held = λ f m e. elim (Bool-cases (f == g)) [
      | inl k ↦
          let equal : n ≡ m = holds-injective n m (sym (update_here nodes g f (holds n) k) ∙ e) in
          let same : g ≡ f = ground (arith, k) in
          (
            ground (arith, more m, equal),
            update_here fd n m (some g) (ground (arith, equal)) ∙ ap some same,
          )
      | inr k ↦
          let (l, at) = t.held f m (sym (update_other nodes g f (holds n) k) ∙ e) in
          let other : (m == n) ≡ false = elim (Bool-cases (m == n)) [
            | inl z ↦
                let equal : linked m ≡ linked n = ap linked (ground (arith, z)) in
                absurd (omega (arith, l, h, equal))
            | inr z ↦ z
          ] in
          (omega (arith, more m, l), update_other fd n m (some g) other ∙ at)
    ];
    tabled = λ m f l e. elim (Bool-cases (m == n)) [
      | inl z ↦
          let same : g ≡ f = some-injective g f (sym (update_here fd n m (some g) z) ∙ e) in
          let equal : n ≡ m = ground (arith, z) in
          update_here nodes g f (holds n) (ground (arith, same)) ∙ ap holds equal
      | inr z ↦
          let there =
            t.tabled m f (ground (arith, more m, l, z))
              (sym (update_other fd n m (some g) z) ∙ e) in
          elim (Bool-cases (f == g)) [
            | inl k ↦
                let same : g ≡ f = ground (arith, k) in absurd (free m (ap nodes same ∙ there))
            | inr k ↦ update_other nodes g f (holds n) k ∙ there
          ]
    ];
  }

  -- A timer waits without a descriptor.
  pub IsTable-timer :
      (n : ℕ)
      → linked n ≡ 0
      → ((m : ℕ) → linked' m ≡ (if n == m then 1 else 0) + linked m)
      → IsTable linked' (update fd n none) nodes
  IsTable-timer n h more = record {
    held = λ f m e.
        let (l, at) = t.held f m e in
        let other : (m == n) ≡ false = elim (Bool-cases (m == n)) [
          | inl z ↦
              let equal : linked m ≡ linked n = ap linked (ground (arith, z)) in
              absurd (omega (arith, l, h, equal))
          | inr z ↦ z
        ] in
        (omega (arith, more m, l), update_other fd n m none other ∙ at);
    tabled = λ m f l e. elim (Bool-cases (m == n)) [
      | inl z ↦ absurd (none-some f (sym (update_here fd n m none z) ∙ e))
      | inr z ↦ t.tabled m f (ground (arith, more m, l, z)) (sym (update_other fd n m none z) ∙ e)
    ];
  }

  pub IsTable-ext : ((m : ℕ) → linked' m ≡ linked m) → IsTable linked' fd nodes
  IsTable-ext same = record {
    held = λ f m e. let (l, at) = t.held f m e in (omega (arith, same m, l), at);
    tabled = λ m f l e. t.tabled m f (omega (arith, same m, l)) e;
  }

pub IsTable-ext_nodes :
    (linked : ℕ → ℕ) (fd : ℕ → Option ℕ) (nodes nodes' : ℕ → Slot)
    → IsTable linked fd nodes
    → ((f : ℕ) → nodes' f ≡ nodes f)
    → IsTable linked fd nodes'
IsTable-ext_nodes linked fd nodes nodes' t same = record {
  held = λ f m e. t.held f m (sym (same f) ∙ e);
  tabled = λ m f l e. same f ∙ t.tabled m f l e;
}

pub update_twice :
    {A : Type 0} (t : ℕ → A) (g : ℕ) (a b : A) (f : ℕ)
    → update t g b f ≡ update (update t g a) g b f
update_twice t g a b f = elim (Bool-cases (f == g)) [ inl e ↦ rw e refl | inr e ↦ rw e refl ]

-- A list of nodes leaves the table.
pub IsTable-clear_all :
    (gone : List ℕ) (linked linked' : ℕ → ℕ) (fd : ℕ → Option ℕ) (nodes : ℕ → Slot)
    → IsTable linked fd nodes
    → ((m : ℕ) → linked m ≤ 1)
    → ((m : ℕ) → linked' m + count m gone ≡ linked m)
    → IsTable linked' fd (clear_all empty fd gone nodes)
IsTable-clear_all [] linked linked' fd nodes t once less =
    IsTable-ext linked linked' fd nodes t (λ m. omega (arith, less m))
IsTable-clear_all (n ∷ ns) linked linked' fd nodes t once less =
    let here : (n == n) ≡ true = ground arith in
    let without = λ (m : ℕ). if m == n then 0 else linked m in
    IsTable-clear_all ns without linked' fd (with_entry empty (fd n) nodes)
      (IsTable-remove linked without fd nodes t n (ground (arith, less n)) (λ m. refl))
      (λ m. ground (arith, once m)) (λ m. ground (arith, once m, less m))
