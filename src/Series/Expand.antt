-- ===== src/Series/Expand.antt =====
-- What SeriesWork::expand_queue copies.
use demo_submodule.Prelude.{
  ℕ, zero, suc, ◌-◌, ◌*◌, ◌<◌, ◌≡◌, refl, ap, ◌∙◌, List, [], ◌∷◌, ◌++◌, arith, append_assoc, length,
  get_or, take, replicate, length-append, length-replicate,
}
use demo_submodule.Series.{SeriesWork, next, copy_loop, expand_queue}
use demo_submodule.Series.Window.{window, distance, length-window, window-take}

copy_loop_lem :
    (q : List ℕ) (size back fuel j k : ℕ) (out : List ℕ)
    → j < size
    → back < size
    → distance size (next size j) back ≡ k
    → k < fuel
    → copy_loop fuel q size back j out ≡ out ++ window q size j (suc k)
unfolding copy_loop window
copy_loop_lem q size back zero j k out hj hb e h = elim h [ ]
copy_loop_lem q size back (suc fuel) j zero out hj hb e h = ground arith
copy_loop_lem q size back (suc fuel) j (suc k) out hj hb e h = ground (
  arith,
  copy_loop_lem q size back fuel (next size j) k (out ++ get_or q j 0 ∷ []),
  append_assoc out (get_or q j 0 ∷ []) (window q size (next size j) (suc k)),
)

take-append : (xs ys : List ℕ) → take (length xs) (xs ++ ys) ≡ xs
take-append [] ys = refl
take-append (x ∷ xs) ys = ap (◌∷◌ x) (take-append xs ys)

-- A full ring: the whole array, from `front` round to `front`.
abbrev pub ring : SeriesWork → List ℕ
ring s = window s.queue s.queue_size s.front s.queue_size

module _ (s : SeriesWork) (front : s.front < s.queue_size) (full : s.front ≡ s.back) where
  copied : copy_loop s.queue_size s.queue s.queue_size s.back s.front [] ≡ ring s
  copied =
      copy_loop_lem s.queue s.queue_size s.back s.queue_size s.front (s.queue_size - 1) [] front
        (ground arith) (ground arith) (omega arith)
      ∙ ap (window s.queue s.queue_size s.front)
          (let e : suc (s.queue_size - 1) ≡ s.queue_size = omega arith in e)

  length-copied :
      length (copy_loop s.queue_size s.queue s.queue_size s.back s.front []) ≡ s.queue_size
  length-copied = ap length copied ∙ length-window s.queue s.queue_size s.front s.queue_size

  pub ring-expand_queue :
      let e = expand_queue s in
      window e.queue e.queue_size e.front (distance e.queue_size e.front e.back) ≡ ring s
  unfolding expand_queue
  ring-expand_queue =
      let c = copy_loop s.queue_size s.queue s.queue_size s.back s.front [] in
      let r : List ℕ = replicate (2 * s.queue_size - length c) 0 in
      let d : distance (2 * s.queue_size) 0 (length c) ≡ length c = ground arith in
      ap (window (c ++ r) (2 * s.queue_size) 0) d
      ∙ (window-take (c ++ r) (2 * s.queue_size) 0 (length c) (omega (arith, length-append c r))
            (omega (arith, length-copied))
          ∙ take-append c r
          ∙ copied)

  pub length-expand_queue : length (expand_queue s).queue ≡ (expand_queue s).queue_size
  unfolding expand_queue
  length-expand_queue =
      let c = copy_loop s.queue_size s.queue s.queue_size s.back s.front [] in
      omega (
        arith,
        length-copied,
        length-append c (replicate (2 * s.queue_size - length c) 0),
        length-replicate {A = ℕ} (2 * s.queue_size - length c) 0,
      )

  -- The larger ring is half full, from its start.
  pub expand_queue_lem :
      ((expand_queue s).queue_size ≡ 2 * s.queue_size)
      × ((expand_queue s).front ≡ 0)
      × ((expand_queue s).back ≡ s.queue_size)
  unfolding expand_queue
  expand_queue_lem = (refl, refl, length-copied)
