-- ===== src/CircularBuffer/Ends.antt =====
-- Taking from the ring: `pop_front`, `pop_back`, `get`, `front`, `back` and `clear` on the list held.
use spacewasm.Prelude.{
  ℕ, zero, suc, ◌+◌, ◌-◌, ◌≤◌, ◌<◌, ◌≡◌, refl, ap, ◌∙◌, arith, true, none, some, List, [], ◌∷◌,
  ◌++◌, length, get_elem?, length-append, ◌==◌,
}
use spacewasm.CircularBuffer.{
  CircularBuffer, slot, capacity, is_empty, pop_front, pop_back, front, back, get, clear_loop,
  clear,
}
use native.Mathlib.Decide.{dec_lt}
use spacewasm.CircularBuffer.Refine.{
  wrapped-lt, get_elem?-snoc_lt, wrapped-zero, get_elem?-snoc_last, get_elem?-past, wrapped,
  mod-eq-wrapped, Holds, wrapped-suc,
}

module _ {ℓ} {A : Type ℓ} where
  pop_front-step :
      (b : CircularBuffer A)
      → b.start < capacity b
      → 0 < b.size
      → pop_front b ≡ (
        slot b.items b.start,
        record b { start = wrapped (b.start + 1) (capacity b); size = b.size - 1 },
      )
  unfolding pop_front
  pop_front-step b hs h = ground (arith, mod-eq-wrapped (b.start + 1) (capacity b))

  wrapped_path :
      (b : CircularBuffer A) (k : ℕ) {ys : List A}
      → Holds b ys
      → suc k < b.size
      → slot b.items (wrapped (wrapped (b.start + 1) (capacity b) + k) (capacity b))
        ≡ slot b.items (wrapped (b.start + suc k) (capacity b))
  wrapped_path b k h hk =
      ap (slot b.items) (wrapped-suc b.start k (capacity b) h.starts (omega (arith, h.fits)))

  -- `pop_front` returns the oldest element and leaves the rest.
  pub pop_front-cons :
      (b : CircularBuffer A) (x : A) (xs : List A)
      → Holds b (x ∷ xs)
      → ((pop_front b).0 ≡ some x) × Holds (pop_front b).1 xs
  pop_front-cons b x xs h = rw (pop_front-step b h.starts (omega (arith, h.sized))) (
    rw (wrapped-zero b.start (capacity b) h.starts) at (h.cells 0 (omega (arith, h.sized))),
    record {
      sized = omega (arith, h.sized);
      starts = wrapped-lt b.start 1 (capacity b) h.starts (omega arith);
      fits = omega arith;
      cells = λ k hk. wrapped_path b k h (omega arith) ∙ h.cells (suc k) (omega arith);
    },
  )

  pub pop_front-nil : (b : CircularBuffer A) → Holds b [] → pop_front b ≡ (none, b)
  unfolding pop_front
  pop_front-nil b h = ground (arith, h.sized)

  pop_back-step :
      (b : CircularBuffer A)
      → b.start < capacity b
      → b.size ≤ capacity b
      → 0 < b.size
      → pop_back b ≡ (
        slot b.items (wrapped (b.start + (b.size - 1)) (capacity b)),
        record b { size = b.size - 1 },
      )
  unfolding pop_back
  pop_back-step b hs hf h = ground (arith, mod-eq-wrapped (b.start + (b.size - 1)) (capacity b))

  -- `pop_back` returns the newest element and leaves the others.
  pub pop_back-snoc :
      (b : CircularBuffer A) (xs : List A) (x : A)
      → Holds b (xs ++ (x ∷ []))
      → ((pop_back b).0 ≡ some x) × Holds (pop_back b).1 xs
  pop_back-snoc b xs x h =
      let n : b.size ≡ length xs + 1 = omega (arith, h.sized, length-append xs (x ∷ [])) in
      let last : b.size - 1 ≡ length xs = omega arith in
      rw (pop_back-step b h.starts h.fits (omega arith)) (
        h.cells (b.size - 1) (omega arith) ∙ rw last (get_elem?-snoc_last xs x),
        record {
          sized = last;
          starts = h.starts;
          fits = omega (arith, h.fits);
          cells = λ k hk. h.cells k (omega arith) ∙ get_elem?-snoc_lt xs x k (omega arith);
        },
      )

  pub pop_back-nil : (b : CircularBuffer A) → Holds b [] → pop_back b ≡ (none, b)
  unfolding pop_back
  pop_back-nil b h = ground (arith, h.sized)

  -- `get(index)` is the element at `index` from the front, and `None` past the end.
  pub get-eq-get_elem? :
      (b : CircularBuffer A) (xs : List A) (k : ℕ) → Holds b xs → get b k ≡ get_elem? xs k
  unfolding get
  get-eq-get_elem? b xs k h = elim (dec_lt k b.size) [
    | yes p ↦
        ground (arith, mod-eq-wrapped (b.start + k) (capacity b), h.cells k p, h.starts, h.fits)
    | no p ↦ ground (arith, get_elem?-past xs k (omega (arith, h.sized)))
  ]

  -- `front` shows the oldest element, and nothing of an empty buffer.
  pub front-eq-get_elem? :
      (b : CircularBuffer A) (xs : List A) → Holds b xs → front b ≡ get_elem? xs 0
  unfolding front
  front-eq-get_elem? b [] h = ground (arith, h.sized)
  front-eq-get_elem? b (x ∷ xs) h = ground (
    arith,
    h.sized,
    h.starts,
    h.cells 0 (omega (arith, h.sized)),
    wrapped-zero b.start (capacity b) h.starts,
  )

  pub back-nil : (b : CircularBuffer A) → Holds b [] → back b ≡ none
  unfolding back
  back-nil b h = ground (arith, h.sized)

  -- `back` shows the newest element.
  pub back-snoc :
      (b : CircularBuffer A) (xs : List A) (x : A) → Holds b (xs ++ (x ∷ [])) → back b ≡ some x
  unfolding back
  back-snoc b xs x h = ground (
    arith,
    h.sized,
    h.starts,
    h.fits,
    length-append xs (x ∷ []),
    h.cells (length xs),
    get_elem?-snoc_last xs x,
    mod-eq-wrapped (b.start + b.size - 1) (capacity b),
  )

  -- `clear` pops until nothing is left; its loop ends.
  clear_loop-Holds :
      (xs : List A) (fuel : ℕ) (b : CircularBuffer A)
      → Holds b xs
      → length xs < fuel
      → ((clear_loop fuel b).0 ≡ true) × Holds (clear_loop fuel b).1 []
  unfolding clear_loop
  clear_loop-Holds xs zero b h hf = absurd (omega arith)
  clear_loop-Holds [] (suc fuel) b h hf =
      rw (pop_front-nil b h, clear_loop) (refl, rw (pop_front-nil b h) h)
  clear_loop-Holds (x ∷ xs) (suc fuel) b h hf =
      let (taken, rest) = pop_front-cons b x xs h in
      rw (taken, clear_loop) (clear_loop-Holds xs fuel _ rest (omega arith))

  pub clear-Holds :
      (b : CircularBuffer A) (xs : List A)
      → Holds b xs
      → ((clear b).0 ≡ true) × Holds (clear b).1 []
  unfolding clear
  clear-Holds b xs h = clear_loop-Holds xs (b.size + 1) b h (omega (arith, h.sized))

  pub is_empty-Holds :
      (b : CircularBuffer A) (xs : List A) → Holds b xs → is_empty b ≡ (length xs == 0)
  unfolding is_empty
  is_empty-Holds b xs h = ground (arith, h.sized)
