-- ===== src/CircularBuffer/Deque.antt =====
-- The buffer as a client sees it: a deque of at most N elements that forgets its oldest element.
use spacewasm.Prelude.{
  ℕ, zero, suc, ◌+◌, ◌-◌, ◌%◌, ◌≡◌, refl, ap, ap₂, sym, ◌∙◌, arith, Option, none, some, List, [],
  ◌∷◌, ◌++◌, length, get_elem?, drop, length-set,
}
use spacewasm.CircularBuffer.{
  CircularBuffer, capacity, push, pop_front, pop_back, get, clear, clear_loop,
}
use spacewasm.CircularBuffer.Refine.{Holds, push-append, push-overwrite}
use spacewasm.CircularBuffer.Ends.{
  pop_front-cons, pop_front-nil, pop_back-snoc, pop_back-nil, clear-Holds, get-eq-get_elem?,
}
use native.Mathlib.Decide.{dec_lt}

-- What a client asks for, and the specification of it on a list of at most `cap` elements.
pub data Op {ℓ} (A : Type ℓ) : Type ℓ where
  push_op : A → Op A
  pop_front_op pop_back_op clear_op : Op A
  get_op : ℕ → Op A

module _ {ℓ} {A : Type ℓ} where
  pub split_first : List A → Option A × List A
  split_first [] = (none, [])
  split_first (x ∷ xs) = (some x, xs)

  pub split_last : List A → Option A × List A
  split_last [] = (none, [])
  split_last (x ∷ []) = (some x, [])
  split_last (x ∷ y ∷ ys) = let (last, others) = split_last (y ∷ ys) in (last, x ∷ others)

  pub spec_step : ℕ → List A → Op A → Option A × List A
  spec_step cap xs (push_op x) = (none, drop (length xs + 1 - cap) (xs ++ (x ∷ [])))
  spec_step cap xs pop_front_op = split_first xs
  spec_step cap xs pop_back_op = split_last xs
  spec_step cap xs clear_op = (none, [])
  spec_step cap xs (get_op k) = (get_elem? xs k, xs)

  pub spec_run : ℕ → List A → List (Op A) → List (Option A)
  spec_run cap xs [] = []
  spec_run cap xs (op ∷ ops) =
      let (reply, xs') = spec_step cap xs op in reply ∷ spec_run cap xs' ops

  pub step : CircularBuffer A → Op A → Option A × CircularBuffer A
  step b (push_op x) = (none, push b x)
  step b pop_front_op = pop_front b
  step b pop_back_op = pop_back b
  step b clear_op = (none, (clear b).1)
  step b (get_op k) = (get b k, b)

  pub run : CircularBuffer A → List (Op A) → List (Option A)
  run b [] = []
  run b (op ∷ ops) = let (reply, b') = step b op in reply ∷ run b' ops

module _ {ℓ} {A : Type ℓ} where
  pub capacity-push : (b : CircularBuffer A) (x : A) → capacity (push b x) ≡ capacity b
  unfolding push
  capacity-push b x = ground (
    arith,
    length-set b.items ((b.start + b.size) % capacity b) (some x),
    length-set b.items b.start (some x),
  )

  -- `push` keeps the newest N of the elements: all of them while there is room.
  pub push-Holds :
      (b : CircularBuffer A) (xs : List A) (x : A)
      → Holds b xs
      → Holds (push b x) (drop (length xs + 1 - capacity b) (xs ++ (x ∷ [])))
  push-Holds b xs x h = elim (dec_lt b.size (capacity b)) [
    | yes p ↦
        let room : length xs + 1 - capacity b ≡ 0 = omega (arith, h.sized) in
        rw room (push-append b xs x h p)
    | no p ↦ full xs h (omega (arith, h.fits))
  ]
    where
      full :
          (ys : List A)
          → Holds b ys
          → b.size ≡ capacity b
          → Holds (push b x) (drop (length ys + 1 - capacity b) (ys ++ (x ∷ [])))
      full [] h e = absurd (omega (arith, h.sized, h.starts))
      full (y ∷ ys) h e =
          let one : suc (length ys) + 1 - capacity b ≡ 1 = omega (arith, h.sized) in
          rw one (push-overwrite b y ys x h e)

  pub capacity-pop_front : (b : CircularBuffer A) → capacity (pop_front b).1 ≡ capacity b
  unfolding pop_front
  capacity-pop_front b = ground arith

  capacity-pop_back : (b : CircularBuffer A) → capacity (pop_back b).1 ≡ capacity b
  unfolding pop_back
  capacity-pop_back b = ground arith

  capacity-clear_loop :
      (fuel : ℕ) (b : CircularBuffer A) → capacity (clear_loop fuel b).1 ≡ capacity b
  unfolding clear_loop
  capacity-clear_loop zero b = refl
  capacity-clear_loop (suc fuel) b =
      ground (arith, capacity-clear_loop fuel (pop_front b).1, capacity-pop_front b)

  split_last-join :
      (x : A) (xs : List A)
      → (y : A) × ((split_last (x ∷ xs)).0 ≡ some y)
        × (x ∷ xs ≡ (split_last (x ∷ xs)).1 ++ (y ∷ []))
  unfolding split_last
  split_last-join x [] = (x, refl, refl)
  split_last-join x (y ∷ ys) =
      let (last, found, joined) = split_last-join y ys in (last, found, ap (λ r. x ∷ r) joined)

  pop_front-Holds :
      (b : CircularBuffer A) (xs : List A)
      → Holds b xs
      → ((pop_front b).0 ≡ (split_first xs).0) × Holds (pop_front b).1 (split_first xs).1
  unfolding split_first
  pop_front-Holds b [] h = rw (pop_front-nil b h) (refl, h)
  pop_front-Holds b (x ∷ xs) h = pop_front-cons b x xs h

  pop_back-Holds :
      (b : CircularBuffer A) (xs : List A)
      → Holds b xs
      → ((pop_back b).0 ≡ (split_last xs).0) × Holds (pop_back b).1 (split_last xs).1
  pop_back-Holds b [] h = unfold split_last in rw (pop_back-nil b h) (refl, h)
  pop_back-Holds b (x ∷ xs) h =
      let (last, found, joined) = split_last-join x xs in
      let (taken, rest) = pop_back-snoc b (split_last (x ∷ xs)).1 last (rw joined at h) in
      (taken ∙ sym found, rest)

  -- One step: the same reply as the list gives, and the buffer goes on holding the list.
  step-Holds :
      (b : CircularBuffer A) (xs : List A) (op : Op A)
      → Holds b xs
      → ((step b op).0 ≡ (spec_step (capacity b) xs op).0)
        × Holds (step b op).1 (spec_step (capacity b) xs op).1
        × (capacity (step b op).1 ≡ capacity b)
  unfolding step spec_step
  step-Holds b xs (push_op x) h = (refl, push-Holds b xs x h, capacity-push b x)
  step-Holds b xs pop_front_op h =
      let (reply, holds) = pop_front-Holds b xs h in (reply, holds, capacity-pop_front b)
  step-Holds b xs pop_back_op h =
      let (reply, holds) = pop_back-Holds b xs h in (reply, holds, capacity-pop_back b)
  step-Holds b xs clear_op h =
      (refl, (clear-Holds b xs h).1, unfold clear in capacity-clear_loop (b.size + 1) b)
  step-Holds b xs (get_op k) h = (get-eq-get_elem? b xs k h, h, refl)

  -- No sequence of calls tells the ring from the bounded list: a buffer that holds `xs` answers
  -- every sequence of `push`, `pop_front`, `pop_back`, `get` and `clear` as the list does, where a
  -- `push` beyond N elements forgets the oldest.
  pub run_refines :
      (ops : List (Op A)) (b : CircularBuffer A) (xs : List A)
      → Holds b xs
      → run b ops ≡ spec_run (capacity b) xs ops
  unfolding run spec_run
  run_refines [] b xs h = refl
  run_refines (op ∷ ops) b xs h =
      let (reply, holds, cap) = step-Holds b xs op h in
      ap₂ ◌∷◌ reply (
        run_refines ops (step b op).1 (spec_step (capacity b) xs op).1 holds
        ∙ ap (λ c. spec_run c (spec_step (capacity b) xs op).1 ops) cap)
