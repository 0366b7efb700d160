-- ===== src/CircularBuffer.antt =====
-- src/util/circular_buffer.rs: a ring of N slots. N is the length of `items`, and a slot is `none`
-- while it is uninitialised. An index is below 2 * N, so no `usize` addition here can wrap.
pub mod Refine
pub mod Ends
pub mod Deque
use spacewasm.Prelude.{
  ℕ, zero, suc, ◌+◌, ◌-◌, ◌%◌, Bool, true, false, Option, none, some, List, length, get_elem?, set,
  replicate, ltb, leb, ◌==◌, if◌then◌else◌,
}

pub record CircularBuffer {ℓ} (A : Type ℓ) : Type ℓ where
  pub size : ℕ
  pub start : ℕ
  pub items : List (Option A)

module _ {ℓ} {A : Type ℓ} where
  -- What a read of slot `i` finds. `none`: nothing was written there, or there is no such slot.
  abbrev pub slot : List (Option A) → ℕ → Option A
  slot items i = elim (get_elem? items i) [ none ↦ none | some cell ↦ cell ]

  unfoldable pub new : ℕ → CircularBuffer A
  new n = record { size = 0; start = 0; items = replicate n none }

  unfoldable pub len : CircularBuffer A → ℕ
  len b = b.size

  abbrev pub capacity : CircularBuffer A → ℕ
  capacity b = length b.items

  unfoldable pub is_empty : CircularBuffer A → Bool
  is_empty b = b.size == 0

  pub is_full : CircularBuffer A → Bool
  is_full b = b.size == capacity b

  -- A full buffer loses its oldest element.
  unfoldable pub push : CircularBuffer A → A → CircularBuffer A
  push b value =
      if ltb b.size (capacity b)
      then record b {
        items = set b.items ((b.start + b.size) % capacity b) (some value);
        size = b.size + 1;
      }
      else record b { items = set b.items b.start (some value); start = (b.start + 1) % capacity b }

  unfoldable pub pop_front : CircularBuffer A → Option A × CircularBuffer A
  pop_front b = if b.size == 0 then (none, b) else (
    slot b.items b.start,
    record b { start = (b.start + 1) % capacity b; size = b.size - 1 },
  )

  pub pop_back : CircularBuffer A → Option A × CircularBuffer A
  pop_back b =
      if b.size == 0
      then (none, b)
      else (slot b.items ((b.start + (b.size - 1)) % capacity b), record b { size = b.size - 1 })

  unfoldable pub front : CircularBuffer A → Option A
  front b = if b.size == 0 then none else slot b.items b.start

  pub back : CircularBuffer A → Option A
  back b = if b.size == 0 then none else slot b.items ((b.start + b.size - 1) % capacity b)

  pub get : CircularBuffer A → ℕ → Option A
  get b index = if leb b.size index then none else slot b.items ((b.start + index) % capacity b)

  -- The buffer after `value` is written through the reference that `get_mut(index)` returns.
  pub set_at : CircularBuffer A → ℕ → A → CircularBuffer A
  set_at b index value =
      if leb b.size index
      then b
      else record b { items = set b.items ((b.start + index) % capacity b) (some value) }

  -- `while self.pop_front().is_some() {}`, on fuel. The Boolean says whether the loop has ended.
  clear_loop : ℕ → CircularBuffer A → Bool × CircularBuffer A
  clear_loop zero b = (false, b)
  clear_loop (suc fuel) b =
      let (popped, b') = pop_front b in
      elim popped [ none ↦ (true, b') | some _ ↦ clear_loop fuel b' ]

  -- A round takes one element, and one more round sees that there is none.
  pub clear : CircularBuffer A → Bool × CircularBuffer A
  clear b = clear_loop (b.size + 1) b

-- The iterator of `iter`: the elements from the front on.
pub record Iter {ℓ} (A : Type ℓ) : Type ℓ where
  pub buffer : CircularBuffer A
  pub index : ℕ

module _ {ℓ} {A : Type ℓ} where
  pub iter : CircularBuffer A → Iter A
  iter b = record { buffer = b; index = 0 }

  pub next : Iter A → Option A × Iter A
  next it =
      if ltb it.index it.buffer.size
      then (get it.buffer it.index, record it { index = it.index + 1 })
      else (none, it)
