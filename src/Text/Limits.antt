-- ===== src/Text/Limits.antt =====
-- With a limit on its iterations, `CodeBuilder::backpatch` of src/text.rs ends on any code, also where the labels
-- form a cycle.
use spacewasm.Prelude.{
  ℕ, zero, suc, ◌+◌, ◌^◌, ◌≤◌, ◌<◌, ◌≡◌, refl, subst, ◌∙◌, ap, inl, inr, Bool-cases, some,
  Option-cases, get_elem?, ltb, ◌==◌, as_u16, as_u32, shr, arith,
}
use spacewasm.Errors.{ValidationError, Result, ok, err, Result-cases, ◌>>=◌}
use spacewasm.Text.{
  CodeBuilder, JumpTarget, LabelTarget, Patch, new_offset, add_offset, add_words, with_jump, jump,
  is_sentinel, backpatch_loop, backpatch, read_32, write, write_32, page, offset,
}
use spacewasm.Text.Patches.{patch_to}

-- An outcome that keeps the options of the code.
abbrev SameOptions : CodeBuilder → Result ValidationError CodeBuilder → Type 0
SameOptions c (err e) = Unit
SameOptions c (ok c') = c'.options ≡ c.options

abbrev pub KeepsOptions {ℓ} :
    {S : Type ℓ} → CodeBuilder → Result ValidationError (CodeBuilder × S) → Type 0
KeepsOptions c (err e) = Unit
KeepsOptions c (ok (c', s)) = c'.options ≡ c.options

write-SameOptions : (c : CodeBuilder) (a : JumpTarget) (v : ℕ) → SameOptions c (write c a v)
unfolding write
write-SameOptions c a v = elim (Option-cases (get_elem? c.pages (page a))) [
  | inl e ↦ rw (e, write) tt
  | inr (ws, e) ↦ elim (Bool-cases (ltb 255 (offset a))) [
    | inl t ↦ rw (e, t, write) tt
    | inr t ↦ rw (e, t, write) refl
  ]
]

then-SameOptions :
    (c : CodeBuilder) (r : Result ValidationError CodeBuilder)
    (f : CodeBuilder → Result ValidationError CodeBuilder)
    → SameOptions c r
    → ((d : CodeBuilder) → SameOptions d (f d))
    → SameOptions c (r >>= f)
then-SameOptions c (err e) f h k = tt
then-SameOptions c (ok d) f h k = joined c d (f d) h (k d)
  where
    joined :
        (c d : CodeBuilder) (r : Result ValidationError CodeBuilder)
        → d.options ≡ c.options
        → SameOptions d r
        → SameOptions c r
    joined c d (err e) h k = tt
    joined c d (ok d') h k = k ∙ h

write_32-SameOptions : (c : CodeBuilder) (a : JumpTarget) (v : ℕ) → SameOptions c (write_32 c a v)
unfolding write_32
write_32-SameOptions c a v =
    then-SameOptions c (write c a (as_u16 v)) (λ d. write d (add_words a 1) (as_u16 (shr v 16)))
      (write-SameOptions c a (as_u16 v))
      λ d. write-SameOptions d (add_words a 1) (as_u16 (shr v 16))

pub patch_to-KeepsOptions :
    (to : JumpTarget) (u : Unit {0}) (c : CodeBuilder) (a : JumpTarget) (l : LabelTarget)
    → KeepsOptions c (patch_to to u c a l)
unfolding patch_to
patch_to-KeepsOptions to u c a l = elim (Result-cases (new_offset a to)) [
  | inl (o, e) ↦ rw e (
      wrapped c (write_32 c a (with_jump l o).word) (write_32-SameOptions c a (with_jump l o).word))
  | inr (x, e) ↦ rw e tt
]
  where
    wrapped :
        (c : CodeBuilder) (r : Result ValidationError CodeBuilder)
        → SameOptions c r
        → KeepsOptions c (r >>= λ c'. ok (c', tt {0}))
    wrapped c (err e) h = tt
    wrapped c (ok d) h = h

-- A loop that is at its iteration `n`, with a limit of `most`, and with fuel for the rest of them.
loop_ends :
    {S : Type 0} (f : Patch S)
    → ((s : S) (c : CodeBuilder) (a : JumpTarget) (l : LabelTarget) → KeepsOptions c (f s c a l))
    → (fuel n most : ℕ) (s : S) (c : CodeBuilder) (a : JumpTarget)
    → c.options.max_backpatch_iterations ≡ some most
    → most + 1 < 2 ^ 32
    → n ≤ most
    → most < n + fuel
    → (r : Result ValidationError (CodeBuilder × S)) × (backpatch_loop f fuel s c a n ≡ some r)
unfolding backpatch_loop
loop_ends f k zero n most s c a e wide le h = absurd (omega (arith, le, h))
loop_ends f k (suc fuel) n most s c a e wide le h =
    let count : as_u32 (suc n) ≡ suc n = omega (arith, wide, le) in
    elim (Result-cases (read_32 c a)) [
      | inr (x, q) ↦ (err x, rw (q, backpatch_loop) refl)
      | inl (w, q) ↦ elim (Result-cases (f s c a (record { word = w }))) [
        | inr (x, p) ↦ (err x, rw (q, p, backpatch_loop) refl)
        | inl ((c', s'), p) ↦
            let kept : c'.options ≡ c.options =
              subst (KeepsOptions c) p (k s c a (record { word = w })) in
            let limit : c'.options.max_backpatch_iterations ≡ some most =
              ap (λ o. o.max_backpatch_iterations) kept ∙ e in
            elim (Bool-cases (is_sentinel (record { word = w }))) [
              | inl t ↦ (ok (c', s'), rw (q, p, t, backpatch_loop) refl)
              | inr t ↦ elim (Bool-cases (ltb most (as_u32 (suc n)))) [
                | inl u ↦ (
                  err ValidationError.possible_backpatch_cycle,
                  rw (q, p, t, limit, u, backpatch_loop) refl,
                )
                | inr u ↦
                    let within : as_u32 (suc n) ≤ most = ground arith in
                    let (r, g) =
                      loop_ends f k fuel (as_u32 (suc n)) most s' c'
                        (add_offset a (jump (record { word = w }))) limit wide within
                        (omega (arith, count, h)) in
                    (r, rw (q, p, t, limit, u, backpatch_loop) g)
              ]
            ]
      ]
    ]

-- With a limit on the iterations of less than 2 ^ 32 - 1, which the counter can pass, and fuel for one more, the patch of the jumps of a block returns, whatever
-- the code holds: with the code patched or with an error.
pub backpatch_ends :
    (fuel most : ℕ) (c : CodeBuilder) (start to : JumpTarget)
    → c.options.max_backpatch_iterations ≡ some most
    → most + 1 < 2 ^ 32
    → most < fuel
    → (r : Result ValidationError (CodeBuilder × Unit {0})) × (backpatch fuel tt c start
          (patch_to to)
        ≡ some r)
unfolding backpatch
backpatch_ends fuel most c start to e wide h = elim (Bool-cases (start.address == 0xFFFFFFFF)) [
  | inl t ↦ (ok (c, tt), rw t refl)
  | inr t ↦
      let (r, g) =
        loop_ends (patch_to to) (patch_to-KeepsOptions to) fuel 0 most tt c start e wide
          (omega arith) (omega (arith, h)) in
      (r, rw t g)
]
