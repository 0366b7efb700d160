-- ===== src/Interpreter/Frames/Words.antt =====
-- The words of the stack under a call frame and under copied results, one by one: src/interpreter.rs.
use spacewasm.Prelude.{
  ℕ, ◌+◌, ◌-◌, ◌≤◌, ◌<◌, ◌≡◌, ◌≢◌, ◌⊎◌, inl, inr, sym, ◌∙◌, ap, true, false, Bool-cases, List,
  get_or, set, length, length-set, ltb, ◌==◌, ==_iff, if◌then◌else◌, arith,
}
use spacewasm.Engine.View.{get_or-set_same, get_or-set_other}
use spacewasm.Interpreter.Frames.{cleared, cleared_other, cleared_zero}
use spacewasm.Interpreter.Unwind.{copied, copied_other, copied_lem}

split : (a b : ℕ) → (a < b) ⊎ (b ≤ a)
split a b = ground arith

cleared_word :
    (ws : List ℕ) (n a k : ℕ)
    → a + n ≤ length ws
    → get_or (cleared ws n a) k 0
      ≡ (if ltb k a then get_or ws k 0 else (if ltb k (a + n) then 0 else get_or ws k 0))
cleared_word ws n a k fits = elim (split k a) [
  | inl l ↦ let t : ltb k a ≡ true = ground arith in rw t (cleared_other ws n a k (inl l))
  | inr g ↦ elim (split k (a + n)) [
    | inl l ↦
        let t : ltb k a ≡ false = ground arith in
        let u : ltb k (a + n) ≡ true = ground arith in
        let z : k ≡ a + (k - a) = omega (arith, g) in
        rw (t, u)
          (ap (λ x. get_or (cleared ws n a) x 0) z
            ∙ cleared_zero ws n a (k - a) (omega (arith, g, l)) fits)
    | inr m ↦
        let t : ltb k a ≡ false = ground arith in
        let u : ltb k (a + n) ≡ false = ground arith in rw (t, u) (cleared_other ws n a k (inr m))
  ]
]

set_two :
    (ws : List ℕ) (a x y k : ℕ)
    → a + 2 ≤ length ws
    → get_or (set (set ws a x) (a + 1) y) k 0
      ≡ (if k == a then x else (if k == a + 1 then y else get_or ws k 0))
set_two ws a x y k fits = elim (Bool-cases (k == a)) [
  | inl t ↦
      let p : k ≡ a = (==_iff k a).0 t in
      rw (t, p)
        (get_or-set_other (set ws a x) (a + 1) a y (λ q. absurd (omega (arith, q)))
          ∙ get_or-set_same ws a x (omega (arith, fits)))
  | inr n ↦ elim (Bool-cases (k == a + 1)) [
    | inl t ↦
        let p : k ≡ a + 1 = (==_iff k (a + 1)).0 t in
        rw (n, t)
          (ap (λ z. get_or (set (set ws a x) (a + 1) y) z 0) p
            ∙ get_or-set_same (set ws a x) (a + 1) y (omega (arith, fits, length-set ws a x)))
    | inr m ↦
        let p : k ≢ a = λ q. ground arith in
        let o : k ≢ a + 1 = λ q. ground arith in
        rw (n, m)
          (get_or-set_other (set ws a x) (a + 1) k y (λ q. o (sym q))
            ∙ get_or-set_other ws a k x (λ q. p (sym q)))
  ]
]

pub framed_word :
    (ws : List ℕ) (sp bits pc n k : ℕ)
    → sp + 2 + n ≤ length ws
    → get_or (cleared (set (set ws sp bits) (sp + 1) pc) n (sp + 2)) k 0 ≡ (
        if ltb k sp
        then get_or ws k 0
        else (if k == sp
            then bits
            else (if k == sp + 1 then pc else (if ltb k (sp + 2 + n) then 0 else get_or ws k 0))))
framed_word ws sp bits pc n k fits =
    cleared_word (set (set ws sp bits) (sp + 1) pc) n (sp + 2) k
      (omega (arith, fits, length-set (set ws sp bits) (sp + 1) pc, length-set ws sp bits))
    ∙ ap (λ w. if ltb k (sp + 2) then w else (if ltb k (sp + 2 + n) then 0 else w))
        (set_two ws sp bits pc k (omega (arith, fits)))
    ∙ ordered
  where
    ordered :
        (if ltb k (sp + 2)
          then (if k == sp then bits else (if k == sp + 1 then pc else get_or ws k 0))
          else (if ltb k (sp + 2 + n)
              then 0
              else (if k == sp then bits else (if k == sp + 1 then pc else get_or ws k 0))))
        ≡ (if ltb k sp
            then get_or ws k 0
            else (if k == sp
                then bits
                else (if k == sp + 1
                    then pc
                    else (if ltb k (sp + 2 + n) then 0 else get_or ws k 0))))
    ordered = ground arith

-- Copied words are the old ones of the range that they come from.
pub copied_word :
    (ws : List ℕ) (n from to k : ℕ)
    → to ≤ from
    → to + n ≤ length ws
    → get_or (copied ws n from to) k 0 ≡ (
        if ltb k to
        then get_or ws k 0
        else (if ltb k (to + n) then get_or ws (from + (k - to)) 0 else get_or ws k 0))
copied_word ws n from to k le fits = elim (split k to) [
  | inl l ↦ let t : ltb k to ≡ true = ground arith in rw t (copied_other ws n from to k (inl l))
  | inr g ↦ elim (split k (to + n)) [
    | inl l ↦
        let t : ltb k to ≡ false = ground arith in
        let u : ltb k (to + n) ≡ true = ground arith in
        let z : k ≡ to + (k - to) = omega (arith, g) in
        rw (t, u)
          (ap (λ x. get_or (copied ws n from to) x 0) z
            ∙ copied_lem ws n from to (k - to) (omega (arith, g, l)) le fits)
    | inr m ↦
        let t : ltb k to ≡ false = ground arith in
        let u : ltb k (to + n) ≡ false = ground arith in
        rw (t, u) (copied_other ws n from to k (inr m))
  ]
]
