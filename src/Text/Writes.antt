-- ===== src/Text/Writes.antt =====
-- `CodeBuilder::write` and `write_32` of src/text.rs at addresses that hold words.
use spacewasm.Prelude.{
  ℕ, zero, suc, ◌+◌, ◌*◌, ◌/◌, ◌%◌, ◌^◌, ◌<◌, ◌≡◌, ◌≢◌, ◌⊎◌, inl, inr, refl, sym, ◌∙◌, ap, false,
  Option, none, some, Option-cases, List, [], ◌∷◌, get_elem?, get_elem?-set_self, get_elem?-set_ne,
  set, length, ltb, bit_and, bit_or, as_u16, shl, shr, Bool-cases, ◌==◌, ==_iff, arith,
}
use spacewasm.Prelude.Bits.{bit_and_mask, bit_or_high}
use spacewasm.Errors.{ok}
use spacewasm.Text.{
  CodeBuilder, JumpTarget, page, offset, add_words, set_word, write, write_32, read, read_32,
}
use spacewasm.Text.Pages.{word_in, word_of}

-- The page and the word of an address, as numbers.
low_8 : (x : ℕ) → bit_and x 0xFF ≡ x % 256
low_8 x = bit_and_mask 8 x

read-word_of :
    (c : CodeBuilder) (a : JumpTarget) (x : ℕ)
    → word_of c.pages a.address ≡ some x
    → read c a ≡ ok x
unfolding read page offset
read-word_of c a x h = elim (Option-cases (get_elem? c.pages (a.address / 256))) [
  | inl e ↦ absurd (nothing (ap (λ p. word_in p (a.address % 256)) (sym e) ∙ h))
  | inr (ws, e) ↦
      let w : get_elem? ws (a.address % 256) ≡ some x =
        ap (λ p. word_in p (a.address % 256)) (sym e) ∙ h in
      let small : ltb 255 (a.address % 256) ≡ false = below (a.address % 256) (omega arith) in
      rw (e, low_8 a.address, small, w, read) refl
]
  where
    nothing : (◌≡◌ {A = Option ℕ} none (some x)) → ⊥
    nothing p = cc

    below : (n : ℕ) → n < 256 → ltb 255 n ≡ false
    below n l = ground arith

-- The pages with another word at an address.
record Written (c : CodeBuilder) (n v : ℕ) (c' : CodeBuilder) : Type 0 where
  pub here : word_of c'.pages n ≡ some v
  pub elsewhere : (k : ℕ) → k ≢ n → word_of c'.pages k ≡ word_of c.pages k
  pub options_kept : c'.options ≡ c.options

some_below : {A : Type 0} (ws : List A) (i : ℕ) (x : A) → get_elem? ws i ≡ some x → i < length ws
some_below [] i x h = absurd (cc)
some_below (w ∷ ws) zero x h = omega arith
some_below (w ∷ ws) (suc i) x h = omega (arith, some_below ws i x h)

-- Another word in one page.
set-word_of :
    (pages : List (List ℕ)) (ws : List ℕ) (p o v k : ℕ)
    → get_elem? pages p ≡ some ws
    → p ≢ k / 256 ⊎ o ≢ k % 256
    → word_of (set pages p (set ws o v)) k ≡ word_of pages k
set-word_of pages ws p o v k e (inl ne) =
    ap (λ q. word_in q (k % 256)) (get_elem?-set_ne pages (set ws o v) ne)
set-word_of pages ws p o v k e (inr ne) = elim (Bool-cases (p == k / 256)) [
  | inr t ↦
      ap (λ q. word_in q (k % 256))
        (get_elem?-set_ne pages {i = p} {j = k / 256} (set ws o v) (λ x. ground arith))
  | inl t ↦
      let same : p ≡ k / 256 = (==_iff p (k / 256)).0 t in
      ap (λ q. word_in q (k % 256))
        (ap (get_elem? (set pages p (set ws o v))) (sym same)
          ∙ get_elem?-set_self pages p (set ws o v) (some_below pages p ws e))
      ∙ get_elem?-set_ne ws v ne
      ∙ ap (λ q. word_in q (k % 256)) (sym e ∙ ap (get_elem? pages) same)
]

apart_parts : (n k : ℕ) → k ≢ n → (n / 256 ≢ k / 256) ⊎ (n % 256 ≢ k % 256)
apart_parts n k h = elim (Bool-cases (n / 256 == k / 256)) [
  | inr t ↦ inl (λ x. ground arith)
  | inl t ↦
      let same : n / 256 ≡ k / 256 = (==_iff (n / 256) (k / 256)).0 t in
      inr (λ x. h (omega (arith, same, x)))
]

set_word-found :
    (pages : List (List ℕ)) (ws : List ℕ) (p o v : ℕ)
    → get_elem? pages p ≡ some ws
    → set_word pages p o v ≡ set pages p (set ws o v)
set_word-found pages ws p o v e = rw (e, set_word) refl

-- The write to an address that holds a word.
write-Written :
    (c : CodeBuilder) (a : JumpTarget) (x v : ℕ)
    → word_of c.pages a.address ≡ some x
    → (c' : CodeBuilder) × ((write c a v ≡ ok c') × Written c a.address v c')
unfolding write page offset
write-Written c a x v h = elim (Option-cases (get_elem? c.pages (a.address / 256))) [
  | inl e ↦ absurd (nothing (ap (λ p. word_in p (a.address % 256)) (sym e) ∙ h))
  | inr (ws, e) ↦
      let w : get_elem? ws (a.address % 256) ≡ some x =
        ap (λ p. word_in p (a.address % 256)) (sym e) ∙ h in
      let small : ltb 255 (a.address % 256) ≡ false = below (a.address % 256) (omega arith) in
      (
        record c { pages = set c.pages (a.address / 256) (set ws (a.address % 256) v) },
        (
          rw
              (
                e,
                low_8 a.address,
                small,
                write,
                set_word-found c.pages ws (page a) (a.address % 256) v e,
              )
              refl,
          record {
            here =
                ap (λ p. word_in p (a.address % 256))
                  (get_elem?-set_self c.pages (a.address / 256) (set ws (a.address % 256) v)
                    (some_below c.pages (a.address / 256) ws e))
                ∙ get_elem?-set_self ws (a.address % 256) v (some_below ws (a.address % 256) x w);
            elsewhere = λ k ne.
                set-word_of c.pages ws (a.address / 256) (a.address % 256) v k e
                  (apart_parts a.address k ne);
            options_kept = refl;
          },
        ),
      )
]
  where
    nothing : (◌≡◌ {A = Option ℕ} none (some x)) → ⊥
    nothing p = cc

    below : (n : ℕ) → n < 256 → ltb 255 n ≡ false
    below n l = ground arith

-- A label, two words of 16 bits, at an address.
abbrev pub Label : CodeBuilder → ℕ → ℕ → Type 0
Label c n w = (word_of c.pages n ≡ some (as_u16 w)) × (word_of c.pages (n + 1) ≡ some (w / 2 ^ 16))

-- What `write_32` leaves: the label at its address, and all words but its two.
pub record Relabelled (c : CodeBuilder) (n v : ℕ) (c' : CodeBuilder) : Type 0 where
  pub label : Label c' n v
  pub elsewhere : (k : ℕ) → k ≢ n → k ≢ n + 1 → word_of c'.pages k ≡ word_of c.pages k
  pub options_kept : c'.options ≡ c.options

next_address : (a : JumpTarget) → a.address + 1 < 2 ^ 32 → (add_words a 1).address ≡ a.address + 1
unfolding add_words
next_address a h = omega (arith, h)

pub write_32-Relabelled :
    (c : CodeBuilder) (a : JumpTarget) (w v : ℕ)
    → Label c a.address w
    → v < 2 ^ 32
    → a.address + 1 < 2 ^ 32
    → (c' : CodeBuilder) × ((write_32 c a v ≡ ok c') × Relabelled c a.address v c')
unfolding write_32
write_32-Relabelled c a w v l small room =
    let next : (add_words a 1).address ≡ a.address + 1 = next_address a room in
    let (c1, (e1, r1)) = write-Written c a (as_u16 w) (as_u16 v) l.0 in
    let second : word_of c1.pages (add_words a 1).address ≡ some (w / 2 ^ 16) =
      ap (word_of c1.pages) next
      ∙ r1.elsewhere (a.address + 1) (λ x. absurd (omega (arith, x)))
      ∙ l.1 in
    let (c2, (e2, r2)) = write-Written c1 (add_words a 1) (w / 2 ^ 16) (as_u16 (shr v 16)) second in
    let high : as_u16 (shr v 16) ≡ v / 2 ^ 16 = omega (arith, small) in
    (
      c2,
      (
        rw e1 e2,
        record {
          label = (
            r2.elsewhere a.address (λ x. absurd (omega (arith, x, next))) ∙ r1.here,
            ap (word_of c2.pages) (sym next) ∙ r2.here ∙ ap (λ h. some h) high,
          );
          elsewhere = λ k ne ne'. r2.elsewhere k (λ x. ne' (x ∙ next)) ∙ r1.elsewhere k ne;
          options_kept = r2.options_kept ∙ r1.options_kept;
        },
      ),
    )

pub read_32-Label :
    (c : CodeBuilder) (a : JumpTarget) (w : ℕ)
    → Label c a.address w
    → w < 2 ^ 32
    → a.address + 1 < 2 ^ 32
    → read_32 c a ≡ ok w
unfolding read_32
read_32-Label c a w l small room =
    let next : (add_words a 1).address ≡ a.address + 1 = next_address a room in
    let high : shl 32 (w / 2 ^ 16) 16 ≡ w / 2 ^ 16 * 2 ^ 16 = omega (arith, small) in
    let value : bit_or (as_u16 w) (shl 32 (w / 2 ^ 16) 16) ≡ w =
      ap (bit_or (as_u16 w)) high
      ∙ bit_or_high 16 (as_u16 w) (w / 2 ^ 16) (omega arith)
      ∙ omega arith in
    rw
      (
        read-word_of c a (as_u16 w) l.0,
        read-word_of c (add_words a 1) (w / 2 ^ 16) (ap (word_of c.pages) next ∙ l.1),
        value,
      )
      refl
