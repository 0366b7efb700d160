-- ===== src/Text/Pages.antt =====
-- The paged code store of src/text.rs: what `push` leaves at each address.
use spacewasm.Prelude.{
  ℕ, zero, suc, ◌+◌, ◌-◌, ◌*◌, ◌/◌, ◌%◌, ◌≤◌, ◌<◌, ◌≡◌, ◌≢◌, ◌⊎◌, inl, inr, refl, sym, ◌∙◌, ap,
  subst, true, false, Bool-cases, ◌&&◌, ◌||◌, Option, none, some, List, [], ◌∷◌, ◌++◌, length,
  length-append, length-set, length-replicate, get_elem?, get_elem?-set_self, get_elem?-set_ne, set,
  replicate, ltb, ◌==◌, ==_iff, arith,
}
use spacewasm.Errors.{AllocError, Result, ok, err, ◌>>=◌}
use spacewasm.Text.{CodeBuilder, set_word, put, add_page, push}

-- Every page has 256 words.
abbrev pub AllFull : List (List ℕ) → Type 0
AllFull [] = Unit
AllFull (ws ∷ rest) = (length ws ≡ 256) × AllFull rest

abbrev pub word_in : Option (List ℕ) → ℕ → Option ℕ
word_in none o = none
word_in (some ws) o = get_elem? ws o

-- The word at an address.
abbrev pub word_of : List (List ℕ) → ℕ → Option ℕ
word_of pages a = word_in (get_elem? pages (a / 256)) (a % 256)

-- The number of words, which is the address of the next one.
abbrev pub position : CodeBuilder → ℕ
position c = 256 * length c.pages + c.offset - 256

-- A builder as `new` and `push` make it.
pub record IsValid (c : CodeBuilder) : Type 0 where
  pub full : AllFull c.pages
  pub offset_in : c.offset ≤ 256
  pub empty_start : (c.offset ≡ 0) ⊎ (0 < length c.pages)

full_page :
    (pages : List (List ℕ)) (i : ℕ)
    → AllFull pages
    → i < length pages
    → (ws : List ℕ) × ((get_elem? pages i ≡ some ws) × (length ws ≡ 256))
full_page [] i f h = absurd (omega (arith, h))
full_page (ws ∷ rest) zero f h = (ws, (refl, f.0))
full_page (ws ∷ rest) (suc i) f h = full_page rest i f.1 (omega (arith, h))

set-AllFull :
    (pages : List (List ℕ)) (i : ℕ) (ws : List ℕ)
    → AllFull pages
    → length ws ≡ 256
    → AllFull (set pages i ws)
set-AllFull [] i ws f h = tt
set-AllFull (x ∷ rest) zero ws f h = (h, f.1)
set-AllFull (x ∷ rest) (suc i) ws f h = (f.0, set-AllFull rest i ws f.1 h)

append-AllFull :
    (pages : List (List ℕ)) (ws : List ℕ)
    → AllFull pages
    → length ws ≡ 256
    → AllFull (pages ++ (ws ∷ []))
append-AllFull [] ws f h = (h, tt)
append-AllFull (x ∷ rest) ws f h = (f.0, append-AllFull rest ws f.1 h)

get_elem?-append_first :
    (pages : List (List ℕ)) (ws : List ℕ) (i : ℕ)
    → i < length pages
    → get_elem? (pages ++ (ws ∷ [])) i ≡ get_elem? pages i
get_elem?-append_first [] ws i h = absurd (omega (arith, h))
get_elem?-append_first (x ∷ rest) ws zero h = refl
get_elem?-append_first (x ∷ rest) ws (suc i) h = get_elem?-append_first rest ws i (omega (arith, h))

-- The builder after a write of `w` to the last page.
pub record Grown (pages : List (List ℕ)) (at w : ℕ) (c : CodeBuilder) : Type 0 where
  pub valid : IsValid c
  pub next : position c ≡ at + 1
  pub written : word_of c.pages at ≡ some w
  pub kept : (a : ℕ) → a < at → word_of c.pages a ≡ word_of pages a

set_word-page :
    (pages : List (List ℕ)) (i o w : ℕ) (ws : List ℕ)
    → get_elem? pages i ≡ some ws
    → set_word pages i o w ≡ set pages i (set ws o w)
set_word-page pages i o w ws g = rw (g, set_word) refl

word_of-other :
    (pages : List (List ℕ)) (i o w a : ℕ) (ws : List ℕ)
    → i < length pages
    → get_elem? pages i ≡ some ws
    → (a / 256 ≢ i) ⊎ ((a / 256 ≡ i) × (a % 256 ≢ o))
    → word_of (set pages i (set ws o w)) a ≡ word_of pages a
word_of-other pages i o w a ws h g (inl n) =
    ap (λ p. word_in p (a % 256)) (get_elem?-set_ne pages (set ws o w) (λ q. n (sym q)))
word_of-other pages i o w a ws h g (inr (p, n)) =
    ap (λ j. word_in (get_elem? (set pages i (set ws o w)) j) (a % 256)) p
    ∙ ap (λ x. word_in x (a % 256)) (get_elem?-set_self pages i (set ws o w) h)
    ∙ get_elem?-set_ne ws w (λ q. n (sym q))
    ∙ sym (ap (λ j. word_in (get_elem? pages j) (a % 256)) p ∙ ap (λ x. word_in x (a % 256)) g)

earlier :
    (a n o : ℕ)
    → 0 < n
    → a < 256 * n + o - 256
    → o < 256
    → (a / 256 ≢ n - 1) ⊎ ((a / 256 ≡ n - 1) × (a % 256 ≢ o))
earlier a n o pos h small = elim (Bool-cases (a / 256 == n - 1)) [
  | inl t ↦
      let p : a / 256 ≡ n - 1 = (==_iff (a / 256) (n - 1)).0 t in
      inr (p, λ q. omega (arith, pos, h, small, p, q))
  | inr f ↦ inl (λ q. ground arith)
]

put-Grown :
    (c : CodeBuilder) (w : ℕ)
    → AllFull c.pages
    → 0 < length c.pages
    → c.offset < 256
    → Grown c.pages (position c) w (put c w)
unfolding put
put-Grown c w f pos small =
    let i : length c.pages - 1 < length c.pages = omega (arith, pos) in
    let (ws, (g, l)) = full_page c.pages (length c.pages - 1) f i in
    let sw : set_word c.pages (length c.pages - 1) c.offset w
        ≡ set c.pages (length c.pages - 1) (set ws c.offset w) =
      set_word-page c.pages (length c.pages - 1) c.offset w ws g in
    let len : length (set c.pages (length c.pages - 1) (set ws c.offset w)) ≡ length c.pages =
      length-set c.pages (length c.pages - 1) (set ws c.offset w) in
    let at_page : (256 * length c.pages + c.offset - 256) / 256 ≡ length c.pages - 1 =
      omega (arith, pos, small) in
    let at_word : (256 * length c.pages + c.offset - 256) % 256 ≡ c.offset =
      omega (arith, pos, small) in
    record {
      valid = record {
        full = rw sw (
            set-AllFull c.pages (length c.pages - 1) (set ws c.offset w) f
              (length-set ws c.offset w ∙ l));
        offset_in = omega (arith, small);
        empty_start = inr (rw sw (omega (arith, len, pos)));
      };
      next = rw sw (omega (arith, len, pos));
      written =
          rw (sw, at_page, at_word)
            (ap (λ x. word_in x c.offset)
                (get_elem?-set_self c.pages (length c.pages - 1) (set ws c.offset w) i)
              ∙ get_elem?-set_self ws c.offset w (omega (arith, l, small)));
      kept = λ a h. rw sw (
          word_of-other c.pages (length c.pages - 1) c.offset w a ws i g
            (earlier a (length c.pages) c.offset pos h small));
    }

ends_of :
    (o n : ℕ) → o ≤ 256 → o == 0 && n == 0 || ltb 255 o ≡ true → (o ≡ 256) ⊎ ((o ≡ 0) × (n ≡ 0))
ends_of o n h t = ground arith

room_of :
    (o n : ℕ) → (o ≡ 0) ⊎ (0 < n) → o == 0 && n == 0 || ltb 255 o ≡ false → (0 < n) × (o < 256)
room_of o n h f = ground arith

paged : CodeBuilder → CodeBuilder
paged c = record c { pages = c.pages ++ (replicate 256 0 ∷ []); offset = 0 }

paged_kept :
    (c : CodeBuilder) (a : ℕ)
    → a < 256 * length c.pages
    → word_of (c.pages ++ (replicate 256 0 ∷ [])) a ≡ word_of c.pages a
paged_kept c a h =
    ap (λ p. word_in p (a % 256))
      (get_elem?-append_first c.pages (replicate 256 0) (a / 256) (omega (arith, h)))

opened :
    (boxed : Result {0, 0} AllocError Unit) (c c' : CodeBuilder) (w : ℕ)
    → (add_page boxed c >>= λ x. ok (put x w)) ≡ ok c'
    → put (paged c) w ≡ c'
unfolding add_page paged
opened (err x) c c' w e = absurd (cc e)
opened (ok u) c c' w e = elim (Bool-cases (ltb (length c.pages) c.options.max_code_pages)) [
  | inl t ↦
      let step : (add_page (ok u) c >>= λ x. ok (put x w)) ≡ ok (put (paged c) w) =
        rw (t, add_page) refl in
      cc (step, e)
  | inr f ↦
      let step : (add_page (ok u) c >>= λ x. ok (put x w)) ≡ err AllocError.out_of_memory =
        rw (f, add_page) refl in
      absurd (cc (step, e))
]

paged-Grown :
    (c : CodeBuilder) (w : ℕ)
    → IsValid c
    → (c.offset ≡ 256) ⊎ ((c.offset ≡ 0) × (length c.pages ≡ 0))
    → Grown c.pages (position c) w (put (paged c) w)
unfolding paged
paged-Grown c w v ends =
    let len : length (c.pages ++ (replicate 256 0 ∷ [])) ≡ length c.pages + 1 =
      length-append c.pages (replicate 256 0 ∷ []) in
    let at : position (paged c) ≡ position c = elim ends [
      | inl o ↦ omega (arith, len, o)
      | inr n ↦ omega (arith, len, n.0, n.1)
    ] in
    let most : position c ≤ 256 * length c.pages = omega (arith, v.offset_in) in
    let g : Grown (paged c).pages (position (paged c)) w (put (paged c) w) =
      put-Grown (paged c) w
        (append-AllFull c.pages (replicate 256 0) v.full (length-replicate {A = ℕ} 256 0))
        (omega (arith, len)) (omega arith) in
    record {
      valid = g.valid;
      next = g.next ∙ ap (λ t. t + 1) at;
      written = ap (word_of (put (paged c) w).pages) (sym at) ∙ g.written;
      kept = λ a h. g.kept a (omega (arith, h, at)) ∙ paged_kept c a (omega (arith, h, most));
    }

-- A word pushed stands at the address that was the next one, no earlier word changes, and the next address
-- is one further, across the ends of pages too.
pub push-Grown :
    (boxed : Result {0, 0} AllocError Unit) (c c' : CodeBuilder) (w : ℕ)
    → IsValid c
    → push boxed c w ≡ ok c'
    → Grown c.pages (position c) w c'
unfolding push
push-Grown boxed c c' w v e =
    elim (Bool-cases (c.offset == 0 && length c.pages == 0 || ltb 255 c.offset)) [
      | inl t ↦
          let step : push boxed c w ≡ (add_page boxed c >>= λ x. ok (put x w)) =
            rw (t, push) refl in
          let ends : (c.offset ≡ 256) ⊎ ((c.offset ≡ 0) × (length c.pages ≡ 0)) =
            ends_of c.offset (length c.pages) v.offset_in t in
          subst (Grown c.pages (position c) w) (opened boxed c c' w (sym step ∙ e))
            (paged-Grown c w v ends)
      | inr f ↦
          let step : push boxed c w ≡ ok (put c w) = rw (f, push) refl in
          let q : put c w ≡ c' = cc (step, e) in
          let room : (0 < length c.pages) × (c.offset < 256) =
            room_of c.offset (length c.pages) v.empty_start f in
          subst (Grown c.pages (position c) w) q (put-Grown c w v.full room.0 room.1)
    ]
