-- ===== src/Types/Valid.antt =====
-- Whatever the decoders of src/types.rs accept, on any input at all, is within the limits.
use spacewasm.Prelude.{
  ℕ, ◌*◌, ◌^◌, ◌≤◌, ◌≡◌, refl, ap₂, subst, arith, Bool, true, false, Option, none, some, ltb, leb,
  ◌==◌, if◌then◌else◌, bit_and,
}
use spacewasm.Errors.{Result, ok, err, ValidationError}
use spacewasm.Reader.{Reader, M, pure, fail, after, ◌>>=◌, read_u8}
use spacewasm.Reader.Leb.{read_u32}
use spacewasm.Types.{
  Limit, read_limit, MemPageSize, one_byte, kib_64, page_bytes, MemType, read_mem_max,
  read_page_size, max_allowed_pages, exceeds, read_mem_type, read_elem_type, TableType,
  max_table_elements, read_table_type, can_hold, within_max,
}
use spacewasm.Types.Matching.{Below}

-- Whenever `m` succeeds, its result has the property.
pub record Ensures {A : Type 0} (m : M A) (P : A → Type 0) : Type 0 where
  pub holds : (r r' : Reader) (a : A) → m r ≡ (ok a, r') → P a

module _ {A : Type 0} {P : A → Type 0} where
  Ensures-pure : (a : A) → P a → Ensures (pure a) P
  Ensures-pure a h = record { holds = λ r r' b e. subst P (cc e) h }

  Ensures-fail : (e : ValidationError) → Ensures (fail e) P
  Ensures-fail e = record { holds = λ r r' b i. absurd (cc i) }

  Ensures-if :
      (b : Bool) (m n : M A)
      → (b ≡ true → Ensures m P)
      → (b ≡ false → Ensures n P)
      → Ensures (if b then m else n) P
  Ensures-if true m n p q = p refl
  Ensures-if false m n p q = q refl

module _ {A B : Type 0} {P : A → Type 0} {Q : B → Type 0} where
  Ensures-bind :
      (m : M A) (f : A → M B)
      → Ensures m P
      → ((a : A) → P a → Ensures (f a) Q)
      → Ensures (m >>= f) Q
  Ensures-bind m f p q = record { holds = λ r r' b e. from r r' b (m r).0 (m r).1 refl refl e }
    where
      from :
          (r r' : Reader) (b : B) (out : Result ValidationError A) (r1 : Reader)
          → (m r).0 ≡ out
          → (m r).1 ≡ r1
          → after f (m r).0 (m r).1 ≡ (ok b, r')
          → Q b
      from r r' b (ok a) r1 i j e =
          (q a (p.holds r r1 a (ap₂ (λ x y. (x, y)) i j))).holds r1 r' b (rw (i, j) at e)
      from r r' b (err x) r1 i j e = absurd (cc (rw i at e))

-- For what comes next nothing need be known of a result.
Ensures-any : {A : Type 0} (m : M A) → Ensures m (λ _. Unit {0})
Ensures-any m = record { holds = λ r r' a e. tt }

-- A limit that is read has its maximum, if any, at or above its minimum.
abbrev pub IsOrdered : Limit → Type 0
IsOrdered l = Below l.max l.min

read_limit-IsOrdered : Ensures read_limit IsOrdered
unfolding read_limit
read_limit-IsOrdered = Ensures-bind read_u8 _ (Ensures-any read_u8) λ c _.
    Ensures-if (c == 0) _ _
      (λ _. Ensures-bind read_u32 _ (Ensures-any read_u32) λ min _. Ensures-pure _ tt)
      (λ _.
        Ensures-if (c == 1) _ _
          (λ _. Ensures-bind read_u32 _ (Ensures-any read_u32) λ min _.
            Ensures-bind read_u32 _ (Ensures-any read_u32) λ max _.
              Ensures-if (ltb max min) _ _ (λ _. Ensures-fail _)
                (λ ge. Ensures-pure _ (ground arith)))
          (λ _. Ensures-fail _))

-- What `MemType::read` and `TableType::read` promise.
abbrev pub BelowAll : Option ℕ → ℕ → Type 0
BelowAll none bound = Unit {0}
BelowAll (some m) bound = m ≤ bound

pub record IsMemType (t : MemType) : Type 0 where
  pub ordered : Below t.max_pages t.initial_pages
  pub min_small : t.initial_pages ≤ max_allowed_pages t.page_size
  pub max_small : BelowAll t.max_pages (max_allowed_pages t.page_size)

exceeds→BelowAll : (max : Option ℕ) (bound : ℕ) → exceeds max bound ≡ false → BelowAll max bound
exceeds→BelowAll none bound e = tt
exceeds→BelowAll (some m) bound e = ground arith

not_below : (a b : ℕ) → ltb a b ≡ false → b ≤ a
not_below a b h = ground arith

read_mem_max-Below : (flag min : ℕ) → Ensures (read_mem_max flag min) (λ max. Below max min)
unfolding read_mem_max
read_mem_max-Below flag min =
    Ensures-if (bit_and flag 0b0001 == 0) _ _ (λ _. Ensures-pure none tt)
      (λ _. Ensures-bind read_u32 _ (Ensures-any read_u32) λ max _.
        Ensures-if (ltb max min) _ _ (λ _. Ensures-fail _)
          (λ ge. Ensures-pure (some max) (ground arith)))

read_mem_type-Ensures : Ensures read_mem_type IsMemType
unfolding read_mem_type
read_mem_type-Ensures = Ensures-bind read_u8 _ (Ensures-any read_u8) λ flag _.
    Ensures-bind read_u32 _ (Ensures-any read_u32) λ min _.
      Ensures-bind (read_mem_max flag min) _ (read_mem_max-Below flag min) λ max ordered.
        Ensures-if (bit_and flag 0b0010 == 0) _ _
          (λ _.
            Ensures-if (bit_and flag 0b0100 == 0) _ _
              (λ _. Ensures-bind (read_page_size flag) _ (Ensures-any (read_page_size flag)) λ p _.
                Ensures-if (bit_and flag 0xF0 == 0) _ _
                  (λ _.
                    Ensures-if (ltb (max_allowed_pages p) min) _ _ (λ _. Ensures-fail _)
                      (λ small.
                        Ensures-if (exceeds max (max_allowed_pages p)) _ _ (λ _. Ensures-fail _)
                          (λ smaller. Ensures-pure _ (record {
                            ordered = ordered;
                            min_small = not_below (max_allowed_pages p) min small;
                            max_small = exceeds→BelowAll max (max_allowed_pages p) smaller;
                          }))))
                  (λ _. Ensures-fail _))
              (λ _. Ensures-fail _))
          (λ _. Ensures-fail _)

-- Whatever `MemType::read` accepts, on any input, is a memory type within the limits: its maximum is
-- not below its minimum, and neither exceeds what 32-bit addresses reach at its page size.
pub read_mem_type-IsMemType :
    (r r' : Reader) (t : MemType) → read_mem_type r ≡ (ok t, r') → IsMemType t
read_mem_type-IsMemType = read_mem_type-Ensures.holds

-- A table type within the limits.
pub record IsTableType (t : TableType) : Type 0 where
  pub ordered : IsOrdered t.limits
  pub min_small : t.limits.min ≤ max_table_elements
  pub max_small : BelowAll t.limits.max max_table_elements

read_table_type-Ensures : Ensures read_table_type IsTableType
unfolding read_table_type
read_table_type-Ensures = Ensures-bind read_elem_type _ (Ensures-any read_elem_type) λ e _.
    Ensures-bind read_limit _ read_limit-IsOrdered λ l ordered.
      Ensures-if (ltb max_table_elements l.min) _ _ (λ _. Ensures-fail _)
        (λ small.
          Ensures-if (exceeds l.max max_table_elements) _ _ (λ _. Ensures-fail _)
            (λ smaller. Ensures-pure _ (record {
              ordered = ordered;
              min_small = not_below max_table_elements l.min small;
              max_small = exceeds→BelowAll l.max max_table_elements smaller;
            })))

-- Whatever `TableType::read` accepts, on any input, is a table type within the limits: an ordered limit
-- of at most MAX_TABLE_ELEMENTS elements.
pub read_table_type-IsTableType :
    (r r' : Reader) (t : TableType) → read_table_type r ≡ (ok t, r') → IsTableType t
read_table_type-IsTableType = read_table_type-Ensures.holds

max_allowed_bytes : (p : MemPageSize) → max_allowed_pages p * page_bytes p ≡ 2 ^ 32
max_allowed_bytes one_byte = refl
max_allowed_bytes kib_64 = refl

within_max_bounds :
    (t : MemType) (max : Option ℕ) (n : ℕ)
    → BelowAll max (max_allowed_pages t.page_size)
    → within_max t max n ≡ true
    → (n * page_bytes t.page_size ≤ 2 ^ 32) × Below max n
unfolding within_max
within_max_bounds t none n h e = (ground arith, tt)
within_max_bounds t (some k) n h e =
    let small : n ≤ k = ground arith in
    let fits : n * page_bytes t.page_size ≤ max_allowed_pages t.page_size * page_bytes t.page_size =
      grind arith in
    (rw (max_allowed_bytes t.page_size) at fits, small)

-- The sizes to which `can_hold` lets a memory of a decoded type grow: at least the initial size, at
-- most the maximum, and never more than 4 GiB.
pub can_hold_bounds :
    (t : MemType) (n : ℕ)
    → IsMemType t
    → can_hold t n ≡ true
    → (t.initial_pages ≤ n) × (n * page_bytes t.page_size ≤ 2 ^ 32) × Below t.max_pages n
unfolding can_hold
can_hold_bounds t n h e =
    let parts : (within_max t t.max_pages n ≡ true) × (t.initial_pages ≤ n) =
      unfold within_max in both (within_max t t.max_pages n) e in
    let (bytes, below) = within_max_bounds t t.max_pages n h.max_small parts.0 in
    (parts.1, bytes, below)
  where
    both :
        (b : Bool)
        → (if b then leb t.initial_pages n else false) ≡ true
        → (b ≡ true) × (t.initial_pages ≤ n)
    both true i = (refl, ground arith)
    both false i = absurd (cc i)
