-- ===== src/Reader/Reads.antt =====
-- What a method of the reader does with the bytes that come: two judgments with a rule for each way
-- to compose methods.
use spacewasm.Prelude.{
  ℕ, ◌+◌, ◌≤◌, ◌≡◌, refl, arith, List, [], ◌∷◌, ◌++◌, length, append_assoc, append-nil,
  length-append,
}
use spacewasm.Errors.{ok, err, ValidationError}
use spacewasm.Reader.{Reader, M, pure, fail, ◌>>=◌, read_u8}
use spacewasm.Reader.Fill.{At}
use spacewasm.Reader.Bytes.{read_u8-cons}

-- On input that begins with `used`, and with so much left under the limit, `m` returns `v` and
-- leaves the reader just behind `used`. The chunks may be cut anywhere.
pub record Reads {A : Type 0} (m : M A) (v : A) (used : List ℕ) : Type 0 where
  pub runs :
      (r : Reader) (bs : List ℕ) (stop : ValidationError) (off lim : ℕ)
      → At r (used ++ bs) stop off lim
      → off + length used ≤ lim
      → (r' : Reader) × (m r ≡ (ok v, r')) × At r' bs stop (off + length used) lim

-- On such input `m` fails with `e`.
pub record Rejects {A : Type 0} (m : M A) (e : ValidationError) (used : List ℕ) : Type 0 where
  pub fails :
      (r : Reader) (bs : List ℕ) (stop : ValidationError) (off lim : ℕ)
      → At r (used ++ bs) stop off lim
      → off + length used ≤ lim
      → (m r).0 ≡ err e

At-off :
    {r : Reader} {bs : List ℕ} {stop : ValidationError} {lim : ℕ} (off off' : ℕ)
    → off ≡ off'
    → At r bs stop off lim
    → At r bs stop off' lim
At-off off off' e h = rw (← e) h

pub Reads-u8 : (b : ℕ) → Reads read_u8 b (b ∷ [])
Reads-u8 b = record {
  runs = λ r bs stop off lim h fits. read_u8-cons r b bs stop off lim h (omega arith);
}

module _ {A : Type 0} where
  pub Reads-pure : (v : A) → Reads (pure v) v []
  Reads-pure v = record {
    runs = λ r bs stop off lim h fits. (r, refl, At-off off (off + 0) (omega arith) h);
  }

  pub Rejects-fail : (e : ValidationError) → Rejects {A = A} (fail e) e []
  Rejects-fail e = record { fails = λ r bs stop off lim h fits. refl }

module _ {A B : Type 0} where
  pub Reads-bind :
      (m : M A) (f : A → M B) (a : A) (b : B) (xs ys : List ℕ)
      → Reads m a xs
      → Reads (f a) b ys
      → Reads (m >>= f) b (xs ++ ys)
  Reads-bind m f a b xs ys p q = record {
    runs = λ r bs stop off lim h fits.
        let n : off + (length xs + length ys) ≤ lim = omega (arith, length-append xs ys) in
        let (r1, run1, at1) =
          p.runs r (ys ++ bs) stop off lim (rw (append_assoc xs ys bs) at h) (omega arith) in
        let (r2, run2, at2) = q.runs r1 bs stop (off + length xs) lim at1 (omega arith) in
        (r2, rw run1 run2, At-off _ _ (omega (arith, length-append xs ys)) at2);
  }

  pub Rejects-bind :
      (m : M A) (f : A → M B) (a : A) (e : ValidationError) (xs ys : List ℕ)
      → Reads m a xs
      → Rejects (f a) e ys
      → Rejects (m >>= f) e (xs ++ ys)
  Rejects-bind m f a e xs ys p q = record {
    fails = λ r bs stop off lim h fits.
        let n : off + (length xs + length ys) ≤ lim = omega (arith, length-append xs ys) in
        let (r1, run1, at1) =
          p.runs r (ys ++ bs) stop off lim (rw (append_assoc xs ys bs) at h) (omega arith) in
        rw run1 (q.fails r1 bs stop (off + length xs) lim at1 (omega arith));
  }

  -- A method that fails ends the chain.
  pub Rejects-first :
      (m : M A) (f : A → M B) (e : ValidationError) (xs : List ℕ)
      → Rejects m e xs
      → Rejects (m >>= f) e xs
  Rejects-first m f e xs p = record {
    fails = λ r bs stop off lim h fits. rw (p.fails r bs stop off lim h fits);
  }

  -- A last step that only computes takes no bytes.
  pub Reads-map :
      (m : M A) (f : A → B) (a : A) (xs : List ℕ)
      → Reads m a xs
      → Reads (m >>= λ x. pure (f x)) (f a) xs
  Reads-map m f a xs p =
      rw (append-nil xs) at (Reads-bind m (λ x. pure (f x)) a (f a) xs [] p (Reads-pure (f a)))
