-- ===== src/Encoding/Reads.antt =====
-- When a reader takes exactly the given bytes and returns the given value, wherever they stand.
use hns_rs.Base.{
  Bool, true, ℕ, ◌+◌, ◌<◌, ◌^◌, ◌≡◌, refl, sym, ap, subst, List, [], ◌++◌, arith, length,
  length-append, append-nil, append_assoc, Result, ok, err, Result, refl, err,
}
use hns_rs.Encoding.Decoder.{
  new, remaining, finish, ensure, ◌>>◌, Decoder, Parser, ◌>>=◌, pure, convert,
}

-- A decoder between the bytes `front` that it has read and the bytes `rest` that are left.
abbrev pub at : List ℕ → List ℕ → Decoder
at front rest = record { input = front ++ rest; position = length front }

-- On an input of less than 2^64 bytes, `p` reads `bytes` as `value` and leaves the rest.
pub record Reads {E A : Type 0} (p : Parser E A) (bytes : List ℕ) (value : A) : Type 0 where
  pub run :
      (front rest : List ℕ)
      → length front + (length bytes + length rest) < 2 ^ 64
      → p (at front (bytes ++ rest)) ≡ ok (value, at (front ++ bytes) rest)

at-nil : (front rest : List ℕ) → at (front ++ []) rest ≡ at front rest
at-nil front rest = ap (λ l. at l rest) (append-nil front)

module _ {E A : Type 0} where
  pub Reads-pure : (a : A) → Reads {E = E} (pure a) [] a
  Reads-pure a = record { run = λ front rest h. ap (λ d. ok (a, d)) (sym (at-nil front rest)) }

module _ {E A B : Type 0} where
  -- A `do` block reads the concatenation of what its parts read.
  pub Reads-bind :
      {p : Parser E A} (f : A → Parser E B) {xs ys : List ℕ} {a : A} {b : B}
      → Reads p xs a
      → Reads (f a) ys b
      → Reads (p >>= f) (xs ++ ys) b
  Reads-bind {p} f {xs} {ys} {a} {b} r s = record {
    run = λ front rest h.
        let h' : length front + (length xs + length ys + length rest) < 2 ^ 64 =
          rw (length-append xs ys) at h in
        rw
          (
            append_assoc xs ys rest,
            r.run front (ys ++ rest) (rw (length-append ys rest) (omega arith)),
            ◌>>=◌,
          )
          (rw (append_assoc front xs ys) at
            (s.run (front ++ xs) rest (rw (length-append front xs) (omega arith))));
  }

  -- The last part of a block may read nothing more.
  pub Reads-last :
      {p : Parser E A} (f : A → Parser E B) {xs : List ℕ} {a : A} {b : B}
      → Reads p xs a
      → f a ≡ pure b
      → Reads (p >>= f) xs b
  Reads-last {p} f {xs} {a} {b} r e =
      subst (λ l. Reads (p >>= f) l b) (append-nil xs) (Reads-bind f r (rw e (Reads-pure b)))

module _ {E B : Type 0} where
  -- A check that passes reads nothing.
  pub Reads-ensure :
      (test : Bool) (e : E) {k : Parser E B} {xs : List ℕ} {b : B}
      → test ≡ true
      → Reads k xs b
      → Reads (ensure test e >> k) xs b
  Reads-ensure test e {k} h r = rw h (Reads-bind (λ _. k) (Reads-pure tt) r)

module _ {E F A : Type 0} where
  pub Reads-convert :
      (f : E → F) {p : Parser E A} {xs : List ℕ} {a : A} → Reads p xs a → Reads (convert f p) xs a
  Reads-convert f r = record { run = λ front rest h. rw (r.run front rest h) }

-- A decoder that has read all of its input.
abbrev pub at_end : List ℕ → Decoder
at_end input = record { input = input; position = length input }

pub finish-at_end : (input : List ℕ) → finish (at_end input) ≡ ok tt
unfolding finish remaining
finish-at_end input = ground arith

module _ {E A : Type 0} where
  pub Reads-new :
      {p : Parser E A} {xs : List ℕ} {a : A}
      → Reads p xs a
      → length xs < 2 ^ 64
      → p (new xs) ≡ ok (a, at_end xs)
  unfolding new
  Reads-new {p} {xs} r h = rw (append-nil xs) at (r.run [] [] (omega arith))

-- Inversion of a successful block.
pub >>=-eq-ok :
    {E A B : Type 0} (p : Parser E A) (f : A → Parser E B) (d : Decoder) {r : B × Decoder}
    → (p >>= f) d ≡ ok r
    → (a : A) × (d' : Decoder) × (p d ≡ ok (a, d')) × (f a d' ≡ ok r)
>>=-eq-ok {E} {A} {B} p f d {r} h = go (p d) refl
  where
    go :
        (q : Result E (A × Decoder))
        → p d ≡ q
        → (a : A) × (d' : Decoder) × (p d ≡ ok (a, d')) × (f a d' ≡ ok r)
    go (ok (a, d')) e = (a, d', e, rw (e, ◌>>=◌) at h)
    go (err x) e = cc (rw (e, ◌>>=◌) at h)
