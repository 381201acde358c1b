-- ===== src/Urkel/Admission.antt =====
-- What an accepted declared proof promises.
use hns_rs.Base.{
  ℕ, ◌-◌, ◌≡◌, refl, sym, ap, subst, ◌∙◌, arith, true, false, not, Bool, Option, some, none, length,
  ◌==◌, if◌then◌else◌, ok, err, ensure, >>=-eq-ok, ok-injective, map_ok, Result,
}
use hns_rs.Base.Bytes.{Bytes, bytes_eq, eq_of_bytes_eq}
use hns_rs.Hash.{Blake2b}
use hns_rs.Urkel.Prefix.{UrkelError, kind_mismatch, non_canonical, trailing_bytes, matches_key}
use hns_rs.Urkel.Proof.{
  HsdUrkelProof, ProofTerminal, dead_end, short, collision, exists, open_terminal, climb, verify,
  validate,
}
use hns_rs.Urkel.Wire.{
  decode_inner, admit, decode_strict, decode_hsd, encode, ProofKind, inclusion, non_inclusion, kind,
  UrkelProof, kind_eq, terminal_kind, verify_decoded, verify_hsd, verify_strict,
}

-- Past a refusal.
passed {ℓ} :
    {A : Type ℓ} (test : Bool) (e : UrkelError) (r : Result UrkelError A) {a : A}
    → (if test then err e else r) ≡ ok a
    → (test ≡ false) × (r ≡ ok a)
passed true e r h = cc
passed false e r h = (refl, h)

kept {ℓ} :
    {A : Type ℓ} (test : Bool) (e : UrkelError) (p : A) {a : A}
    → (if test then ok p else err e) ≡ ok a
    → (test ≡ true) × (p ≡ a)
kept true e p h = (refl, ok-injective h)
kept false e p h = cc

-- What an admitted proof says of its bytes.
admit_lem :
    (raw : Bytes) (p q : HsdUrkelProof) (n : ℕ)
    → admit raw p n ≡ ok q
    → (p ≡ q) × (n ≡ length raw) × (encode q ≡ ok raw)
unfolding admit
admit_lem raw p q n h =
    let (whole, rest) = passed (not (n == length raw)) (trailing_bytes (length raw - n)) _ h in
    let (canonical, written, last) = >>=-eq-ok (encode p) _ rest in
    let (equal, same) = kept (bytes_eq canonical raw) non_canonical p last in
    (
      same,
      ground (arith, whole),
      ap encode (sym same) ∙ written ∙ ap ok (eq_of_bytes_eq canonical raw equal),
    )

-- Strict decoding accepts no more than the compatible decoding, and only the bytes that the proof is written as.
pub decode_strict_lem :
    (raw : Bytes) (q : HsdUrkelProof)
    → decode_strict raw ≡ ok q
    → (decode_inner raw ≡ ok (q, length raw)) × (decode_hsd raw ≡ ok q) × (encode q ≡ ok raw)
unfolding decode_strict decode_hsd
decode_strict_lem raw q h =
    let ((p, n), inner, admitted) = >>=-eq-ok (decode_inner raw) _ h in
    let (same, whole, written) = admit_lem raw p q n admitted in
    let exact : decode_inner raw ≡ ok (q, length raw) =
      inner ∙ ap (λ (x : HsdUrkelProof). ok (x, n)) same ∙ ap (λ m. ok (q, m)) whole in
    (exact, ap (map_ok (λ (r : HsdUrkelProof × ℕ). r.0)) exact, written)

-- Whether an answer is of the kind.
abbrev pub Answers : ProofKind → Option Bytes → Type 0
Answers inclusion none = ⊥
Answers inclusion (some value) = Unit
Answers non_inclusion none = Unit
Answers non_inclusion (some value) = ⊥

module _ ⦃blake : Blake2b⦄ where
  terminal_answer :
      (t : ProofTerminal) (depth : ℕ) (key hash : Bytes) (value : Option Bytes)
      → open_terminal t key depth ≡ ok (hash, value)
      → Answers (terminal_kind t) value
  unfolding open_terminal terminal_kind
  terminal_answer dead_end depth key hash value h =
      subst (λ v. Answers non_inclusion v) (ap (λ r. r.1) (ok-injective h)) tt
  terminal_answer (short prefix left right) depth key hash value h =
      let (_, opened) = passed (matches_key prefix key depth) _ _ h in
      subst (λ v. Answers non_inclusion v) (ap (λ r. r.1) (ok-injective opened)) tt
  terminal_answer (collision other value_hash) depth key hash value h =
      let (_, opened) = passed (bytes_eq other key) _ _ h in
      subst (λ v. Answers non_inclusion v) (ap (λ r. r.1) (ok-injective opened)) tt
  terminal_answer (exists held) depth key hash value h =
      subst (λ v. Answers inclusion v) (ap (λ r. r.1) (ok-injective h)) tt

  verify_answer :
      (proof : HsdUrkelProof) (root key : Bytes) (value : Option Bytes)
      → verify proof root key ≡ ok value
      → Answers (kind proof) value
  unfolding verify kind
  verify_answer proof root key value h =
      let (_, _, h1) = >>=-eq-ok (validate proof) _ h in
      let ((hash, found), opened, h2) =
        >>=-eq-ok (open_terminal proof.terminal key proof.depth) _ h1 in
      let ((top, end), _, h3) = >>=-eq-ok (climb key proof.nodes (hash, proof.depth)) _ h2 in
      let (_, _, h4) = >>=-eq-ok (ensure (end == 0) _) _ h3 in
      let (_, _, h5) = >>=-eq-ok (ensure (bytes_eq top root) _) _ h4 in
      subst (λ v. Answers (terminal_kind proof.terminal) v) (ok-injective h5)
        (terminal_answer proof.terminal proof.depth key hash found opened)

  -- A declared proof that strict verification accepts is accepted by the compatible verification too, with the same
  -- answer; its bytes are the encoding of one proof, which verifies under the name; and the answer is a value exactly if
  -- inclusion is declared.
  pub verify_strict_admits :
      (p : UrkelProof) (root : Bytes) (value : Option Bytes)
      → verify_strict p root ≡ ok value
      → (verify_hsd p root ≡ ok value)
        × Answers p.kind value
        × ((proof : HsdUrkelProof) × (decode_inner p.raw ≡ ok (proof, length p.raw))
            × (encode proof ≡ ok p.raw)
            × (verify proof root p.name_hash ≡ ok value))
  unfolding verify_strict verify_hsd verify_decoded kind_eq
  verify_strict_admits p root value h =
      let (proof, strict, decided) = >>=-eq-ok (decode_strict p.raw) _ h in
      let (inner, hsd, written) = decode_strict_lem p.raw proof strict in
      let (same_kind, verified) =
        passed (not (kind_eq (kind proof) p.kind)) kind_mismatch _ decided in
      let answer = verify_answer proof root p.name_hash value verified in
      (
        rw hsd decided,
        subst (λ k. Answers k value) (same_lem (kind proof) p.kind same_kind) answer,
        (proof, inner, written, verified),
      )
    where
      same_lem : (a b : ProofKind) → not (kind_eq a b) ≡ false → a ≡ b
      same_lem inclusion inclusion h = refl
      same_lem non_inclusion non_inclusion h = refl
      same_lem inclusion non_inclusion h = cc
      same_lem non_inclusion inclusion h = cc
