-- ===== src/Verifier/Encoding.antt =====
-- The bytes of a proof.
use veil_server_v.Prelude.{
  ◌≡◌, refl, sym, ap, ◌∙◌, true, [], ◌∷◌, ◌++◌, arith, length, length-append, take, drop, ◌==◌, ok,
}
use mathlib.Core.List.{append_assoc}
use veil_server_v.Pool.Types.{Bytes, Groth16Proof}
use veil_server_v.Verifier.{fixed, proof_from_bytes}

-- A proof as the bytes of its points, one after the other.
abbrev pub to_bytes : Groth16Proof → Bytes
to_bytes p = p.a ++ (p.b ++ p.c)

take-append : (xs ys : Bytes) → take (length xs) (xs ++ ys) ≡ xs
take-append [] ys = refl
take-append (x ∷ xs) ys = ap (λ zs. x ∷ zs) (take-append xs ys)

drop-append : (xs ys : Bytes) → drop (length xs) (xs ++ ys) ≡ ys
drop-append [] ys = refl
drop-append (x ∷ xs) ys = drop-append xs ys

-- A proof whose points have 64, 128 and 64 bytes is read back from its bytes.
pub proof_from_bytes-to_bytes :
    (p : Groth16Proof)
    → length p.a ≡ 64
    → length p.b ≡ 128
    → length p.c ≡ 64
    → proof_from_bytes (to_bytes p) ≡ ok p
unfolding proof_from_bytes fixed
proof_from_bytes-to_bytes p a b c =
    let len : (length (to_bytes p) == 256) ≡ true =
      ground (arith, length-append p.a (p.b ++ p.c), length-append p.b p.c, a, b, c) in
    let first : take 64 (to_bytes p) ≡ p.a =
      ap (λ n. take n (to_bytes p)) (sym a) ∙ take-append p.a (p.b ++ p.c) in
    let rest : drop 64 (to_bytes p) ≡ p.b ++ p.c =
      ap (λ n. drop n (to_bytes p)) (sym a) ∙ drop-append p.a (p.b ++ p.c) in
    let second : take 128 (p.b ++ p.c) ≡ p.b =
      ap (λ n. take n (p.b ++ p.c)) (sym b) ∙ take-append p.b p.c in
    let both : length (p.a ++ p.b) ≡ 192 = length-append p.a p.b ∙ omega (arith, a, b) in
    let third : drop 192 (to_bytes p) ≡ p.c =
      ap (drop 192) (sym (append_assoc p.a p.b p.c))
      ∙ ap (λ n. drop n ((p.a ++ p.b) ++ p.c)) (sym both)
      ∙ drop-append (p.a ++ p.b) p.c in
    let a' : (length p.a == 64) ≡ true = ground (arith, a) in
    let b' : (length p.b == 128) ≡ true = ground (arith, b) in
    let c' : (length p.c == 64) ≡ true = ground (arith, c) in
    rw (len, first, a', rest, second, b', third, c') refl
