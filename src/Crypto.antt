-- ===== src/Crypto.antt =====
-- The cryptography that disco and the relay call: golang.org/x/crypto/nacl, crypto/aes and
-- crypto/sha256. It is not in the repository, so it is a parameter, with the documented laws as a
-- record of hypotheses.
use mathlib.Core.List.{append_assoc}
use zeropentime.Prelude.{
  take, drop, ◌++◌, ap, ◌∙◌, arith, take-append_exact, drop-append_exact, length-append, ℕ, ◌+◌,
  ◌≡◌, List, Option, some, length,
}

-- Keys, nonces and seeds are bytes; opening fails with `none`.
pub record Primitives : Type 0 where
  -- The public key of a private key.
  pub public : List ℕ → List ℕ
  pub sha256 : List ℕ → List ℕ
  -- The key, then the block.
  pub aes : List ℕ → List ℕ → List ℕ
  -- The message, the nonce, the key of the peer, the own private key.
  pub box_seal : List ℕ → List ℕ → List ℕ → List ℕ → List ℕ
  pub box_open : List ℕ → List ℕ → List ℕ → List ℕ → Option (List ℕ)
  -- The message, the receiver's public key, the seed of the ephemeral key.
  pub anonymous_seal : List ℕ → List ℕ → List ℕ → List ℕ
  -- The box, the receiver's public and private key.
  pub anonymous_open : List ℕ → List ℕ → List ℕ → Option (List ℕ)
  -- The message, the nonce, the shared key.
  pub secret_seal : List ℕ → List ℕ → List ℕ → List ℕ
  pub secret_open : List ℕ → List ℕ → List ℕ → Option (List ℕ)

-- What is sealed is opened by the holder of the key, the sizes are the documented ones.
pub record IsLawful (c : Primitives) : Type 0 where
  pub length-public : (k : List ℕ) → length (c.public k) ≡ 32
  pub length-sha256 : (m : List ℕ) → length (c.sha256 m) ≡ 32
  pub length-aes : (k b : List ℕ) → length (c.aes k b) ≡ 16
  pub box_open-box_seal :
      (m n a b : List ℕ) → c.box_open (c.box_seal m n (c.public b) a) n (c.public a) b ≡ some m
  pub length-box_seal : (m n b a : List ℕ) → length (c.box_seal m n b a) ≡ 16 + length m
  pub anonymous_open-anonymous_seal :
      (m b seed : List ℕ)
      → c.anonymous_open (c.anonymous_seal m (c.public b) seed) (c.public b) b ≡ some m
  pub length-anonymous_seal :
      (m b seed : List ℕ) → length (c.anonymous_seal m b seed) ≡ 48 + length m
  pub secret_open-secret_seal : (m n k : List ℕ) → c.secret_open (c.secret_seal m n k) n k ≡ some m
  pub length-secret_seal : (m n k : List ℕ) → length (c.secret_seal m n k) ≡ 16 + length m

-- What the outer boxes of disco and of a hello hold: the sender's key, a nonce, the inner box.
pub envelope_parts :
    (k n b : List ℕ)
    → length k ≡ 32
    → length n ≡ 24
    → let plain = k ++ n ++ b in
      (take 32 plain ≡ k)
      × (take 24 (drop 32 plain) ≡ n)
      × (drop 56 plain ≡ b)
      × (length plain ≡ 56 + length b)
envelope_parts k n b hk hn =
    let size : length (k ++ n) ≡ 56 = omega (arith, length-append k n) in
    (
      ap (take 32) (append_assoc k n b) ∙ take-append_exact 32 k _ hk,
      ap (λ (f : List ℕ). take 24 (drop 32 f)) (append_assoc k n b)
          ∙ ap (take 24) (drop-append_exact 32 k _ hk)
          ∙ take-append_exact 24 n b hn,
      drop-append_exact 56 (k ++ n) b size,
      omega (arith, length-append (k ++ n) b),
    )
