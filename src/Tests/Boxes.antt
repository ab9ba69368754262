-- ===== src/Tests/Boxes.antt =====
-- Boxes that only add their overhead, in place of the cryptography.
use zeropentime.Crypto.{Primitives, IsLawful}
use zeropentime.Prelude.{
  ℕ, refl, List, ◌++◌, some, arith, drop, take, length-take, length-drop, replicate, length-append,
}

abbrev pub zeros : ℕ → List ℕ
zeros n = replicate n 0

-- The digest and the block show a part of what they are made from.
abbrev pub plain_box : Primitives
plain_box = record {
  public = λ k. zeros 32;
  sha256 = λ m. take 32 (drop 18 (m ++ zeros 50));
  aes = λ k b. take 16 (k ++ zeros 16);
  box_seal = λ m n b a. zeros 16 ++ m;
  box_open = λ x n a b. some (drop 16 x);
  anonymous_seal = λ m b seed. zeros 48 ++ m;
  anonymous_open = λ x b k. some (drop 48 x);
  secret_seal = λ m n k. zeros 16 ++ m;
  secret_open = λ x n k. some (drop 16 x);
}

pub plain_box-IsLawful : IsLawful plain_box
plain_box-IsLawful = record {
  length-public = λ k. refl;
  length-sha256 = λ m. omega (
    arith,
    length-take 32 (drop 18 (m ++ zeros 50)),
    length-drop 18 (m ++ zeros 50),
    length-append m (zeros 50),
  );
  length-aes = λ k b. omega (arith, length-take 16 (k ++ zeros 16), length-append k (zeros 16));
  box_open-box_seal = λ m n a b. refl;
  length-box_seal = λ m n b a. omega (arith, length-append (zeros 16) m);
  anonymous_open-anonymous_seal = λ m b seed. refl;
  length-anonymous_seal = λ m b seed. omega (arith, length-append (zeros 48) m);
  secret_open-secret_seal = λ m n k. refl;
  length-secret_seal = λ m n k. omega (arith, length-append (zeros 16) m);
}
