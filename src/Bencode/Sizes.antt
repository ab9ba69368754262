-- ===== src/Bencode/Sizes.antt =====
-- The values that come back as they were: within the sizes, and with sorted keys.
use zeropentime.Bencode.{
  Value, Values, Entries, text, int, list, dict, nil, cons, end, entry, lt_text, insert_sorted,
  encode, sorted_pairs, put_entry, snoc,
}
use zeropentime.Bencode.Number.{IsInt64}
use zeropentime.Prelude.{
  ℕ, suc, ◌<◌, ◌^◌, ◌≡◌, refl, ap, ◌∙◌, inl, inr, true, false, List, [], ◌∷◌, length, arith,
  ◌=text◌, Bool-cases,
}
use Prim.Native.Nat.{max}

unfoldable mutual
  pub depth : Value → ℕ
  depth (text s) = 1
  depth (int n) = 1
  depth (list vs) = suc (depth_values vs)
  depth (dict es) = suc (depth_entries es)

  pub depth_values : Values → ℕ
  depth_values nil = 0
  depth_values (cons v vs) = max (depth v) (depth_values vs)

  pub depth_entries : Entries → ℕ
  depth_entries end = 0
  depth_entries (entry k v es) = max (depth v) (depth_entries es)

abbrev pub IsSized : List ℕ → Type 0
IsSized s = length s < 2 ^ 61

-- The key is before the keys of the entries.
unfoldable pub Precedes : List ℕ → Entries → Type 0
Precedes k end = Unit
Precedes k (entry j v es) = (lt_text k j ≡ true) × Precedes k es

-- Strings of less than 2 ^ 61 bytes, integers of 64 bits, keys in order.
unfoldable mutual
  pub IsCanonical : Value → Type 0
  IsCanonical (text s) = IsSized s
  IsCanonical (int n) = IsInt64 n
  IsCanonical (list vs) = AllCanonical vs
  IsCanonical (dict es) = IsOrdered es

  pub AllCanonical : Values → Type 0
  AllCanonical nil = Unit
  AllCanonical (cons v vs) = IsCanonical v × AllCanonical vs

  pub IsOrdered : Entries → Type 0
  IsOrdered end = Unit
  IsOrdered (entry k v es) = IsSized k × IsCanonical v × Precedes k es × IsOrdered es

unfoldable pub append_values : Values → Values → Values
append_values nil vs = vs
append_values (cons w ws) vs = cons w (append_values ws vs)

unfoldable pub append_entries : Entries → Entries → Entries
append_entries end es = es
append_entries (entry k v ds) es = entry k v (append_entries ds es)

pub append_values-snoc :
    (out vs : Values) (v : Value) → append_values (snoc out v) vs ≡ append_values out (cons v vs)
unfolding append_values snoc
append_values-snoc nil vs v = refl
append_values-snoc (cons w out) vs v = ap (cons w) (append_values-snoc out vs v)

pub append_values-nil : (vs : Values) → append_values nil vs ≡ vs
unfolding append_values
append_values-nil vs = refl

-- The key is not among the entries.
unfoldable pub IsFresh : List ℕ → Entries → Type 0
IsFresh k end = Unit
IsFresh k (entry j v es) = ((j =text k) ≡ false) × IsFresh k es

-- No key of the second entries is among the first.
unfoldable pub AreFresh : Entries → Entries → Type 0
AreFresh out end = Unit
AreFresh out (entry k v es) = IsFresh k out × AreFresh out es

pub append_entries-put_entry :
    (out es : Entries) (k : List ℕ) (v : Value)
    → IsFresh k out
    → append_entries (put_entry k v out) es ≡ append_entries out (entry k v es)
unfolding append_entries put_entry IsFresh
append_entries-put_entry end es k v h = refl
append_entries-put_entry (entry j w out) es k v (other, rest) =
    rw (other, put_entry) (ap (entry j w) (append_entries-put_entry out es k v rest))

lt_text_irreflexive : (k : List ℕ) → lt_text k k ≡ false
unfolding lt_text
lt_text_irreflexive [] = refl
lt_text_irreflexive (x ∷ xs) = ground (arith, lt_text_irreflexive xs)

pub lt_text_asymmetric : (j k : List ℕ) → lt_text j k ≡ true → lt_text k j ≡ false
unfolding lt_text
lt_text_asymmetric [] [] h = cc
lt_text_asymmetric [] (y ∷ ys) h = refl
lt_text_asymmetric (x ∷ xs) [] h = cc
lt_text_asymmetric (x ∷ xs) (y ∷ ys) h = ground (arith, lt_text_asymmetric xs ys)

lt_text_other : (j k : List ℕ) → lt_text j k ≡ true → (j =text k) ≡ false
lt_text_other j k h = ground (arith, lt_text_irreflexive j, h)

IsFresh-put_entry :
    (k j : List ℕ) (v : Value) (out : Entries)
    → IsFresh k out
    → (j =text k) ≡ false
    → IsFresh k (put_entry j v out)
unfolding IsFresh put_entry
IsFresh-put_entry k j v end h other = (other, tt)
IsFresh-put_entry k j v (entry i w out) (one, rest) other = elim (Bool-cases (i =text j)) [
  | inl this ↦ rw (this, put_entry) (other, rest)
  | inr that ↦ rw (that, put_entry) (one, IsFresh-put_entry k j v out rest other)
]

-- With one more entry, the later keys are still fresh.
pub AreFresh-put_entry :
    (k : List ℕ) (v : Value) (out es : Entries)
    → AreFresh out es
    → Precedes k es
    → AreFresh (put_entry k v out) es
unfolding AreFresh Precedes
AreFresh-put_entry k v out end h p = tt
AreFresh-put_entry k v out (entry j w es) (one, rest) (lt, more) = (
  IsFresh-put_entry j k v out one (lt_text_other k j lt),
  AreFresh-put_entry k v out es rest more,
)

pub AreFresh-end : (es : Entries) → AreFresh end es
unfolding AreFresh IsFresh
AreFresh-end end = tt
AreFresh-end (entry k v es) = (tt, AreFresh-end es)

-- The encoded entries in their order.
unfoldable pub pairs_of : Entries → List (List ℕ × List ℕ)
pairs_of end = []
pairs_of (entry k v es) = (k, encode v) ∷ pairs_of es

insert_first :
    (k w : List ℕ) (es : Entries)
    → Precedes k es
    → insert_sorted k w (pairs_of es) ≡ (k, w) ∷ pairs_of es
unfolding insert_sorted Precedes pairs_of
insert_first k w end h = refl
insert_first k w (entry j v es) (lt, rest) = rw (lt_text_asymmetric k j lt, insert_sorted) refl

-- Entries in order are not moved by the sorting.
pub sorted_pairs-IsOrdered : (es : Entries) → IsOrdered es → sorted_pairs es ≡ pairs_of es
unfolding sorted_pairs pairs_of IsOrdered
sorted_pairs-IsOrdered end h = refl
sorted_pairs-IsOrdered (entry k v es) (sized, one, before, rest) =
    ap (insert_sorted k (encode v)) (sorted_pairs-IsOrdered es rest)
    ∙ insert_first k (encode v) es before
