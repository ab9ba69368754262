-- ===== src/Tunwrap/Device/Delivery.antt =====
-- What `Write` hands to the OS.
use zeropentime.Acl.Policy.{Texts}
use zeropentime.Acl.Filter.{Filter, inbound}
use zeropentime.Prelude.{
  ℕ, ◌≡◌, ◌⊎◌, inl, inr, refl, ap, ◌∙◌, Bool, true, false, List, [], ◌∷◌, ◌++◌, Option, none, some,
  All, Any, arith, Bool-cases,
}
use zeropentime.Tunwrap.Packet.{Device, unwrap, unwrap_inner, is_group_dst}
use zeropentime.Tunwrap.Device.{write_one, write, delivered, view, ask_filter, diverted}

-- `q` is an incoming packet that is no wrapped broadcast, or the broadcast inside one.
abbrev pub ComesFrom : Device → List ℕ → List ℕ → Type 0
ComesFrom d q b = ((q ≡ b) × ((unwrap d b).1 ≡ false)) ⊎ (unwrap d b ≡ (some q, true))

unwrap_filter :
    (d : Device) (f : Option Filter) (b : List ℕ) → unwrap (record d { filter = f }) b ≡ unwrap d b
unfolding unwrap unwrap_inner is_group_dst
unwrap_filter d f b = refl

All-append {ℓ} :
    {A : Type ℓ} (P : A → Type 0) (xs ys : List A) → All P xs → All P ys → All P (xs ++ ys)
All-append P [] ys hx hy = hy
All-append P (x ∷ xs) ys hx hy = (hx.0, All-append P xs ys hx.1 hy)

All-mono {ℓ} :
    {A : Type ℓ} (P Q : A → Type 0) (xs : List A) → ((x : A) → P x → Q x) → All P xs → All Q xs
All-mono P Q [] f h = tt
All-mono P Q (x ∷ xs) f h = (f x h.0, All-mono P Q xs f h.1)

delivered-ComesFrom :
    (d : Device) (b : List ℕ) → All (λ (q : List ℕ). ComesFrom d q b) (delivered (unwrap d b) b)
unfolding delivered
delivered-ComesFrom d b = split (unwrap d b) refl
  where
    split :
        (r : Option (List ℕ) × Bool)
        → unwrap d b ≡ r
        → All (λ (q : List ℕ). ComesFrom d q b) (delivered r b)
    split (inner, false) e = (inl (refl, ground arith), tt)
    split (some inner, true) e = (inr e, tt)
    split (none, true) e = tt

module _ (texts : Texts) (divert : Option (List ℕ → Bool)) where
  write_one-ComesFrom :
      (d : Device) (now : ℕ) (b : List ℕ)
      → All (λ (q : List ℕ). ComesFrom d q b) (write_one texts divert d now b).0
  unfolding write_one
  write_one-ComesFrom d now b =
      let (pass, f) = ask_filter texts divert d.filter (view (unwrap d b) b) now in
      elim (Bool-cases pass) [
        | inr refused ↦ rw refused tt
        | inl passes ↦ elim (Bool-cases (diverted texts divert divert b)) [
          | inl kept ↦ rw (passes, kept) tt
          | inr free ↦ rw (passes, free, unwrap_filter d f b) (delivered-ComesFrom d b)
        ]
      ]

  write_one_device :
      (d : Device) (now : ℕ) (b : List ℕ)
      → (write_one texts divert d now b).1
        ≡ record d { filter = (ask_filter texts divert d.filter (view (unwrap d b) b) now).1 }
  unfolding write_one
  write_one_device d now b = ground arith

  ComesFrom-write_one :
      (d : Device) (now : ℕ) (b q c : List ℕ)
      → ComesFrom (write_one texts divert d now b).1 q c
      → ComesFrom d q c
  ComesFrom-write_one d now b q c h =
      let same : unwrap (write_one texts divert d now b).1 c ≡ unwrap d c =
        ap (λ (e : Device). unwrap e c) (write_one_device d now b) ∙ unwrap_filter d _ c in
      ground arith

  Any-write_one :
      (d : Device) (now : ℕ) (b q : List ℕ) (bufs : List (List ℕ))
      → Any (λ (c : List ℕ). ComesFrom (write_one texts divert d now b).1 q c) bufs
      → Any (λ (c : List ℕ). ComesFrom d q c) bufs
  Any-write_one d now b q [] h = h
  Any-write_one d now b q (c ∷ bufs) (inl h) = inl (ComesFrom-write_one d now b q c h)
  Any-write_one d now b q (c ∷ bufs) (inr h) = inr (Any-write_one d now b q bufs h)

  -- Whatever the filter and the exit node keep, each packet that `Write` hands to the OS is an
  -- incoming packet that is no wrapped broadcast, unchanged, or the broadcast that `unwrap` accepts
  -- out of an incoming packet.
  pub write-ComesFrom :
      (d : Device) (now : ℕ) (bufs : List (List ℕ))
      → All
          (λ (q : List ℕ). Any (λ (b : List ℕ). ComesFrom d q b) bufs)
          (write texts divert d now bufs).0
  unfolding write
  write-ComesFrom d now [] = tt
  write-ComesFrom d now (b ∷ bufs) =
      let P = λ (q : List ℕ). Any (λ (c : List ℕ). ComesFrom d q c) (b ∷ bufs) in
      let d' = (write_one texts divert d now b).1 in
      let first = (write_one texts divert d now b).0 in
      let rest = (write texts divert d' now bufs).0 in
      All-append P first rest
        (All-mono (λ q. ComesFrom d q b) P first (λ q h. inl h) (write_one-ComesFrom d now b))
        (All-mono (λ (q : List ℕ). Any (λ (c : List ℕ). ComesFrom d' q c) bufs) P rest
          (λ q h. inr (Any-write_one d now b q bufs h)) (write-ComesFrom d' now bufs))

  asked :
      (f : Filter) (o : Option Filter) (p : List ℕ) (now : ℕ)
      → o ≡ some f
      → (ask_filter texts divert o (some p) now).0 ≡ true
      → (inbound texts f p now).0 ≡ true
  unfolding ask_filter
  asked f o p now e h = ground arith

  delivered_filtered :
      (f : Filter) (o : Option Filter) (now : ℕ) (b : List ℕ) (r : Option (List ℕ) × Bool)
      → o ≡ some f
      → (ask_filter texts divert o (view r b) now).0 ≡ true
      → All (λ (q : List ℕ). (inbound texts f q now).0 ≡ true) (delivered r b)
  unfolding view delivered
  delivered_filtered f o now b (inner, false) e h = (asked f o b now e h, tt)
  delivered_filtered f o now b (some inner, true) e h = (asked f o inner now e h, tt)
  delivered_filtered f o now b (none, true) e h = tt

  -- With access rules, a packet that reaches the OS is one that the filter lets pass: for a wrapped
  -- broadcast the filter is asked about the broadcast itself.
  pub write_one_filtered :
      (d : Device) (f : Filter) (now : ℕ) (b : List ℕ)
      → d.filter ≡ some f
      → All (λ (q : List ℕ). (inbound texts f q now).0 ≡ true) (write_one texts divert d now b).0
  unfolding write_one
  write_one_filtered d f now b has =
      let (pass, f') = ask_filter texts divert d.filter (view (unwrap d b) b) now in
      elim (Bool-cases pass) [
        | inr refused ↦ rw refused tt
        | inl passes ↦ elim (Bool-cases (diverted texts divert divert b)) [
          | inl kept ↦ rw (passes, kept) tt
          | inr free ↦
              rw (passes, free, unwrap_filter d f' b)
                (delivered_filtered f d.filter now b (unwrap d b) has passes)
        ]
      ]
