-- ===== src/Paths/Mentioned.antt =====
-- A peer is known while a controller names it.
use zeropentime.Paths.{DiscoMgr, Peer}
use zeropentime.Paths.Peers.{forget_one, forget_peers, mentioned, set_each, set_peers}
use zeropentime.Prelude.Assoc.{lookup, insert, lookup-erase}
use zeropentime.Prelude.{
  ℕ, ◌≡◌, refl, sym, ◌∙◌, ap, Bool, true, false, List, [], ◌∷◌, Option, none, some, arith,
  Bool-cases, Bytes_discrete, inl, inr,
}

forget_one_by_ctrl : (id : List ℕ) (i : ℕ) (d : DiscoMgr) → (forget_one id i d).by_ctrl ≡ d.by_ctrl
unfolding forget_one
forget_one_by_ctrl id i d = ground arith

forget_peers_by_ctrl :
    (peers : List (List ℕ × ℕ)) (d : DiscoMgr) → (forget_peers peers d).by_ctrl ≡ d.by_ctrl
unfolding forget_peers
forget_peers_by_ctrl [] d = refl
forget_peers_by_ctrl ((id, i) ∷ peers) d =
    forget_peers_by_ctrl peers (forget_one id i d) ∙ forget_one_by_ctrl id i d

forget_one_left :
    (id : List ℕ) (i : ℕ) (k : List ℕ) (j : ℕ) (d : DiscoMgr)
    → mentioned d.by_ctrl id ≡ false
    → lookup Bytes_discrete id (forget_one k j d).peers ≡ some i
    → (lookup Bytes_discrete id d.peers ≡ some i) × ¬ (k ≡ id)
unfolding forget_one
forget_one_left id i k j d out h = (
  ground (arith, h, lookup-erase Bytes_discrete k id d.peers),
  λ e. ground (arith, h, out, e, lookup-erase Bytes_discrete k id d.peers),
)

forget_peers_left :
    (id : List ℕ) (i : ℕ) (peers : List (List ℕ × ℕ)) (d : DiscoMgr)
    → mentioned d.by_ctrl id ≡ false
    → lookup Bytes_discrete id (forget_peers peers d).peers ≡ some i
    → (lookup Bytes_discrete id d.peers ≡ some i) × (lookup Bytes_discrete id peers ≡ none)
unfolding forget_peers lookup
forget_peers_left id i [] d out h = (h, refl)
forget_peers_left id i ((k, j) ∷ peers) d out h =
    let (there, absent) =
      forget_peers_left id i peers (forget_one k j d)
        (ap (λ (l : List (List ℕ × List (List ℕ))). mentioned l id) (forget_one_by_ctrl k j d)
          ∙ out)
        h in
    let (before, other) = forget_one_left id i k j d out there in
    (before, ground (arith, absent, λ (e : id ≡ k). other (sym e)))

-- After `setPeers` every peer that is still known is named by some controller.
pub set_peers-mentioned :
    (node_id_bytes : List ℕ → Option (List ℕ)) (now : ℕ) (our_relay ctrl : List ℕ)
    (told : List (List ℕ × Peer)) (active : List ℕ → Bool) (d : DiscoMgr) (id : List ℕ) (i : ℕ)
    → lookup Bytes_discrete id (set_peers node_id_bytes now our_relay ctrl told active d).peers
      ≡ some i
    → mentioned (set_peers node_id_bytes now our_relay ctrl told active d).by_ctrl id ≡ true
unfolding set_peers
set_peers-mentioned ids now ours ctrl told active d id i h =
    let (list, d') = set_each ids now ours active told ([], d) in
    let start : DiscoMgr = record d' { by_ctrl = insert Bytes_discrete ctrl list d'.by_ctrl } in
    elim (Bool-cases (mentioned start.by_ctrl id)) [
      | inl named ↦
          ap (λ (l : List (List ℕ × List (List ℕ))). mentioned l id)
            (forget_peers_by_ctrl d'.peers start)
          ∙ named
      | inr out ↦
          let (there, absent) = forget_peers_left id i d'.peers start out h in
          absurd (ground (arith, there, absent))
    ]
