-- ===== src/Paths/Index.antt =====
-- The map from keys to peers: the peer at a key has that key.
use zeropentime.Crypto.{Primitives}
use zeropentime.Netip.{AddrPort}
use zeropentime.Paths.{DiscoPeer, DiscoMgr, Draw, Self, Peer, blank, update_at}
use zeropentime.Paths.Actions.{Action, tells, hints, gossips, ticks, handles, step}
use zeropentime.Paths.Answers.{Outcome, handle-Outcome}
use zeropentime.Paths.Messages.{tick_peer_same, handle_msg-IsAsked}
use zeropentime.Paths.Peers.{
  add_hints, add_gossip_hints, new_peer, peer_for, forget_one, forget_peers, mentioned, set_peer,
  set_each, set_peers,
}
use zeropentime.Paths.Search.{tick_peers, tick}
use zeropentime.Prelude.Assoc.{lookup, erase, lookup-insert, lookup-erase}
use zeropentime.Prelude.{
  ℕ, ◌≡◌, refl, sym, ◌∙◌, ap, subst, inl, inr, not, ◌||◌, Bool, List, [], ◌∷◌, ◌++◌, Option, none,
  some, arith, length, get_elem?, set, get_elem?-append, get_elem?-append_end, get_elem?-length,
  get_elem?-set_self, get_elem?-set_ne, Bool-cases, Option-cases, Bytes_discrete, ℕ_discrete,
  ◌=text◌, replicate,
}

-- There is a peer with that key at the reference.
unfoldable pub HasKey : List DiscoPeer → List ℕ → ℕ → Type 0
HasKey store key i = (dp : DiscoPeer) × (get_elem? store i ≡ some dp) × (dp.key ≡ key)

abbrev pub IsIndexed : DiscoMgr → Type 0
IsIndexed d =
    (key : List ℕ) (i : ℕ) → lookup Bytes_discrete key d.by_key ≡ some i → HasKey d.store key i

-- A peer in place of another with its key.
pub set-HasKey :
    (store : List DiscoPeer) (j : ℕ) (dp dp' : DiscoPeer)
    → get_elem? store j ≡ some dp
    → dp'.key ≡ dp.key
    → (key : List ℕ) (i : ℕ) → HasKey store key i
    → HasKey (set store j dp') key i
unfolding HasKey
set-HasKey store j dp dp' there same key i (p, e, own) = elim (ℕ_discrete j i) [
  | yes this ↦
      let at_i : get_elem? store i ≡ some dp = ap (get_elem? store) (sym this) ∙ there in
      (
        dp',
        subst (λ (k : ℕ). get_elem? (set store j dp') k ≡ some dp') this
            (get_elem?-set_self store j dp' (get_elem?-length store j dp there)),
        same ∙ ground (arith, at_i, e, own),
      )
  | no other ↦ (p, get_elem?-set_ne store dp' other ∙ e, own)
]

pub update_at-HasKey :
    (i : Option ℕ) (change : DiscoPeer → DiscoPeer) (store : List DiscoPeer)
    → ((dp : DiscoPeer) → (change dp).key ≡ dp.key)
    → (key : List ℕ) (j : ℕ) → HasKey store key j
    → HasKey (update_at i change store) key j
unfolding update_at
update_at-HasKey none change store keeps key j h = h
update_at-HasKey (some i) change store keeps key j h = elim (Option-cases (get_elem? store i)) [
  | inl e ↦ rw (e, update_at) h
  | inr (dp, e) ↦ rw (e, update_at) (set-HasKey store i dp (change dp) e (keeps dp) key j h)
]

pub erase-IsIndexed :
    (d : DiscoMgr) (k : List ℕ)
    → IsIndexed d
    → IsIndexed (record d { by_key = erase Bytes_discrete k d.by_key })
erase-IsIndexed d k h key i e =
    h key i (ground (arith, lookup-erase Bytes_discrete k key d.by_key, e))

new_peer-IsIndexed :
    (now : ℕ) (id key : List ℕ) (d : DiscoMgr) → IsIndexed d → IsIndexed (new_peer now id key d).1
unfolding new_peer HasKey
new_peer-IsIndexed now id key d h k i e = elim (Bytes_discrete key k) [
  | yes this ↦
      let there : i ≡ length d.store =
        ground (arith, lookup-insert Bytes_discrete key k (length d.store) d.by_key, e, this) in
      (
        blank now id key,
        subst
            (λ (j : ℕ). get_elem? (d.store ++ (blank now id key ∷ [])) j ≡ some (blank now id key))
            (sym there) (get_elem?-append_end d.store (blank now id key)),
        this,
      )
  | no other ↦
      let (p, e', own) =
        h k i (
          ground (arith, lookup-insert Bytes_discrete key k (length d.store) d.by_key, e, other)) in
      (p, get_elem?-append d.store _ i p e', own)
]

peer_for-IsIndexed :
    (now : ℕ) (id key : List ℕ) (d : DiscoMgr) → IsIndexed d → IsIndexed (peer_for now id key d).1
unfolding peer_for
peer_for-IsIndexed now id key d h = elim (Option-cases (lookup Bytes_discrete id d.peers)) [
  | inl e ↦ rw (e, peer_for) (new_peer-IsIndexed now id key d h)
  | inr (i, e) ↦ elim (Option-cases (get_elem? d.store i)) [
    | inl e' ↦ rw (e, e', peer_for) h
    | inr (dp, e') ↦ elim (Bool-cases (dp.key =text key)) [
      | inl same ↦ rw (e, e', same, peer_for) h
      | inr other ↦
          rw (e, e', other, peer_for) (new_peer-IsIndexed now id key _ (erase-IsIndexed d dp.key h))
    ]
  ]
]

forget_one-IsIndexed :
    (id : List ℕ) (i : ℕ) (d : DiscoMgr) → IsIndexed d → IsIndexed (forget_one id i d)
unfolding forget_one
forget_one-IsIndexed id i d h = elim (Bool-cases (mentioned d.by_ctrl id)) [
  | inl still ↦ rw (still, forget_one) h
  | inr gone ↦ elim (Option-cases (get_elem? d.store i)) [
    | inl e ↦ rw (gone, e, forget_one) h
    | inr (dp, e) ↦ rw (gone, e, forget_one) (erase-IsIndexed d dp.key h)
  ]
]

forget_peers-IsIndexed :
    (peers : List (List ℕ × ℕ)) (d : DiscoMgr) → IsIndexed d → IsIndexed (forget_peers peers d)
unfolding forget_peers
forget_peers-IsIndexed [] d h = h
forget_peers-IsIndexed ((id, i) ∷ peers) d h =
    forget_peers-IsIndexed peers (forget_one id i d) (forget_one-IsIndexed id i d h)

pub set_each-IsIndexed :
    (ids : List ℕ → Option (List ℕ)) (now : ℕ) (ours : List ℕ) (active : List ℕ → Bool)
    (peers : List (List ℕ × Peer)) (s : List (List ℕ) × DiscoMgr)
    → IsIndexed s.1
    → IsIndexed (set_each ids now ours active peers s).1
unfolding set_each set_peer
set_each-IsIndexed ids now ours active [] s h = h
set_each-IsIndexed ids now ours active ((id, p) ∷ peers) (list, d) h =
    elim (Bool-cases (not (active id) || p.disco_key =text replicate 32 0)) [
      | inl skipped ↦
          rw (skipped, set_each, set_peer)
            (set_each-IsIndexed ids now ours active peers (list, d) h)
      | inr taken ↦
          let d' = (peer_for now id p.disco_key d).1 in
          rw (taken, set_each, set_peer)
            (set_each-IsIndexed ids now ours active peers _ (λ k j e.
              update_at-HasKey (some (peer_for now id p.disco_key d).0) _ d'.store (λ dp. refl) k j
                (peer_for-IsIndexed now id p.disco_key d h k j e)))
    ]

pub add_hints-IsIndexed :
    (ids : List (List ℕ)) (addrs : List AddrPort) (d : DiscoMgr)
    → IsIndexed d
    → IsIndexed (add_hints ids addrs d)
unfolding add_hints
add_hints-IsIndexed [] addrs d h = h
add_hints-IsIndexed (id ∷ ids) addrs d h = add_hints-IsIndexed ids addrs _ (λ k j e.
    update_at-HasKey (lookup Bytes_discrete id d.peers) _ d.store (λ dp. refl) k j (h k j e))

module _ (c : Primitives) (self : Self) where
  tick_peers-HasKey :
      (now : ℕ) (draws : ℕ → ℕ → Draw) (peers : List (List ℕ × ℕ)) (store : List DiscoPeer)
      (key : List ℕ) (j : ℕ)
      → HasKey store key j
      → HasKey (tick_peers c self now draws peers store).0 key j
  unfolding tick_peers
  tick_peers-HasKey now draws [] store key j h = h
  tick_peers-HasKey now draws ((id, i) ∷ peers) store key j h =
      elim (Option-cases (get_elem? store i)) [
        | inl e ↦ rw (e, tick_peers) (tick_peers-HasKey now draws peers store key j h)
        | inr (dp, e) ↦
            rw (e, tick_peers)
              (tick_peers-HasKey now draws peers _ key j
                (set-HasKey store i dp _ e (tick_peer_same c self now (draws i) dp).0 key j h))
      ]

  -- Every operation keeps the map from keys to peers right.
  pub step-IsIndexed :
      (node_id_bytes : List ℕ → Option (List ℕ)) (d : DiscoMgr) (a : Action)
      → IsIndexed d
      → IsIndexed (step c self node_id_bytes d a)
  unfolding Outcome set_peers add_gossip_hints tick
  step-IsIndexed ids d (tells now ours ctrl peers active) h =
      forget_peers-IsIndexed (set_each ids now ours active peers ([], d)).1.peers _
        (set_each-IsIndexed ids now ours active peers ([], d) h)
  step-IsIndexed ids d (hints list addrs) h = add_hints-IsIndexed list addrs d h
  step-IsIndexed ids d (gossips id addrs) h = λ k j e.
      update_at-HasKey (lookup Bytes_discrete id d.peers) _ d.store (λ dp. refl) k j (h k j e)
  step-IsIndexed ids d (ticks now draws) h =
      λ k j e. tick_peers-HasKey now draws d.peers d.store k j (h k j e)
  step-IsIndexed ids d (handles now f g pkt from) h =
      elim (handle-Outcome c self now f g from pkt d) [
        | inl (same, quiet) ↦ rw same h
        | inr (sender, m, i, dp, known, after, out) ↦ rw after (λ k j e.
            set-HasKey d.store i dp _ known.stored (handle_msg-IsAsked c self now f g m from dp).0 k
              j (h k j e))
      ]
