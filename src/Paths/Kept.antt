-- ===== src/Paths/Kept.antt =====
-- What holds of every peer, through what controllers and others tell.
use zeropentime.Netip.{AddrPort}
use zeropentime.Paths.{DiscoPeer, DiscoMgr, Peer, blank, update_at, max_candidates}
use zeropentime.Paths.Peers.{
  add_candidate, add_candidates, candidates_of, take_hints, add_hints, add_gossip_hints, new_peer,
  peer_for, forget_one, forget_peers, paths_to, set_peer, set_each, set_peers,
}
use zeropentime.Sock.Endpoint.{relay_endpoint}
use zeropentime.Prelude.Assoc.{lookup}
use zeropentime.Prelude.{
  ℕ, ◌+◌, ◌≤◌, ◌≡◌, refl, sym, ◌∙◌, subst, inl, inr, not, ◌||◌, Bool, List, [], ◌∷◌, Option, none,
  some, arith, length, length-append, All, All-append, All-set, All-get_elem?, get_elem?,
  Bool-cases, Option-cases, Bytes_discrete, ◌=text◌, replicate,
}

length-add_candidate :
    (out : List AddrPort) (a : AddrPort)
    → length out ≤ max_candidates
    → length (add_candidate out a) ≤ max_candidates
unfolding add_candidate
length-add_candidate out a h = ground (arith, length-append out (a ∷ []))

length-add_candidates :
    (out addrs : List AddrPort)
    → length out ≤ max_candidates
    → length (add_candidates out addrs) ≤ max_candidates
unfolding add_candidates
length-add_candidates out [] h = h
length-add_candidates out (a ∷ addrs) h =
    length-add_candidates (add_candidate out a) addrs (length-add_candidate out a h)

-- A controller gives at most twelve addresses.
pub length-candidates_of : (p : Peer) → length (candidates_of p) ≤ max_candidates
unfolding candidates_of
length-candidates_of p =
    let own = length-add_candidates [] p.locals (omega arith) in
    let more = length-add_candidates _ p.reflexive (length-add_candidate _ p.port_map own) in
    ground
      (arith, more, length-add_candidate _ (record { addr = p.public_ip; port = p.udp_port }) more)

pub length-take_hints :
    (known addrs out : List AddrPort)
    → length out ≤ max_candidates
    → length (take_hints known out addrs) ≤ max_candidates
unfolding take_hints
length-take_hints known [] out h = h
length-take_hints known (a ∷ addrs) out h =
    length-take_hints known addrs _ (ground (arith, length-append out (a ∷ [])))

length-paths_to :
    (ids : List ℕ → Option (List ℕ)) (ours id : List ℕ) (p : Peer)
    → length (paths_to ids ours id p) ≤ max_candidates + 1
unfolding paths_to
length-paths_to ids ours id p =
    let few = length-candidates_of p in
    elim (Option-cases (ids id)) [
      | inl e ↦ ground (arith, e, few)
      | inr (raw, e) ↦
          ground (arith, e, few, length-append (candidates_of p) (relay_endpoint raw ∷ []))
    ]

update_at-All :
    (P : DiscoPeer → Type 0) (i : Option ℕ) (change : DiscoPeer → DiscoPeer)
    (store : List DiscoPeer)
    → ((dp : DiscoPeer) → P dp → P (change dp))
    → All P store
    → All P (update_at i change store)
unfolding update_at
update_at-All P none change store keeps h = h
update_at-All P (some i) change store keeps h = elim (Option-cases (get_elem? store i)) [
  | inl e ↦ rw (e, update_at) h
  | inr (dp, e) ↦
      rw (e, update_at)
        (All-set P store i (change dp) h (keeps dp (All-get_elem? P store i dp h e)))
]

module _ (P : DiscoPeer → Type 0) where
  -- What is told about a peer keeps `P`, and a new peer has it.
  pub record IsTold : Type 0 where
    pub at_first : (now : ℕ) (id key : List ℕ) → P (blank now id key)
    pub with_candidates :
        (dp : DiscoPeer) (l : List AddrPort)
        → length l ≤ max_candidates + 1
        → P dp
        → P (record dp { candidates = l })
    pub with_hints :
        (dp : DiscoPeer) (l : List AddrPort)
        → length l ≤ max_candidates
        → P dp
        → P (record dp { hints = l })
    pub with_gossip :
        (dp : DiscoPeer) (l : List AddrPort)
        → length l ≤ max_candidates
        → P dp
        → P (record dp { gossip = l })

module _ (P : DiscoPeer → Type 0) (told : IsTold P) where
  pub add_hints-All :
      (ids : List (List ℕ)) (addrs : List AddrPort) (d : DiscoMgr)
      → All P d.store
      → All P (add_hints ids addrs d).store
  unfolding add_hints
  add_hints-All [] addrs d h = h
  add_hints-All (id ∷ ids) addrs d h = add_hints-All ids addrs _ (
      update_at-All P (lookup Bytes_discrete id d.peers) _ d.store
        (λ dp. told.with_hints dp _ (length-take_hints dp.candidates addrs [] (omega arith))) h)

  pub add_gossip_hints-All :
      (id : List ℕ) (addrs : List AddrPort) (d : DiscoMgr)
      → All P d.store
      → All P (add_gossip_hints id addrs d).store
  unfolding add_gossip_hints
  add_gossip_hints-All id addrs d h =
      update_at-All P (lookup Bytes_discrete id d.peers) _ d.store
        (λ dp. told.with_gossip dp _ (length-take_hints dp.candidates addrs [] (omega arith))) h

  new_peer-All :
      (now : ℕ) (id key : List ℕ) (d : DiscoMgr)
      → All P d.store
      → All P (new_peer now id key d).1.store
  unfolding new_peer
  new_peer-All now id key d h = All-append P d.store _ h (told.at_first now id key, tt)

  peer_for-All :
      (now : ℕ) (id key : List ℕ) (d : DiscoMgr)
      → All P d.store
      → All P (peer_for now id key d).1.store
  unfolding peer_for
  peer_for-All now id key d h = elim (Option-cases (lookup Bytes_discrete id d.peers)) [
    | inl e ↦ rw (e, peer_for) (new_peer-All now id key d h)
    | inr (i, e) ↦ elim (Option-cases (get_elem? d.store i)) [
      | inl e' ↦ rw (e, e', peer_for) h
      | inr (dp, e') ↦ elim (Bool-cases (dp.key =text key)) [
        | inl same ↦ rw (e, e', same, peer_for) h
        | inr other ↦ rw (e, e', other, peer_for) (new_peer-All now id key _ h)
      ]
    ]
  ]

  forget_one_store : (id : List ℕ) (i : ℕ) (d : DiscoMgr) → (forget_one id i d).store ≡ d.store
  unfolding forget_one
  forget_one_store id i d = ground arith

  forget_peers_store :
      (peers : List (List ℕ × ℕ)) (d : DiscoMgr) → (forget_peers peers d).store ≡ d.store
  unfolding forget_peers
  forget_peers_store [] d = refl
  forget_peers_store ((id, i) ∷ peers) d =
      forget_peers_store peers (forget_one id i d) ∙ forget_one_store id i d

  set_peer-All :
      (ids : List ℕ → Option (List ℕ)) (now : ℕ) (ours : List ℕ) (active : List ℕ → Bool)
      (id : List ℕ) (p : Peer) (s : List (List ℕ) × DiscoMgr)
      → All P s.1.store
      → All P (set_peer ids now ours active id p s).1.store
  unfolding set_peer
  set_peer-All ids now ours active id p (list, d) h =
      elim (Bool-cases (not (active id) || p.disco_key =text replicate 32 0)) [
        | inl skipped ↦ rw skipped h
        | inr taken ↦ rw taken (
            update_at-All P (some (peer_for now id p.disco_key d).0) _
              (peer_for now id p.disco_key d).1.store
              (λ dp. told.with_candidates dp _ (length-paths_to ids ours id p))
              (peer_for-All now id p.disco_key d h))
      ]

  set_each-All :
      (ids : List ℕ → Option (List ℕ)) (now : ℕ) (ours : List ℕ) (active : List ℕ → Bool)
      (peers : List (List ℕ × Peer)) (s : List (List ℕ) × DiscoMgr)
      → All P s.1.store
      → All P (set_each ids now ours active peers s).1.store
  unfolding set_each
  set_each-All ids now ours active [] s h = h
  set_each-All ids now ours active ((id, p) ∷ peers) s h =
      set_each-All ids now ours active peers _ (set_peer-All ids now ours active id p s h)

  pub set_peers-All :
      (ids : List ℕ → Option (List ℕ)) (now : ℕ) (ours ctrl : List ℕ) (peers : List (List ℕ × Peer))
      (active : List ℕ → Bool) (d : DiscoMgr)
      → All P d.store
      → All P (set_peers ids now ours ctrl peers active d).store
  unfolding set_peers
  set_peers-All ids now ours ctrl peers active d h =
      subst (All P) (sym (forget_peers_store _ _))
        (set_each-All ids now ours active peers ([], d) h)
