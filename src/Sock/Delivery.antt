-- ===== src/Sock/Delivery.antt =====
-- Where a packet goes: to the first room whose tag it has, and to no other.
use zeropentime.Netip.{AddrPort}
use zeropentime.Obfs.Tagger.{match, tag_len}
use zeropentime.Sock.{RoomBind, Conn, deliver, dispatch_rooms, dispatch, nothing}
use zeropentime.Prelude.{
  ℕ, ◌≡◌, ◌⊎◌, inl, inr, refl, ◌∙◌, ap, true, false, List, [], ◌∷◌, ◌++◌, none, some, arith, All,
  drop, Bool-cases,
}

module _ (aes : List ℕ → List ℕ → List ℕ) (pkt : List ℕ) (from : AddrPort) where
  -- The packet has the tag of none of these rooms.
  abbrev pub IsForeign : List RoomBind → Type 0
  IsForeign rooms = All (λ b. match (aes b.key) pkt ≡ false) rooms

  dispatch_rooms_foreign :
      (rooms : List RoomBind) → IsForeign rooms → dispatch_rooms aes pkt from rooms ≡ none
  unfolding dispatch_rooms
  dispatch_rooms_foreign [] h = refl
  dispatch_rooms_foreign (b ∷ rooms) (one, rest) = ground (arith, dispatch_rooms_foreign rooms rest)

  dispatch_rooms_first :
      (before after : List RoomBind) (b : RoomBind)
      → IsForeign before
      → match (aes b.key) pkt ≡ true
      → dispatch_rooms aes pkt from (before ++ (b ∷ after))
        ≡ some (before ++ (deliver (drop tag_len pkt) from b ∷ after))
  unfolding dispatch_rooms
  dispatch_rooms_first [] after b h own = ground (arith, own)
  dispatch_rooms_first (a ∷ before) after b (one, rest) own =
      ground (arith, one, dispatch_rooms_first before after b rest own)

  -- The rooms, split at the first one whose tag the packet has.
  pub HasOwner : List RoomBind → Type 0
  HasOwner rooms =
      (before : List RoomBind) × (b : RoomBind) × (after : List RoomBind) × (rooms
        ≡ before ++ (b ∷ after))
      × IsForeign before
      × (match (aes b.key) pkt ≡ true)

  pub rooms_cases : (rooms : List RoomBind) → IsForeign rooms ⊎ HasOwner rooms
  unfolding HasOwner
  rooms_cases [] = inl tt
  rooms_cases (b ∷ rooms) = elim (Bool-cases (match (aes b.key) pkt)) [
    | inl own ↦ inr ([], b, rooms, refl, tt, own)
    | inr other ↦ elim (rooms_cases rooms) [
      | inl foreign ↦ inl (other, foreign)
      | inr (before, a, after, e, foreign, own) ↦
          inr ((b ∷ before), a, after, ap (◌∷◌ b) e, (other, foreign), own)
    ]
  ]

  -- A packet with the tag of no room changes nothing. Otherwise it goes to the first room whose tag it
  -- has, without the tag, and the other rooms stay as they are.
  pub dispatch-IsForeign :
      (c : Conn)
      → (IsForeign c.rooms × ((dispatch aes pkt from c).0 ≡ c))
        ⊎ ((before : List RoomBind) × (b : RoomBind) × (after : List RoomBind) × (c.rooms
              ≡ before ++ (b ∷ after))
            × IsForeign before
            × (match (aes b.key) pkt ≡ true)
            × (dispatch aes pkt from c ≡ (
              record c { rooms = before ++ (deliver (drop tag_len pkt) from b ∷ after) },
              nothing,
            )))
  unfolding dispatch HasOwner
  dispatch-IsForeign c = elim (rooms_cases c.rooms) [
    | inl foreign ↦
        let e = dispatch_rooms_foreign c.rooms foreign in inl (foreign, rw (e, dispatch) refl)
    | inr (before, b, after, e, foreign, own) ↦
        let e' =
          ap (dispatch_rooms aes pkt from) e ∙ dispatch_rooms_first before after b foreign own in
        inr (before, b, after, e, foreign, own, rw (e', dispatch) refl)
  ]
