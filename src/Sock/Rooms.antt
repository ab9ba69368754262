-- ===== src/Sock/Rooms.antt =====
-- The rooms of a socket: each once, with a queue that stays within its length.
use zeropentime.Sock.{
  Packet, RoomBind, queue_len, has_room, queued, without_room, set_queue, close_all,
}
use zeropentime.Prelude.{
  ℕ, ◌≤◌, ◌≡◌, ◌≢◌, inl, inr, refl, sym, if◌then◌else◌, ◌∙◌, ap, true, false, List, [], ◌∷◌, ◌++◌,
  Option, none, some, arith, length, drop, length-append, length-drop, Bool-cases, ◌=text◌,
}

-- A queue within its length.
abbrev pub IsShort : Option (List Packet) → Type 0
IsShort none = Unit
IsShort (some q) = length q ≤ queue_len

-- Each key once, each queue within its length.
abbrev pub IsOrderly : List RoomBind → Type 0
IsOrderly [] = Unit
IsOrderly (b ∷ rooms) = (has_room b.key rooms ≡ false) × IsShort b.queue × IsOrderly rooms

-- Rooms with the same keys.
abbrev pub SameKeys : List RoomBind → List RoomBind → Type 0
SameKeys rooms rooms' = (key : List ℕ) → has_room key rooms' ≡ has_room key rooms

pub bind_end-IsOrderly :
    (key : List ℕ) (rooms : List RoomBind)
    → has_room key rooms ≡ false
    → IsOrderly rooms
    → IsOrderly (rooms ++ (record { key = key; queue = none } ∷ []))
      × ((k : List ℕ)
          → has_room k rooms ≡ false
          → key ≢ k
          → has_room k (rooms ++ (record { key = key; queue = none } ∷ [])) ≡ false)
unfolding has_room
bind_end-IsOrderly key [] fresh g = ((refl, tt, tt), λ k e ne. ground arith)
bind_end-IsOrderly key (b ∷ rooms) fresh (one, short, rest) =
    let (ih, has) = bind_end-IsOrderly key rooms (ground arith) rest in
    ((has b.key one (λ e. ground (arith, sym e)), short, ih), λ k e ne. ground (arith, has k))

pub queued-IsShort : (p : Packet) (q : Option (List Packet)) → IsShort q → IsShort (queued p q)
unfolding queued
queued-IsShort p none h = tt
queued-IsShort p (some q) h = ground (arith, length-append q (p ∷ []))

pub drained-IsShort :
    (n : ℕ) (q : List Packet) → length q ≤ queue_len → length (drop n q) ≤ queue_len
drained-IsShort n q h = omega (arith, length-drop n q)

-- A change of one room's queue, and of the rooms whose keys are others.
pub set_queue-IsOrderly :
    (key : List ℕ) (q : Option (List Packet)) (rooms : List RoomBind)
    → IsShort q
    → IsOrderly rooms
    → IsOrderly (set_queue key q rooms) × SameKeys rooms (set_queue key q rooms)
unfolding set_queue has_room
set_queue-IsOrderly key q [] short g = (tt, λ k. refl)
set_queue-IsOrderly key q (b ∷ rooms) short (one, own, rest) =
    let (ih, same) = set_queue-IsOrderly key q rooms short rest in
    elim (Bool-cases (b.key =text key)) [
      | inl this ↦ rw this ((one, short, rest), λ k. refl)
      | inr other ↦ rw other ((same b.key ∙ one, own, ih), λ k. ground (arith, same k))
    ]

pub without_room-IsOrderly :
    (key : List ℕ) (rooms : List RoomBind)
    → IsOrderly rooms
    → IsOrderly (without_room key rooms)
      × ((k : List ℕ) → has_room k rooms ≡ false → has_room k (without_room key rooms) ≡ false)
unfolding without_room has_room
without_room-IsOrderly key [] g = (tt, λ k e. refl)
without_room-IsOrderly key (b ∷ rooms) (one, own, rest) =
    let (ih, has) = without_room-IsOrderly key rooms rest in
    elim (Bool-cases (b.key =text key)) [
      | inl this ↦ rw this (ih, λ k e. has k (ground arith))
      | inr other ↦ rw other ((has b.key one, own, ih), λ k e. ground (arith, has k))
    ]

-- One room in place of another with its key.
pub replaced-IsOrderly :
    (before after : List RoomBind) (b b' : RoomBind)
    → b'.key ≡ b.key
    → (IsShort b.queue → IsShort b'.queue)
    → IsOrderly (before ++ (b ∷ after))
    → IsOrderly (before ++ (b' ∷ after)) × SameKeys (before ++ (b ∷ after)) (before ++ (b' ∷ after))
unfolding has_room
replaced-IsOrderly [] after b b' same short (one, own, rest) = (
  (ap (λ k. has_room k after) same ∙ one, short own, rest),
  λ k. ap (λ (j : List ℕ). if j =text k then true else has_room k after) same,
)
replaced-IsOrderly (a ∷ before) after b b' same short (one, own, rest) =
    let (ih, keys) = replaced-IsOrderly before after b b' same short rest in
    ((keys a.key ∙ one, own, ih), λ k. ground (arith, keys k))

-- A socket whose rooms are all closed.
pub close_all-IsOrderly :
    (rooms : List RoomBind)
    → IsOrderly rooms
    → IsOrderly (close_all rooms) × SameKeys rooms (close_all rooms)
unfolding close_all has_room
close_all-IsOrderly [] g = (tt, λ k. refl)
close_all-IsOrderly (b ∷ rooms) (one, own, rest) =
    let (ih, same) = close_all-IsOrderly rooms rest in
    ((same b.key ∙ one, tt, ih), λ k. ground (arith, same k))
