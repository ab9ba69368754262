-- ===== src/Tunwrap/Device/Stream.antt =====
-- The outgoing stream: which packets stay, what is queued, and that the queue loses nothing.
use zeropentime.Prelude.{
  ℕ, zero, suc, ◌-◌, ◌≤◌, ◌≡◌, ◌⊎◌, inl, inr, refl, ap, false, List, [], ◌∷◌, ◌++◌, All, arith,
  if◌then◌else◌, length, length-append, ltb,
}
use zeropentime.Tunwrap.Packet.{Device, should_forward, is_group_dst}
use zeropentime.Tunwrap.Device.{allow, read_one, read_loop, drain, read_drained, read_from, read}

-- The packets that are no broadcasts to share.
abbrev pub plain : Device → List (List ℕ) → List (List ℕ)
plain d [] = []
plain d (p ∷ ps) = if should_forward d p then plain d ps else p ∷ plain d ps

-- What `shouldForward` reads of a device.
record SameRoom (d e : Device) : Type 0 where
  self : d.self ≡ e.self
  bcast : d.bcast ≡ e.bcast
  mode : d.mode ≡ e.mode

should_forward-SameRoom :
    (d e : Device) (p : List ℕ) → SameRoom d e → should_forward d p ≡ should_forward e p
unfolding should_forward is_group_dst
should_forward-SameRoom d e p s = simp (s.self, s.bcast, s.mode)

plain-SameRoom : (d e : Device) (ps : List (List ℕ)) → SameRoom d e → plain d ps ≡ plain e ps
plain-SameRoom d e [] s = refl
plain-SameRoom d e (p ∷ ps) s =
    ground (arith, plain-SameRoom d e ps s, should_forward-SameRoom d e p s)

read_one-SameRoom : (d : Device) (now : ℕ) (p : List ℕ) → SameRoom (read_one d now p) d
unfolding read_one allow
read_one-SameRoom d now p = record {
  self = ground arith;
  bcast = ground arith;
  mode = ground arith;
}

kept-plain : (d : Device) (now : ℕ) (ps : List (List ℕ)) → (read_loop d now ps).0 ≡ plain d ps
unfolding read_loop
kept-plain d now [] = refl
kept-plain d now (p ∷ ps) =
    let ih = kept-plain (read_one d now p) now ps in
    let same = plain-SameRoom (read_one d now p) d ps (read_one-SameRoom d now p) in
    ground (arith, ih, same)

-- Every queued packet fits a buffer.
abbrev pub AllFit : ℕ → List (List ℕ) → Type 0
AllFit room = All (λ (p : List ℕ). length p ≤ room)

drain_lem :
    (slots room : ℕ) (pending : List (List ℕ))
    → AllFit room pending
    → ((drain slots room pending).0 ++ (drain slots room pending).1 ≡ pending)
      × (length (drain slots room pending).0 ≤ slots)
      × (((drain slots room pending).1 ≡ []) ⊎ (length (drain slots room pending).0 ≡ slots))
unfolding drain
drain_lem slots room [] h = (refl, omega arith, inl refl)
drain_lem zero room (p ∷ pending) h = (refl, omega arith, inr refl)
drain_lem (suc slots) room (p ∷ pending) h =
    let fits : ltb room (length p) ≡ false = ground arith in
    ground (arith, fits, drain_lem slots room pending h.1)

length-plain-le : (d : Device) (ps : List (List ℕ)) → length (plain d ps) ≤ length ps
length-plain-le d [] = omega arith
length-plain-le d (p ∷ ps) = ground (arith, length-plain-le d ps)

read_idle :
    (d : Device) (slots room now : ℕ) (pkts : List (List ℕ))
    → d.pending ≡ []
    → read d slots room now pkts ≡ read_drained slots room (read_loop d now pkts)
unfolding read read_from
read_idle d slots room now pkts e = ap (λ (l : List (List ℕ)). read_from d slots room now l pkts) e

-- With an empty queue, no more packets than buffers, and every queued copy short enough for a buffer,
-- `Read` hands on the packets that are no broadcasts, all of them and in order, then copies from the
-- head of the queue that the loop has filled; the rest of the queue stays in order. No more packets are
-- handed on than there are buffers, and either every buffer is used or the queue is empty.
pub read_lem :
    (d : Device) (slots room now : ℕ) (pkts : List (List ℕ))
    → d.pending ≡ []
    → length pkts ≤ slots
    → AllFit room (read_loop d now pkts).1.pending
    → (sent : List (List ℕ)) × ((read d slots room now pkts).0 ≡ plain d pkts ++ sent)
      × (sent ++ (read d slots room now pkts).1.pending ≡ (read_loop d now pkts).1.pending)
      × (length (read d slots room now pkts).0 ≤ slots)
      × (((read d slots room now pkts).1.pending ≡ [])
          ⊎ (length (read d slots room now pkts).0 ≡ slots))
unfolding read_drained
read_lem d slots room now pkts empty enough fit =
    let kept = (read_loop d now pkts).0 in
    let queue = (read_loop d now pkts).1.pending in
    let (whole, few, full) = drain_lem (slots - length kept) room queue fit in
    let kept_eq : kept ≡ plain d pkts = kept-plain d now pkts in
    let at_most = length-plain-le d pkts in
    let count : length kept ≡ length (plain d pkts) =
      ap (λ (l : List (List ℕ)). length l) kept_eq in
    let sent = (drain (slots - length kept) room queue).0 in
    (
      sent,
      rw (read_idle d slots room now pkts empty) (ap (λ (l : List (List ℕ)). l ++ sent) kept_eq),
      rw (read_idle d slots room now pkts empty) whole,
      rw (read_idle d slots room now pkts empty) (omega (arith, length-append kept sent)),
      rw (read_idle d slots room now pkts empty) (elim full [
        | inl done ↦ inl done
        | inr used ↦ inr (omega (arith, length-append kept sent))
      ]),
    )
