-- ===== src/Tunwrap/Device.antt =====
-- The rate limit, and the packet streams through `Read` and `Write`.
pub mod Limit
pub mod Stream
pub mod Delivery
use zeropentime.Acl.Policy.{Texts}
use zeropentime.Acl.Filter.{Filter, outbound, inbound, second}
use zeropentime.Netip.{Addr, Prefix, bits, bits, masked4, v4, v6, invalid}
use zeropentime.Tunwrap.Packet.{Device, mode_on, last_addr, should_forward, wrap, unwrap}
use zeropentime.Prelude.{
  ℕ, zero, suc, ◌+◌, ◌-◌, ◌*◌, ◌≤◌, Bool, true, false, not, ◌&&◌, ◌||◌, List, [], ◌∷◌, ◌++◌, map,
  Option, none, some, ltb, leb, ◌==◌, if◌then◌else◌, length, ◌=text◌,
}

-- Forwarded broadcasts per second and room.
abbrev pub max_pps : ℕ
max_pps = 200

-- `SetMode`: empty means on.
pub set_mode : Device → List ℕ → Device
set_mode d [] = record d { mode = mode_on }
set_mode d (c ∷ m) = record d { mode = c ∷ m }

-- `SetPeers` and `SetFilter`.
pub set_peers : Device → List Addr → Device
set_peers d ips = record d { peers = ips }

pub set_filter : Device → Option Filter → Device
set_filter d f = record d { filter = f }

masked_addr : ℕ → Addr → Addr
masked_addr len (v4 a) = v4 (masked4 a len)
masked_addr len a = a

-- `New`, for a member with an address and its IPv4 network.
pub new_device : Prefix → List ℕ → Device
unfolding masked_addr
new_device self mode =
    set_mode
      (record {
        self = self.ip;
        subnet = record {
          ip = masked_addr (bits self) self.ip;
          bits_plus_one = self.bits_plus_one;
        };
        bcast = last_addr self;
        mode = [];
        peers = [];
        pending = [];
        window = 0;
        counter = 0;
        filter = none;
      })
      mode

-- `allow`: counts a broadcast at the time `now` in the current second.
unfoldable pub allow : Device → ℕ → Bool × Device
allow d now =
    let d' =
      if leb second (now - d.window)
      then record d { window = now; counter = 1 }
      else record d { counter = d.counter + 1 } in
    (leb d'.counter max_pps, d')

wrap_all : Device → List ℕ → List (List ℕ)
wrap_all d pkt = map (wrap d pkt) d.peers

-- An outgoing broadcast: a copy for each peer is queued, if the rate allows.
queue_broadcast : Device → List ℕ → ℕ → Device
unfolding wrap_all
queue_broadcast d pkt now =
    let (pass, d') = allow d now in
    if pass then record d' { pending = d'.pending ++ wrap_all d' pkt } else d'

remember_sent : Option Filter → List ℕ → ℕ → Option Filter
remember_sent none pkt now = none
remember_sent (some f) pkt now = some (outbound f pkt now)

-- One outgoing packet in the loop of `Read`: queued for the peers, or shown to the filter.
unfoldable pub read_one : Device → ℕ → List ℕ → Device
unfolding queue_broadcast remember_sent
read_one d now pkt =
    if should_forward d pkt
    then queue_broadcast d pkt now
    else record d { filter = remember_sent d.filter pkt now }

-- The loop of `Read` over the packets that the OS sent: the packets that stay, in order.
unfoldable pub read_loop : Device → ℕ → List (List ℕ) → List (List ℕ) × Device
read_loop d now [] = ([], d)
read_loop d now (pkt ∷ pkts) =
    let (rest, d') = read_loop (read_one d now pkt) now pkts in
    (if should_forward d pkt then rest else pkt ∷ rest, d')

-- `drainLocked`: queued packets into the free buffers; one that does not fit is dropped.
unfoldable pub drain : ℕ → ℕ → List (List ℕ) → List (List ℕ) × List (List ℕ)
drain slots room [] = ([], [])
drain zero room (p ∷ pending) = ([], p ∷ pending)
drain (suc slots) room (p ∷ pending) = elim (ltb room (length p)) [
  | true ↦ drain (suc slots) room pending
  | false ↦ let (out, left) = drain slots room pending in (p ∷ out, left)
]

-- Behind the loop the queue goes into the buffers that are still free.
unfoldable pub read_drained : ℕ → ℕ → List (List ℕ) × Device → List (List ℕ) × Device
read_drained slots room (kept, d) =
    let (out, left) = drain (slots - length kept) room d.pending in
    (kept ++ out, record d { pending = left })

unfoldable pub read_from :
    Device → ℕ → ℕ → ℕ → List (List ℕ) → List (List ℕ) → List (List ℕ) × Device
read_from d slots room now [] pkts = read_drained slots room (read_loop d now pkts)
read_from d slots room now (p ∷ pending) pkts =
    let (out, left) = drain slots room (p ∷ pending) in (out, record d { pending = left })

-- `Read` with `slots` buffers: what AmneziaWG gets, and the device behind it. `pkts` are the packets
-- that the OS has sent; none are read while copies are queued. (The pump of divert.go is off.)
unfoldable pub read : Device → ℕ → ℕ → ℕ → List (List ℕ) → List (List ℕ) × Device
read d slots room now pkts = read_from d slots room now d.pending pkts

-- What the filter is asked about: the inner packet of a wrapped one, if it is acceptable.
unfoldable pub view : Option (List ℕ) × Bool → List ℕ → Option (List ℕ)
view (inner, true) b = inner
view (inner, false) b = some b

-- What is left of a packet for the OS.
unfoldable pub delivered : Option (List ℕ) × Bool → List ℕ → List (List ℕ)
delivered (inner, false) b = b ∷ []
delivered (some inner, true) b = inner ∷ []
delivered (none, true) b = []

module _ (texts : Texts) (divert : Option (List ℕ → Bool)) where
  unfoldable pub ask_filter : Option Filter → Option (List ℕ) → ℕ → Bool × Option Filter
  ask_filter none v now = (true, none)
  ask_filter (some f) none now = (true, some f)
  ask_filter (some f) (some p) now = let (pass, f') = inbound texts f p now in (pass, some f')

  unfoldable pub diverted : Option (List ℕ → Bool) → List ℕ → Bool
  diverted none b = false
  diverted (some keep) b = keep b

  -- One incoming packet in the loop of `Write`.
  unfoldable pub write_one : Device → ℕ → List ℕ → List (List ℕ) × Device
  write_one d now b =
      let (pass, f) = ask_filter d.filter (view (unwrap d b) b) now in
      let d' = record d { filter = f } in
      if not pass
      then ([], d')
      else if diverted divert b
      then ([], d')
      else (delivered (unwrap d' b) b, d')

  -- `Write`: what the OS gets, and the device behind it.
  unfoldable pub write : Device → ℕ → List (List ℕ) → List (List ℕ) × Device
  write d now [] = ([], d)
  write d now (b ∷ bufs) =
      let (out, d') = write_one d now b in let (rest, d'') = write d' now bufs in (out ++ rest, d'')
