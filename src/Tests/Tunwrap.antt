-- ===== src/Tests/Tunwrap.antt =====
-- Broadcasts between two members of a room.
use zeropentime.Tests.Packets.{texts, anna, boris, room, policy, packet}
use zeropentime.Acl.Filter.{Filter, new_filter, second}
use zeropentime.Netip.{v4, contains, Addr_discrete}
use zeropentime.Prelude.{
  ℕ, ◌+◌, ◌≤◌, ◌≡◌, ◌⊎◌, refl, true, List, [], ◌∷◌, ◌++◌, All, Any, none, some, arith,
  Bytes_discrete, ℕ_discrete, length,
}
use zeropentime.Tunwrap.Packet.{Device, mode_on, wrap, unwrap, should_forward, is_group_dst}
use zeropentime.Tunwrap.Packet.RoundTrip.{unwrap-wrap}
use zeropentime.Tunwrap.Packet.Spoofing.{IsGenuine, unwrap-IsGenuine}
use zeropentime.Tunwrap.Device.{max_pps, read_loop, read_one, read, write, allow}
use zeropentime.Tunwrap.Device.Limit.{passed, passed-le-max_pps}
use zeropentime.Tunwrap.Device.Stream.{plain, read_lem}
use zeropentime.Tunwrap.Device.Delivery.{ComesFrom, write-ComesFrom}

abbrev device : ℕ → Device
device self = record {
  self = v4 self;
  subnet = room;
  bcast = v4 0x0a6401ff;
  mode = mode_on;
  peers = v4 boris ∷ [];
  pending = [];
  window = 0;
  counter = 0;
  filter = none;
}

-- A game looks for its peers: a UDP packet from anna to the broadcast address.
abbrev hail : List ℕ
hail = packet 17 anna 0xffff_ffff 6112 6112

unwrap-wrap_example : unwrap (device boris) (wrap (device anna) hail (v4 boris)) ≡ (some hail, true)
unfolding should_forward is_group_dst contains Addr_discrete Bytes_discrete ℕ_discrete
unwrap-wrap_example =
    unwrap-wrap (device anna) (device boris) hail anna boris refl refl refl (omega arith) refl
      (omega arith) (λ e. cc) refl refl

abbrev wrapped : List ℕ
wrapped = wrap (device anna) hail (v4 boris)

unwrap-IsGenuine_example : IsGenuine (device boris) wrapped hail
unwrap-IsGenuine_example = unwrap-IsGenuine (device boris) wrapped hail unwrap-wrap_example

passed-le-max_pps_example : passed (device anna) (second ∷ (second + 5) ∷ []) ≤ max_pps
passed-le-max_pps_example =
    passed-le-max_pps (device anna) second ((second + 5) ∷ []) (omega arith) (omega arith)

abbrev outgoing : List (List ℕ)
outgoing = packet 6 anna boris 1 2 ∷ hail ∷ []

read_lem_example :
    (sent : List (List ℕ)) × ((read (device anna) 4 1400 9 outgoing).0
      ≡ plain (device anna) outgoing ++ sent)
    × (sent ++ (read (device anna) 4 1400 9 outgoing).1.pending
        ≡ (read_loop (device anna) 9 outgoing).1.pending)
    × (length (read (device anna) 4 1400 9 outgoing).0 ≤ 4)
    × (((read (device anna) 4 1400 9 outgoing).1.pending ≡ [])
        ⊎ (length (read (device anna) 4 1400 9 outgoing).0 ≡ 4))
unfolding read_loop read_one allow should_forward is_group_dst contains Addr_discrete Bytes_discrete
    ℕ_discrete wrap
read_lem_example = read_lem (device anna) 4 1400 9 outgoing refl (omega arith) (omega arith)

write-ComesFrom_example :
    All
      (λ (q : List ℕ). Any (λ (b : List ℕ). ComesFrom (device boris) q b) (wrapped ∷ []))
      (write texts none (device boris) 9 (wrapped ∷ [])).0
write-ComesFrom_example = write-ComesFrom texts none (device boris) 9 (wrapped ∷ [])

abbrev guard : Filter
guard = new_filter policy (v4 boris)

abbrev guarded : Device
guarded = record (device boris) { filter = some guard }
