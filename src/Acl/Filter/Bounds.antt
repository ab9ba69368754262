-- ===== src/Acl/Filter/Bounds.antt =====
-- The flow table stays within its limit, one entry to a flow, whatever packets come and go.
use zeropentime.Acl.Filter.{
  Flow, Flow_discrete, Filter, max_flows, new_filter, sweep, sweep_if_full, add_if_room, remember,
  outbound, inbound_first, inbound, flow_ttl, flow_of, reply_of, parse, Header,
}
use zeropentime.Acl.Policy.{Policy, Texts}
use zeropentime.Netip.{Addr}
use zeropentime.Prelude.Assoc.{
  lookup, insert, length-insert, Distinct, insert-Distinct, length-insert_of_some,
}
use zeropentime.Prelude.{
  ℕ, ◌-◌, ◌≤◌, ◌≡◌, refl, List, [], ◌∷◌, none, some, Option-cases, arith, ltb, length, Bool-cases,
  inl, inr,
}

-- The table holds at most `max_flows` flows, each once.
pub record IsBounded (f : Filter) : Type 0 where
  pub within : length f.flows ≤ max_flows
  pub once : Distinct Flow_discrete f.flows

pub length-sweep-le : (now : ℕ) (m : List (Flow × ℕ)) → length (sweep now m) ≤ length m
unfolding sweep
length-sweep-le now [] = omega arith
length-sweep-le now ((k, t) ∷ m) = ground (arith, length-sweep-le now m)

lookup-sweep-none :
    (now : ℕ) (k : Flow) (m : List (Flow × ℕ))
    → lookup Flow_discrete k m ≡ none
    → lookup Flow_discrete k (sweep now m) ≡ none
unfolding sweep lookup
lookup-sweep-none now k [] h = refl
lookup-sweep-none now k ((j, t) ∷ m) h = ground (arith, lookup-sweep-none now k m)

sweep-Distinct :
    (now : ℕ) (m : List (Flow × ℕ))
    → Distinct Flow_discrete m
    → Distinct Flow_discrete (sweep now m)
unfolding sweep
sweep-Distinct now [] h = h
sweep-Distinct now ((k, t) ∷ m) h = elim (Bool-cases (ltb flow_ttl (now - t))) [
  | inl old ↦ rw old (sweep-Distinct now m h.1)
  | inr live ↦ rw live (lookup-sweep-none now k m h.0, sweep-Distinct now m h.1)
]

sweep_if_full-IsBounded : (f : Filter) (now : ℕ) → IsBounded f → IsBounded (sweep_if_full f now)
unfolding sweep_if_full
sweep_if_full-IsBounded f now b =
    ground (arith, length-sweep-le now f.flows, sweep-Distinct now f.flows)

add_if_room-IsBounded :
    (f : Filter) (k : Flow) (now : ℕ) → IsBounded f → IsBounded (add_if_room f k now)
unfolding add_if_room
add_if_room-IsBounded f k now b = ground (
  arith,
  length-insert Flow_discrete k now f.flows,
  insert-Distinct Flow_discrete k now f.flows b.once,
)

pub remember-IsBounded :
    (f : Filter) (k : Flow) (now : ℕ) → IsBounded f → IsBounded (remember f k now)
unfolding remember
remember-IsBounded f k now b = add_if_room-IsBounded _ k now (sweep_if_full-IsBounded f now b)

outbound-IsBounded :
    (f : Filter) (pkt : List ℕ) (now : ℕ) → IsBounded f → IsBounded (outbound f pkt now)
unfolding outbound
outbound-IsBounded f pkt now b = ground (arith, remember-IsBounded f (flow_of (parse pkt)) now b)

module _ (texts : Texts) where
  refreshed-IsBounded :
      (f : Filter) (h : Header) (now : ℕ) {t : ℕ}
      → IsBounded f
      → lookup Flow_discrete (reply_of h) f.flows ≡ some t
      → IsBounded (record f { flows = insert Flow_discrete (reply_of h) now f.flows })
  refreshed-IsBounded f h now {t} b e = record {
    within =
        omega (arith, length-insert_of_some Flow_discrete (reply_of h) now t f.flows e, b.within);
    once = insert-Distinct Flow_discrete (reply_of h) now f.flows b.once;
  }

  inbound_first-IsBounded :
      (f : Filter) (h : Header) (now : ℕ) → IsBounded f → IsBounded (inbound_first texts f h now).1
  unfolding inbound_first
  inbound_first-IsBounded f h now b =
      elim (Option-cases (lookup Flow_discrete (reply_of h) f.flows)) [
        | inl e ↦ ground (arith, e, remember-IsBounded f (flow_of h) now b)
        | inr (t, e) ↦
            ground
              (arith, e, refreshed-IsBounded f h now b e, remember-IsBounded f (flow_of h) now b)
      ]

  pub inbound-IsBounded :
      (f : Filter) (pkt : List ℕ) (now : ℕ) → IsBounded f → IsBounded (inbound texts f pkt now).1
  unfolding inbound
  inbound-IsBounded f pkt now b = ground (arith, inbound_first-IsBounded f (parse pkt) now b)

-- What happens to a filter: packets sent and packets received, at their times.
pub data Event : Type 0 where
  sends : List ℕ → ℕ → Event
  receives : List ℕ → ℕ → Event

pub run : Texts → Filter → List Event → Filter
run texts f [] = f
run texts f (sends pkt now ∷ es) = run texts (outbound f pkt now) es
run texts f (receives pkt now ∷ es) = run texts (inbound texts f pkt now).1 es

run_from-IsBounded :
    (texts : Texts) (f : Filter) (es : List Event) → IsBounded f → IsBounded (run texts f es)
unfolding run
run_from-IsBounded texts f [] b = b
run_from-IsBounded texts f (sends pkt now ∷ es) b =
    run_from-IsBounded texts (outbound f pkt now) es (outbound-IsBounded f pkt now b)
run_from-IsBounded texts f (receives pkt now ∷ es) b =
    run_from-IsBounded texts (inbound texts f pkt now).1 es (inbound-IsBounded texts f pkt now b)

-- From a new filter on, whatever packets are sent and received in whatever order and at whatever
-- times, the table holds at most `max_flows` flows, and none twice.
pub run-IsBounded :
    (texts : Texts) (pol : Policy) (self : Addr) (es : List Event)
    → IsBounded (run texts (new_filter pol self) es)
run-IsBounded texts pol self es =
    run_from-IsBounded texts (new_filter pol self) es (record { within = omega arith; once = tt })
