-- ===== src/Qos/Sets.antt =====
-- The sets of policies that entities have: TopicQosDelegate, PublisherQosDelegate and
-- SubscriberQosDelegate (topic/qos, pub/qos and sub/qos under
-- src/ddscxx/src/org/eclipse/cyclonedds), and what DataReaderQosDelegate and DataWriterQosDelegate
-- take from a topic's.
pub mod Sending
pub mod Receiving
pub mod RoundTrip
pub mod Assign
pub mod Bounds
use cyclonedds_cxx.Common.{
  ℕ, Bool, true, false, if◌then◌else◌, List, [], ◌∷◌, Option, some, none, ◌≡◌, ◌≢◌,
}
use cyclonedds_cxx.Time.Result.{Result, ok, throws, ◌>>=◌, ◌>>◌, out_of_resources}
use cyclonedds_cxx.Qos.Policies.{
  Policy, user_data, topic_data, group_data, durability, durability_service, deadline,
  latency_budget, lifespan, time_based_filter, liveliness, reliability, destination_order, history,
  resource_limits, transport_priority, ownership, ownership_strength, presentation, partition,
  reader_data_lifecycle, writer_data_lifecycle, writer_batching, data_representation,
  type_consistency, psmx_instances, ignore_local, entity_name, entity_factory, DurabilityService,
  Liveliness, Reliability, History, ResourceLimits, Presentation, ReaderDataLifecycle,
  TypeConsistencyEnforcement, Text, Delegate, Value,
}
use cyclonedds_cxx.Qos.Policies.Check.{check, check_history_against, check_deadline_against}
use cyclonedds_cxx.Qos.Policies.Transfer.{set_c_policy, set_iso_policy}
use cyclonedds_cxx.Qos.Library
use cyclonedds_cxx.Qos.Library.{Library}
use mathlib.Mathlib.Logic.Function.Basic.{update}

pub Policy-discrete : Discrete Policy
Policy-discrete = hlevel

-- The members of a delegate. Of the flags present_ those of policies are held; a delegate has a
-- member for the policies of its list alone, and never uses others.
pub record QosSet : Type 0 where
  pub present : Policy → Bool
  pub values : (p : Policy) → Delegate p

abbrev pub add_present : Policy → QosSet → QosSet
add_present p s = record s { present = update Policy-discrete s.present p true }

abbrev pub with_value : (p : Policy) → Delegate p → QosSet → QosSet
with_value p d s = record s { values = update Policy-discrete s.values p d }

-- policy(const dds::core::policy::... &)
unfoldable pub set_policy : ℕ → (p : Policy) → Delegate p → QosSet → Result QosSet
unfolding check
set_policy max_psmx p d s = do check max_psmx p d; ok (with_value p d (add_present p s))

-- The policies of each set, in the order of its functions ddsc_qos.
abbrev pub topic_policies : List Policy
topic_policies =
    topic_data ∷ durability ∷ durability_service ∷ deadline ∷ latency_budget ∷ liveliness
    ∷ reliability ∷ destination_order ∷ history ∷ resource_limits ∷ transport_priority ∷ lifespan
    ∷ ownership ∷ data_representation ∷ type_consistency ∷ []

-- Of a publisher and of a subscriber.
abbrev pub group_policies : List Policy
group_policies = presentation ∷ partition ∷ group_data ∷ entity_factory ∷ []

-- What a reader and a writer take from a topic, in the order of operator =.
abbrev pub reader_from_topic : List Policy
reader_from_topic =
    durability ∷ deadline ∷ latency_budget ∷ liveliness ∷ reliability ∷ destination_order ∷ history
    ∷ resource_limits ∷ ownership ∷ data_representation ∷ type_consistency ∷ []

abbrev pub writer_from_topic : List Policy
writer_from_topic =
    durability ∷ durability_service ∷ deadline ∷ latency_budget ∷ liveliness ∷ reliability
    ∷ destination_order ∷ history ∷ resource_limits ∷ transport_priority ∷ lifespan ∷ ownership
    ∷ data_representation ∷ type_consistency ∷ []

-- operator = of a topic's set, policy by policy.
unfoldable pub assign : ℕ → List Policy → QosSet → QosSet → Result QosSet
unfolding set_policy
assign max_psmx [] tqos s = ok s
assign max_psmx (p ∷ ps) tqos s =
    (if tqos.present p then set_policy max_psmx p (tqos.values p) s else ok s)
    >>= assign max_psmx ps tqos

-- TopicQosDelegate::check and DataWriterQosDelegate::check
unfoldable pub check_history_of : QosSet → Result (Unit {0})
unfolding check_history_against
check_history_of s = check_history_against (s.values resource_limits) (s.values history)

-- DataReaderQosDelegate::check
unfoldable pub check_reader : QosSet → Result (Unit {0})
unfolding check_history_of check_deadline_against
check_reader s = do
  check_history_of s
  check_deadline_against (s.values time_based_filter) (s.values deadline)

module _ (lib : Library) where
  unfoldable pub set_c_policies : List Policy → QosSet → lib.Qos → Result lib.Qos
  unfolding set_c_policy
  set_c_policies [] s q = ok q
  set_c_policies (p ∷ ps) s q =
      (if s.present p then set_c_policy lib p (s.values p) q else ok q) >>= set_c_policies ps s

  abbrev pub created : Result lib.Qos
  created = elim lib.create [ none ↦ throws out_of_resources | some q ↦ ok q ]

  -- ddsc_qos() of a set with these policies.
  unfoldable pub to_ddsc : List Policy → QosSet → Result lib.Qos
  unfolding set_c_policies
  to_ddsc ps s = created >>= set_c_policies ps s

  unfoldable pub set_iso_policies : List Policy → lib.Qos → QosSet → Result QosSet
  unfolding set_iso_policy
  set_iso_policies [] q s = ok s
  set_iso_policies (p ∷ ps) q s =
      (if lib.present q p
        then (set_iso_policy lib p q (s.values p) >>= λ d. ok (with_value p d s))
        else ok s)
      >>= set_iso_policies ps q

  -- ddsc_qos(const dds_qos_t*, bool copy_flags)
  unfoldable pub from_ddsc : List Policy → lib.Qos → Bool → QosSet → Result QosSet
  unfolding set_iso_policies
  from_ddsc ps q copy_flags s =
      set_iso_policies ps q (if copy_flags then record s { present = lib.present q } else s)

  -- The constructors of a topic's, and of a publisher's or subscriber's set, from a default of the
  -- C library and the values that the members are initialised to.
  unfoldable pub construct_topic : lib.Qos → QosSet → Result QosSet
  unfolding from_ddsc check_history_of
  construct_topic default fresh = do
    s ← from_ddsc topic_policies default true fresh
    let t = record s { present = update Policy-discrete s.present data_representation false }
    check_history_of t
    ok t

  unfoldable pub construct_group : lib.Qos → QosSet → Result QosSet
  unfolding from_ddsc
  construct_group default fresh = from_ddsc group_policies default true fresh
