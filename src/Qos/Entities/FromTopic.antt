-- ===== src/Qos/Entities/FromTopic.antt =====
-- What the sets of readers and writers take from the set of a topic: operator = of
-- DataReaderQosDelegate and DataWriterQosDelegate for a topic's set.
use cyclonedds_cxx.Common.{ℕ, true, false, List, [], ◌∷◌, ◌≡◌, ◌≢◌, ◌⊎◌, inl, inr, refl, ◌∙◌, arith}
use cyclonedds_cxx.Time.Result.{ok}
use cyclonedds_cxx.Qos.Policies.{Policy}
use cyclonedds_cxx.Qos.Policies.Bounds.{IsValid}
use cyclonedds_cxx.Qos.Library.{IsIn, IsAbsent, AreDistinct}
use cyclonedds_cxx.Qos.Sets.{QosSet, topic_policies, reader_from_topic, writer_from_topic, assign}
use cyclonedds_cxx.Qos.Sets.Assign.{
  IsTaken, assign_takes, reader_from_topic-AreDistinct, writer_from_topic-AreDistinct,
}
use cyclonedds_cxx.Qos.Entities.Members.{reader_members, writer_members}

IsAbsent-out : (p c : Policy) (qs : List Policy) → IsAbsent p qs → IsIn c qs → p ≢ c
IsAbsent-out p c [] absent i = absurd i
IsAbsent-out p c (q ∷ qs) (ne, absent) (inl e) = λ f. ne (f ∙ e)
IsAbsent-out p c (q ∷ qs) (ne, absent) (inr i) = IsAbsent-out p c qs absent i

fewer-IsAbsent :
    (p : Policy) (ps qs : List Policy)
    → ((c : Policy) → IsIn c ps → IsIn c qs)
    → IsAbsent p qs
    → IsAbsent p ps
fewer-IsAbsent p [] qs among absent = tt
fewer-IsAbsent p (c ∷ cs) qs among absent = (
  λ e. IsAbsent-out p c qs absent (among c (inl refl)) e,
  fewer-IsAbsent p cs qs (λ d i. among d (inr i)) absent,
)

reader_common :
    (p : Policy) → IsIn p topic_policies → IsIn p reader_members → IsIn p reader_from_topic
reader_common p i j = ground arith

reader_among_topic : (p : Policy) → IsIn p reader_from_topic → IsIn p topic_policies
reader_among_topic p i = ground arith

reader_among_own : (p : Policy) → IsIn p reader_from_topic → IsIn p reader_members
reader_among_own p i = ground arith

writer_common :
    (p : Policy) → IsIn p topic_policies → IsIn p writer_members → IsIn p writer_from_topic
writer_common p i j = ground arith

writer_among_topic : (p : Policy) → IsIn p writer_from_topic → IsIn p topic_policies
writer_among_topic p i = ground arith

writer_among_own : (p : Policy) → IsIn p writer_from_topic → IsIn p writer_members
writer_among_own p i = ground arith

-- Of the policies that a topic and the entity have, those whose flag the topic sets have its flag
-- and value; every other flag and value is as it was.
abbrev pub CommonAreTaken : List Policy → QosSet → QosSet → QosSet → Type 0
CommonAreTaken own tqos s s' =
    ((p : Policy) → IsIn p topic_policies → IsIn p own → tqos.present p ≡ true → IsTaken tqos s' p)
    × ((p : Policy)
        → (IsAbsent p topic_policies ⊎ IsAbsent p own) ⊎ (tqos.present p ≡ false)
        → IsTaken s s' p)

takes_common :
    (max_psmx : ℕ) (own ps : List Policy) (tqos s : QosSet)
    → AreDistinct ps
    → ((p : Policy) → IsIn p topic_policies → IsIn p own → IsIn p ps)
    → ((p : Policy) → IsIn p ps → IsIn p topic_policies)
    → ((p : Policy) → IsIn p ps → IsIn p own)
    → ((p : Policy)
        → IsIn p topic_policies
        → tqos.present p ≡ true
        → IsValid max_psmx p (tqos.values p))
    → (s' : QosSet) × (assign max_psmx ps tqos s ≡ ok s') × CommonAreTaken own tqos s s'
takes_common max_psmx own ps tqos s distinct common among_topic among_own valid =
    let (s', e, taken, kept) =
      assign_takes max_psmx ps tqos s distinct (λ p i on. valid p (among_topic p i) on) in
    (
      s',
      e,
      (
        λ p i j on. taken p (common p i j) on,
        λ p o. elim o [
          | inl absent ↦ kept p (
              inl (elim absent [
                | inl a ↦ fewer-IsAbsent p ps topic_policies among_topic a
                | inr a ↦ fewer-IsAbsent p ps own among_own a
              ]))
          | inr off ↦ kept p (inr off)
        ],
      ),
    )

-- Assigning a topic's set, whose values are within their bounds where their flags are set, to the
-- set of a reader and to that of a writer succeeds. Each then has the topic's flag and value of
-- every policy that a topic and it have in common and whose flag the topic sets, and every other
-- flag and value as it was.
pub assign_takes_common :
    (max_psmx : ℕ) (tqos s : QosSet)
    → ((p : Policy)
        → IsIn p topic_policies
        → tqos.present p ≡ true
        → IsValid max_psmx p (tqos.values p))
    → ((s' : QosSet) × (assign max_psmx reader_from_topic tqos s ≡ ok s')
        × CommonAreTaken reader_members tqos s s')
      × ((s' : QosSet) × (assign max_psmx writer_from_topic tqos s ≡ ok s')
          × CommonAreTaken writer_members tqos s s')
assign_takes_common max_psmx tqos s valid = (
  takes_common max_psmx reader_members reader_from_topic tqos s reader_from_topic-AreDistinct
      reader_common reader_among_topic reader_among_own valid,
  takes_common max_psmx writer_members writer_from_topic tqos s writer_from_topic-AreDistinct
      writer_common writer_among_topic writer_among_own valid,
)
