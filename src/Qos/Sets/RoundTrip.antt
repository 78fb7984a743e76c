-- ===== src/Qos/Sets/RoundTrip.antt =====
-- A set that goes to the C library comes back.
use cyclonedds_cxx.Common.{true, false, List, some, ◌≡◌, inl, inr, sym, ap, ◌∙◌, arith, Bool-cases}
use cyclonedds_cxx.Time.Result.{ok}
use cyclonedds_cxx.Qos.Policies.{Policy}
use cyclonedds_cxx.Qos.Library.{IsIn, Library, AreDistinct}
use cyclonedds_cxx.Qos.Sets.{QosSet, topic_policies, to_ddsc, from_ddsc}
use cyclonedds_cxx.Qos.Sets.Sending.{IsSendable, all_sent}
use cyclonedds_cxx.Qos.Sets.Receiving.{all_received}

pub topic_policies-AreDistinct : AreDistinct topic_policies
topic_policies-AreDistinct = ground arith

-- Where dds_create_qos gives a dds_qos_t, and each policy whose flag is set has a value that the
-- C library can hold, and is not the entity factory's, ddsc_qos() returns one from which
-- ddsc_qos(..., true) of any set of the same distinct policies succeeds, and gives it
-- the same flags, the same values where the flag is set, and leaves its own value elsewhere.
pub from_ddsc-to_ddsc :
    (lib : Library) (ps : List Policy) (s t : QosSet) (empty : lib.Qos)
    → lib.create ≡ some empty
    → AreDistinct ps
    → IsSendable lib.max_psmx ps s
    → (q : lib.Qos) × (t' : QosSet) × (to_ddsc lib ps s ≡ ok q)
      × (from_ddsc lib ps q true t ≡ ok t')
      × ((p : Policy)
          → IsIn p ps
          → (t'.present p ≡ s.present p)
            × ((s.present p ≡ true) → t'.values p ≡ s.values p)
            × ((s.present p ≡ false) → t'.values p ≡ t.values p))
unfolding to_ddsc from_ddsc
from_ddsc-to_ddsc lib ps s t empty made distinct sendable =
    let (q, e, delivered, untouched) = all_sent lib ps s empty distinct sendable in
    let present_eq : (p : Policy) → IsIn p ps → lib.present q p ≡ s.present p = λ p i.
      elim (Bool-cases (s.present p)) [
        | inl on ↦ (delivered p i on).0 ∙ sym on
        | inr off ↦ (untouched p (inr off)).0 ∙ lib.present-create empty p made ∙ sym off
      ] in
    let (t', e', same, f, u) =
      all_received lib ps q (record t { present = lib.present q }) distinct s.values
        (λ p i on. (delivered p i (sym (present_eq p i) ∙ on)).1) in
    (
      q,
      t',
      rw made e,
      e',
      λ p i. (
        ap (λ present. present p) same ∙ present_eq p i,
        λ on. f p i (present_eq p i ∙ on),
        λ off. u p (inr (present_eq p i ∙ off)),
      ),
    )
