-- ===== src/Qos/Policies/Transfer.antt =====
-- set_c_policy and set_iso_policy on the dds_qos_t of a C library.
use cyclonedds_cxx.Common.{Option, some, none}
use cyclonedds_cxx.Time.Result.{Result, ok, ◌>>=◌}
use cyclonedds_cxx.Qos.Policies.{Policy, Delegate, Value}
use cyclonedds_cxx.Qos.Policies.ToC.{to_c}
use cyclonedds_cxx.Qos.Policies.FromC.{from_option}
use cyclonedds_cxx.Qos.Library.{Library}

module _ (lib : Library) where
  abbrev pub qset_some : (p : Policy) → Option (Value p) → lib.Qos → lib.Qos
  qset_some p none q = q
  qset_some p (some v) q = lib.qset p v q

  unfoldable pub set_c_policy : (p : Policy) → Delegate p → lib.Qos → Result lib.Qos
  unfolding to_c
  set_c_policy p d q = to_c lib.infinity p d >>= λ v. ok (qset_some p v q)

  unfoldable pub set_iso_policy : (p : Policy) → lib.Qos → Delegate p → Result (Delegate p)
  unfolding from_option
  set_iso_policy p q old = from_option lib.infinity p (lib.qget p q) old
