-- ===== src/Cdr/Members/Completeness.antt =====
-- What check_struct_completeness demands of the members that were read.
use cyclonedds_cxx.Common.{
  ℕ, zero, suc, ◌≤◌, Bool, true, false, not, ◌&&◌, ◌||◌, ◌==◌, if◌then◌else◌, Option, none, some,
  List, [], ◌∷◌, length, ◌≡◌, refl, ap, ◌∙◌, ◌⊎◌, inl, inr, arith,
}
use cyclonedds_cxx.Cdr.State.{must_understand_fail, Stream, StreamMode, KeyMode, ok, failed}
use cyclonedds_cxx.Cdr.Stream.{abort_status, add_status}
use cyclonedds_cxx.Cdr.Properties.{Entity, Propvec, entity, next_entity, bb_32_bits, ext_final}
use cyclonedds_cxx.Cdr.Members.{
  contains, necessary, check_members, check_struct_completeness, is_read,
}
use cyclonedds_cxx.Cdr.Ready.{raise_heeded}

-- The entries `is` are those of the chain from `p` on.
abbrev pub IsChain : KeyMode → Propvec → Option ℕ → List ℕ → Type 0
IsChain key pv p [] = p ≡ none
IsChain key pv p (i ∷ is) = (p ≡ some i) × IsChain key pv (next_entity key (pv.entry i)) is

-- Whether each of them that is necessary was read.
abbrev pub complete : Propvec → List ℕ → List ℕ → Bool
complete pv member_ids [] = true
complete pv member_ids (i ∷ is) =
    (not (necessary (pv.entry i)) || contains member_ids (pv.entry i).m_id)
    && complete pv member_ids is

check_members_chain :
    (fuel : ℕ) (pv : Propvec) (ids : List ℕ) (is : List ℕ) (p : Option ℕ) (s : Stream)
    → s.fault_mask must_understand_fail ≡ true
    → IsChain s.key pv p is
    → length is ≤ fuel
    → check_members fuel pv s.key ids p s
      ≡ (if complete pv ids is then ok tt s else failed (add_status must_understand_fail s))
unfolding check_members
check_members_chain zero pv ids [] p s heeds h len = rw h refl
check_members_chain (suc fuel) pv ids [] p s heeds h len = rw h refl
check_members_chain (suc fuel) pv ids (i ∷ is) p s heeds (h, hs) len =
    let rest =
      check_members_chain fuel pv ids is (next_entity s.key (pv.entry i)) s heeds hs
        (omega arith) in
    rw h (ground (arith, rest, raise_heeded must_understand_fail s))
check_members_chain zero pv ids (i ∷ is) p s heeds h len = absurd (omega arith)

pub guard_open :
    (s : Stream)
    → s.mode ≡ StreamMode.read
    → abort_status s ≡ false
    → (not (is_read s.mode) || abort_status s) ≡ false
guard_open s reads clean = ap (λ m. not (is_read m) || abort_status s) reads ∙ clean

-- Of a stream in mode read that has met no fault that it heeds, and that heeds
-- must_understand_fail: where the entries `is`, at most as many as the vector holds, are the chain
-- of members from the first on, check_struct_completeness succeeds and leaves the stream as it is
-- if each of them that is a key or has to be understood was read, and fails otherwise.
pub check_struct_completeness_chain :
    (pv : Propvec) (props : Entity) (ids is : List ℕ) (s : Stream)
    → s.mode ≡ StreamMode.read
    → abort_status s ≡ false
    → s.fault_mask must_understand_fail ≡ true
    → IsChain s.key pv props.first_member is
    → length is ≤ pv.count
    → check_struct_completeness pv props ids s
      ≡ (if complete pv ids is then ok tt s else failed (add_status must_understand_fail s))
unfolding check_struct_completeness
check_struct_completeness_chain pv props ids is s reads clean heeds chain len =
    rw (guard_open s reads clean)
      (check_members_chain pv.count pv ids is props.first_member s heeds chain len)

-- struct { long a; @key long b; }, as entity_properties_t::finish links it.
abbrev pub key_second : Propvec
unfolding entity
key_second = record {
  count = 3;
  entry = λ i.
      if i == 0
      then record (entity 0 0 false bb_32_bits ext_final false) {
        first_member = some 1;
        first_unsorted_key = some 2;
        first_sorted_key = some 2;
      }
      else if i == 1
      then record (entity 1 0 false bb_32_bits ext_final false) {
        parent = some 0;
        next_on_level = some 2;
      }
      else record (entity 1 1 false bb_32_bits ext_final false) {
        is_key = true;
        parent = some 0;
        prev_on_level = some 1;
      };
}

-- Where only the keys are read, in either order, the check walks from the first member, which is
-- no key, along the keys and so ends there: of a struct with a key as its second member it accepts
-- any set of ids, also one without the key.
pub key_unchecked :
    (ids : List ℕ) (s : Stream)
    → s.mode ≡ StreamMode.read
    → abort_status s ≡ false
    → (s.key ≡ KeyMode.unsorted) ⊎ (s.key ≡ KeyMode.sorted)
    → check_struct_completeness key_second (key_second.entry 0) ids s ≡ ok tt s
unfolding check_struct_completeness check_members next_entity entity
key_unchecked ids s reads clean (inl k) = ground (arith, guard_open s reads clean)
key_unchecked ids s reads clean (inr k) = ground (arith, guard_open s reads clean)
