-- ===== src/Cdr/Properties/Linking/Frames.antt =====
-- One round of the first loop of finish: which links it sets, and that it leaves the others.
use cyclonedds_cxx.Common.{ℕ, ◌≡◌, ◌≢◌, refl, arith, Option, none, some, ◌==◌, if◌then◌else◌}
use cyclonedds_cxx.Cdr.Properties.{Propvec}
use cyclonedds_cxx.Cdr.Properties.Linking.{link_pair, attach}

-- What only the links of a level change.
abbrev pub IsSameBut : Propvec → Propvec → Type 0
IsSameBut pv q = (q.count ≡ pv.count) × ((k : ℕ) → (q.entry k).depth ≡ (pv.entry k).depth)

pub link_pair_frame :
    (i : ℕ) (o : Option ℕ) (q : Propvec) (k : ℕ)
    → ((link_pair i o q).count ≡ q.count)
      × (((link_pair i o q).entry k).depth ≡ (q.entry k).depth)
      × (((link_pair i o q).entry k).parent ≡ (q.entry k).parent)
      × (((link_pair i o q).entry k).first_member ≡ (q.entry k).first_member)
link_pair_frame i none q k = (refl, refl, refl, refl)
link_pair_frame i (some j) q k = ground arith

pub link_pair-next :
    (i : ℕ) (o : Option ℕ) (q : Propvec) (k : ℕ)
    → (q.entry i).next_on_level ≡ none
    → ((link_pair i o q).entry k).next_on_level ≡ (if k == i then o else (q.entry k).next_on_level)
link_pair-next i none q k h = ground arith
link_pair-next i (some j) q k h = ground arith

pub link_pair-prev :
    (i j : ℕ) (q : Propvec) → ((link_pair i (some j) q).entry j).prev_on_level ≡ some i
link_pair-prev i j q = ground arith

pub link_pair-prev_ne :
    (i : ℕ) (o : Option ℕ) (q : Propvec) (j : ℕ)
    → o ≢ some j
    → ((link_pair i o q).entry j).prev_on_level ≡ (q.entry j).prev_on_level
link_pair-prev_ne i none q j h = refl
link_pair-prev_ne i (some r) q j h = ground arith

pub attach_frame :
    (i : ℕ) (prev par : Option ℕ) (q : Propvec) (k : ℕ)
    → ((attach i prev par q).count ≡ q.count)
      × (((attach i prev par q).entry k).depth ≡ (q.entry k).depth)
      × (((attach i prev par q).entry k).next_on_level ≡ (q.entry k).next_on_level)
      × (((attach i prev par q).entry k).prev_on_level ≡ (q.entry k).prev_on_level)
      × (((attach i prev par q).entry k).parent ≡ (if k == i then par else (q.entry k).parent))
attach_frame i (some r) none q k = ground arith
attach_frame i (some r) (some p) q k = ground arith
attach_frame i none none q k = ground arith
attach_frame i none (some p) q k = ground arith

pub attach-first :
    (i p : ℕ) (q : Propvec) (k : ℕ)
    → ((attach i none (some p) q).entry k).first_member
      ≡ (if k == p then some i else (q.entry k).first_member)
attach-first i p q k = ground arith

pub attach-first_some :
    (i r : ℕ) (par : Option ℕ) (q : Propvec) (k : ℕ)
    → ((attach i (some r) par q).entry k).first_member ≡ (q.entry k).first_member
attach-first_some i r none q k = ground arith
attach-first_some i r (some p) q k = ground arith

pub attach-first_none :
    (i : ℕ) (prev : Option ℕ) (q : Propvec) (k : ℕ)
    → ((attach i prev none q).entry k).first_member ≡ (q.entry k).first_member
attach-first_none i none q k = ground arith
attach-first_none i (some r) q k = ground arith
