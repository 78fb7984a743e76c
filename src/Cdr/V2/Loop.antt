-- ===== src/Cdr/V2/Loop.antt =====
-- The loops over the members on a stream end, however the bytes are.
use cyclonedds_cxx.Common.{
  ℕ, zero, suc, ◌+◌, ◌≤◌, ◌<◌, List, ◌≡◌, ◌⊎◌, refl, arith, inl, inr, Bool, true, false, ◌==◌, some,
  none, Option, Bool-cases, Option-cases, ap, ltb, ltb→le, ltb→lt, subst,
}
use cyclonedds_cxx.Cdr.CustomStack.{top}
use cyclonedds_cxx.Cdr.State.{
  Stream, StreamMode, Outcome, ok, failed, fault, ◌>>=◌, ◌>>◌, must_understand_fail,
  SerializationStatus, pure, checked,
}
use cyclonedds_cxx.Cdr.Stream.{bytes_available, incr_position, raise, add_status, abort_status}
use cyclonedds_cxx.Cdr.Ready.{IsReady, IsReady-advance, peek_cases}
use cyclonedds_cxx.Cdr.Properties.{Propvec}
use cyclonedds_cxx.Cdr.V2.Headers.{Header, read_em_header}
use cyclonedds_cxx.Cdr.V2.Structs.{when}
use cyclonedds_cxx.Cdr.V2.Entities.{
  read_member, member_loop, rounds, skip_member, search_both, take_member,
}
use cyclonedds_cxx.Cdr.V2.Termination.{IsReading, Reaches, read_em_header-Reaches}

IsReady-status :
    {end : ℕ} {s : Stream}
    → IsReady StreamMode.read end s
    → (f : SerializationStatus) → IsReady StreamMode.read end (add_status f s)
unfolding add_status
IsReady-status r f = ground arith

-- A stream whose cursor an untrusted size has taken beyond what may be read.
pub record IsBeyond (end : ℕ) (s : Stream) : Type 0 where
  pub mode_is : s.mode ≡ StreamMode.read
  pub ends : top s.buffer_end ≡ some end
  pub beyond : end < s.position
  pub no_wrap : s.position < 0x8000_0000_0000_0000

-- After a round that goes on, `p` is reached and the stream reads on, or stands beyond the end.
abbrev GoesOn : ℕ → ℕ → List ℕ → ℕ → Stream → Type 0
GoesOn end off rest p s = (IsReading end off rest s ⊎ IsBeyond end s) × (p ≤ s.position)

abbrev Round : ℕ → ℕ → List ℕ → ℕ → Outcome (Option ℕ) → Type 0
Round end off rest p (ok none s) = GoesOn end off rest p s × (p ≤ end)
Round end off rest p (ok (some i) s) = Unit {0}
Round end off rest p (failed s) = Unit {0}
Round end off rest p fault = ⊥

module _ {end off : ℕ} {rest : List ℕ} {s : Stream} (r : IsReading end off rest s) where
  skip_member-GoesOn :
      (s' : Stream) × (skip_member s ≡ ok tt s') × (GoesOn end off rest s.position s')
  skip_member-GoesOn =
      let p = s.position + r.sz in
      let t = record s { position = p; current_alignment = 0 } in
      let e : skip_member s ≡ ok tt t =
        unfold skip_member incr_position top in
        ground (arith, r.sizes, r.sz_lt, r.ready.within, r.ready.end_lt) in
      elim (Bool-cases (ltb end p)) [
        | inl over ↦ (
          t,
          e,
          (
            inr (record {
              mode_is = r.ready.mode_is;
              ends = r.ready.ends;
              beyond = ltb→lt _ _ over;
              no_wrap = omega (arith, r.sz_lt, r.ready.within, r.ready.end_lt);
            }),
            omega arith,
          ),
        )
        | inr near ↦ (
          t,
          e,
          (
            inl (record {
              ready =
                  IsReady-advance r.ready (inl refl) p 0 s.buffer (omega arith) (ltb→le _ _ near);
              offset_is = r.offset_is;
              sz = r.sz;
              sizes = r.sizes;
              sz_lt = r.sz_lt;
            }),
            omega arith,
          ),
        )
      ]

  add_status-IsReading : (f : SerializationStatus) → IsReading end off rest (add_status f s)
  unfolding add_status
  add_status-IsReading f = record {
    ready = IsReady-status r.ready f;
    offset_is = r.offset_is;
    sz = r.sz;
    sizes = r.sizes;
    sz_lt = r.sz_lt;
  }

-- `none` behind a call after which the loop goes on.
Round-none :
    (end off : ℕ) (rest : List ℕ) (p : ℕ) (m : Outcome (Unit {0})) {t : Stream}
    → m ≡ ok tt t
    → GoesOn end off rest p t
    → p ≤ end
    → Round end off rest p (elim m [ ok a s' ↦ ok none s' | failed s' ↦ failed s' | fault ↦ fault ])
Round-none end off rest p (ok a u) e g h = (subst (GoesOn end off rest p) (cc) g, h)
Round-none end off rest p (failed u) e g h = tt
Round-none end off rest p fault e g h = absurd (cc)

raise_cases :
    (f : SerializationStatus) (s : Stream)
    → (raise f s ≡ ok tt (add_status f s)) ⊎ (raise f s ≡ failed (add_status f s))
unfolding raise
raise_cases f s = elim (Bool-cases (abort_status (add_status f s))) [
  | inl stop ↦ inr (rw stop)
  | inr go ↦ inl (rw go)
]

module _ {end off : ℕ} {rest : List ℕ} {s : Stream} (r : IsReading end off rest s) where
  passes_over :
      (p : ℕ)
      → p ≤ s.position
      → p ≤ end
      → Round end off rest p ((skip_member >> pure {A = Option ℕ} none) s)
  passes_over p lo hi =
      let (t, e, (state, on)) = skip_member-GoesOn r in
      Round-none end off rest p (skip_member s) e (state, omega arith) hi

module _ {end off : ℕ} {rest : List ℕ} {s : Stream} (r : IsReading end off rest s) where
  -- A member that is not known is passed over, or ends the call if it has to be understood.
  missing :
      (b : Bool) (p : ℕ)
      → p ≤ s.position
      → p ≤ end
      → Round end off rest p
          ((when b (raise must_understand_fail) >> (skip_member >> pure {A = Option ℕ} none)) s)
  missing false p lo hi = passes_over r p lo hi
  missing true p lo hi = elim (raise_cases must_understand_fail s) [
    | inl e ↦
        rw (e, ◌>>=◌)
          (passes_over (add_status-IsReading r must_understand_fail) p (unfold add_status in lo) hi)
    | inr e ↦ rw (e, ◌>>=◌) tt
  ]

  take_member-Round :
      (back : Bool) (pv : Propvec) (i : ℕ) (temp : Header) (sz p : ℕ)
      → p ≤ s.position
      → p ≤ end
      → Round end off rest p (take_member back pv i temp sz s)
  unfolding take_member
  take_member-Round back pv i temp sz p lo hi = elim (Bool-cases (sz == 0)) [
    | inl empty ↦ rw empty ((inl r, lo), hi)
    | inr more ↦ elim (Bool-cases temp.ignore) [
      | inl skip ↦ rw (more, skip) (passes_over r p lo hi)
      | inr keep ↦ elim (Option-cases (search_both back pv i temp.m_id s)) [
        | inl nowhere ↦ rw (more, keep, nowhere) (missing temp.must_understand p lo hi)
        | inr (q, there) ↦ rw (more, keep, there) tt
      ]
    ]
  ]

-- The stages of read_member.
after_header :
    (end off : ℕ) (rest : List ℕ) (p : ℕ) (back : Bool) (pv : Propvec) (i : ℕ) (m : Outcome Header)
    → Reaches end off rest p m
    → Round end off rest p (elim m [
      | ok temp s ↦ ((λ t. checked (top t.e_sz) t) >>= take_member back pv i temp) s
      | failed s ↦ failed s
      | fault ↦ fault
    ])
after_header end off rest p back pv i (ok temp s) (r, lo) =
    let e : top s.e_sz ≡ some r.sz = unfold top in ap top r.sizes in
    rw (e, ◌>>=◌) (take_member-Round r back pv i temp r.sz p lo (omega (arith, r.ready.within)))
after_header end off rest p back pv i (failed s) h = tt
after_header end off rest p back pv i fault h = h

read_member-Round :
    {end off : ℕ} {rest : List ℕ} {s : Stream} (r : IsReading end off rest s) (back : Bool)
    (pv : Propvec) (i : ℕ)
    → Round end off rest (s.position + 4) (read_member back pv i s)
unfolding read_member
read_member-Round {s = s} r back pv i = elim (peek_cases r.ready (inl refl) 4) [
  | inl e ↦
      rw (e, ◌>>=◌) (after_header _ _ _ _ back pv i (read_em_header s) (read_em_header-Reaches r))
  | inr e ↦ rw (e, ◌>>=◌) tt
]

IsBeyond-stops :
    {end : ℕ} {s : Stream} (k : IsBeyond end s) (back : Bool) (pv : Propvec) (i : ℕ)
    → read_member back pv i s ≡ failed s
unfolding read_member bytes_available
IsBeyond-stops k back pv i = ground (arith, k.ends)

abbrev pub NoFault : {A : Type 0} → Outcome A → Type 0
NoFault (ok a s) = Unit {0}
NoFault (failed s) = Unit {0}
NoFault fault = ⊥

on_continue :
    (end off : ℕ) (rest : List ℕ) (p fuel : ℕ) (back : Bool) (pv : Propvec) (i : ℕ)
    (m : Outcome (Option ℕ))
    → Round end off rest p m
    → ((t : Stream) → GoesOn end off rest p t → p ≤ end → NoFault (member_loop fuel back pv i t))
    → NoFault (elim m [
      | ok (some q) s' ↦ ok q s'
      | ok none s' ↦ member_loop fuel back pv i s'
      | failed s' ↦ failed s'
      | fault ↦ fault
    ])
on_continue end off rest p fuel back pv i (ok none t) (g, h) next = next t g h
on_continue end off rest p fuel back pv i (ok (some q) t) h next = tt
on_continue end off rest p fuel back pv i (failed t) h next = tt
on_continue end off rest p fuel back pv i fault h next = h

stopped_round :
    (fuel : ℕ) (back : Bool) (pv : Propvec) (i : ℕ) (s : Stream) {t : Stream}
    → read_member back pv i s ≡ failed t
    → NoFault (member_loop (suc fuel) back pv i s)
unfolding member_loop
stopped_round fuel back pv i s {t} e = rw (e, NoFault) tt

-- On whatever bytes, the loop over the members ends within a round for each byte that is left,
-- and no assertion fails on the way.
pub member_loop_ends :
    (fuel : ℕ) {end off : ℕ} {rest : List ℕ} {s : Stream}
    → IsReading end off rest s ⊎ IsBeyond end s
    → 0 < fuel
    → end < fuel + s.position
    → (back : Bool) (pv : Propvec) (i : ℕ) → NoFault (member_loop fuel back pv i s)
unfolding member_loop
member_loop_ends zero r pos enough back pv i = absurd (omega arith)
member_loop_ends (suc fuel) (inr k) pos enough back pv i =
    stopped_round fuel back pv i _ (IsBeyond-stops k back pv i)
member_loop_ends (suc fuel) {end} {off} {rest} {s} (inl r) pos enough back pv i =
    on_continue end off rest (s.position + 4) fuel back pv i _ (read_member-Round r back pv i)
      (λ t g h. member_loop_ends fuel g.0 (omega arith) (omega (arith, g.1)) back pv i)

-- The rounds that first_entity and next_entity grant are enough: on whatever bytes, of a stream
-- that is reading a mutable struct (IsReading), the search for the next member ends, with a member
-- or a null pointer, and no assertion fails.
pub member_loop-rounds :
    {end off : ℕ} {rest : List ℕ} {s : Stream} (r : IsReading end off rest s) (back : Bool)
    (pv : Propvec) (i : ℕ)
    → NoFault (member_loop (rounds s) back pv i s)
member_loop-rounds {end} {s = s} r back pv i =
    let fuel_eq : rounds s ≡ end + 1 = ground (arith, r.ready.ends) in
    member_loop_ends (rounds s) (inl r) (omega (arith, fuel_eq)) (omega (arith, fuel_eq)) back pv i
