-- ===== src/Cdr/Properties/Linking/Appended.antt =====
-- What append_struct_contents builds: the contents of a type under a member, without links.
use cyclonedds_cxx.Common.{
  ℕ, suc, ◌+◌, ◌-◌, ◌<◌, ◌≤◌, ◌≡◌, refl, ap, ◌∙◌, arith, inl, inr, ltb, Bool-cases,
}
use cyclonedds_cxx.Cdr.Properties.{Entity, Propvec}
use cyclonedds_cxx.Cdr.Properties.Keys.{appended, append_struct_contents}
use cyclonedds_cxx.Cdr.Properties.Linking.Levels.{IsWalk}
use cyclonedds_cxx.Cdr.Properties.Linking.Invariant.{IsBlank}

append_old :
    (a b : Propvec) (j : ℕ) → j < a.count → (append_struct_contents a b).entry j ≡ a.entry j
unfolding append_struct_contents
append_old a b j h = ground arith

append_new :
    (a b : Propvec) (j : ℕ)
    → a.count ≤ j
    → (append_struct_contents a b).entry j ≡ appended (b.entry (j - a.count + 1))
unfolding append_struct_contents
append_new a b j h = ground arith

append-count : (a b : Propvec) → (append_struct_contents a b).count ≡ a.count + (b.count - 1)
unfolding append_struct_contents
append-count a b = refl

appended-depth : (e : Entity) → (appended e).depth ≡ e.depth + 1
unfolding appended
appended-depth e = refl

depth_new :
    (a b : Propvec) (j k : ℕ)
    → a.count ≤ j
    → j - a.count + 1 ≡ k
    → ((append_struct_contents a b).entry j).depth ≡ (b.entry k).depth + 1
depth_new a b j k h e =
    ap (λ (x : Entity). x.depth) (append_new a b j h)
    ∙ appended-depth (b.entry (j - a.count + 1))
    ∙ ap (λ (i : ℕ). (b.entry i).depth + 1) e

descent_new :
    (a b : Propvec) (i : ℕ)
    → IsWalk b
    → 0 < a.count
    → 0 < (a.entry (a.count - 1)).depth
    → suc i < (append_struct_contents a b).count
    → a.count ≤ suc i
    → ((append_struct_contents a b).entry (suc i)).depth
      ≤ ((append_struct_contents a b).entry i).depth + 1
descent_new a b i w p last h new =
    let total = append-count a b in
    elim (Bool-cases (ltb i a.count)) [
      | inl edge ↦
          let before : a.count - 1 ≡ i = ground arith in
          let old = ap (λ (x : Entity). x.depth) (append_old a b i (ground arith)) in
          omega (
            arith,
            depth_new a b (suc i) 1 new (ground arith),
            old,
            ap (λ (k : ℕ). (a.entry k).depth) before,
            last,
            w.root,
            w.descent 0 (ground (arith, total)),
          )
      | inr inner ↦ omega (
        arith,
        depth_new a b (suc i) (suc (i - a.count + 1)) new (ground arith),
        depth_new a b i (i - a.count + 1) (ground arith) refl,
        w.descent (i - a.count + 1) (ground (arith, total)),
      )
    ]

-- Behind a vector that ends with a member, the contents of another type go on as a walk.
pub append_struct_contents-IsWalk :
    (a b : Propvec)
    → IsWalk a
    → IsWalk b
    → 0 < a.count
    → 0 < (a.entry (a.count - 1)).depth
    → IsWalk (append_struct_contents a b)
append_struct_contents-IsWalk a b v w p last = record {
  root = ap (λ (e : Entity). e.depth) (append_old a b 0 p) ∙ v.root;
  below = λ i h. elim (Bool-cases (ltb (suc i) a.count)) [
    | inl old ↦ rw (append_old a b (suc i) (ground arith)) (v.below i (ground arith))
    | inr new ↦
        rw (append_new a b (suc i) (ground arith))
          (rw (appended-depth (b.entry (suc i - a.count + 1))) (omega arith))
  ];
  descent = λ i h. elim (Bool-cases (ltb (suc i) a.count)) [
    | inl old ↦
        rw (append_old a b (suc i) (ground arith), append_old a b i (ground arith))
          (v.descent i (ground arith))
    | inr new ↦ descent_new a b i w p last h (ground arith)
  ];
}

-- None of the entries that are appended has a link.
pub append_struct_contents-IsBlank :
    (a b : Propvec) → IsBlank a → IsBlank (append_struct_contents a b)
unfolding append_struct_contents appended
append_struct_contents-IsBlank a b v = record {
  no_next = λ i. ground (arith, v.no_next i);
  no_prev = λ i. ground (arith, v.no_prev i);
  no_first = λ i. ground (arith, v.no_first i);
}
