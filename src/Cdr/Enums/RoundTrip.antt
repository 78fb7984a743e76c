-- ===== src/Cdr/Enums/RoundTrip.antt =====
-- read_enum_impl takes off the stream what write_enum_impl of a type of the same size put there.
use cyclonedds_cxx.Common.{
  ℕ, zero, suc, ◌+◌, ◌*◌, ◌≤◌, ◌<◌, List, ◌∷◌, ◌≡◌, refl, sym, ◌∙◌, ap, inl, arith, length, All,
}
use mathlib.Core.List.{map}
use cyclonedds_cxx.Common.Memory.{Agrees}
use cyclonedds_cxx.Cdr.Stream.{to_move}
use cyclonedds_cxx.Cdr.State.{Stream, StreamMode, ok}
use cyclonedds_cxx.Cdr.Bytes.{Width, one, two, four, eight, size}
use cyclonedds_cxx.Cdr.Bytes.Swap.{bound}
use cyclonedds_cxx.Cdr.Primitive.{loaded_all, write}
use cyclonedds_cxx.Cdr.Primitive.Bounds.{behind, passed}
use cyclonedds_cxx.Cdr.Primitive.RoundTrip.{
  SameCursor, read_fits, read-write, write-eq-ok, SameCursor-behind,
}
use cyclonedds_cxx.Cdr.Ready.{IsReady, new_alignment, padding, IsReady-advance}
use cyclonedds_cxx.Cdr.Enums.{read_enum_impl, write_enum_impl}

-- Behind a value of a width the next one of it needs no padding.
padding-passed :
    {m : StreamMode} {end : ℕ} {t : Stream} (r : IsReady m end t) (i : Width)
    → (padding (size i) (passed i 1 t) ≡ 0)
      × (new_alignment (size i) (passed i 1 t) ≡ new_alignment (size i) t)
unfolding to_move
padding-passed r one = (ground arith, ground arith)
padding-passed r two = (ground arith, ground arith)
padding-passed r four = (ground arith, ground arith)
padding-passed r eight = (ground arith, ground arith)

-- Reading one by one what fits is reading it as a block, each value converted.
read_enum_fits :
    (conversion : ℕ → ℕ) (i : Width) (n : ℕ) {end : ℕ} {t : Stream}
    (r : IsReady StreamMode.read end t)
    → behind i (suc n) t ≤ end
    → read_enum_impl conversion i (suc n) t
      ≡ ok
          (map conversion
            (loaded_all t.native t.swap t.buffer i (t.position + padding (size i) t) (suc n)))
          (passed i (suc n) t)
unfolding read_enum_impl loaded_all
read_enum_fits conversion i zero r h = ground (arith, read_fits r i 1 h)
read_enum_fits conversion i (suc n) {t = t} r h =
    let (none_left, same) = padding-passed r i in
    let ready =
      IsReady-advance r (inl refl) (behind i 1 t) (new_alignment (size i) t) t.buffer (omega arith)
        (omega arith) in
    let next = read_enum_fits conversion i n ready (omega (arith, none_left)) in
    ground (arith, read_fits r i 1 (omega arith), next, none_left, same)

write_block : (i : Width) (vs : List ℕ) (s : Stream) → write i vs s ≡ write_enum_impl i i vs s
unfolding write_enum_impl
write_block one vs s = refl
write_block two vs s = refl
write_block four vs s = refl
write_block eight vs s = refl

ok_values : {xs ys : List ℕ} {t t' : Stream} → ok xs t ≡ ok ys t' → xs ≡ ys
ok_values e = cc

-- A reader at the place where write_enum_impl of at least one enumerator, in a type of the size of
-- its C++ type and fewer than 2 ^ 61 bytes, succeeded, whose buffer holds the bytes that it left
-- and reaches as far, gets the enum_conversion of each with read_enum_impl, and stops where the
-- writer stopped. The machine of the reader may have the other byte order.
pub read_enum_impl-write_enum_impl :
    {end end' : ℕ} {s s' t : Stream} (rs : IsReady StreamMode.write end s)
    (rt : IsReady StreamMode.read end' t) (c : SameCursor s t) (conversion : ℕ → ℕ) (i : Width)
    (v : ℕ) (vs : List ℕ)
    → size i * length (v ∷ vs) < 0x2000_0000_0000_0000
    → All (λ v. v < bound i) (v ∷ vs)
    → write_enum_impl i i (v ∷ vs) s ≡ ok tt s'
    → Agrees t.buffer s'.buffer s.position s'.position
    → s'.position ≤ end'
    → (read_enum_impl conversion i (length (v ∷ vs)) t
        ≡ ok (map conversion (v ∷ vs)) (passed i (length (v ∷ vs)) t))
      × SameCursor s' (passed i (length (v ∷ vs)) t)
read_enum_impl-write_enum_impl {end' = end'} {s = s} {s' = s'} {t = t} rs rt c conversion i v vs
      small hv e same fits =
    let block : write i (v ∷ vs) s ≡ ok tt s' = write_block i (v ∷ vs) s ∙ e in
    let (back, cursor) = read-write rs rt c i (v ∷ vs) small hv block same fits in
    let final = (write-eq-ok rs i (v ∷ vs) small block).1 in
    let room : behind i (length (v ∷ vs)) t ≤ end' = omega (
      arith,
      ap (λ (x : Stream). x.position) final,
      SameCursor-behind c i (length (v ∷ vs)),
      fits,
    ) in
    let values = sym (read_fits rt i (length (v ∷ vs)) room) ∙ back in
    (
      read_enum_fits conversion i (length vs) rt room
          ∙ ap (λ xs. ok (map conversion xs) (passed i (length (v ∷ vs)) t)) (ok_values values),
      cursor,
    )
