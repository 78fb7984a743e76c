-- ===== src/Qos/Policies/RoundTrip/Sequences.antt =====
-- The values that are sequences, and durations, on their way to the C library and back.
use cyclonedds_cxx.Common.{ℕ, ◌<◌, ◌≡◌, length, List, [], ◌∷◌, some, refl, arith, ap}
use cyclonedds_cxx.Common.Int.{ℤ}
use cyclonedds_cxx.Time.Result.{ok}
use cyclonedds_cxx.Time.Duration.{Duration}
use cyclonedds_cxx.Qos.Kinds.{DataRepresentationId, xcdr1, xml, xcdr2}
use cyclonedds_cxx.Qos.Conversions.{c_string, to_byte_array, to_duration}
use cyclonedds_cxx.Qos.Conversions.RoundTrip.{IsDuration, IsInfinity, to_duration-from_duration}
use cyclonedds_cxx.Qos.Policies.{Text}
use cyclonedds_cxx.Qos.Policies.ToC.{to_c_strings, to_c_bytes, to_c_duration}
use cyclonedds_cxx.Qos.Policies.KindsToC.{to_dds_data_representation, to_dds_representations}
use cyclonedds_cxx.Qos.Policies.FromC.{of_c_strings, of_psmx_strings, of_c_bytes}
use cyclonedds_cxx.Qos.Policies.KindsFromC.{of_dds_representations}

-- Text without a zero.
abbrev pub IsCText : Text → Type 0
IsCText [] = Unit {0}
IsCText (c ∷ cs) = (0 < c) × IsCText cs

abbrev pub AreCTexts : List Text → Type 0
AreCTexts [] = Unit {0}
AreCTexts (t ∷ ts) = IsCText t × AreCTexts ts

pub c_string_id : (t : Text) → IsCText t → c_string t ≡ t
unfolding c_string
c_string_id [] h = refl
c_string_id (c ∷ cs) (h, hs) = ground (arith, c_string_id cs hs)

pub of_c_strings-to_c_strings :
    (ts : List Text) → AreCTexts ts → of_c_strings (to_c_strings ts) ≡ ts
unfolding of_c_strings to_c_strings
of_c_strings-to_c_strings [] h = refl
of_c_strings-to_c_strings (t ∷ ts) (h, hs) = rw (c_string_id t h, of_c_strings-to_c_strings ts hs)

pub of_psmx_strings-to_c_strings :
    (ts : List Text) → AreCTexts ts → of_psmx_strings (to_c_strings ts) ≡ ok ts
unfolding of_psmx_strings to_c_strings
of_psmx_strings-to_c_strings [] h = refl
of_psmx_strings-to_c_strings (t ∷ ts) (h, hs) =
    rw (c_string_id t h, of_psmx_strings-to_c_strings ts hs)

pub of_dds_representations-to_dds_representations :
    (vs : List DataRepresentationId) → of_dds_representations (to_dds_representations vs) ≡ vs
unfolding of_dds_representations to_dds_representations to_dds_data_representation
of_dds_representations-to_dds_representations [] = refl
of_dds_representations-to_dds_representations (xcdr1 ∷ vs) =
    ap (λ ws. xcdr1 ∷ ws) (of_dds_representations-to_dds_representations vs)
of_dds_representations-to_dds_representations (xml ∷ vs) =
    ap (λ ws. xml ∷ ws) (of_dds_representations-to_dds_representations vs)
of_dds_representations-to_dds_representations (xcdr2 ∷ vs) =
    ap (λ ws. xcdr2 ∷ ws) (of_dds_representations-to_dds_representations vs)

pub length-to_c_strings : (ts : List Text) → length (to_c_strings ts) ≡ length ts
unfolding to_c_strings
length-to_c_strings [] = refl
length-to_c_strings (t ∷ ts) = ground (arith, length-to_c_strings ts)

pub bytes_arrive :
    (d : List ℕ)
    → (0 < length d) × (length d < 0x8000_0000)
    → (to_c_bytes d ≡ ok (some d)) × ((old : List ℕ) → of_c_bytes d old ≡ ok d)
unfolding to_c_bytes of_c_bytes to_byte_array
bytes_arrive [] h = absurd (omega arith)
bytes_arrive (b ∷ bs) h = (ground arith, λ old. ground arith)

pub duration_arrives :
    (infinity : ℕ) (d : Duration)
    → IsInfinity infinity
    → IsDuration d
    → (z : ℤ) × (to_c_duration infinity d ≡ ok (some z)) × (to_duration infinity z ≡ ok d)
unfolding to_c_duration
duration_arrives infinity d far h =
    let (z, e, e') = to_duration-from_duration infinity d far h in (z, rw e, e')
